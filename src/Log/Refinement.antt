-- ===== src/Log/Refinement.antt =====
-- The master's `WriteLog` implements the specification of Log/History.
use tinyco.Prelude.{
  ℕ, ◌+◌, ◌-◌, ◌*◌, ◌^◌, ◌≤◌, ◌<◌, ◌≡◌, refl, sym, ap, ◌∙◌, inl, inr, true, false, none, some, [],
  ◌++◌, arith, ltb, ltb→lt, Bool-cases, length, length-append, Bytes, codes,
}
use mathlib.Core.Path.{subst⁻¹}
use tinyco.Log.Files.{Disk, write_to, filesize}
use tinyco.Log.Local.{
  Logging, Outside, log_name, rotate_loop, rotate, open_file, write_log, write_stream, after_write,
}
use tinyco.Log.Names.{IsNumber}
use tinyco.Log.Sound.{
  IsSound, write_to-IsSound, rotate_loop-IsSound, open_append_new, opened-IsSound,
}
use tinyco.Log.Rotation.{slot, slot-rotate}
use tinyco.Log.History.{
  Logs, add_line, log_line, text_at, text_at-write_to, slot-write_to, text_at-rotate_loop,
  slot-opened, text_at-opened, filesize-some, opened, get_elem?-some,
}

module _ (path : Bytes) where
  -- A master whose stream is on the first file, which is not full.
  pub record IsReady (s : Logging) : Type 0 where
    pub sound : IsSound s.disk
    pub on_path : s.log.filepath ≡ path
    pub on_current : s.log.current_file ≡ log_name path 0
    pub stream : ℕ
    pub on_stream : s.log.file ≡ some stream
    pub first : slot path 0 s.disk ≡ some stream
    pub not_full : (c : Bytes) → text_at path s.disk 0 ≡ some c → length c < 1024 * 1024

  -- The state after the rotation.
  abbrev rotated : Logging → Logging
  rotated s =
      let d = rotate_loop path 100 s.disk in
      record s { log = record s.log { file = some (length d.inodes) }; disk = opened path d }

  rotate_below :
      (s : Logging) (c : Bytes)
      → s.log.current_file ≡ log_name path 0
      → text_at path s.disk 0 ≡ some c
      → length c < 1024 * 1024
      → rotate true s ≡ s
  unfolding rotate
  rotate_below s c p e h =
      let small : ltb (filesize (log_name path 0) s.disk) (1024 * 1024) ≡ true =
        rw (filesize-some path c s.disk e) (ground arith) in
      rw (p, small)

  rotate_full :
      (s : Logging) (c : Bytes)
      → s.log.filepath ≡ path
      → s.log.current_file ≡ log_name path 0
      → text_at path s.disk 0 ≡ some c
      → 1024 * 1024 ≤ length c
      → length c < 2 ^ 32
      → rotate true s ≡ rotated s
  unfolding rotate open_file
  rotate_full s c f p e h k =
      let full : ltb (filesize (log_name path 0) s.disk) (1024 * 1024) ≡ false =
        rw (filesize-some path c s.disk e) (ground arith) in
      let free : slot path 0 (rotate_loop path 100 s.disk) ≡ none =
        slot-rotate path 0 s.disk (omega arith) in
      rw (p, full, f, open_append_new (log_name path 0) (rotate_loop path 100 s.disk) free)

  write_stream_master :
      (o : Outside) (n : ℕ) (s : Logging)
      → o.ppid ≡ 1
      → o.opens ≡ true
      → write_stream o (some n) s
        ≡ rotate true (record s { disk = write_to n (s.log.content ++ codes "\n") s.disk })
  unfolding write_stream after_write
  write_stream_master o n s p q = rw (p, q)

  write_log_master :
      (o : Outside) (n : ℕ) (s : Logging)
      → s.log.file ≡ some n
      → o.ppid ≡ 1
      → o.opens ≡ true
      → write_log o s
        ≡ rotate true (record s { disk = write_to n (s.log.content ++ codes "\n") s.disk })
  unfolding write_log
  write_log_master o n s e p q = ap (λ f. write_stream o f s) e ∙ write_stream_master o n s p q

  text_at_first :
      (d : Disk) (n : ℕ)
      → IsSound d
      → slot path 0 d ≡ some n
      → (c : Bytes) × (text_at path d 0 ≡ some c)
  text_at_first d n h e =
      let (c, q) = get_elem?-some n d.inodes (h.bounded (log_name path 0) n e) in (c, rw e q)

  -- Two texts by number that are the same.
  abbrev pub SameLogs : Logs → Logs → Type 0
  SameLogs f g = (j : ℕ) → IsNumber j → f j ≡ g j

  pub log_line-SameLogs :
      (line : Bytes) (f g : Logs) → SameLogs f g → SameLogs (log_line line f) (log_line line g)
  log_line-SameLogs line f g h j hj =
      let here = h j hj in
      let below = h (j - 1) (omega arith) in let first = h 0 (omega arith) in ground arith

  not_rotated :
      (s : Logging) (c line : Bytes)
      → (r : IsReady s) → text_at path s.disk 0 ≡ some c
      → length (c ++ line) < 1024 * 1024
      → IsReady (record s { disk = write_to r.stream line s.disk })
        × SameLogs
            (text_at path (write_to r.stream line s.disk))
            (log_line line (text_at path s.disk))
  not_rotated s c line r e h =
      let written : SameLogs (text_at path (write_to r.stream line s.disk))
          (add_line line (text_at path s.disk)) =
        λ j hj. text_at-write_to path r.stream j line s.disk r.sound r.first hj in
      (
        record {
          sound = write_to-IsSound r.stream line s.disk r.sound;
          on_path = r.on_path;
          on_current = r.on_current;
          stream = r.stream;
          on_stream = r.on_stream;
          first = slot-write_to path r.stream 0 line s.disk ∙ r.first;
          not_full = λ b q. ground (arith, written 0);
        },
        λ j hj. let here = written j hj in ground arith,
      )

  is_rotated :
      (s : Logging) (c line : Bytes)
      → (r : IsReady s) → text_at path s.disk 0 ≡ some c
      → 1024 * 1024 ≤ length (c ++ line)
      → IsReady (rotated (record s { disk = write_to r.stream line s.disk }))
        × SameLogs
            (text_at path (rotated (record s { disk = write_to r.stream line s.disk })).disk)
            (log_line line (text_at path s.disk))
  is_rotated s c line r e h =
      let d = write_to r.stream line s.disk in
      let written : SameLogs (text_at path (write_to r.stream line s.disk))
          (add_line line (text_at path s.disk)) =
        λ j hj. text_at-write_to path r.stream j line s.disk r.sound r.first hj in
      let sound = rotate_loop-IsSound path 100 d (write_to-IsSound r.stream line s.disk r.sound) in
      let free : slot path 0 (rotate_loop path 100 d) ≡ none = slot-rotate path 0 d (omega arith) in
      let fresh = text_at-opened path 0 (rotate_loop path 100 d) sound (omega arith) in
      (
        record {
          sound = opened-IsSound (log_name path 0) (rotate_loop path 100 d) sound free;
          on_path = r.on_path;
          on_current = r.on_current;
          stream = length (rotate_loop path 100 d).inodes;
          on_stream = refl;
          first = slot-opened path 0 (rotate_loop path 100 d) (omega arith);
          not_full = λ b q. let none_yet : some [] ≡ some b = sym fresh ∙ q in ground arith;
        },
        λ j hj.
            let one = text_at-opened path j (rotate_loop path 100 d) sound hj in
            let two = text_at-rotate_loop path j d hj in
            let here = written j hj in let below = written (j - 1) (omega arith) in ground arith,
      )

  -- A disk and a master's stream on it implement the texts `f`.
  abbrev pub Implements : Logs → Logging → Type 0
  Implements f s = IsReady s × SameLogs (text_at path s.disk) f

  pub ready-step :
      (o : Outside) (s : Logging)
      → IsReady s
      → o.ppid ≡ 1
      → o.opens ≡ true
      → length s.log.content < 2 ^ 31
      → Implements (log_line (s.log.content ++ codes "\n") (text_at path s.disk)) (write_log o s)
  ready-step o s r p q h =
      let line = s.log.content ++ codes "\n" in
      let short : length line < 2 ^ 31 + 1 =
        rw (length-append s.log.content (codes "\n")) (omega arith) in
      let (c, e) = text_at_first s.disk r.stream r.sound r.first in
      let few = r.not_full c e in
      let written : text_at path (write_to r.stream line s.disk) 0 ≡ some (c ++ line) =
        text_at-write_to path r.stream 0 line s.disk r.sound r.first (omega arith) ∙ ground arith in
      let all : length (c ++ line) ≡ length c + length line = length-append c line in
      subst⁻¹ (Implements (log_line line (text_at path s.disk)))
        (write_log_master o r.stream s r.on_stream p q)
        (elim (Bool-cases (ltb (length (c ++ line)) (1024 * 1024))) [
          | inl k ↦
              let few_still : length (c ++ line) < 1024 * 1024 = ltb→lt _ _ k in
              subst⁻¹ (Implements (log_line line (text_at path s.disk)))
                (rotate_below (record s { disk = write_to r.stream line s.disk }) (c ++ line)
                  r.on_current written few_still)
                (not_rotated s c line r e few_still)
          | inr k ↦
              let many : 1024 * 1024 ≤ length (c ++ line) = ground arith in
              subst⁻¹ (Implements (log_line line (text_at path s.disk)))
                (rotate_full (record s { disk = write_to r.stream line s.disk }) (c ++ line)
                  r.on_path r.on_current written many (omega arith))
                (is_rotated s c line r e many)
        ])
