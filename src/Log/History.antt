-- ===== src/Log/History.antt =====
-- What the rotation of log.cc is for, as a specification: texts by number, of which the first is written
-- and all move up when it is full. And what the steps of `WriteLog` do to the texts on a disk.
use tinyco.Prelude.{
  ℕ, zero, suc, ◌-◌, ◌*◌, ◌%◌, ◌^◌, ◌<◌, ◌≡◌, refl, ◌∙◌, inl, inr, Bool, true, not, Option, none,
  some, List, [], ◌∷◌, ◌++◌, arith, ltb, leb, ◌==◌, if◌then◌else◌, Option-cases, length, get_elem?,
  Bytes, codes, insert, lookup-insert,
}
use tinyco.Log.Files.{Disk, append_at, write_to, read, filesize}
use tinyco.Log.Local.{log_name, rotate_loop}
use tinyco.Log.Names.{IsNumber, log_name_injective, eqb-log_name}
use tinyco.Log.Sound.{IsSound, inodes-rotate_loop}
use tinyco.Log.Rotation.{slot, slot-rotate}

-- The texts of the log's files, by number.
abbrev pub Logs : Type 0
Logs = ℕ → Option Bytes

-- The line goes to the first text.
abbrev pub add_line : Bytes → Logs → Logs
add_line line f j = if j == 0 then elim (f 0) [ none ↦ none | some c ↦ some (c ++ line) ] else f j

-- A new first text; 99 stand behind it, and what was the last of them is dropped.
abbrev pub shift_up : Logs → Logs
shift_up f j = if j == 0 then some [] else if leb j 99 then f (j - 1) else f j

abbrev pub is_full : Option Bytes → Bool
is_full none = true
is_full (some c) = not (ltb (length c) (1024 * 1024))

abbrev pub log_line : Bytes → Logs → Logs
log_line line f =
    if is_full (add_line line f 0) then shift_up (add_line line f) else add_line line f

abbrev pub log_lines : List Bytes → Logs → Logs
log_lines [] f = f
log_lines (line ∷ lines) f = log_lines lines (log_line (line ++ codes "\n") f)

abbrev text_of : List Bytes → Option ℕ → Option Bytes
text_of inodes none = none
text_of inodes (some n) = get_elem? inodes n

-- The texts on a disk.
abbrev pub text_at : Bytes → Disk → Logs
text_at path d j = text_of d.inodes (slot path j d)

pub get_elem?-append_at :
    (n m : ℕ) (bs : Bytes) (cs : List Bytes)
    → get_elem? (append_at n bs cs) m ≡ (
        if n == m
        then elim (get_elem? cs m) [ none ↦ none | some c ↦ some (c ++ bs) ]
        else get_elem? cs m)
unfolding append_at
get_elem?-append_at n m bs [] = ground arith
get_elem?-append_at zero zero bs (c ∷ cs) = refl
get_elem?-append_at zero (suc m) bs (c ∷ cs) = ground arith
get_elem?-append_at (suc n) zero bs (c ∷ cs) = ground arith
get_elem?-append_at (suc n) (suc m) bs (c ∷ cs) = get_elem?-append_at n m bs cs ∙ ground arith

pub get_elem?-some :
    (m : ℕ) (cs : List Bytes) → m < length cs → (c : Bytes) × (get_elem? cs m ≡ some c)
get_elem?-some m [] h = absurd (omega arith)
get_elem?-some zero (c ∷ cs) h = (c, refl)
get_elem?-some (suc m) (c ∷ cs) h = get_elem?-some m cs (omega arith)

pub get_elem?-snoc :
    (m : ℕ) (cs : List Bytes) (c : Bytes)
    → m < length cs
    → get_elem? (cs ++ c ∷ []) m ≡ get_elem? cs m
get_elem?-snoc m [] c h = absurd (omega arith)
get_elem?-snoc zero (b ∷ cs) c h = refl
get_elem?-snoc (suc m) (b ∷ cs) c h = get_elem?-snoc m cs c (omega arith)

get_elem?-last : (cs : List Bytes) (c : Bytes) → get_elem? (cs ++ c ∷ []) (length cs) ≡ some c
get_elem?-last [] c = refl
get_elem?-last (b ∷ cs) c = get_elem?-last cs c

module _ (path : Bytes) where
  -- Writing to the first file.
  pub text_at-write_to :
      (n j : ℕ) (line : Bytes) (d : Disk)
      → IsSound d
      → slot path 0 d ≡ some n
      → IsNumber j
      → text_at path (write_to n line d) j ≡ add_line line (text_at path d) j
  unfolding write_to
  text_at-write_to n j line d h e hj = elim (Option-cases (slot path j d)) [
    | inl q ↦ ground arith
    | inr (m, q) ↦
        let same : n ≡ m → 0 ≡ j = λ s.
          log_name_injective path 0 j (omega arith) hj
            (h.distinct (log_name path 0) (log_name path j) m (rw s at e) q) in
        ground (arith, get_elem?-append_at n m line d.inodes, same)
  ]

  pub slot-write_to :
      (n j : ℕ) (line : Bytes) (d : Disk) → slot path j (write_to n line d) ≡ slot path j d
  unfolding write_to
  slot-write_to n j line d = refl

  -- The loop of the rotation, and the file opened behind it.
  pub text_at-rotate_loop :
      (j : ℕ) (d : Disk)
      → IsNumber j
      → text_at path (rotate_loop path 100 d) j
        ≡ (if j == 0 then none else if leb j 99 then text_at path d (j - 1) else text_at path d j)
  text_at-rotate_loop j d hj =
      rw (inodes-rotate_loop path 100 d, slot-rotate path j d hj) (ground arith)

  -- The disk on which the first file was made.
  abbrev pub opened : Disk → Disk
  opened d = record {
    names = insert (log_name path 0) (length d.inodes) d.names;
    inodes = d.inodes ++ [] ∷ [];
  }

  pub slot-opened :
      (j : ℕ) (d : Disk)
      → IsNumber j
      → slot path j (opened d) ≡ (if 0 == j then some (length d.inodes) else slot path j d)
  slot-opened j d hj = rw (
    lookup-insert (log_name path 0) (log_name path j) (length d.inodes) d.names,
    eqb-log_name path 0 j (omega arith) hj,
  )

  pub text_at-opened :
      (j : ℕ) (d : Disk)
      → IsSound d
      → IsNumber j
      → text_at path (opened d) j ≡ (if j == 0 then some [] else text_at path d j)
  text_at-opened j d h hj = elim (Option-cases (slot path j d)) [
    | inl q ↦ rw (slot-opened j d hj, q) (ground (arith, get_elem?-last d.inodes []))
    | inr (m, q) ↦
        let bound = h.bounded (log_name path j) m q in
        rw (slot-opened j d hj, q)
          (ground (arith, get_elem?-last d.inodes [], get_elem?-snoc m d.inodes [] bound))
  ]

  pub filesize-some :
      (c : Bytes) (d : Disk)
      → text_at path d 0 ≡ some c
      → filesize (log_name path 0) d ≡ length c % 2 ^ 32
  unfolding filesize read
  filesize-some c d e = ground arith
