-- ===== src/Log/Master.antt =====
-- A master that writes one line after another: `LocalLog::Initialize` and `WriteLog`, log.cc.
use tinyco.Prelude.{
  ◌^◌, ◌<◌, ◌≡◌, refl, sym, ◌∙◌, true, none, some, List, [], ◌∷◌, ◌++◌, arith, ◌==◌, if◌then◌else◌,
  length, All, Bytes, codes,
}
use tinyco.Log.Files.{Disk, open_append}
use tinyco.Log.Local.{LocalLog, Logging, Outside, log_name, initialize, open_file, write_log}
use tinyco.Log.Sound.{IsSound, opened-IsSound}
use tinyco.Log.History.{Logs, log_line, log_lines, text_at, slot-opened, text_at-opened}
use tinyco.Log.Refinement.{IsReady, Implements, ready-step, log_line-SameLogs}

-- `content_` before a call of `WriteLog`.
abbrev pub with_content : Bytes → Logging → Logging
with_content c s = record s { log = record s.log { content = c } }

-- The calls of `WriteLog` on the contents, one after another.
unfoldable pub write_logs : Outside → List Bytes → Logging → Logging
unfolding write_log
write_logs o [] s = s
write_logs o (c ∷ cs) s = write_logs o cs (write_log o (with_content c s))

-- An empty first text and no other.
abbrev pub empty_logs : Logs
empty_logs j = if j == 0 then some [] else none

abbrev pub empty_disk : Disk
empty_disk = record { names = []; inodes = [] }

module _ (path : Bytes) where
  step-Implements :
      (o : Outside) (c : Bytes) (f : Logs) (s : Logging)
      → Implements path f s
      → o.ppid ≡ 1
      → o.opens ≡ true
      → length c < 2 ^ 31
      → Implements path (log_line (c ++ codes "\n") f) (write_log o (with_content c s))
  step-Implements o c f s (r, same) p q h =
      let ready : IsReady path (with_content c s) = record {
        sound = r.sound;
        on_path = r.on_path;
        on_current = r.on_current;
        stream = r.stream;
        on_stream = r.on_stream;
        first = r.first;
        not_full = r.not_full;
      } in
      let (after, texts) = ready-step path o (with_content c s) ready p q h in
      (
        after,
        λ j hj.
            texts j hj ∙ log_line-SameLogs path (c ++ codes "\n") (text_at path s.disk) f same j hj,
      )

  -- If a master's log implements the texts `f`, whose stream is on the first file of the path and whose
  -- first file is below the limit, then after any lines of less than 2^31 bytes each it implements what
  -- the specification makes of `f`: a line goes to the first text; when that has a megabyte or more, all
  -- texts move up by one number, the one of number 99 is dropped, and the first is empty again.
  pub write_logs-Implements :
      (o : Outside) (lines : List Bytes) (f : Logs) (s : Logging)
      → Implements path f s
      → o.ppid ≡ 1
      → o.opens ≡ true
      → All (λ c. length c < 2 ^ 31) lines
      → Implements path (log_lines lines f) (write_logs o lines s)
  unfolding write_logs
  write_logs-Implements o [] f s i p q h = i
  write_logs-Implements o (c ∷ cs) f s i p q (h, hs) =
      write_logs-Implements o cs (log_line (c ++ codes "\n") f) (write_log o (with_content c s))
        (step-Implements o c f s i p q h) p q hs

  empty_disk-IsSound : IsSound empty_disk
  empty_disk-IsSound = record {
    bounded = λ k n e. absurd (ground arith);
    distinct = λ j k n e f. absurd (ground arith);
  }

  -- A process that opens its log in an empty directory has one file, which is empty.
  pub initialize-Implements :
      (l : LocalLog) (err : List Bytes)
      → Implements path empty_logs
          (initialize true (some path) (record { log = l; disk = empty_disk; err = err })).0
  unfolding initialize open_file log_name open_append
  initialize-Implements l err = (
    record {
      sound = opened-IsSound (log_name path 0) empty_disk empty_disk-IsSound refl;
      on_path = refl;
      on_current = refl;
      stream = 0;
      on_stream = refl;
      first = slot-opened path 0 empty_disk (omega arith);
      not_full = λ c e.
          let none_yet : some [] ≡ some c =
            sym (text_at-opened path 0 empty_disk empty_disk-IsSound (omega arith)) ∙ e in
          ground arith;
    },
    λ j hj. text_at-opened path j empty_disk empty_disk-IsSound hj,
  )
