-- ===== src/Log/Local.antt =====
-- `LocalLog` of util/log.h and log.cc. A process's time, its parent and whether files can be opened are
-- arguments.
use tinyco.Prelude.{
  ℕ, zero, suc, ◌+◌, ◌-◌, ◌*◌, ◌%◌, ◌^◌, Bool, Option, none, some, List, [], ◌∷◌, ◌++◌, ltb, ◌==◌,
  if◌then◌else◌, ℤ, pos, neg, Bytes, codes,
}
use tinyco.Http.Decimal.{to_decimal}
use tinyco.Log.Files.{Disk, open_append, write_to, exists, remove, rename, filesize}
use tinyco.Log.Item.{LogLevel, level_code, enabled, item}

-- `file` is the inode of the stream, if it is open; `lasts` the static local of `WriteLog`.
pub record LocalLog : Type 0 where
  pub filepath : Bytes
  pub current_file : Bytes
  pub file : Option ℕ
  pub loglevel : ℤ
  pub content : Bytes
  pub lasts : Option ℕ

-- A process's log, the disk and what went to stderr.
pub record Logging : Type 0 where
  pub log : LocalLog
  pub disk : Disk
  pub err : List Bytes

-- `SetLogLevel`; the constructor sets no level.
unfoldable pub set_log_level : ℤ → LocalLog → LocalLog
set_log_level level l = record l { loglevel = level }

-- `file_.open(current_file_, out | app)`.
unfoldable pub open_file : Bool → Logging → Logging
open_file opens s =
    if opens
    then (let (n, d) = open_append s.log.current_file s.disk in
        record s { log = record s.log { file = some n }; disk = d })
    else record s { log = record s.log { file = none } }

-- `Initialize`, with a null pointer as `none`.
unfoldable pub initialize : Bool → Option Bytes → Logging → Logging × ℤ
unfolding open_file
initialize opens none s = (s, neg 1)
initialize opens (some path) s = (
  open_file opens
      (record s { log = record s.log { filepath = path; current_file = path ++ codes ".log" } }),
  pos 0,
)

abbrev pub k_max_filesize : ℕ
k_max_filesize = 1024 * 1024

abbrev pub k_max_fils_num : ℕ
k_max_fils_num = 100

-- `fp` in the loop of the rotation: the path, and what follows it.
abbrev pub ending : ℕ → Bytes
ending zero = codes ".log"
ending (suc i) = b'_' ∷ (to_decimal (suc i) ++ codes ".log")

unfoldable pub log_name : Bytes → ℕ → Bytes
log_name path i = path ++ ending i

-- The body of the loop.
unfoldable pub rotate_one : Bytes → ℕ → Disk → Disk
unfolding log_name
rotate_one path i d =
    if exists (log_name path i) d
    then (if i == k_max_fils_num - 1
        then remove (log_name path i) d
        else rename (log_name path i) (log_name path (suc i)) d)
    else d

-- The loop, from `n - 1` down to 0.
unfoldable pub rotate_loop : Bytes → ℕ → Disk → Disk
unfolding rotate_one
rotate_loop path zero d = d
rotate_loop path (suc i) d = rotate_loop path i (rotate_one path i d)

-- The static `lasts`, set by the first call that gets there.
abbrev pub lasts_or : ℕ → Option ℕ → ℕ
lasts_or first none = first % 2 ^ 32
lasts_or first (some t) = t

abbrev pub with_lasts : ℕ → Logging → Logging
with_lasts first s = record s { log = record s.log { lasts = some (lasts_or first s.log.lasts) } }

-- The workers' part of `WriteLog`: `nows` is assigned to itself and `lasts` stays.
unfoldable pub reopen : Bool → ℕ → ℕ → Logging → Logging
unfolding open_file
reopen opens first now s =
    let s₁ = with_lasts first s in
    if ltb ((lasts_or first s.log.lasts + 10) % 2 ^ 32) (now % 2 ^ 32)
    then open_file opens s₁
    else s₁

-- The master's part.
unfoldable pub rotate : Bool → Logging → Logging
unfolding rotate_loop open_file
rotate opens s =
    if ltb (filesize s.log.current_file s.disk) k_max_filesize
    then s
    else open_file opens (record s { disk = rotate_loop s.log.filepath k_max_fils_num s.disk })

-- What a call of `WriteLog` finds outside: `getppid()`, whether a file can be opened, and the seconds
-- of the two calls of `time`.
pub record Outside : Type 0 where
  pub ppid : ℕ
  pub opens : Bool
  pub first : ℕ
  pub nows : ℕ

-- What follows the write: a worker reopens the file, the master rotates it.
unfoldable pub after_write : Outside → Logging → Logging
unfolding reopen rotate
after_write o s =
    if ltb 1 o.ppid
    then reopen o.opens o.first o.nows s
    else if o.ppid == 1
    then rotate o.opens s
    else s

-- `WriteLog`, by the stream `file_`. The content goes as a C string, and has no NUL: `CommonLog` makes it
-- of C strings.
unfoldable pub write_stream : Outside → Option ℕ → Logging → Logging
unfolding after_write
write_stream o none s = record s {
  err =
      s.err
      ++ (s.log.content ++ codes "\u{1b}[31m(uninitialized LocalLog obj)\u{1b}[0m" ++ codes "\n")
        ∷ [];
}
write_stream o (some n) s =
    after_write o (record s { disk = write_to n (s.log.content ++ codes "\n") s.disk })

unfoldable pub write_log : Outside → Logging → Logging
unfolding write_stream
write_log o s = write_stream o s.log.file s

-- `Debug`, `Info`, `Warning` and `Error`, by their level, at a time in milliseconds; `text` is what the
-- format makes of the arguments.
unfoldable pub log_at :
    (ℕ → Bytes) → Outside → ℕ → LogLevel → ℕ → ℕ → Bytes → Bytes → Logging → Logging
unfolding write_log
log_at strftime o now l uin line func text s =
    if enabled s.log.loglevel l
    then write_log o
        (record s { log = record s.log { content = item strftime now uin line func text } })
    else s

-- The macros `LOG`, `LOG_ERROR`, `LOG_WARNING`, `LOG_INFO` and `LOG_DEBUG`: the level is the `uin`.
unfoldable pub log_macro :
    (ℕ → Bytes) → Outside → ℕ → LogLevel → ℕ → Bytes → Bytes → Logging → Logging
unfolding log_at
log_macro strftime o now l line func text s =
    log_at strftime o now l (level_code l) line func text s
