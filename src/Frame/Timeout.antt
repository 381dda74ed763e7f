-- ===== src/Frame/Timeout.antt =====
-- How long `MainThreadLoop` lets libevent wait: `GetEventLoopTimeout` of frame.cc.
use tinyco.Prelude.{
  ℕ, ◌+◌, ◌-◌, ◌*◌, ◌/◌, ◌%◌, ◌^◌, ◌≤◌, ◌<◌, ◌≡◌, inl, inr, List, [], ◌∷◌, arith, ltb,
  if◌then◌else◌, Bool-cases,
}
use tinyco.Frame.Heap.{Sleeper}
use tinyco.Frame.State.{Frame}

pub record Timeval : Type 0 where
  pub tv_sec : ℕ
  pub tv_usec : ℕ

-- `delta / 1000llu` takes an `int` to `unsigned long long`: a negative one from 2^31 on.
abbrev pub sign_extend : ℕ → ℕ
sign_extend d = if ltb d (2 ^ 31) then d else 2 ^ 64 - 2 ^ 32 + d

-- `int delta = …` keeps 32 bits of the difference.
unfoldable pub to_timeval : ℕ → Timeval
to_timeval difference =
    let delta = sign_extend (difference % 2 ^ 32) in
    record { tv_sec = delta / 1000; tv_usec = (delta - delta / 1000 * 1000) * 1000 }

abbrev pub default_timeout : Timeval
default_timeout = record { tv_sec = 0; tv_usec = 100000 }

unfoldable pub get_event_loop_timeout : Frame → Timeval
unfolding to_timeval
get_event_loop_timeout f = elim f.thread_pending [
  | [] ↦ default_timeout
  | mint ∷ _ ↦
      if ltb mint.wakeup f.last_loop_ts
      then record { tv_sec = 0; tv_usec = 0 }
      else to_timeval (mint.wakeup - f.last_loop_ts)
]

-- What the timeout should be: `d` milliseconds, as a normal timeval.
pub record IsMilliseconds (tv : Timeval) (d : ℕ) : Type 0 where
  pub exact : 1000 * tv.tv_sec * 1000 + tv.tv_usec ≡ d * 1000
  pub normal : tv.tv_usec < 1000000

to_timeval-IsMilliseconds : (d : ℕ) → d < 2 ^ 31 → IsMilliseconds (to_timeval d) d
unfolding to_timeval
to_timeval-IsMilliseconds d h = ground arith

-- With a sleeper at the front the event loop waits until that sleeper's time and not longer: exactly
-- the milliseconds left, and not at all if its time has passed. This holds for up to 2^31 - 1
-- milliseconds.
pub timeout-IsMilliseconds :
    (f : Frame) (n : Sleeper) (l : List Sleeper)
    → f.thread_pending ≡ n ∷ l
    → n.wakeup < f.last_loop_ts + 2 ^ 31
    → IsMilliseconds (get_event_loop_timeout f) (n.wakeup - f.last_loop_ts)
unfolding get_event_loop_timeout
timeout-IsMilliseconds f n l e h = elim (Bool-cases (ltb n.wakeup f.last_loop_ts)) [
  | inl p ↦ ground arith
  | inr p ↦ rw (e, p) (to_timeval-IsMilliseconds (n.wakeup - f.last_loop_ts) (omega arith))
]

to_timeval_long : (d : ℕ) → 2 ^ 31 ≤ d → d < 2 ^ 32 → 2 ^ 54 < (to_timeval d).tv_sec
unfolding to_timeval
to_timeval_long d h k = ground arith

-- Beyond that, for a sleeper that is 2^31 to 2^32 - 1 milliseconds away (which `Sleep` takes as an
-- argument), the difference turns negative as an `int` and the timeout is over 2^54 seconds.
pub timeout_overflow :
    (f : Frame) (n : Sleeper) (l : List Sleeper)
    → f.thread_pending ≡ n ∷ l
    → f.last_loop_ts + 2 ^ 31 ≤ n.wakeup
    → n.wakeup < f.last_loop_ts + 2 ^ 32
    → 2 ^ 54 < (get_event_loop_timeout f).tv_sec
unfolding get_event_loop_timeout
timeout_overflow f n l e h k = elim (Bool-cases (ltb n.wakeup f.last_loop_ts)) [
  | inl p ↦ absurd (ground arith)
  | inr p ↦ rw (e, p) (to_timeval_long (n.wakeup - f.last_loop_ts) (omega arith) (omega arith))
]
