-- ===== src/Frame/Pending.antt =====
-- The timers of frame.cc: `Sleep`, `PendThread`, `PopPendingTop` and `WakeupPendingThread`.
use tinyco.Prelude.{
  ℕ, zero, suc, ◌+◌, ◌%◌, ◌^◌, ◌≡◌, refl, true, false, Option, none, some, List, [], ◌∷◌, ◌++◌, leb,
  length,
}
use tinyco.Frame.Heap.{Sleeper, TimerHeap}
use tinyco.Frame.State.{Frame, stop, runnable, write, schedule}

-- The last element of a vector and those before it.
unfoldable pub pop_last : List Sleeper → Option (List Sleeper × Sleeper)
pop_last [] = none
pop_last (x ∷ xs) = elim (pop_last xs) [ none ↦ some ([], x) | some (ys, y) ↦ some (x ∷ ys, y) ]

module _ (H : TimerHeap) where
  open H use {push_heap, pop_heap}

  -- `PendThread`: push_back and push_heap.
  unfoldable pub pend_thread : Sleeper → Frame → Frame
  pend_thread s f = record f { thread_pending = push_heap (f.thread_pending ++ s ∷ []) }

  -- `PopPendingTop`: pop_heap, and the element behind the heap is taken.
  unfoldable pub pop_pending_top : Frame → Option (Frame × Sleeper)
  unfolding pop_last
  pop_pending_top f = elim (pop_last (pop_heap f.thread_pending)) [
    | none ↦ none
    | some (rest, s) ↦ some (record f { thread_pending = rest }, s)
  ]

  -- `Sleep` of the running thread `t` at the time `now`, before it schedules. Times are uint64_t.
  unfoldable pub bed_down : ℕ → ℕ → ℕ → Frame → Frame
  unfolding pend_thread
  bed_down now ms t f =
      let at = (now + ms) % 2 ^ 64 in
      let g = record f {
        threads = write f.threads t (record (f.threads t) { wakeup_ts = at; state = stop });
      } in
      record (pend_thread (record { thread = t; wakeup = at }) g) { running_thread = none }

  -- `Sleep`, which only schedules where no thread runs.
  unfoldable pub sleep : ℕ → ℕ → Frame → Frame
  sleep now ms f = elim f.running_thread [
    | none ↦ schedule f
    | some t ↦ schedule (bed_down now ms t f)
  ]

  -- `n->Pending(0); n->SetState(TS_RUNNABLE); thread_runnable_.push_back(n)`.
  unfoldable pub wake : Sleeper → Frame → Frame
  wake s f = record f {
    threads =
        write f.threads s.thread (record (f.threads s.thread) { wakeup_ts = 0; state = runnable });
    thread_runnable = f.thread_runnable ++ s.thread ∷ [];
  }

  -- The loop of `WakeupPendingThread`, with `sz` rounds left; `n` is the front of the vector.
  unfoldable pub wakeup_loop : ℕ → Frame → Frame
  unfolding pop_pending_top wake
  wakeup_loop zero f = f
  wakeup_loop (suc sz) f = elim f.thread_pending [
    | [] ↦ f
    | n ∷ _ ↦ elim (leb n.wakeup f.last_loop_ts) [
      | true ↦ elim (pop_pending_top f) [ none ↦ f | some (g, s) ↦ wakeup_loop sz (wake s g) ]
      | false ↦ f
    ]
  ]

  unfoldable pub wakeup_pending_thread : Frame → Frame
  unfolding wakeup_loop
  wakeup_pending_thread f = wakeup_loop (length f.thread_pending) f

pub pop_last-append : (r : List Sleeper) (s : Sleeper) → pop_last (r ++ s ∷ []) ≡ some (r, s)
unfolding pop_last
pop_last-append [] s = refl
pop_last-append (x ∷ r) s = rw (pop_last-append r s)
