-- ===== src/Frame/Sleepers.antt =====
-- How long a sleeper of frame.cc waits for the processor once its time has come.
use tinyco.Prelude.{
  ℕ, ◌+◌, ◌≤◌, ◌<◌, ◌≡◌, ◌∙◌, inl, inr, Bool, true, false, ◌&&◌, none, List, [], ◌∷◌, ◌++◌,
  append_assoc, arith, leb, ◌==◌, Bool-cases, length, All, length-append,
}
use tinyco.Frame.Heap.{Sleeper, tally, TimerHeap, threads_of, tally-append, All-tally, length-tally}
use tinyco.Frame.State.{Frame}
use tinyco.Frame.Pending.{wakeup_pending_thread}
use tinyco.Frame.Wakeup.{Woken, wakeup_pending_thread-Woken}
use tinyco.Frame.Steps.{wakes, Reach, stepped}
use tinyco.Frame.Invariant.{Reach-Inv}
use tinyco.Frame.Turns.{Behind, Run, turns, Served, runs_in_turn}

-- A sleeper of the thread `x` whose time has come at `now`.
abbrev due_of : ℕ → ℕ → Sleeper → Bool
due_of x now s = x == s.thread && leb s.wakeup now

late-due_of :
    (x now : ℕ) (l : List Sleeper)
    → All (λ s. now < s.wakeup) l
    → All (λ s. due_of x now s ≡ false) l
late-due_of x now [] h = tt
late-due_of x now (s ∷ l) (h, k) = (ground arith, late-due_of x now l k)

-- Where the thread of such a sleeper stands among the threads.
due_of-threads :
    (x now : ℕ) (ws : List Sleeper)
    → 0 < tally (due_of x now) ws
    → (a b : List ℕ) × (threads_of ws ≡ a ++ x ∷ b) × (length a < length ws)
due_of-threads x now [] h = absurd (omega arith)
due_of-threads x now (s ∷ ws) h = elim (Bool-cases (x == s.thread)) [
  | inl e ↦ ([], threads_of ws, ground arith, ground arith)
  | inr e ↦
      let (a, b, q, l) = due_of-threads x now ws (ground arith) in
      (s.thread ∷ a, b, rw q, omega (arith, l))
]

module _ (H : TimerHeap) where
  due_of-woken :
      (f g : Frame) (s : Sleeper) (a b ws : List Sleeper)
      → Woken H f g ws
      → f.thread_pending ≡ a ++ s ∷ b
      → s.wakeup ≤ f.last_loop_ts
      → 0 < tally (due_of s.thread f.last_loop_ts) ws
  due_of-woken f g s a b ws w e d =
      let test = due_of s.thread f.last_loop_ts in
      let none_left =
        All-tally test g.thread_pending
          (late-due_of s.thread f.last_loop_ts g.thread_pending w.late) in
      let all : tally test (a ++ s ∷ b) ≡ tally test ws + tally test g.thread_pending =
        rw e at (w.split test) in
      ground (arith, tally-append test a (s ∷ b))

  length-woken :
      (f g : Frame) (ws : List Sleeper) → Woken H f g ws → length ws ≤ length f.thread_pending
  length-woken f g ws w =
      omega (arith, length-tally ws, length-tally f.thread_pending, w.split (λ s. true))

  -- `WakeupPendingThread` queues a sleeper whose time has come behind fewer threads than were runnable
  -- or asleep.
  due-Behind :
      (f g : Frame) (s : Sleeper) (a b ws : List Sleeper)
      → Woken H f g ws
      → f.thread_pending ≡ a ++ s ∷ b
      → s.wakeup ≤ f.last_loop_ts
      → (p : List ℕ) × Behind s.thread p g
        × (length p < length f.thread_runnable + length f.thread_pending)
  due-Behind f g s a b ws w e d =
      let (c, r, q, l) =
        due_of-threads s.thread f.last_loop_ts ws (due_of-woken f g s a b ws w e d) in
      (
        f.thread_runnable ++ c,
        (r, w.queued ∙ rw (q, append_assoc f.thread_runnable c (s.thread ∷ r))),
        omega (arith, l, length-append f.thread_runnable c, length-woken f g ws w),
      )

  -- A sleeper does not starve: if its time has come when the main loop wakes the sleepers, its thread
  -- runs in every run from there on that calls `Frame::Schedule` as often as there were threads runnable
  -- or asleep.
  pub sleeper_runs :
      {f : Frame} (s : Sleeper) (a b : List Sleeper) (r : Run H (wakeup_pending_thread H f))
      → Reach H f
      → f.cpu ≡ none
      → f.thread_pending ≡ a ++ s ∷ b
      → s.wakeup ≤ f.last_loop_ts
      → length f.thread_runnable + length f.thread_pending ≤ turns H r
      → Served H s.thread r
  sleeper_runs {f} s a b r reach c e d l =
      let (ws, w) = wakeup_pending_thread-Woken H f (Reach-Inv H reach).heap in
      let (p, (t, q), k) = due-Behind f (wakeup_pending_thread H f) s a b ws w e d in
      runs_in_turn H r s.thread p t (stepped reach (wakes c)) q (omega (arith, k, l))
