-- ===== src/Frame/Turns.antt =====
-- The order in which the scheduler of frame.cc runs the coroutines of its run queue.
use tinyco.Prelude.{
  ℕ, suc, ◌<◌, ◌≡◌, refl, ◌∙◌, ◌⊎◌, inl, inr, some, List, [], ◌∷◌, ◌++◌, append_assoc, arith,
  length, Bool, true, false, Bool-cases, Option-cases, if◌then◌else◌, ◌+◌,
}
use tinyco.Frame.Heap.{TimerHeap, threads_of}
use tinyco.Frame.Waits.{find_fd}
use tinyco.Frame.State.{
  Frame, alloc_new_thread, create_thread, park, schedule, socket_read_or_write,
  recycle_running_thread, update_loop_timestamp,
}
use tinyco.Frame.Pending.{bed_down, wakeup_pending_thread}
use tinyco.Frame.Wakeup.{wakeup_pending_thread-Woken}
use tinyco.Frame.Steps.{Step, creates, waits, sleeps, ends, updates, polls, wakes, schedules, Reach}
use tinyco.Frame.Ownership.{wait_io_lem, handle_process_end_lem, sleep_lem}
use tinyco.Frame.Invariant.{Inv, Step-Inv, Reach-Inv}

-- `x` is in the run queue, behind the threads `p`.
abbrev pub Behind : ℕ → List ℕ → Frame → Type 0
Behind x p f = (s : List ℕ) × (f.thread_runnable ≡ p ++ x ∷ s)

-- A call of `Frame::Schedule` has been made: `x` runs, or one thread less is in front of it.
abbrev pub Closer : ℕ → List ℕ → Frame → Type 0
Closer x [] g = g.cpu ≡ some x
Closer x (y ∷ p) g = Behind x p g

schedule-Closer : (x : ℕ) (p : List ℕ) (f : Frame) → Behind x p f → Closer x p (schedule f)
unfolding schedule
schedule-Closer x [] f (s, e) = ground arith
schedule-Closer x (y ∷ p) f (s, e) = (s, ground arith)

-- Threads are queued at the back.
append-Behind :
    (x : ℕ) (p ts : List ℕ) (f g : Frame)
    → g.thread_runnable ≡ f.thread_runnable ++ ts
    → Behind x p f
    → Behind x p g
append-Behind x p ts f g q (s, e) = (s ++ ts, rw (q, e, append_assoc p (x ∷ s) ts))

same-Behind :
    (x : ℕ) (p : List ℕ) (f g : Frame)
    → g.thread_runnable ≡ f.thread_runnable
    → Behind x p f
    → Behind x p g
same-Behind x p f g q (s, e) = (s, q ∙ e)

create_thread-queue :
    (work : ℕ) (f : Frame)
    → let (g, t) = create_thread work f in g.thread_runnable ≡ f.thread_runnable ++ t ∷ []
unfolding create_thread alloc_new_thread
create_thread-queue work f = ground arith

socket_read_or_write-queue :
    (fd : ℕ) (f g : Frame)
    → socket_read_or_write fd f ≡ some g
    → (t : ℕ) × (g.thread_runnable ≡ f.thread_runnable ++ t ∷ [])
unfolding socket_read_or_write
socket_read_or_write-queue fd f g h = elim (Option-cases (find_fd fd f.io_wait_map)) [
  | inl e ↦ absurd (ground arith)
  | inr (t, e) ↦ (t, ground arith)
]

recycle-queue :
    (f p : Frame) → recycle_running_thread f ≡ some p → p.thread_runnable ≡ f.thread_runnable
unfolding recycle_running_thread
recycle-queue f p h = ground arith

module _ (H : TimerHeap) where
  -- A run of the scheduler from a state on.
  pub data Run : Frame → Type 0 where
    over : {f : Frame} → Run f
    goes_on : {f g : Frame} → Step H f g → Run g → Run f

  -- Whether a step calls `Frame::Schedule`.
  abbrev pub calls_schedule : {f g : Frame} → Step H f g → Bool
  calls_schedule (creates t work c) = false
  calls_schedule (waits t fd g c n e) = true
  calls_schedule (sleeps t now ms c) = true
  calls_schedule (ends t g c e) = true
  calls_schedule (updates now c) = false
  calls_schedule (polls fd g c e) = false
  calls_schedule (wakes c) = false
  calls_schedule (schedules c) = true

  -- How often a run calls it.
  unfoldable pub turns : {f : Frame} → Run f → ℕ
  turns over = 0
  turns (goes_on s r) = (if calls_schedule s then 1 else 0) + turns r

  -- `x` runs behind one of the steps.
  unfoldable pub Served : ℕ → {f : Frame} → Run f → Type 0
  Served x over = ⊥
  Served x (goes_on {f} {g} s r) = (g.cpu ≡ some x) ⊎ Served x r

  abbrev AfterStep : Bool → ℕ → List ℕ → Frame → Type 0
  AfterStep true x p g = Closer x p g
  AfterStep false x p g = Behind x p g

  Step-AfterStep :
      {f g : Frame} (x : ℕ) (p : List ℕ) (s : Step H f g)
      → Inv H f
      → Behind x p f
      → AfterStep (calls_schedule s) x p g
  Step-AfterStep {f} {g} x p (creates t work c) v b =
      append-Behind x p ((create_thread work f).1 ∷ []) f (create_thread work f).0
        (create_thread-queue work f) b
  Step-AfterStep {f} x p (waits t fd g c n e) v b =
      rw (wait_io_lem t fd f g (v.runs t c) e) (
        schedule-Closer x p (park fd t f) (same-Behind x p f (park fd t f) (unfold park in refl) b))
  Step-AfterStep {f} x p (sleeps t now ms c) v b = rw (sleep_lem H t now ms f (v.runs t c)) (
      schedule-Closer x p (bed_down H now ms t f)
        (same-Behind x p f (bed_down H now ms t f) (unfold bed_down in refl) b))
  Step-AfterStep {f} x p (ends t g c e) v b =
      let (h, k, s) = handle_process_end_lem t f g (v.runs t c) e in
      rw s (schedule-Closer x p h (same-Behind x p f h (recycle-queue f h k) b))
  Step-AfterStep {f} x p (updates now c) v b =
      same-Behind x p f (update_loop_timestamp now f) (unfold update_loop_timestamp in refl) b
  Step-AfterStep {f} {g} x p (polls fd h c e) v b =
      let (t, q) = socket_read_or_write-queue fd f g e in append-Behind x p (t ∷ []) f g q b
  Step-AfterStep {f} x p (wakes c) v b =
      let (ws, w) = wakeup_pending_thread-Woken H f v.heap in
      append-Behind x p (threads_of ws) f (wakeup_pending_thread H f) w.queued b
  Step-AfterStep {f} x p (schedules c) v b = schedule-Closer x p f b

  Closer-Served :
      (x : ℕ) (p : List ℕ) (f g : Frame) (s : Step H f g) (r : Run g)
      → Closer x p g
      → ((q : List ℕ) → suc (length q) ≡ length p → Behind x q g → Served x r)
      → Served x (goes_on s r)
  unfolding Served
  Closer-Served x [] f g s r c go = inl c
  Closer-Served x (y ∷ p) f g s r c go = inr (go p refl c)

  later-Served :
      (x : ℕ) (f g : Frame) (s : Step H f g) (r : Run g) → Served x r → Served x (goes_on s r)
  unfolding Served
  later-Served x f g s r h = inr h

  runs_after :
      {f : Frame} (r : Run f) (x : ℕ) (p : List ℕ)
      → Inv H f
      → Behind x p f
      → length p < turns r
      → Served x r
  unfolding turns
  runs_after over x p v b l = absurd (omega arith)
  runs_after {f} (goes_on {g = g} s r) x p v b l =
      let after = Step-AfterStep x p s v b in
      let v' = Step-Inv H s v in
      elim (Bool-cases (calls_schedule s)) [
        | inl e ↦
            Closer-Served x p f g s r (rw e at after)
              (λ q n k. runs_after r x q v' k (ground arith))
        | inr e ↦ later-Served x f g s r (runs_after r x p v' (rw e at after) (ground arith))
      ]

  -- The run queue is served in its order, and no coroutine of it starves: one with `n` others in front
  -- of it runs in every run of coroutines and main loop that calls `Frame::Schedule` more than `n` times,
  -- whatever is created, woken or queued on the way.
  pub runs_in_turn :
      {f : Frame} (r : Run f) (x : ℕ) (p s : List ℕ)
      → Reach H f
      → f.thread_runnable ≡ p ++ x ∷ s
      → length p < turns r
      → Served x r
  runs_in_turn r x p s reach e l = runs_after r x p (Reach-Inv H reach) (s, e) l
