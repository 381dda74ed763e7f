-- ===== src/Frame/Invariant.antt =====
-- The invariant of the scheduler, from `Frame::Init` on: every coroutine is in one place at most,
-- `running_thread_` is the one that runs, and the timers are a heap.
use tinyco.Prelude.{
  ℕ, zero, suc, ◌+◌, ◌≤◌, ◌≡◌, refl, ◌≢◌, ◌⊎◌, inl, inr, ◌&&◌, some, arith, ltb, leb, if◌then◌else◌,
  count,
}
use tinyco.Frame.Heap.{TimerHeap}
use tinyco.Frame.Waits.{find_fd, count-put_fd_taken}
use tinyco.Frame.State.{
  Frame, boot, addresses, init, alloc_new_thread, create_thread, park, schedule, wait_io,
  socket_read_or_write, recycle_running_thread, update_loop_timestamp,
}
use tinyco.Frame.Pending.{bed_down}
use tinyco.Frame.Wakeup.{wakeup_pending_thread-Woken}
use tinyco.Frame.Steps.{
  Step, creates, waits, sleeps, ends, updates, polls, wakes, schedules, Reach, started, stepped,
}
use tinyco.Frame.Ownership.{
  places, places-schedule, Adds, Moves, create_thread-places, switch-Moves, wait_io_lem,
  wait_io-Moves, handle_process_end_lem, handle_process_end-Moves, socket_read_or_write-Moves,
  sleep_lem, sleep-Moves, wakeup-Moves,
}

count-addresses :
    (x a n : ℕ) → count x (addresses a n) ≡ (if leb a x && ltb x (a + n) then 1 else 0)
count-addresses x a zero = ground arith
count-addresses x a (suc n) = ground (arith, count-addresses x (suc a) n)

create_thread-keeps :
    (work : ℕ) (f : Frame)
    → let g = (create_thread work f).0 in
      (g.cpu ≡ f.cpu)
      × (g.running_thread ≡ f.running_thread)
      × (g.thread_pending ≡ f.thread_pending)
unfolding create_thread alloc_new_thread
create_thread-keeps work f = ground arith

recycle-pending :
    (f p : Frame) → recycle_running_thread f ≡ some p → p.thread_pending ≡ f.thread_pending
unfolding recycle_running_thread
recycle-pending f p h = ground arith

socket_read_or_write-keeps :
    (fd : ℕ) (f g : Frame)
    → socket_read_or_write fd f ≡ some g
    → (g.cpu ≡ f.cpu)
      × (g.running_thread ≡ f.running_thread)
      × (g.thread_pending ≡ f.thread_pending)
unfolding socket_read_or_write
socket_read_or_write-keeps fd f g h = ground arith

module _ (H : TimerHeap) where
  -- What holds between any two steps.
  pub record Inv (f : Frame) : Type 0 where
    -- A thread stands in one place at most.
    pub once : (x : ℕ) → places x f ≤ 1
    -- An address that `new` has not returned stands nowhere.
    pub below : (x : ℕ) → f.fresh ≤ x → places x f ≡ 0
    -- `running_thread_` is the coroutine that runs.
    pub runs : (t : ℕ) → f.cpu ≡ some t → f.running_thread ≡ some t
    pub heap : H.IsHeap f.thread_pending

  Moves-Inv :
      (f g : Frame)
      → Moves f g
      → Inv f
      → ((t : ℕ) → g.cpu ≡ some t → g.running_thread ≡ some t)
      → H.IsHeap g.thread_pending
      → Inv g
  Moves-Inv f g (m, e) v r h = record {
    once = λ x. omega (arith, m x, v.once x);
    below = λ x b. omega (arith, m x, v.below x (omega arith));
    runs = r;
    heap = h;
  }

  Adds-Inv :
      (f g : Frame)
      → Adds f g 1
      → Inv f
      → ((t : ℕ) → g.cpu ≡ some t → g.running_thread ≡ some t)
      → H.IsHeap g.thread_pending
      → Inv g
  Adds-Inv f g (m, e) v r h = record {
    once = λ x. ground (arith, m x, v.once x, v.below x);
    below = λ x b. ground (arith, m x, v.below x);
    runs = r;
    heap = h;
  }

  pub schedule-runs :
      (p : Frame) (t : ℕ) → (schedule p).cpu ≡ some t → (schedule p).running_thread ≡ some t
  unfolding schedule
  schedule-runs p t h = ground arith

  pub schedule-pending : (p : Frame) → (schedule p).thread_pending ≡ p.thread_pending
  unfolding schedule
  schedule-pending p = ground arith

  schedule-Inv :
      (f p : Frame) → Moves f (schedule p) → Inv f → H.IsHeap p.thread_pending → Inv (schedule p)
  schedule-Inv f p m v h =
      Moves-Inv f (schedule p) m v (schedule-runs p) (rw (schedule-pending p) h)

  init-Inv : (pool : ℕ) → Inv (init pool boot).0
  unfolding init boot
  init-Inv pool = record {
    once = λ x. ground (arith, count-addresses x 3 pool);
    below = λ x b. ground (arith, count-addresses x 3 pool);
    runs = λ t h. h;
    heap = H.empty_lem;
  }

  pub Step-Inv : {f g : Frame} → Step H f g → Inv f → Inv g
  Step-Inv {f} (creates t work c) v = elim (create_thread-places work f) [
    | inl m ↦
        Moves-Inv f _ m v (λ u e. grind (arith, create_thread-keeps work f, v.runs))
          (rw (create_thread-keeps work f).2 v.heap)
    | inr m ↦
        Adds-Inv f _ m v (λ u e. grind (arith, create_thread-keeps work f, v.runs))
          (rw (create_thread-keeps work f).2 v.heap)
  ]
  Step-Inv {f} {g} (waits t fd h c n e) v = rw (wait_io_lem t fd f h (v.runs t c) e) (
      schedule-Inv f (park fd t f)
        (rw (wait_io_lem t fd f h (v.runs t c) e) at (wait_io-Moves t fd f h c (v.runs t c) n e)) v
        (unfold park in v.heap))
  Step-Inv {f} (sleeps t now ms c) v = rw (sleep_lem H t now ms f (v.runs t c)) (
      schedule-Inv f (bed_down H now ms t f)
        (rw (sleep_lem H t now ms f (v.runs t c)) at
          (sleep-Moves H t now ms f c (v.runs t c) v.heap))
        v (unfold bed_down in H.push_keeps f.thread_pending _ v.heap))
  Step-Inv {f} (ends t g c e) v =
      let (p, k, s) = handle_process_end_lem t f g (v.runs t c) e in
      rw s (
        schedule-Inv f p (rw s at (handle_process_end-Moves t f g c (v.runs t c) e)) v
          (rw (recycle-pending f p k) v.heap))
  Step-Inv {f} (updates now c) v =
      unfold update_loop_timestamp in
      record { once = v.once; below = v.below; runs = v.runs; heap = v.heap }
  Step-Inv {f} (polls fd g c e) v =
      Moves-Inv f g (socket_read_or_write-Moves fd f g e) v
        (λ u k. grind (arith, socket_read_or_write-keeps fd f g e, v.runs))
        (rw (socket_read_or_write-keeps fd f g e).2 v.heap)
  Step-Inv {f} (wakes c) v =
      let (ws, w) = wakeup_pending_thread-Woken H f v.heap in
      Moves-Inv f _ (wakeup-Moves H f _ ws w w.made) v (λ u k. absurd (ground (arith, w.context)))
        w.heap
  Step-Inv {f} (schedules c) v =
      schedule-Inv f f (switch-Moves f f (λ x. rw c (omega arith)) refl) v v.heap

  pub Reach-Inv : {f : Frame} → Reach H f → Inv f
  Reach-Inv (started pool) = init-Inv pool
  Reach-Inv (stepped r st) = Step-Inv st (Reach-Inv r)

  -- In every state of the scheduler each coroutine is in one place at most: it runs, or it stands once in
  -- one of the run queue, the pool, the timers and the waits.
  pub one_place : {f : Frame} → Reach H f → (x : ℕ) → places x f ≤ 1
  one_place r = (Reach-Inv r).once

  pub Step-Moves : {f g : Frame} → Inv f → Step H f g → Moves f g ⊎ Adds f g 1
  Step-Moves {f} v (creates t work c) = create_thread-places work f
  Step-Moves {f} {g} v (waits t fd h c n e) = inl (wait_io-Moves t fd f h c (v.runs t c) n e)
  Step-Moves {f} v (sleeps t now ms c) = inl (sleep-Moves H t now ms f c (v.runs t c) v.heap)
  Step-Moves {f} v (ends t g c e) = inl (handle_process_end-Moves t f g c (v.runs t c) e)
  Step-Moves {f} v (updates now c) = inl (unfold update_loop_timestamp in ((λ x. refl), refl))
  Step-Moves {f} v (polls fd g c e) = inl (socket_read_or_write-Moves fd f g e)
  Step-Moves {f} v (wakes c) =
      let (ws, w) = wakeup_pending_thread-Woken H f v.heap in inl (wakeup-Moves H f _ ws w w.made)
  Step-Moves {f} v (schedules c) = inl (switch-Moves f f (λ x. rw c (omega arith)) refl)

  -- No step of a coroutine or of the main loop loses a coroutine, where a coroutine waits only for a
  -- descriptor that nobody else waits for: one that has a place keeps one.
  pub no_thread_lost :
      {f g : Frame} → Reach H f → Step H f g → (x : ℕ) → places x f ≡ 1 → places x g ≡ 1
  no_thread_lost r s x h = elim (Step-Moves (Reach-Inv r) s) [
    | inl (m, e) ↦ omega (arith, m x)
    | inr (m, e) ↦ ground (arith, m x, (Reach-Inv r).below x)
  ]

-- `io_wait_map_` holds one thread for each descriptor: if a coroutine waits for a descriptor that
-- another one waits for, the other is in no queue any more.
pub wait_io_drops :
    (t u fd : ℕ) (f g : Frame)
    → f.cpu ≡ some t
    → f.running_thread ≡ some t
    → find_fd fd f.io_wait_map ≡ some u
    → u ≢ t
    → places u f ≡ 1
    → wait_io fd f ≡ some g
    → places u g ≡ 0
wait_io_drops t u fd f g c r h ne one e =
    rw (wait_io_lem t fd f g r e, places-schedule u (park fd t f))
      (unfold park in ground (arith, count-put_fd_taken u fd t u f.io_wait_map, c, one))
