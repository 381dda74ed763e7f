-- ===== src/Frame/Ownership.antt =====
-- Where the coroutines are: the one that runs, the run queue, the pool, the timers and the waits for
-- descriptors. No step loses a thread or puts it in two places.
use tinyco.Prelude.{
  ℕ, ◌+◌, ◌%◌, ◌^◌, ◌≡◌, refl, ◌∙◌, ◌⊎◌, inl, inr, Option, none, some, List, [], ◌∷◌, ◌++◌, arith,
  ltb, ◌==◌, if◌then◌else◌, Option-cases, count, count-append,
}
use tinyco.Frame.Heap.{Sleeper, TimerHeap, threads_of, count-SameSleepers, count-tally}
use tinyco.Frame.Waits.{find_fd, waiters, is_one, count-put_fd, count-erase_fd}
use tinyco.Frame.State.{
  Frame, pop_back, alloc_new_thread, create_thread, park, schedule, wait_io, socket_read_or_write,
  recycle_running_thread, handle_process_end,
}
use tinyco.Frame.Pending.{sleep, bed_down}
use tinyco.Frame.Wakeup.{Woken}

-- How often a thread stands in the queues, and with the context that runs.
abbrev pub queued : ℕ → Frame → ℕ
queued x f =
    count x f.thread_runnable
    + count x f.thread_free
    + count x (threads_of f.thread_pending)
    + count x (waiters f.io_wait_map)

abbrev pub on_cpu : ℕ → Option ℕ → ℕ
on_cpu x none = 0
on_cpu x (some t) = is_one x t

abbrev pub places : ℕ → Frame → ℕ
places x f = on_cpu x f.cpu + queued x f

-- A switch takes the next thread out of the queues, and forgets whose context ran.
pub places-schedule : (x : ℕ) (f : Frame) → places x (schedule f) ≡ queued x f
unfolding schedule
places-schedule x f = go f.thread_runnable refl
  where
    go : (l : List ℕ) → f.thread_runnable ≡ l → places x (schedule f) ≡ queued x f
    go [] e = ground arith
    go (t ∷ rest) e = ground arith

pop_back-none : (l : List ℕ) → pop_back l ≡ none → l ≡ []
unfolding pop_back
pop_back-none [] h = refl
pop_back-none (y ∷ l) h = absurd (ground arith)

count-pop_back :
    (x : ℕ) (l r : List ℕ) (t : ℕ) → pop_back l ≡ some (r, t) → count x l ≡ count x r + is_one x t
unfolding pop_back
count-pop_back x [] r t h = cc
count-pop_back x (y ∷ l) r t h = elim (Option-cases (pop_back l)) [
  | inl e ↦ ground (arith, pop_back-none l)
  | inr ((ys, z), e) ↦ ground (arith, count-pop_back x l ys z)
]

-- The threads that an operation adds: one new address, or none.
abbrev pub Adds : Frame → Frame → ℕ → Type 0
Adds f g n =
    ((x : ℕ)
      → places x g
        ≡ places x f + (if ltb x f.fresh then 0 else if ltb x (f.fresh + n) then 1 else 0))
    × (g.fresh ≡ f.fresh + n)

abbrev pub Moves : Frame → Frame → Type 0
Moves f g = ((x : ℕ) → places x g ≡ places x f) × (g.fresh ≡ f.fresh)

pub create_thread-places :
    (work : ℕ) (f : Frame) → Moves f (create_thread work f).0 ⊎ Adds f (create_thread work f).0 1
unfolding create_thread alloc_new_thread
create_thread-places work f = elim (Option-cases (pop_back f.thread_free)) [
  | inl e ↦
      inr ((λ x. ground (arith, count-append x f.thread_runnable (f.fresh ∷ []))), ground arith)
  | inr ((rest, t), e) ↦ inl (
    (λ x.
        ground (
          arith,
          count-append x f.thread_runnable (t ∷ []),
          count-pop_back x f.thread_free rest t,
        )),
    ground arith,
  )
]

pub schedule-fresh : (f : Frame) → (schedule f).fresh ≡ f.fresh
unfolding schedule
schedule-fresh f = ground arith

-- A switch behind a change of the queues.
pub switch-Moves :
    (f p : Frame) → ((x : ℕ) → queued x p ≡ places x f) → p.fresh ≡ f.fresh → Moves f (schedule p)
switch-Moves f p q e = (λ x. places-schedule x p ∙ q x, schedule-fresh p ∙ e)

-- Waiting parks the running thread under its descriptor.
pub wait_io_lem :
    (t fd : ℕ) (f g : Frame)
    → f.running_thread ≡ some t
    → wait_io fd f ≡ some g
    → g ≡ schedule (park fd t f)
unfolding wait_io
wait_io_lem t fd f g r h = ground arith

pub wait_io-Moves :
    (t fd : ℕ) (f g : Frame)
    → f.cpu ≡ some t
    → f.running_thread ≡ some t
    → find_fd fd f.io_wait_map ≡ none
    → wait_io fd f ≡ some g
    → Moves f g
wait_io-Moves t fd f g c r n h = rw (wait_io_lem t fd f g r h) (
    switch-Moves f (park fd t f)
      (λ x. rw c (unfold park in omega (arith, count-put_fd x fd t f.io_wait_map n)))
      (unfold park in refl))

-- The end of a coroutine's work gives its thread to the pool.
pub handle_process_end_lem :
    (t : ℕ) (f g : Frame)
    → f.running_thread ≡ some t
    → handle_process_end f ≡ some g
    → (p : Frame) × (recycle_running_thread f ≡ some p) × (g ≡ schedule p)
unfolding handle_process_end
handle_process_end_lem t f g r h = elim (Option-cases (recycle_running_thread f)) [
  | inl e ↦ absurd (ground arith)
  | inr (p, e) ↦ (p, e, ground arith)
]

pub recycle-queued :
    (t x : ℕ) (f p : Frame)
    → f.cpu ≡ some t
    → f.running_thread ≡ some t
    → recycle_running_thread f ≡ some p
    → (queued x p ≡ places x f) × (p.fresh ≡ f.fresh)
unfolding recycle_running_thread
recycle-queued t x f p c r e = ground (arith, count-append x f.thread_free (t ∷ []))

pub handle_process_end-Moves :
    (t : ℕ) (f g : Frame)
    → f.cpu ≡ some t
    → f.running_thread ≡ some t
    → handle_process_end f ≡ some g
    → Moves f g
handle_process_end-Moves t f g c r h =
    let (p, e, s) = handle_process_end_lem t f g r h in
    rw s (switch-Moves f p (λ x. (recycle-queued t x f p c r e).0) (recycle-queued t 0 f p c r e).1)

pub socket_read_or_write-Moves :
    (fd : ℕ) (f g : Frame) → socket_read_or_write fd f ≡ some g → Moves f g
unfolding socket_read_or_write
socket_read_or_write-Moves fd f g h = elim (Option-cases (find_fd fd f.io_wait_map)) [
  | inl e ↦ absurd (ground arith)
  | inr (t, e) ↦ (
    (λ x.
        ground
          (arith, count-append x f.thread_runnable (t ∷ []), count-erase_fd x fd t f.io_wait_map)),
    ground arith,
  )
]

module _ (H : TimerHeap) where
  pub sleep_lem :
      (t now ms : ℕ) (f : Frame)
      → f.running_thread ≡ some t
      → sleep H now ms f ≡ schedule (bed_down H now ms t f)
  unfolding sleep
  sleep_lem t now ms f r = ground arith

  bed_down-queued :
      (t now ms x : ℕ) (f : Frame)
      → f.cpu ≡ some t
      → H.IsHeap f.thread_pending
      → queued x (bed_down H now ms t f) ≡ places x f
  unfolding bed_down
  bed_down-queued t now ms x f c v =
      let s : Sleeper = record { thread = t; wakeup = (now + ms) % 2 ^ 64 } in
      rw c (
        omega (
          arith,
          count-SameSleepers x (H.push_heap (f.thread_pending ++ s ∷ [])) (s ∷ f.thread_pending)
              (H.push_same f.thread_pending s v),
        ))

  pub sleep-Moves :
      (t now ms : ℕ) (f : Frame)
      → f.cpu ≡ some t
      → f.running_thread ≡ some t
      → H.IsHeap f.thread_pending
      → Moves f (sleep H now ms f)
  sleep-Moves t now ms f c r v = rw (sleep_lem t now ms f r) (
      switch-Moves f (bed_down H now ms t f) (λ x. bed_down-queued t now ms x f c v)
        (unfold bed_down in refl))

  count-Woken :
      (x : ℕ) (f g : Frame) (ws : List Sleeper)
      → Woken H f g ws
      → count x (threads_of f.thread_pending)
        ≡ count x (threads_of ws) + count x (threads_of g.thread_pending)
  count-Woken x f g ws w = omega (
    arith,
    count-tally x f.thread_pending,
    count-tally x ws,
    count-tally x g.thread_pending,
    w.split (λ s. x == s.thread),
  )

  pub wakeup-Moves :
      (f g : Frame) (ws : List Sleeper) → Woken H f g ws → g.fresh ≡ f.fresh → Moves f g
  wakeup-Moves f g ws w e = (
    (λ x.
        rw (w.queued, w.waits, w.spare, w.context)
          (omega
            (arith, count-Woken x f g ws w, count-append x f.thread_runnable (threads_of ws)))),
    e,
  )
