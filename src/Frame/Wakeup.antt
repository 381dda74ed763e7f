-- ===== src/Frame/Wakeup.antt =====
-- What `WakeupPendingThread` does to the sleepers.
use tinyco.Prelude.{
  ℕ, zero, suc, ◌+◌, ◌≤◌, ◌<◌, ◌≡◌, refl, ◌∙◌, inl, inr, Bool, List, [], ◌∷◌, ◌++◌, append-nil,
  append_assoc, arith, leb, leb→le, Bool-cases, length, All,
}
use tinyco.Frame.Heap.{
  Sleeper, tally, SameSleepers, wakes_after, OnTop, TimerHeap, All-tally, tally-All, threads_of,
  length-SameSleepers, OnTop-SameSleepers,
}
use tinyco.Frame.State.{Frame}
use tinyco.Frame.Pending.{
  wake, wakeup_loop, wakeup_pending_thread, pop_pending_top, pop_last-append,
}

-- Earlier sleepers stand before later ones.
abbrev pub Ordered : List Sleeper → Type 0
Ordered [] = Unit {0}
Ordered (s ∷ ss) = OnTop s ss × Ordered ss

-- The sleepers `ws` went from the timers to the back of the run queue, in that order; they are those
-- whose time has come, the earliest first; and the other queues are as before.
pub record Woken (H : TimerHeap) (f g : Frame) (ws : List Sleeper) : Type 0 where
  pub queued : g.thread_runnable ≡ f.thread_runnable ++ threads_of ws
  pub due : All (λ s. s.wakeup ≤ f.last_loop_ts) ws
  pub late : All (λ s. f.last_loop_ts < s.wakeup) g.thread_pending
  pub split :
      (p : Sleeper → Bool) → tally p f.thread_pending ≡ tally p ws + tally p g.thread_pending
  pub ordered : Ordered ws
  pub heap : H.IsHeap g.thread_pending
  pub waits : g.io_wait_map ≡ f.io_wait_map
  pub spare : g.thread_free ≡ f.thread_free
  pub context : g.cpu ≡ f.cpu
  pub made : g.fresh ≡ f.fresh

late_of_OnTop :
    (now : ℕ) (s : Sleeper) (l : List Sleeper)
    → now < s.wakeup
    → OnTop s l
    → All (λ t. now < t.wakeup) l
unfolding wakes_after
late_of_OnTop now s [] h k = tt
late_of_OnTop now s (t ∷ l) h k = (ground arith, late_of_OnTop now s l h k.1)

OnTop-part :
    (s : Sleeper) (ws gs r : List Sleeper)
    → ((p : Sleeper → Bool) → tally p r ≡ tally p ws + tally p gs)
    → OnTop s r
    → OnTop s ws
OnTop-part s ws gs r split h =
    tally-All (wakes_after s) ws
      (omega (arith, split (wakes_after s), All-tally (wakes_after s) r h))

module _ (H : TimerHeap) where
  -- One round that wakes the front of the heap.
  wakeup_round :
      (sz : ℕ) (f : Frame) (n : Sleeper) (l r : List Sleeper)
      → f.thread_pending ≡ n ∷ l
      → n.wakeup ≤ f.last_loop_ts
      → H.pop_heap (n ∷ l) ≡ r ++ n ∷ []
      → wakeup_loop H (suc sz) f ≡ wakeup_loop H sz (wake H n (record f { thread_pending = r }))
  unfolding wakeup_loop pop_pending_top
  wakeup_round sz f n l r e h k = ground (arith, pop_last-append r n)

  -- The round that stops: the front is not due, or there is none.
  wakeup_stop :
      (sz : ℕ) (f : Frame) (n : Sleeper) (l : List Sleeper)
      → f.thread_pending ≡ n ∷ l
      → f.last_loop_ts < n.wakeup
      → wakeup_loop H (suc sz) f ≡ f
  unfolding wakeup_loop
  wakeup_stop sz f n l e h = ground arith

  stopped :
      (f : Frame)
      → H.IsHeap f.thread_pending
      → All (λ s. f.last_loop_ts < s.wakeup) f.thread_pending
      → Woken H f f []
  stopped f v h = record {
    queued = rw append-nil;
    due = tt;
    late = h;
    split = λ p. omega arith;
    ordered = tt;
    heap = v;
    waits = refl;
    spare = refl;
    context = refl;
    made = refl;
  }

  -- A round in front of what the rest of the loop does.
  one_more :
      (f g : Frame) (n : Sleeper) (l r ws : List Sleeper)
      → f.thread_pending ≡ n ∷ l
      → n.wakeup ≤ f.last_loop_ts
      → SameSleepers r l
      → OnTop n l
      → Woken H (wake H n (record f { thread_pending = r })) g ws
      → Woken H f g (n ∷ ws)
  unfolding wake
  one_more f g n l r ws e h same top w = record {
    queued = w.queued ∙ append_assoc f.thread_runnable (n.thread ∷ []) (threads_of ws);
    due = (h, w.due);
    late = w.late;
    split = λ p. rw e (omega (arith, w.split p, same p));
    ordered =
        (OnTop-part n ws g.thread_pending r w.split (OnTop-SameSleepers n r l same top), w.ordered);
    heap = w.heap;
    waits = w.waits;
    spare = w.spare;
    context = w.context;
    made = w.made;
  }

  wakeup_loop-Woken :
      (sz : ℕ) (f : Frame) (l : List Sleeper)
      → f.thread_pending ≡ l
      → length l ≤ sz
      → H.IsHeap l
      → (ws : List Sleeper) × Woken H f (wakeup_loop H sz f) ws
  wakeup_loop-Woken zero f [] e b v = ([], unfold wakeup_loop in stopped f (rw e v) (rw e tt))
  wakeup_loop-Woken zero f (n ∷ l) e b v = absurd (omega arith)
  wakeup_loop-Woken (suc sz) f [] e b v = ([], rw (stays f e) (stopped f (rw e v) (rw e tt)))
    where
      stays : (f : Frame) → f.thread_pending ≡ [] → wakeup_loop H (suc sz) f ≡ f
      stays f e = unfold wakeup_loop in ground arith
  wakeup_loop-Woken (suc sz) f (n ∷ l) e b v = elim (Bool-cases (leb n.wakeup f.last_loop_ts)) [
    | inl d ↦
        let (r, k, v', same) = H.pop_lem n l v in
        let (ws, w) =
          wakeup_loop-Woken sz (wake H n (record f { thread_pending = r })) r (unfold wake in refl)
            (omega (arith, length-SameSleepers r l same)) v' in
        (
          n ∷ ws,
          rw (wakeup_round sz f n l r e (leb→le _ _ d) k)
              (one_more f _ n l r ws e (leb→le _ _ d) same (H.top_lem n l v) w),
        )
    | inr d ↦
        let after : f.last_loop_ts < n.wakeup = ground arith in
        (
          [],
          rw (wakeup_stop sz f n l e after) (
              stopped f (rw e v)
                (rw e (after, late_of_OnTop f.last_loop_ts n l after (H.top_lem n l v)))),
        )
  ]

  -- `WakeupPendingThread` wakes exactly the sleepers whose time has come, the earliest first, and
  -- queues their threads behind the runnable ones. What is left of the timers is a heap that holds
  -- the other sleepers, and no other queue changes.
  pub wakeup_pending_thread-Woken :
      (f : Frame)
      → H.IsHeap f.thread_pending
      → (ws : List Sleeper) × Woken H f (wakeup_pending_thread H f) ws
  unfolding wakeup_pending_thread
  wakeup_pending_thread-Woken f v =
      wakeup_loop-Woken (length f.thread_pending) f f.thread_pending refl (omega arith) v
