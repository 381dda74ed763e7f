-- ===== src/Frame/Dropped.antt =====
-- A coroutine that another one replaces in `io_wait_map_` of frame.cc.
use tinyco.Prelude.{ℕ, ◌≤◌, ◌<◌, ◌≡◌, refl, ◌≢◌, inl, inr, some, arith}
use tinyco.Frame.Heap.{TimerHeap}
use tinyco.Frame.Waits.{find_fd, count-put_fd_taken}
use tinyco.Frame.State.{Frame, park, wait_io}
use tinyco.Frame.Steps.{Step, Reach}
use tinyco.Frame.Ownership.{places, places-schedule, schedule-fresh, wait_io_lem}
use tinyco.Frame.Invariant.{
  Inv, Step-Inv, Step-Moves, Reach-Inv, schedule-runs, schedule-pending, wait_io_drops,
}
use tinyco.Frame.Turns.{Run, over, goes_on, Served}

-- A wait for a descriptor that another coroutine waits for adds no coroutine to any place.
wait_io-places :
    (t u fd x : ℕ) (f g : Frame)
    → f.cpu ≡ some t
    → f.running_thread ≡ some t
    → find_fd fd f.io_wait_map ≡ some u
    → wait_io fd f ≡ some g
    → places x g ≤ places x f
wait_io-places t u fd x f g c r h e =
    rw (wait_io_lem t fd f g r e, places-schedule x (park fd t f))
      (unfold park in ground (arith, count-put_fd_taken x fd t u f.io_wait_map, c))

wait_io-fresh :
    (t fd : ℕ) (f g : Frame) → f.running_thread ≡ some t → wait_io fd f ≡ some g → g.fresh ≡ f.fresh
wait_io-fresh t fd f g r e =
    rw (wait_io_lem t fd f g r e, schedule-fresh (park fd t f)) (unfold park in refl)

module _ (H : TimerHeap) where
  wait_io-Inv :
      (t u fd : ℕ) (f g : Frame)
      → Inv H f
      → f.cpu ≡ some t
      → find_fd fd f.io_wait_map ≡ some u
      → wait_io fd f ≡ some g
      → Inv H g
  wait_io-Inv t u fd f g v c h e =
      let r = v.runs t c in
      let same = wait_io_lem t fd f g r e in
      record {
        once = λ x. omega (arith, wait_io-places t u fd x f g c r h e, v.once x);
        below = λ x b. omega (
          arith,
          wait_io-places t u fd x f g c r h e,
          v.below x (omega (arith, wait_io-fresh t fd f g r e)),
        );
        runs = rw same (schedule-runs H (park fd t f));
        heap = rw (same, schedule-pending H (park fd t f)) (unfold park in v.heap);
      }

  -- A coroutine that has no place is not the one that runs, and gets no place by a step.
  nowhere-Step :
      (u : ℕ) (f g : Frame)
      → Inv H f
      → u < f.fresh
      → places u f ≡ 0
      → Step H f g
      → (places u g ≡ 0) × (u < g.fresh)
  nowhere-Step u f g v b z s = elim (Step-Moves H v s) [
    | inl (m, e) ↦ (omega (arith, m u), omega (arith, e))
    | inr (m, e) ↦ (ground (arith, m u), omega (arith, e))
  ]

  nowhere-cpu : (u : ℕ) (f : Frame) → places u f ≡ 0 → f.cpu ≢ some u
  nowhere-cpu u f z e = ground arith

  nowhere-Served :
      {f : Frame} (u : ℕ) (r : Run H f) → Inv H f → u < f.fresh → places u f ≡ 0 → ¬ Served H u r
  unfolding Served
  nowhere-Served u over v b z h = h
  nowhere-Served {f} u (goes_on {g = g} s r) v b z h =
      let (z', b') = nowhere-Step u f g v b z s in
      elim h [ inl e ↦ nowhere-cpu u g z' e | inr k ↦ nowhere-Served u r (Step-Inv H s v) b' z' k ]

  -- `io_wait_map_` holds one coroutine for each descriptor: if a coroutine waits for a descriptor that
  -- another one waits for, the other never runs again, in any run of the scheduler behind it whose steps
  -- wait only for descriptors that nobody waits for.
  pub dropped-never :
      {f g : Frame} (t u fd : ℕ) (r : Run H g)
      → Reach H f
      → f.cpu ≡ some t
      → find_fd fd f.io_wait_map ≡ some u
      → u ≢ t
      → places u f ≡ 1
      → wait_io fd f ≡ some g
      → ¬ Served H u r
  dropped-never {f} {g} t u fd r reach c h ne one e =
      let v = Reach-Inv H reach in
      nowhere-Served u r (wait_io-Inv t u fd f g v c h e)
        (ground (arith, v.below u, wait_io-fresh t fd f g (v.runs t c) e))
        (wait_io_drops t u fd f g c (v.runs t c) h ne one e)
