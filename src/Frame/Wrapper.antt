-- ===== src/Frame/Wrapper.antt =====
-- `ThreadWrapper` of thread.h: what `CreateThread` gives its caller to ask for the end of a coroutine.
use tinyco.Prelude.{
  ℕ, ◌≡◌, refl, sym, ◌∙◌, Bool, true, false, Option, none, some, List, [], ◌∷◌, ◌++◌, arith,
  ==_self,
}
use mathlib.Core.Path.{subst}
use tinyco.Frame.State.{
  stop, runnable, pending, dead, Frame, set_state, pop_back, alloc_new_thread, create_thread,
  recycle_running_thread, thread_init, set_context,
}

-- `IsDead` and `IsValid`, with a null pointer as `none`: `IsDead` dereferences it.
unfoldable pub is_dead : Option ℕ → Frame → Option Bool
is_dead none f = none
is_dead (some t) f =
    some
      (elim (f.threads t).state [ stop ↦ false | runnable ↦ false | pending ↦ false | dead ↦ true ])

unfoldable pub is_valid : Option ℕ → Bool
is_valid none = false
is_valid (some t) = true

pop_back-snoc : (xs : List ℕ) (x : ℕ) → pop_back (xs ++ x ∷ []) ≡ some (xs, x)
unfolding pop_back
pop_back-snoc [] x = refl
pop_back-snoc (y ∷ xs) x = rw (pop_back-snoc xs x)

-- A coroutine's end, as `RecycleRunningThread` leaves it.
abbrev recycled : ℕ → Frame → Frame
recycled t f = record (set_state t dead f) {
  thread_free = f.thread_free ++ t ∷ [];
  running_thread = none;
}

recycle-recycled :
    (t : ℕ) (f : Frame) → f.running_thread ≡ some t → recycle_running_thread f ≡ some (recycled t f)
unfolding recycle_running_thread
recycle-recycled t f r = rw (recycle_running_thread, r)

recycled-is_dead : (t : ℕ) (f : Frame) → is_dead (some t) (recycled t f) ≡ some true
unfolding is_dead
recycled-is_dead t f = rw (==_self t)

reused :
    (work t : ℕ) (f : Frame)
    → ((create_thread work (recycled t f)).1 ≡ t)
      × (is_dead (some t) (create_thread work (recycled t f)).0 ≡ some false)
unfolding create_thread alloc_new_thread is_dead thread_init set_context
reused work t f = rw (alloc_new_thread, pop_back-snoc f.thread_free t) (refl, rw (==_self t) refl)

-- The wrapper of a coroutine that has ended says so until the next `CreateThread`, which takes the same
-- thread again: from then on it says that the coroutine is not dead.
pub is_dead-reuse :
    (work t : ℕ) (f g : Frame)
    → f.running_thread ≡ some t
    → recycle_running_thread f ≡ some g
    → (is_dead (some t) g ≡ some true)
      × ((create_thread work g).1 ≡ t)
      × (is_dead (some t) (create_thread work g).0 ≡ some false)
is_dead-reuse work t f g r e =
    let both : some (recycled t f) ≡ some g = sym (recycle-recycled t f r) ∙ e in
    let same : recycled t f ≡ g = ground arith in
    subst
      (λ h.
        (is_dead (some t) h ≡ some true)
        × ((create_thread work h).1 ≡ t)
        × (is_dead (some t) (create_thread work h).0 ≡ some false))
      same (recycled-is_dead t f, (reused work t f).0, (reused work t f).1)
