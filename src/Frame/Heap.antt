-- ===== src/Frame/Heap.antt =====
-- What frame.cc uses of the standard library's heaps: `std::push_heap` and `std::pop_heap` over the
-- vector `thread_pending_`, ordered by `ThreadPendingTimeComp` (the earliest wake-up time on top).
-- ISO C++ fixes their contract and leaves the layout open, so they are an interface.
use tinyco.Prelude.{
  ℕ, ◌+◌, ◌≡◌, refl, sym, ◌∙◌, inl, inr, Bool, true, false, List, [], ◌∷◌, ◌++◌, map, arith, ltb,
  ◌==◌, if◌then◌else◌, Bool-cases, length, All, count,
}

-- A sleeping thread with its `wakeup_ts_`, which only its own `Sleep` and its wake-up write.
pub record Sleeper : Type 0 where
  pub thread : ℕ
  pub wakeup : ℕ

-- How many sleepers pass a test. Two vectors hold the same sleepers if they agree on every test.
abbrev pub tally : (Sleeper → Bool) → List Sleeper → ℕ
tally p [] = 0
tally p (s ∷ ss) = (if p s then 1 else 0) + tally p ss

abbrev pub SameSleepers : List Sleeper → List Sleeper → Type 0
SameSleepers xs ys = (p : Sleeper → Bool) → tally p xs ≡ tally p ys

-- `ThreadPendingTimeComp`: the first is below the second in the heap.
unfoldable pub wakes_after : Sleeper → Sleeper → Bool
wakes_after a b = ltb b.wakeup a.wakeup

-- No sleeper of the list goes before `s`.
abbrev pub OnTop : Sleeper → List Sleeper → Type 0
OnTop s = All (λ t. wakes_after s t ≡ false)

pub record TimerHeap : Type 1 where
  pub IsHeap : List Sleeper → Type 0
  -- The element behind the heap joins it.
  pub push_heap : List Sleeper → List Sleeper
  -- The top goes behind the heap of the others.
  pub pop_heap : List Sleeper → List Sleeper
  pub empty_lem : IsHeap []
  pub top_lem : (s : Sleeper) (l : List Sleeper) → IsHeap (s ∷ l) → OnTop s l
  pub push_keeps : (l : List Sleeper) (s : Sleeper) → IsHeap l → IsHeap (push_heap (l ++ s ∷ []))
  pub push_same :
      (l : List Sleeper) (s : Sleeper) → IsHeap l → SameSleepers (push_heap (l ++ s ∷ [])) (s ∷ l)
  pub pop_lem :
      (s : Sleeper) (l : List Sleeper)
      → IsHeap (s ∷ l)
      → (r : List Sleeper) × (pop_heap (s ∷ l) ≡ r ++ s ∷ []) × IsHeap r × SameSleepers r l

pub tally-append :
    (p : Sleeper → Bool) (xs ys : List Sleeper) → tally p (xs ++ ys) ≡ tally p xs + tally p ys
tally-append p [] ys = omega arith
tally-append p (x ∷ xs) ys = omega (arith, tally-append p xs ys)

-- A property that a test decides passes between vectors with the same sleepers.
pub All-tally :
    (p : Sleeper → Bool) (xs : List Sleeper) → All (λ s. p s ≡ false) xs → tally p xs ≡ 0
All-tally p [] h = refl
All-tally p (x ∷ xs) h = rw h.0 (omega (arith, All-tally p xs h.1))

pub tally-All :
    (p : Sleeper → Bool) (xs : List Sleeper) → tally p xs ≡ 0 → All (λ s. p s ≡ false) xs
tally-All p [] h = tt
tally-All p (x ∷ xs) h = elim (Bool-cases (p x)) [
  | inl e ↦ absurd (ground arith)
  | inr e ↦ (e, tally-All p xs (ground arith))
]

pub All-SameSleepers :
    (p : Sleeper → Bool) (xs ys : List Sleeper)
    → SameSleepers xs ys
    → All (λ s. p s ≡ false) ys
    → All (λ s. p s ≡ false) xs
All-SameSleepers p xs ys same h = tally-All p xs (same p ∙ All-tally p ys h)

-- The threads of a vector.
abbrev pub threads_of : List Sleeper → List ℕ
threads_of = map (λ s. s.thread)

pub count-tally :
    (x : ℕ) (ss : List Sleeper) → count x (threads_of ss) ≡ tally (λ s. x == s.thread) ss
count-tally x [] = refl
count-tally x (s ∷ ss) = omega (arith, count-tally x ss)

pub count-SameSleepers :
    (x : ℕ) (xs ys : List Sleeper)
    → SameSleepers xs ys
    → count x (threads_of xs) ≡ count x (threads_of ys)
count-SameSleepers x xs ys same =
    count-tally x xs ∙ same (λ s. x == s.thread) ∙ sym (count-tally x ys)

pub length-tally : (ss : List Sleeper) → length ss ≡ tally (λ s. true) ss
length-tally [] = refl
length-tally (s ∷ ss) = omega (arith, length-tally ss)

pub length-SameSleepers : (xs ys : List Sleeper) → SameSleepers xs ys → length xs ≡ length ys
length-SameSleepers xs ys same = length-tally xs ∙ same (λ s. true) ∙ sym (length-tally ys)

-- The first of a heap, and whatever else holds its other elements.
pub OnTop-SameSleepers :
    (s : Sleeper) (xs ys : List Sleeper) → SameSleepers xs ys → OnTop s ys → OnTop s xs
OnTop-SameSleepers s xs ys same h = All-SameSleepers (wakes_after s) xs ys same h
