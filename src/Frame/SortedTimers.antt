-- ===== src/Frame/SortedTimers.antt =====
-- A vector in order of wake-up times is a heap as the standard has it: an instance of the contract.
use tinyco.Prelude.{
  ◌≡◌, refl, inl, inr, true, false, none, some, List, [], ◌∷◌, ◌++◌, arith, if◌then◌else◌,
  Bool-cases,
}
use tinyco.Frame.Heap.{Sleeper, SameSleepers, wakes_after, OnTop, OnTop-SameSleepers, TimerHeap}
use tinyco.Frame.Pending.{pop_last, pop_last-append}
use tinyco.Frame.Wakeup.{Ordered}

unfoldable pub place : Sleeper → List Sleeper → List Sleeper
place s [] = s ∷ []
place s (t ∷ ts) = let rest = place s ts in if wakes_after t s then s ∷ t ∷ ts else t ∷ rest

-- The last element goes to its place among the others.
unfoldable pub push_last : List Sleeper → List Sleeper
unfolding place pop_last
push_last xs = elim (pop_last xs) [ none ↦ [] | some (r, s) ↦ place s r ]

-- The first element goes to the end.
unfoldable pub rotate : List Sleeper → List Sleeper
rotate [] = []
rotate (s ∷ ss) = ss ++ s ∷ []

push_last-append : (l : List Sleeper) (s : Sleeper) → push_last (l ++ s ∷ []) ≡ place s l
unfolding push_last
push_last-append l s = ground (arith, pop_last-append l s)

place-same : (s : Sleeper) (l : List Sleeper) → SameSleepers (place s l) (s ∷ l)
unfolding place
place-same s [] p = refl
place-same s (t ∷ ts) p = ground (arith, place-same s ts p)

OnTop-trans : (s t : Sleeper) (l : List Sleeper) → wakes_after t s ≡ true → OnTop t l → OnTop s l
unfolding wakes_after
OnTop-trans s t [] h k = tt
OnTop-trans s t (u ∷ l) h k = (ground arith, OnTop-trans s t l h k.1)

wakes_after_asym : (s t : Sleeper) → wakes_after t s ≡ true → wakes_after s t ≡ false
unfolding wakes_after
wakes_after_asym s t h = ground arith

place-Ordered : (s : Sleeper) (l : List Sleeper) → Ordered l → Ordered (place s l)
unfolding place
place-Ordered s [] h = (tt, tt)
place-Ordered s (t ∷ ts) h = elim (Bool-cases (wakes_after t s)) [
  | inl e ↦ rw e ((wakes_after_asym s t e, OnTop-trans s t ts e h.0), h)
  | inr e ↦ rw e (
    OnTop-SameSleepers t (place s ts) (s ∷ ts) (place-same s ts) (e, h.0),
    place-Ordered s ts h.1,
  )
]

pub push_last-Ordered :
    (l : List Sleeper) (s : Sleeper) → Ordered l → Ordered (push_last (l ++ s ∷ []))
push_last-Ordered l s h = rw (push_last-append l s) (place-Ordered s l h)

pub push_last-same :
    (l : List Sleeper) (s : Sleeper) → Ordered l → SameSleepers (push_last (l ++ s ∷ [])) (s ∷ l)
push_last-same l s h p = rw (push_last-append l s) (place-same s l p)

pub rotate-Ordered :
    (s : Sleeper) (l : List Sleeper)
    → Ordered (s ∷ l)
    → (r : List Sleeper) × (rotate (s ∷ l) ≡ r ++ s ∷ []) × Ordered r × SameSleepers r l
unfolding rotate
rotate-Ordered s l h = (l, refl, h.1, λ p. refl)

abbrev pub sorted_timers : TimerHeap
sorted_timers = record {
  IsHeap = Ordered;
  push_heap = push_last;
  pop_heap = rotate;
  empty_lem = tt;
  top_lem = λ s l h. h.0;
  push_keeps = push_last-Ordered;
  push_same = push_last-same;
  pop_lem = rotate-Ordered;
}
