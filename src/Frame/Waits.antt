-- ===== src/Frame/Waits.antt =====
-- `io_wait_map_`: which thread waits for which descriptor. An unordered map holds a key once, so
-- `erase` looks for one entry.
use tinyco.Prelude.{
  ℕ, ◌+◌, ◌≡◌, inl, inr, Option, none, some, List, [], ◌∷◌, map, arith, ◌==◌, if◌then◌else◌,
  Bool-cases, count,
}

unfoldable pub find_fd : ℕ → List (ℕ × ℕ) → Option ℕ
find_fd fd [] = none
find_fd fd ((k, t) ∷ m) = if k == fd then some t else find_fd fd m

unfoldable pub put_fd : ℕ → ℕ → List (ℕ × ℕ) → List (ℕ × ℕ)
put_fd fd t [] = (fd, t) ∷ []
put_fd fd t ((k, u) ∷ m) = if k == fd then (k, t) ∷ m else (k, u) ∷ put_fd fd t m

unfoldable pub erase_fd : ℕ → List (ℕ × ℕ) → List (ℕ × ℕ)
erase_fd fd [] = []
erase_fd fd ((k, u) ∷ m) = if k == fd then m else (k, u) ∷ erase_fd fd m

abbrev pub waiters : List (ℕ × ℕ) → List ℕ
waiters = map (λ e. e.1)

-- One or none.
abbrev pub is_one : ℕ → ℕ → ℕ
is_one x t = if x == t then 1 else 0

pub count-put_fd :
    (x fd t : ℕ) (m : List (ℕ × ℕ))
    → find_fd fd m ≡ none
    → count x (waiters (put_fd fd t m)) ≡ count x (waiters m) + is_one x t
unfolding find_fd put_fd
count-put_fd x fd t [] h = omega arith
count-put_fd x fd t ((k, u) ∷ m) h = elim (Bool-cases (k == fd)) [
  | inl e ↦ ground arith
  | inr e ↦ ground (arith, count-put_fd x fd t m)
]

-- A descriptor that another thread waits for: that thread is dropped.
pub count-put_fd_taken :
    (x fd t u : ℕ) (m : List (ℕ × ℕ))
    → find_fd fd m ≡ some u
    → count x (waiters (put_fd fd t m)) + is_one x u ≡ count x (waiters m) + is_one x t
unfolding find_fd put_fd
count-put_fd_taken x fd t u [] h = cc
count-put_fd_taken x fd t u ((k, v) ∷ m) h = ground (arith, count-put_fd_taken x fd t u m)

pub count-erase_fd :
    (x fd u : ℕ) (m : List (ℕ × ℕ))
    → find_fd fd m ≡ some u
    → count x (waiters (erase_fd fd m)) + is_one x u ≡ count x (waiters m)
unfolding find_fd erase_fd
count-erase_fd x fd u [] h = cc
count-erase_fd x fd u ((k, v) ∷ m) h = ground (arith, count-erase_fd x fd u m)

pub find_fd-put_fd : (fd t : ℕ) (m : List (ℕ × ℕ)) → find_fd fd (put_fd fd t m) ≡ some t
unfolding find_fd put_fd
find_fd-put_fd fd t [] = ground arith
find_fd-put_fd fd t ((k, u) ∷ m) = ground (arith, find_fd-put_fd fd t m)
