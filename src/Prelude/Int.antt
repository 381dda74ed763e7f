-- ===== src/Prelude/Int.antt =====
-- C's signed `int` as an integer over the native numbers: return codes, states and counts.
use Prim.Native.Nat.{ℕ, zero, suc}
use mathlib.Core.Path.{◌≡◌, refl}
use mathlib.Core.Logic.{◌⊎◌, inl, inr}
use mathlib.Core.Bool.{Bool, true, false}

-- `negsuc n` is -(n + 1).
pub data ℤ : Type 0 where
  pos : ℕ → ℤ
  negsuc : ℕ → ℤ

-- -n.
abbrev pub neg : ℕ → ℤ
neg zero = pos 0
neg (suc n) = negsuc n

-- `ret < 0`.
abbrev pub is_neg : ℤ → Bool
is_neg (pos n) = false
is_neg (negsuc n) = true

-- `ret > 0`.
abbrev pub is_pos : ℤ → Bool
is_pos (pos zero) = false
is_pos (pos (suc n)) = true
is_pos (negsuc n) = false

pub ℤ-cases : (z : ℤ) → (z ≡ pos 0) ⊎ ((k : ℕ) × (z ≡ pos (suc k))) ⊎ ((k : ℕ) × (z ≡ negsuc k))
ℤ-cases (pos zero) = inl refl
ℤ-cases (pos (suc k)) = inr (inl (k, refl))
ℤ-cases (negsuc k) = inr (inr (k, refl))
