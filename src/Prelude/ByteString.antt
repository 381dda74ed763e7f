-- ===== src/Prelude/ByteString.antt =====
-- `std::string` as a list of bytes: literals, equality, concatenation, decimal numbers.
use Prim.Native.Nat.{ℕ}
use Prim.Native.Char.{code}
use Prim.Native.String.{String}
use mathlib.Core.Path.{◌≡◌, refl}
use mathlib.Core.Logic.{◌↔◌}
use mathlib.Core.Bool.{Bool, true, false, ◌&&◌}
use mathlib.Core.List.{List, [], ◌∷◌}
use native.Mathlib.Omega.{arith}
use tinyco.Prelude.Tests.{◌==◌}

abbrev pub Bytes : Type 0
Bytes = List ℕ

-- The bytes of a literal, which are its code points when the text is ASCII.
abbrev pub codes : String → Bytes
codes String.[] = []
codes (String.◌∷◌ c s) = code c ∷ codes s

-- `operator==` of `std::string`.
abbrev pub eqb : Bytes → Bytes → Bool
eqb [] [] = true
eqb [] (y ∷ ys) = false
eqb (x ∷ xs) [] = false
eqb (x ∷ xs) (y ∷ ys) = x == y && eqb xs ys

pub eqb_sound : (xs ys : Bytes) → eqb xs ys ≡ true → xs ≡ ys
eqb_sound [] [] h = refl
eqb_sound [] (y ∷ ys) h = ground arith
eqb_sound (x ∷ xs) [] h = ground arith
eqb_sound (x ∷ xs) (y ∷ ys) h = ground (arith, eqb_sound xs ys)

pub eqb_self : (xs : Bytes) → eqb xs xs ≡ true
eqb_self [] = refl
eqb_self (x ∷ xs) = ground (arith, eqb_self xs)

pub eqb_iff : (xs ys : Bytes) → (eqb xs ys ≡ true) ↔ (xs ≡ ys)
eqb_iff xs ys = (eqb_sound xs ys, λ e. rw e (eqb_self ys))

-- `std::string::empty`.
abbrev pub is_empty : Bytes → Bool
is_empty [] = true
is_empty (x ∷ xs) = false
