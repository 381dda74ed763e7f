-- ===== src/Http/Decimal.antt =====
-- Numbers in decimal, as `operator<<` of a string stream writes them and `std::stoul` reads them.
use native.Mathlib.Nat.{pow-suc}
use tinyco.Prelude.{
  ℕ, zero, suc, ◌+◌, ◌-◌, ◌*◌, ◌/◌, ◌%◌, ◌^◌, ◌<◌, ◌≡◌, refl, ap, ◌∙◌, ◌≢◌, inl, inr, Bool, true,
  ◌&&◌, Option, none, some, [], ◌∷◌, arith, ltb, leb, if◌then◌else◌, Bool-cases, All, Bytes, codes,
}

-- The digits of `n` in front of `out`, with `fuel` digits at most.
emit : ℕ → ℕ → Bytes → Bytes
emit zero n out = out
emit (suc fuel) n out =
    let rest = emit fuel (n / 10) ((b'0' + n % 10) ∷ out) in
    if ltb n 10 then (b'0' + n) ∷ out else rest

-- 20 digits are enough for 64 bits.
unfoldable pub to_decimal : ℕ → Bytes
unfolding emit
to_decimal n = emit 20 n []

abbrev is_digit : ℕ → Bool
is_digit c = leb b'0' c && leb c b'9'

scan : Bytes → ℕ → ℕ
scan [] n = n
scan (c ∷ s) n = let rest = scan s (n * 10 + (c - b'0')) in if is_digit c then rest else n

-- The number in front of the text; `stoul` throws where there is none.
unfoldable pub stoul : Bytes → Option ℕ
unfolding scan
stoul [] = none
stoul (c ∷ s) = if is_digit c then some (scan (c ∷ s) 0) else none

tenth : (f n : ℕ) → n < 10 ^ suc f → n / 10 < 10 ^ f
tenth f n h = let e : n < 10 ^ f * 10 = rw pow-suc at h in omega arith

-- The digits of `n` are read back, and the text behind them goes on.
scan-emit : (f n : ℕ) (out : Bytes) → n < 10 ^ suc f → scan (emit (suc f) n out) 0 ≡ scan out n
unfolding scan emit
scan-emit zero n out h = ground arith
scan-emit (suc f) n out h = elim (Bool-cases (ltb n 10)) [
  | inl e ↦ ground arith
  | inr e ↦ ground (arith, scan-emit f (n / 10) ((b'0' + n % 10) ∷ out) (tenth (suc f) n h))
]

emit-head :
    (f n : ℕ) (out : Bytes)
    → n < 10 ^ suc f
    → (c : ℕ) × (s : Bytes) × (emit (suc f) n out ≡ c ∷ s) × (is_digit c ≡ true)
unfolding emit
emit-head zero n out h = (b'0' + n, out, ground arith, ground arith)
emit-head (suc f) n out h = elim (Bool-cases (ltb n 10)) [
  | inl e ↦ (b'0' + n, out, rw e, ground arith)
  | inr e ↦
      let (c, s, p, q) = emit-head f (n / 10) ((b'0' + n % 10) ∷ out) (tenth (suc f) n h) in
      (c, s, rw e p, q)
]

status_line : to_decimal 404 ≡ codes "404"
unfolding to_decimal
status_line = refl

stoul_digit : (c : ℕ) (s t : Bytes) → t ≡ c ∷ s → is_digit c ≡ true → stoul t ≡ some (scan t 0)
unfolding stoul
stoul_digit c s t p q = rw (p, q)

-- A number below 10^20, which every 64-bit number is, written in decimal is read back as it was.
pub stoul-to_decimal : (n : ℕ) → n < 10 ^ 20 → stoul (to_decimal n) ≡ some n
unfolding to_decimal scan
stoul-to_decimal n h =
    let (c, s, p, q) = emit-head 19 n [] h in
    stoul_digit c s (emit 20 n []) p q ∙ ap some (scan-emit 19 n [] h)

emit-without :
    (x f n : ℕ) (out : Bytes) → x < b'0' → All (λ c. c ≢ x) out → All (λ c. c ≢ x) (emit f n out)
unfolding emit
emit-without x zero n out l h = h
emit-without x (suc f) n out l h = elim (Bool-cases (ltb n 10)) [
  | inl e ↦ rw e (omega arith, h)
  | inr e ↦ rw e (emit-without x f (n / 10) ((b'0' + n % 10) ∷ out) l (omega arith, h))
]

-- A number in decimal has no byte below the digits.
pub to_decimal_without : (x n : ℕ) → x < b'0' → All (λ c. c ≢ x) (to_decimal n)
unfolding to_decimal
to_decimal_without x n l = emit-without x 20 n [] l tt

-- A number in decimal has no space.
pub to_decimal_plain : (n : ℕ) → All (λ c. c ≢ b' ') (to_decimal n)
to_decimal_plain n = to_decimal_without b' ' n (omega arith)
