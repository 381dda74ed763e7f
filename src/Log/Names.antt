-- ===== src/Log/Names.antt =====
-- The names of the log's files, `fp` in `WriteLog`: two numbers have two names.
use tinyco.Prelude.{
  ℕ, zero, suc, ◌+◌, ◌^◌, ◌<◌, ◌≡◌, refl, sym, ap, ◌∙◌, ◌≢◌, inl, inr, some, [], ◌∷◌, ◌++◌, arith,
  ◌==◌, ==_self, Bool-cases, length, take, drop, length-append, drop-append, take-append, Bytes,
  codes, eqb, eqb_sound, eqb_self,
}
use tinyco.Http.Decimal.{to_decimal, stoul-to_decimal, stoul}
use tinyco.Log.Local.{ending, log_name}

same_back : (xs ys zs : Bytes) → xs ++ zs ≡ ys ++ zs → xs ≡ ys
same_back xs ys zs e =
    let l : length xs + length zs ≡ length ys + length zs =
      sym (length-append xs zs) ∙ (ap length e ∙ length-append ys zs) in
    sym (take-append (length xs) xs zs refl)
    ∙ (ap (take (length xs)) e ∙ take-append (length xs) ys zs (omega arith))

same_front : (xs ys zs : Bytes) → zs ++ xs ≡ zs ++ ys → xs ≡ ys
same_front xs ys zs e =
    sym (drop-append (length zs) zs xs refl)
    ∙ (ap (drop (length zs)) e ∙ drop-append (length zs) zs ys refl)

same_number : (i j : ℕ) → i < 10 ^ 20 → j < 10 ^ 20 → to_decimal i ≡ to_decimal j → i ≡ j
same_number i j hi hj e =
    let r : some i ≡ some j = sym (stoul-to_decimal i hi) ∙ (ap stoul e ∙ stoul-to_decimal j hj) in
    ground arith

-- The numbers that the name of a file can be read back from.
abbrev pub IsNumber : ℕ → Type 0
IsNumber i = i < 10 ^ 20

head_of : Bytes → ℕ
head_of [] = 0
head_of (c ∷ s) = c

other_head : (s t : Bytes) (c d : ℕ) → c ≢ d → (c ∷ s) ≢ (d ∷ t)
other_head s t c d h e = h (ground arith)

ending_injective : (i j : ℕ) → IsNumber i → IsNumber j → ending i ≡ ending j → i ≡ j
ending_injective zero zero hi hj e = refl
ending_injective zero (suc j) hi hj e =
    absurd (other_head (codes "log") (to_decimal (suc j) ++ codes ".log") b'.' b'_' (omega arith) e)
ending_injective (suc i) zero hi hj e =
    absurd (other_head (to_decimal (suc i) ++ codes ".log") (codes "log") b'_' b'.' (omega arith) e)
ending_injective (suc i) (suc j) hi hj e =
    same_number (suc i) (suc j) hi hj
      (same_back (to_decimal (suc i)) (to_decimal (suc j)) (codes ".log") (ap (drop 1) e))

pub log_name_injective :
    (path : Bytes) (i j : ℕ) → IsNumber i → IsNumber j → log_name path i ≡ log_name path j → i ≡ j
unfolding log_name
log_name_injective path i j hi hj e =
    ending_injective i j hi hj (same_front (ending i) (ending j) path e)

-- Comparing names is comparing numbers.
pub eqb-log_name :
    (path : Bytes) (i j : ℕ)
    → IsNumber i
    → IsNumber j
    → eqb (log_name path i) (log_name path j) ≡ (i == j)
eqb-log_name path i j hi hj = elim (Bool-cases (i == j)) [
  | inl e ↦ let same : i ≡ j = ground arith in rw (same, eqb_self (log_name path j), ==_self j) refl
  | inr e ↦ elim (Bool-cases (eqb (log_name path i) (log_name path j))) [
    | inl q ↦
        let same : i ≡ j =
          log_name_injective path i j hi hj (eqb_sound (log_name path i) (log_name path j) q) in
        absurd (ground arith)
    | inr q ↦ rw (q, e) refl
  ]
]
