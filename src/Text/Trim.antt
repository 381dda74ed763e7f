-- ===== src/Text/Trim.antt =====
-- `ltrim`, `rtrim` and `trim` of util/string.h. `isspace` is that of the C locale.
use tinyco.Prelude.{
  ℕ, ◌≡◌, refl, sym, ap, ◌∙◌, inl, inr, Bool, true, false, ◌&&◌, ◌||◌, [], ◌∷◌, ◌++◌, append_assoc,
  leb, ◌==◌, if◌then◌else◌, Bool-cases, All, All-append, Bytes, codes, reverse,
}
use mathlib.Core.List.{reverse-cons, reverse-append, reverse-reverse}

-- `std::isspace`: tab, line feed, vertical tab, form feed, carriage return and space.
unfoldable pub isspace : ℕ → Bool
isspace c = (leb 9 c && leb c 13) || c == 32

-- `s.erase(s.begin(), find_if(…, !isspace))`.
unfoldable pub ltrim : Bytes → Bytes
ltrim [] = []
ltrim (c ∷ s) = let rest = ltrim s in if isspace c then rest else c ∷ s

-- The same from the other end.
unfoldable pub rtrim : Bytes → Bytes
rtrim s = reverse (ltrim (reverse s))

unfoldable pub trim : Bytes → Bytes
unfolding rtrim
trim s = rtrim (ltrim s)

abbrev pub Spaces : Bytes → Type 0
Spaces = All (λ c. isspace c ≡ true)

-- The text does not begin with white space.
abbrev pub StartsDark : Bytes → Type 0
StartsDark [] = Unit {0}
StartsDark (c ∷ s) = isspace c ≡ false

ltrim-parts : (s : Bytes) → (a : Bytes) × (a ++ ltrim s ≡ s) × Spaces a
unfolding ltrim
ltrim-parts [] = ([], refl, tt)
ltrim-parts (c ∷ s) = elim (Bool-cases (isspace c)) [
  | inl e ↦ let (a, p, q) = ltrim-parts s in (c ∷ a, rw e (ap (λ t. c ∷ t) p), (e, q))
  | inr e ↦ ([], rw e, tt)
]

ltrim-StartsDark : (s : Bytes) → StartsDark (ltrim s)
unfolding ltrim
ltrim-StartsDark [] = tt
ltrim-StartsDark (c ∷ s) = elim (Bool-cases (isspace c)) [
  | inl e ↦ rw e (ltrim-StartsDark s)
  | inr e ↦ rw e e
]

ltrim_of_StartsDark : (s : Bytes) → StartsDark s → ltrim s ≡ s
unfolding ltrim
ltrim_of_StartsDark [] h = refl
ltrim_of_StartsDark (c ∷ s) h = rw h

All-reverse : (s : Bytes) → Spaces s → Spaces (reverse s)
All-reverse [] h = tt
All-reverse (c ∷ s) h =
    rw reverse-cons (All-append _ (reverse s) (c ∷ []) (All-reverse s h.1) (h.0, tt))

rtrim-parts : (s : Bytes) → (b : Bytes) × (rtrim s ++ b ≡ s) × Spaces b
unfolding rtrim
rtrim-parts s =
    let (a, p, q) = ltrim-parts (reverse s) in
    (
      reverse a,
      sym (reverse-append a (ltrim (reverse s))) ∙ ap reverse p ∙ reverse-reverse s,
      All-reverse a q,
    )

StartsDark-prefix : (s t : Bytes) → StartsDark (s ++ t) → StartsDark s
StartsDark-prefix [] t h = tt
StartsDark-prefix (c ∷ s) t h = h

-- `trim` takes white space off both ends and nothing else, and what is left neither begins nor
-- ends with white space.
pub trim-parts :
    (s : Bytes)
    → (a b : Bytes) × (a ++ trim s ++ b ≡ s)
      × Spaces a
      × Spaces b
      × StartsDark (trim s)
      × StartsDark (reverse (trim s))
unfolding trim
trim-parts s =
    let (a, p, q) = ltrim-parts s in
    let (b, p', q') = rtrim-parts (ltrim s) in
    let dark : StartsDark (rtrim (ltrim s)) =
      StartsDark-prefix (rtrim (ltrim s)) b (rw p' (ltrim-StartsDark s)) in
    let dark' : StartsDark (reverse (rtrim (ltrim s))) =
      unfold rtrim in rw reverse-reverse (ltrim-StartsDark (reverse (ltrim s))) in
    (a, b, rw (append_assoc, p') p, q, q', dark, dark')

-- A text that neither begins nor ends with white space is left as it is.
trim_of_dark : (s : Bytes) → StartsDark s → StartsDark (reverse s) → trim s ≡ s
unfolding trim rtrim
trim_of_dark s h k =
    rw (ltrim_of_StartsDark s h, ltrim_of_StartsDark (reverse s) k) (reverse-reverse s)

-- Trimming twice is trimming once.
pub trim_idem : (s : Bytes) → trim (trim s) ≡ trim s
trim_idem s = let t = trim-parts s in trim_of_dark (trim s) t.5 t.6

trim_path : trim (codes " /a ") ≡ codes "/a"
unfolding trim ltrim isspace
trim_path = refl
