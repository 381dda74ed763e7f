-- ===== src/Http/Headers.antt =====
-- The header lines and the body behind the start line, as both `SerializeToString` write them, and a
-- reader of that form.
use tinyco.Prelude.{
  ℕ, zero, suc, ◌<◌, ◌≡◌, refl, ◌≢◌, inl, inr, true, false, Option, none, some, List, [], ◌∷◌, ◌++◌,
  append_assoc, arith, ◌==◌, if◌then◌else◌, Bool-cases, length, All, Bytes, is_empty,
}

abbrev pub Headers : Type 0
Headers = List (Bytes × Bytes)

abbrev pub crlf : Bytes
crlf = 13 ∷ 10 ∷ []

-- `if (!it->second.empty()) ss << it->first << ": " << it->second << crlf`.
abbrev pub header_line : Bytes → Bytes → Bytes
header_line name value = if is_empty value then [] else name ++ (b':' ∷ b' ' ∷ (value ++ crlf))

unfoldable pub header_lines : Headers → Bytes
header_lines [] = []
header_lines ((name, value) ∷ hs) = header_line name value ++ header_lines hs

-- `ss << crlf; ss << content_`.
unfoldable pub tail_of : Headers → Bytes → Bytes
unfolding header_lines
tail_of hs content = header_lines hs ++ (crlf ++ content)

-- The text up to the first `stop`, and the text behind it.
unfoldable pub read_until : ℕ → Bytes → Option (Bytes × Bytes)
read_until stop [] = none
read_until stop (c ∷ s) =
    let rest = read_until stop s in
    if c == stop
    then some ([], s)
    else elim rest [ none ↦ none | some (line, s') ↦ some (c ∷ line, s') ]

-- A byte that must come next.
abbrev pub expect : ℕ → Bytes → Option Bytes
expect b [] = none
expect b (c ∷ s) = if c == b then some s else none

infixl 5 ◌>>=◌
abbrev pub ◌>>=◌ {ℓ κ} : {A : Type ℓ} {B : Type κ} → Option A → (A → Option B) → Option B
none >>= f = none
some a >>= f = f a

-- A header line: a name, a colon, a space, a value, and the line's end.
unfoldable pub read_header : Bytes → Option ((Bytes × Bytes) × Bytes)
read_header s = do
  (name, s₁) ← read_until b':' s
  s₂ ← expect b' ' s₁
  (value, s₃) ← read_until 13 s₂
  s₄ ← expect 10 s₃
  some ((name, value), s₄)

-- The header lines up to the empty line, `fuel` of them at most, and the body.
unfoldable pub read_tail : ℕ → Bytes → Option (Headers × Bytes)
unfolding read_header
read_tail zero s = none
read_tail (suc fuel) [] = none
read_tail (suc fuel) (c ∷ s) = elim (c == 13) [
  | true ↦ elim (expect 10 s) [ none ↦ none | some body ↦ some ([], body) ]
  | false ↦ elim (read_header (c ∷ s)) [
    | none ↦ none
    | some (h, s') ↦ elim (read_tail fuel s') [
      | none ↦ none
      | some (hs, body) ↦ some (h ∷ hs, body)
    ]
  ]
]

-- The headers with a value.
unfoldable pub visible : Headers → Headers
visible [] = []
visible ((n, v) ∷ hs) = let rest = visible hs in if is_empty v then rest else (n, v) ∷ rest

-- A name that is not empty and has neither a colon nor a carriage return, and a value without one.
abbrev pub IsName : Bytes → Type 0
IsName [] = ⊥
IsName (c ∷ n) = All (λ b. (b ≢ b':') × (b ≢ 13)) (c ∷ n)

abbrev pub IsHeader : Bytes × Bytes → Type 0
IsHeader (n, v) = IsName n × All (λ b. b ≢ 13) v

pub read_until-append :
    (stop : ℕ) (s t : Bytes) → All (λ b. b ≢ stop) s → read_until stop (s ++ stop ∷ t) ≡ some (s, t)
unfolding read_until
read_until-append stop [] t h = ground arith
read_until-append stop (c ∷ s) t h = ground (arith, read_until-append stop s t h.1)

All-first : (s : Bytes) → All (λ b. (b ≢ b':') × (b ≢ 13)) s → All (λ b. b ≢ b':') s
All-first [] h = tt
All-first (c ∷ s) h = (h.0.0, All-first s h.1)

read_header-line :
    (n v t : Bytes)
    → IsHeader (n, v)
    → read_header (n ++ (b':' ∷ b' ' ∷ (v ++ 13 ∷ 10 ∷ t))) ≡ some ((n, v), t)
unfolding read_header
read_header-line [] v t h = absurd h.0
read_header-line (c ∷ n) v t h = rw (
  read_until-append b':' (c ∷ n) (b' ' ∷ (v ++ 13 ∷ 10 ∷ t)) (All-first (c ∷ n) h.0),
  read_until-append 13 v (10 ∷ t) h.1,
)

line-append :
    (n v t : Bytes)
    → is_empty v ≡ false
    → header_line n v ++ t ≡ n ++ (b':' ∷ b' ' ∷ (v ++ 13 ∷ 10 ∷ t))
line-append n [] t h = cc
line-append n (x ∷ v) t h = simp append_assoc

-- One round of the reader over a header line.
read_tail-line :
    (f : ℕ) (n v t : Bytes) (hs : Headers) (body : Bytes)
    → IsHeader (n, v)
    → read_tail f t ≡ some (hs, body)
    → read_tail (suc f) (n ++ (b':' ∷ b' ' ∷ (v ++ 13 ∷ 10 ∷ t))) ≡ some ((n, v) ∷ hs, body)
unfolding read_tail
read_tail-line f [] v t hs body h e = absurd h.0
read_tail-line f (c ∷ n) v t hs body h e =
    let other : (c == 13) ≡ false = ground arith in
    rw (other, read_tail, read_header-line (c ∷ n) v t h, e)

visible-cons :
    (n v : Bytes) (hs : Headers) → is_empty v ≡ false → visible ((n, v) ∷ hs) ≡ (n, v) ∷ visible hs
unfolding visible
visible-cons n v hs e = rw e

-- A header without a value is not written.
skip :
    (f : ℕ) (n v : Bytes) (hs : Headers) (content : Bytes)
    → is_empty v ≡ true
    → read_tail f (tail_of hs content) ≡ some (visible hs, content)
    → read_tail f (tail_of ((n, v) ∷ hs) content) ≡ some (visible ((n, v) ∷ hs), content)
unfolding tail_of visible
skip f n v hs content e h = rw e h

-- Reading back what was written, with any body behind it.
pub read_tail-tail_of :
    (f : ℕ) (hs : Headers) (content : Bytes)
    → All IsHeader hs
    → length hs < f
    → read_tail f (tail_of hs content) ≡ some (visible hs, content)
unfolding tail_of
read_tail-tail_of zero hs content h b = absurd (omega arith)
read_tail-tail_of (suc f) [] content h b = unfold read_tail visible in refl
read_tail-tail_of (suc f) ((n, v) ∷ hs) content h b = elim (Bool-cases (is_empty v)) [
  | inl e ↦ skip (suc f) n v hs content e (read_tail-tail_of (suc f) hs content h.1 (omega arith))
  | inr e ↦
      rw (append_assoc, line-append n v (tail_of hs content) e, visible-cons n v hs e)
        (read_tail-line f n v (tail_of hs content) (visible hs) content h.0
          (read_tail-tail_of f hs content h.1 (omega arith)))
]
