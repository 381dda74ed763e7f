-- ===== src/Text/Split.antt =====
-- `Split` of util/string.cc: a `getline` loop over a string stream.
use tinyco.Prelude.{
  ℕ, ◌≡◌, refl, ap, ◌≢◌, ◌⊎◌, inl, inr, true, false, List, [], ◌∷◌, ◌++◌, append-nil, append_assoc,
  arith, ◌==◌, ==_iff, ==_self, Bool-cases, All, All-append, Bytes, codes,
}

-- `while (std::getline(ss, item, delim)) push(item)`: the unread input and the item read so far.
-- At the end of the input `getline` fails if it has read nothing.
pub getlines : ℕ → Bytes → Bytes → List Bytes
getlines delim [] [] = []
getlines delim [] (c ∷ item) = (c ∷ item) ∷ []
getlines delim (x ∷ s) item = elim (x == delim) [
  | true ↦ item ∷ getlines delim s []
  | false ↦ getlines delim s (item ++ x ∷ [])
]

-- `if (elems.empty()) elems.push_back(s)`.
abbrev or_whole : Bytes → List Bytes → List Bytes
or_whole s [] = s ∷ []
or_whole s (e ∷ es) = e ∷ es

unfoldable pub split : Bytes → ℕ → List Bytes
unfolding getlines
split s delim = or_whole s (getlines delim s [])

-- The items with a delimiter behind each.
abbrev pub terminated : ℕ → List Bytes → Bytes
terminated d [] = []
terminated d (p ∷ ps) = p ++ d ∷ terminated d ps

-- The items with a delimiter between each two.
abbrev pub join : ℕ → List Bytes → Bytes
join d [] = []
join d (p ∷ []) = p
join d (p ∷ q ∷ ps) = p ++ d ∷ join d (q ∷ ps)

abbrev pub Lacks : ℕ → Bytes → Type 0
Lacks d = All (λ c. c ≢ d)

-- What the items of a split say of the text: they spell it, or all but a last delimiter.
abbrev pub Spells : ℕ → List Bytes → Bytes → Type 0
Spells d ps s = (join d ps ≡ s) ⊎ (join d ps ++ d ∷ [] ≡ s)

Spells-cons :
    (d : ℕ) (p : Bytes) (ps : List Bytes) (s : Bytes)
    → ps ≢ []
    → Spells d ps s
    → Spells d (p ∷ ps) (p ++ d ∷ s)
Spells-cons d p [] s ne h = absurd (ne refl)
Spells-cons d p (q ∷ ps) s ne (inl e) = inl (ap (λ t. p ++ d ∷ t) e)
Spells-cons d p (q ∷ ps) s ne (inr e) = inr (simp append_assoc (ap (λ t. p ++ d ∷ t) e))

-- The two rounds of the loop: at the delimiter, and at any other byte.
getlines_at :
    (d x : ℕ) (s item : Bytes) → (x == d) ≡ true → getlines d (x ∷ s) item ≡ item ∷ getlines d s []
unfolding getlines
getlines_at d x s item e = ground arith

getlines_past :
    (d x : ℕ) (s item : Bytes)
    → (x == d) ≡ false
    → getlines d (x ∷ s) item ≡ getlines d s (item ++ x ∷ [])
unfolding getlines
getlines_past d x s item e = ground arith

getlines-item : (d : ℕ) (s : Bytes) (c : ℕ) (item : Bytes) → getlines d s (c ∷ item) ≢ []
unfolding getlines
getlines-item d [] c item = λ e. cc
getlines-item d (x ∷ s) c item = elim (Bool-cases (x == d)) [
  | inl e ↦ rw (getlines_at d x s (c ∷ item) e) (λ h. cc)
  | inr e ↦ rw (getlines_past d x s (c ∷ item) e) (getlines-item d s c (item ++ x ∷ []))
]

getlines-input : (d x : ℕ) (s item : Bytes) → getlines d (x ∷ s) item ≢ []
unfolding getlines
getlines-input d x s [] = elim (Bool-cases (x == d)) [
  | inl e ↦ rw (getlines_at d x s [] e) (λ h. cc)
  | inr e ↦ rw (getlines_past d x s [] e) (getlines-item d s x [])
]
getlines-input d x s (c ∷ item) = getlines-item d (x ∷ s) c item

-- The items read, and the text that they come from.
getlines-Spells : (d : ℕ) (s item : Bytes) → Spells d (getlines d s item) (item ++ s)
unfolding getlines
getlines-Spells d [] [] = inl refl
getlines-Spells d [] (c ∷ item) = inl (rw append-nil)
getlines-Spells d (x ∷ []) item = elim (Bool-cases (x == d)) [
  | inl e ↦ rw (getlines_at d x [] item e, (==_iff x d).0 e) (inr refl)
  | inr e ↦ rw (getlines_past d x [] item e) (last item)
]
  where
    last : (i : Bytes) → Spells d (getlines d [] (i ++ x ∷ [])) (i ++ x ∷ [])
    last [] = inl refl
    last (c ∷ i) = inl refl
getlines-Spells d (x ∷ y ∷ s) item = elim (Bool-cases (x == d)) [
  | inl e ↦
      rw (getlines_at d x (y ∷ s) item e, (==_iff x d).0 e)
        (Spells-cons d item (getlines d (y ∷ s) []) (y ∷ s) (getlines-input d y s [])
          (getlines-Spells d (y ∷ s) []))
  | inr e ↦
      rw (getlines_past d x (y ∷ s) item e)
        (rw append_assoc at (getlines-Spells d (y ∷ s) (item ++ x ∷ [])))
]

or_whole-Spells : (d : ℕ) (s : Bytes) (es : List Bytes) → Spells d es s → Spells d (or_whole s es) s
or_whole-Spells d s [] h = inl refl
or_whole-Spells d s (e ∷ es) h = h

-- For every text and delimiter, the items of `split` joined by the delimiter are the text, or the
-- text without a last delimiter.
pub split-Spells : (s : Bytes) (d : ℕ) → Spells d (split s d) s
unfolding split
split-Spells s d = or_whole-Spells d s (getlines d s []) (getlines-Spells d s [])

getlines-Lacks : (d : ℕ) (s item : Bytes) → Lacks d item → All (Lacks d) (getlines d s item)
unfolding getlines
getlines-Lacks d [] [] h = tt
getlines-Lacks d [] (c ∷ item) h = (h, tt)
getlines-Lacks d (x ∷ s) item h = elim (Bool-cases (x == d)) [
  | inl e ↦ rw (getlines_at d x s item e) (h, getlines-Lacks d s [] tt)
  | inr e ↦
      rw (getlines_past d x s item e)
        (getlines-Lacks d s (item ++ x ∷ []) (All-append _ item (x ∷ []) h (ground arith, tt)))
]

or_whole-Lacks :
    (d : ℕ) (s : Bytes) (es : List Bytes)
    → (es ≡ [] → s ≡ [])
    → All (Lacks d) es
    → All (Lacks d) (or_whole s es)
or_whole-Lacks d s [] n h = rw (n refl) (tt, tt)
or_whole-Lacks d s (e ∷ es) n h = h

-- No item of `split` holds the delimiter.
pub split-Lacks : (s : Bytes) (d : ℕ) → All (Lacks d) (split s d)
unfolding split
split-Lacks [] d = unfold getlines in (tt, tt)
split-Lacks (x ∷ s) d =
    or_whole-Lacks d (x ∷ s) (getlines d (x ∷ s) []) (λ e. absurd (getlines-input d x s [] e))
      (getlines-Lacks d (x ∷ s) [] tt)

getlines-append :
    (d : ℕ) (p rest item : Bytes)
    → Lacks d p
    → getlines d (p ++ rest) item ≡ getlines d rest (item ++ p)
unfolding getlines
getlines-append d [] rest item h = rw append-nil
getlines-append d (x ∷ p) rest item h = elim (Bool-cases (x == d)) [
  | inl e ↦ absurd (h.0 ((==_iff x d).0 e))
  | inr e ↦
      rw (getlines_past d x (p ++ rest) item e)
        (rw append_assoc at (getlines-append d p rest (item ++ x ∷ []) h.1))
]

getlines_at_delim : (d : ℕ) (s item : Bytes) → getlines d (d ∷ s) item ≡ item ∷ getlines d s []
unfolding getlines
getlines_at_delim d s item = getlines_at d d s item (==_self d)

getlines-terminated :
    (d : ℕ) (ps : List Bytes) → All (Lacks d) ps → getlines d (terminated d ps) [] ≡ ps
getlines-terminated d [] h = unfold getlines in refl
getlines-terminated d (p ∷ ps) h =
    rw (getlines-append d p (d ∷ terminated d ps) [] h.0, getlines_at_delim d (terminated d ps) p)
      (ap (λ t. p ∷ t) (getlines-terminated d ps h.1))

-- `split` gives back any items, at least one, that do not hold the delimiter, from the text that has
-- the delimiter behind each of them.
pub split-terminated :
    (p : Bytes) (ps : List Bytes) (d : ℕ)
    → All (Lacks d) (p ∷ ps)
    → split (terminated d (p ∷ ps)) d ≡ p ∷ ps
unfolding split
split-terminated p ps d h = rw (getlines-terminated d (p ∷ ps) h)

restful : split (codes "/a > add,/b > del,") b',' ≡ codes "/a > add" ∷ codes "/b > del" ∷ []
unfolding split
restful = refl

nothing : split [] b',' ≡ [] ∷ []
unfolding split
nothing = refl
