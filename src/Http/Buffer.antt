-- ===== src/Http/Buffer.antt =====
-- The buffer of `HttpSrvWork::Run`, http/http_server.cc: what it holds, and when a write leaves it.
use tinyco.Prelude.{
  ℕ, zero, suc, ◌+◌, ◌≤◌, ◌<◌, ◌≡◌, refl, sym, ap, ◌∙◌, inl, inr, true, some, [], ◌∷◌, ◌++◌,
  append_assoc, arith, leb, ◌==◌, Bool-cases, length, take, drop, replicate, length-append,
  length-take, take-append, Bytes,
}
use tinyco.Http.Server.{Buffer, grow, write}

-- The bytes that count.
abbrev pub filled : Buffer → Bytes
filled b = take b.recvd b.req

-- The buffer holds `s`, with room or full.
abbrev pub Holds : Buffer → Bytes → Type 0
Holds b s = (b.recvd ≤ length b.req) × (filled b ≡ s)

take-within : (n : ℕ) (xs ys : Bytes) → n ≤ length xs → take n (xs ++ ys) ≡ take n xs
take-within zero xs ys h = refl
take-within (suc n) [] ys h = absurd (omega arith)
take-within (suc n) (x ∷ xs) ys h = ap (λ t. x ∷ t) (take-within n xs ys (omega arith))

take-two : (a b c : Bytes) → take (length a + length b) (a ++ (b ++ c)) ≡ a ++ b
take-two a b c =
    rw (sym (append_assoc a b c), sym (length-append a b))
      (take-append (length (a ++ b)) (a ++ b) c refl)

length-replicate : (n : ℕ) → length {A = ℕ} (replicate n 0) ≡ n
length-replicate zero = refl
length-replicate (suc n) = omega (arith, length-replicate n)

pub grow-Holds :
    (b : Buffer) (s : Bytes)
    → Holds b s
    → 0 < length b.req
    → Holds (grow b) s × ((grow b).recvd < length (grow b).req)
unfolding grow
grow-Holds b s h p = elim (Bool-cases (b.recvd == length b.req)) [
  | inl e ↦
      rw e ((b_fits, take-within b.recvd b.req (replicate (length b.req) 0) h.0 ∙ h.1), larger)
  | inr e ↦ rw e (h, ground arith)
]
  where
    larger : b.recvd < length (b.req ++ replicate (length b.req) 0)
    larger = omega (
      arith,
      length-append b.req (replicate (length b.req) 0),
      length-replicate (length b.req),
      h.0,
      p,
    )

    b_fits : b.recvd ≤ length (b.req ++ replicate (length b.req) 0)
    b_fits = omega (arith, larger)

pub write-Holds :
    (bs s : Bytes) (b : Buffer)
    → Holds b s
    → b.recvd + length bs ≤ length b.req
    → (b' : Buffer) × (write bs b ≡ some b') × Holds b' (s ++ bs) × (b'.recvd ≡ b.recvd + length bs)
unfolding write
write-Holds bs s b h l = (
  record {
    req = take b.recvd b.req ++ (bs ++ drop (b.recvd + length bs) b.req);
    recvd = b.recvd + length bs;
  },
  rw fits,
  (
    omega (arith, length-append front (bs ++ back), length-append bs back, measured),
    ap (λ n. take (n + length bs) (front ++ (bs ++ back))) (sym measured)
        ∙ take-two front bs back
        ∙ ap (λ t. t ++ bs) h.1,
  ),
  refl,
)
  where
    front : Bytes
    front = take b.recvd b.req

    back : Bytes
    back = drop (b.recvd + length bs) b.req

    measured : length (take b.recvd b.req) ≡ b.recvd
    measured = omega (arith, length-take b.recvd b.req, l)

    fits : leb (b.recvd + length bs) (length b.req) ≡ true
    fits = ground arith
