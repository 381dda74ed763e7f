-- ===== src/Socket/Send.antt =====
-- What `Frame::send` guarantees of the bytes that the kernel took.
use tinyco.Prelude.{
  ℕ, zero, suc, ◌+◌, ◌-◌, ◌^◌, ◌≤◌, ◌<◌, ◌≡◌, refl, ap, ◌∙◌, inl, inr, true, false, Option, none,
  some, List, [], ◌∷◌, ◌++◌, arith, ltb, ltb→lt, Bool-cases, length, take, drop, length-append,
  length-take, length-drop, take_all, All, ℤ, pos, neg, Bytes,
}
use Prim.Native.Nat.{min}
use Prim.Native.Nat.add
use tinyco.Http.Check.{as_int, as_int_small}
use tinyco.Socket.Kernel.{SendReply}
use tinyco.Socket.Transfer.{SendRun, send_loop, send}

-- The bytes taken are the first `n` of the buffer.
abbrev pub IsPrefixOf : Bytes → ℕ → Bytes → Type 0
IsPrefixOf taken n buf = (taken ≡ take n buf) × (length taken ≡ n)

take-more : (n k : ℕ) (buf : Bytes) → take n buf ++ take k (drop n buf) ≡ take (n + k) buf
take-more zero k buf = rw add.zero
take-more (suc n) zero [] = rw add.suc
take-more (suc n) (suc k) [] = rw add.suc
take-more (suc n) k (x ∷ buf) = rw add.suc (ap (λ t. x ∷ t) (take-more n k buf))

IsPrefixOf-more :
    (taken buf : Bytes) (n k : ℕ)
    → IsPrefixOf taken n buf
    → k ≤ length buf - n
    → IsPrefixOf (taken ++ take k (drop n buf)) (n + k) buf
IsPrefixOf-more taken buf n k h b = (
  rw h.0 (take-more n k buf),
  omega (
    arith,
    length-append taken (take k (drop n buf)),
    length-take k (drop n buf),
    length-drop n buf,
    h.1,
  ),
)

-- What the loop says of its result, from any prefix on.
record Sound (buf : Bytes) (r : SendRun) : Type 0 where
  sofar : ℕ
  prefix : IsPrefixOf r.taken sofar buf
  fits : sofar ≤ length buf
  whole :
      (n : ℕ)
      → length buf < 2 ^ 31
      → r.ret ≡ some (pos (suc n))
      → (sofar ≡ length buf) × (suc n ≡ sofar)

stopped :
    (buf taken : Bytes) (n w : ℕ) (rs : List SendReply) (ret : Option ℤ)
    → IsPrefixOf taken n buf
    → n ≤ length buf
    → ((m : ℕ) → length buf < 2 ^ 31 → ret ≡ some (pos (suc m)) → (n ≡ length buf) × (suc m ≡ n))
    → Sound buf (record { ret = ret; taken = taken; waits = w; rest = rs })
stopped buf taken n w rs ret p b h = record { sofar = n; prefix = p; fits = b; whole = h }

complete :
    (buf taken : Bytes) (n w : ℕ) (rs : List SendReply)
    → IsPrefixOf taken n buf
    → n ≤ length buf
    → ltb n (length buf) ≡ false
    → Sound buf (record { ret = some (as_int n); taken = taken; waits = w; rest = rs })
complete buf taken n w rs p b h =
    stopped buf taken n w rs (some (as_int n)) p b
      (λ m small e. let r = as_int_small n (omega arith) in ground arith)

send_loop-Sound :
    (buf : Bytes) (n : ℕ) (taken : Bytes) (w : ℕ) (rs : List SendReply)
    → IsPrefixOf taken n buf
    → n ≤ length buf
    → Sound buf (send_loop buf n taken w rs)
unfolding send_loop
send_loop-Sound buf n taken w [] p b = elim (Bool-cases (ltb n (length buf))) [
  | inl e ↦ rw e (stopped buf taken n w [] none p b (λ m small k. cc))
  | inr e ↦ rw e (complete buf taken n w [] p b e)
]
send_loop-Sound buf n taken w (SendReply.room k ∷ rs) p b = elim (Bool-cases (ltb n (length buf))) [
  | inl e ↦
      rw (e, send_loop)
        (let c = min (suc k) (length buf - n) in
          send_loop-Sound buf (n + c) (taken ++ take c (drop n buf)) w rs
            (IsPrefixOf-more taken buf n c p (omega arith))
            (omega (arith, ltb→lt n (length buf) e)))
  | inr e ↦ rw (e, send_loop) (complete buf taken n w (SendReply.room k ∷ rs) p b e)
]
send_loop-Sound buf n taken w (SendReply.intr ∷ rs) p b = elim (Bool-cases (ltb n (length buf))) [
  | inl e ↦ rw (e, send_loop) (send_loop-Sound buf n taken w rs p b)
  | inr e ↦ rw (e, send_loop) (complete buf taken n w (SendReply.intr ∷ rs) p b e)
]
send_loop-Sound buf n taken w (SendReply.closed ∷ rs) p b = elim (Bool-cases (ltb n (length buf))) [
  | inl e ↦
      rw (e, send_loop) (stopped buf taken n (w) rs (some (pos 0)) p b (λ m small k. ground arith))
  | inr e ↦ rw (e, send_loop) (complete buf taken n w (SendReply.closed ∷ rs) p b e)
]
send_loop-Sound buf n taken w (SendReply.failed ∷ rs) p b = elim (Bool-cases (ltb n (length buf))) [
  | inl e ↦
      rw (e, send_loop) (stopped buf taken n (w) rs (some (neg 1)) p b (λ m small k. ground arith))
  | inr e ↦ rw (e, send_loop) (complete buf taken n w (SendReply.failed ∷ rs) p b e)
]
send_loop-Sound buf n taken w (SendReply.again ev ∷ rs) p b =
    elim (Bool-cases (ltb n (length buf))) [
      | inl e ↦
          rw (e, send_loop)
            (elim (Bool-cases ev.ev_timeout) [
              | inl o ↦
                  rw o
                    (stopped buf taken n (w + 1) rs (some (neg 2)) p b (λ m small k. ground arith))
              | inr o ↦ rw o (elim (Bool-cases ev.ev_write) [
                | inl q ↦ rw q (send_loop-Sound buf n taken (w + 1) rs p b)
                | inr q ↦
                    rw q (
                      stopped buf taken n (w + 1) rs (some (neg 1)) p b (λ m small k. ground arith))
              ])
            ])
      | inr e ↦ rw (e, send_loop) (complete buf taken n w (SendReply.again ev ∷ rs) p b e)
    ]

send-Sound : (buf : Bytes) (rs : List SendReply) → Sound buf (send buf rs)
unfolding send
send-Sound buf rs = send_loop-Sound buf 0 [] 0 rs (refl, refl) (omega arith)

-- Whatever the answers and however they cut the data, the kernel was given a first part of the
-- buffer: no byte twice, none out of order and none left out.
pub send-prefix :
    (buf : Bytes) (rs : List SendReply)
    → (n : ℕ) × ((send buf rs).taken ≡ take n buf) × (n ≤ length buf)
send-prefix buf rs = let s = send-Sound buf rs in (s.sofar, s.prefix.0, s.fits)

-- If `send` of less than 2 GB returns a positive number, it is the length of the buffer, and the kernel took all of it.
pub send-whole :
    (buf : Bytes) (rs : List SendReply) (n : ℕ)
    → length buf < 2 ^ 31
    → (send buf rs).ret ≡ some (pos (suc n))
    → ((send buf rs).taken ≡ buf) × (suc n ≡ length buf)
send-whole buf rs n small h =
    let s = send-Sound buf rs in
    let (e, f) = s.whole n small h in (s.prefix.0 ∙ take_all s.sofar buf (omega arith), omega arith)

-- Answers on which a send goes on: room, a signal, or a wait that ends with the socket writable.
abbrev pub GoesOn : SendReply → Type 0
GoesOn (SendReply.room n) = Unit {0}
GoesOn SendReply.intr = Unit {0}
GoesOn SendReply.closed = ⊥
GoesOn SendReply.failed = ⊥
GoesOn (SendReply.again ev) = (ev.ev_timeout ≡ false) × (ev.ev_write ≡ true)

-- How often there is room.
abbrev pub rooms : List SendReply → ℕ
rooms [] = 0
rooms (SendReply.room n ∷ rs) = suc (rooms rs)
rooms (SendReply.closed ∷ rs) = rooms rs
rooms (SendReply.intr ∷ rs) = rooms rs
rooms (SendReply.failed ∷ rs) = rooms rs
rooms (SendReply.again ev ∷ rs) = rooms rs

send_loop-finishes :
    (buf : Bytes) (n : ℕ) (taken : Bytes) (w : ℕ) (rs : List SendReply)
    → length buf < 2 ^ 31
    → All GoesOn rs
    → length buf ≤ n + rooms rs
    → n ≤ length buf
    → (send_loop buf n taken w rs).ret ≡ some (pos (length buf))
unfolding send_loop
send_loop-finishes buf n taken w [] small g h b =
    let r = as_int_small n (omega arith) in ground arith
send_loop-finishes buf n taken w (SendReply.room k ∷ rs) small g h b =
    let c = min (suc k) (length buf - n) in
    ground (
      arith,
      as_int_small n (omega arith),
      send_loop-finishes buf (n + c) (taken ++ take c (drop n buf)) w rs small g.1,
    )
send_loop-finishes buf n taken w (SendReply.intr ∷ rs) small g h b =
    ground (arith, as_int_small n (omega arith), send_loop-finishes buf n taken w rs small g.1)
send_loop-finishes buf n taken w (SendReply.closed ∷ rs) small g h b = absurd g.0
send_loop-finishes buf n taken w (SendReply.failed ∷ rs) small g h b = absurd g.0
send_loop-finishes buf n taken w (SendReply.again ev ∷ rs) small g h b =
    ground
      (arith, as_int_small n (omega arith), send_loop-finishes buf n taken (w + 1) rs small g.1)

-- `send` of less than 2 GB returns, with the whole length, once there was room as often as the buffer has bytes, while
-- no call fails, no peer closes and no wait runs out.
pub send-finishes :
    (buf : Bytes) (rs : List SendReply)
    → All GoesOn rs
    → length buf ≤ rooms rs
    → length buf < 2 ^ 31
    → (send buf rs).ret ≡ some (pos (length buf))
unfolding send
send-finishes buf rs g h small =
    send_loop-finishes buf 0 [] 0 rs small g (omega arith) (omega arith)
