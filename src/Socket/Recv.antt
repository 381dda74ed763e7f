-- ===== src/Socket/Recv.antt =====
-- What `Frame::recv` and `Frame::recvfrom` guarantee.
use tinyco.Prelude.{
  ℕ, zero, suc, ◌+◌, ◌≤◌, ◌≡◌, refl, ◌⊎◌, inl, inr, Option, none, some, List, [], ◌∷◌, arith,
  length, length-take, ℤ, pos, negsuc, neg,
}
use tinyco.Socket.Kernel.{EvRes, RecvReply}
use tinyco.Socket.Transfer.{RecvRun, woken, recv_loop, recv, recvfrom_loop, recvfrom}

-- The result of `recvfrom` where `recv` has this one: an error becomes 0.
abbrev pub forget_error : Option ℤ → Option ℤ
forget_error none = none
forget_error (some (pos n)) = some (pos n)
forget_error (some (negsuc zero)) = some (pos 0)
forget_error (some (negsuc (suc n))) = some (negsuc (suc n))

abbrev pub masked : RecvRun → RecvRun
masked r = record r { ret = forget_error r.ret }

woken-forget : (ev : EvRes) → forget_error (woken (neg 1) ev) ≡ woken (pos 0) ev
woken-forget ev = ground arith

recvfrom_loop-recv_loop :
    (len w : ℕ) (rs : List RecvReply) → recvfrom_loop len w rs ≡ masked (recv_loop len w rs)
unfolding recvfrom_loop recv_loop
recvfrom_loop-recv_loop len w [] = refl
recvfrom_loop-recv_loop len w (RecvReply.chunk c cs ∷ rs) = refl
recvfrom_loop-recv_loop len w (RecvReply.closed ∷ rs) = refl
recvfrom_loop-recv_loop len w (RecvReply.intr ∷ rs) = recvfrom_loop-recv_loop len w rs
recvfrom_loop-recv_loop len w (RecvReply.failed ∷ rs) = refl
recvfrom_loop-recv_loop len w (RecvReply.again ev ∷ rs) =
    ground (arith, recvfrom_loop-recv_loop len (w + 1) rs)

-- On the same answers `recvfrom` does what `recv` does, but where `recv` reports an error as -1,
-- `recvfrom` returns 0 as if the peer had closed.
pub recvfrom-recv : (len : ℕ) (rs : List RecvReply) → recvfrom len rs ≡ masked (recv len rs)
unfolding recvfrom recv
recvfrom-recv len rs = recvfrom_loop-recv_loop len 0 rs

-- The three ways in which `recv` comes out: it still waits; it returns the number of bytes that it
-- stored, which is no more than was asked for (0 says that the peer has closed); or it returns -1 or
-- -2 and stored nothing.
abbrev pub Outcome : ℕ → RecvRun → Type 0
Outcome len r =
    ((r.ret ≡ none) × (r.got ≡ []))
    ⊎ ((r.ret ≡ some (pos (length r.got))) × (length r.got ≤ len))
    ⊎ (((r.ret ≡ some (neg 1)) ⊎ (r.ret ≡ some (neg 2))) × (r.got ≡ []))

recv_loop-Outcome : (len w : ℕ) (rs : List RecvReply) → Outcome len (recv_loop len w rs)
unfolding recv_loop
recv_loop-Outcome len w [] = inl (refl, refl)
recv_loop-Outcome len w (RecvReply.chunk c cs ∷ rs) =
    inr (inl (refl, omega (arith, length-take len (c ∷ cs))))
recv_loop-Outcome len w (RecvReply.closed ∷ rs) = inr (inl (refl, omega arith))
recv_loop-Outcome len w (RecvReply.intr ∷ rs) = recv_loop-Outcome len w rs
recv_loop-Outcome len w (RecvReply.failed ∷ rs) = inr (inr (inl refl, refl))
recv_loop-Outcome len w (RecvReply.again ev ∷ rs) = ground (arith, recv_loop-Outcome len (w + 1) rs)

-- For all answers, `recv` comes out in one of these ways.
pub recv-Outcome : (len : ℕ) (rs : List RecvReply) → Outcome len (recv len rs)
unfolding recv
recv-Outcome len rs = recv_loop-Outcome len 0 rs
