-- ===== src/Socket/Exchange.antt =====
-- `Frame::UdpSendAndRecv` and `Frame::TcpSendAndRecv`. Neither closes its socket.
use tinyco.Prelude.{
  ℕ, zero, suc, ◌+◌, ◌<◌, ◌≡◌, refl, true, false, Option, none, some, List, [], ◌∷◌, arith, ◌==◌,
  if◌then◌else◌, ℤ, pos, negsuc, neg, is_neg, is_pos, Bytes,
}
use tinyco.Socket.Kernel.{RecvReply}
use tinyco.Socket.Transfer.{recvfrom}

-- `recvbuf_[65536]`.
abbrev pub udp_buffer_size : ℕ
udp_buffer_size = 65536

-- `nonblock` and `sent` are the results of `SetNonBlock` and `sendto`; the reply, if one was stored.
unfoldable pub udp_send_and_recv : ℤ → ℤ → List RecvReply → Option ℤ × Option Bytes
udp_send_and_recv nonblock sent rs =
    if is_neg nonblock
    then (some (neg 1), none)
    else if is_neg sent
    then (some (neg 1), none)
    else (let r = recvfrom udp_buffer_size rs in
        elim r.ret [
          | none ↦ (none, none)
          | some ret ↦
              if is_neg ret
              then (some (neg 2), none)
              else if is_pos ret
              then (some (pos 0), some r.got)
              else (some (pos 0), none)
        ])

-- The results of the calls of `Frame::send` and `Frame::recv`; `again` leaves EAGAIN in errno.
pub data CallResult : Type 0 where
  done : ℕ → CallResult
  closed again failed : CallResult

-- `while (nsend == sendlen)`: the result if the function returns, or `none` with the answers not
-- used and how often `send` was called.
unfoldable pub tcp_send_loop : ℕ → ℕ → ℕ → List CallResult → Option ℤ × ℕ × List CallResult
tcp_send_loop sendlen nsend calls [] = (none, calls, [])
tcp_send_loop sendlen nsend calls (r ∷ rs) = elim (nsend == sendlen) [
  | false ↦ (none, calls, r ∷ rs)
  | true ↦ elim r [
    | CallResult.done n ↦ tcp_send_loop sendlen (nsend + suc n) (calls + 1) rs
    | CallResult.again ↦ tcp_send_loop sendlen nsend (calls + 1) rs
    | CallResult.closed ↦ (some (neg 1), calls + 1, rs)
    | CallResult.failed ↦ (some (neg 1), calls + 1, rs)
  ]
]

-- The receive loop; `check` is what `CheckPkg` makes of the first `recvd` bytes. The result, and the
-- length stored.
unfoldable pub tcp_recv_loop : (ℕ → ℤ) → ℕ → List CallResult → Option ℤ × Option ℕ
tcp_recv_loop check recvd [] = (none, none)
tcp_recv_loop check recvd (r ∷ rs) = elim r [
  | CallResult.done n ↦ elim (check (recvd + suc n)) [
    | pos k ↦ elim k [
      | zero ↦ (some (pos 0), some (recvd + suc n))
      | suc m ↦ tcp_recv_loop check (recvd + suc n) rs
    ]
    | negsuc k ↦ tcp_recv_loop check (recvd + suc n) rs
  ]
  | CallResult.again ↦ tcp_recv_loop check recvd rs
  | CallResult.closed ↦ (some (neg 2), none)
  | CallResult.failed ↦ (some (neg 2), none)
]

-- The result and the length stored, and how often `send` was called.
unfoldable pub tcp_send_and_recv :
    (ℕ → ℤ) → ℤ → ℕ → List CallResult → List CallResult → Option ℤ × Option ℕ × ℕ
unfolding tcp_send_loop
tcp_send_and_recv check nonblock sendlen sends recvs =
    if is_neg nonblock
    then (some (neg 1), none, 0)
    else (let (ret, calls, rest) = tcp_send_loop sendlen 0 0 sends in
        elim ret [
          | some e ↦ (some e, none, calls)
          | none ↦ let (r, len) = tcp_recv_loop check 0 recvs in (r, len, calls)
        ])

-- The send loop's test is the wrong way round: of a request with any bytes nothing is ever sent, and
-- the function goes on to receive.
pub tcp_sends_nothing :
    (check : ℕ → ℤ) (sendlen : ℕ) (sends recvs : List CallResult)
    → 0 < sendlen
    → tcp_send_and_recv check (pos 0) sendlen sends recvs
      ≡ ((tcp_recv_loop check 0 recvs).0, (tcp_recv_loop check 0 recvs).1, 0)
unfolding tcp_send_and_recv
tcp_sends_nothing check sendlen [] recvs h = refl
tcp_sends_nothing check sendlen (r ∷ rs) recvs h = ground arith
