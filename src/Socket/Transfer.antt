-- ===== src/Socket/Transfer.antt =====
-- `Frame::send`, `Frame::recv`, `Frame::sendto` and `Frame::recvfrom`. A result `none` says that the
-- answers are used up and the coroutine still waits. A system call takes less than 2^31 bytes at once.
use tinyco.Prelude.{
  ℕ, suc, ◌+◌, ◌-◌, true, false, Option, none, some, List, [], ◌∷◌, ◌++◌, ltb, if◌then◌else◌,
  length, take, drop, ℤ, pos, neg, Bytes,
}
use Prim.Native.Nat.{min}
use tinyco.Http.Check.{as_int}
use tinyco.Socket.Kernel.{EvRes, SendReply, RecvReply}

-- What a send did: its result, the bytes that the kernel took, how often the coroutine waited, and
-- the answers not used.
pub record SendRun : Type 0 where
  pub ret : Option ℤ
  pub taken : Bytes
  pub waits : ℕ
  pub rest : List SendReply

-- The loop, with `nsend` bytes sent, a `size_t` that is returned as an `int`.
unfoldable pub send_loop : Bytes → ℕ → Bytes → ℕ → List SendReply → SendRun
send_loop buf nsend taken waits [] =
    if ltb nsend (length buf)
    then record { ret = none; taken = taken; waits = waits; rest = [] }
    else record { ret = some (as_int nsend); taken = taken; waits = waits; rest = [] }
send_loop buf nsend taken waits (r ∷ rs) = elim (ltb nsend (length buf)) [
  | false ↦ record { ret = some (as_int nsend); taken = taken; waits = waits; rest = r ∷ rs }
  | true ↦ elim r [
    | SendReply.room n ↦
        let k = min (suc n) (length buf - nsend) in
        send_loop buf (nsend + k) (taken ++ take k (drop nsend buf)) waits rs
    | SendReply.intr ↦ send_loop buf nsend taken waits rs
    | SendReply.closed ↦ record { ret = some (pos 0); taken = taken; waits = waits; rest = rs }
    | SendReply.failed ↦ record { ret = some (neg 1); taken = taken; waits = waits; rest = rs }
    | SendReply.again ev ↦ elim ev.ev_timeout [
      | true ↦ record { ret = some (neg 2); taken = taken; waits = waits + 1; rest = rs }
      | false ↦ elim ev.ev_write [
        | true ↦ send_loop buf nsend taken (waits + 1) rs
        | false ↦ record { ret = some (neg 1); taken = taken; waits = waits + 1; rest = rs }
      ]
    ]
  ]
]

unfoldable pub send : Bytes → List SendReply → SendRun
send buf rs = send_loop buf 0 [] 0 rs

pub record RecvRun : Type 0 where
  pub ret : Option ℤ
  pub got : Bytes
  pub waits : ℕ
  pub rest : List RecvReply

-- What the woken coroutine does: `some` with the result to return, or `none` to call again. Where no
-- event is set the loop ends and returns `ret`.
abbrev pub woken : ℤ → EvRes → Option ℤ
woken ret ev =
    if ev.ev_timeout
    then some (neg 2)
    else if ev.ev_closed
    then some (pos 0)
    else if ev.ev_read
    then none
    else some ret

-- `Frame::recv`. Behind the loop `ret` is what `::recv` returned, -1.
unfoldable pub recv_loop : ℕ → ℕ → List RecvReply → RecvRun
recv_loop len waits [] = record { ret = none; got = []; waits = waits; rest = [] }
recv_loop len waits (r ∷ rs) = elim r [
  | RecvReply.chunk c cs ↦
      let got = take len (c ∷ cs) in
      record { ret = some (pos (length got)); got = got; waits = waits; rest = rs }
  | RecvReply.closed ↦ record { ret = some (pos 0); got = []; waits = waits; rest = rs }
  | RecvReply.intr ↦ recv_loop len waits rs
  | RecvReply.failed ↦ record { ret = some (neg 1); got = []; waits = waits; rest = rs }
  | RecvReply.again ev ↦ elim (woken (neg 1) ev) [
    | some ret ↦ record { ret = some ret; got = []; waits = waits + 1; rest = rs }
    | none ↦ recv_loop len (waits + 1) rs
  ]
]

unfoldable pub recv : ℕ → List RecvReply → RecvRun
recv len rs = recv_loop len 0 rs

-- `Frame::recvfrom` declares a second `ret` inside its loop, and behind the loop it returns the first,
-- which is 0.
unfoldable pub recvfrom_loop : ℕ → ℕ → List RecvReply → RecvRun
recvfrom_loop len waits [] = record { ret = none; got = []; waits = waits; rest = [] }
recvfrom_loop len waits (r ∷ rs) = elim r [
  | RecvReply.chunk c cs ↦
      let got = take len (c ∷ cs) in
      record { ret = some (pos (length got)); got = got; waits = waits; rest = rs }
  | RecvReply.closed ↦ record { ret = some (pos 0); got = []; waits = waits; rest = rs }
  | RecvReply.intr ↦ recvfrom_loop len waits rs
  | RecvReply.failed ↦ record { ret = some (pos 0); got = []; waits = waits; rest = rs }
  | RecvReply.again ev ↦ elim (woken (pos 0) ev) [
    | some ret ↦ record { ret = some ret; got = []; waits = waits + 1; rest = rs }
    | none ↦ recvfrom_loop len (waits + 1) rs
  ]
]

unfoldable pub recvfrom : ℕ → List RecvReply → RecvRun
recvfrom len rs = recvfrom_loop len 0 rs
