-- ===== src/Socket/Kernel.antt =====
-- What the kernel and libevent answer to the calls of frame.cc: a call takes its answers from a list,
-- one for each `::send`, `::recv`, `::accept` or `::connect` that it makes.
use tinyco.Prelude.{ℕ, Bool, Bytes}

-- `ev.ev_res` after the coroutine was woken.
pub record EvRes : Type 0 where
  pub ev_timeout : Bool
  pub ev_read : Bool
  pub ev_write : Bool
  pub ev_closed : Bool

-- `room n`: there is room for n + 1 bytes, of which the kernel takes as many as it is given.
-- `again`: EAGAIN, and what wakes the coroutine up then.
pub data SendReply : Type 0 where
  room : ℕ → SendReply
  closed intr failed : SendReply
  again : EvRes → SendReply

-- `chunk c cs`: the bytes that have come, at least one.
pub data RecvReply : Type 0 where
  chunk : ℕ → Bytes → RecvReply
  closed intr failed : RecvReply
  again : EvRes → RecvReply

pub data AcceptReply : Type 0 where
  connection : ℕ → AcceptReply
  intr again failed : AcceptReply

-- `in_progress`: EINPROGRESS or EADDRINUSE; how the wait ends, whether `getsockopt` works, and the
-- error that the socket holds.
pub data ConnectReply : Type 0 where
  connected intr failed : ConnectReply
  in_progress : EvRes → Bool → ℕ → ConnectReply
