-- ===== src/Socket/Connect.antt =====
-- `Frame::accept` and `Frame::connect`.
use tinyco.Prelude.{
  ℕ, ◌+◌, ◌≡◌, Bool, true, false, not, ◌&&◌, ◌||◌, Option, none, some, List, [], ◌∷◌, arith, ltb,
  ◌==◌, if◌then◌else◌, ℤ, pos, neg,
}
use tinyco.Socket.Kernel.{EvRes, AcceptReply, ConnectReply}

-- The descriptor or -1, how often the coroutine waited, and the answers not used.
pub record AcceptRun : Type 0 where
  pub ret : Option ℤ
  pub waits : ℕ
  pub rest : List AcceptReply

unfoldable pub accept_loop : ℕ → List AcceptReply → AcceptRun
accept_loop waits [] = record { ret = none; waits = waits; rest = [] }
accept_loop waits (AcceptReply.connection fd ∷ rs) = record {
  ret = some (pos fd);
  waits = waits;
  rest = rs;
}
accept_loop waits (AcceptReply.intr ∷ rs) = accept_loop waits rs
accept_loop waits (AcceptReply.again ∷ rs) = accept_loop (waits + 1) rs
accept_loop waits (AcceptReply.failed ∷ rs) = record {
  ret = some (neg 1);
  waits = waits;
  rest = rs;
}

unfoldable pub accept : List AcceptReply → AcceptRun
accept rs = accept_loop 0 rs

-- `ev.ev_res != EV_WRITE`, once the timeout is ruled out.
abbrev pub only_write : EvRes → Bool
only_write ev = ev.ev_write && not (ev.ev_read || ev.ev_closed)

-- `getsockopt` writes at most as many bytes of the error as `optlen` says, into an `int` that is 0.
unfoldable pub socket_error : ℕ → ℕ → ℕ
socket_error optlen held = if ltb optlen 4 then 0 else held

-- `connect` passes `optlen` 0.
abbrev pub connect_optlen : ℕ
connect_optlen = 0

-- What `connect` returns after a wait.
unfoldable pub connect_woken : EvRes → Bool → ℕ → ℤ
unfolding socket_error
connect_woken ev works held =
    if ev.ev_timeout
    then neg 1
    else if not (only_write ev)
    then neg 1
    else if not works
    then neg 1
    else if socket_error connect_optlen held == 0
    then pos 0
    else neg 1

unfoldable pub connect : List ConnectReply → Option ℤ × List ConnectReply
unfolding connect_woken
connect [] = (none, [])
connect (ConnectReply.connected ∷ rs) = (some (pos 0), rs)
connect (ConnectReply.intr ∷ rs) = connect rs
connect (ConnectReply.failed ∷ rs) = (some (neg 1), rs)
connect (ConnectReply.in_progress ev works held ∷ rs) = (some (connect_woken ev works held), rs)

-- The error that the socket holds is never read: a connection that became writable with an error is
-- reported as made.
pub connect-ignores_error :
    (ev : EvRes) (held : ℕ) (rs : List ConnectReply)
    → ev.ev_timeout ≡ false
    → only_write ev ≡ true
    → connect (ConnectReply.in_progress ev true held ∷ rs) ≡ (some (pos 0), rs)
unfolding connect
connect-ignores_error ev held rs h k = ground arith
