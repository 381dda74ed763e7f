-- ===== src/Http/Client.antt =====
-- `HttpClient` of http/http_client.h and .cc: a `TcpConn` with timeouts of its own.
use tinyco.Prelude.{
  ℕ, ◌^◌, ◌≤◌, ◌<◌, ◌≡◌, ap, ◌∙◌, inl, inr, Bool, true, ◌||◌, Option, none, some, [], ◌++◌, arith,
  ltb, ◌==◌, if◌then◌else◌, length, length-append, take_all, ℤ, pos, neg, is_neg, Bytes, is_empty,
  value_or,
}
use tinyco.Http.Check.{http_check_complete, check_pkg, check_http-codes, http_check_complete-flag}
use tinyco.Http.Parser.{ParserLib}
use tinyco.Http.Conn.{System, TcpConn, State, init, send_and_receive}
use tinyco.Http.Received.{LogsReceived, send_and_receive-received}

pub record Timeouts : Type 0 where
  pub ms_connect_timeout : ℤ
  pub ms_read_timeout : ℤ
  pub ms_write_timeout : ℤ

abbrev pub client_timeouts : Timeouts
client_timeouts = record {
  ms_connect_timeout = pos 1000;
  ms_read_timeout = pos 5000;
  ms_write_timeout = pos 500;
}

abbrev at_least_zero : ℤ → ℤ → ℤ
at_least_zero default timeout = if is_neg timeout then default else timeout

-- `SetConnectMsTimeout`, `SetReadMsTimeout`, `SetWriteMsTimeout`.
unfoldable pub set_connect_ms_timeout : ℤ → Timeouts → Timeouts
set_connect_ms_timeout timeout t = record t {
  ms_connect_timeout = at_least_zero (pos 1000) timeout;
}

unfoldable pub set_read_ms_timeout : ℤ → Timeouts → Timeouts
set_read_ms_timeout timeout t = record t { ms_read_timeout = at_least_zero (pos 5000) timeout }

unfoldable pub set_write_ms_timeout : ℤ → Timeouts → Timeouts
set_write_ms_timeout timeout t = record t { ms_write_timeout = at_least_zero (pos 500) timeout }

module _ {W : Type 0} (sys : System W) where
  -- `HttpClient::Init`.
  unfoldable pub client_init : Timeouts → ℕ → ℕ → State sys → ℤ × State sys
  client_init t ip port s =
      let (ret, s') =
        init sys ip port t.ms_connect_timeout t.ms_read_timeout t.ms_write_timeout s in
      if ip == 0 || port == 0 then (neg 1, s) else if is_neg ret then (neg 2, s') else (pos 0, s')

  module _ (lib : ParserLib) (fuel : ℕ) where
    -- `SendAndReceive` into a string.
    unfoldable pub client_exchange :
        Option Bytes → Bool → State sys → Option (ℤ × Option Bytes × State sys)
    client_exchange buf output s =
        let r = send_and_receive sys (http_check_complete lib) fuel buf output s in
        if output then r else some (neg 1, none, s)

    -- The copy into the caller's buffer of `recvlen` bytes: the code, and the bytes copied.
    unfoldable pub copy_out : ℕ → ℤ → Option Bytes → ℤ × Option Bytes
    copy_out recvlen ret out =
        let text = value_or [] out in
        if is_neg ret
        then (neg 2, none)
        else if ltb recvlen (length text)
        then (neg 3, none)
        else (ret, some text)

    -- `SendAndReceive` into a buffer; `recvlen` is `none` where one of the two pointers is null.
    unfoldable pub client_exchange_buffer :
        Option Bytes → Option ℕ → State sys → Option (ℤ × Option Bytes × State sys)
    unfolding copy_out
    client_exchange_buffer none recvlen s = some (neg 1, none, s)
    client_exchange_buffer (some bytes) none s = some (neg 1, none, s)
    client_exchange_buffer (some bytes) (some recvlen) s =
        let r = send_and_receive sys (http_check_complete lib) fuel (some bytes) true s in
        if is_empty bytes then some (neg 1, none, s) else elim r [
          | none ↦ none
          | some (ret, out, s') ↦
              let (code, text) = copy_out recvlen ret out in some (code, text, s')
        ]

    -- On an open connection, if less than 2 GB have been received on it with the call and http-parser takes
    -- no more bytes than there are: the text that `SendAndReceive` gives is all that it received, and it
    -- holds a whole HTTP message, whose length is that which the server's check finds.
    pub client_exchange_complete :
        (rlog : W → Bytes) (n : ℕ) (bytes out : Bytes) (c : TcpConn) (w : W) (s' : State sys)
        → LogsReceived sys rlog n
        → c.fd ≡ some n
        → length (rlog s'.1) < 2 ^ 31
        → ((t : Bytes) → (lib.execute_check t).0 ≤ length t)
        → client_exchange (some bytes) true (c, w) ≡ some (pos 0, some out, s')
        → (rlog s'.1 ≡ rlog w ++ out)
          × ((lib.execute_check out).1 ≡ true)
          × (check_pkg lib out ≡ pos (lib.execute_check out).0)
    unfolding client_exchange
    client_exchange_complete rlog n bytes out c w s' h fd small within e =
        let (all, k, f, p, q, l) =
          send_and_receive-received sys rlog (http_check_complete lib) fuel n bytes out c w s' h fd
            e in
        let complete = http_check_complete-flag lib all k f p in
        let below : length all < 2 ^ 31 =
          let m = ap length l in omega (arith, m, length-append (rlog w) all) in
        let r =
          check_http-codes lib all (lib.execute_check all).0 true below
            (ap (λ b. ((lib.execute_check all).0, b)) complete) (within all) in
        elim r [
          | inl (x, found, whole) ↦
              let m : k ≡ length all = ground arith in
              let same : out ≡ all = q ∙ rw m (take_all (length all) all (omega arith)) in
              rw same (l, complete, found)
          | inr (inl (x, _, _, _)) ↦ absurd (ground arith)
          | inr (inr (x, _, _, _)) ↦ absurd (ground arith)
        ]
