-- ===== src/Http/Conn.antt =====
-- `TcpConn` of http/tcp_conn.h and .cc. The system's calls, and the frame's under their results alone,
-- are parameters over a state of the outside.
use tinyco.Prelude.{
  ℕ, zero, suc, ◌+◌, ◌-◌, ◌/◌, ◌%◌, Bool, true, false, not, ◌||◌, Option, none, some, [], ◌∷◌, ◌++◌,
  ltb, ◌==◌, if◌then◌else◌, length, take, drop, ℤ, pos, negsuc, neg, is_neg, Bytes, codes, is_empty,
}
use tinyco.Http.Decimal.{to_decimal}
use tinyco.Http.Check.{as_int}
use tinyco.Http.Server.{Received, got, closed, failed}

-- `fcntl` gives flags or -1; `send` its result; `error` is the text of `errno`.
pub record System (W : Type 0) : Type 0 where
  pub socket : W → Option ℕ × W
  pub get_flags : ℕ → W → Option ℕ × W
  pub set_flags : ℕ → ℕ → W → Bool × W
  pub connect : ℕ → ℕ → ℕ → W → ℤ × W
  pub send : ℕ → Bytes → W → ℤ × W
  pub recv : ℕ → ℕ → W → Received × W
  pub close : ℕ → W → W
  pub error : W → Bytes

-- `fd` is `none` for kInvalidFd.
pub record TcpConn : Type 0 where
  pub ip : ℕ
  pub port : ℕ
  pub fd : Option ℕ
  pub connect_timeout : ℤ
  pub read_timeout : ℤ
  pub write_timeout : ℤ
  pub strlog : Bytes

-- The constructor sets `fd_` and the empty log: the other members are as the memory was.
unfoldable pub tcp_conn_new : TcpConn → TcpConn
tcp_conn_new memory = record memory { fd = none; strlog = [] }

-- `strlog_.append(…)`.
abbrev pub logged : Bytes → TcpConn → TcpConn
logged text c = record c { strlog = c.strlog ++ text }

-- `GetErrorMsg`.
unfoldable pub get_error_msg : TcpConn → Bytes × TcpConn
get_error_msg c = (c.strlog, record c { strlog = [] })

-- O_NONBLOCK, which is one bit of the flags.
abbrev pub o_nonblock : ℕ
o_nonblock = 2048

abbrev pub is_nonblock : ℕ → Bool
is_nonblock flags = flags / o_nonblock % 2 == 1

-- `flags &= ~O_NONBLOCK` and `flags |= O_NONBLOCK`.
unfoldable pub blocking_flags : Bool → ℕ → ℕ
blocking_flags true flags = if is_nonblock flags then flags - o_nonblock else flags
blocking_flags false flags = if is_nonblock flags then flags else flags + o_nonblock

abbrev pub default_timeout : ℤ
default_timeout = pos 200

-- kMaxRecvSize.
abbrev pub max_recv_size : ℕ
max_recv_size = 5120

-- `int left = size`, and what is sent then: the last `left` bytes, or nothing if it is negative.
unfoldable pub to_send : Bytes → Bytes
to_send buf = elim (as_int (length buf)) [ pos left ↦ drop (length buf - left) buf | negsuc _ ↦ [] ]

module _ {W : Type 0} (sys : System W) where
  -- The connection and the outside.
  abbrev pub State : Type 0
  State = TcpConn × W

  -- `Close`, which also clears the log.
  unfoldable pub close : State → State
  close (c, w) =
      (record c { fd = none; strlog = [] }, elim c.fd [ none ↦ w | some n ↦ sys.close n w ])

  -- `SetBlocking` on an open descriptor.
  unfoldable pub set_blocking : Bool → ℕ → State → ℤ × State
  set_blocking blocking n (c, w) =
      let (got_flags, w₁) = sys.get_flags n w in
      elim got_flags [
        | none ↦ (neg 1, (logged (codes "|fcntl GET error") c, w₁))
        | some flags ↦
            let (done, w₂) = sys.set_flags n (blocking_flags blocking flags) w₁ in
            if done then (pos 0, (c, w₂)) else (neg 1, (logged (codes "|fcntl SET error") c, w₂))
      ]

  -- A failure after the socket is made: it is closed, and the text is logged.
  unfoldable pub give_up : Bytes → State → ℤ × State
  unfolding close
  give_up text s = let (c, w) = close s in (neg 1, (logged text c, w))

  -- The part of `Init` behind `SetBlocking`; the text of `errno` is read after `Close`.
  unfoldable pub init_connect : ℕ → ℕ → ℕ → State → ℤ × State
  unfolding close
  init_connect n ip port (c, w) =
      let (ret, w₁) = sys.connect n ip port w in
      let (c', w') = close (c, w₁) in
      if is_neg ret
      then (neg 1, (logged (codes "|tinyco::connect error: " ++ sys.error w') c', w'))
      else (pos 0, (c, w₁))

  -- The part of `Init` with the socket made.
  unfoldable pub init_socket : ℕ → ℕ → ℕ → State → ℤ × State
  init_socket n ip port s =
      let (ret, s₁) = set_blocking false n s in
      if is_neg ret then give_up (codes "|SetBlocking error") s₁ else init_connect n ip port s₁

  -- `Init`: an open descriptor of before is overwritten.
  unfoldable pub init : ℕ → ℕ → ℤ → ℤ → ℤ → State → ℤ × State
  init ip port ct rt wt (c, w) =
      let c' = record c {
        ip = ip;
        port = port;
        connect_timeout = ct;
        read_timeout = rt;
        write_timeout = wt;
      } in
      let (made, w₁) = sys.socket w in
      if ip == 0 || port == 0 then (neg 1, (c, w)) else elim made [
        | none ↦ (
          neg 1,
          (logged (codes "|socket error: " ++ sys.error w₁) (record c' { fd = none }), w₁),
        )
        | some n ↦ init_socket n ip port (record c' { fd = some n }, w₁)
      ]

  -- `TryReConnect`: the timeouts are the default ones again.
  unfoldable pub try_re_connect : State → ℤ × State
  unfolding init
  try_re_connect (c, w) = init c.ip c.port default_timeout default_timeout default_timeout (c, w)

  -- The loop that sends, with `left` bytes to go: whether all were taken.
  unfoldable pub send_all : ℕ → ℕ → Bytes → State → Bool × State
  send_all zero n left s = (is_empty left, s)
  send_all (suc fuel) n [] s = (true, s)
  send_all (suc fuel) n (b ∷ left) (c, w) =
      let (ret, w₁) = sys.send n (b ∷ left) w in
      elim ret [
        | negsuc _ ↦ (false, (logged (codes "|tinyco::send error: " ++ sys.error w₁) c, w₁))
        | pos zero ↦ (
          false,
          (
            logged (codes "|tinyco::send error: server close the connection: " ++ sys.error w₁) c,
            w₁,
          ),
        )
        | pos (suc k) ↦
            let rest = send_all fuel n (drop (suc k) (b ∷ left)) (c, w₁) in
            if ltb (length (b ∷ left)) (suc k)
            then (false, (logged (codes "|tinyco::send werid error: " ++ sys.error w₁) c, w₁))
            else rest
      ]

  -- `if (kInvalidFd == fd_)`: the descriptor to use.
  unfoldable pub ensure_open : State → Option ℕ × State
  unfolding try_re_connect
  ensure_open (c, w) = elim c.fd [
    | some n ↦ (some n, (c, w))
    | none ↦
        let (ret, (c₁, w₁)) = try_re_connect (logged (codes "|try to reconnect server") c, w) in
        if is_neg ret
        then (none, (logged (codes "|reconnect server error") c₁, w₁))
        else (c₁.fd, (c₁, w₁))
  ]

  -- `Send`; the buffer may be a null pointer.
  unfoldable pub send : Option Bytes → State → ℤ × State
  unfolding ensure_open send_all to_send
  send buf s =
      let (fd, s₁) = ensure_open s in
      elim fd [
        | none ↦ (neg 1, s₁)
        | some n ↦ elim buf [
          | none ↦ (neg 1, s₁)
          | some bytes ↦
              let (done, s₂) = send_all (length bytes) n (to_send bytes) s₁ in
              if is_empty bytes then (neg 1, s₁) else if done then (pos 0, s₂) else (neg 1, s₂)
        ]
      ]

  -- The end of the loop that receives: the code `eof` and what was received, or an error that was logged.
  unfoldable pub recv_until :
      (Bytes → ℤ) → ℕ → ℕ → Bytes → State → Option (Option (ℤ × Bytes) × State)
  recv_until func zero n real_buf s = none
  recv_until func (suc fuel) n real_buf (c, w) =
      let (r, w₁) = sys.recv n max_recv_size w in
      elim r [
        | failed ↦ some (none, (logged (codes "|tinyco::recv error: " ++ sys.error w₁) c, w₁))
        | closed ↦ some (
          none,
          (
            logged
                (codes "|tinyco::recv error: server close the connection: "
                  ++ (sys.error w₁ ++ (codes "|recvd=" ++ to_decimal (length real_buf))))
                c,
            w₁,
          ),
        )
        | got bs ↦
            let all = real_buf ++ bs in
            let rest = recv_until func fuel n all (c, w₁) in
            elim (func all) [
              | pos zero ↦ rest
              | pos (suc k) ↦ some (some (pos (suc k), all), (c, w₁))
              | negsuc k ↦
                  if k == 1
                  then rest
                  else some (
                    some (negsuc k, all),
                    (logged (codes "|recv error data: ret_code=-" ++ to_decimal (suc k)) c, w₁),
                  )
            ]
      ]

  -- The code of `SendAndReceive`, and the text given to `*output` where it is.
  unfoldable pub deliver : Option (ℤ × Bytes) → State → ℤ × Option Bytes × State
  deliver none (c, w) = (neg 1, none, (c, w))
  deliver (some (pos n, all)) (c, w) = (pos 0, some (take n all), (c, w))
  deliver (some (negsuc n, all)) (c, w) = (neg 1, none, (logged (codes "|func eof error.") c, w))

  -- `SendAndReceive`: `none` is a loop that has not ended after `fuel` calls of `recv`.
  unfoldable pub send_and_receive :
      (Bytes → ℤ) → ℕ → Option Bytes → Bool → State → Option (ℤ × Option Bytes × State)
  unfolding ensure_open send_all to_send recv_until deliver
  send_and_receive func fuel none output s = some (neg 1, none, s)
  send_and_receive func fuel (some bytes) output s =
      let (fd, s₁) = ensure_open s in
      if not output || is_empty bytes then some (neg 1, none, s) else elim fd [
        | none ↦ some (neg 1, none, s₁)
        | some n ↦
            let (done, s₂) = send_all (length bytes) n (to_send bytes) s₁ in
            let received = recv_until func fuel n [] s₂ in
            if done
            then elim received [ none ↦ none | some (eof, s₃) ↦ some (deliver eof s₃) ]
            else some (neg 1, none, s₂)
      ]
