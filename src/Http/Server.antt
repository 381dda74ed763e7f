-- ===== src/Http/Server.antt =====
-- `HttpSrvWork` of http/http_server.h and .cc: the loop that reads requests into a growing buffer, and
-- the reply. The derived class's `Serve`, and the socket behind `Frame::recv` and `Frame::send`, are
-- parameters over a state of the outside.
use tinyco.Prelude.{
  ℕ, zero, suc, ◌+◌, ◌-◌, ◌^◌, Option, none, some, ◌++◌, ltb, leb, ◌==◌, if◌then◌else◌, length,
  take, drop, replicate, ℤ, pos, negsuc, neg, Bytes,
}
use tinyco.Http.Request.{HttpRequest, is_header, get_header}
use tinyco.Http.Response.{HttpResponse, set_header, serialize}
use tinyco.Http.Parser.{ParserLib, connection, parse_http_request}
use tinyco.Http.Check.{check_pkg}

-- What `Frame::recv` gives: bytes, 0, or a negative result.
pub data Received : Type 0 where
  got : Bytes → Received
  closed : Received
  failed : Received

-- The work's own members, and the outside.
pub record Work (W : Type 0) : Type 0 where
  pub hreq : HttpRequest
  pub hrsp : HttpResponse
  pub world : W

-- The locals of `Run`: `req` is the whole buffer, of which `recvd` bytes are said to be filled.
pub record Buffer : Type 0 where
  pub req : Bytes
  pub recvd : ℕ

abbrev pub fresh_buffer : Buffer
fresh_buffer = record { req = replicate 512 0; recvd = 0 }

-- `req.resize(req.size() * 2)` when it is full.
unfoldable pub grow : Buffer → Buffer
grow b =
    if b.recvd == length b.req then record b { req = b.req ++ replicate (length b.req) 0 } else b

-- `req.size() - recvd`, a size_t.
unfoldable pub room : Buffer → ℕ
room b =
    if leb b.recvd (length b.req) then length b.req - b.recvd else 2 ^ 64 + length b.req - b.recvd

-- The bytes that `recv` writes at `recvd`; `none` where that is outside the buffer.
unfoldable pub write : Bytes → Buffer → Option Buffer
write bs b =
    if leb (b.recvd + length bs) (length b.req)
    then some (record {
      req = take b.recvd b.req ++ (bs ++ drop (b.recvd + length bs) b.req);
      recvd = b.recvd + length bs;
    })
    else none

-- `req = req.substr(nparsed)` leaves `recvd` as it is.
unfoldable pub shift : ℕ → Buffer → Buffer
shift nparsed b =
    if ltb nparsed b.recvd
    then record b { req = drop nparsed b.req }
    else if b.recvd == nparsed
    then record b { recvd = 0 }
    else b

-- How a round ends: it goes on, `Run` returns, the write is out of bounds, or an exception leaves `Run`.
pub data Round (W : Type 0) : Type 0 where
  again : Buffer → Work W → Round W
  returned : ℤ → Work W → Round W
  overrun : Round W
  thrown : Round W

module _ {W : Type 0} (lib : ParserLib) (recv : ℕ → W → Received × W)
    (serve : Work W → Work W) where
  -- What is done with a package of `nparsed` bytes.
  unfoldable pub process : ℕ → Buffer → Work W → Round W
  process nparsed b w = elim (parse_http_request lib (take nparsed b.req) w.hreq) [
    | none ↦ thrown
    | some (ret, q) ↦
        let served = serve (record w { hreq = q }) in
        elim ret [
          | pos zero ↦
              if served.hreq.keepalive
              then again (shift nparsed b) served
              else returned (pos 0) served
          | pos (suc k) ↦ returned (neg 69) (record w { hreq = q })
          | negsuc k ↦ returned (neg 69) (record w { hreq = q })
        ]
  ]

  -- The bytes are in the buffer: the package is checked.
  unfoldable pub received : Buffer → Work W → Round W
  received b w = elim (check_pkg lib (take b.recvd b.req)) [
    | pos zero ↦ again b w
    | pos (suc n) ↦ process (suc n) b w
    | negsuc n ↦ returned (neg 74) w
  ]

  -- The branches on the result of `recv`.
  unfoldable pub after_recv : Buffer → HttpRequest → HttpResponse → Received × W → Round W
  after_recv b q r (got bs, world) = elim (write bs b) [
    | none ↦ overrun
    | some b' ↦ received b' (record { hreq = q; hrsp = r; world = world })
  ]
  after_recv b q r (closed, world) =
      returned (neg 77) (record { hreq = q; hrsp = r; world = world })
  after_recv b q r (failed, world) =
      returned (neg 79) (record { hreq = q; hrsp = r; world = world })

  -- The body of the loop.
  unfoldable pub round : Buffer → Work W → Round W
  round b w = after_recv (grow b) w.hreq w.hrsp (recv (room (grow b)) w.world)

  -- `Run`, with `fuel` rounds at most; a round that goes on behind the last is `none`.
  unfoldable pub run_from : ℕ → Buffer → Work W → Option (Round W)
  run_from zero b w = none
  run_from (suc fuel) b w = elim (round b w) [
    | again b' w' ↦ run_from fuel b' w'
    | returned ret w' ↦ some (returned ret w')
    | overrun ↦ some overrun
    | thrown ↦ some thrown
  ]

  unfoldable pub run : ℕ → Work W → Option (Round W)
  unfolding run_from
  run fuel w = run_from fuel fresh_buffer w

-- The header that `Reply` sets.
unfoldable pub echo : HttpRequest → HttpResponse → HttpResponse
echo q r = if is_header connection q then set_header connection (get_header connection q) r else r

module _ {W : Type 0} (send : Bytes → W → ℤ × W) where
  -- `Reply`.
  unfoldable pub reply : Work W → ℤ × Work W
  unfolding echo
  reply w =
      let hrsp = echo w.hreq w.hrsp in
      let (ret, world) = send (serialize hrsp) w.world in
      (ret, record w { hrsp = hrsp; world = world })
