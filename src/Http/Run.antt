-- ===== src/Http/Run.antt =====
-- A round of `HttpSrvWork::Run` of http/http_server.cc: where the bytes go that it receives, and what
-- becomes of a request behind another.
use tinyco.Prelude.{
  ℕ, suc, ◌+◌, ◌≤◌, ◌<◌, ◌≡◌, refl, false, none, some, ◌++◌, arith, length, take, length-drop, ℤ,
  pos, Bytes,
}
use tinyco.Http.Request.{HttpRequest}
use tinyco.Http.Parser.{ParserLib, parse_http_request}
use tinyco.Http.Check.{check_pkg}
use tinyco.Http.Server.{
  Received, got, Work, Buffer, grow, room, write, shift, again, returned, overrun, process,
  received, round, after_recv, run_from,
}
use tinyco.Http.Buffer.{filled, Holds, grow-Holds, write-Holds}

grow-shift :
    (nparsed : ℕ) (b : Buffer)
    → nparsed < b.recvd
    → b.recvd ≤ length b.req
    → length b.req < nparsed + b.recvd
    → grow (shift nparsed b) ≡ shift nparsed b
unfolding grow shift
grow-shift nparsed b h l s = ground (arith, length-drop nparsed b.req)

write-shift :
    (nparsed : ℕ) (b : Buffer) (bs : Bytes)
    → nparsed < b.recvd
    → b.recvd ≤ length b.req
    → length b.req < nparsed + b.recvd
    → write bs (shift nparsed b) ≡ none
unfolding write shift
write-shift nparsed b bs h l s = ground (arith, length-drop nparsed b.req)

in_room :
    (b : Buffer) (bs : Bytes)
    → b.recvd ≤ length b.req
    → length bs ≤ room b
    → b.recvd + length bs ≤ length b.req
unfolding room
in_room b bs h l = ground arith

pub room_positive : (b : Buffer) → b.recvd < length b.req → 0 < room b
unfolding room
room_positive b h = ground arith

positive :
    (b' b : Buffer) (bs : Bytes)
    → b'.recvd ≤ length b'.req
    → b'.recvd ≡ b.recvd + length bs
    → 0 < length bs
    → 0 < length b'.req
positive b' b bs h m n = omega arith

module _ {W : Type 0} (lib : ParserLib) (recv : ℕ → W → Received × W)
    (serve : Work W → Work W) where
  round_at :
      (b b' : Buffer) (w : Work W) (bs : Bytes) (world : W)
      → recv (room (grow b)) w.world ≡ (got bs, world)
      → write bs (grow b) ≡ some b'
      → round lib recv serve b w ≡ received lib recv serve b' (record w { world = world })
  unfolding round after_recv
  round_at b b' w bs world e q = rw (e, after_recv, q) refl

  -- The bytes that a round receives are written behind those received before.
  pub round-writes :
      (b : Buffer) (w : Work W) (s bs : Bytes) (world : W)
      → Holds b s
      → 0 < length b.req
      → recv (room (grow b)) w.world ≡ (got bs, world)
      → 0 < length bs
      → length bs ≤ room (grow b)
      → (b' : Buffer) × Holds b' (s ++ bs)
        × (0 < length b'.req)
        × (round lib recv serve b w ≡ received lib recv serve b' (record w { world = world }))
  round-writes b w s bs world h p e n l =
      let g = grow-Holds b s h p in
      let (b', q, hb, m) = write-Holds bs s (grow b) g.0 (in_room (grow b) bs (omega arith) l) in
      (b', hb, positive b' (grow b) bs hb.0 m n, round_at b b' w bs world e q)

  round_out :
      (b : Buffer) (w : Work W) (bs : Bytes) (world : W)
      → recv (room (grow b)) w.world ≡ (got bs, world)
      → write bs (grow b) ≡ none
      → round lib recv serve b w ≡ overrun
  unfolding round after_recv
  round_out b w bs world e q = rw (e, after_recv, q) refl

  -- When a request is served that more bytes follow, and is kept alive, the buffer shrinks and the count
  -- of its bytes does not: with a second request that fills the buffer's rest, the next bytes received
  -- are written outside the buffer.
  pub round-overrun :
      (nparsed : ℕ) (b : Buffer) (w : Work W) (bs : Bytes) (world : W)
      → nparsed < b.recvd
      → b.recvd ≤ length b.req
      → length b.req < nparsed + b.recvd
      → recv (room (shift nparsed b)) w.world ≡ (got bs, world)
      → 0 < length bs
      → round lib recv serve (shift nparsed b) w ≡ overrun
  round-overrun nparsed b w bs world h l s e p =
      let g = grow-shift nparsed b h l s in
      round_out (shift nparsed b) w bs world (rw g e) (rw g (write-shift nparsed b bs h l s))

  pub received_part :
      (b : Buffer) (w : Work W)
      → check_pkg lib (filled b) ≡ pos 0
      → received lib recv serve b w ≡ again b w
  unfolding received
  received_part b w c = rw (c, received)

  pub received_package :
      (n : ℕ) (b : Buffer) (w : Work W)
      → check_pkg lib (filled b) ≡ pos (suc n)
      → received lib recv serve b w ≡ process lib recv serve (suc n) b w
  unfolding received
  received_package n b w c = rw (c, received)

  pub run_again :
      (fuel : ℕ) (b b' : Buffer) (w w' : Work W)
      → round lib recv serve b w ≡ again b' w'
      → run_from lib recv serve (suc fuel) b w ≡ run_from lib recv serve fuel b' w'
  unfolding run_from
  run_again fuel b b' w w' e = rw (e, run_from)

  pub run_returned :
      (fuel : ℕ) (b : Buffer) (w w' : Work W) (ret : ℤ)
      → round lib recv serve b w ≡ returned ret w'
      → run_from lib recv serve (suc fuel) b w ≡ some (returned ret w')
  unfolding run_from
  run_returned fuel b w w' ret e = rw (e, run_from)

  -- A request that is the last of its connection.
  pub process_last :
      (n : ℕ) (b : Buffer) (w : Work W) (v : HttpRequest)
      → parse_http_request lib (take n b.req) w.hreq ≡ some (pos 0, v)
      → (serve (record w { hreq = v })).hreq.keepalive ≡ false
      → process lib recv serve n b w ≡ returned (pos 0) (serve (record w { hreq = v }))
  unfolding process
  process_last n b w v e k = rw (e, process, k)
