-- ===== src/Http/Stream.antt =====
-- `HttpSrvWork::Run` of http/http_server.cc on a stream of bytes that comes in pieces.
use tinyco.Prelude.{
  ℕ, zero, suc, ◌+◌, ◌-◌, ◌≤◌, ◌<◌, ◌≡◌, refl, sym, ap, ◌∙◌, inl, inr, false, some, [], ◌∷◌, arith,
  ltb, Bool-cases, length, take, drop, length-take, length-drop, drop_all, take_all, drop-drop, pos,
  Bytes,
}
use tinyco.Http.Request.{HttpRequest}
use tinyco.Http.Response.{HttpResponse}
use tinyco.Http.Parser.{ParserLib, parse_http_request}
use tinyco.Http.Check.{check_pkg}
use tinyco.Http.Server.{
  Received, got, closed, Work, Buffer, fresh_buffer, grow, room, returned, received, round,
  run_from, run,
}
use tinyco.Http.Buffer.{filled, Holds, grow-Holds}
use tinyco.Prelude.{take_add}
use tinyco.Http.Run.{
  room_positive, received_part, received_package, process_last, run_again, run_returned,
  round-writes,
}

-- A peer that sends a text, and of which a call receives the next `segment` bytes: at least one, and no
-- more than there is room for or than are left. Behind the text it closes.
unfoldable pub stream : (ℕ → Bytes → ℕ) → ℕ → Bytes → Received × Bytes
stream segment n [] = (closed, [])
stream segment n (c ∷ t) = let k = segment n (c ∷ t) in (got (take k (c ∷ t)), drop k (c ∷ t))

abbrev pub IsSegment : (ℕ → Bytes → ℕ) → Type 0
IsSegment segment =
    (n : ℕ) (t : Bytes)
    → 0 < n
    → 0 < length t
    → (0 < segment n t) × (segment n t ≤ n) × (segment n t ≤ length t)

stream_next :
    (segment : ℕ → Bytes → ℕ) (n : ℕ) (t : Bytes)
    → 0 < length t
    → stream segment n t ≡ (got (take (segment n t) t), drop (segment n t) t)
unfolding stream
stream_next segment n [] h = absurd (omega arith)
stream_next segment n (c ∷ t) h = refl

module _ (lib : ParserLib) (segment : ℕ → Bytes → ℕ) (serve : Work Bytes → Work Bytes) (s : Bytes)
    (q v : HttpRequest) (r : HttpResponse) (seg : IsSegment segment)
    (early : (n : ℕ) → 0 < n → n < length s → check_pkg lib (take n s) ≡ pos 0)
    (whole : check_pkg lib s ≡ pos (length s))
    (parsed : parse_http_request lib s q ≡ some (pos 0, v))
    (last : (serve (record { hreq = v; hrsp = r; world = [] })).hreq.keepalive ≡ false) where
  abbrev before : Bytes → Work Bytes
  before t = record { hreq = q; hrsp = r; world = t }

  abbrev after : Work Bytes
  after = serve (record { hreq = v; hrsp = r; world = [] })

  received-whole :
      (b : Buffer)
      → Holds b s
      → 0 < length s
      → received lib (stream segment) serve b (before []) ≡ returned (pos 0) after
  received-whole b h p =
      received_package lib (stream segment) serve (length s - 1) b (before []) checked
      ∙ process_last lib (stream segment) serve (suc (length s - 1)) b (before []) v
          (rw taken parsed) last
    where
      size : length s ≡ suc (length s - 1)
      size = omega arith

      checked : check_pkg lib (filled b) ≡ pos (suc (length s - 1))
      checked = rw (h.1, sym size) whole

      measured : b.recvd ≡ suc (length s - 1)
      measured = omega (arith, ap length h.1, length-take b.recvd b.req, h.0, size)

      taken : take (suc (length s - 1)) b.req ≡ s
      taken = rw (sym measured) h.1

  -- A round with the first `k` bytes of the text received receives `j` more.
  round-stream :
      (k : ℕ) (b : Buffer)
      → Holds b (take k s)
      → 0 < length b.req
      → k < length s
      → (j : ℕ) × (b' : Buffer) × (0 < j)
        × (k + j ≤ length s)
        × Holds b' (take (k + j) s)
        × (0 < length b'.req)
        × (round lib (stream segment) serve b (before (drop k s))
            ≡ received lib (stream segment) serve b' (before (drop (k + j) s)))
  round-stream k b h p l =
      let t : Bytes = drop k s in
      let left : length t ≡ length s - k = length-drop k s in
      let free : 0 < room (grow b) = room_positive (grow b) (grow-Holds b (take k s) h p).1 in
      let n : ℕ = room (grow b) in
      let j : ℕ = segment n t in
      let (j₀, j₁, j₂) = seg n t free (omega arith) in
      let size : length (take j t) ≡ j = omega (arith, length-take j t) in
      let (b', hb, p', e) =
        round-writes lib (stream segment) serve b (before t) (take k s) (take j t) (drop j t) h p
          (stream_next segment n t (omega arith)) (omega arith) (omega arith) in
      (j, b', j₀, omega arith, rw (sym (take_add k j s)) hb, p', rw (sym (drop-drop j k s)) e)

  -- With the first `k` bytes of the text received, the rounds receive the rest.
  run_from-stream :
      (fuel k : ℕ) (b : Buffer)
      → Holds b (take k s)
      → 0 < length b.req
      → k < length s
      → length s - k ≤ fuel
      → run_from lib (stream segment) serve fuel b (before (drop k s))
        ≡ some (returned (pos 0) after)
  run_from-stream zero k b h p l f = absurd (omega arith)
  run_from-stream (suc fuel) k b h p l f =
      let (j, b', j₀, j₁, hb, p', e) = round-stream k b h p l in
      elim (Bool-cases (ltb (k + j) (length s))) [
        | inl c ↦
            run_again lib (stream segment) serve fuel b b' (before (drop k s))
              (before (drop (k + j) s))
              (e
                ∙ received_part lib (stream segment) serve b' (before (drop (k + j) s))
                    (rw hb.1 (early (k + j) (omega arith) (ground arith))))
            ∙ run_from-stream fuel (k + j) b' hb p' (ground arith) (omega arith)
        | inr c ↦
            let end : length s ≤ k + j = ground arith in
            run_returned lib (stream segment) serve fuel b (before (drop k s)) after (pos 0) (
              e
              ∙ rw (drop_all (k + j) s end)
                  (received-whole b' (rw (sym (take_all (k + j) s end)) hb) (omega arith)))
      ]

  -- `Run` on a request that comes in any pieces and is the last of its connection: if no part of it
  -- counts as a whole message, it is parsed from exactly the bytes that were sent, served once, and `Run`
  -- returns 0, within as many rounds as there are bytes.
  pub run-stream :
      0 < length s
      → run lib (stream segment) serve (length s) (before s) ≡ some (returned (pos 0) after)
  unfolding run
  run-stream p =
      run_from-stream (length s) 0 fresh_buffer (omega arith, refl) (omega arith) p (omega arith)
