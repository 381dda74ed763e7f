-- ===== src/Http/ConnExchange.antt =====
-- `HttpClient::SendAndReceive` of http/http_client.cc over a `TcpConn` whose peer takes the request and
-- answers it.
use tinyco.Prelude.{
  ℕ, zero, suc, ◌^◌, ◌≤◌, ◌<◌, ◌≡◌, refl, ap, ◌∙◌, true, false, some, List, [], ◌∷◌, ◌++◌,
  append-nil, append_assoc, arith, ltb, length, take, drop, length-drop, take-append-drop, take_all,
  pos, neg, Bytes, is_empty,
}
use tinyco.Http.Check.{check_http, http_check_complete, as_int_small, hpc_ok, hpc_not_complete_http}
use tinyco.Http.Parser.{ParserLib}
use tinyco.Http.Pieces.{joined, WholeAtLast}
use tinyco.Http.Server.{got}
use tinyco.Http.Conn.{
  System, TcpConn, max_recv_size, send_all, recv_until, deliver, send_and_receive,
}
use tinyco.Http.Delivery.{ensure_open-fd, to_send-small}
use tinyco.Http.Client.{client_exchange}

above_zero : (n : ℕ) → 0 < n → (k : ℕ) × (n ≡ suc k)
above_zero zero h = absurd (omega arith)
above_zero (suc k) h = (k, refl)

module _ (lib : ParserLib) where
  -- What `HttpCheckComplete` makes of a whole message below 2 GB, and of one that is not complete.
  complete-ok :
      (s : Bytes)
      → (check_http lib s).0 ≡ hpc_ok
      → length s < 2 ^ 31
      → http_check_complete lib s ≡ pos (length s)
  unfolding http_check_complete
  complete-ok s e h = rw e (as_int_small (length s) h)

  complete-not :
      (s : Bytes) → (check_http lib s).0 ≡ hpc_not_complete_http → http_check_complete lib s ≡ neg 2
  unfolding http_check_complete
  complete-not s e = rw e refl

module _ {W : Type 0} (sys : System W) (n : ℕ) where
  -- `Frame::send` takes one byte or more of a text that is not empty, from its front, and `log` is what
  -- the outside has taken.
  abbrev pub TakesSome : (W → Bytes) → Type 0
  TakesSome log =
      (bytes : Bytes) (w : W)
      → 0 < length bytes
      → (k : ℕ) × (w' : W) × (sys.send n bytes w ≡ (pos (suc k), w'))
        × (suc k ≤ length bytes)
        × (log w' ≡ log w ++ take (suc k) bytes)

  -- The calls of `Frame::recv` give the pieces, and leave the outside as `w'`.
  abbrev pub Gives : W → List Bytes → W → Type 0
  Gives w [] w' = w ≡ w'
  Gives w (bs ∷ pieces) w' =
      (w₁ : W) × (sys.recv n max_recv_size w ≡ (got bs, w₁)) × Gives w₁ pieces w'

  send_round :
      (fuel k b : ℕ) (left : Bytes) (c : TcpConn) (w w₁ : W)
      → sys.send n (b ∷ left) w ≡ (pos (suc k), w₁)
      → suc k ≤ length (b ∷ left)
      → send_all sys (suc fuel) n (b ∷ left) (c, w)
        ≡ send_all sys fuel n (drop (suc k) (b ∷ left)) (c, w₁)
  unfolding send_all
  send_round fuel k b left c w w₁ e h =
      let within : ltb (length (b ∷ left)) (suc k) ≡ false = ground arith in
      rw (ap (λ r. r.0) e, send_all, ap (λ r. r.1) e, within) refl

  -- All is sent, and the connection is as before.
  send_all-taken :
      (log : W → Bytes) (fuel : ℕ) (left : Bytes) (c : TcpConn) (w : W)
      → TakesSome log
      → length left ≤ fuel
      → (w' : W) × (send_all sys fuel n left (c, w) ≡ (true, (c, w'))) × (log w' ≡ log w ++ left)
  unfolding send_all
  send_all-taken log zero [] c w h l = (w, refl, rw append-nil refl)
  send_all-taken log zero (b ∷ left) c w h l = absurd (omega arith)
  send_all-taken log (suc fuel) [] c w h l = (w, refl, rw append-nil refl)
  send_all-taken log (suc fuel) (b ∷ left) c w h l =
      let (k, w₁, e, m, t) = h (b ∷ left) w (omega arith) in
      let (w', d, q) =
        send_all-taken log fuel (drop (suc k) (b ∷ left)) c w₁ h
          (omega (arith, length-drop (suc k) (b ∷ left))) in
      (
        w',
        send_round fuel k b left c w w₁ e m ∙ d,
        q
            ∙ ap (λ x. x ++ drop (suc k) (b ∷ left)) t
            ∙ append_assoc (log w) (take (suc k) (b ∷ left)) (drop (suc k) (b ∷ left))
            ∙ ap (λ x. log w ++ x) (take-append-drop (suc k) (b ∷ left)),
      )

  module _ (lib : ParserLib) where
    recv_until-Gives :
        (fuel : ℕ) (seen : Bytes) (pieces : List Bytes) (c : TcpConn) (w w' : W)
        → Gives w pieces w'
        → WholeAtLast lib seen pieces
        → 0 < length (joined seen pieces)
        → length (joined seen pieces) < 2 ^ 31
        → length pieces ≤ fuel
        → recv_until sys (http_check_complete lib) fuel n seen (c, w)
          ≡ some (some (pos (length (joined seen pieces)), joined seen pieces), (c, w'))
    unfolding recv_until
    recv_until-Gives fuel seen [] c w w' g h z b l = absurd h
    recv_until-Gives zero seen (bs ∷ pieces) c w w' g h z b l = absurd (omega arith)
    recv_until-Gives (suc fuel) seen (bs ∷ []) c w w' (w₁, e, q) h z b l =
        let whole = complete-ok lib (seen ++ bs) h b in
        let (k, p) = above_zero (length (seen ++ bs)) z in
        rw (ap (λ r. r.0) e, recv_until, whole, p, ap (λ r. r.1) e, q) refl
    recv_until-Gives (suc fuel) seen (bs ∷ d ∷ pieces) c w w' (w₁, e, g) (m, h) z b l =
        let rest = recv_until-Gives fuel (seen ++ bs) (d ∷ pieces) c w₁ w' g h z b (omega arith) in
        rw (ap (λ r. r.0) e, recv_until, complete-not lib (seen ++ bs) m, ap (λ r. r.1) e, rest)
          refl

    -- `SendAndReceive` on a connection that is open comes to an end: if each `Frame::send` takes a part of
    -- the request, of less than 2 GB, from its front, and an outside that has the request gives pieces that
    -- make a whole message, not empty and below 2 GB, with the last and with no earlier one, it returns 0
    -- and the pieces joined, within as many rounds as there are pieces; the outside has the request then, in
    -- its order and once, and the connection is as before.
    pub client_exchange-answered :
        (log : W → Bytes) (fuel : ℕ) (c : TcpConn) (bytes : Bytes) (pieces : List Bytes) (w : W)
        → c.fd ≡ some n
        → 0 < length bytes
        → length bytes < 2 ^ 31
        → TakesSome log
        → ((w₁ : W) → log w₁ ≡ log w ++ bytes → (w' : W) × Gives w₁ pieces w')
        → WholeAtLast lib [] pieces
        → 0 < length (joined [] pieces)
        → length (joined [] pieces) < 2 ^ 31
        → length pieces ≤ fuel
        → (w₁ : W) × (w' : W) × (log w₁ ≡ log w ++ bytes)
          × Gives w₁ pieces w'
          × (client_exchange sys lib fuel (some bytes) true (c, w)
              ≡ some (pos 0, some (joined [] pieces), (c, w')))
    unfolding client_exchange send_and_receive deliver
    client_exchange-answered log fuel c bytes pieces w f z b h gives m some_text small l =
        let (w₁, d, q) = send_all-taken log (length bytes) bytes c w h (omega arith) in
        let (w', g) = gives w₁ q in
        let r = recv_until-Gives fuel [] pieces c w₁ w' g m some_text small l in
        let o = ensure_open-fd sys n c w f in
        let full : is_empty bytes ≡ false = ground arith in
        (
          w₁,
          w',
          q,
          g,
          rw
              (
                ap (λ r. r.0) o,
                ap (λ r. r.1) o,
                to_send-small sys bytes b,
                full,
                ap (λ r. r.0) d,
                ap (λ r. r.1) d,
                r,
                take_all (length (joined [] pieces)) (joined [] pieces) (omega arith),
              )
              refl,
        )
