-- ===== src/Http/TlsExchange.antt =====
-- `HttpsClient::SendAndReceive` of http/https_client.cc with a peer that takes the request and answers it.
use tinyco.Prelude.{
  ℕ, zero, suc, ◌^◌, ◌≤◌, ◌<◌, ◌≡◌, refl, ap, ◌∙◌, true, false, some, List, [], ◌∷◌, ◌++◌,
  append-nil, append_assoc, arith, ◌==◌, length, take, drop, length-drop, take-append-drop, ℤ, pos,
  is_neg, Bytes, is_empty,
}
use tinyco.Http.Parser.{ParserLib}
use tinyco.Http.Check.{as_int, as_int_small}
use tinyco.Http.Pieces.{joined, WholeAtLast}
use tinyco.Http.Server.{got}
use tinyco.Http.Https.{SslSystem, HttpsClient, clear_log}
use tinyco.Http.Secure.{
  below, max_recvlen, ssl_write_all, ssl_read_message, ssl_send_and_receive, https_exchange,
}

module _ {W : Type 0} (sys : SslSystem W) where
  -- `SSL_write`, given the length of a text that is not empty, takes one byte or more from its front, and
  -- `log` is what the outside has taken.
  abbrev pub TakesSome : (W → Bytes) → Type 0
  TakesSome log =
      (bytes : Bytes) (w : W)
      → 0 < length bytes
      → (k : ℕ) × (w' : W) × (sys.ssl_write (pos (length bytes)) bytes w ≡ (pos (suc k), w'))
        × (suc k ≤ length bytes)
        × (log w' ≡ log w ++ take (suc k) bytes)

  -- The calls of `SSL_read` give the pieces, and leave the outside as `w'`.
  abbrev pub Gives : W → List Bytes → W → Type 0
  Gives w [] w' = w ≡ w'
  Gives w (bs ∷ pieces) w' =
      (w₁ : W) × (sys.ssl_read max_recvlen w ≡ (got bs, w₁)) × Gives w₁ pieces w'

  -- A round of the loop over `SSL_write`.
  write_round :
      (fuel k b : ℕ) (ret : ℤ) (left : Bytes) (c : HttpsClient) (w w₁ : W)
      → sys.ssl_write (pos (length (b ∷ left))) (b ∷ left) w ≡ (pos (suc k), w₁)
      → suc k ≤ length (b ∷ left)
      → length (b ∷ left) < 2 ^ 31
      → ssl_write_all sys (suc fuel) ret (b ∷ left) (c, w)
        ≡ ssl_write_all sys fuel (pos (suc k)) (drop (suc k) (b ∷ left)) (c, w₁)
  unfolding ssl_write_all
  write_round fuel k b ret left c w w₁ e n small =
      let size = as_int_small (length (b ∷ left)) small in
      let e' : sys.ssl_write (as_int (length (b ∷ left))) (b ∷ left) w ≡ (pos (suc k), w₁) =
        rw size e in
      let within : below (as_int (length (b ∷ left))) (suc k) ≡ false =
        rw size (unfold below in ground arith) in
      let some_taken : (suc k == 0) ≡ false = ground arith in
      rw (ap (λ r. r.0) e', ssl_write_all, ap (λ r. r.1) e', some_taken, within) refl

  -- All is written, and the client is as before.
  ssl_write_all-taken :
      (log : W → Bytes) (fuel : ℕ) (ret : ℤ) (left : Bytes) (c : HttpsClient) (w : W)
      → TakesSome log
      → length left ≤ fuel
      → length left < 2 ^ 31
      → (ret' : ℤ) × (w' : W) × (ssl_write_all sys fuel ret left (c, w) ≡ (true, ret', (c, w')))
        × (log w' ≡ log w ++ left)
  unfolding ssl_write_all
  ssl_write_all-taken log zero ret [] c w h l small = (ret, w, refl, rw append-nil refl)
  ssl_write_all-taken log zero ret (b ∷ left) c w h l small = absurd (omega arith)
  ssl_write_all-taken log (suc fuel) ret [] c w h l small = (ret, w, refl, rw append-nil refl)
  ssl_write_all-taken log (suc fuel) ret (b ∷ left) c w h l small =
      let (k, w₁, e, n, t) = h (b ∷ left) w (omega arith) in
      let (ret', w', d, q) =
        ssl_write_all-taken log fuel (pos (suc k)) (drop (suc k) (b ∷ left)) c w₁ h
          (omega (arith, length-drop (suc k) (b ∷ left)))
          (omega (arith, length-drop (suc k) (b ∷ left))) in
      (
        ret',
        w',
        write_round fuel k b ret left c w w₁ e n small ∙ d,
        q
            ∙ ap (λ x. x ++ drop (suc k) (b ∷ left)) t
            ∙ append_assoc (log w) (take (suc k) (b ∷ left)) (drop (suc k) (b ∷ left))
            ∙ ap (λ x. log w ++ x) (take-append-drop (suc k) (b ∷ left)),
      )

  module _ (lib : ParserLib) where
    ssl_read_message-Gives :
        (fuel : ℕ) (ret : ℤ) (seen : Bytes) (pieces : List Bytes) (c : HttpsClient) (w w' : W)
        → Gives w pieces w'
        → WholeAtLast lib seen pieces
        → length pieces ≤ fuel
        → ssl_read_message sys lib fuel ret seen (c, w) ≡ some (some (joined seen pieces), (c, w'))
    unfolding ssl_read_message
    ssl_read_message-Gives fuel ret seen [] c w w' g h l = absurd h
    ssl_read_message-Gives zero ret seen (bs ∷ pieces) c w w' g h l = absurd (omega arith)
    ssl_read_message-Gives (suc fuel) ret seen (bs ∷ []) c w w' (w₁, e, q) h l =
        rw (ap (λ r. r.0) e, ssl_read_message, h, ap (λ r. r.1) e, q) refl
    ssl_read_message-Gives (suc fuel) ret seen (bs ∷ d ∷ pieces) c w w' (w₁, e, g) (m, h) l =
        let rest =
          ssl_read_message-Gives fuel ret (seen ++ bs) (d ∷ pieces) c w₁ w' g h (omega arith) in
        rw (ap (λ r. r.0) e, ssl_read_message, m, ap (λ r. r.1) e, rest) refl

    -- What `SendAndReceive` does on a connection that is open.
    https_exchange-open :
        (fuel : ℕ) (c : HttpsClient) (bytes : Bytes) (w : W)
        → is_neg c.https_fd ≡ false
        → c.ssl ≡ true
        → c.bio ≡ true
        → is_empty bytes ≡ false
        → https_exchange sys lib fuel c (some bytes) true w
          ≡ ssl_send_and_receive sys lib fuel bytes (clear_log c, w)
    unfolding https_exchange
    https_exchange-open fuel c bytes w f s b full = rw (f, s, b, full) refl

    -- `SendAndReceive` on a connection that is open comes to an end: if each `SSL_write` takes a part of
    -- the request, of less than 2 GB, from its front, and an outside that has the request gives pieces that make a whole
    -- message with the last and with no earlier one, it returns 0 and the pieces joined, within as many
    -- rounds as there are pieces; the outside has the request then, in its order and once, and the client
    -- is as before with empty logs.
    pub https_exchange-answered :
        (log : W → Bytes) (fuel : ℕ) (c : HttpsClient) (bytes : Bytes) (pieces : List Bytes) (w : W)
        → is_neg c.https_fd ≡ false
        → c.ssl ≡ true
        → c.bio ≡ true
        → 0 < length bytes
        → length bytes < 2 ^ 31
        → TakesSome log
        → ((w₁ : W) → log w₁ ≡ log w ++ bytes → (w' : W) × Gives w₁ pieces w')
        → WholeAtLast lib [] pieces
        → length pieces ≤ fuel
        → (w₁ : W) × (w' : W) × (log w₁ ≡ log w ++ bytes)
          × Gives w₁ pieces w'
          × (https_exchange sys lib fuel c (some bytes) true w
              ≡ some (pos 0, some (joined [] pieces), (clear_log c, w')))
    unfolding ssl_send_and_receive
    https_exchange-answered log fuel c bytes pieces w f s b n small h gives m l =
        let (ret, w₁, d, q) =
          ssl_write_all-taken log (length bytes) (pos 0) bytes (clear_log c) w h (omega arith)
            small in
        let (w', g) = gives w₁ q in
        let r = ssl_read_message-Gives fuel ret [] pieces (clear_log c) w₁ w' g m l in
        let full : is_empty bytes ≡ false = ground arith in
        (
          w₁,
          w',
          q,
          g,
          https_exchange-open fuel c bytes w f s b full
              ∙ rw (ap (λ x. x.0) d, ap (λ x. x.1) d, ap (λ x. x.2) d, r) refl,
        )
