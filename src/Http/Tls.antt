-- ===== src/Http/Tls.antt =====
-- What `HttpsClient::Init` and `SendAndReceive` of http/https_client.cc promise.
use tinyco.Prelude.{
  ℕ, zero, suc, ◌≡◌, refl, ◌⊎◌, inl, inr, Bool, true, false, not, Option, none, some, [], ◌++◌,
  arith, if◌then◌else◌, Bool-cases, length, ℤ, pos, negsuc, neg, is_neg, is_pos, Bytes, codes,
}
use tinyco.Http.Check.{check_http, eq_int, hpc_ok, hpc_not_complete_http}
use tinyco.Http.Parser.{ParserLib}
use tinyco.Http.Delivery.{Received-cases}
use tinyco.Http.Https.{SslSystem, HttpsClient, Client, erred, clear_log, https_close, create_socket}
use tinyco.Http.Decimal.{to_decimal}
use tinyco.Http.Secure.{
  sstr, max_recvlen, fail, handshake, connect_tls, init_ctx, init_tls, https_init, ssl_write_all,
  ssl_read_message, result, ssl_send_and_receive, https_exchange,
}

module _ {W : Type 0} (sys : SslSystem W) where
  module _ (lib : ParserLib) where
    ssl_read_message-whole :
        (fuel : ℕ) (ret : ℤ) (real_buf out : Bytes) (c : HttpsClient) (w : W) (s' : Client sys)
        → ssl_read_message sys lib fuel ret real_buf (c, w) ≡ some (some out, s')
        → eq_int hpc_ok (check_http lib out).0 ≡ true
    unfolding ssl_read_message
    ssl_read_message-whole zero ret real_buf out c w s' e = absurd (ground arith)
    ssl_read_message-whole (suc fuel) ret real_buf out c w s' e =
        elim (Received-cases (sys.ssl_read max_recvlen w).0) [
          | inl z ↦ absurd (ground arith)
          | inr (inl z) ↦ absurd (ground arith)
          | inr (inr (bs, z)) ↦
              elim (Bool-cases (eq_int hpc_ok (check_http lib (real_buf ++ bs)).0)) [
                | inl k ↦ ground arith
                | inr k ↦
                    elim (Bool-cases
                      (eq_int hpc_not_complete_http (check_http lib (real_buf ++ bs)).0)) [
                        | inl i ↦
                            ssl_read_message-whole fuel ret (real_buf ++ bs) out c
                              (sys.ssl_read max_recvlen w).1 s'
                              (rw (z, ssl_read_message, k, i) at e)
                        | inr i ↦ absurd (ground arith)
                      ]
              ]
        ]

    result-some :
        (done : Bool) (s s' : Client sys) (a : Option (Option Bytes × Client sys)) (out : Bytes)
        → result sys lib done s a ≡ some (pos 0, some out, s')
        → a ≡ some (some out, s')
    result-some false s s' a out e = absurd (ground arith)
    result-some true s s' none out e = absurd (ground arith)
    result-some true s s' (some (none, v)) out e = absurd (ground arith)
    result-some true s s' (some (some all, v)) out e = ground arith

    -- `SendAndReceive` with 0 gives a text that `CheckHttp` takes for a whole message.
    pub https_exchange-whole :
        (fuel : ℕ) (c : HttpsClient) (bytes out : Bytes) (w : W) (s' : Client sys)
        → https_exchange sys lib fuel c (some bytes) true w ≡ some (pos 0, some out, s')
        → eq_int hpc_ok (check_http lib out).0 ≡ true
    unfolding https_exchange ssl_send_and_receive
    https_exchange-whole fuel c bytes out w s' e =
        let sent : Bool × ℤ × Client sys =
          ssl_write_all sys (length bytes) (pos 0) bytes (clear_log c, w) in
        let answered : result sys lib sent.0 sent.2 (ssl_read_message sys lib fuel sent.1 [] sent.2)
            ≡ some (pos 0, some out, s') =
          ground arith in
        ssl_read_message-whole fuel sent.1 [] out sent.2.0 sent.2.1 s' (
          result-some sent.0 sent.2 s' (ssl_read_message sys lib fuel sent.1 [] sent.2) out
            answered)

  -- The results of `Init`.
  abbrev pub Settled : ℤ × Client sys → Type 0
  Settled r =
      ((r.0 ≡ pos 0) × (r.1.0.ssl ≡ true) × (r.1.0.bio ≡ true) × (is_neg r.1.0.https_fd ≡ false))
      ⊎ ((r.0 ≡ neg 2) × (r.1.0.ssl ≡ false) × (r.1.0.bio ≡ false) × (r.1.0.https_fd ≡ neg 1))
      ⊎ ((r.0 ≡ neg 1) × (is_neg r.1.0.https_fd ≡ true))

  fail-Settled : (c : HttpsClient) (w : W) → Settled (fail sys c w)
  unfolding fail https_close
  fail-Settled c w = inr (inl (refl, refl, refl, refl))

  if-Settled :
      (b : Bool) (x y : ℤ × Client sys) → Settled x → Settled y → Settled (if b then x else y)
  if-Settled true x y p q = p
  if-Settled false x y p q = q

  handshake-Settled :
      (c : HttpsClient) (w : W)
      → c.bio ≡ true
      → is_neg c.https_fd ≡ false
      → Settled (handshake sys c w)
  unfolding handshake
  handshake-Settled c w b f =
      let (made, w₁) = sys.ssl_new w in
      let (ret, w₂) = sys.ssl_connect w₁ in
      let c₁ : HttpsClient = record c { ssl = true } in
      let no_ssl : HttpsClient = erred (codes "SSL_new error") (record c { ssl = false }) in
      let refused : HttpsClient =
        erred (codes "SSL_connect error, error code = " ++ sstr (sys.ssl_get_error w₂)) c₁ in
      let done : Settled (pos 0, (c₁, w₂)) = inl (refl, refl, b, f) in
      if-Settled (not made) (fail sys no_ssl w₁)
        (if is_pos ret then (pos 0, (c₁, w₂)) else fail sys refused w₂) (fail-Settled no_ssl w₁)
        (if-Settled (is_pos ret) (pos 0, (c₁, w₂)) (fail sys refused w₂) done
          (fail-Settled refused w₂))

  connect_tls-Settled :
      (fd ip port : ℕ) (c : HttpsClient) (w : W)
      → c.bio ≡ true
      → is_neg c.https_fd ≡ false
      → Settled (connect_tls sys fd ip port c w)
  unfolding connect_tls
  connect_tls-Settled fd ip port c w b f =
      let (ret, w₁) = sys.connect fd ip port w in
      let c₁ : HttpsClient = record c {
        strlog =
            c.strlog
            ++ (codes "HttpsClient connect to "
                ++ (sys.inet_ntoa ip ++ (codes ":" ++ to_decimal port)));
      } in
      let refused : HttpsClient = erred (codes "tinyco::connect error: strerror(errno)") c₁ in
      if-Settled (is_neg ret) (fail sys refused w₁) (handshake sys c₁ w₁) (fail-Settled refused w₁)
        (handshake-Settled c₁ w₁ b f)

  init_ctx-Settled :
      (fd ip port : ℕ) (c : HttpsClient) (w : W)
      → c.bio ≡ true
      → is_neg c.https_fd ≡ false
      → Settled (init_ctx sys fd ip port c w)
  unfolding init_ctx
  init_ctx-Settled fd ip port c w b f =
      let (made, w₁) = sys.ctx_new w in
      let c₁ : HttpsClient = record c { ctx = true } in
      let refused : HttpsClient = erred (codes "SSL_CTX_new error") c in
      let other = if made then connect_tls sys fd ip port c₁ w₁ else fail sys refused w₁ in
      if-Settled c.ctx (connect_tls sys fd ip port c w) other
        (connect_tls-Settled fd ip port c w b f)
        (if-Settled made (connect_tls sys fd ip port c₁ w₁) (fail sys refused w₁)
          (connect_tls-Settled fd ip port c₁ w₁ b f) (fail-Settled refused w₁))

  init_tls-Settled :
      (fd : ℤ) (ip port : ℕ) (c : HttpsClient) (w : W) → Settled (init_tls sys fd ip port c w)
  unfolding init_tls
  init_tls-Settled (negsuc k) ip port c w = inr (inr (refl, refl))
  init_tls-Settled (pos fd) ip port c w =
      let (made, w₁) = sys.bio_new w in
      let with_bio : HttpsClient = record c { https_fd = pos fd; bio = true } in
      let without : HttpsClient = record c { https_fd = pos fd; bio = false } in
      if-Settled made (init_ctx sys fd ip port with_bio w₁) (fail sys without w₁)
        (init_ctx-Settled fd ip port with_bio w₁ refl refl) (fail-Settled without w₁)

  -- `Init` either returns 0, with the connection, its BIO and its descriptor there; or it returns -2 and
  -- none of them is; or it returns -1, when no socket could be made or set up.
  pub https_init-Settled :
      (ip port : ℕ) (ct rt wt : ℤ) (c : HttpsClient) (w : W)
      → Settled (https_init sys ip port ct rt wt c w)
  unfolding https_init
  https_init-Settled ip port ct rt wt c w =
      let c₁ : HttpsClient = record (clear_log c) {
        ms_connect_timeout = ct;
        ms_read_timeout = rt;
        ms_write_timeout = wt;
      } in
      let (fd, (c₂, w₁)) = create_socket sys (c₁, w) in init_tls-Settled fd ip port c₂ w₁
