-- ===== src/Http/Secure.antt =====
-- `HttpsClient::Init` and `SendAndReceive` of http/https_client.cc.
use tinyco.Prelude.{
  ℕ, zero, suc, Bool, true, false, not, ◌||◌, Option, none, some, [], ◌∷◌, ◌++◌, ltb, ◌==◌,
  if◌then◌else◌, length, drop, ℤ, pos, negsuc, neg, is_neg, is_pos, Bytes, codes, is_empty,
}
use tinyco.Http.Check.{as_int, check_http, eq_int, hpc_ok, hpc_not_complete_http}
use tinyco.Http.Parser.{ParserLib}
use tinyco.Http.Server.{got, closed, failed}
use tinyco.Http.Decimal.{to_decimal}
use tinyco.Http.Https.{SslSystem, HttpsClient, Client, erred, clear_log, create_socket, https_close}

-- max_recvlen.
abbrev pub max_recvlen : ℕ
max_recvlen = 5120

-- `n < k` of `int`s, of which `k` is not negative.
unfoldable pub below : ℤ → ℕ → Bool
below (pos n) k = ltb n k
below (negsuc n) k = true

-- `SSTR` of an `int`.
unfoldable pub sstr : ℤ → Bytes
sstr (pos n) = to_decimal n
sstr (negsuc n) = b'-' ∷ to_decimal (suc n)

module _ {W : Type 0} (sys : SslSystem W) where
  -- The label `end` of `Init`.
  unfoldable pub fail : HttpsClient → W → ℤ × Client sys
  fail c w = (neg 2, https_close sys c w)

  -- The part of `Init` behind `Frame::connect`.
  unfoldable pub handshake : HttpsClient → W → ℤ × Client sys
  unfolding fail
  handshake c w =
      let (made, w₁) = sys.ssl_new w in
      let c₁ = record c { ssl = true } in
      let (ret, w₂) = sys.ssl_connect w₁ in
      if not made
      then fail (erred (codes "SSL_new error") (record c { ssl = false })) w₁
      else if is_pos ret
      then (pos 0, (c₁, w₂))
      else fail (erred (codes "SSL_connect error, error code = " ++ sstr (sys.ssl_get_error w₂)) c₁)
          w₂

  unfoldable pub connect_tls : ℕ → ℕ → ℕ → HttpsClient → W → ℤ × Client sys
  unfolding handshake fail
  connect_tls fd ip port c w =
      let c₁ = record c {
        strlog =
            c.strlog
            ++ (codes "HttpsClient connect to "
                ++ (sys.inet_ntoa ip ++ (codes ":" ++ to_decimal port)));
      } in
      let (ret, w₁) = sys.connect fd ip port w in
      if is_neg ret
      then fail (erred (codes "tinyco::connect error: strerror(errno)") c₁) w₁
      else handshake c₁ w₁

  -- The context, which all clients share, is made if it is not there.
  unfoldable pub init_ctx : ℕ → ℕ → ℕ → HttpsClient → W → ℤ × Client sys
  unfolding connect_tls fail
  init_ctx fd ip port c w =
      let (made, w₁) = sys.ctx_new w in
      if c.ctx
      then connect_tls fd ip port c w
      else if made
      then connect_tls fd ip port (record c { ctx = true }) w₁
      else fail (erred (codes "SSL_CTX_new error") c) w₁

  -- The part of `Init` behind `CreateSocket`, by what that returned.
  unfoldable pub init_tls : ℤ → ℕ → ℕ → HttpsClient → W → ℤ × Client sys
  unfolding init_ctx fail
  init_tls (negsuc k) ip port c w =
      (neg 1, (erred (codes "CreateSocket error") (record c { https_fd = negsuc k }), w))
  init_tls (pos fd) ip port c w =
      let (made, w₁) = sys.bio_new w in
      let c₁ = record c { https_fd = pos fd } in
      if made
      then init_ctx fd ip port (record c₁ { bio = true }) w₁
      else fail (record c₁ { bio = false }) w₁

  -- `Init`.
  unfoldable pub https_init : ℕ → ℕ → ℤ → ℤ → ℤ → HttpsClient → W → ℤ × Client sys
  unfolding init_tls clear_log
  https_init ip port ct rt wt c w =
      let c₁ = record (clear_log c) {
        ms_connect_timeout = ct;
        ms_read_timeout = rt;
        ms_write_timeout = wt;
      } in
      let (fd, (c₂, w₁)) = create_socket sys (c₁, w) in init_tls fd ip port c₂ w₁

  -- The text for a call that failed; `ret` is the variable of `SslSendAndReceive`.
  unfoldable call_error : Bytes → ℤ → W → Bytes
  call_error name ret w =
      name
      ++ (sstr (sys.ssl_get_error w)
          ++ (codes "|ret = "
              ++ (sstr ret
                  ++ (codes "|errno = "
                      ++ (sstr (sys.errno w) ++ (codes "|strerror = " ++ sys.strerror w))))))

  -- The loop over `SSL_write`: whether all was written, and `ret`. `fuel` is the length of the text.
  unfoldable pub ssl_write_all : ℕ → ℤ → Bytes → Client sys → Bool × ℤ × Client sys
  unfolding call_error below
  ssl_write_all zero ret left s = (is_empty left, ret, s)
  ssl_write_all (suc fuel) ret [] s = (true, ret, s)
  ssl_write_all (suc fuel) ret (b ∷ left) (c, w) =
      let (r, w₁) = sys.ssl_write (as_int (length (b ∷ left))) (b ∷ left) w in
      let refused : Bool × ℤ × Client sys =
        (false, r, (erred (call_error (codes "SSL_write error, error code = ") r w₁) c, w₁)) in
      elim r [
        | negsuc _ ↦ refused
        | pos k ↦
            let rest = ssl_write_all fuel (pos k) (drop k (b ∷ left)) (c, w₁) in
            if k == 0
            then refused
            else if below (as_int (length (b ∷ left))) k
            then (
              false,
              pos k,
              (
                erred
                    (codes "SSL_write error, left = "
                      ++ (to_decimal (length (b ∷ left)) ++ (codes "|ret = " ++ to_decimal k)))
                    c,
                w₁,
              ),
            )
            else rest
      ]

  module _ (lib : ParserLib) where
    -- The loop over `SSL_read`: the message, where there is one. `none` is a loop that goes on behind
    -- `fuel` reads. A failed read is logged with the result of the last `SSL_write`.
    unfoldable pub ssl_read_message :
        ℕ → ℤ → Bytes → Client sys → Option (Option Bytes × Client sys)
    unfolding call_error
    ssl_read_message zero ret real_buf s = none
    ssl_read_message (suc fuel) ret real_buf (c, w) =
        let (r, w₁) = sys.ssl_read max_recvlen w in
        let refused = erred (call_error (codes "SSL_read error, error code = ") ret w₁) c in
        elim r [
          | closed ↦ some (none, (refused, w₁))
          | failed ↦ some (none, (refused, w₁))
          | got bs ↦
              let all = real_buf ++ bs in
              let rest = ssl_read_message fuel ret all (c, w₁) in
              let (code, _) = check_http lib all in
              if eq_int hpc_ok code
              then some (some all, (c, w₁))
              else if eq_int hpc_not_complete_http code
              then rest
              else some (none, (c, w₁))
        ]

    -- The end of the call, by whether all was written and what was read.
    abbrev pub result :
        Bool
        → Client sys
        → Option (Option Bytes × Client sys)
        → Option (ℤ × Option Bytes × Client sys)
    result false s a = some (neg 1, none, s)
    result true s none = none
    result true s (some (none, s')) = some (neg 1, none, s')
    result true s (some (some all, s')) = some (pos 0, some all, s')

    -- `SslSendAndReceive`.
    unfoldable pub ssl_send_and_receive :
        ℕ → Bytes → Client sys → Option (ℤ × Option Bytes × Client sys)
    unfolding ssl_write_all ssl_read_message
    ssl_send_and_receive fuel bytes s =
        let (done, ret, s₁) = ssl_write_all (length bytes) (pos 0) bytes s in
        result done s₁ (ssl_read_message fuel ret [] s₁)

    -- `SendAndReceive`; a buffer that is null is `none`, and `output` is false for a null `recvbuf`.
    unfoldable pub https_exchange :
        ℕ → HttpsClient → Option Bytes → Bool → W → Option (ℤ × Option Bytes × Client sys)
    unfolding ssl_send_and_receive clear_log
    https_exchange fuel c none output w =
        some (neg 1, none, (erred (codes "invalid parameters") (clear_log c), w))
    https_exchange fuel c (some bytes) output w =
        let r = ssl_send_and_receive fuel bytes (clear_log c, w) in
        let refused : Client sys = (erred (codes "invalid parameters") (clear_log c), w) in
        if is_neg c.https_fd || (not c.ssl || not c.bio)
        then some (neg 1, none, refused)
        else if is_empty bytes || not output
        then some (neg 1, none, refused)
        else r
