-- ===== src/Http/Exchanged.antt =====
-- The texts that the exchanges of http/tcp_conn.cc and http/https_client.cc give to `HttpOp`.
use tinyco.Prelude.{
  ℕ, ◌<◌, ◌≡◌, ap, ◌∙◌, inl, inr, Bool, true, false, Option, none, some, [], arith, Bool-cases,
  Option-cases, length, take, ℤ, pos, negsuc, is_neg, Bytes, is_empty,
}
use tinyco.Http.Parser.{ParserLib}
use tinyco.Http.Conn.{
  System, State, deliver, send_and_receive, ensure_open, send_all, to_send, recv_until,
}
use tinyco.Http.Https.{SslSystem, HttpsClient, Client, clear_log}
use tinyco.Http.Check.{check_http, http_check_complete, eq_int, hpc_ok}
use tinyco.Http.Client.{client_exchange}
use tinyco.Http.Secure.{
  https_exchange, ssl_send_and_receive, ssl_write_all, ssl_read_message, result,
}
use tinyco.Http.Delivery.{send_and_receive-delivers}
use tinyco.Http.Tls.{https_exchange-whole}

module _ {W : Type 0} (lib : ParserLib) (sys : System W) (tls : SslSystem W) (fuel : ℕ) where
  -- A text that an exchange of a request gave with 0. Over TLS it is a whole message; else it is a front
  -- part of a text of which `HttpCheckComplete` said this length, which is not 0.
  abbrev pub Exchanged : Bool → Bytes → Bytes → Type 0
  Exchanged true request text =
      (s : Client tls) × (s' : Client tls) × (https_exchange tls lib fuel s.0 (some request) true
          s.1
        ≡ some (pos 0, some text, s'))
      × (eq_int hpc_ok (check_http lib text).0 ≡ true)
  Exchanged false request text =
      (s : State sys) × (s' : State sys) × (client_exchange sys lib fuel (some request) true s
        ≡ some (pos 0, some text, s'))
      × (all : Bytes) × (n : ℕ) × (http_check_complete lib all ≡ pos n)
      × (0 < n)
      × (text ≡ take n all)

  -- An exchange whose code is not negative: the code is 0, and there is a text.
  abbrev WithText : ℤ → Option Bytes → Type 0
  WithText ret out = (ret ≡ pos 0) × ((text : Bytes) × (out ≡ some text))

  deliver-WithText :
      (eof : Option (ℤ × Bytes)) (ret : ℤ) (out : Option Bytes) (s s' : State sys)
      → deliver sys eof s ≡ (ret, out, s')
      → is_neg ret ≡ false
      → WithText ret out
  unfolding deliver
  deliver-WithText none ret out (c, w) s' e z = absurd (ground arith)
  deliver-WithText (some (pos n, all)) ret out (c, w) s' e z =
      (ground arith, (take n all, ground arith))
  deliver-WithText (some (negsuc n, all)) ret out (c, w) s' e z = absurd (ground arith)

  client_exchange-WithText :
      (bytes : Bytes) (ret : ℤ) (out : Option Bytes) (s s' : State sys)
      → client_exchange sys lib fuel (some bytes) true s ≡ some (ret, out, s')
      → is_neg ret ≡ false
      → WithText ret out
  unfolding client_exchange send_and_receive
  client_exchange-WithText bytes ret out s s' e z = elim (Bool-cases (is_empty bytes)) [
    | inl b ↦ absurd (ground arith)
    | inr b ↦ elim (Option-cases (ensure_open sys s).0) [
      | inl o ↦ absurd (ground arith)
      | inr (n, o) ↦
          let sent = send_all sys (length bytes) n (to_send bytes) (ensure_open sys s).1 in
          elim (Bool-cases sent.0) [
            | inr d ↦ absurd (ground arith)
            | inl d ↦
                elim (Option-cases (recv_until sys (http_check_complete lib) fuel n [] sent.1)) [
                  | inl r ↦ absurd (ground arith)
                  | inr (x, r) ↦ deliver-WithText x.0 ret out x.1 s' (ground arith) z
                ]
          ]
    ]
  ]

  pub client_exchange-Exchanged :
      (bytes : Bytes) (ret : ℤ) (out : Option Bytes) (s s' : State sys)
      → client_exchange sys lib fuel (some bytes) true s ≡ some (ret, out, s')
      → is_neg ret ≡ false
      → (text : Bytes) × (out ≡ some text) × Exchanged false bytes text
  unfolding client_exchange
  client_exchange-Exchanged bytes ret out s s' e z =
      let (r, (text, o)) = client_exchange-WithText bytes ret out s s' e z in
      let e' = e ∙ ap (λ x. some (x, out, s')) r ∙ ap (λ x. some (pos 0, x, s')) o in
      let (all, n, f, p, q) =
        send_and_receive-delivers sys (http_check_complete lib) fuel bytes text s s' e' in
      (text, o, (s, s', e', all, n, f, p, q))

  result-WithText :
      (done : Bool) (s : Client tls) (a : Option (Option Bytes × Client tls)) (ret : ℤ)
      (out : Option Bytes) (s' : Client tls)
      → result tls lib done s a ≡ some (ret, out, s')
      → is_neg ret ≡ false
      → WithText ret out
  result-WithText false s a ret out s' e z = absurd (ground arith)
  result-WithText true s none ret out s' e z = absurd (ground arith)
  result-WithText true s (some (none, t)) ret out s' e z = absurd (ground arith)
  result-WithText true s (some (some all, t)) ret out s' e z = (ground arith, (all, ground arith))

  https_exchange-WithText :
      (c : HttpsClient) (bytes : Bytes) (ret : ℤ) (out : Option Bytes) (w : W) (s' : Client tls)
      → https_exchange tls lib fuel c (some bytes) true w ≡ some (ret, out, s')
      → is_neg ret ≡ false
      → WithText ret out
  unfolding https_exchange ssl_send_and_receive
  https_exchange-WithText c bytes ret out w s' e z =
      let sent : Bool × ℤ × Client tls =
        ssl_write_all tls (length bytes) (pos 0) bytes (clear_log c, w) in
      let answered : result tls lib sent.0 sent.2 (ssl_read_message tls lib fuel sent.1 [] sent.2)
          ≡ some (ret, out, s') =
        ground arith in
      result-WithText sent.0 sent.2 (ssl_read_message tls lib fuel sent.1 [] sent.2) ret out s'
        answered z

  pub https_exchange-Exchanged :
      (c : HttpsClient) (bytes : Bytes) (ret : ℤ) (out : Option Bytes) (w : W) (s' : Client tls)
      → https_exchange tls lib fuel c (some bytes) true w ≡ some (ret, out, s')
      → is_neg ret ≡ false
      → (text : Bytes) × (out ≡ some text) × Exchanged true bytes text
  https_exchange-Exchanged c bytes ret out w s' e z =
      let (r, (text, o)) = https_exchange-WithText c bytes ret out w s' e z in
      let e' = e ∙ ap (λ x. some (x, out, s')) r ∙ ap (λ x. some (pos 0, x, s')) o in
      (text, o, ((c, w), s', e', https_exchange-whole tls lib fuel c bytes text w s' e'))
