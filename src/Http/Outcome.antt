-- ===== src/Http/Outcome.antt =====
-- The results of `HttpOp`, http/http_op.cc.
use tinyco.Prelude.{
  ℕ, ◌%◌, ◌^◌, ◌≡◌, ap, ◌∙◌, inl, inr, Bool, true, false, Option, none, some, arith, Bool-cases,
  Option-cases, ℤ, pos, is_neg, Bytes,
}
use tinyco.Http.Url.{Url, empty_url, parse_url, is_https}
use tinyco.Http.Request.{HttpRequest, serialize_to_string}
use tinyco.Http.Response.{HttpResponse}
use tinyco.Http.Parser.{ParserLib, parse_http_response}
use tinyco.Http.Conn.{System, TcpConn, tcp_conn_new}
use tinyco.Http.Https.{SslSystem, https_client_new}
use tinyco.Http.Client.{client_exchange, client_init, client_timeouts}
use tinyco.Http.Secure.{https_init, https_exchange}
use tinyco.Http.Exchanged.{Exchanged, client_exchange-Exchanged, https_exchange-Exchanged}
use tinyco.Http.Op.{
  Net, Answer, read_answer, http_send_and_receive, https_send_and_receive, http_request,
  https_request, http_op, fix_url,
}

module _ {W : Type 0} (lib : ParserLib) (sys : System W) (tls : SslSystem W) (fuel : ℕ) where
  -- A response that was parsed from the text of an exchange of the request.
  abbrev pub FromText : Bool → Bytes → HttpResponse → HttpResponse → Type 0
  FromText secure request hr hr' =
      (text : Bytes) × Exchanged lib sys tls fuel secure request text
      × (parse_http_response lib text hr ≡ some (pos 0, hr'))

  -- An answer whose code is not negative has the text of an exchange of the request.
  abbrev Delivers : Bool → Bytes → Answer lib sys tls fuel → Type 0
  Delivers secure request none = Unit
  Delivers secure request (some (ret, out, n)) =
      is_neg ret ≡ false
      → (text : Bytes) × (out ≡ some text) × Exchanged lib sys tls fuel secure request text

  http-Delivers :
      (memory : TcpConn) (ip port : ℕ) (text : Bytes) (n : Net W)
      → Delivers false text (http_send_and_receive lib sys tls fuel memory ip port text n)
  unfolding http_send_and_receive
  http-Delivers memory ip port text n =
      let init = client_init sys client_timeouts ip (port % 2 ^ 16) (tcp_conn_new memory, n.net) in
      elim (Bool-cases (is_neg init.0)) [
        | inl i ↦ rw i (λ z. absurd (ground arith))
        | inr i ↦ elim (Option-cases (client_exchange sys lib fuel (some text) true init.1)) [
          | inl x ↦ rw (i, x) tt
          | inr ((ret, out, s'), x) ↦
              rw (i, x)
                (λ z. elim (Bool-cases (is_neg ret)) [
                  | inl k ↦ absurd (ground arith)
                  | inr k ↦ client_exchange-Exchanged lib sys tls fuel text ret out init.1 s' x k
                ])
        ]
      ]

  https-Delivers :
      (ip port : ℕ) (text : Bytes) (n : Net W)
      → Delivers true text (https_send_and_receive lib sys tls fuel ip port text n)
  unfolding https_send_and_receive
  https-Delivers ip port text n =
      let init =
        https_init tls ip (port % 2 ^ 16) (pos 1000) (pos 5000) (pos 500) (https_client_new n.ctx)
          n.net in
      elim (Bool-cases (is_neg init.0)) [
        | inl i ↦ rw i (λ z. absurd (ground arith))
        | inr i ↦
            elim (Option-cases (https_exchange tls lib fuel init.1.0 (some text) true init.1.1)) [
              | inl x ↦ rw (i, x) tt
              | inr ((ret, out, s'), x) ↦
                  rw (i, x)
                    (λ z. elim (Bool-cases (is_neg ret)) [
                      | inl k ↦ absurd (ground arith)
                      | inr k ↦
                          https_exchange-Exchanged lib sys tls fuel init.1.0 text ret out init.1.1
                            s' x k
                    ])
            ]
      ]

  read_answer-FromText :
      (secure : Bool) (request : Bytes) (a : Answer lib sys tls fuel) (hr hr' : HttpResponse)
      (n : Net W)
      → Delivers secure request a
      → read_answer lib sys tls fuel hr a ≡ some (pos 0, hr', n)
      → FromText secure request hr hr'
  unfolding read_answer
  read_answer-FromText secure request none hr hr' n d e = absurd (ground arith)
  read_answer-FromText secure request (some (ret, out, m)) hr hr' n d e =
      elim (Bool-cases (is_neg ret)) [
        | inl r ↦ absurd (ground arith)
        | inr r ↦
            let (text, o, whole) = d r in
            elim (Option-cases (parse_http_response lib text hr)) [
              | inl p ↦ absurd (ground arith)
              | inr (x, p) ↦ elim (Bool-cases (is_neg x.0)) [
                | inl c ↦ absurd (ground arith)
                | inr c ↦
                    let code : x.0 ≡ pos 0 = ground arith in
                    let made : x.1 ≡ hr' = ground arith in
                    (
                      text,
                      whole,
                      p ∙ (ap (λ z. some (z, x.1)) code ∙ ap (λ z. some (pos 0, z)) made),
                    )
              ]
            ]
      ]

  http_request-FromText :
      (memory : TcpConn) (ip port : ℕ) (q : HttpRequest) (hr hr' : HttpResponse) (n n' : Net W)
      → http_request lib sys tls fuel memory ip port q hr n ≡ some (pos 0, hr', n')
      → FromText false (serialize_to_string q) hr hr'
  unfolding http_request
  http_request-FromText memory ip port q hr hr' n n' e =
      read_answer-FromText false (serialize_to_string q)
        (http_send_and_receive lib sys tls fuel memory ip port (serialize_to_string q) n) hr hr' n'
        (http-Delivers memory ip port (serialize_to_string q) n) e

  https_request-FromText :
      (ip port : ℕ) (q : HttpRequest) (hr hr' : HttpResponse) (n n' : Net W)
      → https_request lib sys tls fuel ip port q hr n ≡ some (pos 0, hr', n')
      → FromText true (serialize_to_string q) hr hr'
  unfolding https_request
  https_request-FromText ip port q hr hr' n n' e =
      read_answer-FromText true (serialize_to_string q)
        (https_send_and_receive lib sys tls fuel ip port (serialize_to_string q) n) hr hr' n'
        (https-Delivers ip port (serialize_to_string q) n) e

  -- If `HttpGet` or `HttpPost`, whatever request they make of the parsed URL, return 0, then an exchange of
  -- the text of this request, over TLS if the URL is for https and else on a plain socket, gave 0 and a
  -- text, and the response is what http-parser makes of this text. The text of TLS is a whole message; the
  -- other is a front part, not empty, of a text of which `HttpCheckComplete` said this length.
  pub http_op-FromText :
      (resolve : Bytes → W → Option ℕ × W) (memory : TcpConn) (make : Url → HttpRequest)
      (url : Bytes) (hr hr' : HttpResponse) (n n' : Net W)
      → http_op lib sys tls fuel resolve memory make url hr n ≡ some (pos 0, hr', n')
      → (code : ℤ) × (u : Url) × (parse_url lib.find_url lib.unescape (fix_url url) empty_url
          ≡ some (code, u))
        × (is_neg code ≡ false)
        × FromText (is_https u) (serialize_to_string (make u)) hr hr'
  unfolding http_op
  http_op-FromText resolve memory make url hr hr' n n' e =
      elim (Option-cases (parse_url lib.find_url lib.unescape (fix_url url) empty_url)) [
        | inl p ↦ absurd (ground arith)
        | inr (x, p) ↦ elim (Bool-cases (is_neg x.0)) [
          | inl c ↦ absurd (ground arith)
          | inr c ↦ elim (Option-cases (resolve x.1.host n.net).0) [
            | inl r ↦ absurd (ground arith)
            | inr (ip, r) ↦
                let n₁ : Net W = record n { net = (resolve x.1.host n.net).1 } in
                let port : ℕ = x.1.port % 2 ^ 16 in
                elim (Bool-cases (is_https x.1)) [
                  | inl s ↦ (
                    x.0,
                    x.1,
                    p,
                    c,
                    rw s (https_request-FromText ip port (make x.1) hr hr' n₁ n' (ground arith)),
                  )
                  | inr s ↦ (
                    x.0,
                    x.1,
                    p,
                    c,
                    rw s (
                        http_request-FromText memory ip port (make x.1) hr hr' n₁ n'
                          (ground arith)),
                  )
                ]
          ]
        ]
      ]
