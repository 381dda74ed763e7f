-- ===== src/Http/Op.antt =====
-- `HttpOp` of http/http_op.h and .cc: a GET or POST of a URL, over HTTP or HTTPS. The resolver is a
-- parameter, as it is an argument in the code.
use tinyco.Prelude.{
  ℕ, ◌%◌, ◌^◌, Bool, true, false, not, ◌&&◌, Option, none, some, [], ◌∷◌, ◌++◌, ◌==◌, if◌then◌else◌,
  ℤ, pos, neg, is_neg, Bytes, codes, value_or,
}
use tinyco.Http.Headers.{Headers}
use tinyco.Http.Url.{Url, empty_url, parse_url, is_https}
use tinyco.Http.Request.{
  HttpRequest, http_request_new, set_header, set_method, set_uri, set_content, serialize_to_string,
  method_get, method_post,
}
use tinyco.Http.Response.{HttpResponse}
use tinyco.Http.Parser.{ParserLib, parse_http_response}
use tinyco.Http.Conn.{System, TcpConn, tcp_conn_new, close}
use tinyco.Http.Client.{client_timeouts, client_init, client_exchange}
use tinyco.Http.Https.{SslSystem, https_client_new, https_close}
use tinyco.Http.Secure.{https_init, https_exchange}

-- `ErrorCode`.
abbrev pub ec_none : ℤ
ec_none = pos 0

abbrev pub ec_dns_resolve_error : ℤ
ec_dns_resolve_error = neg 1

abbrev pub ec_init_error : ℤ
ec_init_error = neg 2

abbrev pub ec_send_and_receive_error : ℤ
ec_send_and_receive_error = neg 3

abbrev pub ec_response_error : ℤ
ec_response_error = neg 4

abbrev pub ec_unknown : ℤ
ec_unknown = neg 5

-- `url.compare(0, sizeof(p) - 1, p) == 0`.
unfoldable pub has_front : Bytes → Bytes → Bool
has_front [] s = true
has_front (c ∷ p) [] = false
has_front (c ∷ p) (d ∷ s) = c == d && has_front p s

unfoldable pub fix_url : Bytes → Bytes
unfolding has_front
fix_url url =
    if not (has_front (codes "http://") url) && not (has_front (codes "https://") url)
    then codes "http://" ++ url
    else url

-- The loop over `extra_headers`.
unfoldable pub add_headers : Headers → HttpRequest → HttpRequest
unfolding set_header
add_headers [] r = r
add_headers ((f, v) ∷ hs) r = add_headers hs (set_header f v r)

-- The requests of `HttpGet` and `HttpPost`.
unfoldable pub get_request : Url → Headers → HttpRequest
unfolding add_headers
get_request u extra =
    add_headers extra
      (set_uri u.uri (set_method method_get (set_header (codes "Host") u.host http_request_new)))

unfoldable pub post_request : Url → Headers → Bytes → HttpRequest
unfolding add_headers
post_request u extra content = add_headers extra (
    set_content content
      (set_header (codes "Host") u.host (set_uri u.uri (set_method method_post http_request_new))))

-- The outside: HttpsClient's static `ctx_`, and the rest.
pub record Net (W : Type 0) : Type 0 where
  pub ctx : Bool
  pub net : W

module _ {W : Type 0} (lib : ParserLib) (sys : System W) (tls : SslSystem W) (fuel : ℕ) where
  -- An exchange of texts: the code, the text received, and the outside; `none` is an endless loop.
  abbrev pub Answer : Type 0
  Answer = Option (ℤ × Option Bytes × Net W)

  -- `__HttpSendAndReveive`: the client is local, and closed at the end. Its members begin as `memory`.
  unfoldable pub http_send_and_receive : TcpConn → ℕ → ℕ → Bytes → Net W → Answer
  http_send_and_receive memory ip port sendbuf n =
      let (ret, s) =
        client_init sys client_timeouts ip (port % 2 ^ 16) (tcp_conn_new memory, n.net) in
      if is_neg ret
      then some (ec_init_error, none, record n { net = (close sys s).1 })
      else elim (client_exchange sys lib fuel (some sendbuf) true s) [
        | none ↦ none
        | some (ret', out, s') ↦ some (
          (if is_neg ret' then ec_send_and_receive_error else ret'),
          out,
          record n { net = (close sys s').1 },
        )
      ]

  -- `__HttpsSendAndReveive`.
  unfoldable pub https_send_and_receive : ℕ → ℕ → Bytes → Net W → Answer
  https_send_and_receive ip port sendbuf n =
      let (ret, (c, w)) =
        https_init tls ip (port % 2 ^ 16) (pos 1000) (pos 5000) (pos 500) (https_client_new n.ctx)
          n.net in
      if is_neg ret
      then some (ec_init_error, none, record { ctx = c.ctx; net = (https_close tls c w).1 })
      else elim (https_exchange tls lib fuel c (some sendbuf) true w) [
        | none ↦ none
        | some (ret', out, (c', w')) ↦ some (
          (if is_neg ret' then ec_send_and_receive_error else ret'),
          out,
          record { ctx = c'.ctx; net = (https_close tls c' w').1 },
        )
      ]

  -- A request's result: the code, the response, and the outside; `none` is an exception or an endless
  -- loop.
  abbrev pub Result : Type 0
  Result = Option (ℤ × HttpResponse × Net W)

  -- What is made of the text received.
  unfoldable pub read_answer : HttpResponse → Answer → Result
  read_answer hr none = none
  read_answer hr (some (ret, out, n)) =
      let parsed = parse_http_response lib (value_or [] out) hr in
      if is_neg ret then some (ret, hr, n) else elim parsed [
        | none ↦ none
        | some (code, hr') ↦ some ((if is_neg code then ec_response_error else code), hr', n)
      ]

  -- `__HttpRequest` and `HttpRequest`.
  unfoldable pub http_request : TcpConn → ℕ → ℕ → HttpRequest → HttpResponse → Net W → Result
  unfolding read_answer http_send_and_receive
  http_request memory ip port q hr n =
      read_answer hr (http_send_and_receive memory ip port (serialize_to_string q) n)

  -- `__HttpsRequest` and `HttpsRequest`.
  unfoldable pub https_request : ℕ → ℕ → HttpRequest → HttpResponse → Net W → Result
  unfolding read_answer https_send_and_receive
  https_request ip port q hr n =
      read_answer hr (https_send_and_receive ip port (serialize_to_string q) n)

  module _ (resolve : Bytes → W → Option ℕ × W) (memory : TcpConn) where
    -- What `HttpGet` and `HttpPost` share, with the request that they make of the URL.
    unfoldable pub http_op : (Url → HttpRequest) → Bytes → HttpResponse → Net W → Result
    unfolding http_request https_request
    http_op make url hr n = elim (parse_url lib.find_url lib.unescape (fix_url url) empty_url) [
      | none ↦ none
      | some (ret, u) ↦
          let (found, w) = resolve u.host n.net in
          let n₁ = record n { net = w } in
          if is_neg ret then some (ec_unknown, hr, n) else elim found [
            | none ↦ some (ec_dns_resolve_error, hr, n₁)
            | some ip ↦
                if is_https u
                then https_request ip (u.port % 2 ^ 16) (make u) hr n₁
                else http_request memory ip (u.port % 2 ^ 16) (make u) hr n₁
          ]
    ]

    -- `HttpGet`.
    unfoldable pub http_get : Bytes → Headers → HttpResponse → Net W → Result
    unfolding http_op get_request
    http_get url extra hr n = http_op (λ u. get_request u extra) url hr n

    -- `HttpPost`.
    unfoldable pub http_post : Bytes → Headers → Bytes → HttpResponse → Net W → Result
    unfolding http_op post_request
    http_post url extra content hr n = http_op (λ u. post_request u extra content) url hr n
