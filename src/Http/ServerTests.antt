-- ===== src/Http/ServerTests.antt =====
-- Examples for the server's loop and `CheckHttp`.
use tinyco.Prelude.{
  ℕ, zero, suc, ◌<◌, ◌≡◌, refl, false, some, [], ◌∷◌, arith, take, pos, Bytes, codes,
}
use tinyco.Http.Request.{HttpRequest, http_request_new, set_method, is_header, get_header}
use tinyco.Http.Response.{http_response_new}
use tinyco.Http.Parser.{
  ParserLib, Parsed, http_get, set_pairs, apply_connection, to_lower, on_header_field,
  on_header_value, connection, finish_request, parse_http_request, on_request,
}
use tinyco.Http.Check.{check_http, check_pkg, pkg_code, as_int}
use tinyco.Http.Server.{Received, got, Work, Buffer, shift, returned, overrun, round, run}
use tinyco.Http.Run.{round-overrun}
use tinyco.Http.Stream.{stream, IsSegment, run-stream}
use tinyco.Http.Tests.{toy}

-- How many bytes the parser takes.
abbrev three : ℕ
three = 3

-- A peer that sends one byte at a time, and one that sends two bytes whenever it is asked.
abbrev one_byte : ℕ → Bytes → ℕ
one_byte n t = 1

abbrev two_bytes : ℕ → Bytes → Received × Bytes
two_bytes n w = (got (codes "xy"), w)

abbrev no_service : Work Bytes → Work Bytes
no_service w = w

abbrev idle : Work Bytes
idle = record { hreq = http_request_new; hrsp = http_response_new; world = [] }

abbrev small : Buffer
small = record { req = b'a' ∷ b'b' ∷ 0 ∷ 0 ∷ []; recvd = 2 }

abbrev full : Buffer
full = record { req = codes "abcd"; recvd = 4 }

round-overrun_example : round toy two_bytes no_service (shift 3 full) idle ≡ overrun
round-overrun_example =
    round-overrun toy two_bytes no_service 3 full idle (codes "xy") [] (omega arith) (omega arith)
      (omega arith) refl (omega arith)

one_byte-IsSegment : IsSegment one_byte
one_byte-IsSegment n t p q = (omega arith, omega arith, omega arith)

-- A parser that reports a header Connection only.
abbrev closing : Parsed
closing = record {
  events = on_header_field connection ∷ on_header_value (codes "close") ∷ [];
  nparsed = 3;
  verb = http_get;
  status_code = 200;
}

abbrev plain : ParserLib
plain = record toy { execute_request = λ s. closing }

abbrev last_request : HttpRequest
last_request = finish_request plain closing (connection ∷ codes "close" ∷ []) http_request_new

plain_parse : parse_http_request plain (codes "abc") http_request_new ≡ some (pos 0, last_request)
unfolding parse_http_request on_request
plain_parse = refl

plain_last : last_request.keepalive ≡ false
unfolding finish_request http_request_new set_pairs apply_connection to_lower set_method is_header
    get_header
plain_last = refl

-- The message of three bytes is whole with its last byte only.
plain_early : (n : ℕ) → 0 < n → n < 3 → check_pkg plain (take n (codes "abc")) ≡ pos 0
unfolding check_pkg pkg_code check_http
plain_early zero p l = absurd (omega arith)
plain_early (suc zero) p l = refl
plain_early (suc (suc zero)) p l = refl
plain_early (suc (suc (suc n))) p l = absurd (omega arith)

plain_whole : check_pkg plain (codes "abc") ≡ pos 3
unfolding check_pkg pkg_code check_http as_int
plain_whole = refl

run-stream_example :
    run plain
      (stream one_byte)
      no_service
      3
      (record { hreq = http_request_new; hrsp = http_response_new; world = codes "abc" })
    ≡ some (returned (pos 0) (record { hreq = last_request; hrsp = http_response_new; world = [] }))
run-stream_example =
    run-stream plain one_byte no_service (codes "abc") http_request_new last_request
      http_response_new one_byte-IsSegment plain_early plain_whole plain_parse plain_last
      (omega arith)
