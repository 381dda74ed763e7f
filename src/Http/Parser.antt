-- ===== src/Http/Parser.antt =====
-- `HttpParserImpl` of http/http_tool.cc, over http-parser, whose `http_parser_execute` is a parameter:
-- the callbacks that it makes, in their order, how many bytes it took, and what it says of them.
use tinyco.Prelude.{
  ℕ, ◌+◌, ◌%◌, ◌^◌, Bool, true, not, ◌&&◌, Option, none, some, List, [], ◌∷◌, ◌++◌, leb, ◌==◌,
  if◌then◌else◌, length, ℤ, pos, neg, Bytes, codes, eqb, insert,
}
use tinyco.Http.Headers.{Headers}
use tinyco.Http.Url.{UrlFields, parse_url}
use tinyco.Http.Request.{
  HttpRequest, set_uri, set_content, set_method, set_keep_alive, is_header, get_header, method_get,
  method_post, method_unknown,
}
use tinyco.Http.Response.{HttpResponse, set_content as response_content, set_status}

-- A callback with its text.
pub data Event : Type 0 where
  on_url on_header_field on_header_value on_body : Bytes → Event

-- `parser.method`.
pub data Method : Type 0 where
  http_get http_post http_other : Method

pub record Parsed : Type 0 where
  pub events : List Event
  pub nparsed : ℕ
  pub verb : Method
  pub status_code : ℕ

-- The libraries: http-parser with the settings of each use, and curl. A use for a check stops when the
-- message is complete.
pub record ParserLib : Type 0 where
  pub execute_request : Bytes → Parsed
  pub execute_head : Bytes → Parsed
  pub execute_response : Bytes → Parsed
  pub execute_check : Bytes → ℕ × Bool
  pub find_url : Bytes → Option UrlFields
  pub unescape : Bytes → Bytes

abbrev pub is_odd : ℕ → Bool
is_odd n = n % 2 == 1

-- `SetHeader(headers[i], headers[i + 1])` for all even `i`.
unfoldable pub set_pairs : List Bytes → Headers → Headers
set_pairs [] m = m
set_pairs (f ∷ []) m = m
set_pairs (f ∷ v ∷ ps) m = set_pairs ps (insert f v m)

-- `::tolower` on every byte.
unfoldable pub to_lower : Bytes → Bytes
to_lower [] = []
to_lower (c ∷ s) = (if leb b'A' c && leb c b'Z' then c + 32 else c) ∷ to_lower s

abbrev pub connection : Bytes
connection = codes "Connection"

unfoldable pub method_of : Method → ℕ
method_of http_get = method_get
method_of http_post = method_post
method_of http_other = method_unknown

-- The end of `ParseHttpRequest`: keep alive is set, and never taken back.
unfoldable pub apply_connection : HttpRequest → HttpRequest
apply_connection r =
    if is_header connection r
    then (if eqb (to_lower (get_header connection r)) (codes "keep-alive")
        then set_keep_alive true r
        else r)
    else set_keep_alive true r

module _ (lib : ParserLib) where
  -- The callbacks of a request: the pieces of the headers are collected, the rest goes to the request at
  -- once. `none` is an exception.
  unfoldable pub on_request :
      List Event → List Bytes → HttpRequest → Option (List Bytes × HttpRequest)
  unfolding parse_url set_uri set_content
  on_request [] pieces r = some (pieces, r)
  on_request (on_url s ∷ es) pieces r = elim (parse_url lib.find_url lib.unescape s r.uri) [
    | none ↦ none
    | some (_, u) ↦ on_request es pieces (record (set_uri s r) { uri = u })
  ]
  on_request (on_header_field s ∷ es) pieces r = on_request es (pieces ++ s ∷ []) r
  on_request (on_header_value s ∷ es) pieces r = on_request es (pieces ++ s ∷ []) r
  on_request (on_body s ∷ es) pieces r = on_request es pieces (set_content s r)

  unfoldable pub finish_request : Parsed → List Bytes → HttpRequest → HttpRequest
  finish_request p pieces r =
      apply_connection
        (set_method (method_of p.verb) (record r { headers = set_pairs pieces r.headers }))

  -- The result code and the request, which the callbacks have changed on an error, too.
  unfoldable pub parse_http_request : Bytes → HttpRequest → Option (ℤ × HttpRequest)
  unfolding on_request finish_request
  parse_http_request s r =
      let p = lib.execute_request s in
      elim (on_request p.events [] r) [
        | none ↦ none
        | some (pieces, q) ↦
            if not (p.nparsed == length s)
            then some (neg 1, q)
            else if is_odd (length pieces)
            then some (neg 2, q)
            else some (pos 0, finish_request p pieces q)
      ]

  -- The result code, the request, and `*nparsed` where it is written.
  unfoldable pub parse_http_request_head_only :
      Bytes → HttpRequest → Option (ℤ × HttpRequest × Option ℕ)
  unfolding on_request
  parse_http_request_head_only s r =
      let p = lib.execute_head s in
      elim (on_request p.events [] r) [
        | none ↦ none
        | some (pieces, q) ↦
            if p.nparsed == 0
            then some (neg 1, q, none)
            else if is_odd (length pieces)
            then some (neg 2, q, none)
            else some (
              pos 0,
              record q { headers = set_pairs pieces q.headers },
              some (p.nparsed % 2 ^ 32),
            )
      ]

  -- The callbacks of a response, which has no URL.
  unfoldable pub on_response : List Event → List Bytes → HttpResponse → List Bytes × HttpResponse
  unfolding response_content
  on_response [] pieces r = (pieces, r)
  on_response (on_url s ∷ es) pieces r = on_response es pieces r
  on_response (on_header_field s ∷ es) pieces r = on_response es (pieces ++ s ∷ []) r
  on_response (on_header_value s ∷ es) pieces r = on_response es (pieces ++ s ∷ []) r
  on_response (on_body s ∷ es) pieces r = on_response es pieces (response_content s r)

  -- `none` is the assertion that fails.
  unfoldable pub parse_http_response : Bytes → HttpResponse → Option (ℤ × HttpResponse)
  unfolding on_response
  parse_http_response s r =
      let p = lib.execute_response s in
      let (pieces, q) = on_response p.events [] r in
      if not (p.nparsed == length s)
      then some (neg 1, q)
      else if is_odd (length pieces)
      then none
      else some
          (pos 0, set_status p.status_code (record q { headers = set_pairs pieces q.headers }))
