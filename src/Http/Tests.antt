-- ===== src/Http/Tests.antt =====
-- Examples for the properties of the HTTP modules, on small concrete requests, libraries and peers.
use tinyco.Prelude.{
  ℕ, ◌≡◌, refl, inl, true, false, not, ◌||◌, none, some, [], ◌∷◌, arith, ltb, if◌then◌else◌, length,
  pos, codes, eqb, lookup,
}
use tinyco.Http.Headers.{crlf}
use tinyco.Text.Split.{split}
use tinyco.Http.Url.{Url, UrlFields, empty_url, parse_url, add_params, port_of, uri_of}
use tinyco.Http.Request.{
  HttpRequest, http_request_new, set_uri, is_header, get_header, read_request, serialize_to_string,
  method_get, wire_of, read_request-serialize,
}
use tinyco.Http.Response.{
  HttpResponse, http_response_new, read_response, reason, read_response-serialize,
  serialize as serialize_response,
}
use tinyco.Http.Parser.{
  ParserLib, Parsed, on_url, on_header_field, on_header_value, http_get, connection,
  parse_http_request, on_request, finish_request, to_lower,
}
use tinyco.Http.Messages.{
  parse_http_request-keepalive, parse_http_request-headers, or_else, last_value, pieces_of,
}

abbrev get_page : HttpRequest
get_page = record http_request_new {
  method = method_get;
  struri = codes "/a";
  headers = (codes "Host", codes "h") ∷ (codes "X", []) ∷ [];
}

read_request-serialize_example :
    read_request 3 (serialize_to_string get_page) ≡ some (wire_of get_page)
read_request-serialize_example =
    read_request-serialize 3 get_page (inl refl) (omega arith) (omega arith) (omega arith)

abbrev not_found : HttpResponse
not_found = record http_response_new {
  status = 404;
  content = codes "no";
  headers = (codes "A", codes "b") ∷ [];
}

read_response-serialize_example :
    read_response 2 (serialize_response not_found)
    ≡ some (record {
      version = codes "HTTP/1.1";
      code = some 404;
      phrase = reason 404;
      fields = (codes "A", codes "b") ∷ [];
      body = codes "no";
    })
unfolding tinyco.Http.Headers.visible
read_response-serialize_example =
    read_response-serialize 2 not_found (omega arith) (omega arith) (omega arith)

-- A parser that takes everything, and reports a path, and a header Connection.
abbrev path_only : ℕ → UrlFields
path_only len = record {
  uf_schema = none;
  uf_host = none;
  uf_port = none;
  uf_path = some (0, len);
  uf_query = none;
  uf_fragment = none;
  uf_userinfo = none;
}

abbrev said : ℕ → Parsed
said n = record {
  events = on_url (codes "/ab") ∷ on_header_field connection ∷ on_header_value (codes "close") ∷ [];
  nparsed = n;
  verb = http_get;
  status_code = 200;
}

-- A message is whole from its third byte on.
abbrev pub toy : ParserLib
toy = record {
  execute_request = λ s. said (length s);
  execute_head = λ s. said (length s);
  execute_response = λ s. record (said (length s)) { events = [] };
  execute_check = λ s. if ltb (length s) 3 then (length s, false) else (3, true);
  find_url = λ s. some (path_only (length s));
  unescape = λ s. s;
}

abbrev page_url : Url
page_url = record empty_url {
  port = 80;
  uri = codes "/a";
  path = codes "/ab";
  query_params = add_params toy.unescape (split [] b'&') [];
}

-- What the parser leaves in a request that was kept alive before.
abbrev kept : HttpRequest
kept = record http_request_new { keepalive = true; headers = (codes "Host", codes "old") ∷ [] }

abbrev parsed : HttpRequest
parsed =
    finish_request toy (said 2) (connection ∷ codes "close" ∷ [])
      (record kept { struri = codes "/ab"; uri = page_url })

toy_parse : parse_http_request toy (codes "ab") kept ≡ some (pos 0, parsed)
unfolding parse_http_request on_request parse_url port_of uri_of set_uri http_request_new
toy_parse = refl

parse_http_request-keepalive_example :
    parsed.keepalive
    ≡ kept.keepalive
      || (not (is_header connection parsed)
          || eqb (to_lower (get_header connection parsed)) (codes "keep-alive"))
parse_http_request-keepalive_example =
    parse_http_request-keepalive toy (codes "ab") kept parsed toy_parse

parse_http_request-headers_example :
    lookup (codes "Host") parsed.headers
    ≡ or_else
        (last_value (codes "Host") (pieces_of (said 2).events))
        (lookup (codes "Host") kept.headers)
parse_http_request-headers_example =
    parse_http_request-headers toy (codes "ab") (codes "Host") kept parsed refl toy_parse
