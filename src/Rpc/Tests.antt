-- ===== src/Rpc/Tests.antt =====
-- Examples for RPC: a service with one method, whose messages are byte strings.
use tinyco.Prelude.{
  ℕ, ◌+◌, ◌≡◌, refl, true, none, some, [], ◌∷◌, arith, if◌then◌else◌, length, ℤ, pos, Bytes, codes,
  eqb, eqb_iff, Option, List, ◌++◌,
}
use tinyco.Http.Headers.{Headers}
use tinyco.Http.Response.{read_response, Wire as Reply, HttpResponse}
use tinyco.Http.Parser.{
  Event, on_url, on_header_field, on_header_value, on_body, Parsed, ParserLib, http_post,
  http_other,
}
use tinyco.Http.Url.{empty_url}
use tinyco.Http.Request.{
  HttpRequest, read_request, serialize_to_string, wire_of, method_post,
  set_content as set_request_content, Wire, content_length,
}
use tinyco.Http.Server.{Work}
use tinyco.Server.Services.{MethodDescriptor, MethodMap, AllServed}
use tinyco.Rpc.Protobuf.{Protobuf, Counts}
use tinyco.Rpc.Serve.{serve}
use tinyco.Rpc.Status.{serve-status, serve_twice}
use tinyco.Rpc.Channel.{Controller, request_of}

abbrev echo_method : Bytes
echo_method = codes "echo"

-- A service that answers with the request, behind a mark.
abbrev pb : Protobuf ℕ Bytes ℕ
pb = record {
  method_count = λ s. 1;
  find_method = λ s name. if eqb name echo_method then some (codes "Echo.echo") else none;
  new_request = λ s name. [];
  new_response = λ s name. [];
  call_method = λ s name q r w. (b'!' ∷ q, w + 1);
  parse_from_string = λ b m. (true, b);
  serialize_to_string = λ m. m;
}

abbrev send_all : Bytes → ℕ → ℤ × ℕ
send_all s w = (pos (length s), w)

abbrev descriptor : MethodDescriptor ℕ
descriptor = record { service = 1; method = echo_method; full_name = codes "Echo.echo" }

abbrev methods : MethodMap pb.find_method
methods = (codes "/echo", descriptor) ∷ []

methods-AllServed : AllServed pb.find_method methods
methods-AllServed path d e = ground (arith, eqb_iff (codes "/echo") path)

abbrev request : Bytes → Bytes → HttpRequest
request path body = record {
  method = method_post;
  struri = path;
  uri = record empty_url { path = path };
  content = body;
  headers = [];
  keepalive = true;
}

abbrev work : Bytes → Work ℕ
work path = record {
  hreq = request path (codes "hi");
  hrsp = record { status = 200; content = []; headers = [] };
  world = 0;
}

one_counts : Counts pb
one_counts s name full e = omega arith

serve-status_example : (serve pb send_all methods (work (codes "/nope"))).1.hrsp.status ≡ 404
serve-status_example =
    serve-status pb send_all methods (work (codes "/nope")) one_counts methods-AllServed

-- An unknown path, and then a known one on the same connection.
serve_twice_example :
    let before = (serve pb send_all methods (work (codes "/nope"))).1 in
    let after =
      (serve pb send_all methods
        (record before { hreq = request (codes "/echo") (codes "yo") })).1 in
    (after.hrsp.status ≡ 404) × (after.hrsp.content ≡ codes "!yo")
serve_twice_example =
    serve_twice pb send_all methods descriptor (codes "yo") (work (codes "/nope"))
      (request (codes "/echo") (codes "yo")) one_counts methods-AllServed refl refl refl

abbrev controller : Controller
controller = record {
  connect_timeout = pos 0;
  recv_timeout = pos 0;
  error_code = pos 0;
  hreq_header = request (codes "/echo") [];
  hrsp_header = record { status = 200; content = []; headers = [] };
}

abbrev wire : Wire
wire = wire_of (request_of pb controller (codes "hi"))

-- A parser that tells what the readers find in a text.
abbrev heads : Headers → List Event
heads [] = []
heads ((f, v) ∷ hs) = on_header_field f ∷ on_header_value v ∷ heads hs

abbrev body_events : Bytes → List Event
body_events [] = []
body_events (b ∷ s) = on_body (b ∷ s) ∷ []

abbrev silent : Parsed
silent = record { events = []; nparsed = 0; verb = http_other; status_code = 0 }

abbrev of_request : ℕ → Option Wire → Parsed
of_request n none = silent
of_request n (some v) = record {
  events = on_url v.target ∷ heads v.fields ++ body_events v.body;
  nparsed = n;
  verb = http_post;
  status_code = 0;
}

abbrev of_response : ℕ → Option Reply → Parsed
of_response n none = silent
of_response n (some v) = record {
  events = heads v.fields ++ body_events v.body;
  nparsed = n;
  verb = http_other;
  status_code = elim v.code [ none ↦ 0 | some c ↦ c ];
}

abbrev telling : ParserLib
telling = record {
  execute_request = λ s. of_request (length s) (read_request 5 s);
  execute_head = λ s. silent;
  execute_response = λ s. of_response (length s) (read_response 5 s);
  execute_check = λ s. (length s, true);
  find_url = λ s. some (record {
    uf_schema = none;
    uf_host = none;
    uf_port = none;
    uf_path = some (0, length s);
    uf_query = none;
    uf_fragment = none;
    uf_userinfo = none;
  });
  unescape = λ s. s;
}

-- The server's request, as it is parsed.
abbrev parsed_request : HttpRequest
parsed_request = record {
  method = method_post;
  struri = codes "/echo";
  uri = record empty_url { port = 80; path = codes "/echo"; uri = codes "/ech" };
  content = codes "hi";
  headers = (content_length, codes "2") ∷ [];
  keepalive = true;
}

abbrev parsed_work : Work ℕ
parsed_work = record (work (codes "/echo")) { hreq = parsed_request }

abbrev parsed_reply : HttpResponse
parsed_reply = record {
  status = 200;
  content = codes "!hi";
  headers = (content_length, codes "3") ∷ [];
}
