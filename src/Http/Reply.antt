-- ===== src/Http/Reply.antt =====
-- `HttpSrvWork::Reply` of http/http_server.cc.
use tinyco.Prelude.{◌≡◌, refl, false, arith, if◌then◌else◌, ℤ, Bytes, eqb, lookup-insert}
use tinyco.Http.Request.{HttpRequest, is_header, get_header as request_header}
use tinyco.Http.Response.{HttpResponse, set_header, get_header, serialize}
use tinyco.Http.Parser.{connection}
use tinyco.Http.Server.{Work, reply, echo}

echo-connection :
    (q : HttpRequest) (r : HttpResponse)
    → get_header connection (echo q r)
      ≡ (if is_header connection q then request_header connection q else get_header connection r)
unfolding echo get_header set_header
echo-connection q r =
    ground (arith, lookup-insert connection connection (request_header connection q) r.headers)

echo-others :
    (name : Bytes) (q : HttpRequest) (r : HttpResponse)
    → eqb connection name ≡ false
    → get_header name (echo q r) ≡ get_header name r
unfolding echo get_header set_header
echo-others name q r ne =
    ground (arith, lookup-insert connection name (request_header connection q) r.headers)

-- `Reply` sends the text of a response, keeps that response, and changes no header of it but
-- Connection, which takes the request's value if the request has one.
pub reply-connection :
    {W : Type 0} (send : Bytes → W → ℤ × W) (name : Bytes) (w : Work W)
    → eqb connection name ≡ false
    → let (ret, w') = reply send w in
      ((ret, w'.world) ≡ send (serialize w'.hrsp) w.world)
      × (get_header connection w'.hrsp ≡ (
          if is_header connection w.hreq
          then request_header connection w.hreq
          else get_header connection w.hrsp))
      × (get_header name w'.hrsp ≡ get_header name w.hrsp)
unfolding reply
reply-connection send name w ne =
    (refl, echo-connection w.hreq w.hrsp, echo-others name w.hreq w.hrsp ne)
