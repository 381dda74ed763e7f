-- ===== src/Rpc/Channel.antt =====
-- `Controller` of rpc/controller.h and `Channel::CallMethod` of rpc/channel.cc.
use tinyco.Prelude.{
  ℕ, ◌%◌, ◌^◌, Bool, false, not, Option, none, some, [], ◌==◌, if◌then◌else◌, ℤ, pos, neg, is_neg,
  Bytes,
}
use tinyco.Http.Request.{HttpRequest, http_request_new, set_method, set_content, method_post}
use tinyco.Http.Response.{HttpResponse, http_response_new}
use tinyco.Http.Parser.{ParserLib}
use tinyco.Http.Conn.{System, TcpConn}
use tinyco.Http.Https.{SslSystem}
use tinyco.Http.Op.{Net, Result, http_request}
use tinyco.Rpc.Protobuf.{Protobuf}

-- The timeouts are as the memory was: the constructor leaves them.
pub record Controller : Type 0 where
  pub connect_timeout : ℤ
  pub recv_timeout : ℤ
  pub error_code : ℤ
  pub hreq_header : HttpRequest
  pub hrsp_header : HttpResponse

unfoldable pub controller_new : ℤ → ℤ → Controller
unfolding set_method http_request_new http_response_new
controller_new connect recv = record {
  connect_timeout = connect;
  recv_timeout = recv;
  error_code = pos 0;
  hreq_header = set_method method_post http_request_new;
  hrsp_header = http_response_new;
}

unfoldable pub set_connect_timeout : ℤ → Controller → Controller
set_connect_timeout timeout c = record c { connect_timeout = timeout }

unfoldable pub set_recv_timeout : ℤ → Controller → Controller
set_recv_timeout timeout c = record c { recv_timeout = timeout }

unfoldable pub set_error_code : ℤ → Controller → Controller
set_error_code ec c = record c { error_code = ec }

-- `Reset`, `SetFailed` and `StartCancel` do nothing.
unfoldable pub reset : Controller → Controller
reset c = c

unfoldable pub failed : Controller → Bool
failed c = false

unfoldable pub error_text : Controller → Bytes
error_text c = []

-- `Channel`'s `server_`.
pub record EndPoint : Type 0 where
  pub ip : ℕ
  pub port : ℕ

module _ {S : Type 0} {M : Type 0} {W : Type 0} (pb : Protobuf S M W) where
  -- The request that goes out.
  unfoldable pub request_of : Controller → M → HttpRequest
  unfolding set_content
  request_of c request = set_content (pb.serialize_to_string request) c.hreq_header

module _ {S : Type 0} {M : Type 0} {W : Type 0} (pb : Protobuf S M W) (lib : ParserLib)
    (sys : System W) (tls : SslSystem W) (fuel : ℕ) where
  -- The controller, the response and the outside after a call; `none` is an exception or an endless loop.
  abbrev pub Called : Type 0
  Called = Option (Controller × M × Net W)

  -- From the result of `HttpOp::HttpRequest` on.
  unfoldable pub after_request : Controller → M → Result lib sys tls fuel → Called
  unfolding set_error_code
  after_request c response none = none
  after_request c response (some (ret, hrsp, n)) =
      let read = pb.parse_from_string hrsp.content response in
      if is_neg ret then some (set_error_code (neg 1) c, response, n) else some (c, read.1, n)

  -- `CallMethod`.
  unfoldable pub call_method : TcpConn → EndPoint → Controller → M → M → Net W → Called
  unfolding request_of after_request http_request http_response_new
  call_method memory server c request response n =
      let hrsp = http_response_new in
      if not (hrsp.status == 200)
      then some (c, response, n)
      else after_request c response (
          http_request lib sys tls fuel memory server.ip (server.port % 2 ^ 16)
            (request_of pb c request) hrsp n)
