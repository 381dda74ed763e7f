-- ===== src/Rpc/Parsed.antt =====
-- A call from `Channel::CallMethod` over `ParseHttpRequest` and `TinycoRpc::Serve` to
-- `ParseHttpResponse`.
use tinyco.Prelude.{ℕ, ◌≡◌, none, some, Bytes, is_empty, if◌then◌else◌}
use tinyco.Http.Request.{read_request, Wire}
use tinyco.Http.Response.{read_response, Wire as Reply}
use tinyco.Http.Parser.{ParserLib, Parsed}
use tinyco.Http.Bodies.{last_body}
use tinyco.Rpc.Protobuf.{Protobuf}

-- `on_body` is called with the body, and not called if the body is empty.
abbrev pub TellsBody : Parsed → Bytes → Type 0
TellsBody p body = last_body p.events ≡ (if is_empty body then none else some body)

-- What http-parser tells of the texts of a request and of a response that the readers read: the body, and
-- the status.
abbrev pub TellsRequest : ParserLib → ℕ → Bytes → Type 0
TellsRequest lib fuel text =
    (v : Wire) × (read_request fuel text ≡ some v) × TellsBody (lib.execute_request text) v.body

abbrev pub TellsResponse : ParserLib → ℕ → Bytes → Type 0
TellsResponse lib fuel text =
    (v : Reply)
    → read_response fuel text ≡ some v
    → TellsBody (lib.execute_response text) v.body
      × ((code : ℕ) → v.code ≡ some code → (lib.execute_response text).status_code ≡ code)
