-- ===== src/Rpc/Serve.antt =====
-- `TinycoRpc` of rpc/rpc_impl.h and .cc, an `HttpSrvWork` with a map from paths to methods.
use tinyco.Prelude.{Bool, true, false, none, some, ◌==◌, if◌then◌else◌, ℤ, pos, neg, Bytes, lookup}
use tinyco.Http.Response.{set_status, set_content}
use tinyco.Http.Server.{Work, reply}
use tinyco.Server.Services.{MethodDescriptor, MethodMap}
use tinyco.Rpc.Protobuf.{Protobuf}

module _ {S : Type 0} {M : Type 0} {W : Type 0} (pb : Protobuf S M W)
    (send : Bytes → W → ℤ × W) where
  -- `reply404`.
  unfoldable pub reply404 : Work W → ℤ × Work W
  unfolding reply set_status
  reply404 w = (pos 0, (reply send (record w { hrsp = set_status 404 w.hrsp })).1)

  -- The call, with the request read, and the response set.
  unfoldable pub called : MethodDescriptor S → M → Work W → Work W
  unfolding set_content
  called d request w =
      let (rsp, world) =
        pb.call_method d.service d.method request (pb.new_response d.service d.method) w.world in
      record w { hrsp = set_content (pb.serialize_to_string rsp) w.hrsp; world = world }

  unfoldable pub answer : MethodDescriptor S → M → Work W → ℤ × Work W
  unfolding reply called
  answer d request w = (pos 0, (reply send (called d request w)).1)

  -- From `ParseFromString` on.
  unfoldable pub parsed : MethodDescriptor S → Bool × M → Work W → ℤ × Work W
  unfolding answer
  parsed d (false, request) w = (neg 1, w)
  parsed d (true, request) w = answer d request w

  unfoldable pub serve_method : MethodDescriptor S → Work W → ℤ × Work W
  unfolding reply404 parsed
  serve_method d w =
      let read = pb.parse_from_string w.hreq.content (pb.new_request d.service d.method) in
      if pb.method_count d.service == 0
      then reply404 w
      else elim (pb.find_method d.service d.method) [
        | none ↦ reply404 w
        | some full ↦ parsed d read w
      ]

  -- `Serve`.
  unfoldable pub serve : MethodMap pb.find_method → Work W → ℤ × Work W
  unfolding serve_method
  serve methods w = elim (lookup w.hreq.uri.path methods) [
    | none ↦ reply404 w
    | some d ↦ serve_method d w
  ]
