-- ===== src/Rpc/Roundtrip.antt =====
-- The texts of a call: that of the request of `Channel::CallMethod`, and that of the reply of
-- `TinycoRpc::Serve`.
use tinyco.Prelude.{
  ℕ, suc, ◌+◌, ◌≤◌, ◌<◌, ◌≡◌, refl, sym, ap, ◌∙◌, ◌≢◌, inr, true, Option, none, some, [], arith,
  length, All, ℤ, Bytes, lookup,
}
use mathlib.Core.Path.{subst⁻¹}
use tinyco.Http.Decimal.{to_decimal}
use tinyco.Http.Headers.{IsHeader}
use tinyco.Http.Request.{
  read_request, serialize_to_string, read_request-serialize, wire_of, method_post, content_length,
  set_content as set_request_content, Wire,
}
use tinyco.Http.Server.{Work}
use tinyco.Server.Services.{MethodDescriptor, MethodMap, AllServed}
use tinyco.Rpc.Protobuf.{Protobuf, Counts, ReadsBack}
use tinyco.Rpc.Serve.{serve}
use tinyco.Rpc.Status.{serve_answers}
use tinyco.Rpc.Channel.{Controller, request_of}
use tinyco.Rpc.Reply.{
  insert-IsHeader, length-insert, content_length-IsHeader, IsClean, hrsp-answer, reply_of, Answered,
  reply_of-Answered,
}

abbrev body_or : Option Wire → Bytes
body_or none = []
body_or (some v) = v.body

module _ {S : Type 0} {M : Type 0} {W : Type 0} (pb : Protobuf S M W)
    (send : Bytes → W → ℤ × W) where
  request_of-IsClean :
      (c : Controller) (m : M)
      → All IsHeader c.hreq_header.headers
      → All IsHeader (request_of pb c m).headers
        × (length (request_of pb c m).headers ≤ suc (length c.hreq_header.headers))
  unfolding request_of set_request_content
  request_of-IsClean c m h =
      let n = to_decimal (length (pb.serialize_to_string m)) in
      (
        insert-IsHeader content_length n c.hreq_header.headers h
            (content_length-IsHeader (length (pb.serialize_to_string m))),
        length-insert content_length n c.hreq_header.headers,
      )

  content-request_of :
      (c : Controller) (m : M) → (request_of pb c m).content ≡ pb.serialize_to_string m
  unfolding request_of set_request_content
  content-request_of c m = refl

  line-request_of :
      (c : Controller) (m : M)
      → ((request_of pb c m).method ≡ c.hreq_header.method)
        × ((request_of pb c m).struri ≡ c.hreq_header.struri)
  unfolding request_of set_request_content
  line-request_of c m = (refl, refl)

  -- The text of the channel's request is read back with the message as its body.
  body-request_of :
      (fuel : ℕ) (c : Controller) (m : M) (v : Wire)
      → c.hreq_header.method ≡ method_post
      → All (λ b. b ≢ b' ') c.hreq_header.struri
      → All IsHeader c.hreq_header.headers
      → length c.hreq_header.headers + 1 < fuel
      → read_request fuel (serialize_to_string (request_of pb c m)) ≡ some v
      → v.body ≡ pb.serialize_to_string m
  body-request_of fuel c m v post u h l e =
      let q = request_of pb c m in
      let (hs, few) = request_of-IsClean c m h in
      let line = line-request_of c m in
      let read : read_request fuel (serialize_to_string q) ≡ some (wire_of q) =
        read_request-serialize fuel q (inr (line.0 ∙ post)) (rw (line.1) u) hs (omega arith) in
      let same : some v ≡ some (wire_of q) = sym e ∙ read in
      ap body_or same ∙ content-request_of c m

  -- The two texts of a call, with the readers of this development in the place of http-parser. A server has
  -- a request whose content is the body that the reader finds in the text of the channel's request, a POST
  -- with a well formed target and headers, and whose path leads to a method; its response so far has the
  -- status 200 and `k` well formed headers, with which the fuel is enough. Then `Serve` makes a reply that
  -- the reader takes for one with the status 200, and from whose body protobuf reads what the method made
  -- of the channel's message, if it reads back the two messages that it wrote.
  pub serve-Answered :
      (fuel k : ℕ) (c : Controller) (request rsp into : M) (methods : MethodMap pb.find_method)
      (d : MethodDescriptor S) (w : Work W) (v : Wire)
      → c.hreq_header.method ≡ method_post
      → All (λ b. b ≢ b' ') c.hreq_header.struri
      → All IsHeader c.hreq_header.headers
      → length c.hreq_header.headers + 1 < fuel
      → read_request fuel (serialize_to_string (request_of pb c request)) ≡ some v
      → w.hreq.content ≡ v.body
      → All IsHeader w.hreq.headers
      → IsClean k w.hrsp
      → k + 2 < fuel
      → w.hrsp.status ≡ 200
      → Counts pb
      → AllServed pb.find_method methods
      → lookup w.hreq.uri.path methods ≡ some d
      → ReadsBack pb request (pb.new_request d.service d.method)
      → (pb.call_method d.service d.method request (pb.new_response d.service d.method) w.world).0
        ≡ rsp
      → ReadsBack pb rsp into
      → Answered pb send fuel rsp into (serve pb send methods w).1.hrsp
  serve-Answered fuel k c request rsp into methods d w v post u h l e got hq clean few s counts
        served path reads made back =
      let body : w.hreq.content ≡ pb.serialize_to_string request =
        got ∙ body-request_of fuel c request v post u h l e in
      let read : pb.parse_from_string w.hreq.content (pb.new_request d.service d.method)
          ≡ (true, request) =
        ap (λ b. pb.parse_from_string b (pb.new_request d.service d.method)) body ∙ reads in
      let answers : (serve pb send methods w).1.hrsp ≡ reply_of pb send d request w =
        ap (λ r. r.1.hrsp) (serve_answers pb send methods d request w counts served path read)
        ∙ hrsp-answer pb send d request w in
      subst⁻¹ (Answered pb send fuel rsp into) answers
        (reply_of-Answered pb send fuel k d request rsp into w hq clean few s made back)
