-- ===== src/Rpc/Status.antt =====
-- What status `TinycoRpc::Serve` replies with.
use tinyco.Prelude.{
  ◌<◌, ◌≡◌, refl, ap, ◌∙◌, inl, inr, Bool, true, false, none, some, arith, ◌==◌, if◌then◌else◌,
  Option-cases, ℤ, Bytes, lookup, has_key,
}
use tinyco.Http.Request.{HttpRequest}
use tinyco.Http.Response.{set_status, set_content, set_header}
use tinyco.Http.Server.{Work, reply, echo}
use tinyco.Server.Services.{MethodDescriptor, MethodMap, AllServed}
use tinyco.Rpc.Protobuf.{Protobuf, Counts}
use tinyco.Rpc.Serve.{reply404, called, answer, parsed, serve_method, serve}

module _ {S : Type 0} {M : Type 0} {W : Type 0} (pb : Protobuf S M W)
    (send : Bytes → W → ℤ × W) where
  -- `Reply` leaves the status.
  status-reply : (w : Work W) → (reply send w).1.hrsp.status ≡ w.hrsp.status
  unfolding reply echo set_header
  status-reply w = ground arith

  status-reply404 : (w : Work W) → (reply404 pb send w).1.hrsp.status ≡ 404
  unfolding reply404 set_status
  status-reply404 w = status-reply (record w { hrsp = set_status 404 w.hrsp })

  status-answer :
      (d : MethodDescriptor S) (m : M) (w : Work W)
      → (answer pb send d m w).1.hrsp.status ≡ w.hrsp.status
  unfolding answer called set_content
  status-answer d m w = status-reply (called pb send d m w)

  status-parsed :
      (d : MethodDescriptor S) (r : Bool × M) (w : Work W)
      → (parsed pb send d r w).1.hrsp.status ≡ w.hrsp.status
  unfolding parsed
  status-parsed d (false, m) w = refl
  status-parsed d (true, m) w = status-answer d m w

  -- A descriptor whose service has the method.
  serve_method_found :
      (d : MethodDescriptor S) (full : Bytes) (w : Work W)
      → 0 < pb.method_count d.service
      → pb.find_method d.service d.method ≡ some full
      → serve_method pb send d w
        ≡ parsed pb send d
            (pb.parse_from_string w.hreq.content (pb.new_request d.service d.method))
            w
  unfolding serve_method
  serve_method_found d full w h e =
      let some_methods : (pb.method_count d.service == 0) ≡ false = ground arith in
      rw (some_methods, e)

  serve-none :
      (methods : MethodMap pb.find_method) (w : Work W)
      → lookup w.hreq.uri.path methods ≡ none
      → serve pb send methods w ≡ reply404 pb send w
  unfolding serve
  serve-none methods w e = rw (serve, e)

  serve-some :
      (methods : MethodMap pb.find_method) (d : MethodDescriptor S) (w : Work W)
      → lookup w.hreq.uri.path methods ≡ some d
      → serve pb send methods w ≡ serve_method pb send d w
  unfolding serve
  serve-some methods d w e = rw (serve, e)

  found-status :
      (methods : MethodMap pb.find_method) (d : MethodDescriptor S) (w : Work W)
      → Counts pb
      → AllServed pb.find_method methods
      → lookup w.hreq.uri.path methods ≡ some d
      → (serve pb send methods w).1.hrsp.status ≡ w.hrsp.status
  found-status methods d w counts served e =
      let full = served w.hreq.uri.path d e in
      let r = pb.parse_from_string w.hreq.content (pb.new_request d.service d.method) in
      ap (λ s. s.1.hrsp.status)
        (serve-some methods d w e
          ∙ serve_method_found d d.full_name w (counts d.service d.method d.full_name full) full)
      ∙ status-parsed d r w

  -- With a map in which every path leads to a method of its service, as AddRpcService makes it: a request
  -- for a path that is not in the map leaves the status 404, and any other leaves the status as it was.
  pub serve-status :
      (methods : MethodMap pb.find_method) (w : Work W)
      → Counts pb
      → AllServed pb.find_method methods
      → (serve pb send methods w).1.hrsp.status
        ≡ (if has_key w.hreq.uri.path methods then w.hrsp.status else 404)
  serve-status methods w counts served = elim (Option-cases (lookup w.hreq.uri.path methods)) [
    | inl e ↦
        let unknown : has_key w.hreq.uri.path methods ≡ false = ground arith in
        rw unknown (ap (λ s. s.1.hrsp.status) (serve-none methods w e) ∙ status-reply404 w)
    | inr (d, e) ↦
        let known : has_key w.hreq.uri.path methods ≡ true = ground arith in
        rw known (found-status methods d w counts served e)
  ]

  content-reply : (w : Work W) → (reply send w).1.hrsp.content ≡ w.hrsp.content
  unfolding reply echo set_header
  content-reply w = ground arith

  -- A request that can be read, for a path that leads to a method, is answered.
  pub serve_answers :
      (methods : MethodMap pb.find_method) (d : MethodDescriptor S) (m : M) (w : Work W)
      → Counts pb
      → AllServed pb.find_method methods
      → lookup w.hreq.uri.path methods ≡ some d
      → pb.parse_from_string w.hreq.content (pb.new_request d.service d.method) ≡ (true, m)
      → serve pb send methods w ≡ answer pb send d m w
  unfolding parsed
  serve_answers methods d m w counts served e p =
      let full = served w.hreq.uri.path d e in
      serve-some methods d w e
      ∙ (serve_method_found d d.full_name w (counts d.service d.method d.full_name full) full
          ∙ ap (λ r. parsed pb send d r w) p)

  content-answer :
      (d : MethodDescriptor S) (m : M) (w : Work W)
      → (answer pb send d m w).1.hrsp.content
        ≡ pb.serialize_to_string
            (pb.call_method d.service d.method m (pb.new_response d.service d.method) w.world).0
  unfolding answer called set_content
  content-answer d m w = content-reply (called pb send d m w)

  -- Two requests on one connection, of which the first is for a path that is not in the map and the
  -- second for one that is: the reply to the second has what the method answers as its body, and still
  -- the status 404 of the first.
  pub serve_twice :
      (methods : MethodMap pb.find_method) (d : MethodDescriptor S) (m : M) (w : Work W)
      (q : HttpRequest)
      → Counts pb
      → AllServed pb.find_method methods
      → lookup w.hreq.uri.path methods ≡ none
      → lookup q.uri.path methods ≡ some d
      → pb.parse_from_string q.content (pb.new_request d.service d.method) ≡ (true, m)
      → let before = (serve pb send methods w).1 in
        let after = (serve pb send methods (record before { hreq = q })).1 in
        (after.hrsp.status ≡ 404)
        × (after.hrsp.content
            ≡ pb.serialize_to_string
                (pb.call_method d.service d.method m
                  (pb.new_response d.service d.method)
                  before.world).0)
  serve_twice methods d m w q counts served u e p =
      let before = (serve pb send methods w).1 in
      let w₁ = record before { hreq = q } in
      (
        found-status methods d w₁ counts served e
            ∙ (ap (λ s. s.1.hrsp.status) (serve-none methods w u) ∙ status-reply404 w),
        ap (λ s. s.1.hrsp.content) (serve_answers methods d m w₁ counts served e p)
            ∙ content-answer d m w₁,
      )
