-- ===== src/Http/Bodies.antt =====
-- What `ParseHttpRequest` and `ParseHttpResponse` of http/http_tool.cc leave as the content.
use tinyco.Prelude.{
  ◌≡◌, refl, ap, ◌∙◌, inl, inr, Option, none, some, List, [], ◌∷◌, ◌++◌, arith, ◌==◌, Bool-cases,
  Option-cases, length, pos, Bytes, value_or,
}
use tinyco.Http.Url.{parse_url}
use tinyco.Http.Request.{HttpRequest, set_method, set_uri, set_keep_alive, set_content}
use tinyco.Http.Response.{HttpResponse, set_content as response_content, set_status}
use tinyco.Http.Parser.{
  Event, on_url, on_header_field, on_header_value, on_body, Parsed, ParserLib, set_pairs,
  apply_connection, on_request, finish_request, parse_http_request, on_response,
  parse_http_response, is_odd, method_of,
}
use tinyco.Http.Messages.{or_else, parsed}

-- The text of the last callback of a body.
abbrev pub last_body : List Event → Option Bytes
last_body [] = none
last_body (on_url s ∷ es) = last_body es
last_body (on_header_field s ∷ es) = last_body es
last_body (on_header_value s ∷ es) = last_body es
last_body (on_body s ∷ es) = or_else (last_body es) (some s)

value_or-or_else : (o : Option Bytes) (s d : Bytes) → value_or s o ≡ value_or d (or_else o (some s))
value_or-or_else none s d = refl
value_or-or_else (some t) s d = refl

content-apply_connection : (r : HttpRequest) → (apply_connection r).content ≡ r.content
unfolding apply_connection set_keep_alive
content-apply_connection r = ground arith

module _ (lib : ParserLib) where
  content-on_response :
      (es : List Event) (ps : List Bytes) (r : HttpResponse)
      → (on_response lib es ps r).1.content ≡ value_or r.content (last_body es)
  unfolding on_response response_content
  content-on_response [] ps r = refl
  content-on_response (on_url s ∷ es) ps r = content-on_response es ps r
  content-on_response (on_header_field s ∷ es) ps r = content-on_response es (ps ++ s ∷ []) r
  content-on_response (on_header_value s ∷ es) ps r = content-on_response es (ps ++ s ∷ []) r
  content-on_response (on_body s ∷ es) ps r =
      content-on_response es ps (response_content s r) ∙ value_or-or_else (last_body es) s r.content

  content-on_request :
      (es : List Event) (ps qs : List Bytes) (r q : HttpRequest)
      → on_request lib es ps r ≡ some (qs, q)
      → q.content ≡ value_or r.content (last_body es)
  unfolding on_request set_uri set_content
  content-on_request [] ps qs r q e = ground arith
  content-on_request (on_url s ∷ es) ps qs r q e =
      elim (Option-cases (parse_url lib.find_url lib.unescape s r.uri)) [
        | inl p ↦ ground arith
        | inr (a, p) ↦
            content-on_request es ps qs (record (set_uri s r) { uri = a.1 }) q
              (rw (p, on_request) at e)
      ]
  content-on_request (on_header_field s ∷ es) ps qs r q e =
      content-on_request es (ps ++ s ∷ []) qs r q e
  content-on_request (on_header_value s ∷ es) ps qs r q e =
      content-on_request es (ps ++ s ∷ []) qs r q e
  content-on_request (on_body s ∷ es) ps qs r q e =
      content-on_request es ps qs (set_content s r) q e
      ∙ value_or-or_else (last_body es) s r.content

  content-finish_request :
      (p : Parsed) (ps : List Bytes) (q : HttpRequest)
      → (finish_request lib p ps q).content ≡ q.content
  unfolding finish_request set_method
  content-finish_request p ps q =
      content-apply_connection
        (set_method (method_of p.verb) (record q { headers = set_pairs ps q.headers }))

  -- The content after a parse with 0: that of the last callback of a body, and else the old one.
  pub content-parse_http_request :
      (s : Bytes) (r v : HttpRequest)
      → parse_http_request lib s r ≡ some (pos 0, v)
      → v.content ≡ value_or r.content (last_body (lib.execute_request s).events)
  content-parse_http_request s r v e =
      let (ps, q, p, w) = parsed lib s r v e in
      ap (λ x. x.content) w
      ∙ content-finish_request (lib.execute_request s) ps q
      ∙ content-on_request (lib.execute_request s).events [] ps r q p

  pub parse_http_response-content :
      (s : Bytes) (r v : HttpResponse)
      → parse_http_response lib s r ≡ some (pos 0, v)
      → (v.content ≡ value_or r.content (last_body (lib.execute_response s).events))
        × (v.status ≡ (lib.execute_response s).status_code)
  unfolding parse_http_response set_status
  parse_http_response-content s r v e =
      let p = lib.execute_response s in
      let kept = content-on_response p.events [] r in
      elim (Bool-cases (p.nparsed == length s)) [
        | inr n ↦ absurd (ground arith)
        | inl n ↦ elim (Bool-cases (is_odd (length (on_response lib p.events [] r).0))) [
          | inl o ↦ absurd (ground arith)
          | inr o ↦
              let x : HttpResponse =
                set_status p.status_code (record ((on_response lib p.events [] r).1) {
                  headers =
                      set_pairs (on_response lib p.events [] r).0
                        (on_response lib p.events [] r).1.headers;
                }) in
              let same : v ≡ x = ground arith in
              (ap (λ y. y.content) same ∙ kept, ap (λ y. y.status) same)
        ]
      ]
