-- ===== src/Http/Messages.antt =====
-- What `ParseHttpRequest` of http/http_tool.cc leaves in the request: its headers and keep alive.
use tinyco.Prelude.{
  ◌≡◌, refl, sym, ap, ◌∙◌, inl, inr, Bool, true, false, not, ◌||◌, Option, none, some, List, [],
  ◌∷◌, ◌++◌, append-nil, append_assoc, arith, if◌then◌else◌, Option-cases, length, pos, Bytes,
  codes, eqb, lookup, insert, lookup-insert,
}
use tinyco.Http.Headers.{Headers}
use tinyco.Http.Url.{parse_url}
use tinyco.Http.Decimal.{to_decimal}
use tinyco.Http.Request.{
  HttpRequest, set_method, set_uri, set_keep_alive, set_content, is_header, get_header,
  content_length,
}
use tinyco.Http.Parser.{
  Event, on_url, on_header_field, on_header_value, on_body, Parsed, ParserLib, set_pairs, to_lower,
  connection, apply_connection, on_request, finish_request, parse_http_request, method_of,
}

-- The pieces of the headers among the callbacks.
abbrev pub pieces_of : List Event → List Bytes
pieces_of [] = []
pieces_of (on_url s ∷ es) = pieces_of es
pieces_of (on_header_field s ∷ es) = s ∷ pieces_of es
pieces_of (on_header_value s ∷ es) = s ∷ pieces_of es
pieces_of (on_body s ∷ es) = pieces_of es

-- The first of two values that is there.
abbrev pub or_else {ℓ} : {A : Type ℓ} → Option A → Option A → Option A
or_else none b = b
or_else (some a) b = some a

-- The value of the last pair with the name.
abbrev pub last_value : Bytes → List Bytes → Option Bytes
last_value name [] = none
last_value name (f ∷ []) = none
last_value name (f ∷ v ∷ ps) = or_else (last_value name ps) (if eqb f name then some v else none)

or_else_assoc : (a b c : Option Bytes) → or_else (or_else a b) c ≡ or_else a (or_else b c)
or_else_assoc none b c = refl
or_else_assoc (some a) b c = refl

if-or_else :
    (b : Bool) (v : Bytes) (o : Option Bytes)
    → (if b then some v else o) ≡ or_else (if b then some v else none) o
if-or_else true v o = refl
if-or_else false v o = refl

lookup-set_pairs :
    (name : Bytes) (ps : List Bytes) (m : Headers)
    → lookup name (set_pairs ps m) ≡ or_else (last_value name ps) (lookup name m)
unfolding set_pairs
lookup-set_pairs name [] m = refl
lookup-set_pairs name (f ∷ []) m = refl
lookup-set_pairs name (f ∷ v ∷ ps) m =
    lookup-set_pairs name ps (insert f v m)
    ∙ ap (or_else (last_value name ps))
        (lookup-insert f name v m ∙ if-or_else (eqb f name) v (lookup name m))
    ∙ sym (or_else_assoc (last_value name ps) (if eqb f name then some v else none) (lookup name m))

kept-set_content :
    (name s : Bytes) (r : HttpRequest)
    → eqb content_length name ≡ false
    → lookup name (set_content s r).headers ≡ lookup name r.headers
unfolding set_content
kept-set_content name s r ne =
    rw (lookup-insert content_length name (to_decimal (length s)) r.headers, ne)

module _ (lib : ParserLib) where
  -- The callbacks collect the pieces, keep keep-alive, and change no header but Content-Length.
  on_request-effect :
      (es : List Event) (ps qs : List Bytes) (r q : HttpRequest) (name : Bytes)
      → eqb content_length name ≡ false
      → on_request lib es ps r ≡ some (qs, q)
      → (qs ≡ ps ++ pieces_of es)
        × (q.keepalive ≡ r.keepalive)
        × (lookup name q.headers ≡ lookup name r.headers)
  unfolding on_request set_uri
  on_request-effect [] ps qs r q name ne e =
      (rw append-nil (ground arith), ground arith, ground arith)
  on_request-effect (on_url s ∷ es) ps qs r q name ne e =
      elim (Option-cases (parse_url lib.find_url lib.unescape s r.uri)) [
        | inl p ↦ ground arith
        | inr (a, p) ↦
            on_request-effect es ps qs (record (set_uri s r) { uri = a.1 }) q name ne
              (rw (p, on_request) at e)
      ]
  on_request-effect (on_header_field s ∷ es) ps qs r q name ne e =
      let (a, b, c) = on_request-effect es (ps ++ s ∷ []) qs r q name ne e in
      (a ∙ append_assoc ps (s ∷ []) (pieces_of es), b, c)
  on_request-effect (on_header_value s ∷ es) ps qs r q name ne e =
      let (a, b, c) = on_request-effect es (ps ++ s ∷ []) qs r q name ne e in
      (a ∙ append_assoc ps (s ∷ []) (pieces_of es), b, c)
  on_request-effect (on_body s ∷ es) ps qs r q name ne e =
      let (a, b, c) = on_request-effect es ps qs (set_content s r) q name ne e in
      (a, b, c ∙ kept-set_content name s r ne)

  apply_connection-keepalive :
      (r : HttpRequest)
      → (apply_connection r).keepalive
        ≡ r.keepalive
          || (not (is_header connection r)
              || eqb (to_lower (get_header connection r)) (codes "keep-alive"))
  unfolding apply_connection set_keep_alive
  apply_connection-keepalive r = ground arith

  apply_connection-headers : (r : HttpRequest) → (apply_connection r).headers ≡ r.headers
  unfolding apply_connection set_keep_alive
  apply_connection-headers r = ground arith

  finish-keepalive :
      (p : Parsed) (ps : List Bytes) (q : HttpRequest)
      → let v = finish_request lib p ps q in
        v.keepalive
        ≡ q.keepalive
          || (not (is_header connection v)
              || eqb (to_lower (get_header connection v)) (codes "keep-alive"))
  unfolding finish_request set_method is_header get_header
  finish-keepalive p ps q =
      let u : HttpRequest =
        set_method (method_of p.verb) (record q { headers = set_pairs ps q.headers }) in
      rw (apply_connection-headers u) (apply_connection-keepalive u)

  finish-headers :
      (p : Parsed) (ps : List Bytes) (q : HttpRequest)
      → (finish_request lib p ps q).headers ≡ set_pairs ps q.headers
  unfolding finish_request set_method
  finish-headers p ps q =
      apply_connection-headers
        (set_method (method_of p.verb) (record q { headers = set_pairs ps q.headers }))

  -- A parse that succeeds comes from callbacks that did.
  pub parsed :
      (s : Bytes) (r v : HttpRequest)
      → parse_http_request lib s r ≡ some (pos 0, v)
      → (ps : List Bytes) × (q : HttpRequest) × (on_request lib (lib.execute_request s).events [] r
          ≡ some (ps, q))
        × (v ≡ finish_request lib (lib.execute_request s) ps q)
  unfolding parse_http_request
  parsed s r v e = elim (Option-cases (on_request lib (lib.execute_request s).events [] r)) [
    | inl p ↦ ground arith
    | inr (a, p) ↦ (a.0, a.1, p, ground arith)
  ]

  -- After a successful parse, keep alive is set if it was set before, if there is no Connection header,
  -- or if the header says keep-alive; a request that says `close` takes it back from no other.
  pub parse_http_request-keepalive :
      (s : Bytes) (r v : HttpRequest)
      → parse_http_request lib s r ≡ some (pos 0, v)
      → v.keepalive
        ≡ r.keepalive
          || (not (is_header connection v)
              || eqb (to_lower (get_header connection v)) (codes "keep-alive"))
  parse_http_request-keepalive s r v e =
      let (ps, q, p, w) = parsed s r v e in
      let (_, k, _) =
        on_request-effect (lib.execute_request s).events [] ps r q connection refl p in
      rw w (rw (sym k) (finish-keepalive (lib.execute_request s) ps q))

  -- After a successful parse a header other than Content-Length has the value of the last pair that the
  -- parser reported with its name, and else the value that the request had before.
  pub parse_http_request-headers :
      (s name : Bytes) (r v : HttpRequest)
      → eqb content_length name ≡ false
      → parse_http_request lib s r ≡ some (pos 0, v)
      → lookup name v.headers
        ≡ or_else
            (last_value name (pieces_of (lib.execute_request s).events))
            (lookup name r.headers)
  parse_http_request-headers s name r v ne e =
      let (ps, q, p, w) = parsed s r v e in
      let (a, _, c) = on_request-effect (lib.execute_request s).events [] ps r q name ne p in
      rw (w, finish-headers (lib.execute_request s) ps q, lookup-set_pairs name ps q.headers, a, c)
