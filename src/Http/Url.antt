-- ===== src/Http/Url.antt =====
-- `URL` of http/http_request.h and `ParseUrl` of http/http_tool.cc. http-parser's
-- `http_parser_parse_url` and curl's `curl_unescape` are parameters.
use tinyco.Prelude.{
  ℕ, ◌-◌, ◌%◌, ◌^◌, ◌≡◌, refl, ◌≢◌, Bool, Option, none, some, List, [], ◌∷◌, ◌++◌, arith, ◌==◌,
  if◌then◌else◌, length, take, drop, length-append, drop-append, take-append, ℤ, pos, neg, Bytes,
  codes, eqb, is_empty, insert, has_key,
}
use tinyco.Text.Split.{split}
use tinyco.Http.Decimal.{stoul}

pub record Url : Type 0 where
  pub schema : Bytes
  pub host : Bytes
  pub port : ℕ
  pub uri : Bytes
  pub path : Bytes
  pub query : Bytes
  pub fragment : Bytes
  pub userinfo : Bytes
  pub query_params : List (Bytes × Bytes)

abbrev pub empty_url : Url
empty_url = record {
  schema = [];
  host = [];
  port = 0;
  uri = [];
  path = [];
  query = [];
  fragment = [];
  userinfo = [];
  query_params = [];
}

-- `IsHttps` and `IsSet`.
unfoldable pub is_https : Url → Bool
is_https u = 443 == u.port

unfoldable pub is_set : Bytes → Url → Bool
is_set param u = has_key param u.query_params

-- `http_parser_url`: for each field that is set, its offset and length.
pub record UrlFields : Type 0 where
  pub uf_schema : Option (ℕ × ℕ)
  pub uf_host : Option (ℕ × ℕ)
  pub uf_port : Option (ℕ × ℕ)
  pub uf_path : Option (ℕ × ℕ)
  pub uf_query : Option (ℕ × ℕ)
  pub uf_fragment : Option (ℕ × ℕ)
  pub uf_userinfo : Option (ℕ × ℕ)

-- The bytes of a field.
abbrev pub piece : Bytes → ℕ × ℕ → Bytes
piece s (off, len) = take len (drop off s)

-- `has_and_set`: a field that is not set keeps the member's old value.
abbrev pub has_and_set : Bytes → Option (ℕ × ℕ) → Bytes → Bytes
has_and_set s none old = old
has_and_set s (some f) old = piece s f

-- `port` is an uint32_t. `none` is the exception of `std::stoul`.
unfoldable pub port_of : Bytes → UrlFields → Bytes → Option ℕ
port_of s f schema = elim f.uf_port [
  | some p ↦ elim (stoul (piece s p)) [ none ↦ none | some n ↦ some (n % 2 ^ 32) ]
  | none ↦ elim f.uf_schema [
    | some _ ↦ some (if eqb schema (codes "http") then 80 else 443)
    | none ↦ some 80
  ]
]

-- `url->uri` is the text from the path on, of the length `slen - off - 1`, and `/` if it is empty.
unfoldable pub uri_of : Bytes → UrlFields → Bytes → Bytes
uri_of s f old =
    let u : Bytes = elim f.uf_path [
      | none ↦ old
      | some (off, len) ↦ take (length s - off - 1) (drop off s)
    ] in
    if is_empty u then codes "/" else u

-- One round of the loop over the parameters: `kv_vec.size() < 2` passes it over.
abbrev pub add_param : (Bytes → Bytes) → List Bytes → List (Bytes × Bytes) → List (Bytes × Bytes)
add_param unescape [] m = m
add_param unescape (k ∷ []) m = m
add_param unescape (k ∷ v ∷ _) m = insert (unescape k) (unescape v) m

unfoldable pub add_params :
    (Bytes → Bytes) → List Bytes → List (Bytes × Bytes) → List (Bytes × Bytes)
add_params unescape [] m = m
add_params unescape (kv ∷ kvs) m = add_params unescape kvs (add_param unescape (split kv b'=') m)

uri_of-drops_last :
    (front target : Bytes) (c len : ℕ) (f : UrlFields) (old : Bytes)
    → f.uf_path ≡ some (length front, len)
    → target ≢ []
    → uri_of (front ++ (target ++ c ∷ [])) f old ≡ target
unfolding uri_of
uri_of-drops_last front [] c len f old q ne = absurd (ne refl)
uri_of-drops_last front (t ∷ target) c len f old q ne =
    rw (q, drop-append (length front) front ((t ∷ target) ++ c ∷ []) refl, measured)
      (rw (take-append (length (t ∷ target)) (t ∷ target) (c ∷ []) refl))
  where
    measured : length (front ++ ((t ∷ target) ++ c ∷ [])) - length front - 1 ≡ length (t ∷ target)
    measured =
        omega
          (arith, length-append front ((t ∷ target) ++ c ∷ []), length-append (t ∷ target) (c ∷ []))

module _ (http_parser_parse_url : Bytes → Option UrlFields) (curl_unescape : Bytes → Bytes) where
  -- The result code and the URL; `none` is an exception.
  unfoldable pub parse_url : Bytes → Url → Option (ℤ × Url)
  parse_url s u = elim (http_parser_parse_url s) [
    | none ↦ some (neg 1, u)
    | some f ↦
        let schema = has_and_set s f.uf_schema u.schema in
        let query = has_and_set s f.uf_query u.query in
        elim (port_of s f schema) [
          | none ↦ none
          | some port ↦ some (
            pos 0,
            record {
              schema = schema;
              host = has_and_set s f.uf_host u.host;
              port = port;
              uri = uri_of s f u.uri;
              path = has_and_set s f.uf_path u.path;
              query = query;
              fragment = has_and_set s f.uf_fragment u.fragment;
              userinfo = has_and_set s f.uf_userinfo u.userinfo;
              query_params = add_params curl_unescape (split query b'&') u.query_params;
            },
          )
        ]
  ]

  -- The request target loses its last byte: of a URL whose path begins behind `front` and that goes on
  -- with `target` and one byte more, `ParseUrl` makes `uri` the `target` alone.
  pub parse_url-drops_last :
      (front target : Bytes) (c len : ℕ) (f : UrlFields) (u v : Url)
      → http_parser_parse_url (front ++ (target ++ c ∷ [])) ≡ some f
      → f.uf_path ≡ some (length front, len)
      → target ≢ []
      → parse_url (front ++ (target ++ c ∷ [])) u ≡ some (pos 0, v)
      → v.uri ≡ target
  unfolding parse_url
  parse_url-drops_last front target c len f u v p q ne e =
      ground (arith, uri_of-drops_last front target c len f u.uri q ne)

  -- A URL without a query keeps the query of the URL parsed before it, and all parameters of that.
  pub parse_url-stale_query :
      (s : Bytes) (f : UrlFields) (u v : Url)
      → http_parser_parse_url s ≡ some f
      → f.uf_query ≡ none
      → parse_url s u ≡ some (pos 0, v)
      → v.query ≡ u.query
  unfolding parse_url
  parse_url-stale_query s f u v p q e = ground arith
