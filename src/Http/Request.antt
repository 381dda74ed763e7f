-- ===== src/Http/Request.antt =====
-- `HttpRequest` of http/http_request.h and .cc.
use tinyco.Prelude.{
  ℕ, ◌%◌, ◌^◌, ◌<◌, ◌≡◌, refl, ◌≢◌, ◌⊎◌, inl, inr, Bool, false, Option, none, some, [], ◌∷◌, ◌++◌,
  arith, ◌==◌, if◌then◌else◌, length, All, Bytes, codes, eqb, lookup, insert, erase, has_key,
  value_or, lookup-insert,
}
use tinyco.Http.Url.{Url, empty_url}
use tinyco.Http.Decimal.{to_decimal, stoul, stoul-to_decimal}
use tinyco.Http.Headers.{
  Headers, crlf, tail_of, read_until, expect, ◌>>=◌, read_tail, visible, IsHeader,
  read_until-append, read_tail-tail_of,
}

-- The enumeration of the methods; `method_` is a uint8_t, so UNKNOWN, -1, is stored as 255.
abbrev pub method_unknown : ℕ
method_unknown = 255

abbrev pub method_get : ℕ
method_get = 0

abbrev pub method_post : ℕ
method_post = 1

pub record HttpRequest : Type 0 where
  pub method : ℕ
  pub struri : Bytes
  pub uri : Url
  pub content : Bytes
  pub headers : Headers
  pub keepalive : Bool

unfoldable pub http_request_new : HttpRequest
http_request_new = record {
  method = method_unknown;
  struri = [];
  uri = empty_url;
  content = [];
  headers = [];
  keepalive = false;
}

unfoldable pub set_method : ℕ → HttpRequest → HttpRequest
set_method m r = record r { method = m % 256 }

unfoldable pub set_uri : Bytes → HttpRequest → HttpRequest
set_uri uri r = record r { struri = uri }

unfoldable pub set_keep_alive : Bool → HttpRequest → HttpRequest
set_keep_alive b r = record r { keepalive = b }

unfoldable pub set_header : Bytes → Bytes → HttpRequest → HttpRequest
set_header field value r = record r { headers = insert field value r.headers }

unfoldable pub unset_header : Bytes → HttpRequest → HttpRequest
unset_header field r = record r { headers = erase field r.headers }

unfoldable pub get_header : Bytes → HttpRequest → Bytes
get_header name r = value_or [] (lookup name r.headers)

unfoldable pub is_header : Bytes → HttpRequest → Bool
is_header name r = has_key name r.headers

abbrev pub content_length : Bytes
content_length = codes "Content-Length"

unfoldable pub set_content : Bytes → HttpRequest → HttpRequest
set_content content r = record r {
  content = content;
  headers = insert content_length (to_decimal (length content)) r.headers;
}

-- `Clear` leaves the parsed URL and `keepalive_`.
unfoldable pub clear : HttpRequest → HttpRequest
clear r = record r { method = method_unknown; struri = []; content = []; headers = [] }

-- `ss << struri_ << " "; ss << "HTTP/1.1" << crlf` and what follows, behind the method.
abbrev from_target : HttpRequest → Bytes
from_target r = r.struri ++ (b' ' ∷ (codes "HTTP/1.1" ++ (crlf ++ tail_of r.headers r.content)))

-- `SerializeToString(std::string *)`: `none` is the result false, with no output.
unfoldable pub serialize : HttpRequest → Option Bytes
serialize r =
    if r.method == method_get
    then some (codes "GET " ++ from_target r)
    else if r.method == method_post
    then some (codes "POST " ++ from_target r)
    else none

-- The other form gives the empty string then.
unfoldable pub serialize_to_string : HttpRequest → Bytes
unfolding serialize
serialize_to_string r = value_or [] (serialize r)

-- A request as it goes over the wire.
pub record Wire : Type 0 where
  pub verb : Bytes
  pub target : Bytes
  pub version : Bytes
  pub fields : Headers
  pub body : Bytes

-- A reader of that form.
unfoldable pub read_request : ℕ → Bytes → Option Wire
read_request fuel s = do
  (verb, s₁) ← read_until b' ' s
  (target, s₂) ← read_until b' ' s₁
  (version, s₃) ← read_until 13 s₂
  s₄ ← expect 10 s₃
  (fields, body) ← read_tail fuel s₄
  some (record { verb = verb; target = target; version = version; fields = fields; body = body })

abbrev pub verb_of : ℕ → Bytes
verb_of m = if m == method_get then codes "GET" else codes "POST"

-- What a request with the method GET or POST says on the wire.
abbrev pub wire_of : HttpRequest → Wire
wire_of r = record {
  verb = verb_of r.method;
  target = r.struri;
  version = codes "HTTP/1.1";
  fields = visible r.headers;
  body = r.content;
}

read_target :
    (fuel : ℕ) (r : HttpRequest) (verb : Bytes)
    → All (λ c. c ≢ b' ') verb
    → All (λ c. c ≢ b' ') r.struri
    → All IsHeader r.headers
    → length r.headers < fuel
    → read_request fuel (verb ++ b' ' ∷ from_target r)
      ≡ some (record {
        verb = verb;
        target = r.struri;
        version = codes "HTTP/1.1";
        fields = visible r.headers;
        body = r.content;
      })
unfolding read_request
read_target fuel r verb v u h b = rw (
  read_until-append b' ' verb (from_target r) v,
  read_until-append b' ' r.struri (codes "HTTP/1.1" ++ (crlf ++ tail_of r.headers r.content)) u,
  read_until-append 13 (codes "HTTP/1.1") (10 ∷ tail_of r.headers r.content) (omega arith),
  read_tail-tail_of fuel r.headers r.content h b,
)

-- The text of a GET or POST request, whose target has no space and whose headers are well formed, is
-- read back as its method, target, headers with a value, and body: nothing of it is ambiguous.
pub read_request-serialize :
    (fuel : ℕ) (r : HttpRequest)
    → (r.method ≡ method_get) ⊎ (r.method ≡ method_post)
    → All (λ c. c ≢ b' ') r.struri
    → All IsHeader r.headers
    → length r.headers < fuel
    → read_request fuel (serialize_to_string r) ≡ some (wire_of r)
unfolding serialize_to_string
read_request-serialize fuel r (inl e) u h b =
    rw e (read_target fuel r (codes "GET") (omega arith) u h b)
read_request-serialize fuel r (inr e) u h b =
    rw e (read_target fuel r (codes "POST") (omega arith) u h b)

-- After `SetContent` the header Content-Length, read as a number, is the length of the body, and every
-- other header is as before.
pub set_content-length :
    (content name : Bytes) (r : HttpRequest)
    → length content < 10 ^ 20
    → eqb content_length name ≡ false
    → let q = set_content content r in
      (stoul (get_header content_length q) ≡ some (length q.content))
      × (q.content ≡ content)
      × (get_header name q ≡ get_header name r)
unfolding set_content get_header
set_content-length content name r h ne = (
  rw (lookup-insert content_length content_length (to_decimal (length content)) r.headers)
      (stoul-to_decimal (length content) h),
  refl,
  rw (lookup-insert content_length name (to_decimal (length content)) r.headers, ne),
)
