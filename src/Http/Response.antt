-- ===== src/Http/Response.antt =====
-- `HttpResponse` of http/http_response.h and .cc. A status is a number that is not negative.
use tinyco.Prelude.{
  ℕ, ◌^◌, ◌<◌, ◌≡◌, ◌≢◌, inl, inr, Option, some, [], ◌∷◌, ◌++◌, arith, ◌==◌, if◌then◌else◌,
  Bool-cases, length, All, Bytes, codes, lookup, insert, erase, value_or,
}
use tinyco.Http.Decimal.{to_decimal, stoul, stoul-to_decimal, to_decimal_plain}
use tinyco.Http.Headers.{
  Headers, crlf, tail_of, read_until, expect, ◌>>=◌, read_tail, visible, IsHeader,
  read_until-append, read_tail-tail_of,
}
use tinyco.Http.Request.{content_length}

pub record HttpResponse : Type 0 where
  pub status : ℕ
  pub content : Bytes
  pub headers : Headers

unfoldable pub http_response_new : HttpResponse
http_response_new = record { status = 200; content = []; headers = [] }

-- The constructor from a body names its header `content_type`, and gives no Content-Length.
unfoldable pub http_response_of : Bytes → Bytes → ℕ → HttpResponse
http_response_of content content_type status = record {
  status = status;
  content = content;
  headers = insert (codes "content_type") content_type [];
}

unfoldable pub set_header : Bytes → Bytes → HttpResponse → HttpResponse
set_header field value r = record r { headers = insert field value r.headers }

unfoldable pub unset_header : Bytes → HttpResponse → HttpResponse
unset_header field r = record r { headers = erase field r.headers }

unfoldable pub set_status : ℕ → HttpResponse → HttpResponse
set_status status r = record r { status = status }

unfoldable pub set_content : Bytes → HttpResponse → HttpResponse
set_content content r = record r {
  content = content;
  headers = insert content_length (to_decimal (length content)) r.headers;
}

unfoldable pub get_header : Bytes → HttpResponse → Bytes
get_header name r = value_or [] (lookup name r.headers)

unfoldable pub clear : HttpResponse → HttpResponse
clear r = record { status = 200; content = []; headers = [] }

-- The `switch` over the status.
unfoldable pub reason : ℕ → Bytes
reason status =
    if status == 200
    then codes "OK"
    else if status == 400
    then codes "Bad Request"
    else if status == 404
    then codes "Not Found"
    else if status == 500
    then codes "Internal Server Error"
    else []

unfoldable pub serialize : HttpResponse → Bytes
serialize r =
    codes "HTTP/1.1 "
    ++ (to_decimal r.status ++ (b' ' ∷ (reason r.status ++ (crlf ++ tail_of r.headers r.content))))

pub record Wire : Type 0 where
  pub version : Bytes
  pub code : Option ℕ
  pub phrase : Bytes
  pub fields : Headers
  pub body : Bytes

-- A reader of the form of a response.
unfoldable pub read_response : ℕ → Bytes → Option Wire
read_response fuel s = do
  (version, s₁) ← read_until b' ' s
  (code, s₂) ← read_until b' ' s₁
  (phrase, s₃) ← read_until 13 s₂
  s₄ ← expect 10 s₃
  (fields, body) ← read_tail fuel s₄
  some (record {
    version = version;
    code = stoul code;
    phrase = phrase;
    fields = fields;
    body = body;
  })

reason_plain : (status : ℕ) → All (λ c. c ≢ 13) (reason status)
unfolding reason
reason_plain status = elim (Bool-cases (status == 200)) [
  | inl e ↦ rw e (omega arith)
  | inr e ↦ rw e (elim (Bool-cases (status == 400)) [
    | inl e ↦ rw e (omega arith)
    | inr e ↦ rw e (elim (Bool-cases (status == 404)) [
      | inl e ↦ rw e (omega arith)
      | inr e ↦
          rw e (elim (Bool-cases (status == 500)) [ inl e ↦ rw e (omega arith) | inr e ↦ rw e tt ])
    ])
  ])
]

-- The text of a response with well formed headers is read back as its status, reason, headers with a
-- value, and body.
pub read_response-serialize :
    (fuel : ℕ) (r : HttpResponse)
    → r.status < 10 ^ 20
    → All IsHeader r.headers
    → length r.headers < fuel
    → read_response fuel (serialize r)
      ≡ some (record {
        version = codes "HTTP/1.1";
        code = some r.status;
        phrase = reason r.status;
        fields = visible r.headers;
        body = r.content;
      })
unfolding read_response serialize
read_response-serialize fuel r s h b = rw (
  read_until-append b' ' (codes "HTTP/1.1")
      (to_decimal r.status ++ (b' ' ∷ (reason r.status ++ (crlf ++ tail_of r.headers r.content))))
      (omega arith),
  read_until-append b' ' (to_decimal r.status)
      (reason r.status ++ (crlf ++ tail_of r.headers r.content)) (to_decimal_plain r.status),
  read_until-append 13 (reason r.status) (10 ∷ tail_of r.headers r.content) (reason_plain r.status),
  read_tail-tail_of fuel r.headers r.content h b,
  stoul-to_decimal r.status s,
)
