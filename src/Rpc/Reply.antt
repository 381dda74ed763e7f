-- ===== src/Rpc/Reply.antt =====
-- The reply of `TinycoRpc::Serve` as a text that the channel can read.
use tinyco.Prelude.{
  ℕ, suc, ◌+◌, ◌≤◌, ◌<◌, ◌≡◌, refl, ap, ◌∙◌, ◌≢◌, inl, inr, true, some, [], ◌∷◌, arith, Bool-cases,
  length, All, ℤ, Bytes, codes, eqb, lookup, insert, value_or,
}
use tinyco.Http.Decimal.{to_decimal, to_decimal_without}
use tinyco.Http.Headers.{Headers, IsHeader, visible}
use tinyco.Http.Request.{HttpRequest, is_header, get_header, content_length}
use tinyco.Http.Response.{
  HttpResponse, read_response, serialize, read_response-serialize, reason, set_content, set_header,
  Wire as Reply,
}
use tinyco.Http.Parser.{connection}
use tinyco.Http.Server.{Work, reply, echo}
use tinyco.Server.Services.{MethodDescriptor}
use tinyco.Rpc.Protobuf.{Protobuf, ReadsBack}
use tinyco.Rpc.Serve.{called, answer}

pub insert-IsHeader :
    (k v : Bytes) (hs : Headers) → All IsHeader hs → IsHeader (k, v) → All IsHeader (insert k v hs)
insert-IsHeader k v [] h i = (i, tt)
insert-IsHeader k v ((j, w) ∷ hs) (here, rest) i = elim (Bool-cases (eqb j k)) [
  | inl e ↦ rw e ((here.0, i.1), rest)
  | inr e ↦ rw e (here, insert-IsHeader k v hs rest i)
]

pub length-insert : (k v : Bytes) (hs : Headers) → length (insert k v hs) ≤ suc (length hs)
length-insert k v [] = omega arith
length-insert k v ((j, w) ∷ hs) = ground (arith, length-insert k v hs)

lookup-IsValue :
    (k : Bytes) (hs : Headers) → All IsHeader hs → All (λ b. b ≢ 13) (value_or [] (lookup k hs))
lookup-IsValue k [] h = tt
lookup-IsValue k ((j, w) ∷ hs) (here, rest) = elim (Bool-cases (eqb j k)) [
  | inl e ↦ rw e here.1
  | inr e ↦ rw e (lookup-IsValue k hs rest)
]

pub content_length-IsHeader : (n : ℕ) → IsHeader (content_length, to_decimal n)
content_length-IsHeader n = (omega arith, to_decimal_without 13 n (omega arith))

-- A response with a status that has a text, and well formed headers, fewer than `k`.
abbrev pub IsClean : ℕ → HttpResponse → Type 0
IsClean k r = All IsHeader r.headers × (length r.headers ≤ k)

set_content-IsClean :
    (k : ℕ) (s : Bytes) (r : HttpResponse) → IsClean k r → IsClean (suc k) (set_content s r)
unfolding set_content
set_content-IsClean k s r (h, l) =
    let more = length-insert content_length (to_decimal (length s)) r.headers in
    (
      insert-IsHeader content_length (to_decimal (length s)) r.headers h
          (content_length-IsHeader (length s)),
      omega arith,
    )

echo-IsClean :
    (k : ℕ) (q : HttpRequest) (r : HttpResponse)
    → All IsHeader q.headers
    → IsClean k r
    → IsClean (suc k) (echo q r)
unfolding echo set_header get_header
echo-IsClean k q r hq (h, l) =
    let more = length-insert connection (get_header connection q) r.headers in
    elim (Bool-cases (is_header connection q)) [
      | inl e ↦ rw e (
        insert-IsHeader connection (get_header connection q) r.headers h
            (omega arith, lookup-IsValue connection q.headers hq),
        omega arith,
      )
      | inr e ↦ rw e (h, omega arith)
    ]

hrsp-reply :
    {W : Type 0} (send : Bytes → W → ℤ × W) (w : Work W)
    → (reply send w).1.hrsp ≡ echo w.hreq w.hrsp
unfolding reply
hrsp-reply send w = refl

content-echo : (q : HttpRequest) (r : HttpResponse) → (echo q r).content ≡ r.content
unfolding echo set_header
content-echo q r = ground arith

status-echo : (q : HttpRequest) (r : HttpResponse) → (echo q r).status ≡ r.status
unfolding echo set_header
status-echo q r = ground arith

module _ {S : Type 0} {M : Type 0} {W : Type 0} (pb : Protobuf S M W)
    (send : Bytes → W → ℤ × W) where
  -- The response of a call, as it is sent.
  abbrev pub reply_of : MethodDescriptor S → M → Work W → HttpResponse
  reply_of d m w =
      let rsp =
        (pb.call_method d.service d.method m (pb.new_response d.service d.method) w.world).0 in
      echo w.hreq (set_content (pb.serialize_to_string rsp) w.hrsp)

  pub hrsp-answer :
      (d : MethodDescriptor S) (m : M) (w : Work W) → (answer pb send d m w).1.hrsp ≡ reply_of d m w
  unfolding answer called
  hrsp-answer d m w = hrsp-reply send (called pb send d m w)

  reply_of-IsClean :
      (k : ℕ) (d : MethodDescriptor S) (m : M) (w : Work W)
      → All IsHeader w.hreq.headers
      → IsClean k w.hrsp
      → IsClean (k + 2) (reply_of d m w)
  reply_of-IsClean k d m w hq c =
      let rsp =
        (pb.call_method d.service d.method m (pb.new_response d.service d.method) w.world).0 in
      let set = set_content-IsClean k (pb.serialize_to_string rsp) w.hrsp c in
      let echoed =
        echo-IsClean (suc k) w.hreq (set_content (pb.serialize_to_string rsp) w.hrsp) hq set in
      (echoed.0, let l = echoed.1 in omega arith)

  -- What the channel reads of the reply: its status, its body, and the message in the body.
  abbrev pub Answered : ℕ → M → M → HttpResponse → Type 0
  Answered fuel rsp into r =
      (v : Reply) × (read_response fuel (serialize r) ≡ some v)
      × (v.code ≡ some 200)
      × (pb.parse_from_string v.body into ≡ (true, rsp))

  pub reply_of-Answered :
      (fuel k : ℕ) (d : MethodDescriptor S) (m rsp into : M) (w : Work W)
      → All IsHeader w.hreq.headers
      → IsClean k w.hrsp
      → k + 2 < fuel
      → w.hrsp.status ≡ 200
      → (pb.call_method d.service d.method m (pb.new_response d.service d.method) w.world).0 ≡ rsp
      → ReadsBack pb rsp into
      → Answered fuel rsp into (reply_of d m w)
  unfolding set_content
  reply_of-Answered fuel k d m rsp into w hq c l s e back =
      let r = reply_of d m w in
      let clean = reply_of-IsClean k d m w hq c in
      let made =
        (pb.call_method d.service d.method m (pb.new_response d.service d.method) w.world).0 in
      let ok : r.status ≡ 200 =
        status-echo w.hreq (set_content (pb.serialize_to_string made) w.hrsp) ∙ s in
      let body : r.content ≡ pb.serialize_to_string rsp =
        content-echo w.hreq (set_content (pb.serialize_to_string made) w.hrsp)
        ∙ ap pb.serialize_to_string e in
      let few : length r.headers < fuel = let b = clean.1 in omega arith in
      (
        record {
          version = codes "HTTP/1.1";
          code = some r.status;
          phrase = reason r.status;
          fields = visible r.headers;
          body = r.content;
        },
        read_response-serialize fuel r (rw ok (omega arith)) clean.0 few,
        ap some ok,
        ap (λ b. pb.parse_from_string b into) body ∙ back,
      )
