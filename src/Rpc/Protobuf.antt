-- ===== src/Rpc/Protobuf.antt =====
-- What the RPC classes use of protobuf, which is a parameter: `S` are services, `M` messages, `W` the
-- outside.
use tinyco.Prelude.{ℕ, ◌<◌, ◌≡◌, Bool, true, Option, some, Bytes}

pub record Protobuf (S : Type 0) (M : Type 0) (W : Type 0) : Type 0 where
  -- `GetDescriptor()->method_count()` and `FindMethodByName`, the full name of the method.
  pub method_count : S → ℕ
  pub find_method : S → Bytes → Option Bytes
  -- `GetRequestPrototype(method).New()` and `GetResponsePrototype(method).New()`.
  pub new_request : S → Bytes → M
  pub new_response : S → Bytes → M
  -- `CallMethod(method, NULL, request, response, NULL)`: the response, and the outside.
  pub call_method : S → Bytes → M → M → W → M × W
  -- `ParseFromString` on a message: whether it could, and the message, partly filled where not.
  pub parse_from_string : Bytes → M → Bool × M
  pub serialize_to_string : M → Bytes

module _ {S : Type 0} {M : Type 0} {W : Type 0} (pb : Protobuf S M W) where
  -- A service that finds a method counts it, as protobuf documents the two.
  abbrev pub Counts : Type 0
  Counts = (s : S) (name full : Bytes) → pb.find_method s name ≡ some full → 0 < pb.method_count s

  -- What was written of the message `m` is read back, into the message `into`.
  abbrev pub ReadsBack : M → M → Type 0
  ReadsBack m into = pb.parse_from_string (pb.serialize_to_string m) into ≡ (true, m)
