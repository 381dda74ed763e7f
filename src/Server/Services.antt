-- ===== src/Server/Services.antt =====
-- `AddRpcService`, `ParseConfig` and `ListenItem::Parse` of server.cc. The service's descriptor, JSON and
-- `std::atoi` are parameters.
use tinyco.Prelude.{
  ℕ, ◌%◌, ◌^◌, ◌≡◌, refl, ◌↔◌, inl, inr, Bool, true, false, not, ◌&&◌, Option, none, some, List, [],
  ◌∷◌, arith, ◌==◌, if◌then◌else◌, Bool-cases, Option-cases, length, Bytes, eqb, lookup, insert,
  lookup-insert,
}
use mathlib.Core.Path.{subst, subst⁻¹}
use tinyco.Text.Split.{split}
use tinyco.Text.Trim.{trim}

-- `MethodDescriptor`, for services of any type.
pub record MethodDescriptor {ℓ} (S : Type ℓ) : Type ℓ where
  pub service : S
  pub method : Bytes
  pub full_name : Bytes

module _ {ℓ} {S : Type ℓ} (find_method : S → Bytes → Option Bytes) where
  abbrev pub MethodMap : Type ℓ
  MethodMap = List (Bytes × MethodDescriptor S)

  -- One mapping, split at `>`: `none` where there are not two parts or the service has no such method.
  unfoldable pub add_method : S → List Bytes → MethodMap → Option MethodMap
  add_method s [] m = none
  add_method s (path ∷ []) m = none
  add_method s (path ∷ name ∷ []) m = elim (find_method s (trim name)) [
    | none ↦ none
    | some full ↦
        some (insert (trim path) (record { service = s; method = trim name; full_name = full }) m)
  ]
  add_method s (path ∷ name ∷ more ∷ rest) m = none

  -- The loop over the mappings: whether all were added, and the map, which keeps those in front of an
  -- error.
  unfoldable pub add_methods : S → List Bytes → MethodMap → Bool × MethodMap
  unfolding add_method
  add_methods s [] m = (true, m)
  add_methods s (mapping ∷ rest) m = elim (add_method s (split mapping b'>') m) [
    | none ↦ (false, m)
    | some m' ↦ add_methods s rest m'
  ]

  -- `AddRpcService`.
  unfoldable pub add_rpc_service : S → Bytes → MethodMap → Bool × MethodMap
  unfolding add_methods
  add_rpc_service s restful_mappings m = add_methods s (split restful_mappings b',') m

-- The test of `ParseConfig` on the members of the configuration, which was read.
unfoldable pub parse_config : Bool → Bool → Bool → Bool
parse_config udp tcp http = if not udp && (tcp && not http) then false else true

-- `ParseConfig` on the text of the file: `parse` is the JSON reader, which gives whether the members udp,
-- tcp and http are there, or nothing for a text that it cannot read.
unfoldable pub read_config : (Bytes → Option (Bool × Bool × Bool)) → Bytes → Bool
unfolding parse_config
read_config parse text = elim (parse text) [
  | none ↦ false
  | some (udp, tcp, http) ↦ parse_config udp tcp http
]

pub record ListenItem : Type 0 where
  pub proto : Bytes
  pub ip : ℕ
  pub port : ℕ

-- `ListenItem::Parse`, with the address of an interface and `std::atoi`; on `false` the item may have
-- its protocol set.
unfoldable pub parse_listen :
    (Bytes → Option ℕ) → (Bytes → ℕ) → Bytes → Bytes → ListenItem → Bool × ListenItem
parse_listen eth_addr atoi proto config li =
    let two = split config b':' in
    elim two [
      | [] ↦ (false, li)
      | eth ∷ more ↦ elim more [
        | [] ↦ (false, li)
        | port ∷ rest ↦ if not (length rest == 0) then (false, li) else elim (eth_addr eth) [
          | none ↦ (false, record li { proto = proto })
          | some ip ↦ (true, record { proto = proto; ip = ip; port = atoi port % 2 ^ 16 })
        ]
      ]
    ]

module _ {ℓ} {S : Type ℓ} (find_method : S → Bytes → Option Bytes) where
  -- A descriptor of a method that its service has.
  abbrev pub Served : MethodDescriptor S → Type 0
  Served d = find_method d.service d.method ≡ some d.full_name

  -- Every path of a map leads to a method of its service.
  abbrev pub AllServed : MethodMap find_method → Type ℓ
  AllServed m = (path : Bytes) (d : MethodDescriptor S) → lookup path m ≡ some d → Served d

  insert-AllServed :
      (path : Bytes) (d : MethodDescriptor S) (m : MethodMap find_method)
      → AllServed m
      → Served d
      → AllServed (insert path d m)
  insert-AllServed path d m h served key e l = elim (Bool-cases (eqb path key)) [
    | inl k ↦
        let same : d ≡ e = ground (arith, lookup-insert path key d m) in subst Served same served
    | inr k ↦ h key e (ground (arith, lookup-insert path key d m))
  ]

  add_method-AllServed :
      (s : S) (parts : List Bytes) (m m' : MethodMap find_method)
      → AllServed m
      → add_method find_method s parts m ≡ some m'
      → AllServed m'
  unfolding add_method
  add_method-AllServed s [] m m' h e = absurd (ground arith)
  add_method-AllServed s (path ∷ []) m m' h e = absurd (ground arith)
  add_method-AllServed s (path ∷ name ∷ []) m m' h e =
      elim (Option-cases (find_method s (trim name))) [
        | inl n ↦ absurd (ground arith)
        | inr (full, n) ↦
            let d : MethodDescriptor S = record {
              service = s;
              method = trim name;
              full_name = full;
            } in
            let made : m' ≡ insert (trim path) d m = ground arith in
            subst⁻¹ AllServed made (insert-AllServed (trim path) d m h n)
      ]
  add_method-AllServed s (path ∷ name ∷ more ∷ rest) m m' h e = absurd (ground arith)

  add_methods_none :
      (s : S) (m : MethodMap find_method) → add_methods find_method s [] m ≡ (true, m)
  unfolding add_methods
  add_methods_none s m = refl

  add_methods_stop :
      (s : S) (mapping : Bytes) (rest : List Bytes) (m : MethodMap find_method)
      → add_method find_method s (split mapping b'>') m ≡ none
      → add_methods find_method s (mapping ∷ rest) m ≡ (false, m)
  unfolding add_methods
  add_methods_stop s mapping rest m n = rw (add_methods, n)

  add_methods_next :
      (s : S) (mapping : Bytes) (rest : List Bytes) (m m' : MethodMap find_method)
      → add_method find_method s (split mapping b'>') m ≡ some m'
      → add_methods find_method s (mapping ∷ rest) m ≡ add_methods find_method s rest m'
  unfolding add_methods
  add_methods_next s mapping rest m m' n = rw (add_methods, n)

  add_methods-AllServed :
      (s : S) (mappings : List Bytes) (m : MethodMap find_method)
      → AllServed m
      → AllServed (add_methods find_method s mappings m).1
  add_methods-AllServed s [] m h = subst⁻¹ (λ r. AllServed r.1) (add_methods_none s m) h
  add_methods-AllServed s (mapping ∷ rest) m h =
      elim (Option-cases (add_method find_method s (split mapping b'>') m)) [
        | inl n ↦ subst⁻¹ (λ r. AllServed r.1) (add_methods_stop s mapping rest m n) h
        | inr (m', n) ↦
            subst⁻¹ (λ r. AllServed r.1) (add_methods_next s mapping rest m m' n)
              (add_methods-AllServed s rest m'
                (add_method-AllServed s (split mapping b'>') m m' h n))
      ]

  -- Whatever mappings are added, and whether or not one of them is refused: if every path led to a method
  -- of its service before, every path does after, and the descriptor has the method's full name.
  pub add_rpc_service-Served :
      (s : S) (restful_mappings path : Bytes) (m : MethodMap find_method) (d : MethodDescriptor S)
      → AllServed m
      → lookup path (add_rpc_service find_method s restful_mappings m).1 ≡ some d
      → find_method d.service d.method ≡ some d.full_name
  unfolding add_rpc_service
  add_rpc_service-Served s restful_mappings path m d h l =
      add_methods-AllServed s (split restful_mappings b',') m h path d l

-- `ParseConfig` refuses exactly the configurations with a tcp item alone, and takes one without any item.
pub parse_config-tcp_only :
    (udp tcp http : Bool)
    → ((parse_config udp tcp http ≡ false) ↔ ((udp ≡ false) × (tcp ≡ true) × (http ≡ false)))
      × (parse_config false false false ≡ true)
unfolding parse_config
parse_config-tcp_only true tcp http =
    ((λ e. absurd (ground arith), λ e. absurd (ground arith)), refl)
parse_config-tcp_only false false http =
    ((λ e. absurd (ground arith), λ e. absurd (ground arith)), refl)
parse_config-tcp_only false true true =
    ((λ e. absurd (ground arith), λ e. absurd (ground arith)), refl)
parse_config-tcp_only false true false = ((λ e. (refl, refl, refl), λ e. refl), refl)
