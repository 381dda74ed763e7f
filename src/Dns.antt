-- ===== src/Dns.antt =====
-- `DNSResolverImpl` of dns/dns_resolve_impl.h and .cc: the cache of addresses, from which one after the
-- other is picked, and `Resolve`. c-ares, the name server behind `Frame::UdpSendAndRecv`, and the clock
-- are parameters over a state of the outside.
use tinyco.Prelude.{
  ℕ, zero, suc, ◌+◌, ◌-◌, ◌*◌, ◌/◌, ◌%◌, ◌^◌, ◌≤◌, ◌<◌, ◌≡◌, refl, sym, ap, ◌∙◌, ◌≢◌, ◌↔◌, ◌⊎◌, inl,
  inr, Bool, true, false, not, ◌&&◌, ◌||◌, Option, none, some, List, [], ◌∷◌, ◌++◌, map, append-nil,
  append_assoc, arith, ltb, leb, ◌==◌, if◌then◌else◌, ltb→lt, lt→ltb, leb→le, ==_iff, ==_self,
  Bool-cases, Option-cases, length, get_elem?, take, drop, replicate, length-append, length-take,
  length-drop, take-append-drop, drop_all, take_all, drop-append, take-append, drop-drop, All,
  All-append, ℤ, pos, negsuc, neg, is_neg, is_pos, Bytes, codes, eqb, eqb_sound, eqb_self, eqb_iff,
  is_empty, lookup, insert, erase, has_key, value_or, lookup-insert, lookup-erase, count,
  count-append, reverse,
}
pub mod Cache
mod Tests

-- `ResCache`: the addresses, the time in seconds until which they count, and the index of the next.
pub record ResCache : Type 0 where
  pub ip : List ℕ
  pub timeout : ℕ
  pub idx : ℕ

-- A value that the map makes for a new name. Its `idx` and `timeout` are zero, as `operator[]` makes
-- them.
abbrev pub new_cache : ResCache
new_cache = record { ip = []; timeout = 0; idx = 0 }

-- `PickOne`: `ip[(idx++) % ip.size()]`, and the address 0 where there is none.
unfoldable pub pick_one : ResCache → ℕ × ResCache
pick_one r = if length r.ip == 0 then (0, r) else (
  elim (get_elem? r.ip (r.idx % length r.ip)) [ none ↦ 0 | some a ↦ a ],
  record r { idx = (r.idx + 1) % 2 ^ 32 },
)

-- The state of the class: whether `channel` is made, and `res_cache_`.
pub record Resolver : Type 0 where
  pub channel_init : Bool
  pub res_cache : List (Bytes × ResCache)

-- c-ares, whose calls succeed or not, the exchange with the first name server, and `time::mstime`.
pub record Ares (W : Type 0) : Type 0 where
  pub library_init : W → Bool × W
  pub init_options : W → Bool × W
  pub mkquery : Bytes → Option Bytes
  pub nservers : ℕ
  pub exchange : Bytes → W → Option Bytes × W
  pub parse_a_reply : Bytes → Option (List ℕ)
  pub mstime : W → ℕ

abbrev pub or_new : Option ResCache → ResCache
or_new none = new_cache
or_new (some c) = c

-- `res_cache_[domain]`.
abbrev pub entry : Bytes → Resolver → ResCache
entry domain r = or_new (lookup domain r.res_cache)

-- The new addresses go behind those that are there.
unfoldable pub refill : ℕ → List ℕ → ResCache → ResCache
refill now addrs c = record c { ip = c.ip ++ addrs; timeout = (now / 1000 + 5 * 60) % 2 ^ 32 }

-- `*ip = c->second.PickOne()` for the value of a name: the address, and the map after it.
unfoldable pub pick : Bytes → ResCache → Resolver → ℕ × Resolver
unfolding pick_one
pick domain c r =
    let (a, c') = pick_one c in (a, record r { res_cache = insert domain c' r.res_cache })

module _ {W : Type 0} (ares : Ares W) where
  -- The result, `none` for false, and the state.
  abbrev pub Answer : Type 0
  Answer = Option ℕ × Resolver × W

  -- The part behind the cache.
  unfoldable pub query : Bytes → Resolver → W → Answer
  unfolding pick refill
  query domain r w = elim (ares.mkquery domain) [
    | none ↦ (none, r, w)
    | some req ↦
        let (reply, w₁) = ares.exchange req w in
        if ares.nservers == 0 then (none, r, w) else elim reply [
          | none ↦ (none, r, w₁)
          | some rsp ↦ elim (ares.parse_a_reply rsp) [
            | none ↦ (none, r, w₁)
            | some addrs ↦
                let (a, r') = pick domain (refill (ares.mstime w₁) addrs (entry domain r)) r in
                (some a, r', w₁)
          ]
        ]
  ]

  -- A value of the map counts while its timeout is later than the time.
  abbrev is_fresh : ResCache → W → Bool
  is_fresh c w = ltb (ares.mstime w / 1000) c.timeout

  unfoldable pub from_cache : Bytes → Resolver → W → Answer
  unfolding query
  from_cache domain r w =
      let q = query domain r w in
      elim (lookup domain r.res_cache) [
        | none ↦ q
        | some c ↦ let (a, r') = pick domain c r in if is_fresh c w then (some a, r', w) else q
      ]

  -- `Resolve`.
  unfoldable pub resolve : Bytes → Resolver → W → Answer
  unfolding from_cache
  resolve domain r w =
      let (lib, w₁) = ares.library_init w in
      let (opt, w₂) = ares.init_options w₁ in
      if r.channel_init
      then from_cache domain r w
      else if not lib
      then (none, r, w₁)
      else if not opt
      then (none, r, w₂)
      else from_cache domain (record r { channel_init = true }) w₂
