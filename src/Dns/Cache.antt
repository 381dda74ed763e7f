-- ===== src/Dns/Cache.antt =====
-- What `Resolve` of dns/dns_resolve_impl.cc gives from its cache, and what a query leaves in it.
use tinyco.Prelude.{
  ℕ, zero, suc, ◌+◌, ◌*◌, ◌/◌, ◌%◌, ◌^◌, ◌<◌, ◌≡◌, refl, ap, ◌∙◌, inl, inr, true, false, some, List,
  [], ◌∷◌, ◌++◌, arith, ltb, ◌==◌, lt→ltb, Bool-cases, Option-cases, length, get_elem?, Bytes,
  eqb_self, lookup, insert, lookup-insert,
}
use native.Mathlib.Nat.{mod-lt}
use tinyco.Dns.{
  ResCache, pick_one, Resolver, Ares, entry, refill, or_new, pick, query, from_cache, resolve,
}

nth : (xs : List ℕ) (i : ℕ) → i < length xs → (a : ℕ) × (get_elem? xs i ≡ some a)
nth [] i h = absurd (omega arith)
nth (x ∷ xs) zero h = (x, refl)
nth (x ∷ xs) (suc i) h = nth xs i (omega arith)

pick_one-Among :
    (c : ResCache)
    → 0 < length c.ip
    → (get_elem? c.ip (c.idx % length c.ip) ≡ some (pick_one c).0)
      × ((pick_one c).1.ip ≡ c.ip)
      × ((pick_one c).1.idx ≡ (c.idx + 1) % 2 ^ 32)
unfolding pick_one
pick_one-Among c h =
    let i : ℕ = c.idx % length c.ip in
    let some_left : (length c.ip == 0) ≡ false = ground arith in
    let (a, e) = nth c.ip i (mod-lt c.idx h) in rw some_left (rw e refl, refl, refl)

entry-insert :
    (domain : Bytes) (c : ResCache) (r : Resolver)
    → entry domain (record r { res_cache = insert domain c r.res_cache }) ≡ c
entry-insert domain c r =
    let there : lookup domain (insert domain c r.res_cache) ≡ some c =
      rw (lookup-insert domain domain c r.res_cache, eqb_self domain) in
    ap or_new there

pick_one-kept : (c : ResCache) → ((pick_one c).1.ip ≡ c.ip) × ((pick_one c).1.timeout ≡ c.timeout)
unfolding pick_one
pick_one-kept c = (ground arith, ground arith)

refill-both :
    (now : ℕ) (addrs : List ℕ) (c : ResCache)
    → ((refill now addrs c).ip ≡ c.ip ++ addrs)
      × ((refill now addrs c).timeout ≡ (now / 1000 + 5 * 60) % 2 ^ 32)
unfolding refill
refill-both now addrs c = (refl, refl)

pick-entry :
    (domain : Bytes) (c : ResCache) (r : Resolver)
    → ((entry domain (pick domain c r).1).ip ≡ c.ip)
      × ((entry domain (pick domain c r).1).timeout ≡ c.timeout)
unfolding pick
pick-entry domain c r =
    let (i, t) = pick_one-kept c in
    (rw (entry-insert domain (pick_one c).1 r) i, rw (entry-insert domain (pick_one c).1 r) t)

module _ {W : Type 0} (ares : Ares W) where
  from_cache-fresh :
      (domain : Bytes) (r : Resolver) (w : W) (c : ResCache)
      → lookup domain r.res_cache ≡ some c
      → ltb (ares.mstime w / 1000) c.timeout ≡ true
      → from_cache ares domain r w ≡ (
        some (pick_one c).0,
        record r { res_cache = insert domain (pick_one c).1 r.res_cache },
        w,
      )
  unfolding from_cache pick
  from_cache-fresh domain r w c l f = rw (l, from_cache, f) refl

  resolve-open :
      (domain : Bytes) (r : Resolver) (w : W)
      → r.channel_init ≡ true
      → resolve ares domain r w ≡ from_cache ares domain r w
  unfolding resolve
  resolve-open domain r w i = ground arith

  -- While the cached value of a name counts, `Resolve` asks nobody: it gives the address at the index,
  -- modulo how many there are, and moves the index on by one.
  pub resolve-cached :
      (domain : Bytes) (r : Resolver) (w : W) (c : ResCache)
      → r.channel_init ≡ true
      → lookup domain r.res_cache ≡ some c
      → ares.mstime w / 1000 < c.timeout
      → 0 < length c.ip
      → (a : ℕ) × (r' : Resolver) × (resolve ares domain r w ≡ (some a, r', w))
        × (get_elem? c.ip (c.idx % length c.ip) ≡ some a)
        × ((entry domain r').ip ≡ c.ip)
        × ((entry domain r').idx ≡ (c.idx + 1) % 2 ^ 32)
  resolve-cached domain r w c i l t p =
      let (g, s, x) = pick_one-Among c p in
      let fresh : ltb (ares.mstime w / 1000) c.timeout ≡ true =
        lt→ltb (ares.mstime w / 1000) c.timeout t in
      (
        (pick_one c).0,
        record r { res_cache = insert domain (pick_one c).1 r.res_cache },
        resolve-open domain r w i ∙ from_cache-fresh domain r w c l fresh,
        g,
        rw (entry-insert domain (pick_one c).1 r) s,
        rw (entry-insert domain (pick_one c).1 r) x,
      )

  -- After an answer of the name server, the name's addresses are the old ones, out of date as they may
  -- be, followed by the new ones; the value counts for five minutes, and the address given is one of all.
  pub query-keeps_stale :
      (domain : Bytes) (r r' : Resolver) (w w' : W) (a : ℕ)
      → query ares domain r w ≡ (some a, r', w')
      → (addrs : List ℕ) × ((entry domain r').ip ≡ (entry domain r).ip ++ addrs)
        × ((entry domain r').timeout ≡ (ares.mstime w' / 1000 + 5 * 60) % 2 ^ 32)
  unfolding query
  query-keeps_stale domain r r' w w' a e = elim (Option-cases (ares.mkquery domain)) [
    | inl m ↦ absurd (ground arith)
    | inr (req, m) ↦ elim (Bool-cases (ares.nservers == 0)) [
      | inl z ↦ absurd (ground arith)
      | inr z ↦ elim (Option-cases (ares.exchange req w).0) [
        | inl x ↦ absurd (ground arith)
        | inr (rsp, x) ↦ elim (Option-cases (ares.parse_a_reply rsp)) [
          | inl p ↦ absurd (ground arith)
          | inr (addrs, p) ↦
              let c = refill (ares.mstime (ares.exchange req w).1) addrs (entry domain r) in
              let here : r' ≡ (pick domain c r).1 = ground arith in
              let now : w' ≡ (ares.exchange req w).1 = ground arith in
              let (j, t) = pick-entry domain c r in
              let (u, y) =
                refill-both (ares.mstime (ares.exchange req w).1) addrs (entry domain r) in
              (addrs, rw here (j ∙ u), rw (here, now) (t ∙ y))
        ]
      ]
    ]
  ]
