-- ===== src/Dns/Tests.antt =====
-- Examples for the resolver, with a name server that knows one address.
use tinyco.Prelude.{ℕ, ◌%◌, ◌≡◌, refl, true, some, [], ◌∷◌, arith, get_elem?, codes}
use tinyco.Dns.{ResCache, Resolver, Ares, entry, refill, pick, resolve}
use tinyco.Dns.Cache.{resolve-cached}

-- The outside is the time in milliseconds.
abbrev server : Ares ℕ
server = record {
  library_init = λ w. (true, w);
  init_options = λ w. (true, w);
  mkquery = λ domain. some domain;
  nservers = 1;
  exchange = λ req w. (some req, w);
  parse_a_reply = λ rsp. some (9 ∷ []);
  mstime = λ w. w;
}

abbrev two_addresses : ResCache
two_addresses = record { ip = 5 ∷ 6 ∷ []; timeout = 300; idx = 3 }

abbrev known : Resolver
known = record { channel_init = true; res_cache = (codes "a", two_addresses) ∷ [] }

resolve-cached_example :
    (a : ℕ) × (r : Resolver) × (resolve server (codes "a") known 1000 ≡ (some a, r, 1000))
    × (get_elem? (5 ∷ 6 ∷ []) (3 % 2) ≡ some a)
    × ((entry (codes "a") r).ip ≡ 5 ∷ 6 ∷ [])
    × ((entry (codes "a") r).idx ≡ 4)
resolve-cached_example =
    resolve-cached server (codes "a") known 1000 two_addresses refl refl (omega arith) (omega arith)

abbrev renewed : ResCache
renewed = refill 400000 (9 ∷ []) two_addresses

abbrev after_query : Resolver
after_query = (pick (codes "a") renewed known).1
