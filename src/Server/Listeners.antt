-- ===== src/Server/Listeners.antt =====
-- The listeners and the workers that `ServerImpl::Initialize` leaves, server.cc and listener.cc.
use tinyco.Prelude.{
  ℕ, ◌≡◌, refl, ◌≢◌, Bool, true, false, Option, none, some, List, [], ◌∷◌, ◌++◌, if◌then◌else◌, All,
  All-append, ℤ, pos, negsuc, Bytes, codes, eqb,
}
use tinyco.Mutex.Defs.{AtomicMtx, free}
use tinyco.Listener.Network.{SocketApi}
use tinyco.Listener.Listen.{Listener, tcp_listener_new, udp_listener_new, tcp_listen, udp_listen}
use tinyco.Listener.Opened.{Settled, listen-Settled}
use tinyco.Server.Services.{ListenItem, parse_listen}
use tinyco.Server.Start.{Opened, listen_on, keep, take_item, init_items, init_listener}

-- A listener with a socket and a free lock, whose protocol is called tcp.
abbrev pub Listening : Listener → Type 0
Listening l = (l.listenfd ≢ none) × (l.mtx ≡ some free) × (l.proto ≡ codes "tcp")

module _ {W : Type 0} (api : SocketApi W) (eth_addr : Bytes → Option ℕ) (atoi : Bytes → ℕ) where
  -- What `Listen` gives is a listener like that, where it succeeds.
  abbrev Made : Option (ℤ × (Listener × W)) → Type 0
  Made none = Unit
  Made (some (pos n, (l, w))) = Listening l
  Made (some (negsuc n, (l, w))) = Unit

  Settled-Made :
      (line ip port : ℕ) (r : ℤ × (Listener × W))
      → Settled line ip port (codes "tcp") r.0 r.1.0
      → Made (some r)
  Settled-Made line ip port (pos n, (l, w)) (_, o) = (o.has_socket, o.has_lock, o.has_name)
  Settled-Made line ip port (negsuc n, (l, w)) h = tt

  if-Made :
      (b : Bool) (x y : Option (ℤ × (Listener × W))) → Made x → Made y → Made (if b then x else y)
  if-Made true x y h k = h
  if-Made false x y h k = k

  listen_on-Made :
      (proto : Bytes) (li : ListenItem) (w : W) → Made (listen_on api eth_addr atoi proto li w)
  unfolding listen_on tcp_listener_new udp_listener_new
  listen_on-Made proto li w =
      let word : AtomicMtx = record { word = none } in
      let tcp = tcp_listen api li.ip li.port (tcp_listener_new 0 0) w in
      let udp = udp_listen api li.ip li.port (udp_listener_new 0 0) w in
      let on_tcp =
        listen-Settled api (codes "tcp") li.ip li.port (tcp_listener_new 0 0) word w refl refl in
      let on_udp =
        listen-Settled api (codes "tcp") li.ip li.port (udp_listener_new 0 0) word w refl refl in
      let other : Option (ℤ × (Listener × W)) =
        if eqb (codes "udp") proto then some udp else none in
      if-Made (eqb (codes "tcp") proto) (some tcp) other
        (Settled-Made 28 li.ip li.port tcp on_tcp.0)
        (if-Made (eqb (codes "udp") proto) (some udp) none
          (Settled-Made 70 li.ip li.port udp on_udp.1) tt)

  -- All that is kept is listening.
  abbrev pub AllListening : ℤ × Opened api eth_addr atoi → Type 0
  AllListening r = All Listening r.1.0

  keep-AllListening :
      (next : Opened api eth_addr atoi → ℤ × Opened api eth_addr atoi)
      (s : Opened api eth_addr atoi) (o : Option (ℤ × (Listener × W)))
      → ((t : Opened api eth_addr atoi) → All Listening t.0 → AllListening (next t))
      → All Listening s.0
      → Made o
      → AllListening (keep api eth_addr atoi next s o)
  unfolding keep
  keep-AllListening next s none f h m = f s h
  keep-AllListening next (ls, w) (some (pos n, (l, w'))) f h m =
      f (ls ++ l ∷ [], w') (All-append Listening ls (l ∷ []) h (m, tt))
  keep-AllListening next (ls, w) (some (negsuc n, (l, w'))) f h m = h

  take_item-AllListening :
      (next : ListenItem → Opened api eth_addr atoi → ℤ × Opened api eth_addr atoi) (proto : Bytes)
      (p : Bool × ListenItem) (s : Opened api eth_addr atoi)
      → ((li : ListenItem) (t : Opened api eth_addr atoi)
          → All Listening t.0
          → AllListening (next li t))
      → All Listening s.0
      → AllListening (take_item api eth_addr atoi next proto p s)
  unfolding take_item
  take_item-AllListening next proto (false, li) s f h = h
  take_item-AllListening next proto (true, li) (ls, w) f h =
      keep-AllListening (next li) (ls, w) (listen_on api eth_addr atoi proto li w) (f li) h
        (listen_on-Made proto li w)

  init_items-AllListening :
      (proto : Bytes) (items : List Bytes) (li : ListenItem) (s : Opened api eth_addr atoi)
      → All Listening s.0
      → AllListening (init_items api eth_addr atoi proto items li s)
  unfolding init_items
  init_items-AllListening proto [] li s h = h
  init_items-AllListening proto (config ∷ items) li s h =
      take_item-AllListening (λ li' s'. init_items api eth_addr atoi proto items li' s') proto
        (parse_listen eth_addr atoi proto config li) s
        (λ li' t k. init_items-AllListening proto items li' t k) h

  pub init_listener-AllListening :
      (proto : Bytes) (items : Option (List Bytes)) (li : ListenItem) (s : Opened api eth_addr atoi)
      → All Listening s.0
      → AllListening (init_listener api eth_addr atoi proto items li s)
  unfolding init_listener
  init_listener-AllListening proto none li s h = h
  init_listener-AllListening proto (some items) li s h = init_items-AllListening proto items li s h
