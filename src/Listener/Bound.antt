-- ===== src/Listener/Bound.antt =====
-- What `Listen` of listener.cc does to the socket, over a system that does what its calls document.
use tinyco.Prelude.{
  ℕ, ◌%◌, ◌^◌, ◌≡◌, refl, ◌∙◌, inl, inr, Bool, true, false, not, Option, some, arith, if◌then◌else◌,
  Option-cases, ℤ, pos, negsuc, neg,
}
use mathlib.Core.Path.{subst, subst⁻¹}
use tinyco.Http.Conn.{blocking_flags}
use tinyco.Mutex.Defs.{AtomicMtx, free}
use tinyco.Listener.Network.{SocketApi, set_nonblock}
use tinyco.Listener.Listen.{
  Listener, Listened, tcp_open, udp_open, tcp_made, udp_made, tcp_listen, udp_listen,
}
use tinyco.Listener.Opened.{Settled, listen-Settled, init_lock-some}

-- Which descriptors are open, to which address a socket is bound, and which sockets listen.
pub record View (W : Type 0) : Type 0 where
  pub is_open : W → ℕ → Bool
  pub address : W → ℕ → Option (ℕ × ℕ)
  pub listens : W → ℕ → Bool

-- What the calls document: `socket` opens a descriptor, `bind` binds it and `listen` makes it listen, and
-- only `close` closes it.
pub record Documented {W : Type 0} (api : SocketApi W) (v : View W) : Type 0 where
  pub opens :
      (tcp : Bool) (fd : ℕ) (w : W)
      → (api.socket tcp w).0 ≡ some fd
      → v.is_open (api.socket tcp w).1 fd ≡ true
  pub get_flags_keeps :
      (fd : ℕ) (w : W) → v.is_open w fd ≡ true → v.is_open (api.get_flags fd w).1 fd ≡ true
  pub set_flags_keeps :
      (fd flags : ℕ) (w : W)
      → v.is_open w fd ≡ true
      → v.is_open (api.set_flags fd flags w).1 fd ≡ true
  pub reuse_keeps :
      (fd : ℕ) (w : W) → v.is_open w fd ≡ true → v.is_open (api.set_reuse_addr fd w).1 fd ≡ true
  pub bind_keeps :
      (fd ip port : ℕ) (w : W)
      → v.is_open w fd ≡ true
      → v.is_open (api.bind fd ip port w).1 fd ≡ true
  pub bind_binds :
      (fd ip port : ℕ) (w : W)
      → (api.bind fd ip port w).0 ≡ true
      → v.address (api.bind fd ip port w).1 fd ≡ some (ip, port)
  pub listen_keeps :
      (fd backlog : ℕ) (w : W)
      → v.is_open w fd ≡ true
      → v.is_open (api.listen fd backlog w).1 fd ≡ true
  pub listen_stays :
      (fd backlog : ℕ) (w : W) → v.address (api.listen fd backlog w).1 fd ≡ v.address w fd
  pub listen_listens :
      (fd backlog : ℕ) (w : W)
      → (api.listen fd backlog w).0 ≡ true
      → v.listens (api.listen fd backlog w).1 fd ≡ true

module _ {W : Type 0} (api : SocketApi W) (v : View W) where
  -- After 0 the listener's socket is open and bound to the address, and listens if it is for tcp; after an
  -- error the socket that the listener has, if it has one, is open.
  abbrev pub After : Bool → ℕ × ℕ → ℤ → Listener × W → Type 0
  After tcp addr (pos n) (l, w) =
      (fd : ℕ) × (l.listenfd ≡ some fd)
      × (v.is_open w fd ≡ true)
      × (v.address w fd ≡ some addr)
      × ((tcp ≡ true) → v.listens w fd ≡ true)
  After tcp addr (negsuc k) (l, w) = (fd : ℕ) → l.listenfd ≡ some fd → v.is_open w fd ≡ true

  abbrev Ends : Bool → ℕ × ℕ → Listened api → Type 0
  Ends tcp addr r = After tcp addr r.0 r.1

  if-Ends :
      (tcp : Bool) (addr : ℕ × ℕ) (b : Bool) (x y : Listened api)
      → (b ≡ true → Ends tcp addr x)
      → (b ≡ false → Ends tcp addr y)
      → Ends tcp addr (if b then x else y)
  if-Ends tcp addr true x y h k = h refl
  if-Ends tcp addr false x y h k = k refl

  -- An error with the socket still open.
  still :
      (l : Listener) (fd : ℕ) (w : W)
      → l.listenfd ≡ some fd
      → v.is_open w fd ≡ true
      → (n : ℕ) → l.listenfd ≡ some n
      → v.is_open w n ≡ true
  still l fd w e o n k =
      let same : fd ≡ n = ground arith in subst (λ m. v.is_open w m ≡ true) same o

  holds_otherwise : (b : Bool) → not b ≡ false → b ≡ true
  holds_otherwise true h = refl
  holds_otherwise false h = absurd (ground arith)

  set_nonblock-keeps :
      (fd : ℕ) (w : W)
      → Documented api v
      → v.is_open w fd ≡ true
      → v.is_open (set_nonblock api fd w).1 fd ≡ true
  unfolding set_nonblock
  set_nonblock-keeps fd w d o = elim (Option-cases (api.get_flags fd w).0) [
    | inl e ↦ rw (set_nonblock, e) (d.get_flags_keeps fd w o)
    | inr (f, e) ↦
        rw (set_nonblock, e)
          (d.set_flags_keeps fd (blocking_flags false f) (api.get_flags fd w).1
            (d.get_flags_keeps fd w o))
  ]

  tcp_open-Ends :
      (fd : ℕ) (l : Listener) (w : W)
      → Documented api v
      → l.listenfd ≡ some fd
      → v.is_open w fd ≡ true
      → Ends true (l.ip, l.port) (tcp_open api fd l w)
  unfolding tcp_open
  tcp_open-Ends fd l w d e o =
      let (nonblock, w₁) = set_nonblock api fd w in
      let (reused, w₂) = api.set_reuse_addr fd w₁ in
      let (bound, w₃) = api.bind fd l.ip l.port w₂ in
      let (listening, w₄) = api.listen fd 5 w₃ in
      let o₁ : v.is_open w₁ fd ≡ true = set_nonblock-keeps fd w d o in
      let o₂ : v.is_open w₂ fd ≡ true = d.reuse_keeps fd w₁ o₁ in
      let o₃ : v.is_open w₃ fd ≡ true = d.bind_keeps fd l.ip l.port w₂ o₂ in
      let o₄ : v.is_open w₄ fd ≡ true = d.listen_keeps fd 5 w₃ o₃ in
      let addr : ℕ × ℕ = (l.ip, l.port) in
      let last : Listened api = if not listening then (neg 55, (l, w₄)) else (pos 0, (l, w₄)) in
      let third : Listened api = if not bound then (neg 50, (l, w₃)) else last in
      let second : Listened api = if not reused then (neg 45, (l, w₂)) else third in
      if-Ends true addr (not nonblock) (neg 40, (l, w₁)) second (λ z. still l fd w₁ e o₁)
        (λ z.
          if-Ends true addr (not reused) (neg 45, (l, w₂)) third (λ z. still l fd w₂ e o₂)
            (λ z.
              if-Ends true addr (not bound) (neg 50, (l, w₃)) last (λ z. still l fd w₃ e o₃)
                (λ b.
                  if-Ends true addr (not listening) (neg 55, (l, w₄)) (pos 0, (l, w₄))
                    (λ z. still l fd w₄ e o₄)
                    (λ n. (
                      fd,
                      e,
                      o₄,
                      d.listen_stays fd 5 w₃
                          ∙ d.bind_binds fd l.ip l.port w₂ (holds_otherwise bound b),
                      λ t. d.listen_listens fd 5 w₃ (holds_otherwise listening n),
                    )))))

  udp_open-Ends :
      (fd : ℕ) (l : Listener) (w : W)
      → Documented api v
      → l.listenfd ≡ some fd
      → v.is_open w fd ≡ true
      → Ends false (l.ip, l.port) (udp_open api fd l w)
  unfolding udp_open
  udp_open-Ends fd l w d e o =
      let (nonblock, w₁) = set_nonblock api fd w in
      let (bound, w₂) = api.bind fd l.ip l.port w₁ in
      let o₁ : v.is_open w₁ fd ≡ true = set_nonblock-keeps fd w d o in
      let o₂ : v.is_open w₂ fd ≡ true = d.bind_keeps fd l.ip l.port w₁ o₁ in
      let addr : ℕ × ℕ = (l.ip, l.port) in
      let last : Listened api = if not bound then (neg 85, (l, w₂)) else (pos 0, (l, w₂)) in
      if-Ends false addr (not nonblock) (neg 80, (l, w₁)) last (λ z. still l fd w₁ e o₁)
        (λ z.
          if-Ends false addr (not bound) (neg 85, (l, w₂)) (pos 0, (l, w₂))
            (λ z. still l fd w₂ e o₂)
            (λ b. (
              fd,
              e,
              o₂,
              d.bind_binds fd l.ip l.port w₁ (holds_otherwise bound b),
              λ t. absurd (ground arith),
            )))

  -- The two calls from the result of `socket` on.
  tcp_made-Ends :
      (ip port : ℕ) (l : Listener) (w : W)
      → Documented api v
      → Ends true (ip, port % 2 ^ 16) (tcp_made api ip port l (api.socket true w))
  unfolding tcp_made
  tcp_made-Ends ip port l w d = elim (Option-cases (api.socket true w).0) [
    | inl e ↦ rw e (λ fd h. absurd (ground arith))
    | inr (fd, e) ↦ rw e (
        tcp_open-Ends fd (record l { ip = ip; port = port % 2 ^ 16; listenfd = some fd })
          (api.socket true w).1 d refl (d.opens true fd w e))
  ]

  udp_made-Ends :
      (ip port : ℕ) (l : Listener) (w : W)
      → Documented api v
      → Ends false (ip, port % 2 ^ 16) (udp_made api ip port l (api.socket false w))
  unfolding udp_made
  udp_made-Ends ip port l w d = elim (Option-cases (api.socket false w).0) [
    | inl e ↦ rw e (λ fd h. absurd (ground arith))
    | inr (fd, e) ↦ rw e (
        udp_open-Ends fd (record l { ip = ip; port = port % 2 ^ 16; listenfd = some fd })
          (api.socket false w).1 d refl (d.opens false fd w e))
  ]

  tcp_listen-Ends :
      (ip port : ℕ) (l : Listener) (m : AtomicMtx) (w : W)
      → Documented api v
      → l.mtx ≡ some m
      → Ends true (ip, port % 2 ^ 16) (tcp_listen api ip port l w)
  unfolding tcp_listen
  tcp_listen-Ends ip port l m w d e =
      subst⁻¹
        (λ r.
          Ends true (ip, port % 2 ^ 16)
            (if r.0
              then (neg 21, (record l { mtx = r.1 }, w))
              else tcp_made api ip port (record l { mtx = r.1 }) (api.socket true w)))
        (init_lock-some api l.proto l.mtx m e)
        (tcp_made-Ends ip port (record l { mtx = some free }) w d)

  udp_listen-Ends :
      (ip port : ℕ) (l : Listener) (m : AtomicMtx) (w : W)
      → Documented api v
      → l.mtx ≡ some m
      → Ends false (ip, port % 2 ^ 16) (udp_listen api ip port l w)
  unfolding udp_listen
  udp_listen-Ends ip port l m w d e =
      subst⁻¹
        (λ r.
          Ends false (ip, port % 2 ^ 16)
            (if r.0
              then (neg 62, (record l { mtx = r.1 }, w))
              else udp_made api ip port (record l { mtx = r.1 }) (api.socket false w)))
        (init_lock-some api l.proto l.mtx m e)
        (udp_made-Ends ip port (record l { mtx = some free }) w d)

  -- `Listen` on a listener as the constructors of the two classes make it, on a system that does what its
  -- calls document. After 0 the listener has a free lock and an open socket, which is bound to the address
  -- and listens if it is for tcp. After an error it has no socket if the socket could not be made, and
  -- after every other error it has one, which is still open.
  pub listen-After :
      (ip port : ℕ) (l : Listener) (m : AtomicMtx) (w : W)
      → Documented api v
      → l.mtx ≡ some m
      → let tcp = tcp_listen api ip port l w in
        let udp = udp_listen api ip port l w in
        (Settled 28 ip port l.proto tcp.0 tcp.1.0 × After true (ip, port % 2 ^ 16) tcp.0 tcp.1)
        × (Settled 70 ip port l.proto udp.0 udp.1.0 × After false (ip, port % 2 ^ 16) udp.0 udp.1)
  listen-After ip port l m w d e =
      let (tcp, udp) = listen-Settled api l.proto ip port l m w e refl in
      ((tcp, tcp_listen-Ends ip port l m w d e), (udp, udp_listen-Ends ip port l m w d e))
