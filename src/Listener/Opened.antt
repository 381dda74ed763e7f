-- ===== src/Listener/Opened.antt =====
-- What `Listen` of listener.cc leaves, by its result.
use tinyco.Prelude.{
  ℕ, suc, ◌%◌, ◌^◌, ◌≡◌, refl, ap, ◌≢◌, ◌↔◌, Bool, true, false, not, Option, none, some, arith,
  if◌then◌else◌, ℤ, pos, negsuc, neg, Bytes,
}
use mathlib.Core.Path.{subst⁻¹}
use tinyco.Mutex.Defs.{AtomicMtx, init_mtx, free}
use tinyco.Listener.Network.{SocketApi, set_nonblock}
use tinyco.Listener.Listen.{
  Listener, init_lock, Listened, tcp_open, udp_open, tcp_made, udp_made, tcp_listen, udp_listen,
}

-- A listener with a socket on the address, and a free lock.
pub record IsOpen (ip : ℕ) (port : ℕ) (name : Bytes) (l : Listener) : Type 0 where
  pub has_socket : l.listenfd ≢ none
  pub has_lock : l.mtx ≡ some free
  pub on_ip : l.ip ≡ ip
  pub on_port : l.port ≡ port % 2 ^ 16
  pub has_name : l.proto ≡ name

-- By the result of `Listen`, whose line for a socket that is not made is `line`: after 0 the listener is
-- open, and after an error it has a socket unless it is this one.
abbrev pub Settled : ℕ → ℕ → ℕ → Bytes → ℤ → Listener → Type 0
Settled line ip port name (pos n) l = (n ≡ 0) × IsOpen ip port name l
Settled line ip port name (negsuc k) l = (l.listenfd ≡ none) ↔ (suc k ≡ line)

module _ {W : Type 0} (api : SocketApi W) (name : Bytes) where
  abbrev Ends : ℕ → ℕ → ℕ → Listened api → Type 0
  Ends line ip port r = Settled line ip port name r.0 r.1.0

  if-Ends :
      (line ip port : ℕ) (b : Bool) (x y : Listened api)
      → Ends line ip port x
      → Ends line ip port y
      → Ends line ip port (if b then x else y)
  if-Ends line ip port true x y h k = h
  if-Ends line ip port false x y h k = k

  -- A socket that stays open behind an error.
  stays : (l : Listener) (fd n m : ℕ) → l.listenfd ≡ some fd → n ≢ m → (l.listenfd ≡ none) ↔ (n ≡ m)
  stays l fd n m e ne = (λ h. absurd (ground arith), λ h. absurd (ne h))

  tcp_open-Ends :
      (ip port fd : ℕ) (l : Listener) (w : W)
      → IsOpen ip port name l
      → l.listenfd ≡ some fd
      → Ends 28 ip port (tcp_open api fd l w)
  unfolding tcp_open
  tcp_open-Ends ip port fd l w o e =
      let (nonblock, w₁) = set_nonblock api fd w in
      let (reused, w₂) = api.set_reuse_addr fd w₁ in
      let (bound, w₃) = api.bind fd l.ip l.port w₂ in
      let (listening, w₄) = api.listen fd 5 w₃ in
      let last : Listened api = if not listening then (neg 55, (l, w₄)) else (pos 0, (l, w₄)) in
      let third : Listened api = if not bound then (neg 50, (l, w₃)) else last in
      let second : Listened api = if not reused then (neg 45, (l, w₂)) else third in
      let at_last : Ends 28 ip port last =
        if-Ends 28 ip port (not listening) (neg 55, (l, w₄)) (pos 0, (l, w₄))
          (stays l fd 55 28 e (omega arith)) (refl, o) in
      let at_third : Ends 28 ip port third =
        if-Ends 28 ip port (not bound) (neg 50, (l, w₃)) last (stays l fd 50 28 e (omega arith))
          at_last in
      let at_second : Ends 28 ip port second =
        if-Ends 28 ip port (not reused) (neg 45, (l, w₂)) third (stays l fd 45 28 e (omega arith))
          at_third in
      if-Ends 28 ip port (not nonblock) (neg 40, (l, w₁)) second (stays l fd 40 28 e (omega arith))
        at_second

  udp_open-Ends :
      (ip port fd : ℕ) (l : Listener) (w : W)
      → IsOpen ip port name l
      → l.listenfd ≡ some fd
      → Ends 70 ip port (udp_open api fd l w)
  unfolding udp_open
  udp_open-Ends ip port fd l w o e =
      let (nonblock, w₁) = set_nonblock api fd w in
      let (bound, w₂) = api.bind fd l.ip l.port w₁ in
      let last : Listened api = if not bound then (neg 85, (l, w₂)) else (pos 0, (l, w₂)) in
      let at_last : Ends 70 ip port last =
        if-Ends 70 ip port (not bound) (neg 85, (l, w₂)) (pos 0, (l, w₂))
          (stays l fd 85 70 e (omega arith)) (refl, o) in
      if-Ends 70 ip port (not nonblock) (neg 80, (l, w₁)) last (stays l fd 80 70 e (omega arith))
        at_last

  -- A listener whose lock was made, with a socket.
  locked-IsOpen :
      (ip port fd : ℕ) (l : Listener)
      → l.mtx ≡ some free
      → l.proto ≡ name
      → IsOpen ip port name (record l { ip = ip; port = port % 2 ^ 16; listenfd = some fd })
  locked-IsOpen ip port fd l e p = record {
    has_socket = λ h. absurd (ground arith);
    has_lock = e;
    on_ip = refl;
    on_port = refl;
    has_name = p;
  }

  tcp_made-Ends :
      (ip port : ℕ) (l : Listener) (s : Option ℕ × W)
      → l.mtx ≡ some free
      → l.proto ≡ name
      → Ends 28 ip port (tcp_made api ip port l s)
  unfolding tcp_made
  tcp_made-Ends ip port l (none, w) e p = (λ h. refl, λ h. refl)
  tcp_made-Ends ip port l (some fd, w) e p =
      tcp_open-Ends ip port fd (record l { ip = ip; port = port % 2 ^ 16; listenfd = some fd }) w
        (locked-IsOpen ip port fd l e p) refl

  udp_made-Ends :
      (ip port : ℕ) (l : Listener) (s : Option ℕ × W)
      → l.mtx ≡ some free
      → l.proto ≡ name
      → Ends 70 ip port (udp_made api ip port l s)
  unfolding udp_made
  udp_made-Ends ip port l (none, w) e p = (λ h. refl, λ h. refl)
  udp_made-Ends ip port l (some fd, w) e p =
      udp_open-Ends ip port fd (record l { ip = ip; port = port % 2 ^ 16; listenfd = some fd }) w
        (locked-IsOpen ip port fd l e p) refl

  pub init_lock-some :
      (m : Option AtomicMtx) (k : AtomicMtx) → m ≡ some k → init_lock m ≡ (false, some free)
  unfolding init_lock init_mtx
  init_lock-some m k e = ap init_lock e

  -- `Listen` on a listener as the constructors of the two classes make it: after 0 it has a socket on the
  -- address, a free lock and the name that it had. After an error it has no socket if the socket could not be made, and after
  -- every other error the socket stays open.
  pub listen-Settled :
      (ip port : ℕ) (l : Listener) (m : AtomicMtx) (w : W)
      → l.mtx ≡ some m
      → l.proto ≡ name
      → let tcp = tcp_listen api ip port l w in
        let udp = udp_listen api ip port l w in
        Settled 28 ip port name tcp.0 tcp.1.0 × Settled 70 ip port name udp.0 udp.1.0
  unfolding tcp_listen udp_listen
  listen-Settled ip port l m w e p =
      let locked : init_lock l.mtx ≡ (false, some free) = init_lock-some l.mtx m e in
      (
        subst⁻¹
            (λ r. Ends 28 ip port (
              if r.0
              then (neg 21, (record l { mtx = r.1 }, w))
              else tcp_made api ip port (record l { mtx = r.1 }) (api.socket true w)))
            locked
            (tcp_made-Ends ip port (record l { mtx = some free }) (api.socket true w) refl p),
        subst⁻¹
            (λ r. Ends 70 ip port (
              if r.0
              then (neg 62, (record l { mtx = r.1 }, w))
              else udp_made api ip port (record l { mtx = r.1 }) (api.socket false w)))
            locked
            (udp_made-Ends ip port (record l { mtx = some free }) (api.socket false w) refl p),
      )
