-- ===== src/Listener/Listen.antt =====
-- The classes Listener, TcpListener and UdpListener.
use tinyco.Prelude.{
  ℕ, ◌%◌, ◌^◌, Bool, true, false, not, Option, none, some, if◌then◌else◌, ℤ, pos, neg, is_neg,
  Bytes, codes,
}
use tinyco.Mutex.Defs.{AtomicMtx, init_mtx}
use tinyco.Listener.Network.{SocketApi, set_nonblock}

-- `listenfd_` is `none` for -1; `mtx_` may be null.
pub record Listener : Type 0 where
  pub listenfd : Option ℕ
  pub ip : ℕ
  pub port : ℕ
  pub mtx : Option AtomicMtx
  pub proto : Bytes

-- The constructors of both classes, which give the same name of a protocol. The address and the port are
-- as the memory was.
unfoldable pub tcp_listener_new : ℕ → ℕ → Listener
tcp_listener_new ip port = record {
  listenfd = none;
  ip = ip;
  port = port;
  mtx = some (record { word = none });
  proto = codes "tcp";
}

unfoldable pub udp_listener_new : ℕ → ℕ → Listener
udp_listener_new ip port = record {
  listenfd = none;
  ip = ip;
  port = port;
  mtx = some (record { word = none });
  proto = codes "tcp";
}

-- `if (mtx_ && mtx_->InitMtx(NULL) < 0)`: whether it is so, and the mutex.
unfoldable pub init_lock : Option AtomicMtx → Bool × Option AtomicMtx
unfolding init_mtx
init_lock none = (false, none)
init_lock (some m) = (is_neg (init_mtx m).1, some (init_mtx m).0)

module _ {W : Type 0} (api : SocketApi W) where
  -- A result with the listener and the system.
  abbrev pub Listened : Type 0
  Listened = ℤ × (Listener × W)

  -- `TcpListener::Listen` from `SetNonBlock` on, with the socket made.
  unfoldable pub tcp_open : ℕ → Listener → W → Listened
  unfolding set_nonblock
  tcp_open fd l w =
      let (nonblock, w₁) = set_nonblock api fd w in
      let (reused, w₂) = api.set_reuse_addr fd w₁ in
      let (bound, w₃) = api.bind fd l.ip l.port w₂ in
      let (listening, w₄) = api.listen fd 5 w₃ in
      if not nonblock
      then (neg 40, (l, w₁))
      else if not reused
      then (neg 45, (l, w₂))
      else if not bound
      then (neg 50, (l, w₃))
      else if not listening
      then (neg 55, (l, w₄))
      else (pos 0, (l, w₄))

  -- `UdpListener::Listen` from there on.
  unfoldable pub udp_open : ℕ → Listener → W → Listened
  unfolding set_nonblock
  udp_open fd l w =
      let (nonblock, w₁) = set_nonblock api fd w in
      let (bound, w₂) = api.bind fd l.ip l.port w₁ in
      if not nonblock
      then (neg 80, (l, w₁))
      else if not bound
      then (neg 85, (l, w₂))
      else (pos 0, (l, w₂))

  -- From the result of `socket` on.
  unfoldable pub tcp_made : ℕ → ℕ → Listener → Option ℕ × W → Listened
  unfolding tcp_open
  tcp_made ip port l (none, w) =
      (neg 28, (record l { ip = ip; port = port % 2 ^ 16; listenfd = none }, w))
  tcp_made ip port l (some fd, w) =
      tcp_open fd (record l { ip = ip; port = port % 2 ^ 16; listenfd = some fd }) w

  unfoldable pub udp_made : ℕ → ℕ → Listener → Option ℕ × W → Listened
  unfolding udp_open
  udp_made ip port l (none, w) =
      (neg 70, (record l { ip = ip; port = port % 2 ^ 16; listenfd = none }, w))
  udp_made ip port l (some fd, w) =
      udp_open fd (record l { ip = ip; port = port % 2 ^ 16; listenfd = some fd }) w

  -- `Listen`.
  unfoldable pub tcp_listen : ℕ → ℕ → Listener → W → Listened
  unfolding init_lock tcp_made
  tcp_listen ip port l w =
      let (no_lock, m) = init_lock l.mtx in
      if no_lock
      then (neg 21, (record l { mtx = m }, w))
      else tcp_made ip port (record l { mtx = m }) (api.socket true w)

  unfoldable pub udp_listen : ℕ → ℕ → Listener → W → Listened
  unfolding init_lock udp_made
  udp_listen ip port l w =
      let (no_lock, m) = init_lock l.mtx in
      if no_lock
      then (neg 62, (record l { mtx = m }, w))
      else udp_made ip port (record l { mtx = m }) (api.socket false w)

  -- `Destroy`, which the destructor does too: `listenfd_` keeps its value.
  unfoldable pub destroy : Listener → W → W
  destroy l w = elim l.listenfd [ none ↦ w | some fd ↦ api.close fd w ]
