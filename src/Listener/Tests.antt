-- ===== src/Listener/Tests.antt =====
-- Examples for the listeners: a system that counts its calls.
use tinyco.Prelude.{ℕ, ◌≡◌, refl, Bool, true, false, Option, none, some, List, [], ◌∷◌, neg, codes}
use tinyco.Http.Conn.{blocking_flags}
use tinyco.Mutex.Defs.{init_mtx, free}
use tinyco.Listener.Network.{SocketApi, set_nonblock, get_eth_addr}
use tinyco.Listener.Listen.{init_lock, tcp_open, tcp_made, tcp_listen, udp_listen, tcp_listener_new}
use tinyco.Listener.Opened.{Settled}
use tinyco.Listener.Bound.{View, Documented, After, listen-After}

-- Every call works; the state is the list of descriptors that were closed.
abbrev pub working : SocketApi (List ℕ)
working = record {
  socket = λ stream w. (some 7, w);
  get_flags = λ fd w. (some 2, w);
  set_flags = λ fd flags w. (true, w);
  set_reuse_addr = λ fd w. (true, w);
  bind = λ fd ip port w. (true, w);
  listen = λ fd backlog w. (true, w);
  ioctl = λ fd name w. (some 5, w);
  close = λ fd w. fd ∷ w;
}

-- The address is in use.
abbrev in_use : SocketApi (List ℕ)
in_use = record working { bind = λ fd ip port w. (false, w) }

bind_error : tcp_listen in_use 1 80 (tcp_listener_new 0 0) [] ≡ (
  neg 50,
  (record { listenfd = some 7; ip = 1; port = 80; mtx = some free; proto = codes "tcp" }, []),
)
unfolding tcp_listen tcp_made tcp_open init_lock init_mtx set_nonblock blocking_flags
    tcp_listener_new
bind_error = refl

-- `GetEthAddr` is true without an answer.
no_address :
    get_eth_addr (record working { ioctl = λ fd name w. (none, w) }) 99 (codes "eth9") []
    ≡ (true, (99, 7 ∷ []))
unfolding get_eth_addr
no_address = refl

-- A system that keeps whether a socket is open, its address, and whether it listens.
abbrev Socket : Type 0
Socket = Bool × Option (ℕ × ℕ) × Bool

abbrev one_socket : SocketApi Socket
one_socket = record {
  socket = λ tcp w. (some 7, (true, none, false));
  get_flags = λ fd w. (some 2, w);
  set_flags = λ fd flags w. (true, w);
  set_reuse_addr = λ fd w. (true, w);
  bind = λ fd ip port w. (true, (w.0, some (ip, port), w.2));
  listen = λ fd backlog w. (true, (w.0, w.1, true));
  ioctl = λ fd name w. (none, w);
  close = λ fd w. (false, w.1, w.2);
}

abbrev view : View Socket
view = record { is_open = λ w fd. w.0; address = λ w fd. w.1; listens = λ w fd. w.2 }

one_socket-Documented : Documented one_socket view
one_socket-Documented = record {
  opens = λ tcp fd w e. refl;
  get_flags_keeps = λ fd w o. o;
  set_flags_keeps = λ fd flags w o. o;
  reuse_keeps = λ fd w o. o;
  bind_keeps = λ fd ip port w o. o;
  bind_binds = λ fd ip port w e. refl;
  listen_keeps = λ fd backlog w o. o;
  listen_stays = λ fd backlog w. refl;
  listen_listens = λ fd backlog w e. refl;
}

listen-After_example :
    let l = tcp_listener_new 0 0 in
    let tcp = tcp_listen one_socket 1 80 l (false, none, false) in
    let udp = udp_listen one_socket 1 80 l (false, none, false) in
    (Settled 28 1 80 l.proto tcp.0 tcp.1.0 × After one_socket view true (1, 80) tcp.0 tcp.1)
    × (Settled 70 1 80 l.proto udp.0 udp.1.0 × After one_socket view false (1, 80) udp.0 udp.1)
unfolding tcp_listener_new
listen-After_example =
    listen-After one_socket view 1 80 (tcp_listener_new 0 0) (record { word = none })
      (false, none, false) one_socket-Documented refl
