-- ===== src/Server/Workers.antt =====
-- `WorkerRun` of server.cc: the works that a worker makes for its listeners, and its loop; `TcpSrv` and
-- `UdpSrv` of server.h, which do without a master.
use tinyco.Prelude.{
  ℕ, suc, ◌≡◌, refl, ap, Bool, true, false, not, ◌&&◌, Option, none, some, List, [], ◌∷◌, arith,
  ◌==◌, if◌then◌else◌, length, get_elem?, All, ℤ, pos, negsuc, neg, is_neg, Bytes, codes, eqb,
}
use mathlib.Core.Path.{subst, subst⁻¹}
use tinyco.Mutex.Defs.{AtomicMtx, free}
use tinyco.Listener.Network.{SocketApi}
use tinyco.Listener.Listen.{Listener, tcp_listener_new, udp_listener_new, tcp_listen, udp_listen}
use tinyco.Listener.Opened.{Settled, listen-Settled}
use tinyco.Server.Start.{ServerImpl, returned, Machine, initialize, worker_num}
use tinyco.Server.Initialized.{Shared, StartedWell, initialize-StartedWell}
use tinyco.Server.Loops.{
  ConnTracker, get_conn_size, TcpLoop, gives_work, crashed, after_create, accepted_fd, build_work,
  tcp_round, held_by, take_lock,
}

-- The works, each with its listener.
pub data SrvWork : Type 0 where
  tcp_srv_work udp_srv_work : Listener → SrvWork

-- The loop over `listeners_`.
unfoldable pub worker_threads : List Listener → List SrvWork
worker_threads [] = []
worker_threads (l ∷ ls) =
    let rest = worker_threads ls in
    if eqb l.proto (codes "tcp")
    then tcp_srv_work l ∷ rest
    else if eqb l.proto (codes "udp")
    then udp_srv_work l ∷ rest
    else rest

-- `GracefulShutdown() && GetConnSize() == 0`.
unfoldable pub shuts_down : ConnTracker → Bool
unfolding get_conn_size
shuts_down t = t.graceful_shutdown && (get_conn_size t == 0)

-- One round of the loop: it ends here, or it is a round more than the rest.
abbrev one_round : Bool → Option ℕ → Option ℕ
one_round true rest = some 1
one_round false none = none
one_round false (some n) = some (suc n)

-- The loop of `WorkerRun`, by what it finds in the tracker after each sleep: how often it sleeps before
-- it ends, `none` if it goes on behind all of them.
unfoldable pub worker_loop : List ConnTracker → Option ℕ
worker_loop [] = none
worker_loop (t ∷ ts) = let rest = worker_loop ts in one_round (shuts_down t) rest

-- The end of `TcpSrv` and `UdpSrv` in front of the loop: an error, or the listener of the thread.
pub data Standalone : Type 0 where
  refused : ℤ → Standalone
  serves : Listener → Standalone

module _ {W : Type 0} (api : SocketApi W) where
  abbrev after_listen : ℤ → ℤ × (Listener × W) → Standalone
  after_listen line (ret, (l, w)) = if is_neg ret then refused line else serves l

  -- `TcpSrv` and `UdpSrv`, with the result of `Frame::Init`.
  unfoldable pub tcp_srv : Bool → ℕ → ℕ → W → Standalone
  unfolding tcp_listen tcp_listener_new
  tcp_srv frame ip port w =
      if not frame
      then refused (neg 233)
      else after_listen (neg 236) (tcp_listen api ip port (tcp_listener_new 0 0) w)

  unfoldable pub udp_srv : Bool → ℕ → ℕ → W → Standalone
  unfolding udp_listen udp_listener_new
  udp_srv frame ip port w =
      if not frame
      then refused (neg 250)
      else after_listen (neg 252) (udp_listen api ip port (udp_listener_new 0 0) w)

abbrev lock_or : Option AtomicMtx → AtomicMtx
lock_or none = record { word = none }
lock_or (some m) = m

-- The state of `TcpSrvWork` that `TcpSrv` starts: there is no tracker.
abbrev pub untracked : Listener → TcpLoop
untracked l = record { accepted = 0; mtx = lock_or l.mtx; tracker = none; threads = [] }

-- A work that accepts connections.
abbrev pub Accepts : SrvWork → Type 0
Accepts (tcp_srv_work l) = Unit
Accepts (udp_srv_work l) = ⊥

worker_threads-Accepts :
    (ls : List Listener)
    → All Shared ls
    → All Accepts (worker_threads ls) × (length (worker_threads ls) ≡ length ls)
unfolding worker_threads
worker_threads-Accepts [] h = (tt, refl)
worker_threads-Accepts (l ∷ ls) ((_, _, name), rest) =
    let tcp : eqb l.proto (codes "tcp") ≡ true = rw name refl in
    let (accept, same) = worker_threads-Accepts ls rest in rw tcp ((tt, accept), ap suc same)

-- After `Initialize` has returned 0, `WorkerRun` makes one work for each listener, and each of them
-- accepts connections: no listener, of those for udp either, receives datagrams.
pub worker_threads-initialize :
    {W : Type 0} (api : SocketApi W) (eth_addr : Bytes → Option ℕ) (atoi : Bytes → ℕ) (mc : Machine)
    (w w' : W) (srv : ServerImpl)
    → initialize api eth_addr atoi mc w ≡ returned (pos 0) srv w'
    → All Accepts (worker_threads srv.listeners)
      × (length (worker_threads srv.listeners) ≡ length srv.listeners)
worker_threads-initialize api eth_addr atoi mc w w' srv e =
    let (listening, staffed) =
      subst (StartedWell (worker_num mc.processors)) e
        (initialize-StartedWell api eth_addr atoi mc w) in
    worker_threads-Accepts srv.listeners listening

-- When the loop of `WorkerRun` ends: at a round whose tracker says so, or not at all.
abbrev Ended : List ConnTracker → Option ℕ → Type 0
Ended ts none = All (λ t. shuts_down t ≡ false) ts
Ended ts (some n) =
    (k : ℕ) × (t : ConnTracker) × (n ≡ suc k) × (get_elem? ts k ≡ some t) × (shuts_down t ≡ true)

one_round-Ended :
    (t : ConnTracker) (ts : List ConnTracker) (b : Bool) (rest : Option ℕ)
    → shuts_down t ≡ b
    → Ended ts rest
    → Ended (t ∷ ts) (one_round b rest)
one_round-Ended t ts true rest e h = (0, t, refl, refl, e)
one_round-Ended t ts false none e h = (e, h)
one_round-Ended t ts false (some n) e (k, u, same, here, ends) = (suc k, u, ap suc same, here, ends)

worker_loop-Ended : (ts : List ConnTracker) → Ended ts (worker_loop ts)
unfolding worker_loop
worker_loop-Ended [] = tt
worker_loop-Ended (t ∷ ts) =
    one_round-Ended t ts (shuts_down t) (worker_loop ts) refl (worker_loop-Ended ts)

first_round :
    (pid fd : ℕ)
    → tcp_round pid true gives_work
        (some fd)
        (record { accepted = 0; mtx = held_by 0; tracker = none; threads = [] })
      ≡ crashed
unfolding tcp_round after_create accepted_fd build_work
first_round pid fd = rw (take_lock pid)

untracked_round :
    (pid fd : ℕ) (l : Listener)
    → l.mtx ≡ some free
    → tcp_round pid true gives_work (some fd) (untracked l) ≡ crashed
untracked_round pid fd l e =
    subst⁻¹
      (λ m.
        tcp_round pid true gives_work (some fd)
          (record { accepted = 0; mtx = lock_or m; tracker = none; threads = [] })
        ≡ crashed)
      e (first_round pid fd)

after_listen-free :
    {W : Type 0} (api : SocketApi W) (ip port : ℕ) (line : ℤ) (r : ℤ × (Listener × W))
    (l : Listener)
    → Settled 28 ip port (codes "tcp") r.0 r.1.0
    → after_listen api line r ≡ serves l
    → l.mtx ≡ some free
after_listen-free api ip port line (pos n, (k, w)) l (_, o) e =
    let same : k ≡ l = ground arith in subst (λ x. x.mtx ≡ some free) same o.has_lock
after_listen-free api ip port line (negsuc n, (k, w)) l h e = absurd (ground arith)

-- A server that `TcpSrv` has started uses a null pointer at the first connection that it accepts.
pub tcp_srv-crashes :
    {W : Type 0} (api : SocketApi W) (ip port pid fd : ℕ) (w : W) (l : Listener)
    → tcp_srv api true ip port w ≡ serves l
    → tcp_round pid true gives_work (some fd) (untracked l) ≡ crashed
unfolding tcp_srv tcp_listener_new
tcp_srv-crashes api ip port pid fd w l e =
    let word : AtomicMtx = record { word = none } in
    let settled =
      listen-Settled api (codes "tcp") ip port (tcp_listener_new 0 0) word w refl refl in
    untracked_round pid fd l (
      after_listen-free api ip port (neg 236) (tcp_listen api ip port (tcp_listener_new 0 0) w) l
        settled.0 e)
