-- ===== src/Server/Initialized.antt =====
-- What `ServerImpl::Initialize` leaves, server.cc: the listeners, the mode and the workers.
use tinyco.Prelude.{
  ℕ, zero, suc, ◌+◌, ◌<◌, ◌≡◌, refl, sym, ◌∙◌, ◌≢◌, ◌⊎◌, inl, inr, Bool, true, false, not, Option,
  none, some, List, [], ◌∷◌, ◌++◌, map, arith, if◌then◌else◌, length, length-append, All, ℤ, pos,
  negsuc, neg, is_neg, Bytes, codes, count,
}
use mathlib.Core.Path.{subst}
use tinyco.Mutex.Defs.{AtomicMtx}
use tinyco.Listener.Network.{SocketApi}
use tinyco.Listener.Listen.{Listener}
use tinyco.Server.Services.{ListenItem}
use tinyco.Server.{Master, ForkResult, in_child, fork_failed, forked, restart, as_master}
use tinyco.Server.Restart.{restart-Replaced, freed}
use tinyco.Server.Listeners.{Listening, AllListening, init_listener-AllListening}
use tinyco.Server.Start.{
  Opened, init_listener, Forked, in_master, in_worker, failed, fork_workers, wm_unknown, wm_master,
  wm_worker, ServerImpl, Started, returned, exits, Machine, worker_num, settle, daemonize, init_srv,
  start, initialize, shared, bare, no_pair,
}

-- The result of the loop that forks `n` more workers, with `ws` before: the master has all of them, and a
-- worker fewer than all.
abbrev Counted : ℕ → Forked → Type 0
Counted all (in_master ws) = length ws ≡ all
Counted all (in_worker ws) = length ws < all
Counted all (failed ws) = length ws < all

fork_workers-Counted :
    (n : ℕ) (rs : List ForkResult) (ws : List ℕ) → Counted (length ws + n) (fork_workers n rs ws)
unfolding fork_workers
fork_workers-Counted zero rs ws = omega arith
fork_workers-Counted (suc n) [] ws = omega arith
fork_workers-Counted (suc n) (in_child ∷ rs) ws = omega arith
fork_workers-Counted (suc n) (fork_failed ∷ rs) ws = omega arith
fork_workers-Counted (suc n) (forked pid ∷ rs) ws =
    let one_more : length (ws ++ pid ∷ []) + n ≡ length ws + suc n =
      rw (length-append ws (pid ∷ [])) (omega arith) in
    subst (λ k. Counted k (fork_workers n rs (ws ++ pid ∷ []))) one_more
      (fork_workers-Counted n rs (ws ++ pid ∷ []))

fork_all-Counted : (n : ℕ) (rs : List ForkResult) → Counted n (fork_workers n rs [])
fork_all-Counted n rs =
    subst (λ k. Counted k (fork_workers n rs [])) (omega arith) (fork_workers-Counted n rs [])

-- A master with all its workers, or a worker that was made behind fewer.
abbrev pub Staffed : ℕ → ServerImpl → Type 0
Staffed n srv =
    ((srv.mode ≡ wm_master) × (length srv.worker_processes ≡ n))
    ⊎ ((srv.mode ≡ wm_worker) × (length srv.worker_processes < n))

-- A listener with a socket and a lock, whose word the processes share, and whose protocol is called tcp.
abbrev pub Shared : Listener → Type 0
Shared l =
    (l.listenfd ≢ none)
    × ((k : ℕ) × (l.mtx ≡ some (record { word = some k })))
    × (l.proto ≡ codes "tcp")

Listening-Shared : (ls : List Listener) → All Listening ls → All Shared ls
Listening-Shared [] h = tt
Listening-Shared (l ∷ ls) ((fd, lock, name), rest) =
    ((fd, (0, lock), name), Listening-Shared ls rest)

shared-Shared :
    (words : ℕ → ℕ) (i : ℕ) (ls : List Listener) → All Listening ls → All Shared (shared words i ls)
unfolding shared
shared-Shared words i [] h = tt
shared-Shared words i (l ∷ ls) ((fd, lock, name), rest) =
    ((fd, (words i, rw lock refl), name), shared-Shared words (suc i) ls rest)

-- A process that goes on: every listener that is kept has a socket and a lock, and with the result 0 the process is
-- a master or a worker; with an error it is neither.
abbrev pub StartedWell : {W : Type 0} → ℕ → Started W → Type 0
StartedWell n (exits code) = Unit
StartedWell n (returned (pos k) srv w) = All Shared srv.listeners × Staffed n srv
StartedWell n (returned (negsuc k) srv w) = All Shared srv.listeners × (srv.mode ≡ wm_unknown)

settle-StartedWell :
    {W : Type 0} (n : ℕ) (srv : ServerImpl) (w : W) (f : Forked)
    → All Shared srv.listeners
    → srv.mode ≡ wm_unknown
    → Counted n f
    → StartedWell n (settle srv w f)
unfolding settle
settle-StartedWell n srv w (in_master ws) h m c = (h, inl (refl, c))
settle-StartedWell n srv w (in_worker ws) h m c = (h, inr (refl, c))
settle-StartedWell n srv w (failed ws) h m c = (h, m)

if-StartedWell :
    {W : Type 0} (n : ℕ) (b : Bool) (x y : Started W)
    → StartedWell n x
    → StartedWell n y
    → StartedWell n (if b then x else y)
if-StartedWell n true x y h k = h
if-StartedWell n false x y h k = k

module _ {W : Type 0} (api : SocketApi W) (eth_addr : Bytes → Option ℕ) (atoi : Bytes → ℕ) where
  if-AllListening :
      (b : Bool) (x y : ℤ × Opened api eth_addr atoi)
      → AllListening api eth_addr atoi x
      → AllListening api eth_addr atoi y
      → AllListening api eth_addr atoi (if b then x else y)
  if-AllListening true x y h k = h
  if-AllListening false x y h k = k

  new_item : ListenItem
  new_item = record { proto = []; ip = 0; port = 0 }

  init_srv-AllListening :
      (mc : Machine) (s : Opened api eth_addr atoi)
      → All Listening s.0
      → AllListening api eth_addr atoi (init_srv api eth_addr atoi mc s)
  unfolding init_srv new_item
  init_srv-AllListening mc s h =
      let (tcp, s₁) = init_listener api eth_addr atoi (codes "tcp") mc.tcp_items new_item s in
      let (udp, s₂) = init_listener api eth_addr atoi (codes "udp") mc.udp_items new_item s₁ in
      let h₁ : All Listening s₁.0 =
        init_listener-AllListening api eth_addr atoi (codes "tcp") mc.tcp_items new_item s h in
      let h₂ : All Listening s₂.0 =
        init_listener-AllListening api eth_addr atoi (codes "udp") mc.udp_items new_item s₁ h₁ in
      let last : ℤ × Opened api eth_addr atoi = if is_neg udp then (neg 297, s₂) else (pos 0, s₂) in
      if-AllListening (is_neg tcp) (neg 293, s₁) last h₁
        (if-AllListening (is_neg udp) (neg 297, s₂) (pos 0, s₂) h₂ h₂)

  start-StartedWell :
      (mc : Machine) (w : W) → StartedWell (worker_num mc.processors) (start api eth_addr atoi mc w)
  unfolding start
  start-StartedWell mc w =
      let n = worker_num mc.processors in
      let (ret, (ls, w₁)) = init_srv api eth_addr atoi mc ([], w) in
      let h : All Listening ls = init_srv-AllListening mc ([], w) tt in
      let opened : ServerImpl = record (bare mc.pair) { listeners = ls } in
      let running : ServerImpl = record opened { listeners = shared mc.words 0 ls } in
      let f = fork_workers n mc.forks [] in
      let staffed : Started W = settle running w₁ f in
      let last : Started W = if daemonize mc.to_background then staffed else exits 0 in
      if-StartedWell n (is_neg ret) (returned (neg 103) opened w₁) last
        (Listening-Shared ls h, refl)
        (if-StartedWell n (daemonize mc.to_background) staffed (exits 0)
          (settle-StartedWell n running w₁ f (shared-Shared mc.words 0 ls h) refl
            (fork_all-Counted n mc.forks))
          tt)

  -- However the calls of `Initialize` end, if the process goes on behind it: every listener that the
  -- server keeps has a socket and a lock, whose word the workers made before may have changed; with the result 0 the process is the master, with as many
  -- workers as there are processors, or it is a worker, made behind fewer; with an error it
  -- is neither.
  pub initialize-StartedWell :
      (mc : Machine) (w : W)
      → StartedWell (worker_num mc.processors) (initialize api eth_addr atoi mc w)
  unfolding initialize
  initialize-StartedWell mc w =
      let n = worker_num mc.processors in
      let before : ServerImpl = bare none in
      let fifth = start api eth_addr atoi mc w in
      let fourth : Started W = if no_pair mc.pair then exits 255 else fifth in
      let third : Started W = if not mc.config_read then returned (neg 93) before w else fourth in
      let second : Started W = if not mc.frame_made then returned (neg 88) before w else third in
      let at_fourth : StartedWell n fourth =
        if-StartedWell n (no_pair mc.pair) (exits 255) fifth tt (start-StartedWell mc w) in
      let at_third : StartedWell n third =
        if-StartedWell n (not mc.config_read) (returned (neg 93) before w) fourth (tt, refl)
          at_fourth in
      let at_second : StartedWell n second =
        if-StartedWell n (not mc.frame_made) (returned (neg 88) before w) third (tt, refl)
          at_third in
      if-StartedWell n (not mc.log_made) (returned (neg 83) before w) second (tt, refl) at_second

-- The locks of the listeners; a null one is passed over here, where the code uses it.
abbrev pub locks_of : List Listener → List AtomicMtx
locks_of [] = []
locks_of (l ∷ ls) = elim l.mtx [ none ↦ locks_of ls | some m ↦ m ∷ locks_of ls ]

-- The server's members as the master's loop uses them.
abbrev pub master_of : ServerImpl → Master
master_of srv = record {
  workers = srv.worker_processes;
  restarts = [];
  locks = locks_of srv.listeners;
}

locks_of-words : (ls : List Listener) → All Shared ls → All (λ m. m.word ≢ none) (locks_of ls)
locks_of-words [] h = tt
locks_of-words (l ∷ ls) ((_, (k, lock), _), rest) =
    rw lock ((λ e. absurd (ground arith)), locks_of-words ls rest)

-- After `Initialize` has returned 0 in the master, whatever locks the workers have taken: when a worker ends,
-- which stands once among the pids, and `fork` gives another process, the restart does not crash; the new
-- process is a worker then, the old one is none, and there are as many as before; a listener's lock that
-- named the old one is free, and every other is as before.
pub initialize-restart :
    {W : Type 0} (api : SocketApi W) (eth_addr : Bytes → Option ℕ) (atoi : Bytes → ℕ) (mc : Machine)
    (w w' : W) (srv : ServerImpl) (pid new : ℕ)
    → initialize api eth_addr atoi mc w ≡ returned (pos 0) srv w'
    → srv.mode ≡ wm_master
    → 0 < pid
    → pid ≢ new
    → count pid srv.worker_processes ≡ 1
    → (m : Master) × (restart (forked new) pid (master_of srv) ≡ as_master m)
      × (count pid m.workers ≡ 0)
      × (count new m.workers ≡ suc (count new srv.worker_processes))
      × (length m.workers ≡ worker_num mc.processors)
      × All (λ l. l.word ≢ some pid) m.locks
      × (m.locks ≡ map (freed pid) (locks_of srv.listeners))
initialize-restart api eth_addr atoi mc w w' srv pid new e mode p ne one =
    let (listening, staffed) =
      subst (StartedWell (worker_num mc.processors)) e
        (initialize-StartedWell api eth_addr atoi mc w) in
    let all : length srv.worker_processes ≡ worker_num mc.processors = elim staffed [
      | inl s ↦ s.1
      | inr s ↦ let clash : wm_master ≡ wm_worker = sym mode ∙ s.0 in absurd (ground arith)
    ] in
    let (m, r, gone, come, many, unlocked, same) =
      restart-Replaced pid new (master_of srv) p ne one (locks_of-words srv.listeners listening) in
    (m, r, gone, come, many ∙ all, unlocked, same)
