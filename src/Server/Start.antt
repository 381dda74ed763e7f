-- ===== src/Server/Start.antt =====
-- The start of a server, `ServerImpl::Initialize` and what it calls, server.cc: the listeners, the
-- process in the background, and the workers.
use tinyco.Prelude.{
  ℕ, zero, suc, Bool, true, false, not, Option, none, some, List, [], ◌∷◌, ◌++◌, ltb, if◌then◌else◌,
  ℤ, pos, negsuc, neg, is_neg, Bytes, codes, eqb,
}
use tinyco.Mutex.Defs.{AtomicMtx}
use tinyco.Listener.Network.{SocketApi}
use tinyco.Listener.Listen.{Listener, tcp_listener_new, udp_listener_new, tcp_listen, udp_listen}
use tinyco.Server.Services.{ListenItem, parse_listen}
use tinyco.Server.{ForkResult, in_child, fork_failed, forked}

module _ {W : Type 0} (api : SocketApi W) (eth_addr : Bytes → Option ℕ) (atoi : Bytes → ℕ) where
  -- `listeners_`, in the order in which they were inserted, and the system.
  abbrev pub Opened : Type 0
  Opened = List Listener × W

  -- `Listen` on a new listener of the protocol; `none` for any other protocol.
  unfoldable pub listen_on : Bytes → ListenItem → W → Option (ℤ × (Listener × W))
  unfolding tcp_listen udp_listen tcp_listener_new udp_listener_new
  listen_on proto li w =
      if eqb (codes "tcp") proto
      then some (tcp_listen api li.ip li.port (tcp_listener_new 0 0) w)
      else if eqb (codes "udp") proto
      then some (udp_listen api li.ip li.port (udp_listener_new 0 0) w)
      else none

  -- What follows `Listen`, and with another protocol, in the loop of `InitListener`: `next` is the rest
  -- of the loop. A listener that cannot listen is neither kept nor closed.
  unfoldable pub keep : (Opened → ℤ × Opened) → Opened → Option (ℤ × (Listener × W)) → ℤ × Opened
  keep next s none = next s
  keep next (ls, w) (some (pos n, (l, w'))) = next (ls ++ l ∷ [], w')
  keep next (ls, w) (some (negsuc n, (l, w'))) = (neg 277, (ls, w'))

  -- What follows `Parse`.
  unfoldable pub take_item :
      (ListenItem → Opened → ℤ × Opened) → Bytes → Bool × ListenItem → Opened → ℤ × Opened
  unfolding keep listen_on
  take_item next proto (false, li) s = (neg 282, s)
  take_item next proto (true, li) (ls, w) = keep (next li) (ls, w) (listen_on proto li w)

  -- The loop over the values of `listen`.
  unfoldable pub init_items : Bytes → List Bytes → ListenItem → Opened → ℤ × Opened
  unfolding take_item parse_listen
  init_items proto [] li s = (pos 0, s)
  init_items proto (config ∷ items) li s =
      take_item (λ li' s'. init_items proto items li' s') proto
        (parse_listen eth_addr atoi proto config li) s

  -- `InitListener`, with the array of the protocol in the configuration, if it is a member.
  unfoldable pub init_listener : Bytes → Option (List Bytes) → ListenItem → Opened → ℤ × Opened
  unfolding init_items
  init_listener proto none li s = (pos 0, s)
  init_listener proto (some items) li s = init_items proto items li s

-- `Daemonize`: the process that goes on is the child; the other, and one that cannot fork, exits with 0.
unfoldable pub daemonize : ForkResult → Bool
daemonize in_child = true
daemonize fork_failed = false
daemonize (forked pid) = false

-- The loop that forks the workers, for the workers that are left: the pids of those that were made, and
-- whether the process is the master, a worker, or one whose `fork` failed.
pub data Forked : Type 0 where
  in_master in_worker failed : List ℕ → Forked

unfoldable pub fork_workers : ℕ → List ForkResult → List ℕ → Forked
fork_workers zero rs ws = in_master ws
fork_workers (suc n) [] ws = failed ws
fork_workers (suc n) (in_child ∷ rs) ws = in_worker ws
fork_workers (suc n) (fork_failed ∷ rs) ws = failed ws
fork_workers (suc n) (forked pid ∷ rs) ws = fork_workers n rs (ws ++ pid ∷ [])

-- `WorkMode`.
pub data WorkMode : Type 0 where
  wm_unknown wm_master wm_worker : WorkMode

-- The members that the start sets. The pair of sockets by which the handlers of signals tell the loop of a
-- process is made before the workers are forked, so that all processes read and write the same two.
pub record ServerImpl : Type 0 where
  pub sig_fds : Option (ℕ × ℕ)
  pub mode : WorkMode
  pub listeners : List Listener
  pub worker_processes : List ℕ

-- How `Initialize` ends: it returns, or the process exits.
pub data Started (W : Type 0) : Type 0 where
  returned : ℤ → ServerImpl → W → Started W
  exits : ℕ → Started W

-- What happens outside in `Initialize`: whether the log, the frame and the configuration could be made, the
-- pair of sockets for the signals, the arrays of the configuration, the number of processors, and
-- the results of `fork` in `Daemonize` and in the loop.
pub record Machine : Type 0 where
  pub log_made : Bool
  pub frame_made : Bool
  pub config_read : Bool
  pub pair : Option (ℕ × ℕ)
  pub tcp_items : Option (List Bytes)
  pub udp_items : Option (List Bytes)
  pub processors : ℕ
  pub to_background : ForkResult
  pub forks : List ForkResult
  -- The word of the lock of each listener when the process goes on: it is in memory that the processes
  -- share, and workers that were forked before may have taken the lock.
  pub words : ℕ → ℕ

-- `get_nprocs() > 0 ? get_nprocs() : 1`.
unfoldable pub worker_num : ℕ → ℕ
worker_num n = if ltb 0 n then n else 1

-- The listeners with the words that their locks have, from the number `i` on.
unfoldable pub shared : (ℕ → ℕ) → ℕ → List Listener → List Listener
shared words i [] = []
shared words i (l ∷ ls) =
    let mtx : Option AtomicMtx = elim l.mtx [
      | none ↦ none
      | some m ↦ some (record { word = some (words i) })
    ] in
    record l { mtx = mtx } ∷ shared words (suc i) ls

-- What `Initialize` does with the result of the loop.
unfoldable pub settle : {W : Type 0} → ServerImpl → W → Forked → Started W
settle srv w (in_master ws) =
    returned (pos 0) (record srv { mode = wm_master; worker_processes = ws }) w
settle srv w (in_worker ws) =
    returned (pos 0) (record srv { mode = wm_worker; worker_processes = ws }) w
settle srv w (failed ws) = returned (neg 115) (record srv { worker_processes = ws }) w

-- The members before `InitSrv`.
abbrev pub bare : Option (ℕ × ℕ) → ServerImpl
bare fds = record { sig_fds = fds; mode = wm_unknown; listeners = []; worker_processes = [] }

abbrev pub no_pair : Option (ℕ × ℕ) → Bool
no_pair none = true
no_pair (some p) = false

module _ {W : Type 0} (api : SocketApi W) (eth_addr : Bytes → Option ℕ) (atoi : Bytes → ℕ) where
  -- The two calls of `InitSrv`, each with a new item, and its result with what was opened.
  unfoldable pub init_srv : Machine → Opened api eth_addr atoi → ℤ × Opened api eth_addr atoi
  unfolding init_listener
  init_srv mc s =
      let new_item : ListenItem = record { proto = []; ip = 0; port = 0 } in
      let (tcp, s₁) = init_listener api eth_addr atoi (codes "tcp") mc.tcp_items new_item s in
      let (udp, s₂) = init_listener api eth_addr atoi (codes "udp") mc.udp_items new_item s₁ in
      if is_neg tcp then (neg 293, s₁) else if is_neg udp then (neg 297, s₂) else (pos 0, s₂)

  -- From `InitSrv` on. An error of it is before `Daemonize`.
  unfoldable pub start : Machine → W → Started W
  unfolding init_srv daemonize fork_workers shared settle
  start mc w =
      let (ret, (ls, w₁)) = init_srv mc ([], w) in
      let opened : ServerImpl = record (bare mc.pair) { listeners = ls } in
      if is_neg ret
      then returned (neg 103) opened w₁
      else if daemonize mc.to_background
      then settle (record opened { listeners = shared mc.words 0 ls }) w₁
          (fork_workers (worker_num mc.processors) mc.forks [])
      else exits 0

  -- `Initialize`; `exit(-1)` in `InitSigAction` is the status 255.
  unfoldable pub initialize : Machine → W → Started W
  unfolding start
  initialize mc w =
      if not mc.log_made
      then returned (neg 83) (bare none) w
      else if not mc.frame_made
      then returned (neg 88) (bare none) w
      else if not mc.config_read
      then returned (neg 93) (bare none) w
      else if no_pair mc.pair
      then exits 255
      else start mc w
