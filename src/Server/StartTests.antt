-- ===== src/Server/StartTests.antt =====
-- Examples for the start of a server and its signals.
use tinyco.Prelude.{
  ℕ, ◌≡◌, refl, ◌≢◌, ◌↔◌, true, false, Option, none, some, [], ◌∷◌, map, arith, ◌==◌, if◌then◌else◌,
  length, All, pos, Bytes, codes, count,
}
use tinyco.Server.Loops.{ConnTracker}
use tinyco.Server.Tracking.{accepted, ended, Tracks, track_all, change_all, track_all-shuts_down}
use tinyco.Http.Conn.{blocking_flags}
use tinyco.Mutex.Defs.{init_mtx}
use tinyco.Text.Split.{split}
use tinyco.Listener.Network.{set_nonblock}
use tinyco.Listener.Listen.{
  Listener, init_lock, tcp_open, udp_open, tcp_made, udp_made, tcp_listen, udp_listen,
  tcp_listener_new, udp_listener_new,
}
use tinyco.Listener.Tests.{working}
use tinyco.Server.{
  Master, in_child, fork_failed, forked, restart, restart_all, as_master, unlock_all,
}
use tinyco.Server.Services.{parse_listen}
use tinyco.Server.Start.{
  Machine, ServerImpl, returned, exits, wm_master, wm_worker, initialize, start, init_srv, shared,
  init_listener, init_items, take_item, keep, listen_on, daemonize, fork_workers, settle,
  worker_num,
}
use tinyco.Server.Initialized.{
  StartedWell, initialize-StartedWell, master_of, initialize-restart, locks_of,
}
use tinyco.Server.Restart.{freed}
use tinyco.Server.Workers.{
  shuts_down, Accepts, worker_threads, worker_threads-initialize, worker_loop,
}
use tinyco.Server.Signals.{
  Process, trackers, signal, sighup, master_round, in_worker_run, restarted-no_shutdown,
}

-- A machine with two processors, on which all works, and one item for each protocol.
abbrev machine : Machine
machine = record {
  log_made = true;
  frame_made = true;
  config_read = true;
  pair = some (4, 5);
  tcp_items = some (codes "eth0:80" ∷ []);
  udp_items = some (codes "eth0:53" ∷ []);
  processors = 2;
  to_background = in_child;
  forks = forked 11 ∷ forked 12 ∷ [];
  words = λ i. if i == 0 then 11 else 0;
}

abbrev eth0 : Bytes → Option ℕ
eth0 name = some 1

abbrev port_of : Bytes → ℕ
port_of s = length s

abbrev opened_on : ℕ → ℕ → Listener
opened_on port holder = record {
  listenfd = some 7;
  ip = 1;
  port = port;
  mtx = some (record { word = some holder });
  proto = codes "tcp";
}

abbrev master : ServerImpl
master = record {
  sig_fds = some (4, 5);
  mode = wm_master;
  listeners = opened_on 2 11 ∷ opened_on 2 0 ∷ [];
  worker_processes = 11 ∷ 12 ∷ [];
}

started : initialize working eth0 port_of machine [] ≡ returned (pos 0) master []
unfolding initialize start init_srv init_listener init_items take_item keep listen_on daemonize
    fork_workers shared settle worker_num parse_listen split tcp_listen udp_listen tcp_made udp_made
    tcp_open udp_open init_lock init_mtx set_nonblock blocking_flags tcp_listener_new
    udp_listener_new
started = refl

-- A process that cannot go to the background exits with 0.
no_background :
    initialize working eth0 port_of (record machine { to_background = fork_failed }) [] ≡ exits 0
unfolding initialize start init_srv init_listener init_items take_item keep listen_on daemonize
    parse_listen split tcp_listen udp_listen tcp_made udp_made tcp_open udp_open init_lock init_mtx
    set_nonblock blocking_flags tcp_listener_new udp_listener_new
no_background = refl

initialize-StartedWell_example :
    StartedWell (worker_num 2) (initialize working eth0 port_of machine [])
initialize-StartedWell_example = initialize-StartedWell working eth0 port_of machine []

initialize-restart_example :
    (m : Master) × (restart (forked 20) 11 (master_of master) ≡ as_master m)
    × (count 11 m.workers ≡ 0)
    × (count 20 m.workers ≡ 1)
    × (length m.workers ≡ worker_num 2)
    × All (λ l. l.word ≢ some 11) m.locks
    × (m.locks ≡ map (freed 11) (locks_of master.listeners))
initialize-restart_example =
    initialize-restart working eth0 port_of machine [] [] master 11 20 started refl (omega arith)
      (omega arith) refl

worker_threads-initialize_example :
    All Accepts (worker_threads master.listeners) × (length (worker_threads master.listeners) ≡ 2)
worker_threads-initialize_example =
    worker_threads-initialize working eth0 port_of machine [] [] master started

-- A master whose worker 11 has ended.
abbrev busy : Process
busy = record {
  mode = wm_master;
  master = record { workers = 11 ∷ 12 ∷ []; restarts = 11 ∷ []; locks = [] };
  tracker = record { conns = []; graceful_shutdown = false };
  waits = [];
}

abbrev child : Process
child = record busy { master = record busy.master { restarts = [] } }

child_made : master_round (in_child ∷ []) busy ≡ in_worker_run child
unfolding master_round restart_all restart unlock_all
child_made = refl

restarted-no_shutdown_example :
    (worker_loop (trackers ((signal sighup ∷ [], accepted 8 ∷ []) ∷ []) child) ≡ none)
    × (worker_loop (trackers ((signal sighup ∷ [], []) ∷ []) (record busy { mode = wm_worker }))
        ≡ some 1)
restarted-no_shutdown_example =
    restarted-no_shutdown (in_child ∷ []) busy child (record busy { mode = wm_worker })
      ((signal sighup ∷ [], accepted 8 ∷ []) ∷ []) refl child_made refl refl refl

-- A tracker of a server that shuts down, without connections.
abbrev leaving : ConnTracker
leaving = record { conns = []; graceful_shutdown = true }

track_all-shuts_down_example :
    let es = accepted 8 ∷ accepted 9 ∷ ended 8 ∷ [] in
    Tracks (change_all es (λ n. false)) (track_all es leaving)
    × ((shuts_down (track_all es leaving) ≡ true)
        ↔ ((n : ℕ) → change_all es (λ n. false) n ≡ false))
track_all-shuts_down_example =
    track_all-shuts_down (accepted 8 ∷ accepted 9 ∷ ended 8 ∷ []) (λ n. false) leaving (λ n. refl)
      refl
