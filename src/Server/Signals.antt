-- ===== src/Server/Signals.antt =====
-- The signals of a server, `SignalHelper`, `SignalCallback`, `Run` and the master's loop, server.cc.
use tinyco.Prelude.{
  ℕ, ◌≡◌, refl, ap, ◌∙◌, Bool, true, false, Option, none, some, List, [], ◌∷◌, arith, ◌==◌,
  if◌then◌else◌, All,
}
use mathlib.Core.Path.{subst, subst⁻¹}
use tinyco.Server.{
  Master, WaitResult, get_worker_status, ForkResult, Restarted, restart_all, as_master, as_child,
  crashed,
}
use tinyco.Server.Start.{WorkMode, wm_unknown, wm_master, wm_worker}
use tinyco.Server.Loops.{ConnTracker, get_conn_size}
use tinyco.Server.Tracking.{ConnEvent, track_all, graceful-track_all}
use tinyco.Server.Workers.{worker_loop, shuts_down}

-- A process of the server: its mode, the members of the master, the tracker of connections, and what
-- `waitpid` will answer.
pub record Process : Type 0 where
  pub mode : WorkMode
  pub master : Master
  pub tracker : ConnTracker
  pub waits : List WaitResult

abbrev pub sighup : ℕ
sighup = 1

abbrev pub sigchld : ℕ
sigchld = 17

-- `SignalCallback`, by the mode.
unfoldable pub on_signal : WorkMode → ℕ → Process → Process
unfolding get_worker_status
on_signal wm_unknown signo p = p
on_signal wm_master signo p =
    let (m, rest) = get_worker_status p.waits p.master in
    if signo == sigchld then record p { master = m; waits = rest } else p
on_signal wm_worker signo p =
    if signo == sighup
    then record p { tracker = record p.tracker { graceful_shutdown = true } }
    else p

unfoldable pub signal_callback : ℕ → Process → Process
unfolding on_signal
signal_callback signo p = on_signal p.mode signo p

-- What `Frame::recv` leaves in `signo` in the process that reads the notice, which may be another one than
-- the signal went to, since all have the same pair of sockets: the number of a signal, 0 when nothing was received, or an error.
pub data Notice : Type 0 where
  signal : ℕ → Notice
  hung_up broken : Notice

-- `SignalHelper::Run`: it ends at an error.
unfoldable pub signal_run : List Notice → Process → Process
unfolding signal_callback
signal_run [] p = p
signal_run (signal signo ∷ ns) p = signal_run ns (signal_callback signo p)
signal_run (hung_up ∷ ns) p = signal_run ns (signal_callback 0 p)
signal_run (broken ∷ ns) p = p

-- A round of the loop of `MasterRun`: the master that goes on, or a child that is in `WorkerRun`; the
-- child has the mode of the master.
pub data MasterRound : Type 0 where
  goes_on in_worker_run : Process → MasterRound
  null_pointer : MasterRound

unfoldable pub after_restarts : Process → Restarted → MasterRound
after_restarts p (as_master m) = goes_on (record p { master = m })
after_restarts p (as_child m) = in_worker_run (record p { master = m })
after_restarts p crashed = null_pointer

unfoldable pub master_round : List ForkResult → Process → MasterRound
unfolding restart_all after_restarts
master_round rs p = after_restarts p (restart_all rs p.master.restarts p.master)

-- What `Run` does with the mode: `none` for an error.
unfoldable pub run_as : WorkMode → Option Bool
run_as wm_master = some true
run_as wm_worker = some false
run_as wm_unknown = none

on_signal-master :
    (signo : ℕ) (p : Process)
    → ((on_signal wm_master signo p).tracker ≡ p.tracker)
      × ((on_signal wm_master signo p).mode ≡ p.mode)
unfolding on_signal
on_signal-master signo p = (ground arith, ground arith)

-- A process with the mode of the master changes its tracker at no signal.
signal_callback-master :
    (signo : ℕ) (p : Process)
    → p.mode ≡ wm_master
    → ((signal_callback signo p).tracker ≡ p.tracker) × ((signal_callback signo p).mode ≡ wm_master)
unfolding signal_callback
signal_callback-master signo p e =
    let (same, mode) = on_signal-master signo p in
    subst⁻¹
      (λ m. ((on_signal m signo p).tracker ≡ p.tracker) × ((on_signal m signo p).mode ≡ wm_master))
      e (same, mode ∙ e)

signal_run-master :
    (ns : List Notice) (p : Process) → p.mode ≡ wm_master → (signal_run ns p).tracker ≡ p.tracker
unfolding signal_run
signal_run-master [] p e = refl
signal_run-master (signal signo ∷ ns) p e =
    let (same, mode) = signal_callback-master signo p e in
    signal_run-master ns (signal_callback signo p) mode ∙ same
signal_run-master (hung_up ∷ ns) p e =
    let (same, mode) = signal_callback-master 0 p e in
    signal_run-master ns (signal_callback 0 p) mode ∙ same
signal_run-master (broken ∷ ns) p e = refl

-- The parts of a process that the restarts leave.
abbrev LeftBy : Process → Process → Type 0
LeftBy p c = (c.tracker ≡ p.tracker) × (c.mode ≡ p.mode)

after_restarts-LeftBy :
    (p c : Process) (r : Restarted) → after_restarts p r ≡ in_worker_run c → LeftBy p c
unfolding after_restarts
after_restarts-LeftBy p c (as_master m) e = absurd (ground arith)
after_restarts-LeftBy p c (as_child m) e =
    let same : record p { master = m } ≡ c = ground arith in subst (LeftBy p) same (refl, refl)
after_restarts-LeftBy p c crashed e = absurd (ground arith)

stays_up : (t : ConnTracker) → t.graceful_shutdown ≡ false → shuts_down t ≡ false
unfolding shuts_down
stays_up t off = ground arith

loop_stays :
    (ts : List ConnTracker) → All (λ t. t.graceful_shutdown ≡ false) ts → worker_loop ts ≡ none
unfolding worker_loop
loop_stays [] h = refl
loop_stays (t ∷ ts) (off, rest) =
    let goes_on_here : shuts_down t ≡ false = stays_up t off in
    rw (goes_on_here, loop_stays ts rest)

-- A round of the loop of `WorkerRun`: the notices that the process reads while it sleeps, and the
-- connections that come and go.
abbrev pub Rounds : Type 0
Rounds = List (List Notice × List ConnEvent)

abbrev pub pass : List Notice → List ConnEvent → Process → Process
pass ns es p = let q = signal_run ns p in record q { tracker = track_all es q.tracker }

-- What the loop finds in the tracker in each round.
abbrev pub trackers : Rounds → Process → List ConnTracker
trackers [] p = []
trackers ((ns, es) ∷ rounds) p = (pass ns es p).tracker ∷ trackers rounds (pass ns es p)

signal_run-mode :
    (ns : List Notice) (p : Process) → p.mode ≡ wm_master → (signal_run ns p).mode ≡ wm_master
unfolding signal_run
signal_run-mode [] p e = e
signal_run-mode (signal signo ∷ ns) p e =
    signal_run-mode ns (signal_callback signo p) (signal_callback-master signo p e).1
signal_run-mode (hung_up ∷ ns) p e =
    signal_run-mode ns (signal_callback 0 p) (signal_callback-master 0 p e).1
signal_run-mode (broken ∷ ns) p e = e

trackers-stay :
    (rounds : Rounds) (p : Process)
    → p.mode ≡ wm_master
    → p.tracker.graceful_shutdown ≡ false
    → All (λ t. t.graceful_shutdown ≡ false) (trackers rounds p)
trackers-stay [] p m off = tt
trackers-stay ((ns, es) ∷ rounds) p m off =
    let q : Process = signal_run ns p in
    let kept : (track_all es q.tracker).graceful_shutdown ≡ false =
      graceful-track_all es q.tracker
      ∙ ap (λ t. t.graceful_shutdown) (signal_run-master ns p m)
      ∙ off in
    (kept, trackers-stay rounds (pass ns es p) (signal_run-mode ns p m) kept)

worker_once :
    (p : Process)
    → p.mode ≡ wm_worker
    → p.tracker.conns ≡ []
    → worker_loop (trackers ((signal sighup ∷ [], []) ∷ []) p) ≡ some 1
unfolding signal_run signal_callback on_signal worker_loop shuts_down get_conn_size track_all
worker_once p m empty = rw (m, empty) refl

-- The loop of a worker that the master has forked in place of another does not end while the master does
-- not shut down, whatever notices of signals the worker reads, SIGHUP among them, and whatever connections
-- come and go: it has the mode of the master. A process with the mode of a worker, without connections,
-- ends its loop in the round in which it reads the notice of SIGHUP.
pub restarted-no_shutdown :
    (rs : List ForkResult) (p c w : Process) (rounds : Rounds)
    → p.mode ≡ wm_master
    → master_round rs p ≡ in_worker_run c
    → p.tracker.graceful_shutdown ≡ false
    → w.mode ≡ wm_worker
    → w.tracker.conns ≡ []
    → (worker_loop (trackers rounds c) ≡ none)
      × (worker_loop (trackers ((signal sighup ∷ [], []) ∷ []) w) ≡ some 1)
unfolding master_round
restarted-no_shutdown rs p c w rounds mode e off worker empty =
    let (tracker, left) = after_restarts-LeftBy p c (restart_all rs p.master.restarts p.master) e in
    (
      loop_stays (trackers rounds c)
          (trackers-stay rounds c (left ∙ mode) (ap (λ t. t.graceful_shutdown) tracker ∙ off)),
      worker_once w worker empty,
    )
