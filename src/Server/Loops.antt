-- ===== src/Server/Loops.antt =====
-- The loops of `TcpSrvWork` and `UdpSrvWork` and the class ConnTracker, server.h: one round each, with
-- the answers of `Frame::accept` and `Frame::recvfrom` as arguments.
use tinyco.Prelude.{
  ℕ, ◌+◌, ◌≤◌, ◌≡◌, refl, ◌≢◌, Bool, true, false, not, Option, none, some, List, [], ◌∷◌, ◌++◌,
  arith, ltb, ◌==◌, if◌then◌else◌, ==_self, length, pos, neg, is_neg, Bytes,
}
use tinyco.Mutex.Defs.{AtomicMtx, atomic_compare_and_set, try_lock, unlock}

-- `ConnTracker`: `conns_` as the descriptors in it, and `graceful_shutdown_`.
pub record ConnTracker : Type 0 where
  pub conns : List ℕ
  pub graceful_shutdown : Bool

-- `conns_.erase(fd)`.
abbrev pub without : ℕ → List ℕ → List ℕ
without fd [] = []
without fd (c ∷ cs) = let rest = without fd cs in if c == fd then rest else c ∷ rest

unfoldable pub remove_conn : ℕ → ConnTracker → ConnTracker
remove_conn fd t = record t { conns = without fd t.conns }

-- `conns_[fd] = conn`.
unfoldable pub new_conn : ℕ → ConnTracker → ConnTracker
unfolding remove_conn
new_conn fd t = record t { conns = fd ∷ (remove_conn fd t).conns }

unfoldable pub get_conn_size : ConnTracker → ℕ
get_conn_size t = length t.conns

-- The loop's state: its counter, the listener's mutex, the tracker if it has one, and the descriptors
-- for which a thread was made.
pub record TcpLoop : Type 0 where
  pub accepted : ℕ
  pub mtx : AtomicMtx
  pub tracker : Option ConnTracker
  pub threads : List ℕ

-- How a round ends: it sleeps some milliseconds, it goes on, the loop ends, or a null pointer is used.
pub data RoundEnd (S : Type 0) : Type 0 where
  slept : ℕ → S → RoundEnd S
  goes_on : S → RoundEnd S
  stopped : S → RoundEnd S
  crashed : RoundEnd S

-- What follows `CreateThread`: `ct_->GracefulShutdown()` without a test of `ct_`.
unfoldable pub after_create : TcpLoop → RoundEnd TcpLoop
after_create s = elim s.tracker [
  | none ↦ crashed
  | some t ↦ if t.graceful_shutdown then stopped s else goes_on s
]

-- `work_builder_`: null, one that gives a null pointer for the port, or one that gives a work.
pub data Builder : Type 0 where
  absent gives_null gives_work : Builder

-- What is done with the builder.
unfoldable pub build_work : Builder → ℕ → TcpLoop → RoundEnd TcpLoop
unfolding new_conn after_create
build_work absent fd s = goes_on s
build_work gives_null fd s = crashed
build_work gives_work fd s =
    let tracked : Option ConnTracker = elim s.tracker [
      | none ↦ none
      | some t ↦ some (new_conn fd t)
    ] in
    after_create (record s { tracker = tracked; threads = s.threads ++ fd ∷ [] })

-- What follows `accept` with a descriptor: `nonblock` is whether it could be made non-blocking.
unfoldable pub accepted_fd : Bool → Builder → ℕ → TcpLoop → RoundEnd TcpLoop
unfolding build_work
accepted_fd nonblock builder fd s = if not nonblock then stopped s else build_work builder fd s

-- One round of `RunTcpSrv` in the process `pid`.
unfoldable pub tcp_round : ℕ → Bool → Builder → Option ℕ → TcpLoop → RoundEnd TcpLoop
unfolding accepted_fd
tcp_round pid nonblock builder accept s =
    let (locked, ret) = try_lock atomic_compare_and_set pid s.mtx in
    let s₁ = record s { accepted = s.accepted + 1 } in
    let s₂ = record s₁ { mtx = locked } in
    let s₃ = record s₂ { mtx = (unlock atomic_compare_and_set pid locked).0 } in
    if ltb 15 s.accepted
    then slept 50 (record s { accepted = 0 })
    else if is_neg ret
    then slept 50 s₂
    else elim accept [ none ↦ stopped s₂ | some fd ↦ accepted_fd nonblock builder fd s₃ ]

-- The state of `RunUdpSrv`: the mutex, and the packages for which a thread was made.
pub record UdpLoop : Type 0 where
  pub udp_mtx : AtomicMtx
  pub packages : List Bytes

-- One round of `RunUdpSrv`, by the result of `Frame::recvfrom`: a package that is not empty, 0, or an
-- error.
unfoldable pub udp_round : ℕ → Builder → Option Bytes → UdpLoop → RoundEnd UdpLoop
udp_round pid builder pkg s =
    let (locked, ret) = try_lock atomic_compare_and_set pid s.udp_mtx in
    let s₁ = record s { udp_mtx = locked } in
    let s₂ = record s { udp_mtx = (unlock atomic_compare_and_set pid locked).0 } in
    if is_neg ret then slept 500 s₁ else elim pkg [
      | none ↦ stopped s₁
      | some [] ↦ goes_on s₁
      | some (c ∷ bytes) ↦ elim builder [
        | absent ↦ goes_on s₂
        | gives_null ↦ crashed
        | gives_work ↦ goes_on (record s₂ { packages = s.packages ++ (c ∷ bytes) ∷ [] })
      ]
    ]

-- The lock that a round leaves.
abbrev pub lock_of : RoundEnd TcpLoop → Option AtomicMtx
lock_of (slept n s) = some s.mtx
lock_of (goes_on s) = some s.mtx
lock_of (stopped s) = some s.mtx
lock_of crashed = none

abbrev pub held_by : ℕ → AtomicMtx
held_by pid = record { word = some pid }

pub take_lock : (pid : ℕ) → try_lock atomic_compare_and_set pid (held_by 0) ≡ (held_by pid, pos 0)
unfolding try_lock atomic_compare_and_set
take_lock pid = refl

pub release_lock : (pid : ℕ) → unlock atomic_compare_and_set pid (held_by pid) ≡ (held_by 0, pos 0)
unfolding unlock atomic_compare_and_set
release_lock pid = rw (==_self pid)

refused_lock :
    (pid : ℕ) → pid ≢ 0 → try_lock atomic_compare_and_set pid (held_by pid) ≡ (held_by pid, neg 1)
unfolding try_lock
refused_lock pid ne = let other : (pid == 0) ≡ false = ground arith in rw other

after_create-lock :
    (a : ℕ) (m : AtomicMtx) (t : ConnTracker) (ts : List ℕ)
    → lock_of (after_create (record { accepted = a; mtx = m; tracker = some t; threads = ts }))
      ≡ some m
unfolding after_create
after_create-lock a m t ts = ground arith

-- A builder that gives no null pointer.
abbrev pub IsSafe : Builder → Type 0
IsSafe absent = Unit
IsSafe gives_null = ⊥
IsSafe gives_work = Unit

accepted_fd-lock :
    (nonblock : Bool) (builder : Builder) (a fd : ℕ) (m : AtomicMtx) (t : ConnTracker) (ts : List ℕ)
    → IsSafe builder
    → lock_of (
        accepted_fd nonblock builder fd
          (record { accepted = a; mtx = m; tracker = some t; threads = ts }))
      ≡ some m
unfolding accepted_fd build_work
accepted_fd-lock false builder a fd m t ts h = refl
accepted_fd-lock true absent a fd m t ts h = refl
accepted_fd-lock true gives_null a fd m t ts h = absurd h
accepted_fd-lock true gives_work a fd m t ts h =
    after_create-lock a m (new_conn fd t) (ts ++ fd ∷ [])

-- A round of `RunTcpSrv` that finds the lock free, with a tracker and a builder that gives no null
-- pointer and a counter of 15 at most: if a connection is accepted, the lock
-- is free again behind it, whatever becomes of the connection; if `accept` fails, the loop ends and the
-- process still holds the lock.
pub tcp_round-lock :
    (pid a fd : ℕ) (nonblock : Bool) (builder : Builder) (t : ConnTracker) (ts : List ℕ)
    → IsSafe builder
    → a ≤ 15
    → let s : TcpLoop = record { accepted = a; mtx = held_by 0; tracker = some t; threads = ts } in
      (lock_of (tcp_round pid nonblock builder (some fd) s) ≡ some (held_by 0))
      × (tcp_round pid nonblock builder none s
          ≡ stopped (record s { accepted = a + 1; mtx = held_by pid }))
unfolding tcp_round
tcp_round-lock pid a fd nonblock builder t ts safe h =
    let few : ltb 15 a ≡ false = ground arith in
    (
      rw (few, take_lock pid, release_lock pid)
          (accepted_fd-lock nonblock builder (a + 1) fd (held_by 0) t ts safe),
      rw (few, take_lock pid),
    )

-- An empty datagram, or an error that `Frame::recvfrom` gives as 0, is the last thing that `RunUdpSrv`
-- receives: the process keeps the lock, and a round after it finds the lock taken and sleeps.
pub udp_round-stuck :
    (pid : ℕ) (builder again : Builder) (pkg : Option Bytes) (ps : List Bytes)
    → pid ≢ 0
    → let s : UdpLoop = record { udp_mtx = held_by pid; packages = ps } in
      (udp_round pid builder (some []) (record { udp_mtx = held_by 0; packages = ps }) ≡ goes_on s)
      × (udp_round pid again pkg s ≡ slept 500 s)
unfolding udp_round
udp_round-stuck pid builder again pkg ps ne = (rw (take_lock pid), rw (refused_lock pid ne))

-- A builder that gives a null pointer for the port brings the process down at the first connection, and
-- at the first datagram, that it accepts.
pub null_work :
    (pid fd c : ℕ) (bytes : Bytes) (t : Option ConnTracker) (ts : List ℕ) (ps : List Bytes)
    → (tcp_round pid true gives_null
          (some fd)
          (record { accepted = 0; mtx = held_by 0; tracker = t; threads = ts })
        ≡ crashed)
      × (udp_round pid gives_null (some (c ∷ bytes)) (record { udp_mtx = held_by 0; packages = ps })
          ≡ crashed)
unfolding tcp_round udp_round accepted_fd build_work
null_work pid fd c bytes t ts ps = (rw (take_lock pid), rw (take_lock pid))
