-- ===== src/Server.antt =====
-- The master process of server.h and server.cc: it reaps the workers that end, frees the locks that they
-- held, and forks others in their place. `waitpid`'s and `fork`'s answers are arguments.
use tinyco.Prelude.{
  ℕ, zero, suc, ◌+◌, ◌-◌, ◌*◌, ◌/◌, ◌%◌, ◌^◌, ◌≤◌, ◌<◌, ◌≡◌, refl, sym, ap, ◌∙◌, ◌≢◌, ◌↔◌, ◌⊎◌, inl,
  inr, Bool, true, false, not, ◌&&◌, ◌||◌, Option, none, some, List, [], ◌∷◌, ◌++◌, map, append-nil,
  append_assoc, arith, ltb, leb, ◌==◌, if◌then◌else◌, ltb→lt, lt→ltb, leb→le, ==_iff, ==_self,
  Bool-cases, Option-cases, length, get_elem?, take, drop, replicate, length-append, length-take,
  length-drop, take-append-drop, drop_all, take_all, drop-append, take-append, drop-drop, All,
  All-append, ℤ, pos, negsuc, neg, is_neg, is_pos, Bytes, codes, eqb, eqb_sound, eqb_self, eqb_iff,
  is_empty, lookup, insert, erase, has_key, value_or, lookup-insert, lookup-erase, count,
  count-append, reverse,
}
use tinyco.Mutex.Defs.{AtomicMtx, forced_unlock_if_need}
pub mod Restart
pub mod Services
pub mod Loops
pub mod Start
pub mod Listeners
pub mod Initialized
pub mod Workers
pub mod Signals
pub mod Tracking
mod Tests
mod StartTests

-- The members that the master uses: the pids of `worker_processes_`, `restart_worker_pid_`, and the
-- mutexes of the listeners.
pub record Master : Type 0 where
  pub workers : List ℕ
  pub restarts : List ℕ
  pub locks : List AtomicMtx

-- `waitpid(-1, &status, WNOHANG)`: 0, -1 with EINTR, -1 with another error, or a pid.
pub data WaitResult : Type 0 where
  no_child interrupted wait_failed : WaitResult
  exited : ℕ → WaitResult

-- `w.pid == pid` for a worker.
unfoldable pub is_worker : ℕ → List ℕ → Bool
is_worker pid [] = false
is_worker pid (w ∷ ws) = w == pid || is_worker pid ws

-- `GetWorkerStatus`: one process at most is reaped; a pid that is no worker's is noted as 0. The answers
-- that are left come with the state.
unfoldable pub get_worker_status : List WaitResult → Master → Master × List WaitResult
unfolding is_worker
get_worker_status [] m = (m, [])
get_worker_status (no_child ∷ rs) m = (m, rs)
get_worker_status (interrupted ∷ rs) m = get_worker_status rs m
get_worker_status (wait_failed ∷ rs) m = (m, rs)
get_worker_status (exited pid ∷ rs) m =
    (record m { restarts = m.restarts ++ (if is_worker pid m.workers then pid else 0) ∷ [] }, rs)

-- `fork`: 0 in the child, a pid in the master, or an error.
pub data ForkResult : Type 0 where
  in_child fork_failed : ForkResult
  forked : ℕ → ForkResult

-- `w->pid = new_worker_pid` for the last worker with the pid; `none` where there is none.
unfoldable pub replace_last : ℕ → ℕ → List ℕ → Option (List ℕ)
replace_last pid new [] = none
replace_last pid new (w ∷ ws) =
    let rest = replace_last pid new ws in
    elim rest [ some ws' ↦ some (w ∷ ws') | none ↦ if w == pid then some (new ∷ ws) else none ]

-- The loop over the listeners, with `ForcedUnlockIfNeed` of each; `none` is a null mutex word.
unfoldable pub unlock_all : ℕ → List AtomicMtx → Option (List AtomicMtx)
unlock_all pid [] = some []
unlock_all pid (l ∷ ls) =
    let rest = unlock_all pid ls in
    elim (forced_unlock_if_need pid l) [
      | none ↦ none
      | some (l', _) ↦ elim rest [ none ↦ none | some ls' ↦ some (l' ∷ ls') ]
    ]

-- How a restart ends: in the master, in the child that runs as a worker then, or with a null pointer.
pub data Restarted : Type 0 where
  as_master : Master → Restarted
  as_child : Master → Restarted
  crashed : Restarted

-- One round of the loop over `restart_worker_pid_` in `MasterRun`.
unfoldable pub restart : ForkResult → ℕ → Master → Restarted
unfolding unlock_all replace_last
restart r pid m = elim (unlock_all pid m.locks) [
  | none ↦ crashed
  | some locks ↦
      let m' = record m { locks = locks } in
      elim r [
        | in_child ↦ as_child m'
        | fork_failed ↦ as_master m'
        | forked new ↦ elim (replace_last pid new m.workers) [
          | none ↦ crashed
          | some workers ↦ as_master (record m' { workers = workers })
        ]
      ]
]

-- The loop, with the results of `fork` in turn; a child leaves it, and the list is cleared behind it.
unfoldable pub restart_all : List ForkResult → List ℕ → Master → Restarted
unfolding restart
restart_all rs [] m = as_master (record m { restarts = [] })
restart_all [] (pid ∷ pids) m = as_master (record m { restarts = pid ∷ pids })
restart_all (r ∷ rs) (pid ∷ pids) m = elim (restart r pid m) [
  | as_master m' ↦ restart_all rs pids m'
  | as_child m' ↦ as_child (record m' { restarts = [] })
  | crashed ↦ crashed
]
