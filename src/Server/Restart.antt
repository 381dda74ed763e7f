-- ===== src/Server/Restart.antt =====
-- What the master's restarts in server.cc do for a worker that ended, and for another child.
use tinyco.Prelude.{
  ℕ, suc, ◌<◌, ◌≡◌, refl, ◌≢◌, inl, inr, true, false, none, some, List, [], ◌∷◌, ◌++◌, map, arith,
  ◌==◌, if◌then◌else◌, Bool-cases, Option-cases, length, All, pos, count,
}
use tinyco.Mutex.Defs.{AtomicMtx, forced_unlock_if_need}
use tinyco.Server.{
  Master, WaitResult, exited, is_worker, get_worker_status, ForkResult, forked, replace_last,
  unlock_all, as_master, crashed, restart, restart_all,
}

is_worker-count : (pid : ℕ) (ws : List ℕ) → count pid ws ≡ 0 → is_worker pid ws ≡ false
unfolding is_worker
is_worker-count pid [] h = refl
is_worker-count pid (w ∷ ws) h = ground (arith, is_worker-count pid ws)

replace_last-none : (pid new : ℕ) (ws : List ℕ) → count pid ws ≡ 0 → replace_last pid new ws ≡ none
unfolding replace_last
replace_last-none pid new [] h = refl
replace_last-none pid new (w ∷ ws) h =
    let e : replace_last pid new ws ≡ none = replace_last-none pid new ws (omega arith) in
    let other : (w == pid) ≡ false = ground arith in rw (e, other)

-- The worker's pid is replaced by the new one, and nothing else changes.
abbrev Replaced : ℕ → ℕ → List ℕ → List ℕ → Type 0
Replaced pid new ws vs =
    (count pid vs ≡ 0) × (count new vs ≡ suc (count new ws)) × (length vs ≡ length ws)

replace_last-Replaced :
    (pid new : ℕ) (ws : List ℕ)
    → count pid ws ≡ 1
    → pid ≢ new
    → (vs : List ℕ) × (replace_last pid new ws ≡ some vs) × Replaced pid new ws vs
unfolding replace_last
replace_last-Replaced pid new [] h ne = absurd (ground arith)
replace_last-Replaced pid new (w ∷ ws) h ne = elim (Bool-cases (pid == w)) [
  | inl e ↦
      let rest : replace_last pid new ws ≡ none = replace_last-none pid new ws (ground arith) in
      let same : (w == pid) ≡ true = ground arith in
      (new ∷ ws, rw (rest, same), (ground arith, ground arith, refl))
  | inr e ↦
      let (vs, r, (a, b, c)) = replace_last-Replaced pid new ws (ground arith) ne in
      (w ∷ vs, rw r, (ground arith, ground arith, omega arith))
]

-- A lock that the process does not hold.
abbrev NotHeld : ℕ → AtomicMtx → Type 0
NotHeld pid l = l.word ≢ some pid

-- The lock without that process.
abbrev pub freed : ℕ → AtomicMtx → AtomicMtx
freed pid l = elim l.word [ none ↦ l | some w ↦ if w == pid then record { word = some 0 } else l ]

forced_unlock-NotHeld :
    (pid : ℕ) (l : AtomicMtx)
    → 0 < pid
    → l.word ≢ none
    → (k : AtomicMtx) × (forced_unlock_if_need pid l ≡ some (k, pos 0))
      × NotHeld pid k
      × (k ≡ freed pid l)
unfolding forced_unlock_if_need
forced_unlock-NotHeld pid l p h = elim (Option-cases l.word) [
  | inl e ↦ absurd (h e)
  | inr (w, e) ↦ elim (Bool-cases (w == pid)) [
    | inl q ↦ (record { word = some 0 }, ground arith, ground arith, ground arith)
    | inr q ↦ (l, ground arith, ground arith, ground arith)
  ]
]

unlock_all-NotHeld :
    (pid : ℕ) (ls : List AtomicMtx)
    → 0 < pid
    → All (λ l. l.word ≢ none) ls
    → (ks : List AtomicMtx) × (unlock_all pid ls ≡ some ks)
      × All (NotHeld pid) ks
      × (ks ≡ map (freed pid) ls)
unfolding unlock_all
unlock_all-NotHeld pid [] p h = ([], refl, tt, refl)
unlock_all-NotHeld pid (l ∷ ls) p h =
    let (k, e, n, q) = forced_unlock-NotHeld pid l p h.0 in
    let (ks, r, a, qs) = unlock_all-NotHeld pid ls p h.1 in
    (k ∷ ks, rw (e, unlock_all, r), (n, a), rw (q, qs) refl)

-- When a worker has ended and `fork` gives another, the master has as many workers as before: the new
-- process is one of them, the old one is none, no listener's lock names the old one any more, and every
-- other lock is as before.
pub restart-Replaced :
    (pid new : ℕ) (m : Master)
    → 0 < pid
    → pid ≢ new
    → count pid m.workers ≡ 1
    → All (λ l. l.word ≢ none) m.locks
    → (m' : Master) × (restart (forked new) pid m ≡ as_master m')
      × (count pid m'.workers ≡ 0)
      × (count new m'.workers ≡ suc (count new m.workers))
      × (length m'.workers ≡ length m.workers)
      × All (λ l. l.word ≢ some pid) m'.locks
      × (m'.locks ≡ map (freed pid) m.locks)
unfolding restart
restart-Replaced pid new m p ne one words =
    let (ks, e, free, same) = unlock_all-NotHeld pid m.locks p words in
    let (vs, r, (a, b, c)) = replace_last-Replaced pid new m.workers one ne in
    (record m { workers = vs; locks = ks }, rw (e, restart, r) refl, a, b, c, free, same)

restart-crashed :
    (new : ℕ) (m : Master) → count 0 m.workers ≡ 0 → restart (forked new) 0 m ≡ crashed
unfolding restart
restart-crashed new m h =
    let none_there : replace_last 0 new m.workers ≡ none = replace_last-none 0 new m.workers h in
    elim (Option-cases (unlock_all 0 m.locks)) [
      | inl e ↦ rw (restart, e)
      | inr (ks, e) ↦ rw (restart, e, none_there)
    ]

stops :
    (new : ℕ) (fs : List ForkResult) (m : Master)
    → count 0 m.workers ≡ 0
    → restart_all (forked new ∷ fs) (0 ∷ []) m ≡ crashed
unfolding restart_all
stops new fs m h = rw (restart_all, restart-crashed new m h)

-- A child that is no worker is noted as the pid 0, and for that the master writes through a null pointer
-- as soon as `fork` gives it a process.
pub restart_all-crashes :
    (pid new : ℕ) (rs : List WaitResult) (fs : List ForkResult) (m : Master)
    → count pid m.workers ≡ 0
    → count 0 m.workers ≡ 0
    → m.restarts ≡ []
    → let m' = (get_worker_status (exited pid ∷ rs) m).0 in
      (m'.restarts ≡ 0 ∷ []) × (restart_all (forked new ∷ fs) m'.restarts m' ≡ crashed)
unfolding get_worker_status
restart_all-crashes pid new rs fs m unknown no_zero empty =
    let other : is_worker pid m.workers ≡ false = is_worker-count pid m.workers unknown in
    let note : List ℕ = m.restarts ++ (if is_worker pid m.workers then pid else 0) ∷ [] in
    let noted : note ≡ 0 ∷ [] = rw (empty, other) in
    (noted, rw noted (stops new fs (record m { restarts = 0 ∷ [] }) no_zero))
