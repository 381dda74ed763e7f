-- ===== src/Mutex/Defs.antt =====
-- mutex.h and mutex.cc: the lock by which the worker processes take turns at a listening socket.
-- The shared page of `AtomicMtx` is the field `word`, `none` before `InitMtx`; processes are pids.
use tinyco.Prelude.{
  ℕ, zero, suc, ◌≡◌, refl, ◌≢◌, Option, none, some, arith, ◌==◌, if◌then◌else◌, ℤ, pos, negsuc, neg,
  Bytes,
}

pub record AtomicMtx : Type 0 where
  pub word : Option ℕ

-- The cmpxchg of the x86-64 build: the new word, and whether the exchange was made.
unfoldable pub atomic_compare_and_set : ℕ → ℕ → ℕ → ℕ × ℕ
atomic_compare_and_set a old n = if a == old then (n, 1) else (a, 0)

-- The build for every other processor stores without comparing, and returns what it stored.
unfoldable pub atomic_compare_and_set_portable : ℕ → ℕ → ℕ → ℕ × ℕ
atomic_compare_and_set_portable a old n = (n, n)

-- `if (ptr_) munmap(…)` of the destructor leaves no page.
unfoldable pub destroy : AtomicMtx → AtomicMtx
destroy m = record { word = none }

unfoldable pub init_mtx : AtomicMtx → AtomicMtx × ℤ
init_mtx m = (record { word = some 0 }, pos 0)

-- `res ? 0 : -1`.
abbrev pub code_of : ℕ → ℤ
code_of zero = neg 1
code_of (suc n) = pos 0

-- `cas` is the build's compare-and-set.
module _ (cas : ℕ → ℕ → ℕ → ℕ × ℕ) where
  unfoldable pub try_lock : ℕ → AtomicMtx → AtomicMtx × ℤ
  try_lock pid m = elim m.word [
    | none ↦ (m, neg 1)
    | some w ↦
        if w == 0
        then (let (w', res) = cas w 0 pid in (record { word = some w' }, code_of res))
        else (m, neg 1)
  ]

  unfoldable pub unlock : ℕ → AtomicMtx → AtomicMtx × ℤ
  unlock pid m = elim m.word [
    | none ↦ (m, neg 1)
    | some w ↦ let (w', res) = cas w pid 0 in (record { word = some w' }, code_of res)
  ]

-- The master frees the lock of a worker that died. Without a page it faults: `none`.
unfoldable pub forced_unlock_if_need : ℕ → AtomicMtx → Option (AtomicMtx × ℤ)
forced_unlock_if_need check m = elim m.word [
  | none ↦ none
  | some w ↦ some (if w == check then (record { word = some 0 }, pos 0) else (m, pos 0))
]

abbrev pub free : AtomicMtx
free = record { word = some 0 }

-- On x86-64, for two different pids: the first process gets the free lock; the second is refused, and
-- its `Unlock` is refused, and both leave the lock alone; the first process frees it.
pub lock_protocol :
    (p q : ℕ)
    → p ≢ 0
    → p ≢ q
    → let a = try_lock atomic_compare_and_set p free in
      let b = try_lock atomic_compare_and_set q a.0 in
      let c = unlock atomic_compare_and_set q b.0 in
      let d = unlock atomic_compare_and_set p c.0 in
      (a.1 ≡ pos 0) × (b ≡ (a.0, neg 1)) × (c ≡ (a.0, neg 1)) × (d ≡ (free, pos 0))
unfolding try_lock unlock atomic_compare_and_set
lock_protocol p q h k = (ground arith, ground arith, ground arith, ground arith)

-- In the build for other processors `Unlock` frees the lock whoever holds it, and reports failure.
pub portable_unlock :
    (w pid : ℕ)
    → unlock atomic_compare_and_set_portable pid (record { word = some w })
      ≡ (record { word = some 0 }, neg 1)
unfolding unlock atomic_compare_and_set_portable
portable_unlock w pid = refl

-- `DummyMtx`: every call succeeds.
unfoldable pub dummy_try_lock : ℤ
dummy_try_lock = pos 0

-- `FileMtx`: the kernel's answers to `open` and `fcntl` are arguments. A null file name fails.
pub record FileMtx : Type 0 where
  pub fd : ℤ

unfoldable pub file_init_mtx : Option Bytes → ℤ → FileMtx → FileMtx × ℤ
file_init_mtx none opened m = (m, neg 1)
file_init_mtx (some path) opened m = (
  record { fd = opened },
  elim opened [ pos n ↦ pos 0 | negsuc n ↦ if n == 0 then neg 1 else pos 0 ],
)

-- `TryLock` and `Unlock` set a lock of the type given on the whole file, and differ in the type.
unfoldable pub file_set_lock : ℤ → ℤ
file_set_lock fcntl = elim fcntl [ pos n ↦ pos 0 | negsuc n ↦ if n == 0 then neg 1 else pos 0 ]
