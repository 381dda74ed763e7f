-- ===== src/Mutex/Workers.antt =====
-- The worker processes and the master around one `AtomicMtx`, one machine step at a time. The x86-64 build
-- has a cmpxchgq without the lock prefix: on one processor it is one step, and on several it is a read of
-- the word and, in a later step, a write to it, which it does whether or not the values compare.
use tinyco.Prelude.{
  ℕ, ◌<◌, ◌≡◌, Bool, true, false, none, some, ◌==◌, ◌<◌, if◌then◌else◌, ℤ, pos, negsuc, neg,
}
use tinyco.Mutex.Defs.{AtomicMtx, atomic_compare_and_set, code_of, unlock, forced_unlock_if_need}

-- Where a process stands: outside `TryLock`, between the test of the word and the exchange, in the section
-- that the lock guards, or dead; or inside an exchange, of `TryLock` or of `Unlock`, that has read a value.
pub data Pc : Type 0 where
  idle saw_free holding dead : Pc
  locking unlocking : ℕ → Pc

-- `f` with the value at `i` changed.
abbrev pub update {ℓ} : {A : Type ℓ} → (ℕ → A) → ℕ → A → ℕ → A
update pcs p v q = if p == q then v else pcs q

pub record Workers : Type 0 where
  pub mtx : AtomicMtx
  pub pc : ℕ → Pc
  pub several : Bool  -- whether there are several processors

-- `*ptr_ == 0`.
abbrev pub reads_free : AtomicMtx → Bool
reads_free m = elim m.word [ none ↦ false | some w ↦ w == 0 ]

-- The exchange of `TryLock` by `pid`.
unfoldable pub exchange : ℕ → AtomicMtx → AtomicMtx × ℤ
exchange pid m = elim m.word [
  | none ↦ (m, neg 1)
  | some w ↦
      let (w', res) = atomic_compare_and_set w 0 pid in (record { word = some w' }, code_of res)
]

-- Where `TryLock` leaves its caller.
abbrev pub after_exchange : ℤ → Pc
after_exchange (pos n) = holding
after_exchange (negsuc n) = idle

-- A step of a process with a pid: the pids are positive.
pub data Step (s : Workers) : Workers → Type 0 where
  read_free :
      (p : ℕ)
      → 0 < p
      → s.pc p ≡ idle
      → reads_free s.mtx ≡ true
      → Step s (record s { pc = update s.pc p saw_free })
  read_held : (p : ℕ) → 0 < p → s.pc p ≡ idle → reads_free s.mtx ≡ false → Step s s
  swap :
      (p : ℕ)
      → s.several ≡ false
      → 0 < p
      → s.pc p ≡ saw_free
      → Step s (record s {
        mtx = (exchange p s.mtx).0;
        pc = update s.pc p (after_exchange (exchange p s.mtx).1);
      })
  -- The exchange of `TryLock` on several processors.
  lock_reads :
      (p w : ℕ)
      → s.several ≡ true
      → 0 < p
      → s.pc p ≡ saw_free
      → s.mtx.word ≡ some w
      → Step s (record s { pc = update s.pc p (locking w) })
  lock_writes :
      (p w : ℕ)
      → s.several ≡ true
      → 0 < p
      → s.pc p ≡ locking w
      → Step s (record s {
        mtx = record { word = some (atomic_compare_and_set w 0 p).0 };
        pc = update s.pc p (after_exchange (code_of (atomic_compare_and_set w 0 p).1));
      })
  release :
      (p : ℕ)
      → s.several ≡ false
      → 0 < p
      → s.pc p ≡ holding
      → Step s
          (record s { mtx = (unlock atomic_compare_and_set p s.mtx).0; pc = update s.pc p idle })
  -- The exchange of `Unlock` on several processors.
  unlock_reads :
      (p w : ℕ)
      → s.several ≡ true
      → 0 < p
      → s.pc p ≡ holding
      → s.mtx.word ≡ some w
      → Step s (record s { pc = update s.pc p (unlocking w) })
  unlock_writes :
      (p w : ℕ)
      → s.several ≡ true
      → 0 < p
      → s.pc p ≡ unlocking w
      → Step s (record s {
        mtx = record { word = some (atomic_compare_and_set w p 0).0 };
        pc = update s.pc p idle;
      })
  crash : (p : ℕ) → 0 < p → Step s (record s { pc = update s.pc p dead })
  reap :
      (p : ℕ) (m : AtomicMtx) (r : ℤ)
      → 0 < p
      → s.pc p ≡ dead
      → forced_unlock_if_need p s.mtx ≡ some (m, r)
      → Step s (record s { mtx = m; pc = update s.pc p idle })

pub data Reach (s : Workers) : Workers → Type 0 where
  here : Reach s s
  next : {t u : Workers} → Reach s t → Step t u → Reach s u

-- After `InitMtx`, with every process outside.
unfoldable pub start : Bool → Workers
start several = record { mtx = record { word = some 0 }; pc = λ p. idle; several = several }
