-- ===== src/Mutex/Exclusion.antt =====
-- What holds of the workers around the lock on one processor, whatever the order of their steps, and how it
-- fails on several.
use tinyco.Prelude.{
  ℕ, ◌<◌, ◌≡◌, refl, ◌≢◌, ◌⊎◌, inl, inr, true, false, some, arith, ◌==◌, Bool-cases, ℤ,
}
use tinyco.Mutex.Defs.{AtomicMtx, atomic_compare_and_set, unlock, forced_unlock_if_need}
use tinyco.Mutex.Workers
use tinyco.Mutex.Workers.{
  Pc, idle, saw_free, locking, lock_reads, lock_writes, unlock_reads, unlock_writes, holding, dead,
  update, Workers, exchange, Step, read_free, read_held, swap, release, crash, reap, Reach, here,
  next, start,
}

-- The word names the process that holds the lock, or one that died with it, and there is a page.
pub record Inv (s : Workers) (owner : ℕ) : Type 0 where
  pub single : s.several ≡ false
  pub named : s.mtx.word ≡ some owner
  pub held : (p : ℕ) → 0 < p → s.pc p ≡ holding → owner ≡ p
  pub alive : (p : ℕ) → 0 < p → owner ≡ p → (s.pc p ≡ holding) ⊎ (s.pc p ≡ dead)

start-Inv : Inv (start false) 0
unfolding start
start-Inv = record {
  single = refl;
  named = refl;
  held = λ p z e. cc;
  alive = λ p z e. absurd (omega arith);
}

-- A process moves and the word stays: it neither begins nor ends holding.
move-Inv :
    (s : Workers) (o p : ℕ) (c : Pc)
    → Inv s o
    → 0 < p
    → c ≢ holding
    → s.pc p ≢ holding
    → (o ≡ p → c ≡ dead)
    → Inv (record s { pc = update s.pc p c }) o
move-Inv s o p c v z a b d = record {
  single = v.single;
  named = v.named;
  held = λ q y e. grind (arith, v.held);
  alive = λ q y e. grind (arith, v.alive);
}

-- The same for a step that rewrites the word too: from owner `o` to `o'`, by `p` alone.
abbrev Owned : Workers → Type 0
Owned s = (o : ℕ) × Inv s o

swap-Inv :
    (s : Workers) (o p : ℕ)
    → Inv s o
    → 0 < p
    → s.pc p ≡ saw_free
    → Owned (record s {
      mtx = (exchange p s.mtx).0;
      pc = update s.pc p (Workers.after_exchange (exchange p s.mtx).1);
    })
unfolding exchange atomic_compare_and_set
swap-Inv s o p v z h = rw v.named (elim (Bool-cases (o == 0)) [
  | inl e ↦ rw e (
    p,
    record {
      single = v.single;
      named = refl;
      held = λ q y k. grind (arith, v.held);
      alive = λ q y k. ground arith;
    },
  )
  | inr e ↦ rw e (
    o,
    record {
      single = v.single;
      named = refl;
      held = λ q y k. grind (arith, v.held);
      alive = λ q y k. grind (arith, v.alive);
    },
  )
])

release-Inv :
    (s : Workers) (o p : ℕ)
    → Inv s o
    → 0 < p
    → s.pc p ≡ holding
    → Owned (record s { mtx = (unlock atomic_compare_and_set p s.mtx).0; pc = update s.pc p idle })
unfolding unlock atomic_compare_and_set
release-Inv s o p v z h =
    rw (v.named, ==_of_eq o p (v.held p z h))
      (
        0,
        record {
          single = v.single;
          named = refl;
          held = λ q y k. grind (arith, v.held);
          alive = λ q y k. absurd (omega arith);
        },
      )
  where
    ==_of_eq : (a b : ℕ) → a ≡ b → (a == b) ≡ true
    ==_of_eq a b e = ground arith

crash-Inv : (s : Workers) (o p : ℕ) → Inv s o → 0 < p → Inv (record s { pc = update s.pc p dead }) o
crash-Inv s o p v z = record {
  single = v.single;
  named = v.named;
  held = λ q y e. grind (arith, v.held);
  alive = λ q y e. grind (arith, v.alive);
}

reap-Inv :
    (s : Workers) (o p : ℕ) (m : AtomicMtx) (r : ℤ)
    → Inv s o
    → 0 < p
    → s.pc p ≡ dead
    → forced_unlock_if_need p s.mtx ≡ some (m, r)
    → Owned (record s { mtx = m; pc = update s.pc p idle })
unfolding forced_unlock_if_need
reap-Inv s o p m r v z h e = elim (Bool-cases (o == p)) [
  | inl k ↦ (
    0,
    record {
      single = v.single;
      named = grind (arith, v.named);
      held = λ q y j. grind (arith, v.held);
      alive = λ q y j. absurd (omega arith);
    },
  )
  | inr k ↦ (
    o,
    record {
      single = v.single;
      named = grind (arith, v.named);
      held = λ q y j. grind (arith, v.held);
      alive = λ q y j. grind (arith, v.alive);
    },
  )
]

Step-Owned : {s t : Workers} → Step s t → Owned s → Owned t
Step-Owned {s} (read_free p z h f) (o, v) =
    (o, move-Inv s o p saw_free v z (λ e. cc) (λ e. cc) (λ e. grind (arith, v.alive, v.named)))
Step-Owned (read_held p z h f) w = w
Step-Owned {s} (swap p a z h) (o, v) = swap-Inv s o p v z h
Step-Owned {s} (release p a z h) (o, v) = release-Inv s o p v z h
Step-Owned {s} (lock_reads p w a z h r) (o, v) = absurd (ground (arith, v.single))
Step-Owned {s} (lock_writes p w a z h) (o, v) = absurd (ground (arith, v.single))
Step-Owned {s} (unlock_reads p w a z h r) (o, v) = absurd (ground (arith, v.single))
Step-Owned {s} (unlock_writes p w a z h) (o, v) = absurd (ground (arith, v.single))
Step-Owned {s} (crash p z) (o, v) = (o, crash-Inv s o p v z)
Step-Owned {s} (reap p m r z h e) (o, v) = reap-Inv s o p m r v z h e

Reach-Owned : {s : Workers} → Reach (start false) s → Owned s
Reach-Owned here = (0, start-Inv)
Reach-Owned (next r st) = Step-Owned st (Reach-Owned r)

-- On one processor, however the steps of any number of processes interleave, no two are in the guarded
-- section together, in the x86-64 build.
pub mutual_exclusion :
    {s : Workers}
    → Reach (start false) s
    → (p q : ℕ) → 0 < p
    → 0 < q
    → s.pc p ≡ holding
    → s.pc q ≡ holding
    → p ≡ q
mutual_exclusion r p q y z h k =
    let (o, v) = Reach-Owned r in omega (arith, v.held p y h, v.held q z k)

-- On several processors it does not exclude: any two workers can come into the guarded section together,
-- since both exchanges can read the free word before either writes.
pub several-both :
    (p q : ℕ)
    → 0 < p
    → 0 < q
    → p ≢ q
    → (s : Workers) × Reach (start true) s × (s.pc p ≡ holding) × (s.pc q ≡ holding)
unfolding start atomic_compare_and_set
several-both p q y z ne =
    let a : Workers = record (start true) { pc = update (start true).pc p saw_free } in
    let b : Workers = record a { pc = update a.pc q saw_free } in
    let c : Workers = record b { pc = update b.pc p (locking 0) } in
    let d : Workers = record c { pc = update c.pc q (locking 0) } in
    let e : Workers = record d { mtx = record { word = some p }; pc = update d.pc p holding } in
    let f : Workers = record e { mtx = record { word = some q }; pc = update e.pc q holding } in
    (
      f,
      next
          (next
            (next
              (next
                (next (next {t = start true} {u = a} here (read_free p y refl refl))
                  (read_free q z (ground arith) refl))
                (lock_reads p 0 refl y (ground arith) refl))
              (lock_reads q 0 refl z (ground arith) refl))
            (lock_writes p 0 refl y (ground arith)))
          (lock_writes q 0 refl z (ground arith)),
      ground arith,
      ground arith,
    )
