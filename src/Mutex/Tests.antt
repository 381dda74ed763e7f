-- ===== src/Mutex/Tests.antt =====
-- The lock at small inputs.
use tinyco.Prelude.{ℕ, ◌≡◌, refl, some, arith, true, false}
use tinyco.Mutex.Defs.{atomic_compare_and_set}
use tinyco.Mutex.Workers.{
  saw_free, holding, update, Workers, Step, read_free, swap, exchange, Reach, here, next, start,
}
use tinyco.Mutex.Exclusion.{mutual_exclusion, several-both}

-- Process 41 takes the lock and dies with it.
abbrev after_read : Workers
after_read = record (start false) { pc = update (start false).pc 41 saw_free }

read_41 : Step (start false) after_read
unfolding start
read_41 = read_free 41 (omega arith) refl refl

abbrev taken : Workers
taken = record after_read { mtx = record { word = some 41 }; pc = update after_read.pc 41 holding }

swap_41 : Step after_read taken
unfolding start exchange atomic_compare_and_set
swap_41 = swap 41 refl (omega arith) refl

taken-Reach : Reach (start false) taken
taken-Reach = next (next here read_41) swap_41

mutual_exclusion_example : ◌≡◌ {A = ℕ} 41 41
unfolding start
mutual_exclusion_example = mutual_exclusion taken-Reach 41 41 (omega arith) (omega arith) refl refl

several-both_example :
    (s : Workers) × Reach (start true) s × (s.pc 41 ≡ holding) × (s.pc 42 ≡ holding)
several-both_example = several-both 41 42 (omega arith) (omega arith) (λ e. omega arith)
