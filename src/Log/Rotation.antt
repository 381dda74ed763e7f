-- ===== src/Log/Rotation.antt =====
-- The loop of the rotation in `WriteLog`: every file moves up by one number.
use tinyco.Prelude.{
  ℕ, zero, suc, ◌-◌, ◌≤◌, ◌<◌, ◌≡◌, refl, ◌∙◌, inl, inr, true, false, Option, none, some, arith,
  leb, ◌==◌, if◌then◌else◌, Option-cases, Bytes, lookup, erase, lookup-insert, lookup-erase,
}
use tinyco.Log.Files.{Disk, exists, remove, rename}
use tinyco.Log.Local.{log_name, rotate_one, rotate_loop}
use tinyco.Log.Names.{IsNumber, eqb-log_name}

-- The inode of the file of a number.
abbrev pub slot : Bytes → ℕ → Disk → Option ℕ
slot path i d = lookup (log_name path i) d.names

module _ (path : Bytes) where
  slot-remove :
      (i j : ℕ) (d : Disk)
      → IsNumber i
      → IsNumber j
      → slot path j (remove (log_name path i) d) ≡ (if i == j then none else slot path j d)
  unfolding remove
  slot-remove i j d hi hj =
      rw (lookup-erase (log_name path i) (log_name path j) d.names, eqb-log_name path i j hi hj)

  slot-rename :
      (i k j n : ℕ) (d : Disk)
      → IsNumber i
      → IsNumber k
      → IsNumber j
      → slot path i d ≡ some n
      → slot path j (rename (log_name path i) (log_name path k) d)
        ≡ (if k == j then some n else if i == j then none else slot path j d)
  unfolding rename
  slot-rename i k j n d hi hk hj e = rw (
    rename,
    e,
    lookup-insert (log_name path k) (log_name path j) n (erase (log_name path i) d.names),
    eqb-log_name path k j hk hj,
    lookup-erase (log_name path i) (log_name path j) d.names,
    eqb-log_name path i j hi hj,
  )

  exists_slot : (i n : ℕ) (d : Disk) → slot path i d ≡ some n → exists (log_name path i) d ≡ true
  unfolding exists
  exists_slot i n d e = ground arith

  exists_none : (i : ℕ) (d : Disk) → slot path i d ≡ none → exists (log_name path i) d ≡ false
  unfolding exists
  exists_none i d e = ground arith

  rotate_one-none : (i : ℕ) (d : Disk) → slot path i d ≡ none → rotate_one path i d ≡ d
  unfolding rotate_one
  rotate_one-none i d e = rw (exists_none i d e)

  rotate_one-some :
      (i n : ℕ) (d : Disk)
      → i < 99
      → slot path i d ≡ some n
      → rotate_one path i d ≡ rename (log_name path i) (log_name path (suc i)) d
  unfolding rotate_one
  rotate_one-some i n d h e =
      let below : (i == 99) ≡ false = ground arith in rw (exists_slot i n d e, below)

  rotate_one_last :
      (n : ℕ) (d : Disk)
      → slot path 99 d ≡ some n
      → rotate_one path 99 d ≡ remove (log_name path 99) d
  unfolding rotate_one
  rotate_one_last n d e = rw (exists_slot 99 n d e)

  -- One round on a file below the last, when there is none of the next number.
  slot-rotate_one :
      (i j : ℕ) (d : Disk)
      → i < 99
      → IsNumber j
      → slot path (suc i) d ≡ none
      → slot path j (rotate_one path i d)
        ≡ (if suc i == j then slot path i d else if i == j then none else slot path j d)
  slot-rotate_one i j d hi hj e = elim (Option-cases (slot path i d)) [
    | inl q ↦ rw (rotate_one-none i d q, q) (ground arith)
    | inr (n, q) ↦
        rw (rotate_one-some i n d hi q, q)
          (slot-rename i (suc i) j n d (omega arith) (omega arith) hj q)
  ]

  -- The round on the last file.
  slot-rotate_last :
      (j : ℕ) (d : Disk)
      → IsNumber j
      → slot path j (rotate_one path 99 d) ≡ (if 99 == j then none else slot path j d)
  slot-rotate_last j d hj = elim (Option-cases (slot path 99 d)) [
    | inl q ↦ rw (rotate_one-none 99 d q) (ground arith)
    | inr (n, q) ↦ rw (rotate_one_last n d q) (slot-remove 99 j d (omega arith) hj)
  ]

  rotate_loop_next :
      (i : ℕ) (d : Disk) → rotate_loop path (suc i) d ≡ rotate_loop path i (rotate_one path i d)
  unfolding rotate_loop
  rotate_loop_next i d = refl

  rotate_loop_done : (d : Disk) → rotate_loop path 0 d ≡ d
  unfolding rotate_loop
  rotate_loop_done d = refl

  -- Where the file of a number is read after the loop from `i` down to 0.
  abbrev pub moved : ℕ → ℕ → Disk → Option ℕ
  moved i j d = if j == 0 then none else if leb j i then slot path (j - 1) d else slot path j d

  -- From a number of which there is no file, down to 0.
  slot-rotate_loop :
      (i j : ℕ) (d : Disk)
      → i ≤ 99
      → IsNumber j
      → slot path i d ≡ none
      → slot path j (rotate_loop path i d) ≡ moved i j d
  slot-rotate_loop zero zero d h hj e = rw (rotate_loop_done d) e
  slot-rotate_loop zero (suc j) d h hj e = rw (rotate_loop_done d) (ground arith)
  slot-rotate_loop (suc i) zero d h hj e = rw (rotate_loop_next i d) (
      slot-rotate_loop i zero (rotate_one path i d) (omega arith) hj
        (slot-rotate_one i i d (omega arith) (omega arith) e ∙ ground arith))
  slot-rotate_loop (suc i) (suc j) d h hj e =
      let free : slot path i (rotate_one path i d) ≡ none =
        slot-rotate_one i i d (omega arith) (omega arith) e ∙ ground arith in
      let rest = slot-rotate_loop i (suc j) (rotate_one path i d) (omega arith) hj free in
      let here = slot-rotate_one i (suc j) d (omega arith) hj e in
      let pred : suc j - 1 ≡ j = omega arith in
      let below = slot-rotate_one i j d (omega arith) (omega arith) e in
      rw (rotate_loop_next i d) (rest ∙ rw (pred, here, below) (ground arith))

  -- The whole loop: the first number is free, the files up to 98 have moved up, and none above changed.
  pub slot-rotate :
      (j : ℕ) (d : Disk) → IsNumber j → slot path j (rotate_loop path 100 d) ≡ moved 99 j d
  slot-rotate j d hj =
      let free : slot path 99 (rotate_one path 99 d) ≡ none =
        slot-rotate_last 99 d (omega arith) ∙ ground arith in
      let here = slot-rotate_last j d hj in
      let below : IsNumber (j - 1)
          → slot path (j - 1) (rotate_one path 99 d)
            ≡ (if 99 == j - 1 then none else slot path (j - 1) d) =
        slot-rotate_last (j - 1) d in
      rw (rotate_loop_next 99 d) (
        slot-rotate_loop 99 j (rotate_one path 99 d) (omega arith) hj free
        ∙ rw (here, below (omega arith)) (ground arith))
