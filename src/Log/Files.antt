-- ===== src/Log/Files.antt =====
-- The files of a directory as log.cc uses them: `std::ofstream`, `std::ifstream`, `rename`, `remove` and
-- `access`. A name leads to an inode, and an open stream keeps its inode whatever becomes of the name.
use tinyco.Prelude.{
  ℕ, zero, suc, ◌-◌, ◌%◌, ◌^◌, Bool, Option, none, some, List, [], ◌∷◌, ◌++◌, length, get_elem?,
  Bytes, lookup, insert, erase, has_key,
}

pub record Disk : Type 0 where
  pub names : List (Bytes × ℕ)
  pub inodes : List Bytes

-- Opening with `out | app`: the inode, which is made where there is no file of the name.
unfoldable pub open_append : Bytes → Disk → ℕ × Disk
open_append name d = elim (lookup name d.names) [
  | some n ↦ (n, d)
  | none ↦ (
    length d.inodes,
    record { names = insert name (length d.inodes) d.names; inodes = d.inodes ++ [] ∷ [] },
  )
]

unfoldable pub append_at : ℕ → Bytes → List Bytes → List Bytes
append_at n bs [] = []
append_at zero bs (c ∷ cs) = (c ++ bs) ∷ cs
append_at (suc n) bs (c ∷ cs) = c ∷ append_at n bs cs

-- `file_ << bs` and a flush.
unfoldable pub write_to : ℕ → Bytes → Disk → Disk
unfolding append_at
write_to n bs d = record d { inodes = append_at n bs d.inodes }

-- `access(name, F_OK) != -1`.
unfoldable pub exists : Bytes → Disk → Bool
exists name d = has_key name d.names

unfoldable pub remove : Bytes → Disk → Disk
remove name d = record d { names = erase name d.names }

unfoldable pub rename : Bytes → Bytes → Disk → Disk
rename old new d = elim (lookup old d.names) [
  | none ↦ d
  | some n ↦ record d { names = insert new n (erase old d.names) }
]

-- What a file of a name holds.
unfoldable pub read : Bytes → Disk → Option Bytes
read name d = elim (lookup name d.names) [ none ↦ none | some n ↦ get_elem? d.inodes n ]

-- `filesize`, as the `uint32_t` that takes it: `tellg` is -1 where the file cannot be opened.
unfoldable pub filesize : Bytes → Disk → ℕ
unfolding read
filesize name d = elim (read name d) [ none ↦ 2 ^ 32 - 1 | some c ↦ length c % 2 ^ 32 ]
