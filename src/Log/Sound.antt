-- ===== src/Log/Sound.antt =====
-- Directories in which every name leads to an inode of its own, and the operations of log.cc on them.
use tinyco.Prelude.{
  ℕ, zero, suc, ◌<◌, ◌≡◌, refl, ap, ◌∙◌, inl, inr, Bool, true, false, none, some, List, [], ◌∷◌,
  ◌++◌, arith, ◌==◌, if◌then◌else◌, Option-cases, length, length-append, Bytes, eqb_iff, lookup,
  insert, erase, lookup-insert, lookup-erase,
}
use tinyco.Log.Files.{Disk, open_append, append_at, write_to, exists, remove, rename}
use mathlib.Core.Path.{subst⁻¹}
use tinyco.Log.Local.{log_name, rotate_one, rotate_loop}

pub record IsSound (d : Disk) : Type 0 where
  pub bounded : (k : Bytes) (n : ℕ) → lookup k d.names ≡ some n → n < length d.inodes
  pub distinct :
      (j k : Bytes) (n : ℕ) → lookup j d.names ≡ some n → lookup k d.names ≡ some n → j ≡ k

pub length-append_at :
    (n : ℕ) (bs : Bytes) (cs : List Bytes) → length (append_at n bs cs) ≡ length cs
unfolding append_at
length-append_at n bs [] = refl
length-append_at zero bs (c ∷ cs) = refl
length-append_at (suc n) bs (c ∷ cs) = ap suc (length-append_at n bs cs)

pub write_to-IsSound : (n : ℕ) (bs : Bytes) (d : Disk) → IsSound d → IsSound (write_to n bs d)
unfolding write_to
write_to-IsSound n bs d h = record {
  bounded = λ k m e. rw (length-append_at n bs d.inodes) (h.bounded k m e);
  distinct = h.distinct;
}

remove-IsSound : (name : Bytes) (d : Disk) → IsSound d → IsSound (remove name d)
unfolding remove
remove-IsSound name d h = record {
  bounded = λ k m e. ground (arith, lookup-erase name k d.names, h.bounded k m);
  distinct = λ j k m e f.
      ground (arith, lookup-erase name k d.names, lookup-erase name j d.names, h.distinct j k m);
}

rename-none : (old new : Bytes) (d : Disk) → lookup old d.names ≡ none → rename old new d ≡ d
unfolding rename
rename-none old new d e = rw (rename, e)

rename-some :
    (old new : Bytes) (n : ℕ) (d : Disk)
    → lookup old d.names ≡ some n
    → rename old new d ≡ record d { names = insert new n (erase old d.names) }
unfolding rename
rename-some old new n d e = rw (rename, e)

moved-IsSound :
    (old new : Bytes) (n : ℕ) (d : Disk)
    → lookup old d.names ≡ some n
    → IsSound d
    → IsSound (record d { names = insert new n (erase old d.names) })
moved-IsSound old new n d o h = record {
  bounded = λ k m e. ground (
    arith,
    lookup-insert new k n (erase old d.names),
    lookup-erase old k d.names,
    h.bounded k m,
    h.bounded old n o,
  );
  distinct = λ j k m e f. ground (
    arith,
    lookup-insert new k n (erase old d.names),
    lookup-erase old k d.names,
    lookup-insert new j n (erase old d.names),
    lookup-erase old j d.names,
    h.distinct j k m,
    h.distinct old k n o,
    h.distinct old j n o,
    eqb_iff old j,
    eqb_iff old k,
    eqb_iff new j,
    eqb_iff new k,
  );
}

rename-IsSound : (old new : Bytes) (d : Disk) → IsSound d → IsSound (rename old new d)
rename-IsSound old new d h = elim (Option-cases (lookup old d.names)) [
  | inl e ↦ subst⁻¹ IsSound (rename-none old new d e) h
  | inr (n, e) ↦ subst⁻¹ IsSound (rename-some old new n d e) (moved-IsSound old new n d e h)
]

if-IsSound : (b : Bool) (d e : Disk) → IsSound d → IsSound e → IsSound (if b then d else e)
if-IsSound true d e h k = h
if-IsSound false d e h k = k

rotate_one-IsSound : (path : Bytes) (i : ℕ) (d : Disk) → IsSound d → IsSound (rotate_one path i d)
unfolding rotate_one
rotate_one-IsSound path i d h =
    if-IsSound (exists (log_name path i) d) _ d
      (if-IsSound (i == 99) _ _ (remove-IsSound (log_name path i) d h)
        (rename-IsSound (log_name path i) (log_name path (suc i)) d h))
      h

pub rotate_loop-IsSound :
    (path : Bytes) (i : ℕ) (d : Disk) → IsSound d → IsSound (rotate_loop path i d)
unfolding rotate_loop
rotate_loop-IsSound path zero d h = h
rotate_loop-IsSound path (suc i) d h =
    rotate_loop-IsSound path i (rotate_one path i d) (rotate_one-IsSound path i d h)

-- The rotation touches no inode.
inodes-rename : (old new : Bytes) (d : Disk) → (rename old new d).inodes ≡ d.inodes
unfolding rename
inodes-rename old new d = ground arith

inodes-rotate_one : (path : Bytes) (i : ℕ) (d : Disk) → (rotate_one path i d).inodes ≡ d.inodes
unfolding rotate_one remove
inodes-rotate_one path i d =
    ground (arith, inodes-rename (log_name path i) (log_name path (suc i)) d)

pub inodes-rotate_loop :
    (path : Bytes) (i : ℕ) (d : Disk) → (rotate_loop path i d).inodes ≡ d.inodes
unfolding rotate_loop
inodes-rotate_loop path zero d = refl
inodes-rotate_loop path (suc i) d =
    inodes-rotate_loop path i (rotate_one path i d) ∙ inodes-rotate_one path i d

-- Opening a file that is not there makes an empty one.
pub open_append_new :
    (name : Bytes) (d : Disk)
    → lookup name d.names ≡ none
    → open_append name d ≡ (
      length d.inodes,
      record { names = insert name (length d.inodes) d.names; inodes = d.inodes ++ [] ∷ [] },
    )
unfolding open_append
open_append_new name d e = rw (open_append, e)

pub opened-IsSound :
    (name : Bytes) (d : Disk)
    → IsSound d
    → lookup name d.names ≡ none
    → IsSound
        (record { names = insert name (length d.inodes) d.names; inodes = d.inodes ++ [] ∷ [] })
opened-IsSound name d h e = record {
  bounded = λ k m f. ground (
    arith,
    lookup-insert name k (length d.inodes) d.names,
    h.bounded k m,
    length-append d.inodes ([] ∷ []),
  );
  distinct = λ j k m f g. ground (
    arith,
    lookup-insert name k (length d.inodes) d.names,
    lookup-insert name j (length d.inodes) d.names,
    h.distinct j k m,
    h.bounded j m,
    h.bounded k m,
    eqb_iff name j,
    eqb_iff name k,
  );
}
