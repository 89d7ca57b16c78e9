-- ===== src/Logs/Writer/Moves.antt =====
-- The files after the renames and removals of a rotation.
use agent_procs.Prelude.{
  ℕ, zero, suc, ◌+◌, ◌-◌, ◌≤◌, ◌≡◌, refl, ap, ◌∙◌, false, List, Option, none, some, Text, text_eq,
  arith,
}
use agent_procs.Prelude.Maps.{lookup, remove, lookup-remove}
use agent_procs.Logs.Files.{idx_path_for, rotated_path}
use agent_procs.Logs.Writer.{Disk, moved, rename, rename_both, remove_file, shift, rotate_log_files}
use agent_procs.Logs.Writer.Coherent.{
  lookup-insert_same, lookup-insert_other, index_other, log_other,
}
use agent_procs.Logs.Writer.Paths.{
  Apart, rotated_path-log, rotated_path-index, rotated_path-first, rotated_path-first_index,
  index-first,
}

module _ (j : Text) where
  moved-other :
      (from to : Text) (o : Option (List ℕ)) (d : Disk)
      → text_eq from j ≡ false
      → text_eq to j ≡ false
      → lookup j (moved from to o d).files ≡ lookup j d.files
  moved-other from to none d f t = refl
  moved-other from to (some c) d f t =
      lookup-insert_other to j c (remove from d.files) t ∙ lookup-remove from j d.files f

  rename-other :
      (from to : Text) (d : Disk)
      → text_eq from j ≡ false
      → text_eq to j ≡ false
      → lookup j (rename from to d).files ≡ lookup j d.files
  unfolding rename
  rename-other from to d f t = moved-other from to (lookup from d.files) d f t

  rename_both-other :
      (from to : Text) (d : Disk)
      → Apart from j
      → Apart to j
      → lookup j (rename_both from to d).files ≡ lookup j d.files
  rename_both-other from to d f t =
      rename-other (idx_path_for from) (idx_path_for to) (rename from to d) f.1 t.1
      ∙ rename-other from to d f.0 t.0

  shift-other :
      (log_path : Text) (n : ℕ) (d : Disk)
      → ((i : ℕ) → Apart (rotated_path log_path i) j)
      → lookup j (shift log_path n d).files ≡ lookup j d.files
  unfolding shift
  shift-other log_path zero d h = refl
  shift-other log_path (suc n) d h =
      shift-other log_path n _ h
      ∙ rename_both-other (rotated_path log_path (suc n)) (rotated_path log_path (suc n + 1)) d
          (h (suc n)) (h (suc n + 1))

  remove_file-other :
      (path : Text) (d : Disk)
      → text_eq path j ≡ false
      → lookup j (remove_file path d).files ≡ lookup j d.files
  unfolding remove_file
  remove_file-other path d h = lookup-remove path j d.files h

-- A file that is renamed is found at its new path.
rename-to :
    (from to : Text) (c : List ℕ) (d : Disk)
    → lookup from d.files ≡ some c
    → lookup to (rename from to d).files ≡ some c
unfolding rename
rename-to from to c d e =
    ap (λ o. lookup to (moved from to o d).files) e ∙ lookup-insert_same to c (remove from d.files)

-- After a rotation that keeps at least one rotated file, the first of them is the old log, and it
-- stands beside its index.
pub rotate_log_files-first :
    (p : Text) (max : ℕ) (d : Disk) (c ix : List ℕ)
    → 1 ≤ max
    → lookup p d.files ≡ some c
    → lookup (idx_path_for p) d.files ≡ some ix
    → (lookup (rotated_path p 1) (rotate_log_files p max d).files ≡ some c)
      × (lookup (idx_path_for (rotated_path p 1)) (rotate_log_files p max d).files ≡ some ix)
unfolding rotate_log_files
rotate_log_files-first p max d c ix h e ei =
    let r = rotated_path p 1 in
    let s = shift p (max - 1) d in
    let a = rename p r s in
    let b = rename (idx_path_for p) (idx_path_for r) a in
    let excess = rotated_path p (max + 1) in
    let two : 2 ≤ max + 1 = omega (arith, h) in
    let first = rotated_path-first p (max + 1) two in
    let first_index = rotated_path-first_index p (max + 1) two in
    let log_shifted : lookup p s.files ≡ some c =
      shift-other p p (max - 1) d (rotated_path-log p) ∙ e in
    let index_shifted : lookup (idx_path_for p) s.files ≡ some ix =
      shift-other (idx_path_for p) p (max - 1) d (rotated_path-index p) ∙ ei in
    let index_there : lookup (idx_path_for p) a.files ≡ some ix =
      rename-other (idx_path_for p) p r s (log_other p) (rotated_path-index p 1).0
      ∙ index_shifted in
    (
      remove_file-other r (idx_path_for excess) (remove_file excess b) first.1
          ∙ remove_file-other r excess b first.0
          ∙ rename-other r (idx_path_for p) (idx_path_for r) a (index-first p) (index_other r)
          ∙ rename-to p r c s log_shifted,
      remove_file-other (idx_path_for r) (idx_path_for excess) (remove_file excess b) first_index.1
          ∙ remove_file-other (idx_path_for r) excess b first_index.0
          ∙ rename-to (idx_path_for p) (idx_path_for r) ix a index_there,
    )
