-- ===== src/Runs/Tables.antt =====
-- What a patch of one entry does to the statuses in a table.
use specifyr.Prelude.{ℕ, ◌≡◌, false, some, List, [], ◌∷◌, ◌==◌, arith}
use specifyr.Database.{upsert}
use specifyr.Runs.Rows.{TaskStatus, TaskState, is_task, status_of, new_entry, patch_task}

module _ (f : TaskState → TaskState) (keeps_id : (t : TaskState) → (f t).id ≡ t.id) where
  status_of-upsert_other :
      (i j : ℕ) (row : TaskState) (ts : List TaskState)
      → row.id ≡ i
      → (i == j) ≡ false
      → status_of j (upsert (is_task i) f row ts) ≡ status_of j ts
  status_of-upsert_other i j row [] at n = ground arith
  status_of-upsert_other i j row (t ∷ ts) at n =
      ground (arith, status_of-upsert_other i j row ts at n, keeps_id t)

  pub status_of-patch_task_other :
      (i j : ℕ) (ts : List TaskState)
      → (i == j) ≡ false
      → status_of j (patch_task i f ts) ≡ status_of j ts
  unfolding patch_task
  status_of-patch_task_other i j ts n =
      status_of-upsert_other i j (f (new_entry i)) ts (keeps_id (new_entry i)) n

  module _ (s : TaskStatus) (sets : (t : TaskState) → (f t).status ≡ s) where
    status_of-upsert_same :
        (i : ℕ) (row : TaskState) (ts : List TaskState)
        → row.id ≡ i
        → row.status ≡ s
        → status_of i (upsert (is_task i) f row ts) ≡ some s
    status_of-upsert_same i row [] at e = ground arith
    status_of-upsert_same i row (t ∷ ts) at e =
        ground (arith, status_of-upsert_same i row ts at e, keeps_id t, sets t)

    pub status_of-patch_task :
        (i : ℕ) (ts : List TaskState) → status_of i (patch_task i f ts) ≡ some s
    unfolding patch_task
    status_of-patch_task i ts =
        status_of-upsert_same i (f (new_entry i)) ts (keeps_id (new_entry i)) (sets (new_entry i))
