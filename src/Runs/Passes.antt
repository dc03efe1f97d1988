-- ===== src/Runs/Passes.antt =====
-- How many entries still wait behind the visits and passes of `propagateBlock`.
use specifyr.Prelude.{
  ℕ, suc, ◌+◌, ◌≤◌, ◌<◌, ◌≡◌, ◌⊎◌, true, some, List, [], ◌∷◌, length, if◌then◌else◌, arith, inl,
  inr,
}
use specifyr.Database.{upsert}
use specifyr.Runs.Rows.{Task, TaskState, is_task, status_of, new_entry, patch_task, is_waiting}
use specifyr.Runs.Blocking.{Spread, block, visit, pass}

-- The entries that wait.
abbrev pub waiting : List TaskState → ℕ
waiting [] = 0
waiting (t ∷ ts) = (if is_waiting (some t.status) then 1 else 0) + waiting ts

pub waiting-bound : (ts : List TaskState) → waiting ts ≤ length ts
waiting-bound [] = omega arith
waiting-bound (t ∷ ts) = ground (arith, waiting-bound ts)

waiting-upsert :
    (failed_id i : ℕ) (row : TaskState) (ts : List TaskState)
    → is_waiting (status_of i ts) ≡ true
    → suc (waiting (upsert (is_task i) (block failed_id) row ts)) ≡ waiting ts
waiting-upsert failed_id i row [] h = ground arith
waiting-upsert failed_id i row (t ∷ ts) h = ground (arith, waiting-upsert failed_id i row ts)

-- A visit or a pass that changes something leaves less waiting.
waiting-visit :
    (failed_id : ℕ) (t : Task) (s : Spread)
    → (waiting (visit failed_id t s).tasks ≤ waiting s.tasks)
      × (((visit failed_id t s).changed ≡ true)
          → (s.changed ≡ true) ⊎ (waiting (visit failed_id t s).tasks < waiting s.tasks))
unfolding visit patch_task
waiting-visit failed_id t s =
    let less = waiting-upsert failed_id t.id (block failed_id (new_entry t.id)) s.tasks in
    (ground (arith, less), λ c. ground (arith, less))

pub waiting-pass :
    (failed_id : ℕ) (ts : List Task) (s : Spread)
    → (waiting (pass failed_id ts s).tasks ≤ waiting s.tasks)
      × (((pass failed_id ts s).changed ≡ true)
          → (s.changed ≡ true) ⊎ (waiting (pass failed_id ts s).tasks < waiting s.tasks))
unfolding pass
waiting-pass failed_id [] s = (omega arith, λ c. inl c)
waiting-pass failed_id (t ∷ ts) s =
    let (less, strict) = waiting-pass failed_id ts (visit failed_id t s) in
    let (less_one, strict_one) = waiting-visit failed_id t s in
    (
      omega (arith, less, less_one),
      λ c. elim (strict c) [
        | inr below ↦ inr (omega (arith, below, less_one))
        | inl changed ↦ elim (strict_one changed) [
          | inl before ↦ inl before
          | inr below ↦ inr (omega (arith, below, less))
        ]
      ],
    )
