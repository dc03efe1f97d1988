-- ===== src/Steps/Tests.antt =====
-- A workflow of four steps: the theorems applied.
use specifyr.Prelude.{◌≡◌, refl, true, false, ◌&&◌, ℕ, none, some, List, [], ◌∷◌, if◌then◌else◌}
use specifyr.Steps.Store.{
  StepState, mark_complete, mark_in_progress, mark_downstream_stale, status_in, is_complete,
  is_step_unlocked, stale,
}
use specifyr.Steps.Stale.{
  contains, found, status-mark_downstream_stale, mark_downstream_stale_keeps_locks,
  mark_in_progress_locks,
}

abbrev workflow : List ℕ
workflow = 1 ∷ 2 ∷ 3 ∷ 4 ∷ []

-- Three steps are complete, and the first is done again.
abbrev files : List StepState
files = mark_complete 3 3 none (mark_complete 2 2 (some 7) (mark_complete 1 1 none []))

stale_ones : (mark_downstream_stale 5 1 none workflow files).0 ≡ some (2 ∷ 3 ∷ [])
unfolding mark_downstream_stale mark_complete
stale_ones = refl

status-mark_downstream_stale_example :
    let (affected, after) = mark_downstream_stale 5 2 none (1 ∷ 2 ∷ 3 ∷ 4 ∷ []) files in
    let was = status_in 5 3 files in
    let hit = contains (3 ∷ 4 ∷ []) 3 && is_complete was in
    (status_in 5 3 after ≡ (if hit then stale else was))
    × (contains (found affected) 3 ≡ hit)
    × (mark_downstream_stale 5 2 none (1 ∷ []) files ≡ (none, files))
status-mark_downstream_stale_example =
    status-mark_downstream_stale 5 3 2 none (1 ∷ []) (3 ∷ 4 ∷ []) files refl

mark_downstream_stale_keeps_locks_example :
    is_step_unlocked 4 workflow
      (λ id. status_in 5 id (mark_downstream_stale 5 1 none workflow files).1)
    ≡ is_step_unlocked 4 workflow (λ id. status_in 5 id files)
mark_downstream_stale_keeps_locks_example =
    mark_downstream_stale_keeps_locks 5 4 1 none workflow workflow files

abbrev after : List StepState
after = (mark_downstream_stale 5 1 none workflow files).1

mark_in_progress_locks_example :
    (is_step_unlocked 4 (3 ∷ 4 ∷ []) (λ id. status_in 6 id after) ≡ true)
    × (is_step_unlocked 4 (3 ∷ 4 ∷ []) (λ id. status_in 6 id (mark_in_progress 6 3 (some 8) after))
        ≡ false)
unfolding mark_downstream_stale mark_complete
mark_in_progress_locks_example = mark_in_progress_locks 6 3 4 (some 8) [] after refl refl
