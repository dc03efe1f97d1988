-- ===== src/Steps/Store.antt =====
-- `StepStateStore` of src/core/step-state.js over the files of one project, and `isStepUnlocked` of
-- app/utils/steps.ts. The files are a list with one entry for each step that has one.
use specifyr.Prelude.{
  ℕ, Bool, true, false, Option, none, some, List, [], ◌∷◌, Text, ◌==◌, if◌then◌else◌,
}
use specifyr.Database.{select_one, upsert}

-- `STEP_STATUSES`
pub data StepStatus : Type 0 where
  untouched in_progress complete stale : StepStatus

-- `reason ?? …`: the reason that is given, or that a step was updated after completion.
pub data StaleReason : Type 0 where
  given : Text → StaleReason
  updated_step : ℕ → StaleReason

pub record StepState : Type 0 where
  pub id : ℕ
  pub status : StepStatus
  pub last_session_id : Option ℕ
  pub stale_since : Option ℕ
  pub stale_reason : Option StaleReason
  pub updated_at : ℕ

abbrev pub is_step : ℕ → StepState → Bool
is_step id s = s.id == id

abbrev pub default_step_state : ℕ → ℕ → StepState
default_step_state now step_id = record {
  id = step_id;
  status = untouched;
  last_session_id = none;
  stale_since = none;
  stale_reason = none;
  updated_at = now;
}

abbrev pub get_step : ℕ → ℕ → List StepState → StepState
get_step now step_id files = elim (select_one (is_step step_id) files) [
  | some s ↦ s
  | none ↦ default_step_state now step_id
]

-- The file of the step is written, or replaced.
unfoldable pub save_step : ℕ → StepState → List StepState → List StepState
save_step now state files =
    let updated = record state { updated_at = now } in
    upsert (is_step state.id) (λ s. updated) updated files

abbrev pub is_stale : StepStatus → Bool
is_stale stale = true
is_stale _ = false

abbrev pub is_complete : StepStatus → Bool
is_complete complete = true
is_complete _ = false

-- `setStatus` with `extra`, the fields that it sets. An unknown status is not a `StepStatus`.
unfoldable pub set_status :
    ℕ → ℕ → StepStatus → (StepState → StepState) → List StepState → List StepState
unfolding save_step
set_status now step_id status extra files =
    let current = extra (get_step now step_id files) in
    save_step now
      (record current {
        status = status;
        stale_since = if is_stale status then current.stale_since else none;
        stale_reason = if is_stale status then current.stale_reason else none;
      })
      files

abbrev pub with_session : Option ℕ → StepState → StepState
with_session session_id s = record s { last_session_id = session_id }

unfoldable pub mark_complete : ℕ → ℕ → Option ℕ → List StepState → List StepState
unfolding set_status
mark_complete now step_id session_id files =
    set_status now step_id complete (with_session session_id) files

unfoldable pub mark_in_progress : ℕ → ℕ → Option ℕ → List StepState → List StepState
unfolding set_status
mark_in_progress now step_id session_id files =
    if is_complete (get_step now step_id files).status
    then files
    else set_status now step_id in_progress (with_session session_id) files

-- The steps behind the first occurrence of one: `stepIds.indexOf(fromStepId)` and the loop's range.
unfoldable pub behind : ℕ → List ℕ → Option (List ℕ)
behind from [] = none
behind from (id ∷ ids) = let rest = behind from ids in if id == from then some ids else rest

-- The loop, with the ids that it affects.
unfoldable pub stale_all : ℕ → StaleReason → List ℕ → List StepState → List ℕ × List StepState
unfolding save_step
stale_all now reason [] files = ([], files)
stale_all now reason (id ∷ ids) files =
    let state = get_step now id files in
    if is_complete state.status
    then (let (affected, after) = stale_all now reason ids (
          save_step now
            (record state { status = stale; stale_since = some now; stale_reason = some reason })
            files) in
        (id ∷ affected, after))
    else stale_all now reason ids files

-- `none` is the return without a list, for a step that is not one of `stepIds`.
unfoldable pub mark_downstream_stale :
    ℕ → ℕ → Option Text → List ℕ → List StepState → Option (List ℕ) × List StepState
unfolding behind stale_all
mark_downstream_stale now from reason step_ids files = elim (behind from step_ids) [
  | none ↦ (none, files)
  | some ids ↦
      let why : StaleReason = elim reason [ some text ↦ given text | none ↦ updated_step from ] in
      let (affected, after) = stale_all now why ids files in (some affected, after)
]

-- The status of a step, by its file.
abbrev pub status_in : ℕ → ℕ → List StepState → StepStatus
status_in now id files = (get_step now id files).status

abbrev pub unlocks : StepStatus → Bool
unlocks complete = true
unlocks stale = true
unlocks _ = false

-- `isStepUnlocked`: the step before the first occurrence decides. `statuses` are those of the files.
unfoldable pub is_step_unlocked_after : ℕ → ℕ → List ℕ → (ℕ → StepStatus) → Bool
is_step_unlocked_after previous step_id [] statuses = true
is_step_unlocked_after previous step_id (id ∷ ids) statuses =
    let rest = is_step_unlocked_after id step_id ids statuses in
    if id == step_id then unlocks (statuses previous) else rest

unfoldable pub is_step_unlocked : ℕ → List ℕ → (ℕ → StepStatus) → Bool
unfolding is_step_unlocked_after
is_step_unlocked step_id [] statuses = true
is_step_unlocked step_id (id ∷ ids) statuses =
    let rest = is_step_unlocked_after id step_id ids statuses in
    if id == step_id then true else rest
