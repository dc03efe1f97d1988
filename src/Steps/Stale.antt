-- ===== src/Steps/Stale.antt =====
-- What the operations do to the status of every step, and to the lock.
use specifyr.Prelude.{
  ℕ, ◌≡◌, ◌∙◌, refl, sym, ap, Bool, true, false, ◌&&◌, Option, none, some, List, [], ◌∷◌, ◌++◌,
  Text, any, ◌==◌, ==_iff, if◌then◌else◌, arith, Bool-cases, Option-cases, inl, inr,
}
use mathlib.Core.Path.{subst}
use specifyr.Database.{upsert}
use specifyr.Steps.Store.{
  StepStatus, in_progress, stale, StaleReason, StepState, is_step, get_step, save_step, set_status,
  is_complete, mark_in_progress, behind, stale_all, mark_downstream_stale, status_in, unlocks,
  is_step_unlocked, is_step_unlocked_after,
}

status-upsert :
    (now id : ℕ) (s : StepState) (files : List StepState)
    → status_in now id (upsert (is_step s.id) (λ r. s) s files)
      ≡ (if s.id == id then s.status else status_in now id files)
status-upsert now id s [] = ground arith
status-upsert now id s (f ∷ files) = ground (arith, status-upsert now id s files)

status-save_step :
    (now id : ℕ) (s : StepState) (files : List StepState)
    → status_in now id (save_step now s files)
      ≡ (if s.id == id then s.status else status_in now id files)
unfolding save_step
status-save_step now id s files = status-upsert now id (record s { updated_at = now }) files

id-get_step : (now id : ℕ) (files : List StepState) → (get_step now id files).id ≡ id
id-get_step now id [] = refl
id-get_step now id (f ∷ files) = ground (arith, id-get_step now id files)

abbrev pub contains : List ℕ → ℕ → Bool
contains ids id = any (λ i. i == id) ids

-- The status of a step behind the loop over `ids`.
abbrev staled : Bool → StepStatus → StepStatus
staled behind status = if behind && is_complete status then stale else status

staled-twice : (b : Bool) (s : StepStatus) → staled b (staled true s) ≡ staled true s
staled-twice b s = ground arith

status-stale_all :
    (now id : ℕ) (reason : StaleReason) (ids : List ℕ) (files : List StepState)
    → (status_in now id (stale_all now reason ids files).1
        ≡ staled (contains ids id) (status_in now id files))
      × (contains (stale_all now reason ids files).0 id
          ≡ (contains ids id && is_complete (status_in now id files)))
unfolding stale_all
status-stale_all now id reason [] files = (refl, refl)
status-stale_all now id reason (i ∷ ids) files =
    let state = get_step now i files in
    let next = record state {
      status = stale;
      stale_since = some now;
      stale_reason = some reason;
    } in
    elim (Bool-cases (is_complete state.status)) [
      | inr other ↦ elim (Bool-cases (i == id)) [
        | inl same ↦
            let here : is_complete (status_in now id files) ≡ false =
              rw (sym ((==_iff i id).0 same)) other in
            ground (arith, other, here, status-stale_all now id reason ids files)
        | inr elsewhere ↦ ground (arith, other, status-stale_all now id reason ids files)
      ]
      | inl done ↦
          let saved = status-save_step now id next files in
          let at = id-get_step now i files in
          elim (Bool-cases (i == id)) [
            | inl same ↦
                let here : is_complete (status_in now id files) ≡ true =
                  rw (sym ((==_iff i id).0 same)) done in
                ground (
                  arith,
                  done,
                  here,
                  saved,
                  at,
                  status-stale_all now id reason ids (save_step now next files),
                )
            | inr elsewhere ↦ ground (
              arith,
              done,
              saved,
              at,
              status-stale_all now id reason ids (save_step now next files),
            )
          ]
    ]

abbrev pub found : Option (List ℕ) → List ℕ
found none = []
found (some ids) = ids

status-behind :
    (now id from : ℕ) (reason : Option Text) (step_ids : List ℕ) (files : List StepState)
    → let (affected, after) = mark_downstream_stale now from reason step_ids files in
      let before = status_in now id files in
      let hit = contains (found (behind from step_ids)) id && is_complete before in
      (status_in now id after ≡ (if hit then stale else before))
      × (contains (found affected) id ≡ hit)
unfolding mark_downstream_stale
status-behind now id from reason step_ids files = elim (Option-cases (behind from step_ids)) [
  | inl absent ↦ ground (arith, absent)
  | inr (ids, at) ↦ elim (Option-cases reason) [
    | inl none_given ↦
        ground
          (arith, at, none_given, status-stale_all now id (StaleReason.updated_step from) ids files)
    | inr (text, told) ↦
        ground (arith, at, told, status-stale_all now id (StaleReason.given text) ids files)
  ]
]

behind-append :
    (from : ℕ) (before later : List ℕ)
    → contains before from ≡ false
    → behind from (before ++ from ∷ later) ≡ some later
unfolding behind
behind-append from [] later h = ground arith
behind-append from (id ∷ before) later h = ground (arith, behind-append from before later)

behind-absent : (from : ℕ) (ids : List ℕ) → contains ids from ≡ false → behind from ids ≡ none
unfolding behind
behind-absent from [] h = refl
behind-absent from (id ∷ ids) h = ground (arith, behind-absent from ids)

-- In a workflow of the steps `before`, then the given step, which is none of them, then the steps
-- `later`: behind `markDownstreamStale` a step is stale if it is one of `later` and was complete,
-- and those are the ids that it returns; every other step has the status it had. In a workflow of
-- the steps `before` alone nothing changes.
pub status-mark_downstream_stale :
    (now id from : ℕ) (reason : Option Text) (before later : List ℕ) (files : List StepState)
    → contains before from ≡ false
    → let (affected, after) =
        mark_downstream_stale now from reason (before ++ from ∷ later) files in
      let was = status_in now id files in
      let hit = contains later id && is_complete was in
      (status_in now id after ≡ (if hit then stale else was))
      × (contains (found affected) id ≡ hit)
      × (mark_downstream_stale now from reason before files ≡ (none, files))
unfolding mark_downstream_stale
status-mark_downstream_stale now id from reason before later files absent =
    let (status, ids) = status-behind now id from reason (before ++ from ∷ later) files in
    let at = behind-append from before later absent in
    (
      subst
          (λ b.
            let hit = contains (found b) id && is_complete (status_in now id files) in
            status_in now id
              (mark_downstream_stale now from reason (before ++ from ∷ later) files).1
            ≡ (if hit then stale else status_in now id files))
          at status,
      subst
          (λ b.
            contains
              (found (mark_downstream_stale now from reason (before ++ from ∷ later) files).0) id
            ≡ (contains (found b) id && is_complete (status_in now id files)))
          at ids,
      ground (arith, behind-absent from before absent),
    )

unlocked_after_same :
    (previous step_id : ℕ) (ids : List ℕ) (f g : ℕ → StepStatus)
    → ((id : ℕ) → unlocks (f id) ≡ unlocks (g id))
    → is_step_unlocked_after previous step_id ids f ≡ is_step_unlocked_after previous step_id ids g
unfolding is_step_unlocked_after
unlocked_after_same previous step_id [] f g same = refl
unlocked_after_same previous step_id (id ∷ ids) f g same =
    ground (arith, same previous, unlocked_after_same id step_id ids f g same)

unlocked_same :
    (step_id : ℕ) (ids : List ℕ) (f g : ℕ → StepStatus)
    → ((id : ℕ) → unlocks (f id) ≡ unlocks (g id))
    → is_step_unlocked step_id ids f ≡ is_step_unlocked step_id ids g
unfolding is_step_unlocked
unlocked_same step_id [] f g same = refl
unlocked_same step_id (id ∷ ids) f g same =
    ground (arith, unlocked_after_same id step_id ids f g same)

unlocks-staled : (b : Bool) (s : StepStatus) → unlocks (staled b s) ≡ unlocks s
unlocks-staled b s = ground arith

-- Marking the steps downstream as stale locks and unlocks no step.
pub mark_downstream_stale_keeps_locks :
    (now step_id from : ℕ) (reason : Option Text) (step_ids workflow : List ℕ)
    (files : List StepState)
    → let after = (mark_downstream_stale now from reason step_ids files).1 in
      is_step_unlocked step_id workflow (λ id. status_in now id after)
      ≡ is_step_unlocked step_id workflow (λ id. status_in now id files)
mark_downstream_stale_keeps_locks now step_id from reason step_ids workflow files =
    let after = (mark_downstream_stale now from reason step_ids files).1 in
    unlocked_same step_id workflow (λ id. status_in now id after) (λ id. status_in now id files)
      (λ id.
        ap unlocks (status-behind now id from reason step_ids files).0
        ∙ unlocks-staled (contains (found (behind from step_ids)) id) (status_in now id files))

-- Work on the first step of a workflow, when that was stale, locks the second step, which the stale
-- one had kept open until then.
pub mark_in_progress_locks :
    (now step_id next : ℕ) (session_id : Option ℕ) (ids : List ℕ) (files : List StepState)
    → status_in now step_id files ≡ stale
    → (step_id == next) ≡ false
    → let workflow = step_id ∷ next ∷ ids in
      (is_step_unlocked next workflow (λ id. status_in now id files) ≡ true)
      × (is_step_unlocked next workflow
            (λ id. status_in now id (mark_in_progress now step_id session_id files))
          ≡ false)
unfolding is_step_unlocked is_step_unlocked_after mark_in_progress set_status
mark_in_progress_locks now step_id next session_id ids files was other =
    let current = get_step now step_id files in
    let working : StepState = record current {
      status = in_progress;
      last_session_id = session_id;
      stale_since = none;
      stale_reason = none;
    } in
    ground (arith, id-get_step now step_id files, status-save_step now step_id working files)
