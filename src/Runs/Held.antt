-- ===== src/Runs/Held.antt =====
-- Run states in which a task `j` is held back, under the changes that a run makes.
use specifyr.Prelude.{
  ℕ, zero, suc, ◌≡◌, ◌≢◌, refl, Bool, true, false, not, ◌||◌, Option, none, some, List, [], ◌∷◌,
  ◌++◌, any, all, All, length, ◌==◌, ==_iff, arith, Bool-cases, inl, inr,
}
use specifyr.Database.{select_one, delete}
use specifyr.Runs.Rows.{
  Task, TaskStatus, pending, ready, blocked_by_upstream, TaskState, RunStatus, RunState, status_of,
  patch_task, contains, is_waiting,
}
use specifyr.Runs.Tables.{status_of-patch_task, status_of-patch_task_other}
use specifyr.Runs.Blocking.{Spread, block, visit, pass, spread, propagate_block}
use specifyr.Runs.Scheduler.{
  Stage, saving, Flight, Run, is_flight, is_done, is_settled, is_failure, is_launchable,
  pick_launchable, mark_completed, mark_failed, Outcome, done, failure, settled, final_status,
  set_stage, take_at, stage_of,
}
use specifyr.Runs.Flights.{is_launchable-parts, select_one-holds}

abbrev pub is_held : Option TaskStatus → Bool
is_held (some pending) = true
is_held (some ready) = true
is_held (some blocked_by_upstream) = true
is_held _ = false

abbrev is_open : RunStatus → Bool
is_open RunStatus.completed = false
is_open _ = true

held_settles :
    (s : Option TaskStatus) → is_held s ≡ true → (not (is_settled s) || is_failure s) ≡ true
held_settles none h = ground arith
held_settles (some s) h = ground arith

pub open_status : (s : RunStatus) → is_open s ≡ true → s ≢ RunStatus.completed
open_status s h e = ground arith

module _ (j : ℕ) where
  abbrev pub Held : RunState → Type 0
  Held s = (is_held (status_of j s.tasks) ≡ true) × (is_open s.status ≡ true)

  abbrev HeldStage : Stage → Type 0
  HeldStage (saving s) = Held s
  HeldStage _ = Unit

  abbrev pub HeldFlight : Flight → Type 0
  HeldFlight f = ((f.id == j) ≡ false) × HeldStage f.stage

  held-visit :
      (failed_id : ℕ) (t : Task) (s : Spread)
      → is_held (status_of j s.tasks) ≡ true
      → is_held (status_of j (visit failed_id t s).tasks) ≡ true
  unfolding visit
  held-visit failed_id t s h = elim (Bool-cases (t.id == j)) [
    | inl same ↦ ground (
      arith,
      status_of-patch_task (block failed_id) (λ u. refl) blocked_by_upstream (λ u. refl) t.id
          s.tasks,
    )
    | inr other ↦
        ground
          (arith, status_of-patch_task_other (block failed_id) (λ u. refl) t.id j s.tasks other)
  ]

  held-pass :
      (failed_id : ℕ) (ts : List Task) (s : Spread)
      → is_held (status_of j s.tasks) ≡ true
      → is_held (status_of j (pass failed_id ts s).tasks) ≡ true
  unfolding pass
  held-pass failed_id [] s h = h
  held-pass failed_id (t ∷ ts) s h =
      held-pass failed_id ts (visit failed_id t s) (held-visit failed_id t s h)

  held-spread :
      (n failed_id : ℕ) (graph : List Task) (s : Spread)
      → is_held (status_of j s.tasks) ≡ true
      → is_held (status_of j (spread n failed_id graph s).tasks) ≡ true
  unfolding spread
  held-spread zero failed_id graph s h = h
  held-spread (suc n) failed_id graph s h =
      let next = pass failed_id graph (record s { changed = false }) in
      let kept = held-pass failed_id graph (record s { changed = false }) h in
      ground (arith, kept, held-spread n failed_id graph next kept)

  pub settled-Held :
      (now : ℕ) (graph : List Task) (id : ℕ) (outcome : Outcome) (fresh : RunState)
      → (id == j) ≡ false
      → Held fresh
      → Held (settled now graph id outcome fresh)
  unfolding settled propagate_block
  settled-Held now graph id (done summary) fresh other h = ground (
    arith,
    status_of-patch_task_other (mark_completed now summary) (λ t. refl) id j fresh.tasks other,
  )
  settled-Held now graph id (failure text) fresh other h =
      let tasks = patch_task id (mark_failed now text) fresh.tasks in
      let before =
        status_of-patch_task_other (mark_failed now text) (λ t. refl) id j fresh.tasks other in
      (
        held-spread (suc (length tasks)) id graph
            (record { fail = id ∷ []; tasks = tasks; changed = true }) (ground (arith, before)),
        h.1,
      )

  -- The flights under changes of the set.
  pub held-set_stage :
      (id : ℕ) (s : Stage) (fs : List Flight)
      → HeldStage s
      → All HeldFlight fs
      → All HeldFlight (set_stage id s fs)
  held-set_stage id s [] k h = tt
  held-set_stage id s (f ∷ fs) k h = elim (Bool-cases (f.id == id)) [
    | inl same ↦ ground (arith, k, held-set_stage id s fs k h.1)
    | inr other ↦ ground (arith, held-set_stage id s fs k h.1)
  ]

  pub held-delete :
      (p : Flight → Bool) (fs : List Flight) → All HeldFlight fs → All HeldFlight (delete p fs)
  held-delete p [] h = tt
  held-delete p (f ∷ fs) h = ground (arith, held-delete p fs h.1)

  pub held-append :
      (fs : List Flight) (f : Flight)
      → All HeldFlight fs
      → HeldFlight f
      → All HeldFlight (fs ++ f ∷ [])
  held-append [] f h k = (k, tt)
  held-append (g ∷ fs) f h k = (h.0, held-append fs f h.1 k)

  pub Held-append :
      (ss : List RunState) (s : RunState) → All Held ss → Held s → All Held (ss ++ s ∷ [])
  Held-append [] s h k = (k, tt)
  Held-append (r ∷ ss) s h k = (h.0, Held-append ss s h.1 k)

  pub Held-stage_of :
      (id : ℕ) (s : RunState) (fs : List Flight)
      → stage_of id fs ≡ some (saving s)
      → All HeldFlight fs
      → Held s
  Held-stage_of id s [] e h = ground arith
  Held-stage_of id s (f ∷ fs) e h = elim (Bool-cases (f.id == id)) [
    | inl same ↦ ground arith
    | inr other ↦ Held-stage_of id s fs (ground (arith, other)) h.1
  ]

  pub other-stage_of :
      (id : ℕ) (s : Stage) (fs : List Flight)
      → stage_of id fs ≡ some s
      → All HeldFlight fs
      → (id == j) ≡ false
  other-stage_of id s [] e h = ground arith
  other-stage_of id s (f ∷ fs) e h = ground (arith, other-stage_of id s fs)

  -- What is taken out of a list of saves, and what is left of it.
  abbrev HeldTaken : Option (RunState × List RunState) → Type 0
  HeldTaken none = Unit
  HeldTaken (some (s, rest)) = Held s × All Held rest

  pub Held-take_at : (n : ℕ) (ss : List RunState) → All Held ss → HeldTaken (take_at n ss)
  unfolding take_at
  Held-take_at n [] h = tt
  Held-take_at zero (r ∷ ss) h = h
  Held-take_at (suc n) (r ∷ ss) h = ground (arith, Held-take_at n ss h.1)

  pub not_in_flight : (fs : List Flight) → All HeldFlight fs → any (is_flight j) fs ≡ false
  not_in_flight [] h = refl
  not_in_flight (f ∷ fs) h = ground (arith, not_in_flight fs h.1)

  -- The task settles in no other way than by a failure.
  settles_by_failure :
      (graph : List Task) (tasks : List TaskState)
      → any (λ t. t.id == j) graph ≡ true
      → is_held (status_of j tasks) ≡ true
      → (not (all (λ t. is_settled (status_of t.id tasks)) graph)
          || any (λ t. is_failure (status_of t.id tasks)) graph)
        ≡ true
  settles_by_failure [] tasks there h = ground arith
  settles_by_failure (t ∷ graph) tasks there h = elim (Bool-cases (t.id == j)) [
    | inl same ↦ ground (arith, held_settles (status_of t.id tasks) (rw ((==_iff t.id j).0 same) h))
    | inr other ↦ ground (arith, settles_by_failure graph tasks)
  ]

  pub final_status-Held :
      (abort : Bool) (graph : List Task) (tasks : List TaskState)
      → any (λ t. t.id == j) graph ≡ true
      → is_held (status_of j tasks) ≡ true
      → is_open (final_status abort graph tasks) ≡ true
  unfolding final_status
  final_status-Held abort graph tasks there h =
      ground (arith, settles_by_failure graph tasks there h)

pub all-select_one :
    (q p : Task → Bool) (ts : List Task) (t : Task)
    → all q ts ≡ true
    → select_one p ts ≡ some t
    → q t ≡ true
all-select_one q p [] t a e = ground arith
all-select_one q p (u ∷ us) t a e = ground (arith, all-select_one q p us t)

not_all_done :
    (d : ℕ) (tasks : List TaskState) (ds : List ℕ)
    → contains ds d ≡ true
    → is_done tasks d ≡ false
    → all (is_done tasks) ds ≡ false
not_all_done d tasks [] c n = ground arith
not_all_done d tasks (i ∷ ds) c n = elim (Bool-cases (i == d)) [
  | inl same ↦
      let here : is_done tasks i ≡ false = rw ((==_iff i d).0 same) n in ground (arith, here)
  | inr other ↦ ground (arith, not_all_done d tasks ds)
]

pub not_ready :
    (t : Task) (j d : ℕ) (tasks : List TaskState)
    → (not (t.id == j) || contains t.depends_on d) ≡ true
    → is_done tasks d ≡ false
    → all (is_done tasks) t.depends_on ≡ true
    → (t.id == j) ≡ false
not_ready t j d tasks dep n all_done = ground (arith, not_all_done d tasks t.depends_on)

pub picked_waits :
    (graph : List Task) (max_parallel : ℕ) (run : Run) (t : Task)
    → pick_launchable graph max_parallel run ≡ some t
    → is_waiting (status_of t.id run.memory.tasks) ≡ true
unfolding pick_launchable
picked_waits graph max_parallel run t picked =
    (is_launchable-parts run t
      (select_one-holds (is_launchable run) graph t (ground (arith, picked)))).0
