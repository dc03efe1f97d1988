-- ===== src/Runs/Flights.antt =====
-- The set of the tasks in flight under the changes that a run makes, and what a launch asks for.
use specifyr.Prelude.{
  ℕ, ◌≤◌, ◌≡◌, refl, Bool, true, false, not, ◌&&◌, ◌||◌, none, some, List, [], ◌∷◌, ◌++◌, any, all,
  length, length-append, leb, ◌==◌, arith, Bool-cases, Option-cases, inl, inr,
}
use specifyr.Database.{select_one, delete}
use specifyr.Runs.Rows.{Task, TaskStatus, TaskState, status_of, patch_task, is_waiting}
use specifyr.Runs.Tables.{status_of-patch_task, status_of-patch_task_other}
use specifyr.Runs.Scheduler.{
  Stage, Flight, Run, by_id, is_solo, is_done, is_launchable, mark_running, set_stage,
}

abbrev pub HasUniqueIds : List Task → Type 0
HasUniqueIds [] = Unit
HasUniqueIds (t ∷ ts) = (by_id ts t.id ≡ none) × HasUniqueIds ts

-- The tasks that the flight waits for are completed in the table.
abbrev pub is_ready : List Task → List TaskState → Flight → Bool
is_ready graph tasks f = elim (by_id graph f.id) [
  | none ↦ false
  | some t ↦ all (is_done tasks) t.depends_on
]

abbrev pub IsSound : List Task → ℕ → Run → Type 0
IsSound graph max_parallel run =
    (length run.in_flight ≤ max_parallel)
    × ((not (any (is_solo graph) run.in_flight) || leb (length run.in_flight) 1) ≡ true)
    × (all (is_ready graph run.memory.tasks) run.in_flight ≡ true)

pub select_one-holds :
    (p : Task → Bool) (ts : List Task) (t : Task) → select_one p ts ≡ some t → p t ≡ true
select_one-holds p [] t e = ground arith
select_one-holds p (u ∷ us) t e = ground (arith, select_one-holds p us t)

by_id-id : (ts : List Task) (id : ℕ) (t : Task) → by_id ts id ≡ some t → t.id ≡ id
unfolding by_id
by_id-id [] id t e = ground arith
by_id-id (u ∷ us) id t e = ground (arith, by_id-id us id t)

pub by_id-select_one :
    (p : Task → Bool) (ts : List Task) (t : Task)
    → HasUniqueIds ts
    → select_one p ts ≡ some t
    → by_id ts t.id ≡ some t
unfolding by_id
by_id-select_one p [] t u e = ground arith
by_id-select_one p (v ∷ vs) t u e = elim (Bool-cases (p v)) [
  | inl here ↦ ground arith
  | inr there ↦ ground (arith, by_id-select_one p vs t u.1)
]

-- Changes of the set of those in flight that keep the ids.
module _ (id : ℕ) (s : Stage) where
  pub length-set_stage : (fs : List Flight) → length (set_stage id s fs) ≡ length fs
  length-set_stage [] = refl
  length-set_stage (f ∷ fs) = ground (arith, length-set_stage fs)

  pub solo-set_stage :
      (graph : List Task) (fs : List Flight)
      → any (is_solo graph) (set_stage id s fs) ≡ any (is_solo graph) fs
  solo-set_stage graph [] = refl
  solo-set_stage graph (f ∷ fs) = ground (arith, solo-set_stage graph fs)

  pub ready-set_stage :
      (graph : List Task) (tasks : List TaskState) (fs : List Flight)
      → all (is_ready graph tasks) (set_stage id s fs) ≡ all (is_ready graph tasks) fs
  ready-set_stage graph tasks [] = refl
  ready-set_stage graph tasks (f ∷ fs) = ground (arith, ready-set_stage graph tasks fs)

pub length-delete : (p : Flight → Bool) (fs : List Flight) → length (delete p fs) ≤ length fs
length-delete p [] = omega arith
length-delete p (f ∷ fs) = ground (arith, length-delete p fs)

pub solo-delete :
    (graph : List Task) (p : Flight → Bool) (fs : List Flight)
    → any (is_solo graph) fs ≡ false
    → any (is_solo graph) (delete p fs) ≡ false
solo-delete graph p [] e = refl
solo-delete graph p (f ∷ fs) e = ground (arith, solo-delete graph p fs)

pub ready-delete :
    (graph : List Task) (tasks : List TaskState) (p : Flight → Bool) (fs : List Flight)
    → all (is_ready graph tasks) fs ≡ true
    → all (is_ready graph tasks) (delete p fs) ≡ true
ready-delete graph tasks p [] e = refl
ready-delete graph tasks p (f ∷ fs) e = ground (arith, ready-delete graph tasks p fs)

-- Marking a task that was waiting as running changes nothing about which tasks are completed.
module _ (now i : ℕ) (tasks : List TaskState) (waits : is_waiting (status_of i tasks) ≡ true) where
  pub is_done-running :
      (d : ℕ) → is_done (patch_task i (mark_running now) tasks) d ≡ is_done tasks d
  is_done-running d = elim (Bool-cases (i == d)) [
    | inl same ↦ ground (
      arith,
      status_of-patch_task (mark_running now) (λ t. refl) TaskStatus.running (λ t. refl) i tasks,
    )
    | inr other ↦
        ground (arith, status_of-patch_task_other (mark_running now) (λ t. refl) i d tasks other)
  ]

  pub all_done-running :
      (ds : List ℕ)
      → all (is_done (patch_task i (mark_running now) tasks)) ds ≡ all (is_done tasks) ds
  all_done-running [] = refl
  all_done-running (d ∷ ds) = ground (arith, is_done-running d, all_done-running ds)

  pub ready-running :
      (graph : List Task) (fs : List Flight)
      → all (is_ready graph (patch_task i (mark_running now) tasks)) fs
        ≡ all (is_ready graph tasks) fs
  ready-running graph [] = refl
  ready-running graph (f ∷ fs) = elim (Option-cases (by_id graph f.id)) [
    | inl none_there ↦ ground (arith, ready-running graph fs)
    | inr (t, at) ↦ ground (arith, all_done-running t.depends_on, ready-running graph fs)
  ]

all-append : (p : Flight → Bool) (fs gs : List Flight) → all p (fs ++ gs) ≡ (all p fs && all p gs)
all-append p [] gs = refl
all-append p (f ∷ fs) gs = ground (arith, all-append p fs gs)

any-append : (p : Flight → Bool) (fs gs : List Flight) → any p (fs ++ gs) ≡ (any p fs || any p gs)
any-append p [] gs = refl
any-append p (f ∷ fs) gs = ground (arith, any-append p fs gs)

pub solo_new :
    (p : Flight → Bool) (fs : List Flight) (new : Flight)
    → any p fs ≡ false
    → (not (p new) || leb (length fs) 0) ≡ true
    → (not (any p (fs ++ new ∷ [])) || leb (length (fs ++ new ∷ [])) 1) ≡ true
solo_new p fs new none_before safe =
    ground (arith, any-append p fs (new ∷ []), length-append fs (new ∷ []))

pub ready_new :
    (p : Flight → Bool) (fs : List Flight) (new : Flight)
    → all p fs ≡ true
    → p new ≡ true
    → all p (fs ++ new ∷ []) ≡ true
ready_new p fs new before now = ground (arith, all-append p fs (new ∷ []))

pub is_launchable-parts :
    (run : Run) (t : Task)
    → is_launchable run t ≡ true
    → (is_waiting (status_of t.id run.memory.tasks) ≡ true)
      × (all (is_done run.memory.tasks) t.depends_on ≡ true)
      × ((not (not t.parallel_safe) || leb (length run.in_flight) 0) ≡ true)
is_launchable-parts run t e = ground arith
