-- ===== src/Runs/Tests.antt =====
-- Runs of small graphs: tests, and the theorems applied.
use mathlib.Core.List.{Memᴰ}
use mathlib.Core.List.Memᴰ
use mathlib.Core.Path.{subst}
use specifyr.Prelude.{
  ℕ, ◌≤◌, ◌≡◌, ◌≢◌, ◌↔◌, refl, sym, Bool, true, false, inl, inr, none, some, List, [], ◌∷◌, any,
  all, length, codes, arith,
}
use specifyr.Runs.Rows.{
  Task, running, blocked_by_upstream, TaskState, RunStatus, RunState, status_of, is_waiting,
}
use specifyr.Runs.Store.{init_from_graph}
use specifyr.Runs.Blocking.{propagate_block}
use specifyr.Runs.Scheduler.{
  by_id, Event, settle, store, leave, serialise, replace, wake, finish, done, is_flight, start,
  steps, turn, pick_launchable, racing,
}
use specifyr.Runs.Flights.{IsSound}
use specifyr.Runs.Slots.{run-IsSound, turn-pick_launchable}
use specifyr.Runs.Stalled.{dependent_stalls}
use specifyr.Runs.Visits.{Downstream, origin, behind}
use specifyr.Runs.Fallout.{propagate_block_iff}

abbrev task : ℕ → List ℕ → Bool → Task
task id deps safe = record {
  id = id;
  title = codes "t";
  description = codes "";
  depends_on = deps;
  parallel_safe = safe;
}

-- Two parallel tasks, one that depends on the first, and one behind that.
abbrev plan : List Task
plan = task 1 [] true ∷ task 2 [] true ∷ task 3 (1 ∷ []) true ∷ task 4 (3 ∷ []) false ∷ []

abbrev fresh : RunState
fresh = init_from_graph 0 0 plan

-- Both first tasks run and are completed; then the loop ends, with the third one still pending.
abbrev history : List (ℕ × Event)
history =
    (2, settle 1 (done (codes "ok")))
    ∷ (2, store 1)
    ∷ (2, leave 1)
    ∷ (3, settle 2 (done (codes "ok")))
    ∷ (3, store 2)
    ∷ (3, leave 2)
    ∷ (4, wake)
    ∷ (5, finish)
    ∷ []

ends_paused : (steps plan 3 history (start 1 plan 3 fresh)).disk.status ≡ RunStatus.paused
unfolding steps start init_from_graph
ends_paused = refl

starts_two : length (start 1 plan 3 fresh).in_flight ≡ 2
unfolding start init_from_graph
starts_two = refl

stale_save_overwrites :
    status_of 1
      (steps plan 3
        ((2, settle 1 (done (codes "ok"))) ∷ (2, store 1) ∷ (3, serialise) ∷ (3, replace 0) ∷ [])
        (start 1 plan 3 fresh)).disk.tasks
    ≡ some running
unfolding steps start init_from_graph
stale_save_overwrites = refl

run-IsSound_example : IsSound plan 2 (steps plan 2 history (start 1 plan 2 fresh))
unfolding by_id
run-IsSound_example = run-IsSound plan 2 (refl, (refl, (refl, (refl, tt)))) 1 fresh history

turn-pick_launchable_example :
    let after = turn 6 plan 2 (steps plan 2 history (start 1 plan 2 fresh)) in
    (pick_launchable plan 2 after ≡ none) × ((after.place ≡ racing) ↔ (1 ≤ length after.in_flight))
unfolding steps start init_from_graph
turn-pick_launchable_example =
    turn-pick_launchable 6 plan 2 (steps plan 2 history (start 1 plan 2 fresh)) refl

dependent_stalls_example :
    let run = steps plan 3 history (start 1 plan 3 fresh) in
    (any (is_flight 3) run.in_flight ≡ false) × (run.disk.status ≢ RunStatus.completed)
unfolding init_from_graph
dependent_stalls_example = dependent_stalls plan 3 3 1 refl refl 1 fresh history refl refl

all_at : (p : Task → Bool) (t : Task) (ts : List Task) → all p ts ≡ true → Memᴰ t ts → p t ≡ true
all_at p t [] h m = absurd (Memᴰ.not-nil m)
all_at p t (u ∷ us) h m = elim (Memᴰ.cases_cons m) [
  | inl e ↦ subst (λ v. p v ≡ true) (sym e) (ground arith)
  | inr later ↦ all_at p t us (ground arith) later
]

all_behind_wait :
    (graph : List Task) (tasks : List TaskState) (failed_id : ℕ)
    → all (λ t. is_waiting (status_of t.id tasks)) graph ≡ true
    → (id : ℕ) → Downstream graph failed_id id
    → id ≢ failed_id
    → is_waiting (status_of id tasks) ≡ true
all_behind_wait graph tasks failed_id h id origin other = absurd (other refl)
all_behind_wait graph tasks failed_id h id (behind t d m in_deps below) other =
    all_at (λ t. is_waiting (status_of t.id tasks)) t graph h m

propagate_block_iff_example :
    (status_of 4 (propagate_block plan 1 fresh.tasks) ≡ some blocked_by_upstream)
    ↔ Downstream plan 1 4
unfolding init_from_graph
propagate_block_iff_example =
    propagate_block_iff plan 1 fresh.tasks (all_behind_wait plan fresh.tasks 1 refl) 4
      (λ e. ground (arith, e)) refl
