-- ===== src/Runs/Scheduler.antt =====
-- `RunScheduler` of src/core/run-scheduler.js as a machine of interleaved events. Each `await` of
-- `execute` and of the function that `launchTask` starts ends an event, but for the last ones of `execute`: the read of current.json,
-- the status that follows from it and its save are the one event `finish`, so that no save of a
-- launch that is still due lands between them. The runner, the logs and the emitted events are left
-- out; reads and writes of current.json succeed.
use specifyr.Prelude.{
  ℕ, zero, suc, Bool, true, false, not, ◌&&◌, Option, none, some, List, [], ◌∷◌, ◌++◌, Text, any,
  all, length, leb, ◌==◌, if◌then◌else◌,
}
use specifyr.Database.{select_one, delete}
use specifyr.Runs.Rows.{
  Task, TaskStatus, running, completed, failed, blocked_by_upstream, skipped, RunStatus, message,
  TaskState, RunState, status_of, patch_task, is_waiting, is_completed,
}
use specifyr.Runs.Store.{save_current}
use specifyr.Runs.Blocking.{propagate_block}

-- How far the function of a launched task is: its runner works, it has put together what it is about
-- to save, or it has saved.
pub data Stage : Type 0 where
  working saved : Stage
  saving : RunState → Stage

-- An entry of `inFlight`.
pub record Flight : Type 0 where
  pub id : ℕ
  pub stage : Stage

-- Where `execute` is: at the race, behind the loop, or over.
pub data Place : Type 0 where
  racing draining over : Place

-- `memory` is the `state` that `execute` reads once, and `disk` is current.json. A launch starts a
-- save of `memory` without waiting for it: `saves_due` of them have not read it yet, and those in
-- `saves_ready` have.
pub record Run : Type 0 where
  pub memory : RunState
  pub disk : RunState
  pub in_flight : List Flight
  pub abort : Bool
  pub place : Place
  pub woken : Bool
  pub saves_due : ℕ
  pub saves_ready : List RunState

-- `byId.get(id)`: of two tasks with one id the later.
unfoldable pub by_id : List Task → ℕ → Option Task
by_id [] id = none
by_id (t ∷ ts) id =
    let rest = by_id ts id in
    elim rest [ some u ↦ some u | none ↦ if t.id == id then some t else none ]

abbrev pub is_solo : List Task → Flight → Bool
is_solo graph f = elim (by_id graph f.id) [ none ↦ true | some t ↦ not t.parallel_safe ]

abbrev pub is_flight : ℕ → Flight → Bool
is_flight id f = f.id == id

abbrev pub is_done : List TaskState → ℕ → Bool
is_done tasks id = is_completed (status_of id tasks)

-- The tests of the `for` of `pickLaunchable`.
abbrev pub is_launchable : Run → Task → Bool
is_launchable run t =
    not (any (is_flight t.id) run.in_flight)
    && is_waiting (status_of t.id run.memory.tasks)
    && all (is_done run.memory.tasks) t.depends_on
    && not (not t.parallel_safe && leb 1 (length run.in_flight))

unfoldable pub pick_launchable : List Task → ℕ → Run → Option Task
unfolding by_id
pick_launchable graph max_parallel run =
    if leb max_parallel (length run.in_flight)
    then none
    else if any (is_solo graph) run.in_flight
    then none
    else select_one (is_launchable run) graph

abbrev pub mark_running : ℕ → TaskState → TaskState
mark_running now t = record t { status = running; started_at = some now }

-- `launchTask` up to its first `await`; the save that it starts is due.
unfoldable pub launch_task : ℕ → Task → Run → Run
unfolding patch_task
launch_task now task run = record run {
  memory = record run.memory {
    tasks = patch_task task.id (mark_running now) run.memory.tasks;
    current_task_id = elim run.memory.current_task_id [ none ↦ some task.id | some id ↦ some id ];
  };
  in_flight = run.in_flight ++ record { id = task.id; stage = working } ∷ [];
  saves_due = suc run.saves_due;
}

-- The inner `while`, with a bound on the launches.
unfoldable pub launch_all : ℕ → ℕ → List Task → ℕ → Run → Run
unfolding pick_launchable launch_task
launch_all zero now graph max_parallel run = run
launch_all (suc n) now graph max_parallel run = elim (pick_launchable graph max_parallel run) [
  | none ↦ run
  | some task ↦ launch_all n now graph max_parallel (launch_task now task run)
]

-- One turn of the outer `while`. Each launch takes a slot, so `max_parallel` launches are enough.
-- A launch leaves the set of those in flight with an entry, which is then raced for.
unfoldable pub turn : ℕ → List Task → ℕ → Run → Run
unfolding launch_all
turn now graph max_parallel run =
    if run.abort
    then record run { place = draining; woken = false }
    else let next = launch_all max_parallel now graph max_parallel run in
      record next {
        place = if leb (length next.in_flight) 0 then draining else racing;
        woken = false;
      }

abbrev pub started : ℕ → RunState → RunState
started now s = record s {
  status = RunStatus.running;
  started_at = some now;
  completed_at = none;
  updated_at = now;
}

-- `execute` up to its first race, on the state that current.json has.
unfoldable pub start : ℕ → List Task → ℕ → RunState → Run
unfolding turn
start now graph max_parallel state = turn now graph max_parallel (record {
  memory = started now state;
  disk = started now state;
  in_flight = [];
  abort = false;
  place = racing;
  woken = false;
  saves_due = 0;
  saves_ready = [];
})

pub data Outcome : Type 0 where
  done failure : Text → Outcome

abbrev pub mark_completed : ℕ → Text → TaskState → TaskState
mark_completed now summary t = record t {
  status = completed;
  completed_at = some now;
  summary = some summary;
}

abbrev pub mark_failed : ℕ → Text → TaskState → TaskState
mark_failed now text t = record t {
  status = failed;
  completed_at = some now;
  last_error = some (message text);
}

-- What the function of a task saves once its runner is done, from a fresh read of current.json.
unfoldable pub settled : ℕ → List Task → ℕ → Outcome → RunState → RunState
unfolding patch_task propagate_block
settled now graph id (done summary) fresh =
    save_current now
      (record fresh { tasks = patch_task id (mark_completed now summary) fresh.tasks })
settled now graph id (failure text) fresh = save_current now (record fresh {
  tasks = propagate_block graph id (patch_task id (mark_failed now text) fresh.tasks);
})

abbrev pub is_settled : Option TaskStatus → Bool
is_settled (some completed) = true
is_settled (some failed) = true
is_settled (some blocked_by_upstream) = true
is_settled (some skipped) = true
is_settled _ = false

abbrev pub is_failure : Option TaskStatus → Bool
is_failure (some failed) = true
is_failure (some blocked_by_upstream) = true
is_failure _ = false

unfoldable pub final_status : Bool → List Task → List TaskState → RunStatus
final_status abort graph tasks =
    if not abort && all (λ t. is_settled (status_of t.id tasks)) graph
    then (if any (λ t. is_failure (status_of t.id tasks)) graph
        then RunStatus.failed
        else RunStatus.completed)
    else RunStatus.paused

pub data Event : Type 0 where
  -- the runner of a task is done, and `fresh` is read
  settle : ℕ → Outcome → Event
  -- the `await saveCurrent` of a task is over
  store : ℕ → Event
  -- the `finally` of a task
  leave : ℕ → Event
  -- a save that a launch has started serialises `state`, or replaces the file
  serialise : Event
  replace : ℕ → Event
  -- `execute` goes on behind the race, or ends
  wake finish : Event
  cancel : Event

abbrev pub set_stage : ℕ → Stage → List Flight → List Flight
set_stage id s [] = []
set_stage id s (f ∷ fs) =
    let rest = set_stage id s fs in if f.id == id then record f { stage = s } ∷ rest else f ∷ rest

unfoldable pub take_at {ℓ} : {A : Type ℓ} → ℕ → List A → Option (A × List A)
take_at n [] = none
take_at zero (a ∷ l) = some (a, l)
take_at (suc n) (a ∷ l) =
    let rest = take_at n l in elim rest [ none ↦ none | some (b, bs) ↦ some (b, a ∷ bs) ]

abbrev pub stage_of : ℕ → List Flight → Option Stage
stage_of id fs = elim (select_one (is_flight id) fs) [ none ↦ none | some f ↦ some f.stage ]

-- What an event does; one that cannot happen now does nothing.
unfoldable pub step : ℕ → List Task → ℕ → Event → Run → Run
unfolding turn settled final_status take_at
step now graph max_parallel (settle id outcome) run = elim (stage_of id run.in_flight) [
  | some working ↦ record run {
    in_flight = set_stage id (saving (settled now graph id outcome run.disk)) run.in_flight;
  }
  | _ ↦ run
]
step now graph max_parallel (store id) run = elim (stage_of id run.in_flight) [
  | some (saving s) ↦ record run { disk = s; in_flight = set_stage id saved run.in_flight }
  | _ ↦ run
]
step now graph max_parallel (leave id) run = elim (stage_of id run.in_flight) [
  | some saved ↦ record run { in_flight = delete (is_flight id) run.in_flight; woken = true }
  | _ ↦ run
]
step now graph max_parallel serialise run = elim run.saves_due [
  | zero ↦ run
  | suc n ↦ record run {
    saves_due = n;
    saves_ready = run.saves_ready ++ save_current now run.memory ∷ [];
  }
]
step now graph max_parallel (replace n) run = elim (take_at n run.saves_ready) [
  | none ↦ run
  | some (s, rest) ↦ record run { disk = s; saves_ready = rest }
]
step now graph max_parallel wake run = elim run.place [
  | racing ↦ if run.woken then turn now graph max_parallel run else run
  | _ ↦ run
]
step now graph max_parallel finish run = elim run.place [
  | draining ↦
      if leb (length run.in_flight) 0
      then record run {
        place = over;
        disk = record run.disk {
          status = final_status run.abort graph run.disk.tasks;
          completed_at = some now;
          current_task_id = none;
          updated_at = now;
        };
      }
      else run
  | _ ↦ run
]
step now graph max_parallel cancel run = record run { abort = true }

-- Events in their order, each with its time.
unfoldable pub steps : List Task → ℕ → List (ℕ × Event) → Run → Run
unfolding step
steps graph max_parallel [] run = run
steps graph max_parallel ((now, e) ∷ es) run =
    steps graph max_parallel es (step now graph max_parallel e run)
