-- ===== src/Runs/Store.antt =====
-- `RunStore` of src/core/run-store.js over the content of current.json; the time is an argument.
use specifyr.Prelude.{ℕ, Option, none, some, List, map}
use specifyr.Prelude.Result.{Result, ok, throw}
use specifyr.Database.{select_one}
use specifyr.Runs.Rows.{Task, RunStatus, TaskState, RunState, is_task, new_entry, patch_task}

pub data Error : Type 0 where
  no_run_state : Error
  task_not_in_run_state : ℕ → Error

-- `saveCurrent`: what the file holds after it.
abbrev pub save_current : ℕ → RunState → RunState
save_current now state = record state { updated_at = now }

unfoldable pub init_from_graph : ℕ → ℕ → List Task → RunState
init_from_graph now generated_at graph = save_current now (record {
  status = RunStatus.idle;
  started_at = none;
  completed_at = none;
  current_task_id = none;
  tasks = map (λ t. new_entry t.id) graph;
  generated_at = generated_at;
  updated_at = now;
})

-- `setTaskStatus`; the file as it is after the call.
unfoldable pub set_task_status :
    ℕ → ℕ → (TaskState → TaskState) → Option RunState → Result Error RunState
unfolding patch_task
set_task_status now task_id patch none = throw no_run_state
set_task_status now task_id patch (some state) = elim (select_one (is_task task_id) state.tasks) [
  | none ↦ throw (task_not_in_run_state task_id)
  | some t ↦ ok (save_current now (record state { tasks = patch_task task_id patch state.tasks }))
]

unfoldable pub set_run_status : ℕ → (RunState → RunState) → Option RunState → Result Error RunState
set_run_status now patch none = throw no_run_state
set_run_status now patch (some state) = ok (save_current now (patch state))
