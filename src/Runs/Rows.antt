-- ===== src/Runs/Rows.antt =====
-- The graph of tasks, and the state of a run as src/core/run-store.js keeps it in current.json.
use specifyr.Prelude.{ℕ, Bool, true, false, Option, none, some, List, Text, any, ◌==◌}
use specifyr.Database.{select_one, upsert}

-- A task of the graph. `depends_on` is `dependsOn ?? []`.
pub record Task : Type 0 where
  pub id : ℕ
  pub title : Text
  pub description : Text
  pub depends_on : List ℕ
  pub parallel_safe : Bool

-- `TASK_STATUSES`
pub data TaskStatus : Type 0 where
  pending ready running completed failed blocked_by_upstream skipped : TaskStatus

-- `RUN_STATUSES`
pub data RunStatus : Type 0 where
  idle running paused completed failed : RunStatus

-- `lastError`: the message of a runner, or "Upstream failure: " with the id of a task.
pub data TaskError : Type 0 where
  message : Text → TaskError
  upstream_failure : ℕ → TaskError

-- An entry of `tasks`, with its key as `id`.
pub record TaskState : Type 0 where
  pub id : ℕ
  pub status : TaskStatus
  pub started_at : Option ℕ
  pub completed_at : Option ℕ
  pub retries : ℕ
  pub last_error : Option TaskError
  pub summary : Option Text

pub record RunState : Type 0 where
  pub status : RunStatus
  pub started_at : Option ℕ
  pub completed_at : Option ℕ
  pub current_task_id : Option ℕ
  pub tasks : List TaskState
  pub generated_at : ℕ
  pub updated_at : ℕ

abbrev pub is_task : ℕ → TaskState → Bool
is_task id t = t.id == id

-- `state.tasks[id]?.status`
abbrev pub status_of : ℕ → List TaskState → Option TaskStatus
status_of id tasks = elim (select_one (is_task id) tasks) [ none ↦ none | some t ↦ some t.status ]

-- An entry that a spread of `undefined` starts from.
abbrev pub new_entry : ℕ → TaskState
new_entry id = record {
  id = id;
  status = pending;
  started_at = none;
  completed_at = none;
  retries = 0;
  last_error = none;
  summary = none;
}

-- `state.tasks[id] = { ...state.tasks[id], … }`, where `f` sets the fields and the status with them.
unfoldable pub patch_task : ℕ → (TaskState → TaskState) → List TaskState → List TaskState
patch_task id f tasks = upsert (is_task id) f (f (new_entry id)) tasks

abbrev pub contains : List ℕ → ℕ → Bool
contains ids id = any (λ i. i == id) ids

-- `status === "pending" || status === "ready"`
abbrev pub is_waiting : Option TaskStatus → Bool
is_waiting (some pending) = true
is_waiting (some ready) = true
is_waiting _ = false

abbrev pub is_completed : Option TaskStatus → Bool
is_completed (some completed) = true
is_completed _ = false
