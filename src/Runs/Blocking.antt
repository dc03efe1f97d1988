-- ===== src/Runs/Blocking.antt =====
-- `propagateBlock` of src/core/run-scheduler.js: what a failed task does to the tasks behind it.
use specifyr.Prelude.{
  ℕ, zero, suc, Bool, true, false, some, List, [], ◌∷◌, length, any, if◌then◌else◌,
}
use specifyr.Runs.Rows.{
  Task, blocked_by_upstream, upstream_failure, TaskState, status_of, patch_task, contains,
  is_waiting,
}

-- The variables of the loop: the set `fail`, the table and the flag `changed`.
pub record Spread : Type 0 where
  pub fail : List ℕ
  pub tasks : List TaskState
  pub changed : Bool

abbrev pub block : ℕ → TaskState → TaskState
block failed_id t = record t {
  status = blocked_by_upstream;
  last_error = some (upstream_failure failed_id);
}

-- The body of the `for` for one task.
unfoldable pub visit : ℕ → Task → Spread → Spread
unfolding patch_task
visit failed_id task s =
    if contains s.fail task.id
    then s
    else if any (contains s.fail) task.depends_on
    then (if is_waiting (status_of task.id s.tasks)
        then record s {
          fail = task.id ∷ s.fail;
          tasks = patch_task task.id (block failed_id) s.tasks;
          changed = true;
        }
        else record s { fail = task.id ∷ s.fail })
    else s

unfoldable pub pass : ℕ → List Task → Spread → Spread
unfolding visit
pass failed_id [] s = s
pass failed_id (task ∷ tasks) s = pass failed_id tasks (visit failed_id task s)

-- The `while`, with a bound on its passes.
unfoldable pub spread : ℕ → ℕ → List Task → Spread → Spread
unfolding pass
spread zero failed_id graph s = s
spread (suc n) failed_id graph s =
    let next = pass failed_id graph (record s { changed = false }) in
    elim next.changed [ true ↦ spread n failed_id graph next | false ↦ next ]

-- A pass that changes something blocks a task that was waiting, so one pass more than there are
-- entries is enough.
abbrev pub settle_block : List Task → ℕ → List TaskState → Spread
settle_block graph failed_id tasks =
    spread (suc (length tasks)) failed_id graph
      (record { fail = failed_id ∷ []; tasks = tasks; changed = true })

unfoldable pub propagate_block : List Task → ℕ → List TaskState → List TaskState
unfolding spread
propagate_block graph failed_id tasks = (settle_block graph failed_id tasks).tasks
