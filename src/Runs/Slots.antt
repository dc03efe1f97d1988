-- ===== src/Runs/Slots.antt =====
-- The rules on parallel tasks along every history of a run.
use specifyr.Prelude.{
  ℕ, zero, suc, ◌+◌, ◌≤◌, ◌<◌, ◌≡◌, ◌↔◌, refl, ◌∙◌, Bool, true, false, ◌||◌, none, some, List, [],
  ◌∷◌, any, all, length, length-append, arith, Option-cases, inl, inr,
}
use specifyr.Database.{delete}
use specifyr.Runs.Rows.{Task, RunState, patch_task}
use specifyr.Runs.Scheduler.{
  Stage, started, settled, working, saved, saving, Flight, racing, Run, by_id, is_solo, is_flight,
  is_done, is_launchable, pick_launchable, mark_running, launch_task, launch_all, turn, start,
  Event, settle, store, leave, serialise, replace, wake, finish, cancel, set_stage, step, steps,
}
use specifyr.Runs.Flights.{
  HasUniqueIds, is_ready, IsSound, select_one-holds, by_id-select_one, length-set_stage,
  solo-set_stage, ready-set_stage, length-delete, solo-delete, ready-delete, all_done-running,
  ready-running, solo_new, ready_new, is_launchable-parts,
}

module _ (graph : List Task) (max_parallel : ℕ) (unique : HasUniqueIds graph) where
  pub pick_launchable-holds :
      (run : Run) (t : Task)
      → pick_launchable graph max_parallel run ≡ some t
      → (length run.in_flight < max_parallel)
        × (any (is_solo graph) run.in_flight ≡ false)
        × (is_launchable run t ≡ true)
        × (by_id graph t.id ≡ some t)
  unfolding pick_launchable
  pick_launchable-holds run t e = ground (
    arith,
    select_one-holds (is_launchable run) graph t,
    by_id-select_one (is_launchable run) graph t unique,
  )

  launch_task-IsSound :
      (now : ℕ) (run : Run) (t : Task)
      → pick_launchable graph max_parallel run ≡ some t
      → IsSound graph max_parallel run
      → IsSound graph max_parallel (launch_task now t run)
  unfolding launch_task
  launch_task-IsSound now run t picked h =
      let (slot, no_solo, launchable, at) = pick_launchable-holds run t picked in
      let (waits, done_before, safe) = is_launchable-parts run t launchable in
      let new : Flight = record { id = t.id; stage = working } in
      let tasks = patch_task t.id (mark_running now) run.memory.tasks in
      let ready : all (is_ready graph tasks) run.in_flight ≡ true =
        ready-running now t.id run.memory.tasks waits graph run.in_flight ∙ h.2 in
      let done : all (is_done tasks) t.depends_on ≡ true =
        all_done-running now t.id run.memory.tasks waits t.depends_on ∙ done_before in
      (
        omega (arith, slot, length-append run.in_flight (new ∷ [])),
        solo_new (is_solo graph) run.in_flight new no_solo (rw (◌||◌, is_solo, at) safe),
        ready_new (is_ready graph tasks) run.in_flight new ready (rw (is_ready, at) done),
      )

  launch_all-IsSound :
      (n now : ℕ) (run : Run)
      → IsSound graph max_parallel run
      → IsSound graph max_parallel (launch_all n now graph max_parallel run)
  unfolding launch_all
  launch_all-IsSound zero now run h = h
  launch_all-IsSound (suc n) now run h =
      elim (Option-cases (pick_launchable graph max_parallel run)) [
        | inl nothing ↦ rw (launch_all, nothing) h
        | inr (t, picked) ↦
            rw (launch_all, picked)
              (launch_all-IsSound n now (launch_task now t run)
                (launch_task-IsSound now run t picked h))
      ]

  turn-IsSound :
      (now : ℕ) (run : Run)
      → IsSound graph max_parallel run
      → IsSound graph max_parallel (turn now graph max_parallel run)
  unfolding turn
  turn-IsSound now run h = ground (arith, launch_all-IsSound max_parallel now run h)

  set_stage-IsSound :
      (id : ℕ) (s : Stage) (run : Run)
      → IsSound graph max_parallel run
      → IsSound graph max_parallel (record run { in_flight = set_stage id s run.in_flight })
  set_stage-IsSound id s run h = ground (
    arith,
    length-set_stage id s run.in_flight,
    solo-set_stage id s graph run.in_flight,
    ready-set_stage id s graph run.memory.tasks run.in_flight,
  )

  delete-IsSound :
      (p : Flight → Bool) (run : Run)
      → IsSound graph max_parallel run
      → IsSound graph max_parallel (record run { in_flight = delete p run.in_flight; woken = true })
  delete-IsSound p run h = ground (
    arith,
    length-delete p run.in_flight,
    solo-delete graph p run.in_flight,
    ready-delete graph run.memory.tasks p run.in_flight h.2,
  )

  step-IsSound :
      (now : ℕ) (e : Event) (run : Run)
      → IsSound graph max_parallel run
      → IsSound graph max_parallel (step now graph max_parallel e run)
  unfolding step
  step-IsSound now (settle id outcome) run h =
      ground (arith, set_stage-IsSound id (saving (settled now graph id outcome run.disk)) run h)
  step-IsSound now (store id) run h = ground (arith, set_stage-IsSound id saved run h)
  step-IsSound now (leave id) run h = ground (arith, delete-IsSound (is_flight id) run h)
  step-IsSound now serialise run h = ground arith
  step-IsSound now (replace n) run h = ground arith
  step-IsSound now wake run h = ground (arith, turn-IsSound now run h)
  step-IsSound now finish run h = ground arith
  step-IsSound now cancel run h = h

  steps-IsSound :
      (es : List (ℕ × Event)) (run : Run)
      → IsSound graph max_parallel run
      → IsSound graph max_parallel (steps graph max_parallel es run)
  unfolding steps
  steps-IsSound [] run h = h
  steps-IsSound ((now, e) ∷ es) run h =
      steps-IsSound es (step now graph max_parallel e run) (step-IsSound now e run h)

  -- In a graph with unique ids, however the events interleave after the start: no more than
  -- `max_parallel` tasks are in flight, a task that is not parallel-safe is in flight alone, and
  -- the dependencies of every task in flight are completed.
  pub run-IsSound :
      (now : ℕ) (state : RunState) (es : List (ℕ × Event))
      → IsSound graph max_parallel
          (steps graph max_parallel es (start now graph max_parallel state))
  unfolding start
  run-IsSound now state es = steps-IsSound es (start now graph max_parallel state) (
      turn-IsSound now
        (record {
          memory = started now state;
          disk = started now state;
          in_flight = [];
          abort = false;
          place = racing;
          woken = false;
          saves_due = 0;
          saves_ready = [];
        })
        (omega arith, refl, refl))

launched_slots :
    (n max_parallel now : ℕ) (t : Task) (run : Run)
    → max_parallel ≤ suc n + length run.in_flight
    → max_parallel ≤ n + length (launch_task now t run).in_flight
unfolding launch_task
launched_slots n max_parallel now t run enough =
    let new : Flight = record { id = t.id; stage = working } in
    omega (arith, enough, length-append run.in_flight (new ∷ []))

launch_all-pick_launchable :
    (n now : ℕ) (graph : List Task) (max_parallel : ℕ) (run : Run)
    → max_parallel ≤ n + length run.in_flight
    → pick_launchable graph max_parallel (launch_all n now graph max_parallel run) ≡ none
unfolding launch_all
launch_all-pick_launchable zero now graph max_parallel run enough = ground arith
launch_all-pick_launchable (suc n) now graph max_parallel run enough =
    elim (Option-cases (pick_launchable graph max_parallel run)) [
      | inl nothing ↦ rw (launch_all, nothing) nothing
      | inr (t, picked) ↦
          rw (launch_all, picked)
            (launch_all-pick_launchable n now graph max_parallel (launch_task now t run)
              (launched_slots n max_parallel now t run enough))
    ]

-- Unless the run is aborted, one turn of the loop launches all it can: behind it no task can be
-- launched, and it waits at the race exactly if some task is in flight.
pub turn-pick_launchable :
    (now : ℕ) (graph : List Task) (max_parallel : ℕ) (run : Run)
    → run.abort ≡ false
    → let after = turn now graph max_parallel run in
      (pick_launchable graph max_parallel after ≡ none)
      × ((after.place ≡ racing) ↔ (1 ≤ length after.in_flight))
unfolding turn
turn-pick_launchable now graph max_parallel run goes_on =
    let none_left =
      launch_all-pick_launchable max_parallel now graph max_parallel run (omega arith) in
    (ground (arith, none_left), ((λ waits. ground arith), (λ some_left. ground arith)))
