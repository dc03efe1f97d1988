-- ===== src/Runs/Stalled.antt =====
-- `execute` reads the state of the run once, so a task that is completed on the way opens no other.
use specifyr.Prelude.{
  ℕ, zero, suc, ◌≡◌, ◌≢◌, ◌∙◌, refl, true, false, not, ◌||◌, Option, none, some, List, [], ◌∷◌, any,
  all, All, ◌==◌, arith, Option-cases, inl, inr,
}
use specifyr.Database.{select_one}
use specifyr.Runs.Rows.{Task, TaskStatus, RunStatus, RunState, status_of, contains, is_waiting}
use specifyr.Runs.Tables.{status_of-patch_task_other}
use specifyr.Runs.Store.{save_current}
use specifyr.Runs.Scheduler.{
  working, saved, saving, racing, Run, is_flight, is_done, is_launchable, pick_launchable,
  mark_running, launch_task, launch_all, turn, started, start, settled, Event, settle, store, leave,
  serialise, replace, wake, finish, cancel, stage_of, step, steps,
}
use specifyr.Runs.Flights.{is_done-running, is_launchable-parts, select_one-holds}
use specifyr.Runs.Held.{
  is_held, open_status, Held, HeldFlight, settled-Held, held-set_stage, held-delete, held-append,
  Held-append, Held-stage_of, other-stage_of, Held-take_at, not_in_flight, final_status-Held,
  all-select_one, not_ready, picked_waits,
}

-- A task `j` of the graph depends on `d`, which is not completed.
module _ (graph : List Task) (max_parallel j d : ℕ)
    (depends : all (λ t. not (t.id == j) || contains t.depends_on d) graph ≡ true)
    (there : any (λ t. t.id == j) graph ≡ true) where
  abbrev IsStalled : Run → Type 0
  IsStalled run =
      Held j run.memory
      × (is_done run.memory.tasks d ≡ false)
      × Held j run.disk
      × All (Held j) run.saves_ready
      × All (HeldFlight j) run.in_flight

  picked_other :
      (run : Run) (t : Task)
      → pick_launchable graph max_parallel run ≡ some t
      → is_done run.memory.tasks d ≡ false
      → (t.id == j) ≡ false
  unfolding pick_launchable
  picked_other run t picked n =
      let chosen : select_one (is_launchable run) graph ≡ some t = ground (arith, picked) in
      let (_, all_done, _) =
        is_launchable-parts run t (select_one-holds (is_launchable run) graph t chosen) in
      let dep =
        all-select_one (λ t. not (t.id == j) || contains t.depends_on d) (is_launchable run) graph t
          depends chosen in
      not_ready t j d run.memory.tasks dep n all_done

  launch_task-IsStalled :
      (now : ℕ) (run : Run) (t : Task)
      → pick_launchable graph max_parallel run ≡ some t
      → IsStalled run
      → IsStalled (launch_task now t run)
  unfolding launch_task
  launch_task-IsStalled now run t picked (memory, n, disk, saves, flights) =
      let other = picked_other run t picked n in
      let waits = picked_waits graph max_parallel run t picked in
      (
        (
          rw
              (status_of-patch_task_other (mark_running now) (λ u. refl) t.id j run.memory.tasks
                other)
              memory.0,
          memory.1,
        ),
        is_done-running now t.id run.memory.tasks waits d ∙ n,
        disk,
        saves,
        held-append j run.in_flight (record { id = t.id; stage = working }) flights (other, tt),
      )

  launch_all-IsStalled :
      (n now : ℕ) (run : Run) → IsStalled run → IsStalled (launch_all n now graph max_parallel run)
  unfolding launch_all
  launch_all-IsStalled zero now run h = h
  launch_all-IsStalled (suc n) now run h =
      elim (Option-cases (pick_launchable graph max_parallel run)) [
        | inl nothing ↦ rw (launch_all, nothing) h
        | inr (t, picked) ↦
            rw (launch_all, picked)
              (launch_all-IsStalled n now (launch_task now t run)
                (launch_task-IsStalled now run t picked h))
      ]

  turn-IsStalled :
      (now : ℕ) (run : Run) → IsStalled run → IsStalled (turn now graph max_parallel run)
  unfolding turn
  turn-IsStalled now run h = ground (arith, launch_all-IsStalled max_parallel now run h)

  step-IsStalled :
      (now : ℕ) (e : Event) (run : Run)
      → IsStalled run
      → IsStalled (step now graph max_parallel e run)
  unfolding step
  step-IsStalled now (settle id outcome) run (memory, n, disk, saves, flights) =
      elim (Option-cases (stage_of id run.in_flight)) [
        | inl absent ↦ ground arith
        | inr (saved, at) ↦ ground arith
        | inr (saving s, at) ↦ ground arith
        | inr (working, at) ↦
            let kept =
              settled-Held j now graph id outcome run.disk
                (other-stage_of j id working run.in_flight at flights) disk in
            rw (step, at)
              (
                memory,
                n,
                disk,
                saves,
                held-set_stage j id (saving (settled now graph id outcome run.disk)) run.in_flight
                    kept flights,
              )
      ]
  step-IsStalled now (store id) run (memory, n, disk, saves, flights) =
      elim (Option-cases (stage_of id run.in_flight)) [
        | inl absent ↦ ground arith
        | inr (saved, at) ↦ ground arith
        | inr (working, at) ↦ ground arith
        | inr (saving s, at) ↦
            rw (step, at)
              (
                memory,
                n,
                Held-stage_of j id s run.in_flight at flights,
                saves,
                held-set_stage j id saved run.in_flight tt flights,
              )
      ]
  step-IsStalled now (leave id) run (memory, n, disk, saves, flights) =
      let left = held-delete j (is_flight id) run.in_flight flights in ground arith
  step-IsStalled now serialise run (memory, n, disk, saves, flights) =
      let more = Held-append j run.saves_ready (save_current now run.memory) saves memory in
      ground arith
  step-IsStalled now (replace k) run (memory, n, disk, saves, flights) =
      let taken = Held-take_at j k run.saves_ready saves in ground arith
  step-IsStalled now wake run h = ground (arith, turn-IsStalled now run h)
  step-IsStalled now finish run (memory, n, disk, saves, flights) =
      let final = final_status-Held j run.abort graph run.disk.tasks there disk.0 in ground arith
  step-IsStalled now cancel run h = h

  steps-IsStalled :
      (es : List (ℕ × Event)) (run : Run)
      → IsStalled run
      → IsStalled (steps graph max_parallel es run)
  unfolding steps
  steps-IsStalled [] run h = h
  steps-IsStalled ((now, e) ∷ es) run h =
      steps-IsStalled es (step now graph max_parallel e run) (step-IsStalled now e run h)

  waiting_held : (s : Option TaskStatus) → is_waiting s ≡ true → is_held s ≡ true
  waiting_held none h = ground arith
  waiting_held (some s) h = ground arith

  -- Let a task of the graph wait when `execute` starts, and depend on one that is not completed
  -- then. However the events interleave, this `execute` never launches the task, and never ends the
  -- run as completed: completions on the way are not seen.
  pub dependent_stalls :
      (now : ℕ) (state : RunState) (es : List (ℕ × Event))
      → is_waiting (status_of j state.tasks) ≡ true
      → is_done state.tasks d ≡ false
      → let run = steps graph max_parallel es (start now graph max_parallel state) in
        (any (is_flight j) run.in_flight ≡ false) × (run.disk.status ≢ RunStatus.completed)
  unfolding start
  dependent_stalls now state es waits n =
      let held : Held j (started now state) =
        (waiting_held (status_of j state.tasks) waits, refl) in
      let first : Run = record {
        memory = started now state;
        disk = started now state;
        in_flight = [];
        abort = false;
        place = racing;
        woken = false;
        saves_due = 0;
        saves_ready = [];
      } in
      let (_, _, disk, _, flights) =
        steps-IsStalled es (turn now graph max_parallel first)
          (turn-IsStalled now first (held, n, held, tt, tt)) in
      let run = steps graph max_parallel es (turn now graph max_parallel first) in
      (not_in_flight j run.in_flight flights, λ e. open_status run.disk.status disk.1 e)
