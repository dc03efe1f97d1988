-- ===== src/Runs/Visits.antt =====
-- The tasks behind a failed one, and the cases of one visit of `propagateBlock`.
use specifyr.Prelude.{
  ℕ, ◌≡◌, ◌≢◌, ◌⊎◌, refl, true, false, not, ◌||◌, some, List, [], ◌∷◌, any, ◌==◌, ==_iff, arith,
  Bool-cases, inl, inr,
}
use mathlib.Core.List.{Memᴰ}
use specifyr.Runs.Rows.{Task, blocked_by_upstream, status_of, patch_task, contains, is_waiting}
use specifyr.Runs.Tables.{status_of-patch_task, status_of-patch_task_other}
use specifyr.Runs.Blocking.{Spread, block, visit}

-- The tasks behind the failed one, itself included.
pub data Downstream (graph : List Task) (failed_id : ℕ) : ℕ → Type 0 where
  origin : Downstream graph failed_id failed_id
  behind :
      (t : Task) (d : ℕ)
      → Memᴰ t graph
      → contains t.depends_on d ≡ true
      → Downstream graph failed_id d
      → Downstream graph failed_id t.id

pub common :
    (xs ds : List ℕ)
    → any (contains xs) ds ≡ true
    → (d : ℕ) × (contains ds d ≡ true) × (contains xs d ≡ true)
common xs [] h = (0, ground arith, ground arith)
common xs (d ∷ ds) h = elim (Bool-cases (contains xs d)) [
  | inl first ↦ (d, ground arith, first)
  | inr later ↦
      let (e, in_ds, in_xs) = common xs ds (ground (arith, later)) in
      (e, ground (arith, in_ds), in_xs)
]

pub shared_dependency :
    (xs ds : List ℕ) (d : ℕ)
    → contains ds d ≡ true
    → contains xs d ≡ true
    → any (contains xs) ds ≡ true
shared_dependency xs [] d in_ds in_xs = ground arith
shared_dependency xs (e ∷ ds) d in_ds in_xs = elim (Bool-cases (e == d)) [
  | inl same ↦
      let first : contains xs e ≡ true = rw ((==_iff e d).0 same) in_xs in ground (arith, first)
  | inr other ↦ ground (arith, shared_dependency xs ds d)
]

abbrev pub marked : Task → Spread → Spread
marked t s = record s { fail = t.id ∷ s.fail }

abbrev pub blocked : ℕ → Task → Spread → Spread
blocked failed_id t s = record s {
  fail = t.id ∷ s.fail;
  tasks = patch_task t.id (block failed_id) s.tasks;
  changed = true;
}

-- The task is in `fail`, or depends on none of it.
abbrev pub IsClosed : List ℕ → Task → Type 0
IsClosed fail t = (contains fail t.id || not (any (contains fail) t.depends_on)) ≡ true

pub visit-cases :
    (failed_id : ℕ) (t : Task) (s : Spread)
    → ((visit failed_id t s ≡ s) × IsClosed s.fail t)
      ⊎ ((visit failed_id t s ≡ marked t s)
          × (contains s.fail t.id ≡ false)
          × (any (contains s.fail) t.depends_on ≡ true)
          × (is_waiting (status_of t.id s.tasks) ≡ false))
      ⊎ ((visit failed_id t s ≡ blocked failed_id t s)
          × (contains s.fail t.id ≡ false)
          × (any (contains s.fail) t.depends_on ≡ true)
          × (is_waiting (status_of t.id s.tasks) ≡ true))
unfolding visit
visit-cases failed_id t s = elim (Bool-cases (contains s.fail t.id)) [
  | inl old ↦ inl (ground (arith, old), ground (arith, old))
  | inr new ↦ elim (Bool-cases (any (contains s.fail) t.depends_on)) [
    | inr free ↦ inl (ground (arith, new, free), ground (arith, free))
    | inl hit ↦ elim (Bool-cases (is_waiting (status_of t.id s.tasks))) [
      | inr still ↦ inr (inl (ground (arith, new, hit, still), new, hit, still))
      | inl waits ↦ inr (inr (ground (arith, new, hit, waits), new, hit, waits))
    ]
  ]
]

pub blocked_at :
    (failed_id : ℕ) (t : Task) (s : Spread)
    → status_of t.id (blocked failed_id t s).tasks ≡ some blocked_by_upstream
blocked_at failed_id t s =
    status_of-patch_task (block failed_id) (λ u. refl) blocked_by_upstream (λ u. refl) t.id s.tasks

pub blocked_other :
    (failed_id : ℕ) (t : Task) (s : Spread) (id : ℕ)
    → (t.id == id) ≡ false
    → status_of id (blocked failed_id t s).tasks ≡ status_of id s.tasks
blocked_other failed_id t s id other =
    status_of-patch_task_other (block failed_id) (λ u. refl) t.id id s.tasks other

pub visit_changed :
    (failed_id : ℕ) (t : Task) (s : Spread)
    → s.changed ≡ true
    → (visit failed_id t s).changed ≡ true
unfolding visit
visit_changed failed_id t s c = ground arith

pub out_of_added :
    (t : Task) (fail : List ℕ) (id : ℕ)
    → contains (t.id ∷ fail) id ≡ false
    → ((t.id == id) ≡ false) × (contains fail id ≡ false)
out_of_added t fail id out = ground arith

pub not_waiting : is_waiting (some blocked_by_upstream) ≢ true
not_waiting e = ground (arith, e)
