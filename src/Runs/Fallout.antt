-- ===== src/Runs/Fallout.antt =====
-- What `propagateBlock` blocks: the tasks that were waiting and depend on the failed one, directly or
-- through others.
use specifyr.Prelude.{
  ℕ, zero, suc, ◌<◌, ◌≡◌, ◌≢◌, ◌↔◌, ◌⊎◌, ◌∙◌, refl, sym, ap, true, false, Option, some, List, [],
  ◌∷◌, any, length, ◌==◌, ==_iff, arith, Bool-cases, inl, inr,
}
use mathlib.Core.Path.{subst}
use mathlib.Core.List.{Memᴰ}
use mathlib.Core.List.Memᴰ
use specifyr.Runs.Rows.{
  Task, TaskStatus, blocked_by_upstream, TaskState, status_of, contains, is_waiting,
}
use specifyr.Runs.Blocking.{Spread, visit, pass, spread, settle_block, propagate_block}
use specifyr.Runs.Passes.{waiting, waiting-bound, waiting-pass}
use specifyr.Runs.Visits.{
  Downstream, origin, behind, common, shared_dependency, marked, blocked, IsClosed, visit-cases,
  blocked_at, blocked_other, visit_changed, out_of_added, not_waiting,
}

-- The state of the loop against the table that it starts from.
module _ (graph : List Task) (failed_id : ℕ) (tasks : List TaskState) where
  Behind : ℕ → Type 0
  Behind id = Downstream graph failed_id id

  abbrev IsBlocked : Spread → ℕ → Type 0
  IsBlocked s id = status_of id s.tasks ≡ some blocked_by_upstream

  -- An entry is as before, or was waiting, is behind the failed task, and is blocked.
  abbrev Entry : ℕ → Option TaskStatus → Type 0
  Entry id status =
      (status ≡ status_of id tasks)
      ⊎ (Behind id × (is_waiting (status_of id tasks) ≡ true) × (status ≡ some blocked_by_upstream))

  abbrev IsSound : Spread → Type 0
  IsSound s =
      ((id : ℕ) → contains s.fail id ≡ true → Behind id)
      × ((id : ℕ) → Entry id (status_of id s.tasks))

  -- Of the tasks behind the failed one, those in `fail` are blocked and the others wait.
  abbrev IsComplete : Spread → Type 0
  IsComplete s =
      ((id : ℕ) → contains s.fail id ≡ true → (id ≡ failed_id) ⊎ IsBlocked s id)
      × ((id : ℕ)
          → Behind id
          → contains s.fail id ≡ false
          → is_waiting (status_of id s.tasks) ≡ true)
      × (contains s.fail failed_id ≡ true)

  follows_dependency :
      (t : Task) (s : Spread)
      → Memᴰ t graph
      → ((id : ℕ) → contains s.fail id ≡ true → Behind id)
      → any (contains s.fail) t.depends_on ≡ true
      → Behind t.id
  unfolding Behind
  follows_dependency t s m inside deps =
      let (d, in_deps, in_fail) = common s.fail t.depends_on deps in
      behind t d m in_deps (inside d in_fail)

  in_added :
      (t : Task) (s : Spread) (P : ℕ → Type 0)
      → P t.id
      → ((id : ℕ) → contains s.fail id ≡ true → P id)
      → (id : ℕ) → contains (t.id ∷ s.fail) id ≡ true
      → P id
  in_added t s P at inside id h = elim (Bool-cases (t.id == id)) [
    | inl same ↦ subst P ((==_iff t.id id).0 same) at
    | inr other ↦ inside id (ground (arith, other))
  ]

  waited :
      (id : ℕ) (status : Option TaskStatus)
      → is_waiting status ≡ true
      → Entry id status
      → is_waiting (status_of id tasks) ≡ true
  waited id status waits (inl e) = subst (λ s. is_waiting s ≡ true) e waits
  waited id status waits (inr (_, before, _)) = before

  marked-IsSound : (t : Task) (s : Spread) → Behind t.id → IsSound s → IsSound (marked t s)
  marked-IsSound t s at (inside, entries) = (in_added t s Behind at inside, entries)

  blocked-IsSound :
      (t : Task) (s : Spread)
      → Behind t.id
      → is_waiting (status_of t.id s.tasks) ≡ true
      → IsSound s
      → IsSound (blocked failed_id t s)
  blocked-IsSound t s at waits (inside, entries) = (
    in_added t s Behind at inside,
    λ id. elim (Bool-cases (t.id == id)) [
      | inl same ↦
          subst (λ i. Entry i (status_of i (blocked failed_id t s).tasks)) ((==_iff t.id id).0 same)
            (inr (
              at,
              waited t.id (status_of t.id s.tasks) waits (entries t.id),
              blocked_at failed_id t s,
            ))
      | inr other ↦ subst (Entry id) (sym (blocked_other failed_id t s id other)) (entries id)
    ],
  )

  visit-IsSound : (t : Task) (s : Spread) → Memᴰ t graph → IsSound s → IsSound (visit failed_id t s)
  visit-IsSound t s m h = elim (visit-cases failed_id t s) [
    | inl (e, closed) ↦ subst IsSound (sym e) h
    | inr (inl (e, new, hit, still)) ↦
        subst IsSound (sym e) (marked-IsSound t s (follows_dependency t s m h.0 hit) h)
    | inr (inr (e, new, hit, waits)) ↦
        subst IsSound (sym e) (blocked-IsSound t s (follows_dependency t s m h.0 hit) waits h)
  ]

  -- What has not failed and is not the task that is added is as it was.
  blocked-IsComplete : (t : Task) (s : Spread) → IsComplete s → IsComplete (blocked failed_id t s)
  blocked-IsComplete t s (fallen, open_ones, failed_in) = (
    in_added t s (λ id. (id ≡ failed_id) ⊎ IsBlocked (blocked failed_id t s) id)
        (inr (blocked_at failed_id t s))
        (λ id h. elim (Bool-cases (t.id == id)) [
          | inl same ↦ inr (
              subst (IsBlocked (blocked failed_id t s)) ((==_iff t.id id).0 same)
                (blocked_at failed_id t s))
          | inr other ↦ elim (fallen id h) [
            | inl e ↦ inl e
            | inr e ↦ inr (blocked_other failed_id t s id other ∙ e)
          ]
        ]),
    λ id at out.
        let (other, before) = out_of_added t s.fail id out in
        rw (blocked_other failed_id t s id other) (open_ones id at before),
    ground (arith, failed_in),
  )

  visit-IsComplete :
      (t : Task) (s : Spread)
      → Memᴰ t graph
      → IsSound s
      → IsComplete s
      → IsComplete (visit failed_id t s)
  visit-IsComplete t s m sound h = elim (visit-cases failed_id t s) [
    | inl (e, closed) ↦ subst IsComplete (sym e) h
    | inr (inl (e, new, hit, still)) ↦
        let waits = h.1 t.id (follows_dependency t s m sound.0 hit) new in
        ground (arith, waits, still)
    | inr (inr (e, new, hit, waits)) ↦ subst IsComplete (sym e) (blocked-IsComplete t s h)
  ]

  -- As long as nothing changes, each task that has been visited is closed.
  visit_unchanged :
      (t : Task) (s : Spread)
      → Memᴰ t graph
      → IsSound s
      → IsComplete s
      → (visit failed_id t s).changed ≡ false
      → (visit failed_id t s ≡ s) × IsClosed s.fail t
  visit_unchanged t s m sound h unchanged = elim (visit-cases failed_id t s) [
    | inl kept ↦ kept
    | inr (inl (e, new, hit, still)) ↦
        let waits = h.1 t.id (follows_dependency t s m sound.0 hit) new in
        ground (arith, waits, still)
    | inr (inr (e, new, hit, waits)) ↦
        let changed : (visit failed_id t s).changed ≡ true = ap (λ s. s.changed) e in
        ground (arith, changed, unchanged)
  ]

  pass-Holds :
      (ts : List Task) (s : Spread)
      → ((t : Task) → Memᴰ t ts → Memᴰ t graph)
      → IsSound s × IsComplete s
      → IsSound (pass failed_id ts s) × IsComplete (pass failed_id ts s)
  unfolding pass
  pass-Holds [] s within h = h
  pass-Holds (t ∷ ts) s within (sound, complete) =
      let m = within t (Memᴰ.head refl) in
      pass-Holds ts (visit failed_id t s) (λ u n. within u (Memᴰ.tail n))
        (visit-IsSound t s m sound, visit-IsComplete t s m sound complete)

  pass-IsSound :
      (ts : List Task) (s : Spread)
      → ((t : Task) → Memᴰ t ts → Memᴰ t graph)
      → IsSound s
      → IsSound (pass failed_id ts s)
  unfolding pass
  pass-IsSound [] s within h = h
  pass-IsSound (t ∷ ts) s within h =
      pass-IsSound ts (visit failed_id t s) (λ u n. within u (Memᴰ.tail n))
        (visit-IsSound t s (within t (Memᴰ.head refl)) h)

  spread-IsSound : (n : ℕ) (s : Spread) → IsSound s → IsSound (spread n failed_id graph s)
  unfolding spread
  spread-IsSound zero s h = h
  spread-IsSound (suc n) s h =
      let next = pass failed_id graph (record s { changed = false }) in
      let kept = pass-IsSound graph (record s { changed = false }) (λ t m. m) h in
      elim (Bool-cases next.changed) [
        | inl c ↦ rw (spread, c) (spread-IsSound n next kept)
        | inr c ↦ rw (spread, c) kept
      ]

  first_in_fail : (id : ℕ) → contains (failed_id ∷ []) id ≡ true → failed_id ≡ id
  first_in_fail id h = (==_iff failed_id id).0 (ground arith)

  first-IsSound : IsSound (record { fail = failed_id ∷ []; tasks = tasks; changed = true })
  unfolding Behind
  first-IsSound = (λ id h. subst Behind (first_in_fail id h) origin, λ id. inl refl)

  -- When a task fails, every entry stays as it was but those that waited and whose task depends on
  -- the failed one, directly or through others: of those, some are blocked.
  pub propagate_block_entry :
      (id : ℕ)
      → let status = status_of id (propagate_block graph failed_id tasks) in
        (status ≡ status_of id tasks)
        ⊎ (Downstream graph failed_id id
            × (is_waiting (status_of id tasks) ≡ true)
            × (status ≡ some blocked_by_upstream))
  unfolding propagate_block Behind
  propagate_block_entry id =
      (spread-IsSound (suc (length tasks))
          (record { fail = failed_id ∷ []; tasks = tasks; changed = true }) first-IsSound).1
        id

  pass_changed :
      (ts : List Task) (s : Spread) → s.changed ≡ true → (pass failed_id ts s).changed ≡ true
  unfolding pass
  pass_changed [] s c = c
  pass_changed (t ∷ ts) s c = pass_changed ts (visit failed_id t s) (visit_changed failed_id t s c)

  not_changed :
      (s : Spread) (ts : List Task) → (pass failed_id ts s).changed ≡ false → s.changed ≡ false
  not_changed s ts unchanged = elim (Bool-cases s.changed) [
    | inr c ↦ c
    | inl c ↦ ground (arith, pass_changed ts s c, unchanged)
  ]

  pass_unchanged :
      (ts : List Task) (s : Spread)
      → ((t : Task) → Memᴰ t ts → Memᴰ t graph)
      → IsSound s
      → IsComplete s
      → (pass failed_id ts s).changed ≡ false
      → (pass failed_id ts s ≡ s) × ((t : Task) → Memᴰ t ts → IsClosed s.fail t)
  unfolding pass
  pass_unchanged [] s within sound complete unchanged = (refl, λ t n. absurd (Memᴰ.not-nil n))
  pass_unchanged (t ∷ ts) s within sound complete unchanged =
      let m = within t (Memᴰ.head refl) in
      let (e, closed) =
        visit_unchanged t s m sound complete (not_changed (visit failed_id t s) ts unchanged) in
      let (e_rest, closed_rest) =
        pass_unchanged ts s (λ u n. within u (Memᴰ.tail n)) sound complete
          (subst (λ v. (pass failed_id ts v).changed ≡ false) e unchanged) in
      (
        ap (pass failed_id ts) e ∙ e_rest,
        λ u n. elim (Memᴰ.cases_cons n) [
          | inl same ↦ subst (IsClosed s.fail) (sym same) closed
          | inr later ↦ closed_rest u later
        ],
      )

  reset-Holds :
      (s : Spread)
      → IsSound s × IsComplete s
      → IsSound (record s { changed = false }) × IsComplete (record s { changed = false })
  reset-Holds s h = h

  -- More passes than entries that wait: the last of them changes nothing.
  spread-Holds :
      (n : ℕ) (s : Spread)
      → waiting s.tasks < n
      → IsSound s × IsComplete s
      → (IsSound (spread n failed_id graph s) × IsComplete (spread n failed_id graph s))
        × ((t : Task) → Memᴰ t graph → IsClosed (spread n failed_id graph s).fail t)
  unfolding spread
  spread-Holds zero s enough h = ground arith
  spread-Holds (suc n) s enough h =
      let first = record s { changed = false } in
      let next = pass failed_id graph first in
      let (less, strict) = waiting-pass failed_id graph first in
      let kept = pass-Holds graph first (λ t m. m) h in
      elim (Bool-cases next.changed) [
        | inl c ↦
            let below : waiting next.tasks < waiting s.tasks = elim (strict c) [
              | inl e ↦ ground arith
              | inr b ↦ b
            ] in
            rw (spread, c) (spread-Holds n next (omega (arith, below, enough)) kept)
        | inr c ↦
            let (e, closed) = pass_unchanged graph first (λ t m. m) h.0 h.1 c in
            rw (spread, c) (kept, λ t m. subst (λ v. IsClosed v.fail t) (sym e) (closed t m))
      ]

  reached :
      (fail : List ℕ)
      → contains fail failed_id ≡ true
      → ((t : Task) → Memᴰ t graph → IsClosed fail t)
      → (id : ℕ) → Behind id
      → contains fail id ≡ true
  unfolding Behind
  reached fail first closed id origin = first
  reached fail first closed id (behind t d m in_deps below) =
      let hit = shared_dependency fail t.depends_on d in_deps (reached fail first closed d below) in
      ground (arith, closed t m, hit)

  first_out : (id : ℕ) → contains (failed_id ∷ []) id ≡ false → id ≢ failed_id
  first_out id out e = ground (arith, sym e)

  blocked_follows :
      (id : ℕ) (status : Option TaskStatus)
      → is_waiting (status_of id tasks) ≡ true
      → status ≡ some blocked_by_upstream
      → Entry id status
      → Behind id
  blocked_follows id status waits e (inl same) =
      absurd (not_waiting (subst (λ s. is_waiting s ≡ true) (sym same ∙ e) waits))
  blocked_follows id status waits e (inr (at, _, _)) = at

  falls_with_it :
      (s : Spread) (id : ℕ) → id ≢ failed_id → (id ≡ failed_id) ⊎ IsBlocked s id → IsBlocked s id
  falls_with_it s id other (inl e) = absurd (other e)
  falls_with_it s id other (inr e) = e

  -- Let every task that depends on the failed one, directly or through others, have an entry that
  -- waits. Then a task that waits, other than the failed one, is blocked exactly if it depends on
  -- the failed one in that way; the bound on the passes never cuts the loop short.
  pub propagate_block_iff :
      ((id : ℕ)
        → Downstream graph failed_id id
        → id ≢ failed_id
        → is_waiting (status_of id tasks) ≡ true)
      → (id : ℕ) → id ≢ failed_id
      → is_waiting (status_of id tasks) ≡ true
      → (status_of id (propagate_block graph failed_id tasks) ≡ some blocked_by_upstream)
        ↔ Downstream graph failed_id id
  unfolding propagate_block Behind
  propagate_block_iff all_wait id other waits =
      let first : Spread = record { fail = failed_id ∷ []; tasks = tasks; changed = true } in
      let last = settle_block graph failed_id tasks in
      let first_complete : IsComplete first = (
        λ i h. inl (sym (first_in_fail i h)),
        λ i at out. all_wait i at (λ e. first_out i out e),
        ground arith,
      ) in
      let ((sound, (fallen, _, in_fail)), closed) =
        spread-Holds (suc (length tasks)) first (omega (arith, waiting-bound tasks))
          (first-IsSound, first_complete) in
      (
        λ e. blocked_follows id (status_of id last.tasks) waits e (sound.1 id),
        λ at. falls_with_it last id other (fallen id (reached last.fail in_fail closed id at)),
      )
