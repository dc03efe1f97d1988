-- ===== src/Capabilities/Answers.antt =====
-- Histories of the approval service: who answers a request, and how often.
use specifyr.Prelude.{
  ℕ, ◌+◌, ◌≤◌, ◌≡◌, refl, Bool, true, false, ◌&&◌, ◌||◌, Option, none, some, List, [], ◌∷◌, ◌++◌,
  Text, any, ◌==◌, ==_iff, if◌then◌else◌, arith, Bool-cases, Option-cases, inl, inr,
}
use mathlib.Core.Path.{subst}
use specifyr.Prelude.Result.{Result, ok, throw}
use specifyr.Database.{select_one, delete, count}
use specifyr.Capabilities.Approvals.{
  Decision, approved, Agent, Pending, Answer, Service, Error, is_pending, new_pending,
  decision_for_timeout, request_approval, timeout_answer, time_out, resolve,
}

pub data Op : Type 0 where
  ask : ℕ → ℕ → ℕ → Text → Option Agent → Text → Op
  expire : ℕ → ℕ → Op
  decide : ℕ → ℕ → Decision → Text → Op

abbrev pub accepted : Service → Result Error Service → Service
accepted s (ok s') = s'
accepted s (throw _) = s

unfoldable pub apply : Op → Service → Service
unfolding request_approval time_out resolve
apply (ask default_ms now id slug agent cap) s =
    accepted s (request_approval default_ms now id slug agent cap s)
apply (expire now id) s = time_out now id s
apply (decide now id decision by) s = (resolve now id decision by s).1

unfoldable pub apply_all : List Op → Service → Service
unfolding apply
apply_all [] s = s
apply_all (op ∷ ops) s = apply_all ops (apply op s)

abbrev pub is_answer : ℕ → Answer → Bool
is_answer id a = a.id == id

abbrev pub asks : ℕ → Op → Bool
asks id (ask _ _ i _ _ _) = i == id
asks id _ = false

abbrev pub is_approval : ℕ → Answer → Bool
is_approval id a = (a.id == id) && elim a.decision [ approved ↦ true | _ ↦ false ]

-- A call of `resolve` that approves the request.
abbrev pub approves : ℕ → Op → Bool
approves id (decide _ i approved _) = i == id
approves id _ = false

count-append {ℓ} :
    {A : Type ℓ} (p : A → Bool) (xs ys : List A) → count p (xs ++ ys) ≡ count p xs + count p ys
count-append p [] ys = omega arith
count-append p (x ∷ xs) ys = ground (arith, count-append p xs ys)

count-delete : (p q : Pending → Bool) (ps : List Pending) → count p (delete q ps) ≤ count p ps
count-delete p q [] = omega arith
count-delete p q (x ∷ ps) = ground (arith, count-delete p q ps)

count-delete_same : (p : Pending → Bool) (ps : List Pending) → count p (delete p ps) ≡ 0
count-delete_same p [] = refl
count-delete_same p (x ∷ ps) = ground (arith, count-delete_same p ps)

count-select_one :
    (p : Pending → Bool) (ps : List Pending) (x : Pending)
    → select_one p ps ≡ some x
    → 1 ≤ count p ps
count-select_one p [] x e = ground arith
count-select_one p (y ∷ ps) x e = ground (arith, count-select_one p ps x)

abbrev weight : ℕ → Service → ℕ
weight id s = count (is_answer id) s.answers + count (is_pending id) s.pending

-- A request that is answered leaves the map.
answered-weight_same :
    (id : ℕ) (a : Answer) (p : Pending) (answers : List Answer) (pending : List Pending)
    → a.id ≡ id
    → select_one (is_pending id) pending ≡ some p
    → count (is_answer id) (answers ++ a ∷ [])
        + count (is_pending id) (delete (is_pending id) pending)
      ≤ count (is_answer id) answers + count (is_pending id) pending
answered-weight_same id a p answers pending at found = ground (
  arith,
  count-append (is_answer id) answers (a ∷ []),
  count-delete_same (is_pending id) pending,
  count-select_one (is_pending id) pending p found,
)

answered-weight :
    (id i : ℕ) (a : Answer) (p : Pending) (answers : List Answer) (pending : List Pending)
    → a.id ≡ i
    → select_one (is_pending i) pending ≡ some p
    → count (is_answer id) (answers ++ a ∷ [])
        + count (is_pending id) (delete (is_pending i) pending)
      ≤ count (is_answer id) answers + count (is_pending id) pending
answered-weight id i a p answers pending at found = elim (Bool-cases (i == id)) [
  | inr other ↦ ground (
    arith,
    count-append (is_answer id) answers (a ∷ []),
    count-delete (is_pending id) (is_pending i) pending,
  )
  | inl same ↦
      subst
        (λ k.
          count (is_answer k) (answers ++ a ∷ [])
            + count (is_pending k) (delete (is_pending i) pending)
          ≤ count (is_answer k) answers + count (is_pending k) pending)
        ((==_iff i id).0 same) (answered-weight_same i a p answers pending at found)
]

asked-weight :
    (id i : ℕ) (p : Pending) (pending : List Pending)
    → p.id ≡ i
    → count (is_pending id) (delete (is_pending i) pending ++ p ∷ [])
      ≤ count (is_pending id) pending + (if i == id then 1 else 0)
asked-weight id i p pending at = ground (
  arith,
  count-append (is_pending id) (delete (is_pending i) pending) (p ∷ []),
  count-delete (is_pending id) (is_pending i) pending,
)

apply-weight :
    (op : Op) (id : ℕ) (s : Service)
    → weight id (apply op s) ≤ weight id s + (if asks id op then 1 else 0)
unfolding apply request_approval time_out resolve new_pending timeout_answer
apply-weight (ask default_ms now i slug none cap) id s = omega arith
apply-weight (ask default_ms now i slug (some agent) []) id s = ground arith
apply-weight (ask default_ms now i slug (some agent) (c ∷ cap)) id s =
    ground (arith, asked-weight id i (new_pending default_ms i slug agent (c ∷ cap)) s.pending refl)
apply-weight (expire now i) id s = elim (Option-cases (select_one (is_pending i) s.pending)) [
  | inl absent ↦ ground (arith, absent)
  | inr (p, found) ↦
      let w = answered-weight id i (timeout_answer now i p) p s.answers s.pending refl found in
      rw (apply, time_out, found) (omega (arith, w))
]
apply-weight (decide now i decision by) id s =
    elim (Option-cases (select_one (is_pending i) s.pending)) [
      | inl absent ↦ ground (arith, absent)
      | inr (p, found) ↦
          let a : Answer = record {
            id = i;
            decision = decision;
            escalate_to = none;
            by = by;
            at = now;
          } in
          let w = answered-weight id i a p s.answers s.pending refl found in
          rw (apply, resolve, found) (omega (arith, w))
    ]

apply_all-weight :
    (ops : List Op) (id : ℕ) (s : Service)
    → weight id (apply_all ops s) ≤ weight id s + count (asks id) ops
unfolding apply_all
apply_all-weight [] id s = omega arith
apply_all-weight (op ∷ ops) id s =
    ground (arith, apply-weight op id s, apply_all-weight ops id (apply op s))

abbrev pub empty : Service
empty = record { pending = []; answers = []; log = [] }

-- Along every history of requests, decisions and time-outs, an id is answered or pending at most as
-- often as it was asked for: a request with an id of its own is answered at most once.
pub answered_at_most :
    (ops : List Op) (id : ℕ)
    → count (is_answer id) (apply_all ops empty).answers
        + count (is_pending id) (apply_all ops empty).pending
      ≤ count (asks id) ops
answered_at_most ops id = omega (arith, apply_all-weight ops id empty)

any-append {ℓ} :
    {A : Type ℓ} (p : A → Bool) (xs ys : List A) → any p (xs ++ ys) ≡ (any p xs || any p ys)
any-append p [] ys = refl
any-append p (x ∷ xs) ys = ground (arith, any-append p xs ys)

timeout_not_approved :
    (now i id : ℕ) (p : Pending) → is_approval id (timeout_answer now i p) ≡ false
unfolding timeout_answer decision_for_timeout
timeout_not_approved now i id p = ground arith

apply-approval :
    (op : Op) (id : ℕ) (s : Service)
    → any (is_approval id) (apply op s).answers ≡ true
    → (any (is_approval id) s.answers || approves id op) ≡ true
unfolding apply request_approval time_out resolve
apply-approval (ask default_ms now i slug none cap) id s h = ground arith
apply-approval (ask default_ms now i slug (some agent) []) id s h = ground arith
apply-approval (ask default_ms now i slug (some agent) (c ∷ cap)) id s h = ground arith
apply-approval (expire now i) id s h = elim (Option-cases (select_one (is_pending i) s.pending)) [
  | inl absent ↦ ground (arith, absent)
  | inr (p, found) ↦ ground (
    arith,
    found,
    any-append (is_approval id) s.answers (timeout_answer now i p ∷ []),
    timeout_not_approved now i id p,
  )
]
apply-approval (decide now i decision by) id s h =
    let a : Answer = record {
      id = i;
      decision = decision;
      escalate_to = none;
      by = by;
      at = now;
    } in
    ground (arith, any-append (is_approval id) s.answers (a ∷ []))

apply_all-approval :
    (ops : List Op) (id : ℕ) (s : Service)
    → any (is_approval id) (apply_all ops s).answers ≡ true
    → (any (is_approval id) s.answers || any (approves id) ops) ≡ true
unfolding apply_all
apply_all-approval [] id s h = ground arith
apply_all-approval (op ∷ ops) id s h =
    ground (arith, apply-approval op id s, apply_all-approval ops id (apply op s) h)

-- A request is approved only by a call of `resolve` that approves it: no time-out does, whatever the
-- policy of the agent.
pub approved_by_resolve :
    (ops : List Op) (id : ℕ)
    → any (is_approval id) (apply_all ops empty).answers ≡ true
    → any (approves id) ops ≡ true
approved_by_resolve ops id h = ground (arith, apply_all-approval ops id empty h)
