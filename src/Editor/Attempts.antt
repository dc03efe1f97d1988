-- ===== src/Editor/Attempts.antt =====
-- How often a save is tried, and how it ends.
use specifyr.Prelude.{
  length, leb, Bool-cases, inl, inr, refl, ℕ, suc, ◌+◌, ◌-◌, ◌<◌, ◌≤◌, not, ◌&&◌, any, ◌≡◌, Bool,
  true, false, Option, none, some, List, [], ◌∷◌, is_some, if◌then◌else◌, arith,
}
use specifyr.Editor.Store.{
  ActiveSession, Commit, Store, failed, is_retryable, update_files, append_turn, commit_turn, send,
  succeed, fail, max_retries,
}
use specifyr.Editor.Saved.{
  World, Event, change_files, take_turn, start_save, begin_attempt, arrive, break, step, steps,
}

-- A request is under way.
abbrev pub is_sending : Store → Bool
is_sending s = elim s.commit [ none ↦ false | some c ↦ is_some c.sent ]

abbrev pub is_start : Event → Bool
is_start start_save = true
is_start _ = false

-- How many requests a history sends: the events that put a request under way.
unfoldable pub requests : List Event → World → ℕ
unfolding step
requests [] w = 0
requests (e ∷ es) w =
    let rest = requests es (step e w) in
    if not (is_sending w.store) && is_sending (step e w).store then suc rest else rest

-- The requests that the save under way may still send.
abbrev budget : Option Commit → ℕ
budget none = 0
budget (some c) = (suc max_retries - c.attempt) + (if is_some c.sent then 0 else 1)

abbrev IsWithin : Option Commit → Type 0
IsWithin none = Unit
IsWithin (some c) = c.attempt ≤ suc max_retries

step-budget :
    (e : Event) (w : World)
    → is_start e ≡ false
    → IsWithin w.store.commit
    → IsWithin (step e w).store.commit
      × (budget (step e w).store.commit
            + (if not (is_sending w.store) && is_sending (step e w).store then 1 else 0)
          ≤ budget w.store.commit)
unfolding step update_files append_turn send succeed fail
step-budget (change_files files) w n h = ground arith
step-budget (take_turn turn) w n h = ground arith
step-budget start_save w n h = ground arith
step-budget begin_attempt w n h = ground arith
step-budget (arrive updated_at) w n h = ground arith
step-budget (break status kept) w n h = ground arith

requests-budget :
    (es : List Event) (w : World)
    → any is_start es ≡ false
    → IsWithin w.store.commit
    → requests es w ≤ budget w.store.commit
unfolding requests
requests-budget [] w n h = ground arith
requests-budget (e ∷ es) w n h =
    let (within, spent) = step-budget e w (ground (arith, n)) h in
    ground (arith, spent, requests-budget es (step e w) (ground (arith, n)) within)

-- A save sends at most four requests: from the start of one, along every history in which no other
-- one starts, whatever is edited and whatever the errors are.
pub requests_at_most :
    (es : List Event) (w : World)
    → w.store.commit ≡ none
    → any is_start es ≡ false
    → requests es (step start_save w) ≤ suc max_retries
unfolding step commit_turn
requests_at_most es w idle_now no_other =
    let kept = requests-budget es (step start_save w) no_other (ground arith) in
    ground (arith, kept)

-- Requests that are sent and fail, each with its error and whether the body was stored all the same.
abbrev pub failures : List (Option ℕ × Bool) → List Event
failures [] = []
failures ((status, kept) ∷ fs) = begin_attempt ∷ break status kept ∷ failures fs

-- The save is over, as one that has failed.
abbrev IsGivenUp : Bool → Store → Type 0
IsGivenUp pending s = (s.commit ≡ none) × (s.save_state ≡ failed) × (s.pending_save ≡ pending)

failures-over :
    (fs : List (Option ℕ × Bool)) (pending : Bool) (w : World)
    → IsGivenUp pending w.store
    → IsGivenUp pending (steps (failures fs) w).store
unfolding steps step send fail
failures-over [] pending w h = h
failures-over ((status, kept) ∷ fs) pending w h =
    failures-over fs pending (step (break status kept) (step begin_attempt w)) (ground (arith, h))

failures-IsGivenUp :
    (fs : List (Option ℕ × Bool)) (pending : Bool) (w : World) (c : Commit)
    → w.store.commit ≡ some c
    → c.sent ≡ none
    → w.store.pending_save ≡ pending
    → c.attempt ≤ suc max_retries
    → suc max_retries < c.attempt + length fs
    → IsGivenUp pending (steps (failures fs) w).store
unfolding steps step send fail is_retryable
failures-IsGivenUp [] pending w c under_way waiting same within enough = ground arith
failures-IsGivenUp ((status, kept) ∷ fs) pending w c under_way waiting same within enough =
    let w' = step (break status kept) (step begin_attempt w) in
    elim (Bool-cases (is_retryable status && leb c.attempt max_retries)) [
      | inl again ↦
          failures-IsGivenUp fs pending w' (record c { attempt = suc c.attempt; sent = none })
            (ground (arith, again)) refl (ground (arith, again)) (ground (arith, again))
            (ground (arith, again))
      | inr last ↦ failures-over fs pending w' (ground (arith, last))
    ]

-- When its requests fail, whatever the errors are, a save of a session that is open is over behind
-- the fourth at the latest: it is shown as failed, and what was pending stays pending.
pub four_failures_end :
    (fs : List (Option ℕ × Bool)) (w : World) (a : ActiveSession)
    → w.store.session ≡ some a
    → w.store.commit ≡ none
    → suc max_retries ≤ length fs
    → let after = (steps (failures fs) (step start_save w)).store in
      (after.commit ≡ none)
      × (after.save_state ≡ failed)
      × (after.pending_save ≡ w.store.pending_save)
unfolding step commit_turn
four_failures_end fs w a open_one idle_now enough =
    let c : Commit = record {
      draft_id = a.draft_id;
      start_rev = w.store.rev;
      files = a.content.files;
      captured = none;
      attempt = 1;
      sent = none;
    } in
    failures-IsGivenUp fs w.store.pending_save (step start_save w) c (ground arith) refl
      (ground arith) (omega arith) (omega arith)
