-- ===== src/Editor/Tests.antt =====
-- One draft, its edits and saves: the theorems applied.
use specifyr.Prelude.{
  ℕ, Option, Bool, arith, ◌≡◌, ◌≤◌, refl, true, false, none, some, List, [], ◌∷◌, Text, codes, inr,
}
use specifyr.Editor.Store.{
  Content, ActiveSession, Store, idle, failed, update_files, open_draft, commit_turn, send, succeed,
}
use specifyr.Editor.Saved.{
  World, Event, change_files, take_turn, start_save, begin_attempt, arrive, break, steps, IsTracked,
  step, steps-IsTracked, foreign_answer_clears,
}
use specifyr.Editor.Attempts.{requests, requests_at_most, failures, four_failures_end}

abbrev blank : Content
blank = record { files = []; conversation = [] }

abbrev opened : ActiveSession
opened = record { draft_id = 1; content = blank; server_updated_at = 0 }

abbrev first : Store
first = record {
  session = some opened;
  save_state = idle;
  pending_save = false;
  rev = 0;
  commit = none;
}

abbrev world : World
world = record { store = first; server = blank }

abbrev text : List (Text × Text)
text = (codes "spec.md", codes "v1") ∷ []

-- An attempt is lost, a turn lands before the next one, and a second save brings all of it.
abbrev history : List Event
history =
    change_files text
    ∷ start_save
    ∷ begin_attempt
    ∷ break (some 503) true
    ∷ take_turn (codes "hello")
    ∷ begin_attempt
    ∷ arrive 8
    ∷ start_save
    ∷ begin_attempt
    ∷ arrive 9
    ∷ []

all_saved : (steps history world).store.pending_save ≡ false
unfolding steps
all_saved = refl

steps-IsTracked_example : IsTracked (steps history world)
steps-IsTracked_example = steps-IsTracked history world (inr refl, tt)

-- Every request is lost. The save sends four of them, and a begin behind the last sends nothing.
abbrev losses : List Event
losses =
    begin_attempt
    ∷ break none false
    ∷ begin_attempt
    ∷ break (some 503) true
    ∷ take_turn (codes "hello")
    ∷ begin_attempt
    ∷ begin_attempt
    ∷ break (some 429) false
    ∷ begin_attempt
    ∷ break none false
    ∷ begin_attempt
    ∷ []

four_requests : requests losses (step start_save world) ≡ 4
unfolding requests
four_requests = refl

given_up : (steps (start_save ∷ losses) world).store.save_state ≡ failed
unfolding steps
given_up = refl

requests_at_most_example : requests losses (step start_save world) ≤ 4
requests_at_most_example = requests_at_most losses world refl refl

-- Four requests that are lost.
abbrev errors : List (Option ℕ × Bool)
errors = (none, false) ∷ (some 503, true) ∷ (some 429, false) ∷ (none, false) ∷ []

four_failures_end_example :
    let after =
      (steps (failures errors) (step start_save (step (change_files text) world))).store in
    (after.commit ≡ none) × (after.save_state ≡ failed) × (after.pending_save ≡ true)
unfolding step
four_failures_end_example =
    four_failures_end errors (step (change_files text) world)
      (record opened { content = record blank { files = text } }) refl refl (omega arith)

abbrev edited : Store
edited = record first { rev = 1; pending_save = true }

foreign_answer_clears_example :
    let after = succeed 9 (update_files text (open_draft 2 blank 5 (send (commit_turn edited)))) in
    (after.pending_save ≡ false)
    × (after.session
        ≡ some (record {
          draft_id = 2;
          content = record blank { files = text };
          server_updated_at = 9;
        }))
foreign_answer_clears_example = foreign_answer_clears 2 5 9 blank text opened edited refl refl
