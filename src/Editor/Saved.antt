-- ===== src/Editor/Saved.antt =====
-- Edits and saves of one draft that is open, against what the server holds of it.
use specifyr.Prelude.{
  ℕ, ◌<◌, ◌≡◌, ◌⊎◌, Bool, true, false, Option, none, some, List, [], ◌∷◌, Text, is_some,
  if◌then◌else◌, arith,
}
use specifyr.Editor.Store.{
  Content, ActiveSession, Commit, Store, update_files, append_turn, open_draft, commit_turn, send,
  succeed, fail,
}

-- The store, and what the server holds of the draft.
pub record World : Type 0 where
  pub store : Store
  pub server : Content

pub data Event : Type 0 where
  change_files : List (Text × Text) → Event
  take_turn : Text → Event
  start_save begin_attempt : Event
  -- the server stores the body and answers
  arrive : ℕ → Event
  -- an error, where the body may have been stored
  break : Option ℕ → Bool → Event

-- The body of the attempt under way, or what the server has.
unfoldable pub stored : World → Content
stored w = elim w.store.commit [
  | none ↦ w.server
  | some c ↦ elim c.sent [ none ↦ w.server | some body ↦ body ]
]

-- One save at a time: none starts while another one is under way.
unfoldable pub step : Event → World → World
unfolding update_files append_turn commit_turn send succeed fail stored
step (change_files files) w = record w { store = update_files files w.store }
step (take_turn turn) w = record w { store = append_turn turn w.store }
step start_save w = if is_some w.store.commit then w else record w { store = commit_turn w.store }
step begin_attempt w = record w { store = send w.store }
step (arrive updated_at) w = record { store = succeed updated_at w.store; server = stored w }
step (break status kept) w = record {
  store = fail status w.store;
  server = if kept then stored w else w.server;
}

unfoldable pub steps : List Event → World → World
unfolding step
steps [] w = w
steps (e ∷ es) w = steps es (step e w)

abbrev BodyIs : Content → Option Content → Type 0
BodyIs content none = Unit
BodyIs content (some body) = body ≡ content

-- A save that is under way was overtaken by an edit, which is pending, or sends what is there.
abbrev IsFollowed : ℕ → Bool → Content → Option Commit → Type 0
IsFollowed rev pending content none = Unit
IsFollowed rev pending content (some c) =
    (c.captured ≡ none)
    × (((c.start_rev < rev) × (pending ≡ true))
        ⊎ ((c.start_rev ≡ rev) × (c.files ≡ content.files) × BodyIs content c.sent))

abbrev pub IsTracked : World → Type 0
IsTracked w = elim w.store.session [
  | none ↦ Unit
  | some a ↦
      ((w.store.pending_save ≡ true) ⊎ (w.server ≡ a.content))
      × IsFollowed w.store.rev w.store.pending_save a.content w.store.commit
]

step-IsTracked : (e : Event) (w : World) → IsTracked w → IsTracked (step e w)
unfolding step update_files append_turn commit_turn send succeed fail stored
step-IsTracked (change_files files) w h = ground arith
step-IsTracked (take_turn turn) w h = ground arith
step-IsTracked start_save w h = ground arith
step-IsTracked begin_attempt w h = ground arith
step-IsTracked (arrive updated_at) w h = ground arith
step-IsTracked (break status kept) w h = ground arith

-- Along every history of edits and saves of one draft, with one save at a time: when nothing is
-- marked as pending, the server holds the files and the conversation that the client shows,
-- whichever attempts were lost and whatever landed in between.
pub steps-IsTracked : (es : List Event) (w : World) → IsTracked w → IsTracked (steps es w)
unfolding steps
steps-IsTracked [] w h = h
steps-IsTracked (e ∷ es) w h = steps-IsTracked es (step e w) (step-IsTracked e w h)

-- Let a draft be saved after its first edit, and another draft be opened and edited once before the
-- answer is there. The answer marks the edit of the other draft as saved, though it was never sent.
pub foreign_answer_clears :
    (draft_id opened_at answered_at : ℕ) (content : Content) (files : List (Text × Text))
    (a : ActiveSession) (s : Store)
    → s.session ≡ some a
    → s.rev ≡ 1
    → let after =
        succeed answered_at
          (update_files files (open_draft draft_id content opened_at (send (commit_turn s)))) in
      (after.pending_save ≡ false)
      × (after.session
          ≡ some (record {
            draft_id = draft_id;
            content = record content { files = files };
            server_updated_at = answered_at;
          }))
unfolding update_files commit_turn send succeed open_draft
foreign_answer_clears draft_id opened_at answered_at content files a s opened first = ground arith
