-- ===== src/Editor/Store.antt =====
-- `useActiveSessionStore` of app/stores/active-session.ts with its saves as events: a save starts, an
-- attempt sends the body, and an answer comes back. Edits and openings may land in between.
use specifyr.Prelude.{
  ℕ, suc, Bool, true, false, ◌&&◌, ◌||◌, Option, none, some, List, [], ◌∷◌, ◌++◌, Text, ◌==◌, leb,
  ltb, if◌then◌else◌,
}

pub record Content : Type 0 where
  pub files : List (Text × Text)
  pub conversation : List Text

-- `ActiveSession`, where `draft_id` stands for the address of the draft.
pub record ActiveSession : Type 0 where
  pub draft_id : ℕ
  pub content : Content
  pub server_updated_at : ℕ

-- `retrying` leaves out the time of the next attempt, and `failed` the reason.
pub data SaveState : Type 0 where
  idle failed : SaveState
  saving retrying : ℕ → SaveState

-- A call of `commitTurn` that has not returned: what it has captured, its attempt, and the body of
-- the request under way. The session that it captured goes on being edited until another one takes
-- its place: `captured` is `none` until then, and what it was left with after.
pub record Commit : Type 0 where
  pub draft_id : ℕ
  pub start_rev : ℕ
  pub files : List (Text × Text)
  pub captured : Option (List Text)
  pub attempt : ℕ
  pub sent : Option Content

pub record Store : Type 0 where
  pub session : Option ActiveSession
  pub save_state : SaveState
  pub pending_save : Bool
  pub rev : ℕ
  pub commit : Option Commit

abbrev pub max_retries : ℕ
max_retries = 3

-- `isRetryable`, by the status of the error if it has one.
unfoldable pub is_retryable : Option ℕ → Bool
is_retryable none = true
is_retryable (some status) =
    if status == 408 || status == 429 then true else leb 500 status && ltb status 600

-- The session that a save has captured is left as it is.
abbrev pub leave : Option ActiveSession → Option Commit → Option Commit
leave none commit = commit
leave (some s) none = none
leave (some s) (some c) = some (record c {
  captured = elim c.captured [ none ↦ some s.content.conversation | some turns ↦ some turns ];
})

-- `openDraft`, with the answer of the server.
unfoldable pub open_draft : ℕ → Content → ℕ → Store → Store
open_draft draft_id content updated_at s = record {
  session =
      some (record { draft_id = draft_id; content = content; server_updated_at = updated_at });
  save_state = idle;
  pending_save = false;
  rev = 0;
  commit = leave s.session s.commit;
}

unfoldable pub close_session : Store → Store
close_session s = record {
  session = none;
  save_state = idle;
  pending_save = false;
  rev = 0;
  commit = leave s.session s.commit;
}

-- An edit of the session that is open, if one is.
abbrev pub edit : (Content → Content) → Store → Store
edit f s = elim s.session [
  | none ↦ s
  | some a ↦ record s {
    session = some (record a { content = f a.content });
    pending_save = true;
    rev = suc s.rev;
  }
]

unfoldable pub update_files : List (Text × Text) → Store → Store
update_files files s = edit (λ c. record c { files = files }) s

unfoldable pub append_turn : Text → Store → Store
append_turn turn s = edit (λ c. record c { conversation = c.conversation ++ turn ∷ [] }) s

-- `commitTurn` up to its first attempt.
unfoldable pub commit_turn : Store → Store
commit_turn s = elim s.session [
  | none ↦ s
  | some a ↦ record s {
    commit = some (record {
      draft_id = a.draft_id;
      start_rev = s.rev;
      files = a.content.files;
      captured = none;
      attempt = 1;
      sent = none;
    });
  }
]

-- The conversation that the body refers to, at the time it is serialised.
abbrev pub conversation_of : Commit → Store → List Text
conversation_of c s = elim c.captured [
  | some turns ↦ turns
  | none ↦ elim s.session [ none ↦ [] | some a ↦ a.content.conversation ]
]

-- An attempt begins, behind the wait before it. The loop waits for the answer to each request, so
-- that none is sent while another one is under way.
unfoldable pub send : Store → Store
send s = elim s.commit [
  | none ↦ s
  | some c ↦ elim c.sent [
    | some body ↦ s
    | none ↦ record s {
      save_state = saving c.attempt;
      commit = some (record c {
        sent = some (record { files = c.files; conversation = conversation_of c s });
      });
    }
  ]
]

-- The attempt succeeds.
unfoldable pub succeed : ℕ → Store → Store
succeed updated_at s = elim s.commit [
  | none ↦ s
  | some c ↦ elim c.sent [
    | none ↦ s
    | some body ↦ record s {
      session = elim s.session [
        | none ↦ none
        | some a ↦ some (record a { server_updated_at = updated_at })
      ];
      pending_save = if s.rev == c.start_rev then false else s.pending_save;
      save_state = idle;
      commit = none;
    }
  ]
]

-- The attempt fails, and the body may have been stored all the same.
unfoldable pub fail : Option ℕ → Store → Store
unfolding is_retryable
fail status s = elim s.commit [
  | none ↦ s
  | some c ↦ elim c.sent [
    | none ↦ s
    | some body ↦
        if is_retryable status && leb c.attempt max_retries
        then record s {
          save_state = retrying c.attempt;
          commit = some (record c { attempt = suc c.attempt; sent = none });
        }
        else record s { save_state = failed; commit = none }
  ]
]
