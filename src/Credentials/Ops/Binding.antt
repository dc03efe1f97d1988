-- ===== src/Credentials/Ops/Binding.antt =====
-- A session bound to a credential belongs to the owner of the credential.
use specifyr.Prelude.{
  ℕ, ◌≡◌, refl, Bool, true, false, Option, none, some, List, [], ◌∷◌, Text, all, any, if◌then◌else◌,
  ◌==◌, arith, Option-cases, inl, inr,
}
use specifyr.Database.{select_one, update, delete}
use specifyr.Credentials.Cipher.{Cipher}
use specifyr.Credentials.Rows.{Owner, owner_eq, LlmCredential, RunnerSession, Db, is_credential}
use specifyr.Credentials.Store.{
  ApiKeyPatch, OauthPayload, api_key_row, oauth_row, patched, marked_authorized, marked_expired,
  is_bound_to, unbind, insert_credential, create_api_key_credential, create_oauth_claude_credential,
  update_api_key_credential, mark_oauth_authorized, mark_oauth_expired, delete_credential,
}
use specifyr.Credentials.Sessions.{
  MintInput, mint_runner_session, is_unrevoked, stamp_revoked, revoke_runner_session, is_stale,
  prune_expired_runner_sessions,
}
use specifyr.Credentials.Ops.{
  Op, create_key, create_oauth, patch, authorize, expire, remove, mint, revoke, prune, committed,
  apply, apply_all,
}

-- The owner of the credential with the id.
abbrev pub owner_of : ℕ → List LlmCredential → Option Owner
owner_of id [] = none
owner_of id (c ∷ cs) = if c.id == id then some c.owner else owner_of id cs

abbrev owned_by : Owner → Option Owner → Bool
owned_by owner none = false
owned_by owner (some o) = owner_eq o owner

abbrev pub is_bound_well : List LlmCredential → RunnerSession → Bool
is_bound_well cs s = elim s.credential_id [
  | none ↦ true
  | some id ↦ owned_by s.owner (owner_of id cs)
]

abbrev pub all_bound : List LlmCredential → List RunnerSession → Bool
all_bound cs ss = all (is_bound_well cs) ss

all_bound-update :
    (cs : List LlmCredential) (p : RunnerSession → Bool) (now : ℕ) (ss : List RunnerSession)
    → all_bound cs (update p (stamp_revoked now) ss) ≡ all_bound cs ss
all_bound-update cs p now [] = refl
all_bound-update cs p now (s ∷ ss) = ground (arith, all_bound-update cs p now ss)

all_bound-delete :
    (cs : List LlmCredential) (p : RunnerSession → Bool) (ss : List RunnerSession)
    → all_bound cs ss ≡ true
    → all_bound cs (delete p ss) ≡ true
all_bound-delete cs p [] b = refl
all_bound-delete cs p (s ∷ ss) b = ground (arith, all_bound-delete cs p ss)

all_bound-insert :
    (c : LlmCredential) (cs : List LlmCredential) (ss : List RunnerSession)
    → owner_of c.id cs ≡ none
    → all_bound cs ss ≡ true
    → all_bound (c ∷ cs) ss ≡ true
all_bound-insert c cs [] n b = refl
all_bound-insert c cs (s ∷ ss) n b = elim (Option-cases s.credential_id) [
  | inl unbound ↦ ground (arith, all_bound-insert c cs ss n)
  | inr (id, bound) ↦ ground (arith, all_bound-insert c cs ss n)
]

owner_of-delete :
    (i id : ℕ) (cs : List LlmCredential)
    → owner_of i (delete (is_credential id) cs) ≡ (if i == id then none else owner_of i cs)
owner_of-delete i id [] = ground arith
owner_of-delete i id (c ∷ cs) = ground (arith, owner_of-delete i id cs)

all_bound-remove :
    (id : ℕ) (cs : List LlmCredential) (ss : List RunnerSession)
    → all_bound cs ss ≡ true
    → all_bound (delete (is_credential id) cs) (update (is_bound_to id) unbind ss) ≡ true
all_bound-remove id cs [] b = refl
all_bound-remove id cs (s ∷ ss) b = elim (Option-cases s.credential_id) [
  | inl unbound ↦ ground (arith, all_bound-remove id cs ss)
  | inr (i, bound) ↦ ground (arith, all_bound-remove id cs ss, owner_of-delete i id cs)
]

-- A change of a credential that keeps its id and its owner.
abbrev Keeps : (LlmCredential → LlmCredential) → Type 0
Keeps f = (c : LlmCredential) → ((f c).id ≡ c.id) × ((f c).owner ≡ c.owner)

owner_of-update :
    (f : LlmCredential → LlmCredential) (p : LlmCredential → Bool) (i : ℕ) (cs : List LlmCredential)
    → Keeps f
    → owner_of i (update p f cs) ≡ owner_of i cs
owner_of-update f p i [] k = refl
owner_of-update f p i (c ∷ cs) k = ground (arith, owner_of-update f p i cs k, (k c).0, (k c).1)

all_bound-Keeps :
    (f : LlmCredential → LlmCredential) (p : LlmCredential → Bool) (cs : List LlmCredential)
    (ss : List RunnerSession)
    → Keeps f
    → all_bound cs ss ≡ true
    → all_bound (update p f cs) ss ≡ true
all_bound-Keeps f p cs [] k b = refl
all_bound-Keeps f p cs (s ∷ ss) k b = elim (Option-cases s.credential_id) [
  | inl unbound ↦ ground (arith, all_bound-Keeps f p cs ss k)
  | inr (i, bound) ↦ ground (arith, all_bound-Keeps f p cs ss k, owner_of-update f p i cs k)
]

owner_of-fresh :
    (id : ℕ) (cs : List LlmCredential) → any (is_credential id) cs ≡ false → owner_of id cs ≡ none
owner_of-fresh id [] e = refl
owner_of-fresh id (c ∷ cs) e = ground (arith, owner_of-fresh id cs)

owner_of-select :
    (id : ℕ) (c : LlmCredential) (cs : List LlmCredential)
    → select_one (is_credential id) cs ≡ some c
    → owner_of id cs ≡ some c.owner
owner_of-select id c [] e = ground arith
owner_of-select id c (d ∷ cs) e = ground (arith, owner_of-select id c cs)

abbrev pub BoundOwners : Db → Type 0
BoundOwners db = all_bound db.credentials db.sessions ≡ true

insert-BoundOwners :
    (c : LlmCredential) (db : Db)
    → BoundOwners db
    → BoundOwners (committed db (insert_credential c db))
unfolding insert_credential
insert-BoundOwners c db b =
    ground
      (arith, owner_of-fresh c.id db.credentials, all_bound-insert c db.credentials db.sessions)

mint-BoundOwners :
    (token : Text) (now : ℕ) (input : MintInput) (db : Db)
    → BoundOwners db
    → BoundOwners (committed db (mint_runner_session token now input db))
unfolding mint_runner_session
mint-BoundOwners token now input db b = elim (Option-cases input.credential_id) [
  | inl unbound ↦ ground arith
  | inr (id, bound) ↦ elim (Option-cases (select_one (is_credential id) db.credentials)) [
    | inl missing ↦ ground arith
    | inr (c, found) ↦ ground (arith, owner_of-select id c db.credentials found)
  ]
]

module _ (cipher : Cipher) where
  patched-Keeps : (iv : Text) (now : ℕ) (p : ApiKeyPatch) → Keeps (patched cipher iv now p)
  patched-Keeps iv now p c = elim (Option-cases p.key) [
    | inl same ↦ (ground arith, ground arith)
    | inr (key, new) ↦ (ground arith, ground arith)
  ]

  authorized-Keeps :
      (iv : Text) (at now : ℕ) (payload : Option OauthPayload)
      → Keeps (marked_authorized cipher iv at now payload)
  authorized-Keeps iv at now none c = (refl, refl)
  authorized-Keeps iv at now (some p) c = (refl, refl)

  pub apply-BoundOwners : (op : Op) (db : Db) → BoundOwners db → BoundOwners (apply cipher op db)
  unfolding apply create_api_key_credential create_oauth_claude_credential update_api_key_credential
      mark_oauth_authorized mark_oauth_expired delete_credential revoke_runner_session
      prune_expired_runner_sessions
  apply-BoundOwners (create_key id iv now input) db b =
      insert-BoundOwners (api_key_row id now (cipher.encrypt iv input.key) input) db b
  apply-BoundOwners (create_oauth id now owner name) db b =
      insert-BoundOwners (oauth_row id now owner name) db b
  apply-BoundOwners (patch id iv now p) db b = ground (
    arith,
    all_bound-Keeps (patched cipher iv now p) (is_credential id) db.credentials db.sessions
        (patched-Keeps iv now p) b,
  )
  apply-BoundOwners (authorize id iv at now payload) db b = ground (
    arith,
    all_bound-Keeps (marked_authorized cipher iv at now payload) (is_credential id) db.credentials
        db.sessions (authorized-Keeps iv at now payload) b,
  )
  apply-BoundOwners (expire id now) db b = ground (
    arith,
    all_bound-Keeps (marked_expired now) (is_credential id) db.credentials db.sessions
        (λ c. (refl, refl)) b,
  )
  apply-BoundOwners (remove id) db b =
      ground (arith, all_bound-remove id db.credentials db.sessions b)
  apply-BoundOwners (mint token now input) db b = mint-BoundOwners token now input db b
  apply-BoundOwners (revoke t now) db b =
      ground (arith, all_bound-update db.credentials (is_unrevoked t) now db.sessions)
  apply-BoundOwners (prune grace now) db b =
      ground (arith, all_bound-delete db.credentials (is_stale grace now) db.sessions b)

  -- Along every history of operations on credentials and sessions, each session that is bound to a
  -- credential keeps belonging to the owner of that credential, which is in the table.
  pub apply_all-BoundOwners :
      (ops : List Op) (db : Db) → BoundOwners db → BoundOwners (apply_all cipher ops db)
  unfolding apply_all
  apply_all-BoundOwners [] db b = b
  apply_all-BoundOwners (op ∷ ops) db b =
      apply_all-BoundOwners ops (apply cipher op db) (apply-BoundOwners op db b)
