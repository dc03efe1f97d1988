-- ===== src/Credentials/Ops.antt =====
-- The operations on credentials and sessions as one type of requests, so that a history of the two
-- tables is a list of them. An operation that throws leaves the tables as they were.
pub mod Binding
pub mod Revoked
use specifyr.Prelude.{ℕ, ◌≡◌, ◌≢◌, Bool, Option, List, [], ◌∷◌, Text, text_eq, false}
use specifyr.Prelude.Result.{Result, ok, throw}
use specifyr.Credentials.Cipher.{Cipher}
use specifyr.Credentials.Rows.{Owner, Db}
use specifyr.Credentials.Store.{
  Error, ApiKeyInput, ApiKeyPatch, OauthPayload, create_api_key_credential,
  create_oauth_claude_credential, update_api_key_credential, mark_oauth_authorized,
  mark_oauth_expired, delete_credential,
}
use specifyr.Credentials.Sessions.{
  MintInput, mint_runner_session, revoke_runner_session, prune_expired_runner_sessions,
}

pub data Op : Type 0 where
  create_key : ℕ → Text → ℕ → ApiKeyInput → Op
  create_oauth : ℕ → ℕ → Owner → Text → Op
  patch : ℕ → Text → ℕ → ApiKeyPatch → Op
  authorize : ℕ → Text → ℕ → ℕ → Option OauthPayload → Op
  expire : ℕ → ℕ → Op
  remove : ℕ → Op
  mint : Text → ℕ → MintInput → Op
  revoke : Text → ℕ → Op
  prune : ℕ → ℕ → Op

abbrev pub committed : {A : Type 0} → Db → Result Error (A × Db) → Db
committed db (ok (_, db')) = db'
committed db (throw _) = db

module _ (cipher : Cipher) where
  unfoldable pub apply : Op → Db → Db
  apply (create_key id iv now input) db =
      committed db (create_api_key_credential cipher id iv now input db)
  apply (create_oauth id now owner name) db =
      committed db (create_oauth_claude_credential id now owner name db)
  apply (patch id iv now p) db = committed db (update_api_key_credential cipher id iv now p db)
  apply (authorize id iv at now payload) db =
      (mark_oauth_authorized cipher id iv at now payload db).1
  apply (expire id now) db = (mark_oauth_expired id now db).1
  apply (remove id) db = (delete_credential id db).1
  apply (mint token now input) db = committed db (mint_runner_session token now input db)
  apply (revoke token now) db = revoke_runner_session token now db
  apply (prune grace now) db = (prune_expired_runner_sessions grace now db).1

  unfoldable pub apply_all : List Op → Db → Db
  unfolding apply
  apply_all [] db = db
  apply_all (op ∷ ops) db = apply_all ops (apply op db)

-- No operation of the history mints the token again: tokens are 32 random bytes.
abbrev pub NeverMints : Text → List Op → Type 0
NeverMints token [] = Unit
NeverMints token (mint t _ _ ∷ ops) = (text_eq t token ≡ false) × NeverMints token ops
NeverMints token (create_key _ _ _ _ ∷ ops) = NeverMints token ops
NeverMints token (create_oauth _ _ _ _ ∷ ops) = NeverMints token ops
NeverMints token (patch _ _ _ _ ∷ ops) = NeverMints token ops
NeverMints token (authorize _ _ _ _ _ ∷ ops) = NeverMints token ops
NeverMints token (expire _ _ ∷ ops) = NeverMints token ops
NeverMints token (remove _ ∷ ops) = NeverMints token ops
NeverMints token (revoke _ _ ∷ ops) = NeverMints token ops
NeverMints token (prune _ _ ∷ ops) = NeverMints token ops
