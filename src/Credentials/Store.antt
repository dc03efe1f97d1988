-- ===== src/Credentials/Store.antt =====
-- The credential table: `listCredentialsFor`, `createApiKeyCredential`, `updateApiKeyCredential`,
-- `createOAuthClaudeCredential`, `markOAuthAuthorized`, `markOAuthExpired` and `deleteCredential`.
-- The random id and iv and the time are arguments.
use specifyr.Prelude.{
  ℕ, Bool, true, false, not, ◌&&◌, Option, none, some, List, [], ◌∷◌, map, Text, ◌==◌, any,
  if◌then◌else◌,
}
use specifyr.Prelude.Result.{Result, ok, ◌>>◌, require}
use specifyr.Database.{select, select_one, update, delete}
use specifyr.Credentials.Cipher.{EncryptedEntry, Cipher}
use specifyr.Credentials.Rows.{
  Owner, owner_eq, Provider, anthropic, Mode, api_key, oauth_claude, OauthStatus, pending,
  authorized, expired, LlmCredential, RunnerSession, Db, is_credential, same_name, is_present,
}

pub data Error : Type 0 where
  db_not_configured unique_violation credential_not_found wrong_owner decryption_failed : Error

pub record CredentialSummary : Type 0 where
  pub id : ℕ
  pub owner : Owner
  pub provider : Provider
  pub mode : Mode
  pub display_name : Text
  pub has_key : Bool
  pub base_url : Option Text
  pub enabled : Bool
  pub oauth_status : Option OauthStatus
  pub created_at : ℕ
  pub updated_at : ℕ

abbrev pub is_api_key : Mode → Bool
is_api_key api_key = true
is_api_key oauth_claude = false

unfoldable pub summarize : LlmCredential → CredentialSummary
summarize row = record {
  id = row.id;
  owner = row.owner;
  provider = row.provider;
  mode = row.mode;
  display_name = row.display_name;
  has_key = is_api_key row.mode && is_present row.api_key_data;
  base_url = row.base_url;
  enabled = row.enabled;
  oauth_status = row.oauth_status;
  created_at = row.created_at;
  updated_at = row.updated_at;
}

unfoldable pub list_credentials_for : Owner → Db → List CredentialSummary
unfolding summarize
list_credentials_for owner db =
    if db.is_configured
    then map summarize (select (λ c. owner_eq c.owner owner) db.credentials)
    else []

pub record ApiKeyInput : Type 0 where
  pub owner : Owner
  pub provider : Provider
  pub display_name : Text
  pub key : Text
  pub base_url : Option Text

abbrev pub api_key_row : ℕ → ℕ → EncryptedEntry → ApiKeyInput → LlmCredential
api_key_row id now enc input = record {
  id = id;
  owner = input.owner;
  provider = input.provider;
  mode = api_key;
  display_name = input.display_name;
  api_key_iv = some enc.iv;
  api_key_tag = some enc.tag;
  api_key_data = some enc.payload;
  oauth_status = none;
  oauth_authorized_at = none;
  oauth_credentials_iv = none;
  oauth_credentials_tag = none;
  oauth_credentials_data = none;
  oauth_expires_at = none;
  base_url = input.base_url;
  enabled = true;
  created_at = now;
  updated_at = now;
}

abbrev pub oauth_row : ℕ → ℕ → Owner → Text → LlmCredential
oauth_row id now owner display_name = record {
  id = id;
  owner = owner;
  provider = anthropic;
  mode = oauth_claude;
  display_name = display_name;
  api_key_iv = none;
  api_key_tag = none;
  api_key_data = none;
  oauth_status = some pending;
  oauth_authorized_at = none;
  oauth_credentials_iv = none;
  oauth_credentials_tag = none;
  oauth_credentials_data = none;
  oauth_expires_at = none;
  base_url = none;
  enabled = true;
  created_at = now;
  updated_at = now;
}

-- An insert, which fails if the id or the name of the owner's credential is taken.
unfoldable pub insert_credential : LlmCredential → Db → Result Error (CredentialSummary × Db)
unfolding summarize
insert_credential row db = do
  require db.is_configured db_not_configured
  require (not (any (is_credential row.id) db.credentials)) unique_violation
  require (not (any (same_name row) db.credentials)) unique_violation
  ok (summarize row, record db { credentials = row ∷ db.credentials })

unfoldable pub create_api_key_credential :
    Cipher → ℕ → Text → ℕ → ApiKeyInput → Db → Result Error (CredentialSummary × Db)
unfolding insert_credential
create_api_key_credential cipher id iv now input db =
    insert_credential (api_key_row id now (cipher.encrypt iv input.key) input) db

unfoldable pub create_oauth_claude_credential :
    ℕ → ℕ → Owner → Text → Db → Result Error (CredentialSummary × Db)
unfolding insert_credential
create_oauth_claude_credential id now owner display_name db =
    insert_credential (oauth_row id now owner display_name) db

pub record ApiKeyPatch : Type 0 where
  pub key : Option Text
  pub display_name : Option Text
  pub base_url : Option (Option Text)
  pub enabled : Option Bool

abbrev pub or_old {ℓ} : {A : Type ℓ} → Option A → A → A
or_old none old = old
or_old (some new) old = new

abbrev pub set_key : Cipher → Text → Option Text → LlmCredential → LlmCredential
set_key cipher iv none c = c
set_key cipher iv (some key) c =
    let enc = cipher.encrypt iv key in
    record c {
      api_key_iv = some enc.iv;
      api_key_tag = some enc.tag;
      api_key_data = some enc.payload;
    }

abbrev pub patched : Cipher → Text → ℕ → ApiKeyPatch → LlmCredential → LlmCredential
patched cipher iv now patch c = set_key cipher iv patch.key (record c {
  display_name = or_old patch.display_name c.display_name;
  base_url = or_old patch.base_url c.base_url;
  enabled = or_old patch.enabled c.enabled;
  updated_at = now;
})

abbrev pub summary_of : Option LlmCredential → Option CredentialSummary
summary_of none = none
summary_of (some row) = some (summarize row)

-- `update(llmCredentials).set(f).where(eq(llmCredentials.id, id)).returning()`
pub update_returning : ℕ → (LlmCredential → LlmCredential) → Db → Option CredentialSummary × Db
unfolding summarize
update_returning id f db =
    if db.is_configured
    then (let rows = update (is_credential id) f db.credentials in
        (summary_of (select_one (is_credential id) rows), record db { credentials = rows }))
    else (none, db)

-- Another credential of the owner has the name already.
abbrev pub is_name_taken : ℕ → LlmCredential → List LlmCredential → Bool
is_name_taken id row rows = any (λ c. not (c.id == id) && same_name row c) rows

unfoldable pub update_api_key_credential :
    Cipher → ℕ → Text → ℕ → ApiKeyPatch → Db → Result Error (Option CredentialSummary × Db)
unfolding summarize
update_api_key_credential cipher id iv now patch db =
    if db.is_configured
    then (let rows = update (is_credential id) (patched cipher iv now patch) db.credentials in
        elim (select_one (is_credential id) rows) [
          | none ↦ ok (none, db)
          | some row ↦ do
            require (not (is_name_taken id row rows)) unique_violation
            ok (some (summarize row), record db { credentials = rows })
        ])
    else ok (none, db)

pub record OauthPayload : Type 0 where
  pub raw : Text
  pub expires_at : Option ℕ

abbrev pub set_payload : Cipher → Text → Option OauthPayload → LlmCredential → LlmCredential
set_payload cipher iv none c = c
set_payload cipher iv (some p) c =
    let enc = cipher.encrypt iv p.raw in
    record c {
      oauth_credentials_iv = some enc.iv;
      oauth_credentials_tag = some enc.tag;
      oauth_credentials_data = some enc.payload;
      oauth_expires_at = p.expires_at;
    }

abbrev pub marked_authorized :
    Cipher → Text → ℕ → ℕ → Option OauthPayload → LlmCredential → LlmCredential
marked_authorized cipher iv authorized_at now payload c = set_payload cipher iv payload (record c {
  oauth_status = some authorized;
  oauth_authorized_at = some authorized_at;
  updated_at = now;
})

abbrev pub marked_expired : ℕ → LlmCredential → LlmCredential
marked_expired now c = record c { oauth_status = some expired; updated_at = now }

unfoldable pub mark_oauth_authorized :
    Cipher → ℕ → Text → ℕ → ℕ → Option OauthPayload → Db → Option CredentialSummary × Db
unfolding update_returning
mark_oauth_authorized cipher id iv authorized_at now payload db =
    update_returning id (marked_authorized cipher iv authorized_at now payload) db

unfoldable pub mark_oauth_expired : ℕ → ℕ → Db → Option CredentialSummary × Db
unfolding update_returning
mark_oauth_expired id now db = update_returning id (marked_expired now) db

-- The foreign key of the sessions has `onDelete: "set null"`.
abbrev pub is_bound_to : ℕ → RunnerSession → Bool
is_bound_to id s = elim s.credential_id [ none ↦ false | some c ↦ c == id ]

abbrev pub unbind : RunnerSession → RunnerSession
unbind s = record s { credential_id = none }

unfoldable pub delete_credential : ℕ → Db → Bool × Db
delete_credential id db =
    if db.is_configured
    then (
      any (is_credential id) db.credentials,
      record db {
        credentials = delete (is_credential id) db.credentials;
        sessions = update (is_bound_to id) unbind db.sessions;
      },
    )
    else (false, db)
