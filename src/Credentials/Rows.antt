-- ===== src/Credentials/Rows.antt =====
-- The tables `llm_credentials` and `runner_sessions` of server/shared/database/schema.ts, and the
-- tests of the stores' `where` clauses.
use specifyr.Prelude.{
  ℕ, Bool, true, false, ◌&&◌, Option, none, some, List, [], ◌∷◌, Text, text_eq, ◌==◌,
}

pub data OwnerKind : Type 0 where
  user org : OwnerKind

abbrev pub kind_eq : OwnerKind → OwnerKind → Bool
kind_eq user user = true
kind_eq org org = true
kind_eq _ _ = false

-- `SessionOwner`, and the columns owner_kind and owner_id
pub record Owner : Type 0 where
  pub kind : OwnerKind
  pub id : ℕ

abbrev pub owner_eq : Owner → Owner → Bool
owner_eq a b = kind_eq a.kind b.kind && a.id == b.id

pub data Provider : Type 0 where
  anthropic openai google openrouter : Provider

abbrev pub provider_eq : Provider → Provider → Bool
provider_eq anthropic anthropic = true
provider_eq openai openai = true
provider_eq google google = true
provider_eq openrouter openrouter = true
provider_eq _ _ = false

pub data Mode : Type 0 where
  api_key oauth_claude : Mode

pub data OauthStatus : Type 0 where
  pending authorized expired : OauthStatus

pub record LlmCredential : Type 0 where
  pub id : ℕ
  pub owner : Owner
  pub provider : Provider
  pub mode : Mode
  pub display_name : Text
  pub api_key_iv : Option Text
  pub api_key_tag : Option Text
  pub api_key_data : Option Text
  pub oauth_status : Option OauthStatus
  pub oauth_authorized_at : Option ℕ
  pub oauth_credentials_iv : Option Text
  pub oauth_credentials_tag : Option Text
  pub oauth_credentials_data : Option Text
  pub oauth_expires_at : Option ℕ
  pub base_url : Option Text
  pub enabled : Bool
  pub created_at : ℕ
  pub updated_at : ℕ

pub record RunnerSession : Type 0 where
  pub token : Text
  pub user_id : ℕ
  pub owner : Owner
  pub credential_id : Option ℕ
  pub created_at : ℕ
  pub expires_at : ℕ
  pub revoked_at : Option ℕ

pub record Db : Type 0 where
  pub is_configured : Bool
  pub credentials : List LlmCredential
  pub sessions : List RunnerSession

abbrev pub is_credential : ℕ → LlmCredential → Bool
is_credential id c = c.id == id

abbrev pub is_owned : ℕ → Owner → LlmCredential → Bool
is_owned id owner c = c.id == id && owner_eq c.owner owner

-- The unique key llm_credentials_owner_provider_name_uq.
abbrev pub same_name : LlmCredential → LlmCredential → Bool
same_name c d =
    owner_eq c.owner d.owner
    && (provider_eq c.provider d.provider && text_eq c.display_name d.display_name)

abbrev pub is_token : Text → RunnerSession → Bool
is_token token s = text_eq s.token token

-- `!!text` at a column that may be null: the empty text is false too.
abbrev pub is_present : Option Text → Bool
is_present none = false
is_present (some []) = false
is_present (some (_ ∷ _)) = true
