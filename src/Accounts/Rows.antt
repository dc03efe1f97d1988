-- ===== src/Accounts/Rows.antt =====
-- The tables `users` and `platform_settings` of server/shared/database/schema.ts. Of the orgs only
-- the owners are read here.
use specifyr.Prelude.{ℕ, Bool, true, false, Option, List, Text, text_eq, ◌==◌}

pub record User : Type 0 where
  pub id : ℕ
  pub email : Text
  pub display_name : Option Text
  pub is_platform_admin : Bool
  pub blocked_at : Option ℕ
  pub preferred_locale : Option Text
  pub created_at : ℕ
  pub updated_at : ℕ

-- `RegistrationPolicy`
pub data Policy : Type 0 where
  open_to_all domain closed : Policy

pub data SettingKey : Type 0 where
  registration_policy registration_allowed_domains platform_admin_emails : SettingKey

abbrev pub key_eq : SettingKey → SettingKey → Bool
key_eq registration_policy registration_policy = true
key_eq registration_allowed_domains registration_allowed_domains = true
key_eq platform_admin_emails platform_admin_emails = true
key_eq _ _ = false

-- The JSON that the only writer stores: a policy, or a list of strings.
pub data Value : Type 0 where
  policy : Policy → Value
  texts : List Text → Value

pub record PlatformSetting : Type 0 where
  pub key : SettingKey
  pub value : Value
  pub updated_at : ℕ
  pub updated_by_user_id : Option ℕ

pub record Db : Type 0 where
  pub is_configured : Bool
  pub users : List User
  pub settings : List PlatformSetting
  pub org_owners : List ℕ

-- `eq(users.email, email)`
abbrev pub has_email : Text → User → Bool
has_email email u = text_eq u.email email

-- `eq(users.id, id)`
abbrev pub has_id : ℕ → User → Bool
has_id id u = u.id == id

abbrev pub has_key : SettingKey → PlatformSetting → Bool
has_key key s = key_eq s.key key
