-- ===== src/Accounts/Settings.antt =====
-- server/shared/utils/platform-settings.ts, and the writes of
-- server/admin/api/admin/settings.patch.ts. `lower` is `toLowerCase` of JavaScript.
use specifyr.Prelude.{
  ℕ, Bool, Option, none, some, List, [], ◌∷◌, map, Text, text_eq, any, if◌then◌else◌,
}
use specifyr.Prelude.Result.{Result, ok, throw, ◌>>=◌}
use specifyr.Database.{select, select_one, upsert}
use specifyr.Orgs.Slug.{trim}
use specifyr.Accounts.Rows.{
  Policy, SettingKey, registration_policy, registration_allowed_domains, platform_admin_emails,
  key_eq, Value, policy, texts, PlatformSetting, Db, has_key,
}
use specifyr.Accounts.Admin.{Denial, not_authenticated, require_platform_admin}

-- `denied` is the refusal of `requirePlatformAdmin`.
pub data Error : Type 0 where
  db_not_configured : Error
  denied : Denial → Error

unfoldable pub get_setting : SettingKey → Value → Db → Value
get_setting key default db =
    if db.is_configured
    then elim (select_one (has_key key) db.settings) [ none ↦ default | some row ↦ row.value ]
    else default

abbrev is_wanted : List SettingKey → PlatformSetting → Bool
is_wanted keys s = any (key_eq s.key) keys

unfoldable pub get_settings : List SettingKey → Db → List (SettingKey × Value)
get_settings keys db =
    if db.is_configured
    then map (λ s. (s.key, s.value)) (select (is_wanted keys) db.settings)
    else []

abbrev pub set_value : Value → ℕ → ℕ → PlatformSetting → PlatformSetting
set_value value user_id now s = record s {
  value = value;
  updated_by_user_id = some user_id;
  updated_at = now;
}

abbrev pub new_setting : SettingKey → Value → ℕ → ℕ → PlatformSetting
new_setting key value user_id now = record {
  key = key;
  value = value;
  updated_at = now;
  updated_by_user_id = some user_id;
}

unfoldable pub set_setting : SettingKey → Value → ℕ → ℕ → Db → Result Error Db
set_setting key value user_id now db =
    if db.is_configured
    then ok (record db {
      settings =
          upsert (has_key key) (set_value value user_id now) (new_setting key value user_id now)
            db.settings;
    })
    else throw db_not_configured

pub record SettingsBody : Type 0 where
  pub policy : Option Policy
  pub allowed_domains : Option (List Text)
  pub admin_emails : Option (List Text)

-- `.filter(Boolean)`
abbrev pub non_empty : List Text → List Text
non_empty [] = []
non_empty ([] ∷ ts) = non_empty ts
non_empty ((c ∷ t) ∷ ts) = (c ∷ t) ∷ non_empty ts

-- `Array.from(new Set(…))`: the first of equal texts stays.
pub dedupe : List Text → List Text → List Text
dedupe seen [] = []
dedupe seen (t ∷ ts) =
    let rest = dedupe seen ts in
    let more = dedupe (t ∷ seen) ts in if any (text_eq t) seen then rest else t ∷ more

-- A field that is there is written.
abbrev pub when_given {ℓ} :
    {A : Type ℓ} → Option A → (A → Db → Result Error Db) → Db → Result Error Db
when_given none write db = ok db
when_given (some a) write db = write a db

-- The writes behind `requirePlatformAdmin`, each key on its own and in the order of the code. The
-- schema of the body has trimmed the texts before.
unfoldable pub write_body : (Text → Text) → ℕ → ℕ → SettingsBody → Db → Result Error Db
unfolding set_setting dedupe
write_body lower user_id now body db = do
  db₁ ← when_given body.policy (λ p. set_setting registration_policy (policy p) user_id now) db
  db₂ ←
      when_given body.allowed_domains
        (λ ds.
          set_setting registration_allowed_domains
            (texts (non_empty (map (λ d. lower (trim d)) ds))) user_id now)
        db₁
  when_given body.admin_emails
      (λ es.
        set_setting platform_admin_emails
          (texts (dedupe [] (non_empty (map (λ e. lower (trim (trim e))) es)))) user_id now)
      db₂

unfoldable pub patch_settings : (Text → Text) → Option ℕ → ℕ → SettingsBody → Db → Result Error Db
unfolding write_body
patch_settings lower none now body db = throw (denied not_authenticated)
patch_settings lower (some user_id) now body db = elim (require_platform_admin (some user_id) db) [
  | some why ↦ throw (denied why)
  | none ↦ write_body lower user_id now body db
]
