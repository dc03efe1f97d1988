-- ===== src/Credentials/Resolve.antt =====
-- `pickEnabledCredential`, `resolveCredentialForUser` and `resolveCredentialForRequest` of
-- server/shared/utils/llm-credentials-store.ts.
pub mod Choice
pub mod Created
pub mod Isolation
use specifyr.Prelude.{
  ℕ, Bool, true, false, ◌&&◌, Option, none, some, List, [], ◌∷◌, Text, leb, is_some, if◌then◌else◌,
}
use specifyr.Prelude.Result.{Result, ok, throw, ◌>>=◌}
use specifyr.Database.{select}
use specifyr.Credentials.Cipher.{EncryptedEntry, Cipher}
use specifyr.Credentials.Rows.{
  Owner, owner_eq, OwnerKind, user, org, Provider, provider_eq, Mode, OauthStatus, authorized,
  LlmCredential, Db,
}
use specifyr.Credentials.Store.{Error}
use specifyr.Credentials.Keys.{stored_key, decrypted}

pub data ResolvedCredential : Type 0 where
  api_key : Text → Option Text → ResolvedCredential
  oauth_claude : Owner → Option Text → ResolvedCredential

-- The `where` of the query.
abbrev pub is_enabled_for : Owner → Provider → LlmCredential → Bool
is_enabled_for owner provider c =
    owner_eq c.owner owner && (provider_eq c.provider provider && c.enabled)

abbrev pub is_authorized : Option OauthStatus → Bool
is_authorized (some authorized) = true
is_authorized _ = false

-- The filter on the rows of the query.
abbrev pub is_usable : LlmCredential → Bool
is_usable c = elim c.mode [
  | Mode.api_key ↦ is_some (stored_key c)
  | Mode.oauth_claude ↦ is_authorized c.oauth_status
]

-- `usable.sort((a, b) => b.updatedAt - a.updatedAt)`, a stable sort.
pub insert_latest : LlmCredential → List LlmCredential → List LlmCredential
insert_latest x [] = x ∷ []
insert_latest x (y ∷ ys) =
    let rest = insert_latest x ys in if leb y.updated_at x.updated_at then x ∷ y ∷ ys else y ∷ rest

pub sort_latest : List LlmCredential → List LlmCredential
unfolding insert_latest
sort_latest [] = []
sort_latest (x ∷ xs) = insert_latest x (sort_latest xs)

abbrev pub head : List LlmCredential → Option LlmCredential
head [] = none
head (c ∷ _) = some c

-- The row that is picked.
unfoldable pub picked_row : Owner → Provider → List LlmCredential → Option LlmCredential
unfolding sort_latest insert_latest
picked_row owner provider rows =
    head (sort_latest (select is_usable (select (is_enabled_for owner provider) rows)))

pub opened_key : Cipher → LlmCredential → Result Error (Option ResolvedCredential)
unfolding decrypted
opened_key cipher c = elim (stored_key c) [
  | none ↦ ok none
  | some e ↦ decrypted cipher e >>= λ key. ok (some (ResolvedCredential.api_key key c.base_url))
]

pub resolved : Cipher → LlmCredential → Result Error (Option ResolvedCredential)
unfolding opened_key
resolved cipher c = elim c.mode [
  | Mode.api_key ↦ opened_key cipher c
  | Mode.oauth_claude ↦ ok (some (ResolvedCredential.oauth_claude c.owner c.base_url))
]

unfoldable pub pick_enabled_credential :
    Cipher → Owner → Provider → Db → Result Error (Option ResolvedCredential)
unfolding picked_row resolved
pick_enabled_credential cipher owner provider db =
    if db.is_configured
    then elim (picked_row owner provider db.credentials) [
      | none ↦ ok none
      | some c ↦ resolved cipher c
    ]
    else ok none

abbrev pub personal : ℕ → Owner
personal user_id = record { kind = user; id = user_id }

abbrev pub of_org : ℕ → Owner
of_org org_id = record { kind = org; id = org_id }

abbrev only_key : Option ResolvedCredential → Option (Text × Option Text)
only_key (some (ResolvedCredential.api_key key base_url)) = some (key, base_url)
only_key _ = none

unfoldable pub resolve_credential_for_user :
    Cipher → ℕ → Provider → Db → Result Error (Option (Text × Option Text))
unfolding pick_enabled_credential
resolve_credential_for_user cipher user_id provider db = do
  hit ← pick_enabled_credential cipher (personal user_id) provider db
  ok (only_key hit)

-- The fallback to the org that owns the project.
pub org_fallback : Cipher → Option ℕ → Provider → Db → Result Error (Option ResolvedCredential)
unfolding pick_enabled_credential
org_fallback cipher none provider db = ok none
org_fallback cipher (some org_id) provider db =
    pick_enabled_credential cipher (of_org org_id) provider db

unfoldable pub resolve_credential_for_request :
    Cipher → ℕ → Option ℕ → Provider → Db → Result Error (Option ResolvedCredential)
unfolding pick_enabled_credential org_fallback
resolve_credential_for_request cipher user_id owner_org provider db = do
  own ← pick_enabled_credential cipher (personal user_id) provider db
  elim own [ some c ↦ ok (some c) | none ↦ org_fallback cipher owner_org provider db ]
