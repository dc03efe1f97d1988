-- ===== src/Credentials/Resolve/Isolation.antt =====
-- Whose credentials a request can get.
use specifyr.Prelude.{
  ℕ, ◌≡◌, refl, ◌⊎◌, inl, inr, true, Option, none, some, Text, arith, Option-cases,
}
use specifyr.Prelude.Result.{ok, Result-cases}
use specifyr.Credentials.Cipher.{Cipher}
use specifyr.Credentials.Rows.{Owner, owner_eq, Provider, LlmCredential, Db}
use specifyr.Credentials.Keys.{decrypted}
use specifyr.Credentials.Resolve.{
  ResolvedCredential, picked_row, resolved, opened_key, pick_enabled_credential,
  resolve_credential_for_request, personal, of_org, org_fallback,
}
use specifyr.Credentials.Resolve.Choice.{picked_row_sound}

owner_eq_sound : (a b : Owner) → owner_eq a b ≡ true → a ≡ b
owner_eq_sound a b e = ground arith

resolved-oauth :
    (cipher : Cipher) (c : LlmCredential) (o : Owner) (base_url : Option Text)
    → resolved cipher c ≡ ok (some (ResolvedCredential.oauth_claude o base_url))
    → c.owner ≡ o
unfolding resolved opened_key decrypted
resolved-oauth cipher c o base_url e = ground arith

pick-owner :
    (cipher : Cipher) (owner : Owner) (provider : Provider) (db : Db) (o : Owner)
    (base_url : Option Text)
    → pick_enabled_credential cipher owner provider db
      ≡ ok (some (ResolvedCredential.oauth_claude o base_url))
    → o ≡ owner
unfolding pick_enabled_credential
pick-owner cipher owner provider db o base_url e =
    elim (Option-cases (picked_row owner provider db.credentials)) [
      | inl nothing ↦ ground arith
      | inr (c, found) ↦
          let (candidate, _) = picked_row_sound owner provider db.credentials c found in
          ground
            (arith, resolved-oauth cipher c o base_url, owner_eq_sound c.owner owner (ground arith))
    ]

-- An OAuth credential that a request resolves to is the user's own or that of the org that owns the
-- project.
pub resolve_owner :
    (cipher : Cipher) (user_id : ℕ) (owner_org : Option ℕ) (provider : Provider) (db : Db)
    (o : Owner) (base_url : Option Text)
    → resolve_credential_for_request cipher user_id owner_org provider db
      ≡ ok (some (ResolvedCredential.oauth_claude o base_url))
    → (o ≡ personal user_id) ⊎ ((org_id : ℕ) × (owner_org ≡ some org_id) × (o ≡ of_org org_id))
unfolding resolve_credential_for_request org_fallback
resolve_owner cipher user_id none provider db o base_url e =
    inl (ground (arith, pick-owner cipher (personal user_id) provider db o base_url))
resolve_owner cipher user_id (some org_id) provider db o base_url e =
    elim (Result-cases (pick_enabled_credential cipher (personal user_id) provider db)) [
      | inl (_, thrown) ↦ ground arith
      | inr (none, nothing) ↦
          inr
            (org_id, refl, ground (arith, pick-owner cipher (of_org org_id) provider db o base_url))
      | inr (some c, hit) ↦
          inl (ground (arith, pick-owner cipher (personal user_id) provider db o base_url))
    ]
