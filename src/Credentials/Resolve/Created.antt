-- ===== src/Credentials/Resolve/Created.antt =====
-- A key that has just been stored is the one that a request gets.
use specifyr.Prelude.{ℕ, ◌≡◌, ◌≢◌, true, Option, some, [], ◌∷◌, Text, all, ltb, arith}
use specifyr.Prelude.Result.{ok}
use specifyr.Credentials.Cipher.{Cipher, CipherLaws}
use specifyr.Credentials.Rows.{Db}
use specifyr.Credentials.Store.{
  CredentialSummary, ApiKeyInput, api_key_row, insert_credential, create_api_key_credential,
}
use specifyr.Credentials.Keys.{decrypted}
use specifyr.Credentials.Resolve.{
  ResolvedCredential, resolved, opened_key, resolve_credential_for_request, personal,
}
use specifyr.Credentials.Resolve.Choice.{
  is_candidate, latest, picked_row-latest, latest-first, stored_key-api_key_row,
}

opened_key-created :
    (cipher : Cipher) (id now : ℕ) (iv : Text) (input : ApiKeyInput)
    → CipherLaws cipher
    → input.key ≢ []
    → opened_key cipher (api_key_row id now (cipher.encrypt iv input.key) input)
      ≡ ok (some (ResolvedCredential.api_key input.key input.base_url))
unfolding opened_key decrypted
opened_key-created cipher id now iv input laws n =
    ground (
      arith,
      stored_key-api_key_row cipher id now iv input laws n,
      laws.decrypt-encrypt iv input.key,
    )

-- After `createApiKeyCredential` for a user, with a key that is not empty and at a time after the
-- last change of every credential, each request of the user for that provider resolves to the key
-- in plain text and its base URL, whichever org owns the project.
pub created_key_resolves :
    (cipher : Cipher) (id now : ℕ) (iv : Text) (input : ApiKeyInput) (user_id : ℕ)
    (owner_org : Option ℕ) (s : CredentialSummary) (db db' : Db)
    → CipherLaws cipher
    → input.key ≢ []
    → input.owner ≡ personal user_id
    → all (λ c. ltb c.updated_at now) db.credentials ≡ true
    → create_api_key_credential cipher id iv now input db ≡ ok (s, db')
    → resolve_credential_for_request cipher user_id owner_org input.provider db'
      ≡ ok (some (ResolvedCredential.api_key input.key input.base_url))
unfolding resolve_credential_for_request create_api_key_credential insert_credential resolved
created_key_resolves cipher id now iv input user_id owner_org s db db' laws n own earlier e =
    let row = api_key_row id now (cipher.encrypt iv input.key) input in
    let has_key = stored_key-api_key_row cipher id now iv input laws n in
    let is_first : latest (is_candidate (personal user_id) input.provider) (row ∷ db.credentials)
        ≡ some row =
      latest-first (is_candidate (personal user_id) input.provider) row db.credentials
        (ground (arith, has_key)) earlier in
    ground (
      arith,
      is_first,
      picked_row-latest (personal user_id) input.provider (row ∷ db.credentials),
      opened_key-created cipher id now iv input laws n,
    )
