-- ===== src/Credentials/Keys.antt =====
-- `getDecryptedApiKey` and `getCredentialOwnedBy`.
use specifyr.Prelude.{Option, none, some, ℕ, Text, ◌&&◌, if◌then◌else◌}
use specifyr.Prelude.Result.{Result, ok, throw, ◌>>=◌}
use specifyr.Database.{select_one}
use specifyr.Credentials.Cipher.{EncryptedEntry, Cipher}
use specifyr.Credentials.Rows.{Owner, LlmCredential, Db, is_credential, is_owned, is_present}
use specifyr.Credentials.Store.{Error, decryption_failed, is_api_key}

-- The stored key, if its three parts are there.
abbrev pub stored_key : LlmCredential → Option EncryptedEntry
stored_key c = elim c.api_key_iv [
  | none ↦ none
  | some iv ↦ elim c.api_key_tag [
    | none ↦ none
    | some tag ↦ elim c.api_key_data [
      | none ↦ none
      | some payload ↦
          if is_present (some iv) && (is_present (some tag) && is_present (some payload))
          then some (record { iv = iv; tag = tag; payload = payload })
          else none
    ]
  ]
]

unfoldable pub decrypted : Cipher → EncryptedEntry → Result Error Text
decrypted cipher e = elim (cipher.decrypt e) [ none ↦ throw decryption_failed | some t ↦ ok t ]

unfoldable pub get_decrypted_api_key : Cipher → ℕ → Db → Result Error (Option Text)
unfolding decrypted
get_decrypted_api_key cipher id db =
    if db.is_configured
    then elim (select_one (is_credential id) db.credentials) [
      | none ↦ ok none
      | some c ↦
          if is_api_key c.mode
          then elim (stored_key c) [
            | none ↦ ok none
            | some e ↦ decrypted cipher e >>= λ t. ok (some t)
          ]
          else ok none
    ]
    else ok none

unfoldable pub get_credential_owned_by : ℕ → Owner → Db → Option LlmCredential
get_credential_owned_by id owner db =
    if db.is_configured then select_one (is_owned id owner) db.credentials else none
