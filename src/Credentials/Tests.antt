-- ===== src/Credentials/Tests.antt =====
-- Credentials and sessions at concrete tables: tests, and the theorems applied.
use specifyr.Prelude.{
  true, false, any, not, ◌≡◌, if◌then◌else◌, refl, true, none, some, [], ◌∷◌, Text, codes, arith,
}
use specifyr.Prelude.Result.{ok}
use specifyr.Credentials.Cipher.{Cipher, CipherLaws}
use specifyr.Credentials.Rows.{anthropic, authorized, LlmCredential, RunnerSession, Db}
use specifyr.Credentials.Store.{
  ApiKeyInput, api_key_row, oauth_row, create_api_key_credential, delete_credential, summarize,
}
use specifyr.Credentials.Resolve.{
  ResolvedCredential, resolve_credential_for_request, personal, of_org,
}
use specifyr.Credentials.Resolve.Created.{created_key_resolves}
use specifyr.Credentials.Sessions.{
  MintInput, minted, lookup_runner_session, revoke_runner_session, prune_expired_runner_sessions,
}
use specifyr.Credentials.Sessions.Tokens.{is_kept, prune_lookup}
use specifyr.Database.{count, select}
use specifyr.Credentials.Flow.{start_oauth_flow_for}
use specifyr.Credentials.Login.{is_oauth_of, has_started, start_oauth_flow_for-count}
use specifyr.Credentials.Ops.{mint, remove, prune, expire, apply_all}
use specifyr.Credentials.Ops.Revoked.{revoked_forever}
use specifyr.Credentials.Ops.Binding.{BoundOwners, apply_all-BoundOwners}

abbrev tail : Text → Text
tail [] = []
tail (_ ∷ s) = s

-- A cipher that puts a mark in front of the text.
abbrev marking : Cipher
marking = record {
  encrypt = λ iv t. record { iv = 1 ∷ iv; tag = 2 ∷ []; payload = 3 ∷ t };
  decrypt = λ e. some (tail e.payload);
}

marking-CipherLaws : CipherLaws marking
marking-CipherLaws = record {
  decrypt-encrypt = λ iv t. refl;
  iv_present = λ iv t n e. ground arith;
  tag_present = λ iv t n e. ground arith;
  payload_present = λ iv t n e. ground arith;
}

abbrev org_login : LlmCredential
org_login = record (oauth_row 7 100 (of_org 4) (codes "team")) { oauth_status = some authorized }

abbrev session : RunnerSession
session =
    minted (codes "t1") 1000
      (record { user_id = 2; owner = of_org 4; credential_id = some 7; ttl_ms = some 500 })

abbrev tables : Db
tables = record { is_configured = true; credentials = org_login ∷ []; sessions = session ∷ [] }

abbrev key_input : ApiKeyInput
key_input = record {
  owner = personal 2;
  provider = anthropic;
  display_name = codes "mine";
  key = codes "sk-1";
  base_url = none;
}

abbrev mint_input : MintInput
mint_input = record { user_id = 3; owner = of_org 4; credential_id = some 7; ttl_ms = none }

abbrev tables_minted : Db
tables_minted = record tables { sessions = minted (codes "t2") 2000 mint_input ∷ session ∷ [] }

abbrev key_row : LlmCredential
key_row = api_key_row 8 200 (marking.encrypt [] (codes "sk-1")) key_input

created_key_resolves_example :
    resolve_credential_for_request marking 2
      (some 4)
      anthropic
      (record tables { credentials = key_row ∷ org_login ∷ [] })
    ≡ ok (some (ResolvedCredential.api_key (codes "sk-1") none))
unfolding create_api_key_credential
created_key_resolves_example =
    created_key_resolves marking 8 200 [] key_input 2 (some 4) (summarize key_row) tables
      (record tables { credentials = key_row ∷ org_login ∷ [] }) marking-CipherLaws
      (λ e. ground arith) refl refl refl

prune_lookup_example :
    let after = (prune_expired_runner_sessions 100 2500 tables_minted).1 in
    (lookup_runner_session (codes "t2") 3000 after
      ≡ lookup_runner_session (codes "t2") 3000 tables_minted)
    × (select (is_kept 100 2500) after.sessions ≡ select (is_kept 100 2500) tables_minted.sessions)
    × (any (λ s. not (is_kept 100 2500 s)) after.sessions ≡ false)
prune_lookup_example =
    prune_lookup (codes "t2") 100 2500 3000 tables_minted (refl, (refl, tt)) (omega arith)

-- The session of the deleted credential still resolves.
deleted_still_live :
    lookup_runner_session (codes "t1") 1200 (delete_credential 7 tables).1
    ≡ some (record { user_id = 2; owner = of_org 4; credential_id = none; expires_at = 1500 })
unfolding lookup_runner_session delete_credential
deleted_still_live = refl

revoked_forever_example :
    lookup_runner_session (codes "t1") 1300 (
      apply_all marking
        (mint (codes "t2") 1100 mint_input ∷ remove 7 ∷ prune 0 1200 ∷ [])
        (revoke_runner_session (codes "t1") 1000 tables))
    ≡ none
revoked_forever_example =
    revoked_forever marking (mint (codes "t2") 1100 mint_input ∷ remove 7 ∷ prune 0 1200 ∷ [])
      (codes "t1") 1000 1300 tables refl (refl, tt)

apply_all-BoundOwners_example :
    BoundOwners
      (apply_all marking (mint (codes "t2") 1100 mint_input ∷ expire 7 1200 ∷ remove 7 ∷ []) tables)
apply_all-BoundOwners_example =
    apply_all-BoundOwners marking
      (mint (codes "t2") 1100 mint_input ∷ expire 7 1200 ∷ remove 7 ∷ []) tables refl

-- A login that does not start: the one that was authorized is gone.
start_oauth_flow_for-count_example :
    let (result, after) =
      start_oauth_flow_for 9 200
        (of_org 4)
        (codes "again")
        none
        (record tables { credentials = org_login ∷ [] }) in
    count (is_oauth_of (of_org 4)) after.credentials ≡ (if has_started result then 1 else 0)
start_oauth_flow_for-count_example =
    start_oauth_flow_for-count 9 200 (of_org 4) (codes "again") none
      (record tables { credentials = org_login ∷ [] }) refl
