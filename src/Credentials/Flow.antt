-- ===== src/Credentials/Flow.antt =====
-- `startOAuthFlowFor` of server/shared/utils/oauth-flow.ts on the credential table. The driver of the
-- login and the temporary homes are left out: whether the login starts, and its URL, is an argument.
-- The whole is one step on the table, so that nothing else writes to it while the login starts, the
-- delete that takes the row back does not fail, and the row is there when it is read at the end.
use specifyr.Prelude.{ℕ, Option, none, some, List, [], ◌∷◌, Text, if◌then◌else◌}
use specifyr.Prelude.Result.{Result, ok, throw}
use specifyr.Database.{select_one}
use specifyr.Credentials.Rows.{Owner, OauthStatus, Db, is_owned}
use specifyr.Credentials.Store.{
  Error, CredentialSummary, is_api_key, list_credentials_for, create_oauth_claude_credential,
  delete_credential,
}

pub data FlowError : Type 0 where
  not_created : Error → FlowError
  login_failed : FlowError

pub record OauthFlowStart : Type 0 where
  pub id : ℕ
  pub url : Text
  pub persisted : Option (ℕ × Option OauthStatus)

-- The loop over the credentials of the owner.
unfoldable pub sweep : List CredentialSummary → Db → Db
unfolding delete_credential
sweep [] db = db
sweep (c ∷ cs) db =
    let kept = sweep cs db in
    let swept = sweep cs (delete_credential c.id db).1 in if is_api_key c.mode then kept else swept

-- `getCredentialOwnedBy`, as far as the flow shows it.
abbrev pub persisted_of : ℕ → Owner → Db → Option (ℕ × Option OauthStatus)
persisted_of id owner db = elim (select_one (is_owned id owner) db.credentials) [
  | none ↦ none
  | some c ↦ some (c.id, c.oauth_status)
]

-- What follows the loop: the row of the login, which is taken back when the login does not start.
unfoldable pub begin_login :
    ℕ → ℕ → Owner → Text → Option Text → Db → Result FlowError OauthFlowStart × Db
unfolding create_oauth_claude_credential delete_credential
begin_login id now owner display_name login swept =
    elim (create_oauth_claude_credential id now owner display_name swept) [
      | throw e ↦ (throw (not_created e), swept)
      | ok (cred, created) ↦ elim login [
        | none ↦ (throw login_failed, (delete_credential cred.id created).1)
        | some url ↦ (
          ok (record { id = cred.id; url = url; persisted = persisted_of cred.id owner created }),
          created,
        )
      ]
    ]

unfoldable pub start_oauth_flow_for :
    ℕ → ℕ → Owner → Text → Option Text → Db → Result FlowError OauthFlowStart × Db
unfolding list_credentials_for sweep begin_login
start_oauth_flow_for id now owner display_name login db =
    begin_login id now owner display_name login (sweep (list_credentials_for owner db) db)
