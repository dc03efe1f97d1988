-- ===== src/Credentials/Sessions.antt =====
-- `mintRunnerSession`, `lookupRunnerSession`, `revokeRunnerSession` and
-- `pruneExpiredRunnerSessions` of server/shared/utils/runner-sessions-store.ts. The random token and
-- the time are arguments.
pub mod Tokens
use specifyr.Prelude.{
  ℕ, ◌+◌, ◌*◌, Bool, true, false, not, ◌&&◌, Option, none, some, List, [], ◌∷◌, Text, any, is_some,
  ltb, leb, if◌then◌else◌,
}
use specifyr.Prelude.Result.{Result, ok, throw, ◌>>=◌, ◌>>◌, require}
use specifyr.Database.{select_one, update, delete, count}
use specifyr.Credentials.Rows.{
  Owner, owner_eq, LlmCredential, RunnerSession, Db, is_credential, is_token,
}
use specifyr.Credentials.Store.{
  Error, db_not_configured, unique_violation, credential_not_found, wrong_owner,
}

pub record MintInput : Type 0 where
  pub user_id : ℕ
  pub owner : Owner
  pub credential_id : Option ℕ
  pub ttl_ms : Option ℕ

abbrev pub default_ttl_ms : ℕ
default_ttl_ms = 60 * 60 * 1000

abbrev pub ttl : Option ℕ → ℕ
ttl none = default_ttl_ms
ttl (some ms) = ms

-- The check of the credential that the session is bound to.
pub check_credential : Option ℕ → Owner → List LlmCredential → Result Error (Unit {0})
check_credential none owner rows = ok tt
check_credential (some id) owner rows = elim (select_one (is_credential id) rows) [
  | none ↦ throw credential_not_found
  | some c ↦ require (owner_eq c.owner owner) wrong_owner
]

abbrev pub minted : Text → ℕ → MintInput → RunnerSession
minted token now input = record {
  token = token;
  user_id = input.user_id;
  owner = input.owner;
  credential_id = input.credential_id;
  created_at = now;
  expires_at = now + ttl input.ttl_ms;
  revoked_at = none;
}

-- The token and its `expiresAt`. A token that is in the table breaks the primary key.
unfoldable pub mint_runner_session : Text → ℕ → MintInput → Db → Result Error ((Text × ℕ) × Db)
unfolding check_credential
mint_runner_session token now input db = do
  require db.is_configured db_not_configured
  check_credential input.credential_id input.owner db.credentials
  require (not (any (is_token token) db.sessions)) unique_violation
  ok (
    (token, now + ttl input.ttl_ms),
    record db { sessions = minted token now input ∷ db.sessions },
  )

pub record ResolvedSession : Type 0 where
  pub user_id : ℕ
  pub owner : Owner
  pub credential_id : Option ℕ
  pub expires_at : ℕ

abbrev pub session_of : RunnerSession → ResolvedSession
session_of s = record {
  user_id = s.user_id;
  owner = s.owner;
  credential_id = s.credential_id;
  expires_at = s.expires_at;
}

-- The early returns of the lookup, once the row is found.
abbrev pub live : ℕ → RunnerSession → Option ResolvedSession
live now s =
    if is_some s.revoked_at
    then none
    else if leb s.expires_at now
    then none
    else some (session_of s)

unfoldable pub lookup_runner_session : Text → ℕ → Db → Option ResolvedSession
lookup_runner_session token now db =
    if db.is_configured
    then elim (select_one (is_token token) db.sessions) [ none ↦ none | some s ↦ live now s ]
    else none

abbrev pub is_unrevoked : Text → RunnerSession → Bool
is_unrevoked token s = is_token token s && not (is_some s.revoked_at)

abbrev pub stamp_revoked : ℕ → RunnerSession → RunnerSession
stamp_revoked now s = record s { revoked_at = some now }

unfoldable pub revoke_runner_session : Text → ℕ → Db → Db
revoke_runner_session token now db =
    if db.is_configured
    then record db { sessions = update (is_unrevoked token) (stamp_revoked now) db.sessions }
    else db

abbrev pub default_grace_ms : ℕ
default_grace_ms = 24 * 60 * 60 * 1000

-- `lt(expiresAt, now - graceMs)`
abbrev pub is_stale : ℕ → ℕ → RunnerSession → Bool
is_stale grace now s = ltb (s.expires_at + grace) now

unfoldable pub prune_expired_runner_sessions : ℕ → ℕ → Db → ℕ × Db
prune_expired_runner_sessions grace now db =
    if db.is_configured
    then (
      count (is_stale grace now) db.sessions,
      record db { sessions = delete (is_stale grace now) db.sessions },
    )
    else (0, db)
