-- ===== src/Credentials/Sessions/Tokens.antt =====
-- The life of a session token.
use specifyr.Prelude.{
  ℕ, ◌+◌, ◌≤◌, ◌≡◌, refl, Bool, true, false, not, any, Option, none, some, List, [], ◌∷◌, Text,
  text_eq, text_eq_iff, text_eq_refl, ap, leb, ◌==◌, if◌then◌else◌, arith,
}
use specifyr.Prelude.Result.{ok}
use specifyr.Database.{select, select_one, update, delete}
use specifyr.Credentials.Rows.{RunnerSession, Db, is_token}
use specifyr.Credentials.Store.{is_bound_to, unbind, delete_credential}
use specifyr.Credentials.Sessions.{
  MintInput, ttl, mint_runner_session, ResolvedSession, live, lookup_runner_session, is_stale,
  prune_expired_runner_sessions,
}

-- A minted token resolves to the user, owner and credential that it was minted for until its time
-- to live is over, and to nothing from then on.
pub mint_lookup :
    (token : Text) (now later expires : ℕ) (input : MintInput) (db db' : Db)
    → mint_runner_session token now input db ≡ ok ((token, expires), db')
    → lookup_runner_session token later db' ≡ (
        if leb (now + ttl input.ttl_ms) later
        then none
        else some (record {
          user_id = input.user_id;
          owner = input.owner;
          credential_id = input.credential_id;
          expires_at = now + ttl input.ttl_ms;
        }))
unfolding mint_runner_session lookup_runner_session
mint_lookup token now later expires input db db' e = ground (arith, text_eq_refl token)

-- The primary key: no token stands in two rows.
abbrev pub HasUniqueTokens : List RunnerSession → Type 0
HasUniqueTokens [] = Unit
HasUniqueTokens (s ∷ ss) = (select_one (is_token s.token) ss ≡ none) × HasUniqueTokens ss

abbrev pub live_of : ℕ → Option RunnerSession → Option ResolvedSession
live_of now none = none
live_of now (some s) = live now s

select_token-prune-none :
    (t : Text) (grace now : ℕ) (ss : List RunnerSession)
    → select_one (is_token t) ss ≡ none
    → select_one (is_token t) (delete (is_stale grace now) ss) ≡ none
select_token-prune-none t grace now [] e = refl
select_token-prune-none t grace now (s ∷ ss) e =
    ground (arith, select_token-prune-none t grace now ss)

-- The same at a text that is equal to the token.
select_token-prune-same :
    (t u : Text) (grace now : ℕ) (ss : List RunnerSession)
    → select_one (is_token t) ss ≡ none
    → text_eq t u ≡ true
    → select_one (is_token u) (delete (is_stale grace now) ss) ≡ none
select_token-prune-same t u grace now ss e same =
    let moved =
      ap (λ x. select_one (is_token x) (delete (is_stale grace now) ss))
        ((text_eq_iff t u).0 same) in
    cc (moved, select_token-prune-none t grace now ss e)

select_token-prune :
    (t : Text) (grace now later : ℕ) (ss : List RunnerSession)
    → HasUniqueTokens ss
    → now ≤ later
    → live_of later (select_one (is_token t) (delete (is_stale grace now) ss))
      ≡ live_of later (select_one (is_token t) ss)
select_token-prune t grace now later [] u le = refl
select_token-prune t grace now later (s ∷ ss) u le = ground (
  arith,
  select_token-prune t grace now later ss u.1 le,
  select_token-prune-same s.token t grace now ss u.0,
)

-- The session has not expired, or for no longer than the grace period. It may have been revoked.
abbrev pub is_kept : ℕ → ℕ → RunnerSession → Bool
is_kept grace now s = leb now (s.expires_at + grace)

kept-prune :
    (grace now : ℕ) (ss : List RunnerSession)
    → (select (is_kept grace now) (delete (is_stale grace now) ss) ≡ select (is_kept grace now) ss)
      × (any (λ s. not (is_kept grace now s)) (delete (is_stale grace now) ss) ≡ false)
kept-prune grace now [] = (refl, refl)
kept-prune grace now (s ∷ ss) = ground (arith, kept-prune grace now ss)

-- While tokens are unique: pruning changes the answer for no token, neither at once nor later; every
-- session whose grace period behind its expiry is not over stays as it is, the revoked ones too;
-- and with a database configured no other session is left.
pub prune_lookup :
    (t : Text) (grace now later : ℕ) (db : Db)
    → HasUniqueTokens db.sessions
    → now ≤ later
    → let after = (prune_expired_runner_sessions grace now db).1 in
      (lookup_runner_session t later after ≡ lookup_runner_session t later db)
      × (select (is_kept grace now) after.sessions ≡ select (is_kept grace now) db.sessions)
      × (any (λ s. not (is_kept grace now s)) after.sessions
          ≡ (if db.is_configured then false else any (λ s. not (is_kept grace now s)) db.sessions))
unfolding lookup_runner_session prune_expired_runner_sessions
prune_lookup t grace now later db u le =
    let (kept, gone) = kept-prune grace now db.sessions in
    (
      ground (arith, select_token-prune t grace now later db.sessions u le),
      ground (arith, kept),
      ground (arith, gone),
    )

abbrev pub unbound : ℕ → Option ResolvedSession → Option ResolvedSession
unbound id none = none
unbound id (some r) = some (elim r.credential_id [
  | none ↦ r
  | some c ↦ if c == id then record r { credential_id = none } else r
])

select_token-unbind :
    (t : Text) (id later : ℕ) (ss : List RunnerSession)
    → live_of later (select_one (is_token t) (update (is_bound_to id) unbind ss))
      ≡ unbound id (live_of later (select_one (is_token t) ss))
select_token-unbind t id later [] = refl
select_token-unbind t id later (s ∷ ss) = ground (arith, select_token-unbind t id later ss)

-- Deleting a credential stops no session: one that was bound to it still resolves to the same user
-- and owner, now with no credential, and every other session as before.
pub delete_credential_lookup :
    (t : Text) (id later : ℕ) (db : Db)
    → lookup_runner_session t later (delete_credential id db).1
      ≡ unbound id (lookup_runner_session t later db)
unfolding lookup_runner_session delete_credential
delete_credential_lookup t id later db = ground (arith, select_token-unbind t id later db.sessions)
