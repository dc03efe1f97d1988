-- ===== src/Credentials/Ops/Revoked.antt =====
-- A revoked session token along histories.
use specifyr.Prelude.{
  ℕ, ◌≡◌, refl, Bool, true, false, not, ◌||◌, none, some, List, [], ◌∷◌, Text, text_eq, all,
  is_some, arith, inl, inr,
}
use specifyr.Prelude.Result.{Result-cases}
use specifyr.Database.{select_one, update, delete}
use specifyr.Credentials.Cipher.{Cipher}
use specifyr.Credentials.Rows.{Owner, RunnerSession, Db, is_token}
use specifyr.Credentials.Store.{
  ApiKeyInput, is_bound_to, unbind, create_api_key_credential, create_oauth_claude_credential,
  update_api_key_credential, mark_oauth_authorized, mark_oauth_expired, delete_credential,
}
use specifyr.Credentials.Sessions.{
  MintInput, mint_runner_session, live, lookup_runner_session, is_unrevoked, stamp_revoked,
  revoke_runner_session, is_stale, prune_expired_runner_sessions,
}
use specifyr.Credentials.Ops.{
  Op, create_key, create_oauth, patch, authorize, expire, remove, mint, revoke, prune, committed,
  apply, apply_all, NeverMints,
}

-- Every row with the token is revoked.
abbrev pub is_dead : Text → List RunnerSession → Bool
is_dead token ss = all (λ s. not (text_eq s.token token) || is_some s.revoked_at) ss

is_dead-revoke :
    (token t : Text) (now : ℕ) (ss : List RunnerSession)
    → is_dead token ss ≡ true
    → is_dead token (update (is_unrevoked t) (stamp_revoked now) ss) ≡ true
is_dead-revoke token t now [] d = refl
is_dead-revoke token t now (s ∷ ss) d = ground (arith, is_dead-revoke token t now ss)

is_dead-revoked :
    (token : Text) (now : ℕ) (ss : List RunnerSession)
    → is_dead token (update (is_unrevoked token) (stamp_revoked now) ss) ≡ true
is_dead-revoked token now [] = refl
is_dead-revoked token now (s ∷ ss) = ground (arith, is_dead-revoked token now ss)

is_dead-unbind :
    (token : Text) (id : ℕ) (ss : List RunnerSession)
    → is_dead token (update (is_bound_to id) unbind ss) ≡ is_dead token ss
is_dead-unbind token id [] = refl
is_dead-unbind token id (s ∷ ss) = ground (arith, is_dead-unbind token id ss)

is_dead-prune :
    (token : Text) (grace now : ℕ) (ss : List RunnerSession)
    → is_dead token ss ≡ true
    → is_dead token (delete (is_stale grace now) ss) ≡ true
is_dead-prune token grace now [] d = refl
is_dead-prune token grace now (s ∷ ss) d = ground (arith, is_dead-prune token grace now ss)

live-is_dead :
    (token : Text) (now : ℕ) (ss : List RunnerSession)
    → is_dead token ss ≡ true
    → elim (select_one (is_token token) ss) [ none ↦ none | some s ↦ live now s ] ≡ none
live-is_dead token now [] d = refl
live-is_dead token now (s ∷ ss) d = ground (arith, live-is_dead token now ss)

module _ (cipher : Cipher) where
  create_key-sessions :
      (id : ℕ) (iv : Text) (now : ℕ) (input : ApiKeyInput) (db : Db)
      → (committed db (create_api_key_credential cipher id iv now input db)).sessions ≡ db.sessions
  unfolding create_api_key_credential
  create_key-sessions id iv now input db = ground arith

  create_oauth-sessions :
      (id now : ℕ) (owner : Owner) (name : Text) (db : Db)
      → (committed db (create_oauth_claude_credential id now owner name db)).sessions ≡ db.sessions
  unfolding create_oauth_claude_credential
  create_oauth-sessions id now owner name db = ground arith

  is_dead-mint :
      (token t : Text) (now : ℕ) (input : MintInput) (db : Db)
      → is_dead token db.sessions ≡ true
      → text_eq t token ≡ false
      → is_dead token (committed db (mint_runner_session t now input db)).sessions ≡ true
  unfolding mint_runner_session
  is_dead-mint token t now input db d n = elim (Result-cases (mint_runner_session t now input db)) [
    | inl (e, thrown) ↦ ground arith
    | inr (r, done) ↦ ground arith
  ]

  apply-is_dead :
      (token : Text) (op : Op) (ops : List Op) (db : Db)
      → is_dead token db.sessions ≡ true
      → NeverMints token (op ∷ ops)
      → is_dead token (apply cipher op db).sessions ≡ true
  unfolding apply update_api_key_credential mark_oauth_authorized mark_oauth_expired
      delete_credential revoke_runner_session prune_expired_runner_sessions
  apply-is_dead token (create_key id iv now input) ops db d n =
      ground (arith, create_key-sessions id iv now input db)
  apply-is_dead token (create_oauth id now owner name) ops db d n =
      ground (arith, create_oauth-sessions id now owner name db)
  apply-is_dead token (patch id iv now p) ops db d n = ground arith
  apply-is_dead token (authorize id iv at now payload) ops db d n = ground arith
  apply-is_dead token (expire id now) ops db d n = ground arith
  apply-is_dead token (remove id) ops db d n = ground (arith, is_dead-unbind token id db.sessions)
  apply-is_dead token (mint t now input) ops db d n = is_dead-mint token t now input db d n.0
  apply-is_dead token (revoke t now) ops db d n =
      ground (arith, is_dead-revoke token t now db.sessions)
  apply-is_dead token (prune grace now) ops db d n =
      ground (arith, is_dead-prune token grace now db.sessions)

  NeverMints-tail :
      (token : Text) (op : Op) (ops : List Op) → NeverMints token (op ∷ ops) → NeverMints token ops
  NeverMints-tail token (mint _ _ _) ops n = n.1
  NeverMints-tail token (create_key _ _ _ _) ops n = n
  NeverMints-tail token (create_oauth _ _ _ _) ops n = n
  NeverMints-tail token (patch _ _ _ _) ops n = n
  NeverMints-tail token (authorize _ _ _ _ _) ops n = n
  NeverMints-tail token (expire _ _) ops n = n
  NeverMints-tail token (remove _) ops n = n
  NeverMints-tail token (revoke _ _) ops n = n
  NeverMints-tail token (prune _ _) ops n = n

  is_dead-lookup :
      (ops : List Op) (token : Text) (later : ℕ) (db : Db)
      → is_dead token db.sessions ≡ true
      → NeverMints token ops
      → lookup_runner_session token later (apply_all cipher ops db) ≡ none
  unfolding apply_all lookup_runner_session
  is_dead-lookup [] token later db d n = ground (arith, live-is_dead token later db.sessions d)
  is_dead-lookup (op ∷ ops) token later db d n =
      is_dead-lookup ops token later (apply cipher op db) (apply-is_dead token op ops db d n)
        (NeverMints-tail token op ops n)

  -- With a database configured, a revoked token never resolves again, whatever operations follow on
  -- credentials and sessions, pruning included, as long as none of them mints the same token.
  pub revoked_forever :
      (ops : List Op) (token : Text) (now later : ℕ) (db : Db)
      → db.is_configured ≡ true
      → NeverMints token ops
      → lookup_runner_session token later
          (apply_all cipher ops (revoke_runner_session token now db))
        ≡ none
  unfolding revoke_runner_session
  revoked_forever ops token now later db c n =
      is_dead-lookup ops token later (revoke_runner_session token now db)
        (ground (arith, is_dead-revoked token now db.sessions)) n
