-- ===== src/Credentials/Login.antt =====
-- The OAuth credentials of an owner behind the start of a login.
use specifyr.Prelude.{
  ℕ, ◌≡◌, refl, Bool, true, false, not, ◌&&◌, ◌||◌, Option, List, [], ◌∷◌, map, Text, any, all,
  ◌==◌, if◌then◌else◌, arith, Bool-cases, Option-cases, inl, inr,
}
use specifyr.Prelude.Result.{Result, ok, throw}
use specifyr.Database.{select, delete, count}
use specifyr.Credentials.Rows.{Owner, owner_eq, LlmCredential, Db, is_credential, same_name}
use specifyr.Credentials.Store.{
  CredentialSummary, is_api_key, summarize, list_credentials_for, insert_credential,
  create_oauth_claude_credential, delete_credential, oauth_row,
}
use specifyr.Credentials.Flow.{FlowError, OauthFlowStart, sweep, begin_login, start_oauth_flow_for}

abbrev pub is_oauth_of : Owner → LlmCredential → Bool
is_oauth_of owner c = owner_eq c.owner owner && not (is_api_key c.mode)

abbrev sweeps : LlmCredential → CredentialSummary → Bool
sweeps c s = not (is_api_key s.mode) && c.id == s.id

-- Every OAuth credential of the owner is among those that are swept.
abbrev is_covered : Owner → List CredentialSummary → LlmCredential → Bool
is_covered owner ss c = not (is_oauth_of owner c) || any (sweeps c) ss

covered_more :
    (owner : Owner) (s : CredentialSummary) (ss : List CredentialSummary)
    (rows : List LlmCredential)
    → all (is_covered owner ss) rows ≡ true
    → all (is_covered owner (s ∷ ss)) rows ≡ true
covered_more owner s ss [] h = refl
covered_more owner s ss (c ∷ rows) h = ground (arith, covered_more owner s ss rows)

listed_covers :
    (owner : Owner) (rows : List LlmCredential)
    → all (is_covered owner (map summarize (select (λ c. owner_eq c.owner owner) rows))) rows ≡ true
unfolding summarize
listed_covers owner [] = refl
listed_covers owner (c ∷ rows) = ground (
  arith,
  listed_covers owner rows,
  covered_more owner (summarize c) (map summarize (select (λ c. owner_eq c.owner owner) rows)) rows,
)

uncovered_none :
    (owner : Owner) (rows : List LlmCredential)
    → all (is_covered owner []) rows ≡ true
    → count (is_oauth_of owner) rows ≡ 0
uncovered_none owner [] h = refl
uncovered_none owner (c ∷ rows) h = ground (arith, uncovered_none owner rows)

covered_kept :
    (owner : Owner) (s : CredentialSummary) (ss : List CredentialSummary)
    (rows : List LlmCredential)
    → is_api_key s.mode ≡ true
    → all (is_covered owner (s ∷ ss)) rows ≡ true
    → all (is_covered owner ss) rows ≡ true
covered_kept owner s ss [] k h = refl
covered_kept owner s ss (c ∷ rows) k h = ground (arith, covered_kept owner s ss rows)

covered_deleted :
    (owner : Owner) (s : CredentialSummary) (ss : List CredentialSummary)
    (rows : List LlmCredential)
    → all (is_covered owner (s ∷ ss)) rows ≡ true
    → all (is_covered owner ss) (delete (is_credential s.id) rows) ≡ true
covered_deleted owner s ss [] h = refl
covered_deleted owner s ss (c ∷ rows) h = ground (arith, covered_deleted owner s ss rows)

sweep-none :
    (owner : Owner) (ss : List CredentialSummary) (db : Db)
    → db.is_configured ≡ true
    → all (is_covered owner ss) db.credentials ≡ true
    → (count (is_oauth_of owner) (sweep ss db).credentials ≡ 0)
      × ((sweep ss db).is_configured ≡ true)
unfolding sweep delete_credential
sweep-none owner [] db configured h = (uncovered_none owner db.credentials h, configured)
sweep-none owner (s ∷ ss) db configured h = elim (Bool-cases (is_api_key s.mode)) [
  | inl key ↦
      ground (
        arith,
        key,
        sweep-none owner ss db configured (covered_kept owner s ss db.credentials key h),
      )
  | inr oauth ↦
      let deleted = (delete_credential s.id db).1 in
      ground (
        arith,
        oauth,
        configured,
        sweep-none owner ss deleted,
        covered_deleted owner s ss db.credentials h,
      )
]

abbrev pub has_started : Result FlowError OauthFlowStart → Bool
has_started (ok _) = true
has_started (throw _) = false

count-delete_zero :
    (owner : Owner) (id : ℕ) (rows : List LlmCredential)
    → count (is_oauth_of owner) rows ≡ 0
    → count (is_oauth_of owner) (delete (is_credential id) rows) ≡ 0
count-delete_zero owner id [] h = refl
count-delete_zero owner id (c ∷ rows) h = ground (arith, count-delete_zero owner id rows)

owner_eq_refl : (owner : Owner) → owner_eq owner owner ≡ true
owner_eq_refl owner = ground arith

begin_login-count :
    (id now : ℕ) (owner : Owner) (display_name : Text) (login : Option Text) (db : Db)
    → db.is_configured ≡ true
    → count (is_oauth_of owner) db.credentials ≡ 0
    → let (result, after) = begin_login id now owner display_name login db in
      count (is_oauth_of owner) after.credentials ≡ (if has_started result then 1 else 0)
unfolding begin_login create_oauth_claude_credential insert_credential delete_credential summarize
begin_login-count id now owner display_name login db configured none_left =
    let row = oauth_row id now owner display_name in
    elim (Bool-cases (any (is_credential row.id) db.credentials)) [
      | inl taken ↦ ground (arith, configured, taken, none_left)
      | inr fresh ↦ elim (Bool-cases (any (same_name row) db.credentials)) [
        | inl named ↦ ground (arith, configured, fresh, named, none_left)
        | inr free ↦ elim (Option-cases login) [
          | inl lost ↦ ground (
            arith,
            configured,
            fresh,
            free,
            lost,
            count-delete_zero owner id db.credentials none_left,
          )
          | inr (url, shown) ↦
              ground (arith, configured, fresh, free, shown, none_left, owner_eq_refl owner)
        ]
      ]
    ]

listed_all :
    (owner : Owner) (db : Db)
    → db.is_configured ≡ true
    → all (is_covered owner (list_credentials_for owner db)) db.credentials ≡ true
unfolding list_credentials_for
listed_all owner db configured = ground (arith, configured, listed_covers owner db.credentials)

-- With a database configured: behind the start of a login the owner has exactly one OAuth
-- credential if it succeeded, and none if it failed, whatever the owner had before.
pub start_oauth_flow_for-count :
    (id now : ℕ) (owner : Owner) (display_name : Text) (login : Option Text) (db : Db)
    → db.is_configured ≡ true
    → let (result, after) = start_oauth_flow_for id now owner display_name login db in
      count (is_oauth_of owner) after.credentials ≡ (if has_started result then 1 else 0)
unfolding start_oauth_flow_for
start_oauth_flow_for-count id now owner display_name login db configured =
    let ss = list_credentials_for owner db in
    let (none_left, still) = sweep-none owner ss db configured (listed_all owner db configured) in
    begin_login-count id now owner display_name login (sweep ss db) still none_left
