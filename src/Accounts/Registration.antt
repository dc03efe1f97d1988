-- ===== src/Accounts/Registration.antt =====
-- Who gets past the gate on registration, and what a refusal leaves behind.
use specifyr.Prelude.{
  ℕ, ◌≡◌, ◌≢◌, ◌↔◌, Bool, true, false, ◌||◌, Option, none, some, List, [], ◌∷◌, Text, text_eq,
  text_eq_refl, any, arith, Option-cases, inl, inr,
}
use specifyr.Database.{select_one, upsert}
use specifyr.Accounts.Rows.{
  User, Policy, open_to_all, domain, closed, registration_policy, registration_allowed_domains,
  policy, texts, Db, has_email, has_id,
}
use specifyr.Accounts.Settings.{get_setting}
use specifyr.Accounts.SignIn.{
  Env, Request, signed_in, texts_of, policy_of, domain_of, is_invite_flow, refreshed,
  registration_gate, upsert_user, request_email, is_platform_admin, admit, sign_in,
}

abbrev is_in_domains : List Text → Option Text → Bool
is_in_domains ds none = false
is_in_domains ds (some []) = false
is_in_domains ds (some (c ∷ d)) = any (text_eq (c ∷ d)) ds

-- What a policy says of a new email.
abbrev pub policy_admits : Policy → List Text → Text → Bool
policy_admits open_to_all ds email = true
policy_admits closed ds email = false
policy_admits domain ds email = is_in_domains ds (domain_of email)

abbrev pub db_admits : Text → Db → Bool
db_admits email db =
    policy_admits (policy_of (get_setting registration_policy (policy open_to_all) db))
      (texts_of (get_setting registration_allowed_domains (texts []) db)) email

registration_gate-none :
    (is_admin : Bool) (path email : Text) (db : Db)
    → (registration_gate is_admin path email db ≡ none)
      ↔ ((is_admin || (is_invite_flow path || db_admits email db)) ≡ true)
unfolding registration_gate
registration_gate-none is_admin path email db = elim (Option-cases (domain_of email)) [
  | inl nowhere ↦ (λ e. ground arith, λ h. ground arith)
  | inr ([], at) ↦ (λ e. ground arith, λ h. ground arith)
  | inr (c ∷ d, at) ↦ (λ e. ground arith, λ h. ground arith)
]

module _ (lower : Text → Text) where
  admit_new :
      (id now : ℕ) (env : Env) (req : Request) (email : Text) (db : Db)
      → select_one (has_email email) db.users ≡ none
      → any (has_id id) db.users ≡ false
      → ((admit lower id now env req email db).0 ≡ signed_in id email)
        ↔ (registration_gate (is_platform_admin lower env email db) req.path email db ≡ none)
  unfolding admit upsert_user
  admit_new id now env req email db new fresh = (λ e. ground arith, λ h. ground arith)

  -- With a database configured, an email that no user has and a fresh id: the request signs the new
  -- user in exactly if the email is that of a platform admin, or the path is that of an invite, or
  -- the registration policy admits the email.
  pub sign_in_new_iff :
      (id now : ℕ) (env : Env) (req : Request) (c : ℕ) (s : Text) (db : Db)
      → let email = c ∷ s in
        db.is_configured ≡ true
        → request_email lower env req ≡ email
        → select_one (has_email email) db.users ≡ none
        → any (has_id id) db.users ≡ false
        → ((sign_in lower id now env req db).0 ≡ signed_in id email) ↔ (
            (is_platform_admin lower env email db
              || (is_invite_flow req.path || db_admits email db))
            ≡ true)
  unfolding sign_in
  sign_in_new_iff id now env req c s db configured from new fresh =
      let (to, back) = admit_new id now env req (c ∷ s) db new fresh in
      let (open_to, open_back) =
        registration_gate-none (is_platform_admin lower env (c ∷ s) db) req.path (c ∷ s) db in
      (λ e. open_to (to (ground arith)), λ h. (let b = back (open_back h) in ground arith))

  -- A request that signs nobody in changes no table: a refusal, a request without an email, and an
  -- insert that fails.
  pub sign_in_unchanged :
      (id now : ℕ) (env : Env) (req : Request) (db : Db)
      → ((i : ℕ) (e : Text) → (sign_in lower id now env req db).0 ≢ signed_in i e)
      → (sign_in lower id now env req db).1 ≡ db
  unfolding sign_in admit upsert_user
  sign_in_unchanged id now env req db nobody =
      elim (Option-cases (select_one (has_email (request_email lower env req)) db.users)) [
        | inl new ↦ ground (arith, nobody id (request_email lower env req))
        | inr (u, found) ↦ ground (arith, nobody u.id (request_email lower env req))
      ]

  pub select_email-upsert :
      (email : Text) (is_admin : Bool) (now : ℕ) (row : User) (us : List User)
      → row.email ≡ email
      → select_one (has_email email) us ≡ none
      → select_one (has_email email) (upsert (has_email email) (refreshed is_admin now) row us)
        ≡ some row
  select_email-upsert email is_admin now row [] at new = ground (arith, text_eq_refl email)
  select_email-upsert email is_admin now row (u ∷ us) at new =
      ground (arith, select_email-upsert email is_admin now row us)
