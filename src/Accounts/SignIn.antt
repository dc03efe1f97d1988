-- ===== src/Accounts/SignIn.antt =====
-- The middleware of server/shared/middleware/auth.ts: the forward-auth headers, the gate on
-- registration and the upsert of the user. `lower` is `toLowerCase` of JavaScript; the id of a new
-- user and the time are arguments.
use specifyr.Prelude.{
  ℕ, Bool, true, false, not, ◌&&◌, ◌||◌, Option, none, some, List, [], ◌∷◌, map, Text, codes,
  text_eq, ◌==◌, any, is_some, if◌then◌else◌,
}
use specifyr.Database.{select_one, upsert}
use specifyr.Orgs.Slug.{trim}
use specifyr.Accounts.Rows.{
  User, Policy, open_to_all, domain, closed, registration_policy, registration_allowed_domains,
  platform_admin_emails, Value, policy, texts, Db, has_email, has_id,
}
use specifyr.Accounts.Settings.{get_setting, non_empty}

-- The environment variables SPECIFYR_DEV_USER_EMAIL and SPECIFYR_PLATFORM_ADMIN_EMAILS.
pub record Env : Type 0 where
  pub dev_user_email : Option Text
  pub admin_emails : Option Text

pub record Request : Type 0 where
  pub path : Text
  pub authentik_email : Option Text
  pub remote_email : Option Text
  pub authentik_name : Option Text
  pub remote_name : Option Text
  pub authentik_username : Option Text
  pub remote_user : Option Text
  pub dev_logged_out : Bool

pub data Refusal : Type 0 where
  blocked registration_closed domain_not_permitted : Refusal

-- `signed_in` is what is set on `event.context`; `failed` is an insert on an id that is taken.
pub data Outcome : Type 0 where
  anonymous failed : Outcome
  signed_in : ℕ → Text → Outcome
  refused : Refusal → Outcome

-- `a || b` on strings that may be undefined
abbrev pub or_else : Option Text → Text → Text
or_else none b = b
or_else (some []) b = b
or_else (some (c ∷ a)) b = c ∷ a

abbrev pub trimmed : Option Text → Option Text
trimmed none = none
trimmed (some s) = some (trim s)

-- `.split(/[,\s]+/)` up to empty texts, which the `filter(Boolean)` behind it drops.
pub words : Text → List Text
words [] = [] ∷ []
words (c ∷ s) =
    let rest = words s in
    if text_eq (trim (c ∷ [])) [] || c == b','
    then [] ∷ rest
    else elim rest [ [] ↦ (c ∷ []) ∷ [] | w ∷ ws ↦ (c ∷ w) ∷ ws ]

abbrev pub texts_of : Value → List Text
texts_of (policy _) = []
texts_of (texts ts) = ts

abbrev pub policy_of : Value → Policy
policy_of (policy p) = p
policy_of (texts _) = open_to_all

-- `email.slice(email.lastIndexOf("@") + 1)`, or "" without an "@"
pub domain_of : Text → Option Text
domain_of [] = none
domain_of (c ∷ s) =
    let rest = domain_of s in
    elim rest [ some d ↦ some d | none ↦ if c == b'@' then some s else none ]

pub starts_with : Text → Text → Bool
starts_with [] s = true
starts_with (c ∷ p) [] = false
starts_with (c ∷ p) (d ∷ s) = (c == d) && starts_with p s

-- `/^\/(api\/)?invites\//.test(path)`
unfoldable pub is_invite_flow : Text → Bool
unfolding starts_with
is_invite_flow path =
    starts_with (codes "/invites/") path || starts_with (codes "/api/invites/") path

-- The columns of an existing user that a sign-in refreshes.
abbrev pub refreshed : Bool → ℕ → User → User
refreshed is_admin now u = record u { is_platform_admin = is_admin; updated_at = now }

abbrev pub new_user : ℕ → Text → Option Text → Bool → ℕ → User
new_user id email name is_admin now = record {
  id = id;
  email = email;
  display_name = name;
  is_platform_admin = is_admin;
  blocked_at = none;
  preferred_locale = none;
  created_at = now;
  updated_at = now;
}

-- The gate on registration, for an email that no user has.
unfoldable pub registration_gate : Bool → Text → Text → Db → Option Refusal
unfolding domain_of
registration_gate is_admin path email db =
    if not is_admin && not (is_invite_flow path)
    then elim (policy_of (get_setting registration_policy (policy open_to_all) db)) [
      | closed ↦ some registration_closed
      | domain ↦ elim (domain_of email) [
        | none ↦ some domain_not_permitted
        | some d ↦
            if not (text_eq d [])
              && any (text_eq d) (texts_of (get_setting registration_allowed_domains (texts []) db))
            then none
            else some domain_not_permitted
      ]
      | open_to_all ↦ none
    ]
    else none

-- The upsert keyed on the email, and the id of the row that it returns.
unfoldable pub upsert_user : ℕ → ℕ → Text → Option Text → Bool → Db → Outcome × Db
upsert_user id now email name is_admin db = elim (select_one (has_email email) db.users) [
  | some u ↦ (
    signed_in u.id email,
    record db {
      users =
          upsert (has_email email) (refreshed is_admin now) (new_user id email name is_admin now)
            db.users;
    },
  )
  | none ↦ if any (has_id id) db.users then (failed, db) else (
    signed_in id email,
    record db {
      users =
          upsert (has_email email) (refreshed is_admin now) (new_user id email name is_admin now)
            db.users;
    },
  )
]

module _ (lower : Text → Text) where
  unfoldable pub normalize_email : Text → Text
  normalize_email s = lower (trim s)

  -- `headerEmail || devEmail`; the empty text is no email.
  unfoldable pub request_email : Env → Request → Text
  unfolding normalize_email
  request_email env req =
      or_else (some (normalize_email (or_else req.authentik_email (or_else req.remote_email [])))) (
        if req.dev_logged_out
        then []
        else elim env.dev_user_email [ none ↦ [] | some e ↦ normalize_email e ])

  unfoldable pub request_name : Request → Option Text
  request_name req =
      elim (or_else (trimmed req.authentik_name) (
        or_else (trimmed req.remote_name)
          (or_else (trimmed req.authentik_username) (or_else (trimmed req.remote_user) [])))) [
            | [] ↦ none
            | c ∷ s ↦ some (c ∷ s)
          ]

  unfoldable pub is_platform_admin : Env → Text → Db → Bool
  unfolding normalize_email words
  is_platform_admin env email db =
      any (text_eq email) (non_empty (map normalize_email (words (or_else env.admin_emails []))))
      || any (text_eq email)
          (map normalize_email (texts_of (get_setting platform_admin_emails (texts []) db)))

  -- The steps behind the email, in the order of the code.
  unfoldable pub admit : ℕ → ℕ → Env → Request → Text → Db → Outcome × Db
  unfolding registration_gate upsert_user
  admit id now env req email db =
      let is_admin = is_platform_admin env email db in
      elim (select_one (has_email email) db.users) [
        | some u ↦
            if is_some u.blocked_at
            then (refused blocked, db)
            else upsert_user id now email (request_name req) is_admin db
        | none ↦ elim (registration_gate is_admin req.path email db) [
          | some why ↦ (refused why, db)
          | none ↦ upsert_user id now email (request_name req) is_admin db
        ]
      ]

  unfoldable pub sign_in : ℕ → ℕ → Env → Request → Db → Outcome × Db
  unfolding admit
  sign_in id now env req db =
      if db.is_configured
      then elim (request_email env req) [
        | [] ↦ (anonymous, db)
        | c ∷ s ↦ admit id now env req (c ∷ s) db
      ]
      else (anonymous, db)
