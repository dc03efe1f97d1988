-- ===== src/Accounts/Tests.antt =====
-- Sign-ins at concrete tables: tests, and the theorems applied.
use specifyr.Prelude.{◌≡◌, ◌↔◌, refl, true, false, ◌||◌, none, some, List, [], ◌∷◌, Text, codes}
use specifyr.Orgs.Slug.{to_lower_case, trim}
use specifyr.Accounts.Rows.{
  User, closed, domain, policy, texts, registration_policy, registration_allowed_domains, Db,
}
use specifyr.Accounts.Settings.{new_setting, get_setting}
use specifyr.Accounts.SignIn.{
  Env, Request, signed_in, blocked, refused, registration_closed, is_invite_flow, request_email,
  is_platform_admin, sign_in,
}
use specifyr.Accounts.Registration.{db_admits, sign_in_new_iff}
use specifyr.Accounts.Ops.{Op, sign, set_block, erase, apply_all}
use specifyr.Accounts.Histories.{blocked_stays_out, invite_path_registers}

abbrev root : User
root = record {
  id = 1;
  email = codes "root@x.org";
  display_name = none;
  is_platform_admin = true;
  blocked_at = none;
  preferred_locale = none;
  created_at = 0;
  updated_at = 0;
}

abbrev mallory : User
mallory = record root {
  id = 2;
  email = codes "mallory@x.org";
  is_platform_admin = false;
  blocked_at = some 5;
}

abbrev tables : Db
tables = record {
  is_configured = true;
  users = root ∷ mallory ∷ [];
  settings = new_setting registration_policy (policy closed) 1 0 ∷ [];
  org_owners = 1 ∷ [];
}

-- The same, where only one domain may register.
abbrev tables_domain : Db
tables_domain = record tables {
  settings =
      new_setting registration_policy (policy domain) 1 0
      ∷ new_setting registration_allowed_domains (texts (codes "x.org" ∷ [])) 1 0
      ∷ [];
}

abbrev env : Env
env = record { dev_user_email = none; admin_emails = some (codes "root@x.org, ops@x.org") }

abbrev from : Text → Text → Request
from email path = record {
  path = path;
  authentik_email = none;
  remote_email = some email;
  authentik_name = none;
  remote_name = none;
  authentik_username = none;
  remote_user = none;
  dev_logged_out = false;
}

abbrev eve : Text
eve = codes "eve@x.org"

closed_refuses :
    (sign_in to_lower_case 9 10 env (from eve (codes "/api/me")) tables).0
    ≡ refused registration_closed
unfolding sign_in request_email to_lower_case trim is_platform_admin get_setting is_invite_flow
closed_refuses = refl

sign_in_new_iff_example :
    ((sign_in to_lower_case 9 10 env (from (codes " Eve@x.org") (codes "/")) tables_domain).0
      ≡ signed_in 9 eve)
    ↔ ((is_platform_admin to_lower_case env eve tables_domain
          || (is_invite_flow (codes "/") || db_admits eve tables_domain))
        ≡ true)
unfolding request_email to_lower_case trim
sign_in_new_iff_example =
    sign_in_new_iff to_lower_case 9 10 env (from (codes " Eve@x.org") (codes "/")) b'e'
      (codes "ve@x.org") tables_domain refl refl refl refl

invite_path_registers_example :
    (sign_in to_lower_case 10 12 env (from eve (codes "/api/me")) (
      apply_all to_lower_case
        (erase (some 1) 2 ∷ set_block 11 (some 1) 9 false ∷ [])
        (sign_in to_lower_case 9 10 env (from eve (codes "/invites/none")) tables).1)).0
    ≡ signed_in 9 eve
unfolding request_email to_lower_case trim is_invite_flow
invite_path_registers_example =
    invite_path_registers to_lower_case 9 10 12 10 env env (from eve (codes "/invites/none"))
      (from eve (codes "/api/me")) b'e' (codes "ve@x.org")
      (erase (some 1) 2 ∷ set_block 11 (some 1) 9 false ∷ []) tables refl refl refl refl refl refl
      refl

-- The requests that follow the block of the user 2: two sign-ins, and a second block.
abbrev later_requests : List Op
later_requests =
    sign 9 10 env (from eve (codes "/invites/t"))
    ∷ sign 10 11 env (from (codes "mallory@x.org") (codes "/invites/t"))
    ∷ set_block 12 (some 1) 2 true
    ∷ []

blocked_stays_out_example :
    let after = apply_all to_lower_case later_requests tables in
    sign_in to_lower_case 11 13 env (from (codes "mallory@x.org") (codes "/invites/t")) after
    ≡ (refused blocked, after)
unfolding request_email to_lower_case trim
blocked_stays_out_example =
    blocked_stays_out to_lower_case 11 13 env (from (codes "mallory@x.org") (codes "/invites/t"))
      b'm' (codes "allory@x.org") mallory later_requests tables refl refl refl refl refl
