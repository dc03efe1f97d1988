-- ===== src/Orgs/Roles.antt =====
-- What a membership table says of a user's role, and what each statement does to it.
use specifyr.Prelude.{
  ℕ, ◌≤◌, ◌≡◌, ◌≢◌, ◌&&◌, Option, none, some, List, [], ◌∷◌, ◌==◌, if◌then◌else◌, arith,
}
use specifyr.Database.{select_one, update, delete, count, upsert}
use specifyr.Orgs.Rows.{Role, admin, OrgMembership, is_membership, is_admin_of}
use specifyr.Orgs.Members.{set_role}

abbrev pub row_role : Option OrgMembership → Option Role
row_role none = none
row_role (some m) = some m.role

abbrev pub role_of : ℕ → ℕ → List OrgMembership → Option Role
role_of org_id user_id ms = row_role (select_one (is_membership org_id user_id) ms)

abbrev pub replaced : Role → Option Role → Option Role
replaced role none = none
replaced role (some _) = some role

pub role_of-update :
    (o u o' u' : ℕ) (role : Role) (ms : List OrgMembership)
    → role_of o u (update (is_membership o' u') (set_role role) ms)
      ≡ (if o == o' && u == u' then replaced role (role_of o u ms) else role_of o u ms)
role_of-update o u o' u' role [] = ground arith
role_of-update o u o' u' role (m ∷ ms) = ground (arith, role_of-update o u o' u' role ms)

pub role_of-delete :
    (o u o' u' : ℕ) (ms : List OrgMembership)
    → role_of o u (delete (is_membership o' u') ms)
      ≡ (if o == o' && u == u' then none else role_of o u ms)
role_of-delete o u o' u' [] = ground arith
role_of-delete o u o' u' (m ∷ ms) = ground (arith, role_of-delete o u o' u' ms)

pub role_of-upsert :
    (o u : ℕ) (row : OrgMembership) (ms : List OrgMembership)
    → role_of o u (upsert (is_membership row.org_id row.user_id) (set_role row.role) row ms)
      ≡ (if o == row.org_id && u == row.user_id then some row.role else role_of o u ms)
role_of-upsert o u row [] = ground arith
role_of-upsert o u row (m ∷ ms) = ground (arith, role_of-upsert o u row ms)

-- Two users with the role of an admin are counted twice.
pub count-admins_one :
    (o u : ℕ) (ms : List OrgMembership) → role_of o u ms ≡ some admin → 1 ≤ count (is_admin_of o) ms
count-admins_one o u [] h = cc
count-admins_one o u (m ∷ ms) h = ground (arith, count-admins_one o u ms)

pub count-admins_two :
    (o u v : ℕ) (ms : List OrgMembership)
    → u ≢ v
    → role_of o u ms ≡ some admin
    → role_of o v ms ≡ some admin
    → 2 ≤ count (is_admin_of o) ms
count-admins_two o u v [] ne h k = cc
count-admins_two o u v (m ∷ ms) ne h k =
    ground (arith, count-admins_two o u v ms ne, count-admins_one o u ms, count-admins_one o v ms)
