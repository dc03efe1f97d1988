-- ===== src/Orgs/Permissions.antt =====
-- Delegated permissions, server/shared/utils/org-permissions-store.ts.
use specifyr.Prelude.{
  ℕ, Bool, true, false, Option, none, some, List, map, ◌==◌, is_some, if◌then◌else◌,
}
use specifyr.Prelude.Result.{ok, throw}
use specifyr.Database.{select, select_one, delete, upsert}
use specifyr.Orgs.Rows.{
  admin, member, OrgPermission, OrgMemberPermission, Db, db_not_configured, not_a_member,
  is_membership, is_grant, is_grant_of,
}
use specifyr.Orgs.Create.{OrgAction}

unfoldable pub has_permission : ℕ → ℕ → OrgPermission → Db → Bool
has_permission org_id user_id permission db =
    if db.is_configured
    then elim (select_one (is_membership org_id user_id) db.memberships) [
      | none ↦ false
      | some m ↦ elim m.role [
        | admin ↦ true
        | member ↦ is_some (select_one (is_grant org_id user_id permission) db.permissions)
      ]
    ]
    else false

abbrev pub new_grant : ℕ → ℕ → ℕ → OrgPermission → Option ℕ → OrgMemberPermission
new_grant now org_id user_id permission granted_by = record {
  org_id = org_id;
  user_id = user_id;
  permission = permission;
  granted_by = granted_by;
  granted_at = now;
}

abbrev pub refresh_grant : ℕ → Option ℕ → OrgMemberPermission → OrgMemberPermission
refresh_grant now granted_by p = record p { granted_by = granted_by; granted_at = now }

-- The row that is returned is the one written, with the same columns on both paths.
unfoldable pub grant_permission :
    ℕ → ℕ → ℕ → OrgPermission → Option ℕ → OrgAction OrgMemberPermission
grant_permission now org_id user_id permission granted_by db =
    if db.is_configured
    then elim (select_one (is_membership org_id user_id) db.memberships) [
      | none ↦ throw not_a_member
      | some m ↦ ok (
        new_grant now org_id user_id permission granted_by,
        record db {
          permissions =
              upsert (is_grant org_id user_id permission) (refresh_grant now granted_by)
                (new_grant now org_id user_id permission granted_by) db.permissions;
        },
      )
    ]
    else throw db_not_configured

unfoldable pub revoke_permission : ℕ → ℕ → OrgPermission → OrgAction (Unit {0})
revoke_permission org_id user_id permission db =
    if db.is_configured
    then ok
        (tt, record db { permissions = delete (is_grant org_id user_id permission) db.permissions })
    else throw db_not_configured

unfoldable pub list_permissions : ℕ → Db → List OrgMemberPermission
list_permissions org_id db =
    if db.is_configured then select (λ p. p.org_id == org_id) db.permissions else List.[]

unfoldable pub list_permissions_for_user : ℕ → ℕ → Db → List OrgPermission
list_permissions_for_user org_id user_id db =
    if db.is_configured
    then map (λ p. p.permission) (select (is_grant_of org_id user_id) db.permissions)
    else List.[]
