-- ===== src/Orgs/Grants.antt =====
-- Delegated permissions rest on memberships.
use specifyr.Prelude.{ℕ, ◌≡◌, Bool, false, Option, none, arith, Text, inl, inr, Option-cases}
use specifyr.Database.{select_one, update}
use specifyr.Orgs.Rows.{Role, admin, OrgPermission, Db, is_org, is_membership}
use specifyr.Orgs.Create.{create_org_with_admin}
use specifyr.Orgs.Members.{
  set_role, update_membership_role, remove_membership, transfer_org_ownership,
}
use specifyr.Orgs.Invites.{accept_invite, is_invite, invited_membership}
use specifyr.Orgs.Permissions.{grant_permission, revoke_permission}
use specifyr.Orgs.Roles.{role_of, role_of-update, role_of-delete, role_of-upsert}
use specifyr.Orgs.Lookups.{has_grant, has_grant-delete_all, has_grant-upsert, has_grant-delete}
use specifyr.Orgs.Ops.{committed}

-- A user without a membership holds no grant: the foreign key of the grants.
abbrev pub GrantsNeedMembers : Db → Type 0
GrantsNeedMembers db =
    (o u : ℕ) → role_of o u db.memberships ≡ none → has_grant o u db.permissions ≡ false

pub update_membership_role-GrantsNeedMembers :
    (org_id user_id : ℕ) (role : Role) (db : Db)
    → GrantsNeedMembers db
    → GrantsNeedMembers (update_membership_role org_id user_id role db).1
unfolding update_membership_role
update_membership_role-GrantsNeedMembers org_id user_id role db h o u e =
    ground (arith, h o u, role_of-update o u org_id user_id role db.memberships)

pub remove_membership-GrantsNeedMembers :
    (org_id user_id : ℕ) (db : Db)
    → GrantsNeedMembers db
    → GrantsNeedMembers (remove_membership org_id user_id db).1
unfolding remove_membership
remove_membership-GrantsNeedMembers org_id user_id db h o u e = ground (
  arith,
  h o u,
  role_of-delete o u org_id user_id db.memberships,
  has_grant-delete_all o u org_id user_id db.permissions,
)

pub transfer_org_ownership-GrantsNeedMembers :
    (org_id user_id : ℕ) (db : Db)
    → GrantsNeedMembers db
    → GrantsNeedMembers (transfer_org_ownership org_id user_id db).1
unfolding transfer_org_ownership
transfer_org_ownership-GrantsNeedMembers org_id user_id db h o u e =
    elim (Option-cases (select_one (is_org org_id) db.orgs)) [
      | inl missing ↦ ground (arith, h o u)
      | inr (org, found) ↦ ground (
        arith,
        h o u,
        role_of-update o u org_id org.owner_user_id admin
            (update (is_membership org_id user_id) (set_role admin) db.memberships),
        role_of-update o u org_id user_id admin db.memberships,
      )
    ]

pub accept_invite-GrantsNeedMembers :
    (token : Text) (user_id now : ℕ) (db : Db)
    → GrantsNeedMembers db
    → GrantsNeedMembers (committed db (accept_invite token user_id now db))
unfolding accept_invite
accept_invite-GrantsNeedMembers token user_id now db h o u e =
    elim (Option-cases (select_one (is_invite token) db.invites)) [
      | inl missing ↦ ground (arith, h o u)
      | inr (i, found) ↦
          ground
            (arith, h o u, role_of-upsert o u (invited_membership now user_id i) db.memberships)
    ]

pub create_org-GrantsNeedMembers :
    (new_id now : ℕ) (pool : Text) (ddl_ok : Bool) (name : Text) (creator : ℕ) (db : Db)
    → GrantsNeedMembers db
    → GrantsNeedMembers
        (committed db (create_org_with_admin new_id now pool ddl_ok name creator db))
unfolding create_org_with_admin
create_org-GrantsNeedMembers new_id now pool ddl_ok name creator db h o u e = ground (arith, h o u)

pub grant_permission-GrantsNeedMembers :
    (now org_id user_id : ℕ) (p : OrgPermission) (by : Option ℕ) (db : Db)
    → GrantsNeedMembers db
    → GrantsNeedMembers (committed db (grant_permission now org_id user_id p by db))
unfolding grant_permission
grant_permission-GrantsNeedMembers now org_id user_id p by db h o u e =
    ground (arith, h o u, has_grant-upsert o u org_id user_id now p by db.permissions)

pub revoke_permission-GrantsNeedMembers :
    (org_id user_id : ℕ) (p : OrgPermission) (db : Db)
    → GrantsNeedMembers db
    → GrantsNeedMembers (committed db (revoke_permission org_id user_id p db))
unfolding revoke_permission
revoke_permission-GrantsNeedMembers org_id user_id p db h o u e =
    ground (arith, h o u, has_grant-delete o u org_id user_id p db.permissions)
