-- ===== src/Orgs/Owner.antt =====
-- The owner of an org holds an admin membership: what each operation does to that.
use specifyr.Prelude.{ℕ, ◌≡◌, ◌≢◌, ◌⊎◌, Bool, some, arith, Text, inl, inr, Option-cases}
use specifyr.Database.{select_one, update}
use specifyr.Orgs.Rows.{Role, admin, Org, OrgInvite, Db, is_org, is_membership}
use specifyr.Orgs.Create.{create_org_with_admin}
use specifyr.Orgs.Members.{
  set_role, update_membership_role, remove_membership, transfer_org_ownership,
}
use specifyr.Orgs.Invites.{accept_invite, is_invite, invited_membership}
use specifyr.Orgs.Roles.{role_of, role_of-update, role_of-delete, role_of-upsert}
use specifyr.Orgs.Lookups.{select_org-update}
use specifyr.Orgs.Ops.{committed}

-- Every org that a lookup by id finds has an owner who is an admin of it.
abbrev pub OwnersAreAdmins : Db → Type 0
OwnersAreAdmins db =
    (id : ℕ) (o : Org)
    → select_one (is_org id) db.orgs ≡ some o
    → role_of id o.owner_user_id db.memberships ≡ some admin

pub update_membership_role-OwnersAreAdmins :
    (org_id user_id : ℕ) (role : Role) (db : Db)
    → OwnersAreAdmins db
    → OwnersAreAdmins (update_membership_role org_id user_id role db).1
unfolding update_membership_role
update_membership_role-OwnersAreAdmins org_id user_id role db h id o e =
    ground (arith, h id o, role_of-update id o.owner_user_id org_id user_id role db.memberships)

pub remove_membership-OwnersAreAdmins :
    (org_id user_id : ℕ) (db : Db)
    → OwnersAreAdmins db
    → OwnersAreAdmins (remove_membership org_id user_id db).1
unfolding remove_membership
remove_membership-OwnersAreAdmins org_id user_id db h id o e =
    ground (arith, h id o, role_of-delete id o.owner_user_id org_id user_id db.memberships)

pub transfer_org_ownership-OwnersAreAdmins :
    (org_id user_id : ℕ) (db : Db)
    → OwnersAreAdmins db
    → OwnersAreAdmins (transfer_org_ownership org_id user_id db).1
unfolding transfer_org_ownership
transfer_org_ownership-OwnersAreAdmins org_id user_id db h id o e =
    elim (Option-cases (select_one (is_org org_id) db.orgs)) [
      | inl missing ↦ ground (arith, h id o)
      | inr (org, found) ↦ ground (
        arith,
        h id o,
        select_org-update id org_id user_id db.orgs,
        role_of-update id o.owner_user_id org_id org.owner_user_id admin
            (update (is_membership org_id user_id) (set_role admin) db.memberships),
        role_of-update id o.owner_user_id org_id user_id admin db.memberships,
      )
    ]

-- The redemption does not demote the owner: the invite is for an admin, or for someone else.
abbrev pub SparesOwner : Text → ℕ → Db → Type 0
SparesOwner token user_id db =
    (i : OrgInvite) (o : Org)
    → select_one (is_invite token) db.invites ≡ some i
    → select_one (is_org i.org_id) db.orgs ≡ some o
    → (o.owner_user_id ≢ user_id) ⊎ (i.invited_role ≡ admin)

pub accept_invite-OwnersAreAdmins :
    (token : Text) (user_id now : ℕ) (db : Db)
    → OwnersAreAdmins db
    → SparesOwner token user_id db
    → OwnersAreAdmins (committed db (accept_invite token user_id now db))
unfolding accept_invite
accept_invite-OwnersAreAdmins token user_id now db h spare id o e =
    elim (Option-cases (select_one (is_invite token) db.invites)) [
      | inl missing ↦ ground (arith, h id o)
      | inr (i, found) ↦ ground (
        arith,
        h id o,
        spare i o,
        role_of-upsert id o.owner_user_id (invited_membership now user_id i) db.memberships,
      )
    ]

pub create_org-OwnersAreAdmins :
    (new_id now : ℕ) (pool : Text) (ddl_ok : Bool) (name : Text) (creator : ℕ) (db : Db)
    → OwnersAreAdmins db
    → OwnersAreAdmins (committed db (create_org_with_admin new_id now pool ddl_ok name creator db))
unfolding create_org_with_admin
create_org-OwnersAreAdmins new_id now pool ddl_ok name creator db h id o e = ground (arith, h id o)
