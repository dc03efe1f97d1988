-- ===== src/Orgs/History.antt =====
-- Histories of the org tables: the invariant over every sequence of operations.
use specifyr.Prelude.{ℕ, ◌≡◌, true, Option, some, List, [], ◌∷◌, ◌≤◌, arith, Text}
use specifyr.Database.{select_one}
use specifyr.Orgs.Rows.{Role, Org, OrgPermission, Db, is_org}
use specifyr.Orgs.Members.{count_admins}
use specifyr.Orgs.Invites.{create_invite, revoke_invite}
use specifyr.Orgs.Permissions.{grant_permission, revoke_permission}
use specifyr.Orgs.Roles.{count-admins_one}
use specifyr.Orgs.Ops.{
  Op, create, set_role, remove, transfer, invite, accept, revoke, grant, revoke_grant, committed,
  apply, apply_all,
}
use specifyr.Orgs.Owner.{
  OwnersAreAdmins, SparesOwner, update_membership_role-OwnersAreAdmins,
  remove_membership-OwnersAreAdmins, transfer_org_ownership-OwnersAreAdmins,
  accept_invite-OwnersAreAdmins, create_org-OwnersAreAdmins,
}
use specifyr.Orgs.Grants.{
  GrantsNeedMembers, update_membership_role-GrantsNeedMembers, remove_membership-GrantsNeedMembers,
  transfer_org_ownership-GrantsNeedMembers, accept_invite-GrantsNeedMembers,
  create_org-GrantsNeedMembers, grant_permission-GrantsNeedMembers,
  revoke_permission-GrantsNeedMembers,
}

pub record IsValid (db : Db) : Type 0 where
  pub owners : OwnersAreAdmins db
  pub grants : GrantsNeedMembers db

-- What an operation must meet to keep the invariant: only a redemption can break it.
abbrev pub Allowed : Op → Db → Type 0
Allowed (accept token user_id now) db = SparesOwner token user_id db
Allowed (create _ _ _ _ _ _) db = Unit
Allowed _ db = Unit

create_invite-IsValid :
    (lower : Text → Text) (token : Text) (now org_id : ℕ) (email : Text) (role : Role) (user_id : ℕ)
    (db : Db)
    → IsValid db
    → IsValid (committed db (create_invite lower token now org_id email role user_id db))
unfolding create_invite
create_invite-IsValid lower token now org_id email role user_id db v = record {
  owners = λ id o e. ground (arith, v.owners id o);
  grants = λ o u e. ground (arith, v.grants o u);
}

revoke_invite-IsValid :
    (token : Text) (now : ℕ) (db : Db)
    → IsValid db
    → IsValid (committed db (revoke_invite token now db))
unfolding revoke_invite
revoke_invite-IsValid token now db v = record {
  owners = λ id o e. ground (arith, v.owners id o);
  grants = λ o u e. ground (arith, v.grants o u);
}

grant_permission-IsValid :
    (now org_id user_id : ℕ) (p : OrgPermission) (by : Option ℕ) (db : Db)
    → IsValid db
    → IsValid (committed db (grant_permission now org_id user_id p by db))
unfolding grant_permission
grant_permission-IsValid now org_id user_id p by db v = record {
  owners = λ id o e. ground (arith, v.owners id o);
  grants = grant_permission-GrantsNeedMembers now org_id user_id p by db v.grants;
}

revoke_permission-IsValid :
    (org_id user_id : ℕ) (p : OrgPermission) (db : Db)
    → IsValid db
    → IsValid (committed db (revoke_permission org_id user_id p db))
unfolding revoke_permission
revoke_permission-IsValid org_id user_id p db v = record {
  owners = λ id o e. ground (arith, v.owners id o);
  grants = revoke_permission-GrantsNeedMembers org_id user_id p db v.grants;
}

pub apply-IsValid :
    (lower : Text → Text) (op : Op) (db : Db)
    → IsValid db
    → Allowed op db
    → IsValid (apply lower op db)
unfolding apply
apply-IsValid lower (create id now pool ddl_ok name user) db v a = record {
  owners = create_org-OwnersAreAdmins id now pool ddl_ok name user db v.owners;
  grants = create_org-GrantsNeedMembers id now pool ddl_ok name user db v.grants;
}
apply-IsValid lower (set_role org user role) db v a = record {
  owners = update_membership_role-OwnersAreAdmins org user role db v.owners;
  grants = update_membership_role-GrantsNeedMembers org user role db v.grants;
}
apply-IsValid lower (remove org user) db v a = record {
  owners = remove_membership-OwnersAreAdmins org user db v.owners;
  grants = remove_membership-GrantsNeedMembers org user db v.grants;
}
apply-IsValid lower (transfer org user) db v a = record {
  owners = transfer_org_ownership-OwnersAreAdmins org user db v.owners;
  grants = transfer_org_ownership-GrantsNeedMembers org user db v.grants;
}
apply-IsValid lower (invite token now org email role user) db v a =
    create_invite-IsValid lower token now org email role user db v
apply-IsValid lower (accept token user now) db v a = record {
  owners = accept_invite-OwnersAreAdmins token user now db v.owners a;
  grants = accept_invite-GrantsNeedMembers token user now db v.grants;
}
apply-IsValid lower (revoke token now) db v a = revoke_invite-IsValid token now db v
apply-IsValid lower (grant now org user p by) db v a =
    grant_permission-IsValid now org user p by db v
apply-IsValid lower (revoke_grant org user p) db v a = revoke_permission-IsValid org user p db v

-- Each operation of the history is allowed where it is made.
abbrev pub AllAllowed : (Text → Text) → List Op → Db → Type 0
AllAllowed lower [] db = Unit
AllAllowed lower (op ∷ ops) db = Allowed op db × AllAllowed lower ops (apply lower op db)

-- Along every history of org operations in which no owner redeems an invite as a plain member,
-- a valid state stays valid: each org's owner is an admin of it, and no permission is held without
-- a membership.
pub apply_all-IsValid :
    (lower : Text → Text) (ops : List Op) (db : Db)
    → IsValid db
    → AllAllowed lower ops db
    → IsValid (apply_all lower ops db)
unfolding apply_all
apply_all-IsValid lower [] db v a = v
apply_all-IsValid lower (op ∷ ops) db v a =
    apply_all-IsValid lower ops (apply lower op db) (apply-IsValid lower op db v a.0) a.1

-- With a database configured and in a valid state, `countAdmins` is at least one for every org that
-- exists.
pub count_admins_pos :
    (org_id : ℕ) (o : Org) (db : Db)
    → IsValid db
    → db.is_configured ≡ true
    → select_one (is_org org_id) db.orgs ≡ some o
    → 1 ≤ count_admins org_id db
unfolding count_admins
count_admins_pos org_id o db v c e =
    rw c (count-admins_one org_id o.owner_user_id db.memberships (v.owners org_id o e))
