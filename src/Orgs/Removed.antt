-- ===== src/Orgs/Removed.antt =====
-- What stays of a removal: the grants of a removed member are gone for good.
use specifyr.Prelude.{
  Text, ℕ, ◌≡◌, ◌≢◌, ◌&&◌, Bool, false, some, List, [], ◌∷◌, arith, ◌==◌, any, Option-cases, inl,
  inr,
}
use specifyr.Database.{select_one}
use specifyr.Orgs.Rows.{admin, OrgPermission, Db}
use specifyr.Orgs.Create.{create_org_with_admin}
use specifyr.Orgs.Members.{done, update_membership_role, remove_membership, transfer_org_ownership}
use specifyr.Orgs.Invites.{create_invite, accept_invite, revoke_invite, is_invite}
use specifyr.Orgs.Permissions.{has_permission, grant_permission, revoke_permission}
use specifyr.Orgs.Roles.{role_of}
use specifyr.Orgs.Lookups.{
  has_grant, has_grant-delete_all, has_grant-upsert, has_grant-delete, has_permission-has_grant,
}
use specifyr.Orgs.Ops.{
  Op, create, set_role, remove, transfer, invite, accept, revoke, grant, revoke_grant, apply,
  apply_all,
}

-- The request grants the user a permission of the org.
abbrev pub grants_to : ℕ → ℕ → Op → Bool
grants_to org_id user_id (grant _ org user _ _) = org_id == org && user_id == user
grants_to org_id user_id (create _ _ _ _ _ _) = false
grants_to org_id user_id _ = false

apply-has_grant :
    (lower : Text → Text) (o u : ℕ) (op : Op) (db : Db)
    → grants_to o u op ≡ false
    → has_grant o u db.permissions ≡ false
    → has_grant o u (apply lower op db).permissions ≡ false
unfolding apply create_org_with_admin update_membership_role remove_membership
    transfer_org_ownership create_invite accept_invite revoke_invite grant_permission
    revoke_permission
apply-has_grant lower o u (create id now pool ddl_ok name user) db f h = ground arith
apply-has_grant lower o u (set_role org user role) db f h = ground arith
apply-has_grant lower o u (remove org user) db f h =
    ground (arith, has_grant-delete_all o u org user db.permissions)
apply-has_grant lower o u (transfer org user) db f h = ground arith
apply-has_grant lower o u (invite t now org email role user) db f h = ground arith
apply-has_grant lower o u (accept t user now) db f h =
    elim (Option-cases (select_one (is_invite t) db.invites)) [
      | inl missing ↦ ground (arith, missing)
      | inr (i, found) ↦ ground (arith, found)
    ]
apply-has_grant lower o u (revoke t now) db f h = ground arith
apply-has_grant lower o u (grant now org user p by) db f h =
    ground (arith, has_grant-upsert o u org user now p by db.permissions)
apply-has_grant lower o u (revoke_grant org user p) db f h =
    ground (arith, has_grant-delete o u org user p db.permissions)

apply_all-has_grant :
    (lower : Text → Text) (o u : ℕ) (ops : List Op) (db : Db)
    → any (grants_to o u) ops ≡ false
    → has_grant o u db.permissions ≡ false
    → has_grant o u (apply_all lower ops db).permissions ≡ false
unfolding apply_all
apply_all-has_grant lower o u [] db f h = h
apply_all-has_grant lower o u (op ∷ ops) db f h =
    apply_all-has_grant lower o u ops (apply lower op db) (ground (arith, f))
      (apply-has_grant lower o u op db (ground (arith, f)) h)

removed-has_grant :
    (o u : ℕ) (db : Db)
    → (remove_membership o u db).0 ≡ done
    → has_grant o u (remove_membership o u db).1.permissions ≡ false
unfolding remove_membership
removed-has_grant o u db e = ground (arith, has_grant-delete_all o u o u db.permissions)

has_permission-ungranted :
    (o u : ℕ) (p : OrgPermission) (db : Db)
    → has_grant o u db.permissions ≡ false
    → role_of o u db.memberships ≢ some admin
    → has_permission o u p db ≡ false
unfolding has_permission
has_permission-ungranted o u p db h no_admin =
    ground (arith, h, no_admin, has_permission-has_grant o u p db.permissions)

-- Once a member has been removed, and after any org operations behind that, invites and joins of
-- the user included, of which none grants the user a permission of the org: a user who is not an
-- admin of the org has no permission in it, whatever was granted before the removal.
pub removed_member_loses_grants :
    (lower : Text → Text) (org_id user_id : ℕ) (p : OrgPermission) (db : Db) (ops : List Op)
    → (remove_membership org_id user_id db).0 ≡ done
    → any (grants_to org_id user_id) ops ≡ false
    → role_of org_id user_id
        (apply_all lower ops (remove_membership org_id user_id db).1).memberships
      ≢ some admin
    → has_permission org_id user_id p (apply_all lower ops (remove_membership org_id user_id db).1)
      ≡ false
removed_member_loses_grants lower org_id user_id p db ops removed ungranted no_admin =
    let after = (remove_membership org_id user_id db).1 in
    has_permission-ungranted org_id user_id p (apply_all lower ops after)
      (apply_all-has_grant lower org_id user_id ops after ungranted
        (removed-has_grant org_id user_id db removed))
      no_admin
