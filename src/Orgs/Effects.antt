-- ===== src/Orgs/Effects.antt =====
-- What each operation on memberships and invites does on all its branches.
use specifyr.Prelude.{
  ℕ, ◌≡◌, ◌≢◌, inl, inr, ◌&&◌, Bool, true, false, none, some, arith, ◌==◌, Option-cases,
  if◌then◌else◌,
}
use specifyr.Database.{select_one}
use specifyr.Orgs.Rows.{Role, Db, is_org}
use specifyr.Orgs.Members.{
  would_orphan_admins, MutationResult, done, refused, update_membership_role, remove_membership,
}
use specifyr.Orgs.Roles.{role_of, role_of-update, role_of-delete, count-admins_two}
use specifyr.Orgs.History.{IsValid}

abbrev pub is_done : MutationResult → Bool
is_done done = true
is_done (refused _) = false

-- After `updateMembershipRole` the user has the new role if it succeeded; every other role is as
-- before, and if it was refused no role has changed.
pub update_membership_role_effect :
    (org_id user_id : ℕ) (role : Role) (db : Db) (o u : ℕ)
    → let (r, db') = update_membership_role org_id user_id role db in
      role_of o u db'.memberships ≡ (
        if is_done r && (o == org_id && u == user_id)
        then some role
        else role_of o u db.memberships)
unfolding update_membership_role
update_membership_role_effect org_id user_id role db o u =
    ground (arith, role_of-update o u org_id user_id role db.memberships)

-- After `removeMembership` the user has no role in the org if it succeeded; every other role is as
-- before, and if it was refused no role has changed.
pub remove_membership_effect :
    (org_id user_id : ℕ) (db : Db) (o u : ℕ)
    → let (r, db') = remove_membership org_id user_id db in
      role_of o u db'.memberships
      ≡ (if is_done r && (o == org_id && u == user_id) then none else role_of o u db.memberships)
unfolding remove_membership
remove_membership_effect org_id user_id db o u =
    ground (arith, role_of-delete o u org_id user_id db.memberships)

-- In a valid state neither `updateMembershipRole` nor `removeMembership` is ever refused because it
-- would leave the org without an admin.
pub no_orphan_refusal :
    (org_id user_id : ℕ) (role : Role) (db : Db)
    → IsValid db
    → ((update_membership_role org_id user_id role db).0 ≢ refused would_orphan_admins)
      × ((remove_membership org_id user_id db).0 ≢ refused would_orphan_admins)
unfolding update_membership_role remove_membership
no_orphan_refusal org_id user_id role db v =
    elim (Option-cases (select_one (is_org org_id) db.orgs)) [
      | inl missing ↦ ground arith
      | inr (org, found) ↦ ground (
        arith,
        v.owners org_id org,
        count-admins_two org_id org.owner_user_id user_id db.memberships,
      )
    ]
