-- ===== src/Orgs/Redeem.antt =====
-- Redemption of invites and transfer of ownership, on all branches.
use specifyr.Prelude.{
  ℕ, ◌≡◌, ◌↔◌, inl, inr, ◌&&◌, true, some, arith, ◌==◌, Text, Option-cases, if◌then◌else◌,
}
use specifyr.Prelude.Result.{Result, ok, throw}
use specifyr.Database.{select_one, update}
use specifyr.Orgs.Rows.{Role, admin, Org, OrgInvite, Error, Db, is_org, is_membership}
use specifyr.Orgs.Members.{done, set_role, set_owner, transfer_org_ownership}
use specifyr.Orgs.Invites.{
  accept_invite, accept_check, is_invite, accepted, invited_membership, pending, invite_status,
}
use specifyr.Orgs.Roles.{role_of, replaced, role_of-update, role_of-upsert}
use specifyr.Orgs.Lookups.{select_org-update}

abbrev pub result_of : {A : Type 0} → Result Error (A × Db) → Result Error A
result_of (ok (a, _)) = ok a
result_of (throw e) = throw e

-- With a database configured, for an invite whose org exists, `acceptInvite` lets the invite through
-- exactly when `GET /api/invites/:token` shows it as pending.
pub accept_iff_pending :
    (token : Text) (user_id now : ℕ) (db : Db) (i : OrgInvite) (o : Org)
    → db.is_configured ≡ true
    → select_one (is_invite token) db.invites ≡ some i
    → select_one (is_org i.org_id) db.orgs ≡ some o
    → (result_of (accept_invite token user_id now db)
        ≡ ok (accepted i.org_id o.slug i.invited_role))
      ↔ (invite_status now i ≡ pending)
unfolding accept_invite accept_check invite_status
accept_iff_pending token user_id now db i o c f g = (λ e. ground arith, λ s. ground arith)

-- Who presents the token makes no difference to whether it is accepted, and the invited address
-- is never compared with the user.
pub accept_any_user :
    (token : Text) (u v now : ℕ) (db : Db)
    → result_of (accept_invite token u now db) ≡ result_of (accept_invite token v now db)
unfolding accept_invite
accept_any_user token u v now db = ground arith

-- An accepted invite gives the user its role in its org, and leaves every other role alone.
pub accept_effect :
    (token : Text) (user_id now org_id : ℕ) (slug : Text) (role : Role) (db db' : Db) (o u : ℕ)
    → accept_invite token user_id now db ≡ ok (accepted org_id slug role, db')
    → role_of o u db'.memberships
      ≡ (if o == org_id && u == user_id then some role else role_of o u db.memberships)
unfolding accept_invite
accept_effect token user_id now org_id slug role db db' o u e =
    elim (Option-cases (select_one (is_invite token) db.invites)) [
      | inl missing ↦ ground arith
      | inr (i, found) ↦
          ground (arith, role_of-upsert o u (invited_membership now user_id i) db.memberships)
    ]

-- A transfer that succeeds makes the new owner the owner and an admin, and the old owner an admin
-- if a member; every other role and every other org is as before.
pub transfer_effect :
    (org_id new_owner : ℕ) (db : Db) (o u : ℕ) (org : Org)
    → select_one (is_org org_id) db.orgs ≡ some org
    → (transfer_org_ownership org_id new_owner db).0 ≡ done
    → let db' = (transfer_org_ownership org_id new_owner db).1 in
      (select_one (is_org o) db'.orgs
        ≡ (if o == org_id then some (set_owner new_owner org) else select_one (is_org o) db.orgs))
      × (role_of o u db'.memberships ≡ (
          if o == org_id && u == new_owner
          then some admin
          else if o == org_id && u == org.owner_user_id
          then replaced admin (role_of o u db.memberships)
          else role_of o u db.memberships))
unfolding transfer_org_ownership
transfer_effect org_id new_owner db o u org found e =
    let promoted = update (is_membership org_id new_owner) (set_role admin) db.memberships in
    (
      ground (arith, select_org-update o org_id new_owner db.orgs),
      ground (
        arith,
        role_of-update o u org_id org.owner_user_id admin promoted,
        role_of-update o u org_id new_owner admin db.memberships,
      ),
    )
