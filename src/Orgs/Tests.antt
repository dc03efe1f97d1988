-- ===== src/Orgs/Tests.antt =====
-- The org stores at concrete tables: tests, and the theorems applied.
use specifyr.Prelude.{ℕ, ◌≡◌, refl, ◌↔◌, true, false, none, some, List, [], ◌∷◌, Text, codes, arith}
use specifyr.Prelude.Result.{ok}
use specifyr.Orgs.Rows.{
  Role, admin, member, pending_vault_init, Org, OrgMembership, OrgInvite, manage_extensions, Db,
}
use specifyr.Orgs.Slug.{slugify, to_lower_case}
use specifyr.Orgs.Members.{
  refused, owner_immutable, would_orphan_admins, update_membership_role, remove_membership,
  transfer_org_ownership,
}
use specifyr.Orgs.Invites.{
  create_invite, accept_invite, accepted, rejected, already_used, invite_status, pending,
}
use specifyr.Orgs.Permissions.{has_permission}
use specifyr.Orgs.Auth.{Context}
use specifyr.Orgs.Ops.{
  Op, set_role, remove, invite, revoke, accept, transfer, apply, apply_all, committed,
}
use specifyr.Orgs.History.{IsValid, apply_all-IsValid}
use specifyr.Orgs.Redeem.{result_of, accept_iff_pending}
use specifyr.Orgs.Redeemed.{accept_once}
use specifyr.Orgs.Removed.{removed_member_loses_grants}

abbrev acme : Org
acme = record {
  id = 1;
  slug = codes "acme";
  name = codes "Acme";
  owner_user_id = 10;
  created_by = some 10;
  created_at = 0;
  bridge_subnet = some (codes "10.20.0.0/24");
  init_status = pending_vault_init;
}

abbrev row : ℕ → Role → OrgMembership
row user_id role = record { org_id = 1; user_id = user_id; role = role; created_at = 0 }

abbrev letter : Text → Role → OrgInvite
letter token role = record {
  token = token;
  org_id = 1;
  invited_email = codes "eve@example.org";
  invited_role = role;
  created_by = some 10;
  created_at = 0;
  expires_at = 500;
  accepted_at = none;
  revoked_at = none;
}

-- User 10 owns the org, 11 is an admin and 12 a member who may manage extensions.
abbrev tables : Db
tables = record {
  is_configured = true;
  users = [];
  orgs = acme ∷ [];
  memberships = row 10 admin ∷ row 11 admin ∷ row 12 member ∷ [];
  invites = letter (codes "aa") member ∷ letter (codes "bb") admin ∷ [];
  permissions =
      record {
        org_id = 1;
        user_id = 12;
        permission = manage_extensions;
        granted_by = some 10;
        granted_at = 0;
      }
      ∷ [];
}

tables-IsValid : IsValid tables
tables-IsValid = record { owners = λ id o e. ground arith; grants = λ o u e. ground arith }

demote_owner : (update_membership_role 1 10 member tables).0 ≡ refused owner_immutable
unfolding update_membership_role
demote_owner = refl

-- An org that an owner's demotion by invite has left with one admin cannot lose that one.
orphan_guard :
    let db = record tables { memberships = row 10 member ∷ row 11 admin ∷ [] } in
    (remove_membership 1 11 db).0 ≡ refused would_orphan_admins
unfolding remove_membership
orphan_guard = refl

apply_all-IsValid_example : IsValid (
    apply_all to_lower_case
      (set_role 1 12 admin ∷ transfer 1 12 ∷ accept (codes "aa") 13 7 ∷ [])
      tables)
unfolding apply update_membership_role transfer_org_ownership
apply_all-IsValid_example =
    apply_all-IsValid to_lower_case
      (set_role 1 12 admin ∷ transfer 1 12 ∷ accept (codes "aa") 13 7 ∷ []) tables tables-IsValid
      (tt, (tt, (λ i o f g. ground arith, tt)))

-- The tables after user 13 has redeemed the invite "aa".
joined : Db
joined = committed tables (accept_invite (codes "aa") 13 7 tables)

accept_once_example :
    let after = apply_all to_lower_case (revoke (codes "aa") 9 ∷ remove 1 13 ∷ []) joined in
    accept_invite (codes "aa") 14 10 after ≡ ok (rejected already_used, after)
unfolding joined accept_invite
accept_once_example =
    accept_once to_lower_case (codes "aa") 13 14 7 10 1 (codes "acme") member tables joined
      (revoke (codes "aa") 9 ∷ remove 1 13 ∷ []) refl

accept_iff_pending_example :
    (result_of (accept_invite (codes "aa") 13 7 tables) ≡ ok (accepted 1 (codes "acme") member))
    ↔ (invite_status 7 (letter (codes "aa") member) ≡ pending)
accept_iff_pending_example =
    accept_iff_pending (codes "aa") 13 7 tables (letter (codes "aa") member) acme refl refl refl

-- User 12 leaves, is invited again and joins as a member.
abbrev rejoining : List Op
rejoining =
    invite (codes "cc") 6 1 (codes "bob@example.org") member 10 ∷ accept (codes "cc") 12 7 ∷ []

removed_member_loses_grants_example :
    has_permission 1 12 manage_extensions
      (apply_all to_lower_case rejoining (remove_membership 1 12 tables).1)
    ≡ false
unfolding apply_all apply accept_invite remove_membership create_invite
removed_member_loses_grants_example =
    removed_member_loses_grants to_lower_case 1 12 manage_extensions tables rejoining refl refl
      (λ e. ground (arith, e))

abbrev context : Context
context = record { user_id = 11; org = acme; membership = row 11 admin }

acme_slug : slugify (codes "  Acme, Inc.  (EU) ") ≡ codes "acme-inc-eu"
unfolding slugify
acme_slug = refl
