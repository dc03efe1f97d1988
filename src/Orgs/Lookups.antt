-- ===== src/Orgs/Lookups.antt =====
-- Lookups in the tables of orgs, invites and grants after a statement.
use specifyr.Prelude.{
  ℕ, ◌≡◌, ◌&&◌, Bool, true, false, Option, none, some, List, [], ◌∷◌, ◌==◌, Text, text_eq_iff,
  arith, if◌then◌else◌, is_some, any,
}
use specifyr.Database.{select_one, update, delete, upsert}
use specifyr.Orgs.Rows.{
  Org, OrgInvite, OrgPermission, manage_extensions, OrgMemberPermission, is_org, is_grant,
  is_grant_of,
}
use specifyr.Orgs.Members.{set_owner}
use specifyr.Orgs.Create.{org_conflicts}
use specifyr.Orgs.Invites.{is_invite, stamp_accepted}
use specifyr.Orgs.Permissions.{refresh_grant, new_grant}

abbrev pub with_owner : ℕ → Option Org → Option Org
with_owner user_id none = none
with_owner user_id (some o) = some (set_owner user_id o)

pub select_org-update :
    (id org_id owner : ℕ) (os : List Org)
    → select_one (is_org id) (update (is_org org_id) (set_owner owner) os) ≡ (
        if id == org_id
        then with_owner owner (select_one (is_org id) os)
        else select_one (is_org id) os)
select_org-update id org_id owner [] = ground arith
select_org-update id org_id owner (o ∷ os) = ground (arith, select_org-update id org_id owner os)

-- A row that breaks no unique key has an id that no row has.
pub select_org-new :
    (o : Org) (os : List Org)
    → any (org_conflicts o) os ≡ false
    → select_one (is_org o.id) os ≡ none
select_org-new o [] h = ground arith
select_org-new o (p ∷ os) h = ground (arith, select_org-new o os)

abbrev pub has_grant : ℕ → ℕ → List OrgMemberPermission → Bool
has_grant org_id user_id ps = is_some (select_one (is_grant_of org_id user_id) ps)

pub has_grant-delete_all :
    (o u o' u' : ℕ) (ps : List OrgMemberPermission)
    → has_grant o u (delete (is_grant_of o' u') ps)
      ≡ (if o == o' && u == u' then false else has_grant o u ps)
has_grant-delete_all o u o' u' [] = ground arith
has_grant-delete_all o u o' u' (p ∷ ps) = ground (arith, has_grant-delete_all o u o' u' ps)

pub has_grant-upsert :
    (o u o' u' now : ℕ) (p : OrgPermission) (by : Option ℕ) (ps : List OrgMemberPermission)
    → has_grant o u (upsert (is_grant o' u' p) (refresh_grant now by) (new_grant now o' u' p by) ps)
      ≡ (if o == o' && u == u' then true else has_grant o u ps)
has_grant-upsert o u o' u' now manage_extensions by [] = ground arith
has_grant-upsert o u o' u' now manage_extensions by (q ∷ ps) =
    ground (arith, has_grant-upsert o u o' u' now manage_extensions by ps)

-- Revoking one permission grants nothing.
pub has_grant-delete :
    (o u o' u' : ℕ) (p : OrgPermission) (ps : List OrgMemberPermission)
    → has_grant o u (delete (is_grant o' u' p) ps) ≡ true
    → has_grant o u ps ≡ true
has_grant-delete o u o' u' manage_extensions [] h = h
has_grant-delete o u o' u' manage_extensions (q ∷ ps) h =
    ground (arith, has_grant-delete o u o' u' manage_extensions ps)

pub has_permission-has_grant :
    (o u : ℕ) (p : OrgPermission) (ps : List OrgMemberPermission)
    → is_some (select_one (is_grant o u p) ps) ≡ has_grant o u ps
has_permission-has_grant o u manage_extensions [] = ground arith
has_permission-has_grant o u manage_extensions (q ∷ ps) =
    ground (arith, has_permission-has_grant o u manage_extensions ps)

pub stamped_accepted :
    (token : Text) (now : ℕ) (is : List OrgInvite) (i : OrgInvite)
    → select_one (is_invite token) is ≡ some i
    → select_one (is_invite token) (update (is_invite token) (stamp_accepted now) is)
      ≡ some (stamp_accepted now i)
stamped_accepted token now [] i h = cc
stamped_accepted token now (j ∷ is) i h = ground (arith, stamped_accepted token now is i)

pub select_invite-token :
    (token : Text) (is : List OrgInvite) (i : OrgInvite)
    → select_one (is_invite token) is ≡ some i
    → i.token ≡ token
select_invite-token token [] i h = cc
select_invite-token token (j ∷ is) i h =
    ground (arith, select_invite-token token is i, text_eq_iff i.token token)
