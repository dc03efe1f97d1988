-- ===== src/Orgs/Access.antt =====
-- What the route guards let through.
use specifyr.Prelude.{
  ℕ, ◌≡◌, ◌↔◌, true, Option, none, some, [], ◌∷◌, arith, Text, Option-cases, inl, inr,
}
use specifyr.Orgs.Rows.{admin, OrgPermission, Db}
use specifyr.Orgs.Create.{get_org_by_slug}
use specifyr.Orgs.Members.{get_membership}
use specifyr.Orgs.Permissions.{has_permission}
use specifyr.Orgs.Auth.{
  Context, granted, require_org_membership, require_org_admin, require_org_permission,
}
use specifyr.Orgs.Roles.{role_of}

-- Whoever passes `requireOrgAdmin` is the authenticated caller and an admin of the org with the
-- slug of the route.
pub require_org_admin_sound :
    (caller : Option ℕ) (slug : Text) (db : Db) (ctx : Context)
    → require_org_admin caller (some slug) db ≡ granted ctx
    → (caller ≡ some ctx.user_id)
      × (get_org_by_slug slug db ≡ some ctx.org)
      × (role_of ctx.org.id ctx.user_id db.memberships ≡ some admin)
unfolding require_org_admin get_membership
require_org_admin_sound none slug db ctx e = ground arith
require_org_admin_sound (some u) [] db ctx e = ground arith
require_org_admin_sound (some u) (c ∷ slug) db ctx e =
    elim (Option-cases (get_org_by_slug (c ∷ slug) db)) [
      | inl missing ↦ ground arith
      | inr (org, found) ↦ ground arith
    ]

-- `requireOrgPermission` lets through exactly the members for whom `hasPermission` holds.
pub require_org_permission_iff :
    (caller : Option ℕ) (slug : Option Text) (p : OrgPermission) (db : Db) (ctx : Context)
    → (require_org_permission caller slug p db ≡ granted ctx) ↔ (
        (require_org_membership caller slug db ≡ granted ctx)
        × (has_permission ctx.org.id ctx.user_id p db ≡ true))
unfolding require_org_permission has_permission get_membership
require_org_permission_iff none slug p db ctx = (λ e. ground arith, λ h. ground arith)
require_org_permission_iff (some u) none p db ctx = (λ e. ground arith, λ h. ground arith)
require_org_permission_iff (some u) (some []) p db ctx = (λ e. ground arith, λ h. ground arith)
require_org_permission_iff (some u) (some (c ∷ slug)) p db ctx =
    elim (Option-cases (get_org_by_slug (c ∷ slug) db)) [
      | inl missing ↦ (λ e. ground arith, λ h. ground arith)
      | inr (org, found) ↦ (λ e. ground arith, λ h. ground arith)
    ]
