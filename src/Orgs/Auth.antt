-- ===== src/Orgs/Auth.antt =====
-- The route guards of server/shared/utils/org-auth.ts. The caller's id and the slug of the route
-- are what `event.context.userId` and `getRouterParam` give.
use specifyr.Prelude.{ℕ, Option, none, some, [], ◌∷◌, Text, if◌then◌else◌}
use specifyr.Orgs.Rows.{admin, role_eq, Org, OrgMembership, OrgPermission, Db}
use specifyr.Orgs.Create.{get_org_by_slug}
use specifyr.Orgs.Members.{get_membership}
use specifyr.Orgs.Permissions.{has_permission}

pub data Denial : Type 0 where
  not_authenticated slug_required org_not_found not_a_member admin_only : Denial
  requires_permission : OrgPermission → Denial

pub record Context : Type 0 where
  pub user_id : ℕ
  pub org : Org
  pub membership : OrgMembership

pub data Access : Type 0 where
  granted : Context → Access
  denied : Denial → Access

-- The status code of the error that is thrown.
unfoldable pub status_code : Denial → ℕ
status_code not_authenticated = 401
status_code slug_required = 400
status_code org_not_found = 404
status_code _ = 403

abbrev ◌>>=◌ : Access → (Context → Access) → Access
granted c >>= f = f c
denied d >>= f = denied d

infixl 5 ◌>>=◌
unfoldable pub require_org_membership : Option ℕ → Option Text → Db → Access
require_org_membership none slug db = denied not_authenticated
require_org_membership (some user_id) none db = denied slug_required
require_org_membership (some user_id) (some []) db = denied slug_required
require_org_membership (some user_id) (some (c ∷ slug)) db = elim (get_org_by_slug (c ∷ slug) db) [
  | none ↦ denied org_not_found
  | some org ↦ elim (get_membership org.id user_id db) [
    | none ↦ denied not_a_member
    | some m ↦ granted (record { user_id = user_id; org = org; membership = m })
  ]
]

unfoldable pub require_org_admin : Option ℕ → Option Text → Db → Access
unfolding require_org_membership
require_org_admin user_id slug db = do
  ctx ← require_org_membership user_id slug db
  if role_eq ctx.membership.role admin then granted ctx else denied admin_only

-- What `requireOrgPermission` does with the member that it has found.
permit : OrgPermission → Db → Context → Access
permit permission db ctx =
    if role_eq ctx.membership.role admin
    then granted ctx
    else if has_permission ctx.org.id ctx.user_id permission db
    then granted ctx
    else denied (requires_permission permission)

unfoldable pub require_org_permission : Option ℕ → Option Text → OrgPermission → Db → Access
unfolding require_org_membership permit
require_org_permission user_id slug permission db = do
  ctx ← require_org_membership user_id slug db
  permit permission db ctx
