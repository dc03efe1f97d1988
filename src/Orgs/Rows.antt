-- ===== src/Orgs/Rows.antt =====
-- The rows of the tables that the org stores read and write
-- (server/shared/database/schema.ts), and the tests of their `where` clauses. Row ids are UUIDs,
-- which are 128-bit numbers; times are milliseconds.
use specifyr.Prelude.{ℕ, Bool, true, false, ◌&&◌, Option, List, Text, ◌==◌}

pub data Role : Type 0 where
  admin member : Role

abbrev pub role_eq : Role → Role → Bool
role_eq admin admin = true
role_eq member member = true
role_eq _ _ = false

pub data InitStatus : Type 0 where
  pending_vault_init ready : InitStatus

pub record User : Type 0 where
  pub id : ℕ
  pub email : Text
  pub display_name : Option Text

pub record Org : Type 0 where
  pub id : ℕ
  pub slug : Text
  pub name : Text
  pub owner_user_id : ℕ
  pub created_by : Option ℕ
  pub created_at : ℕ
  pub bridge_subnet : Option Text
  pub init_status : InitStatus

pub record OrgMembership : Type 0 where
  pub org_id : ℕ
  pub user_id : ℕ
  pub role : Role
  pub created_at : ℕ

pub record OrgInvite : Type 0 where
  pub token : Text
  pub org_id : ℕ
  pub invited_email : Text
  pub invited_role : Role
  pub created_by : Option ℕ
  pub created_at : ℕ
  pub expires_at : ℕ
  pub accepted_at : Option ℕ
  pub revoked_at : Option ℕ

pub data OrgPermission : Type 0 where
  manage_extensions : OrgPermission

abbrev pub permission_eq : OrgPermission → OrgPermission → Bool
permission_eq manage_extensions manage_extensions = true

pub record OrgMemberPermission : Type 0 where
  pub org_id : ℕ
  pub user_id : ℕ
  pub permission : OrgPermission
  pub granted_by : Option ℕ
  pub granted_at : ℕ

-- `is_configured` says whether `getDb()` returns a database.
pub record Db : Type 0 where
  pub is_configured : Bool
  pub users : List User
  pub orgs : List Org
  pub memberships : List OrgMembership
  pub invites : List OrgInvite
  pub permissions : List OrgMemberPermission

pub data Error : Type 0 where
  db_not_configured invalid_slug unique_violation foreign_key_violation : Error
  ddl_failed missing_org no_row not_a_member subnet_failed : Error

-- `eq(orgs.id, org_id)`
abbrev pub is_org : ℕ → Org → Bool
is_org org_id o = o.id == org_id

-- `and(eq(orgMemberships.orgId, org_id), eq(orgMemberships.userId, user_id))`
abbrev pub is_membership : ℕ → ℕ → OrgMembership → Bool
is_membership org_id user_id m = m.org_id == org_id && m.user_id == user_id

-- `and(eq(orgMemberships.orgId, org_id), eq(orgMemberships.role, "admin"))`
abbrev pub is_admin_of : ℕ → OrgMembership → Bool
is_admin_of org_id m = m.org_id == org_id && role_eq m.role admin

-- The row of (org_id, user_id) in the grants, whatever the permission.
abbrev pub is_grant_of : ℕ → ℕ → OrgMemberPermission → Bool
is_grant_of org_id user_id p = p.org_id == org_id && p.user_id == user_id

abbrev pub is_grant : ℕ → ℕ → OrgPermission → OrgMemberPermission → Bool
is_grant org_id user_id permission p =
    p.org_id == org_id && (p.user_id == user_id && permission_eq p.permission permission)
