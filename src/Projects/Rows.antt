-- ===== src/Projects/Rows.antt =====
-- The tables `projects` and `project_memberships` of server/shared/database/schema.ts beside those
-- of the orgs, and the tests of the store's `where` clauses. The column spec_public_version is that
-- of the drafts and is not read here.
use specifyr.Prelude.{ℕ, Bool, ◌&&◌, List, Text, text_eq, ◌==◌}
use specifyr.Orgs.Rows as Orgs

pub record Project : Type 0 where
  pub id : ℕ
  pub slug : Text
  pub owner_org_id : ℕ
  pub created_at : ℕ

pub record ProjectMembership : Type 0 where
  pub project_id : ℕ
  pub user_id : ℕ
  pub created_at : ℕ

pub record Db : Type 0 where
  pub orgs : Orgs.Db
  pub projects : List Project
  pub project_memberships : List ProjectMembership

-- `and(eq(projects.ownerOrgId, org_id), eq(projects.slug, slug))`
abbrev pub is_project : ℕ → Text → Project → Bool
is_project org_id slug p = p.owner_org_id == org_id && text_eq p.slug slug

-- `and(eq(projectMemberships.projectId, project_id), eq(projectMemberships.userId, user_id))`
abbrev pub is_member : ℕ → ℕ → ProjectMembership → Bool
is_member project_id user_id m = m.project_id == project_id && m.user_id == user_id
