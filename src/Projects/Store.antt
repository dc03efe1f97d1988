-- ===== src/Projects/Store.antt =====
-- The operations of server/shared/utils/project-store.ts. Generated ids and the time are arguments.
use specifyr.Prelude.{
  ℕ, Bool, true, false, not, ◌&&◌, ◌||◌, Option, none, some, List, [], ◌∷◌, ◌++◌, map, Text,
  text_eq, ◌==◌, any, is_some, if◌then◌else◌,
}
use specifyr.Prelude.Result.{Result, ok, ◌>>◌, require}
use specifyr.Database.{select, select_one, delete}
use specifyr.Orgs.Rows.{admin, role_eq, User, OrgMembership, is_org, is_membership}
use specifyr.Projects.Rows.{Project, ProjectMembership, Db, is_project, is_member}

pub data Error : Type 0 where
  unique_violation foreign_key_violation : Error

-- The insert fails on the key (owner_org_id, slug), on the id, and for an org that is not there.
unfoldable pub record_project_ownership : ℕ → ℕ → Text → ℕ → Db → Result Error (Option Project × Db)
record_project_ownership id now slug org_id db =
    if db.orgs.is_configured
    then (let row : Project = record {
      id = id;
      slug = slug;
      owner_org_id = org_id;
      created_at = now;
    } in
        do
          require (is_some (select_one (is_org org_id) db.orgs.orgs)) foreign_key_violation
          require (not (any (λ p. p.id == id) db.projects)) unique_violation
          require (not (any (is_project org_id slug) db.projects)) unique_violation
          ok (some row, record db { projects = row ∷ db.projects }))
    else ok (none, db)

unfoldable pub get_project_by_org_and_slug : ℕ → Text → Db → Option Project
get_project_by_org_and_slug org_id slug db =
    if db.orgs.is_configured then select_one (is_project org_id slug) db.projects else none

-- The membership is of a project that is deleted (`onDelete: "cascade"`).
abbrev pub is_of_deleted : ℕ → Text → List Project → ProjectMembership → Bool
is_of_deleted org_id slug ps m = any (λ p. is_project org_id slug p && p.id == m.project_id) ps

unfoldable pub delete_project_from_db : ℕ → Text → Db → Bool × Db
delete_project_from_db org_id slug db =
    if db.orgs.is_configured
    then (
      any (is_project org_id slug) db.projects,
      record db {
        projects = delete (is_project org_id slug) db.projects;
        project_memberships = delete (is_of_deleted org_id slug db.projects) db.project_memberships;
      },
    )
    else (false, db)

-- `leftJoin`: the rows that match, or one row of nulls.
abbrev pub left_join {ℓ} : {R : Type ℓ} → (R → Bool) → List R → List (Option R)
left_join p rows = elim (select p rows) [ [] ↦ none ∷ [] | r ∷ rs ↦ some r ∷ map some rs ]

-- The `where` of the query on a joined row.
abbrev pub shows : Option OrgMembership → Option ProjectMembership → Bool
shows none pm = is_some pm
shows (some m) pm = role_eq m.role admin || is_some pm

-- Some joined row of the project passes the `where`.
abbrev pub is_listed : ℕ → List OrgMembership → List ProjectMembership → Project → Bool
is_listed user_id ms pms p =
    any (λ m. any (shows m) (left_join (is_member p.id user_id) pms))
      (left_join (is_membership p.owner_org_id user_id) ms)

abbrev pub Key : Type 0
Key = ℕ × Text

abbrev pub key_eq : Key → Key → Bool
key_eq (o, s) (o', s') = o == o' && text_eq s s'

abbrev pub key_of : Project → Key
key_of p = (p.owner_org_id, p.slug)

-- `selectDistinct`
abbrev pub distinct : List Key → List Key
distinct [] = []
distinct (k ∷ ks) = let rest = distinct ks in if any (key_eq k) rest then rest else k ∷ rest

unfoldable pub list_project_keys_for_user : ℕ → Db → List Key
list_project_keys_for_user user_id db =
    if db.orgs.is_configured
    then distinct (
        map key_of
          (select (is_listed user_id db.orgs.memberships db.project_memberships) db.projects))
    else []

-- The two lookups of `canUserAccessProject`, once the project is found.
abbrev pub is_admin_row : ℕ → ℕ → OrgMembership → Bool
is_admin_row org_id user_id m = is_membership org_id user_id m && role_eq m.role admin

abbrev pub has_access : ℕ → List OrgMembership → List ProjectMembership → Project → Bool
has_access user_id ms pms p =
    if is_some (select_one (is_admin_row p.owner_org_id user_id) ms)
    then true
    else is_some (select_one (is_member p.id user_id) pms)

unfoldable pub can_user_access_project : ℕ → Text → ℕ → Db → Bool
unfolding get_project_by_org_and_slug
can_user_access_project org_id slug user_id db =
    if db.orgs.is_configured
    then elim (get_project_by_org_and_slug org_id slug db) [
      | none ↦ false
      | some p ↦ has_access user_id db.orgs.memberships db.project_memberships p
    ]
    else false

-- `onConflictDoNothing`: a row that is there already is not returned. The project must exist.
unfoldable pub add_project_member : ℕ → ℕ → ℕ → Db → Result Error (Option ProjectMembership × Db)
add_project_member now project_id user_id db =
    if db.orgs.is_configured
    then (let row : ProjectMembership = record {
      project_id = project_id;
      user_id = user_id;
      created_at = now;
    } in
        if any (is_member project_id user_id) db.project_memberships then ok (none, db) else do
          require (any (λ p. p.id == project_id) db.projects) foreign_key_violation
          ok (some row, record db { project_memberships = row ∷ db.project_memberships }))
    else ok (none, db)

unfoldable pub remove_project_member : ℕ → ℕ → Db → Bool × Db
remove_project_member project_id user_id db =
    if db.orgs.is_configured
    then (
      any (is_member project_id user_id) db.project_memberships,
      record db {
        project_memberships = delete (is_member project_id user_id) db.project_memberships;
      },
    )
    else (false, db)

pub record ProjectMemberRow : Type 0 where
  pub user_id : ℕ
  pub email : Text
  pub display_name : Option Text
  pub created_at : ℕ

-- `innerJoin(users, eq(users.id, projectMemberships.userId))`
abbrev member_rows : ProjectMembership → List User → List ProjectMemberRow
member_rows m [] = []
member_rows m (u ∷ us) =
    if u.id == m.user_id
    then record {
      user_id = m.user_id;
      email = u.email;
      display_name = u.display_name;
      created_at = m.created_at;
    }
      ∷ member_rows m us
    else member_rows m us

abbrev join_members : List ProjectMembership → List User → List ProjectMemberRow
join_members [] us = []
join_members (m ∷ ms) us = member_rows m us ++ join_members ms us

unfoldable pub list_project_members : ℕ → Db → List ProjectMemberRow
list_project_members project_id db =
    if db.orgs.is_configured
    then join_members (select (λ m. m.project_id == project_id) db.project_memberships)
        db.orgs.users
    else []
