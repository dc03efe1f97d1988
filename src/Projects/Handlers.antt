-- ===== src/Projects/Handlers.antt =====
-- The handlers of the members of a project: `POST …/members` and `DELETE …/members/:userId` under
-- server/projects/api/orgs/[slug]/projects/[projSlug]. The context is what the gate has set, and the
-- body has been parsed: at least one of the user id and the normalised email is there.
use specifyr.Prelude.{
  ℕ, Bool, not, ◌&&◌, Option, none, some, List, [], ◌∷◌, Text, text_eq, is_some, if◌then◌else◌,
}
use specifyr.Prelude.Result.{ok, throw}
use specifyr.Database.{select_one}
use specifyr.Orgs.Rows.{Role, admin, role_eq, User, OrgMembership, is_membership}
use specifyr.Projects.Rows.{Db}
use specifyr.Projects.Store.{add_project_member, remove_project_member}

pub record MemberBody : Type 0 where
  pub user_id : Option ℕ
  pub email : Option Text

pub data Response : Type 0 where
  admins_only no_database no_match not_a_project_member failed : Response
  added : Bool → ℕ → Response
  removed : Response

-- The first user with the email that is a member of the org.
unfoldable pub member_by_email : ℕ → Text → List OrgMembership → List User → Option ℕ
member_by_email org_id email ms [] = none
member_by_email org_id email ms (u ∷ us) =
    let rest = member_by_email org_id email ms us in
    if text_eq u.email email && is_some (select_one (is_membership org_id u.id) ms)
    then some u.id
    else rest

unfoldable pub target_user : ℕ → MemberBody → Db → Option ℕ
unfolding member_by_email
target_user org_id body db = elim body.user_id [
  | some id ↦ elim (select_one (is_membership org_id id) db.orgs.memberships) [
    | none ↦ none
    | some m ↦ some m.user_id
  ]
  | none ↦ elim body.email [
    | none ↦ none
    | some email ↦ member_by_email org_id email db.orgs.memberships db.orgs.users
  ]
]

-- An error of the store becomes a server error.
unfoldable pub add_target : ℕ → ℕ → ℕ → Db → Response × Db
add_target now project_id user_id db = elim (add_project_member now project_id user_id db) [
  | throw _ ↦ (failed, db)
  | ok (row, db') ↦ (added (is_some row) user_id, db')
]

unfoldable pub post_member : ℕ → Role → ℕ → ℕ → MemberBody → Db → Response × Db
unfolding target_user add_target
post_member now org_role org_id project_id body db =
    if not (role_eq org_role admin)
    then (admins_only, db)
    else if not db.orgs.is_configured
    then (no_database, db)
    else elim (target_user org_id body db) [
      | none ↦ (no_match, db)
      | some user_id ↦ add_target now project_id user_id db
    ]

unfoldable pub delete_member : Role → ℕ → ℕ → Db → Response × Db
delete_member org_role project_id user_id db =
    if not (role_eq org_role admin)
    then (admins_only, db)
    else (let (found, db') = remove_project_member project_id user_id db in
        if found then (removed, db') else (not_a_project_member, db'))
