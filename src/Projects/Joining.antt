-- ===== src/Projects/Joining.antt =====
-- Who can be added to a project.
use specifyr.Prelude.{
  ℕ, ◌≡◌, Bool, true, some, List, [], ◌∷◌, Text, any, is_some, arith, Option-cases, inl, inr,
}
use specifyr.Database.{select_one}
use specifyr.Orgs.Rows.{Role, User, OrgMembership, is_membership}
use specifyr.Orgs.Roles.{role_of}
use specifyr.Projects.Rows.{Db, is_member}
use specifyr.Projects.Store.{add_project_member}
use specifyr.Projects.Handlers.{
  added, MemberBody, member_by_email, target_user, add_target, post_member,
}

member_by_email-member :
    (org_id : ℕ) (email : Text) (ms : List OrgMembership) (us : List User) (u : ℕ)
    → member_by_email org_id email ms us ≡ some u
    → is_some (select_one (is_membership org_id u) ms) ≡ true
unfolding member_by_email
member_by_email-member org_id email ms [] u e = ground arith
member_by_email-member org_id email ms (x ∷ us) u e =
    ground (arith, member_by_email-member org_id email ms us u)

select_id-member :
    (org_id user_id : ℕ) (m : OrgMembership) (ms : List OrgMembership)
    → select_one (is_membership org_id user_id) ms ≡ some m
    → m.user_id ≡ user_id
select_id-member org_id user_id m [] e = ground arith
select_id-member org_id user_id m (n ∷ ms) e = ground (arith, select_id-member org_id user_id m ms)

target_user-member :
    (org_id : ℕ) (body : MemberBody) (u : ℕ) (db : Db)
    → target_user org_id body db ≡ some u
    → is_some (role_of org_id u db.orgs.memberships) ≡ true
unfolding target_user
target_user-member org_id body u db e = elim (Option-cases body.user_id) [
  | inl by_email ↦ elim (Option-cases body.email) [
    | inl nothing ↦ ground arith
    | inr (email, given) ↦
        ground (arith, member_by_email-member org_id email db.orgs.memberships db.orgs.users u)
  ]
  | inr (id, given) ↦
      elim (Option-cases (select_one (is_membership org_id id) db.orgs.memberships)) [
        | inl stranger ↦ ground arith
        | inr (m, found) ↦ ground (arith, select_id-member org_id id m db.orgs.memberships found)
      ]
]

add_target-added :
    (now project_id user_id u : ℕ) (b : Bool) (db db' : Db)
    → db.orgs.is_configured ≡ true
    → add_target now project_id user_id db ≡ (added b u, db')
    → (u ≡ user_id) × (any (is_member project_id u) db'.project_memberships ≡ true)
unfolding add_target add_project_member
add_target-added now project_id user_id u b db db' c e = (ground arith, ground arith)

-- When the handler answers that a user has been added to a project, the user is a member of the org
-- of the request, and the project has a membership of the user.
pub post_member_sound :
    (now : ℕ) (org_role : Role) (org_id project_id : ℕ) (body : MemberBody) (b : Bool) (u : ℕ)
    (db db' : Db)
    → post_member now org_role org_id project_id body db ≡ (added b u, db')
    → (is_some (role_of org_id u db.orgs.memberships) ≡ true)
      × (any (is_member project_id u) db'.project_memberships ≡ true)
unfolding post_member
post_member_sound now org_role org_id project_id body b u db db' e =
    elim (Option-cases (target_user org_id body db)) [
      | inl nobody ↦ (ground arith, ground arith)
      | inr (id, target) ↦
          let joined =
            add_target-added now project_id id u b db db' (ground arith) (ground arith) in
          (
            ground (arith, target_user-member org_id body id db target, joined),
            ground (arith, joined),
          )
    ]
