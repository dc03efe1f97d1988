-- ===== src/Projects/Leaving.antt =====
-- What the gate lets through.
use specifyr.Prelude.{
  ℕ, ◌≡◌, true, Option, none, some, List, [], ◌∷◌, Text, is_some, arith, Option-cases, inl, inr,
}
use specifyr.Database.{select_one}
use specifyr.Orgs.Rows.{admin, Org, OrgMembership, is_membership}
use specifyr.Orgs.Create.{get_org_by_slug}
use specifyr.Orgs.Members.{get_membership}
use specifyr.Orgs.Roles.{role_of}
use specifyr.Projects.Rows.{Project, Db, is_project}
use specifyr.Projects.Store.{is_admin_row, get_project_by_org_and_slug, can_user_access_project}
use specifyr.Projects.Gate.{Context, opened, match_path, project_gate, gate}

admin_row_of_role :
    (org_id user_id : ℕ) (m : OrgMembership) (ms : List OrgMembership)
    → select_one (is_membership org_id user_id) ms ≡ some m
    → m.role ≡ admin
    → is_some (select_one (is_admin_row org_id user_id) ms) ≡ true
admin_row_of_role org_id user_id m [] e r = ground arith
admin_row_of_role org_id user_id m (n ∷ ms) e r =
    ground (arith, admin_row_of_role org_id user_id m ms)

owner-select :
    (org_id : ℕ) (slug : Text) (p : Project) (ps : List Project)
    → select_one (is_project org_id slug) ps ≡ some p
    → p.owner_org_id ≡ org_id
owner-select org_id slug p [] e = ground arith
owner-select org_id slug p (q ∷ ps) e = ground (arith, owner-select org_id slug p ps)

abbrev IsOpened : ℕ → Db → Context → Text → ℕ → Type 0
IsOpened user_id db ctx slug project_id =
    (role_of ctx.org_id user_id db.orgs.memberships ≡ some ctx.org_role)
    × (can_user_access_project ctx.org_id slug user_id db ≡ true)
    × ((p : Project) × (get_project_by_org_and_slug ctx.org_id slug db ≡ some p)
        × (p.id ≡ project_id)
        × (p.owner_org_id ≡ ctx.org_id))

project_gate_sound :
    (user_id : ℕ) (org_slug : Text) (org : Org) (m : OrgMembership) (project_slug : Option Text)
    (db : Db) (ctx : Context) (slug : Text) (project_id : ℕ)
    → db.orgs.is_configured ≡ true
    → select_one (is_membership org.id user_id) db.orgs.memberships ≡ some m
    → project_gate user_id org_slug org m project_slug db ≡ opened ctx
    → ctx.project ≡ some (slug, project_id)
    → IsOpened user_id db ctx slug project_id
unfolding project_gate can_user_access_project get_project_by_org_and_slug
project_gate_sound user_id org_slug org m none db ctx slug project_id c member e h = ground arith
project_gate_sound user_id org_slug org m (some name) db ctx slug project_id c member e h =
    elim (Option-cases (select_one (is_project org.id name) db.projects)) [
      | inl missing ↦ ground arith
      | inr (p, found) ↦
          let same_name : name ≡ slug = ground arith in
          let owner = owner-select org.id name p db.projects found in
          (
            ground arith,
            ground (arith, admin_row_of_role org.id user_id m db.orgs.memberships member),
            (p, ground arith, ground arith, ground (arith, owner)),
          )
    ]

-- When the gate opens a project to a request, the caller is a member of the org with the role that
-- the context carries, `canUserAccessProject` lets the caller in, and the project of the context is
-- the org's with that slug.
pub gate_sound :
    (path : Text) (user_id : ℕ) (db : Db) (ctx : Context) (slug : Text) (project_id : ℕ)
    → gate path (some user_id) db ≡ opened ctx
    → ctx.project ≡ some (slug, project_id)
    → (role_of ctx.org_id user_id db.orgs.memberships ≡ some ctx.org_role)
      × (can_user_access_project ctx.org_id slug user_id db ≡ true)
      × ((p : Project) × (get_project_by_org_and_slug ctx.org_id slug db ≡ some p)
          × (p.id ≡ project_id)
          × (p.owner_org_id ≡ ctx.org_id))
unfolding gate get_membership
gate_sound path user_id db ctx slug project_id e h = elim (Option-cases (match_path path)) [
  | inl other ↦ ground arith
  | inr ((org_slug, project_slug), matched) ↦
      elim (Option-cases (get_org_by_slug org_slug db.orgs)) [
        | inl missing ↦ ground arith
        | inr (org, found) ↦
            elim (Option-cases (select_one (is_membership org.id user_id) db.orgs.memberships)) [
              | inl stranger ↦ ground arith
              | inr (m, member) ↦
                  project_gate_sound user_id org_slug org m project_slug db ctx slug project_id
                    (ground arith) member (ground arith) h
            ]
      ]
]
