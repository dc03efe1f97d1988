-- ===== src/Projects/Gate.antt =====
-- server/shared/middleware/project-access.ts. The path and the caller are what `event.path` and
-- `event.context.userId` give.
use specifyr.Prelude.{ℕ, not, Option, none, some, [], ◌∷◌, Text, codes, ◌==◌, if◌then◌else◌}
use specifyr.Orgs.Rows.{Role, admin, role_eq, Org, OrgMembership}
use specifyr.Orgs.Create.{get_org_by_slug}
use specifyr.Orgs.Members.{get_membership}
use specifyr.Projects.Rows.{Db}
use specifyr.Projects.Store.{get_project_by_org_and_slug, can_user_access_project}

-- What is left of the text behind the prefix.
pub after : Text → Text → Option Text
after [] s = some s
after (c ∷ p) [] = none
after (c ∷ p) (d ∷ s) = let rest = after p s in if c == d then rest else none

-- `([^/]+)` takes every character up to the next slash; the rest starts with one or is empty.
pub segment : Text → Text × Text
segment [] = ([], [])
segment (c ∷ s) = let (seg, rest) = segment s in if c == b'/' then ([], c ∷ s) else (c ∷ seg, rest)

pub project_name : Text × Text → Option Text
project_name ([], _) = none
project_name (c ∷ seg, _) = some (c ∷ seg)

-- `(?:\/([^/]+))?(?:\/|$)`
pub project_part : Text → Option (Option Text)
unfolding segment project_name
project_part [] = some none
project_part (c ∷ s) = let name = project_name (segment s) in if c == b'/' then some name else none

pub org_part : Text × Text → Option (Text × Option Text)
unfolding after project_part
org_part ([], _) = none
org_part (c ∷ seg, rest) = elim (after (codes "/projects") rest) [
  | none ↦ none
  | some s ↦ elim (project_part s) [ none ↦ none | some p ↦ some (c ∷ seg, p) ]
]

-- The org and the project of `ORG_PROJECTS_RE`.
unfoldable pub match_path : Text → Option (Text × Option Text)
unfolding after segment org_part
match_path path = elim (after (codes "/api/orgs/") path) [
  | none ↦ none
  | some s ↦ org_part (segment s)
]

pub data Denial : Type 0 where
  not_authenticated org_not_found not_an_org_member project_not_found no_access : Denial

-- The fields that are set on `event.context`.
pub record Context : Type 0 where
  pub org_id : ℕ
  pub org_slug : Text
  pub org_role : Role
  pub project : Option (Text × ℕ)

pub data Verdict : Type 0 where
  untouched : Verdict
  opened : Context → Verdict
  denied : Denial → Verdict

-- From the lookup of the project on.
unfoldable pub project_gate : ℕ → Text → Org → OrgMembership → Option Text → Db → Verdict
project_gate user_id org_slug org m none db =
    opened (record { org_id = org.id; org_slug = org_slug; org_role = m.role; project = none })
project_gate user_id org_slug org m (some slug) db =
    elim (get_project_by_org_and_slug org.id slug db) [
      | none ↦ denied project_not_found
      | some p ↦
          let open_project = opened (record {
            org_id = org.id;
            org_slug = org_slug;
            org_role = m.role;
            project = some (slug, p.id);
          }) in
          if not (role_eq m.role admin)
          then (if can_user_access_project org.id slug user_id db
              then open_project
              else denied no_access)
          else open_project
    ]

unfoldable pub gate : Text → Option ℕ → Db → Verdict
unfolding match_path project_gate
gate path caller db = elim (match_path path) [
  | none ↦ untouched
  | some (org_slug, project_slug) ↦ elim caller [
    | none ↦ denied not_authenticated
    | some user_id ↦ elim (get_org_by_slug org_slug db.orgs) [
      | none ↦ denied org_not_found
      | some org ↦ elim (get_membership org.id user_id db.orgs) [
        | none ↦ denied not_an_org_member
        | some m ↦ project_gate user_id org_slug org m project_slug db
      ]
    ]
  ]
]
