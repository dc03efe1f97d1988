-- ===== src/Orgs/Create.antt =====
-- `createOrgWithAdmin`, `getOrgBySlug`, `getOrgInitStatus` and `listOrgsForUser` of
-- server/shared/utils/org-store.ts. The generated id, the time, the pool of the environment and
-- the success of `createOrgSchema`'s DDL are arguments.
use specifyr.Prelude.{
  ℕ, Bool, true, false, not, ◌||◌, Option, none, some, List, [], ◌∷◌, ◌++◌, map, Text, text_eq,
  ◌==◌, leb, any, if◌then◌else◌,
}
use specifyr.Prelude.Result.{Result, ok, throw, Action, ◌>>=◌, ◌>>◌, require}
use specifyr.Database.{select, select_one}
use specifyr.Network.Allocator.{subnet, allocate_bridge_subnet}
use specifyr.Orgs.Rows.{
  Role, admin, InitStatus, pending_vault_init, Org, OrgMembership, Db, Error, db_not_configured,
  invalid_slug, unique_violation, ddl_failed, subnet_failed, is_org, is_membership,
}
use specifyr.Orgs.Slug.{slugify, trim}

abbrev pub OrgAction : Type 0 → Type 0
OrgAction A = Action Db Error A

abbrev pub is_empty : Text → Bool
is_empty [] = true
is_empty (_ ∷ _) = false

abbrev pub same_subnet : Option Text → Option Text → Bool
same_subnet none _ = false
same_subnet (some s) none = false
same_subnet (some s) (some t) = text_eq s t

-- The primary key and the unique keys of `orgs`: no two rows share an id, a slug, or a subnet.
abbrev pub org_conflicts : Org → Org → Bool
org_conflicts o p =
    p.id == o.id || text_eq p.slug o.slug || same_subnet p.bridge_subnet o.bridge_subnet

insert_org : Org → Db → Result Error Db
insert_org o db =
    if any (org_conflicts o) db.orgs
    then throw unique_violation
    else ok (record db { orgs = o ∷ db.orgs })

insert_membership : OrgMembership → Db → Result Error Db
insert_membership m db =
    if any (is_membership m.org_id m.user_id) db.memberships
    then throw unique_violation
    else ok (record db { memberships = m ∷ db.memberships })

allocate : Text → Db → Result Error Text
allocate pool db = elim (allocate_bridge_subnet pool (map (λ o. o.bridge_subnet) db.orgs)) [
  | subnet s ↦ ok s
  | _ ↦ throw subnet_failed
]

-- The row that is inserted; the columns not given take their defaults.
abbrev pub new_org : ℕ → ℕ → Text → ℕ → Text → Org
new_org new_id now name creator s = record {
  id = new_id;
  slug = slugify name;
  name = trim name;
  owner_user_id = creator;
  created_by = some creator;
  created_at = now;
  bridge_subnet = some s;
  init_status = pending_vault_init;
}

abbrev pub creator_membership : ℕ → ℕ → ℕ → OrgMembership
creator_membership new_id now creator = record {
  org_id = new_id;
  user_id = creator;
  role = admin;
  created_at = now;
}

unfoldable pub create_org_with_admin : ℕ → ℕ → Text → Bool → Text → ℕ → OrgAction Org
unfolding insert_org insert_membership allocate
create_org_with_admin new_id now pool ddl_ok name creator db = do
  require db.is_configured db_not_configured
  require (not (is_empty (slugify name))) invalid_slug
  s ← allocate pool db
  db₁ ← insert_org (new_org new_id now name creator s) db
  db₂ ← insert_membership (creator_membership new_id now creator) db₁
  require ddl_ok ddl_failed
  ok (new_org new_id now name creator s, db₂)

unfoldable pub get_org_by_slug : Text → Db → Option Org
get_org_by_slug slug db =
    if db.is_configured then select_one (λ o. text_eq o.slug slug) db.orgs else none

unfoldable pub get_org_init_status : ℕ → Db → Option InitStatus
get_org_init_status org_id db =
    if db.is_configured
    then elim (select_one (is_org org_id) db.orgs) [ none ↦ none | some o ↦ some o.init_status ]
    else none

-- `innerJoin` of the user's memberships with the orgs, and `orderBy(desc(orgs.createdAt))`.
insert_desc : Org × Role → List (Org × Role) → List (Org × Role)
insert_desc x [] = x ∷ []
insert_desc x (y ∷ ys) =
    if leb y.0.created_at x.0.created_at then x ∷ y ∷ ys else y ∷ insert_desc x ys

orgs_of : OrgMembership → List Org → List (Org × Role)
orgs_of m [] = []
orgs_of m (o ∷ os) =
    let rest = orgs_of m os in if o.id == m.org_id then (o, m.role) ∷ rest else rest

sort_desc : List (Org × Role) → List (Org × Role)
sort_desc [] = []
sort_desc (x ∷ xs) = insert_desc x (sort_desc xs)

join_orgs : List OrgMembership → List Org → List (Org × Role)
join_orgs [] os = []
join_orgs (m ∷ ms) os = orgs_of m os ++ join_orgs ms os

unfoldable pub list_orgs_for_user : ℕ → Db → List (Org × Role)
unfolding insert_desc orgs_of sort_desc join_orgs
list_orgs_for_user user_id db =
    if db.is_configured
    then sort_desc (join_orgs (select (λ m. m.user_id == user_id) db.memberships) db.orgs)
    else []
