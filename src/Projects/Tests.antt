-- ===== src/Projects/Tests.antt =====
-- Projects at concrete tables: tests, and the theorems applied.
use specifyr.Prelude.{ℕ, ◌≡◌, refl, true, none, some, [], ◌∷◌, codes, any}
use specifyr.Orgs.Rows.{Role, admin, member, pending_vault_init, Org, OrgMembership}
use specifyr.Orgs.Members.{get_membership}
use specifyr.Orgs.Create.{get_org_by_slug}
use specifyr.Orgs.Roles.{role_of}
use specifyr.Projects.Rows.{Project, ProjectMembership, Db}
use specifyr.Projects.Store.{
  key_eq, list_project_keys_for_user, can_user_access_project, get_project_by_org_and_slug,
}
use specifyr.Projects.Gate.{Context, untouched, match_path, gate}
use specifyr.Projects.Handlers.{MemberBody}
use specifyr.Projects.Listing.{list_iff_access}
use specifyr.Projects.Leaving.{gate_sound}

abbrev acme : Org
acme = record {
  id = 1;
  slug = codes "acme";
  name = codes "Acme";
  owner_user_id = 10;
  created_by = some 10;
  created_at = 0;
  bridge_subnet = none;
  init_status = pending_vault_init;
}

abbrev row : ℕ → Role → OrgMembership
row user_id role = record { org_id = 1; user_id = user_id; role = role; created_at = 0 }

abbrev site : Project
site = record { id = 5; slug = codes "site"; owner_org_id = 1; created_at = 0 }

abbrev lab : Project
lab = record { id = 6; slug = codes "lab"; owner_org_id = 1; created_at = 0 }

abbrev joined : ProjectMembership
joined = record { project_id = 5; user_id = 12; created_at = 0 }

-- User 10 owns the org; 12 is a member of the org and of the project `site`.
abbrev tables : Db
tables = record {
  orgs = record {
    is_configured = true;
    users = [];
    orgs = acme ∷ [];
    memberships = row 10 admin ∷ row 12 member ∷ [];
    invites = [];
    permissions = [];
  };
  projects = site ∷ lab ∷ [];
  project_memberships = joined ∷ [];
}

path_of_project :
    match_path (codes "/api/orgs/acme/projects/site/steps")
    ≡ some (codes "acme", some (codes "site"))
unfolding match_path
path_of_project = refl

path_of_list : match_path (codes "/api/orgs/acme/projects/") ≡ some (codes "acme", none)
unfolding match_path
path_of_list = refl

-- A query behind `projects` keeps the gate from looking at the request.
path_with_query : gate (codes "/api/orgs/acme/projects?page=2") none tables ≡ untouched
unfolding gate
path_with_query = refl

list_iff_access_example :
    any (key_eq (1, codes "site")) (list_project_keys_for_user 12 tables)
    ≡ can_user_access_project 1 (codes "site") 12 tables
list_iff_access_example = list_iff_access 1 (codes "site") 12 tables refl (refl, (refl, tt))

abbrev opened_site : Context
opened_site = record {
  org_id = 1;
  org_slug = codes "acme";
  org_role = member;
  project = some (codes "site", 5);
}

gate_sound_example :
    (role_of 1 12 tables.orgs.memberships ≡ some member)
    × (can_user_access_project 1 (codes "site") 12 tables ≡ true)
    × ((p : Project) × (get_project_by_org_and_slug 1 (codes "site") tables ≡ some p)
        × (p.id ≡ 5)
        × (p.owner_org_id ≡ 1))
unfolding gate get_org_by_slug get_membership get_project_by_org_and_slug can_user_access_project
gate_sound_example =
    gate_sound (codes "/api/orgs/acme/projects/site/steps") 12 tables opened_site (codes "site") 5
      refl refl

abbrev body : MemberBody
body = record { user_id = some 12; email = none }

abbrev tables_added : Db
tables_added = record tables {
  project_memberships = record { project_id = 6; user_id = 12; created_at = 9 } ∷ joined ∷ [];
}
