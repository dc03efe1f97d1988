-- ===== src/Projects/Listing.antt =====
-- The list of a user's projects agrees with the check of access to one project.
use specifyr.Prelude.{
  ℕ, ◌≡◌, refl, ap, Bool, true, false, ◌||◌, Option, none, some, List, [], ◌∷◌, map, Text,
  text_eq_iff, any, is_some, arith, Option-cases, Bool-cases, inl, inr,
}
use specifyr.Database.{select, select_one}
use specifyr.Orgs.Rows.{admin, role_eq, OrgMembership, is_membership}
use specifyr.Projects.Rows.{Project, ProjectMembership, Db, is_project, is_member}
use specifyr.Projects.Store.{
  left_join, shows, is_listed, is_admin_row, has_access, Key, key_eq, key_of, distinct,
  list_project_keys_for_user, get_project_by_org_and_slug, can_user_access_project,
}

any-left_join :
    (m : Option OrgMembership) (p : ProjectMembership → Bool) (rows : List ProjectMembership)
    → any (shows m) (left_join p rows)
      ≡ (elim m [ none ↦ false | some r ↦ role_eq r.role admin ] || is_some (select_one p rows))
any-left_join none p [] = refl
any-left_join (some r) p [] = ground arith
any-left_join none p (s ∷ rows) = ground (arith, any-left_join none p rows)
any-left_join (some r) p (s ∷ rows) = ground (arith, any-left_join (some r) p rows)

any-cong {ℓ} :
    {A : Type ℓ} (f g : A → Bool) (xs : List A) → ((a : A) → f a ≡ g a) → any f xs ≡ any g xs
any-cong f g [] e = refl
any-cong f g (x ∷ xs) e = ground (arith, e x, any-cong f g xs e)

abbrev is_admin_or : Bool → Option OrgMembership → Bool
is_admin_or b none = b
is_admin_or b (some m) = role_eq m.role admin || b

any-is_admin_or :
    (b : Bool) (org_id user_id : ℕ) (ms : List OrgMembership)
    → any (is_admin_or b) (left_join (is_membership org_id user_id) ms)
      ≡ (is_some (select_one (is_admin_row org_id user_id) ms) || b)
any-is_admin_or b org_id user_id [] = ground arith
any-is_admin_or b org_id user_id (m ∷ ms) = ground (arith, any-is_admin_or b org_id user_id ms)

shows-is_admin_or :
    (p : ProjectMembership → Bool) (pms : List ProjectMembership) (m : Option OrgMembership)
    → any (shows m) (left_join p pms) ≡ is_admin_or (is_some (select_one p pms)) m
shows-is_admin_or p pms none = ground (arith, any-left_join none p pms)
shows-is_admin_or p pms (some m) = ground (arith, any-left_join (some m) p pms)

is_listed-has_access :
    (user_id : ℕ) (ms : List OrgMembership) (pms : List ProjectMembership) (p : Project)
    → is_listed user_id ms pms p ≡ has_access user_id ms pms p
is_listed-has_access user_id ms pms p =
    let q = is_member p.id user_id in
    let pointwise =
      any-cong (λ m. any (shows m) (left_join q pms)) (is_admin_or (is_some (select_one q pms)))
        (left_join (is_membership p.owner_org_id user_id) ms) (shows-is_admin_or q pms) in
    ground
      (arith, pointwise, any-is_admin_or (is_some (select_one q pms)) p.owner_org_id user_id ms)

key_eq_sound : (k l : Key) → key_eq k l ≡ true → k ≡ l
key_eq_sound (o, s) (o', s') e = ground (arith, text_eq_iff s s')

any-distinct : (k : Key) (ks : List Key) → any (key_eq k) (distinct ks) ≡ any (key_eq k) ks
any-distinct (o, s) [] = refl
any-distinct (o, s) ((o', s') ∷ ks) = elim (Bool-cases (key_eq (o, s) (o', s'))) [
  | inl same ↦
      ground (arith, ap (λ k. any (key_eq k) (distinct ks)) (key_eq_sound (o, s) (o', s') same))
  | inr other ↦ ground (arith, any-distinct (o, s) ks)
]

-- The unique key (owner_org_id, slug).
abbrev pub HasUniqueKeys : List Project → Type 0
HasUniqueKeys [] = Unit
HasUniqueKeys (p ∷ ps) =
    (select_one (is_project p.owner_org_id p.slug) ps ≡ none) × HasUniqueKeys ps

any-select-none :
    (org_id : ℕ) (slug : Text) (f : Project → Bool) (ps : List Project)
    → select_one (is_project org_id slug) ps ≡ none
    → any (key_eq (org_id, slug)) (map key_of (select f ps)) ≡ false
any-select-none org_id slug f [] e = refl
any-select-none org_id slug f (p ∷ ps) e =
    ground
      (arith, any-select-none org_id slug f ps, text_eq_iff slug p.slug, text_eq_iff p.slug slug)

unique-elsewhere :
    (org_id : ℕ) (slug : Text) (p : Project) (ps : List Project)
    → select_one (is_project p.owner_org_id p.slug) ps ≡ none
    → is_project org_id slug p ≡ true
    → select_one (is_project org_id slug) ps ≡ none
unique-elsewhere org_id slug p ps e here =
    let same_org : p.owner_org_id ≡ org_id = ground arith in
    let same_slug : p.slug ≡ slug = (text_eq_iff p.slug slug).0 (ground arith) in
    cc (
      e,
      ap (λ o. select_one (is_project o p.slug) ps) same_org,
      ap (λ s. select_one (is_project org_id s) ps) same_slug,
    )

any-select :
    (org_id : ℕ) (slug : Text) (f : Project → Bool) (ps : List Project)
    → HasUniqueKeys ps
    → any (key_eq (org_id, slug)) (map key_of (select f ps))
      ≡ (elim (select_one (is_project org_id slug) ps) [ none ↦ false | some p ↦ f p ])
any-select org_id slug f [] u = refl
any-select org_id slug f (p ∷ ps) u = elim (Bool-cases (is_project org_id slug p)) [
  | inl here ↦
      let elsewhere = unique-elsewhere org_id slug p ps u.0 here in
      ground (
        arith,
        any-select-none org_id slug f ps elsewhere,
        text_eq_iff slug p.slug,
        text_eq_iff p.slug slug,
      )
  | inr elsewhere ↦
      ground
        (arith, any-select org_id slug f ps u.1, text_eq_iff slug p.slug, text_eq_iff p.slug slug)
]

-- With a database configured and unique project keys, `listProjectKeysForUser` shows a project to a
-- user exactly when `canUserAccessProject` lets the user in.
pub list_iff_access :
    (org_id : ℕ) (slug : Text) (user_id : ℕ) (db : Db)
    → db.orgs.is_configured ≡ true
    → HasUniqueKeys db.projects
    → any (key_eq (org_id, slug)) (list_project_keys_for_user user_id db)
      ≡ can_user_access_project org_id slug user_id db
unfolding list_project_keys_for_user can_user_access_project get_project_by_org_and_slug
list_iff_access org_id slug user_id db c u =
    let f = is_listed user_id db.orgs.memberships db.project_memberships in
    elim (Option-cases (select_one (is_project org_id slug) db.projects)) [
      | inl missing ↦ ground (
        arith,
        any-distinct (org_id, slug) (map key_of (select f db.projects)),
        any-select org_id slug f db.projects u,
      )
      | inr (p, found) ↦ ground (
        arith,
        any-distinct (org_id, slug) (map key_of (select f db.projects)),
        any-select org_id slug f db.projects u,
        is_listed-has_access user_id db.orgs.memberships db.project_memberships p,
      )
    ]
