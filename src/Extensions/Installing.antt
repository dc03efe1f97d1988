-- ===== src/Extensions/Installing.antt =====
-- What the steps behind a reservation leave behind.
use specifyr.Prelude.{
  ℕ, ◌≡◌, ◌≢◌, ◌∙◌, refl, Bool, true, false, not, ◌&&◌, some, List, [], ◌∷◌, ◌++◌, Text,
  text_eq_refl, any, arith, Bool-cases, Option-cases, inl, inr, ◌⊎◌,
}
use specifyr.Database.{select_one, update, delete}
use specifyr.Credentials.Cipher.{Cipher}
use specifyr.Extensions.Rows.{OrgExtension, World, has_id, has_slug, is_directory}
use specifyr.Extensions.Store.{OrgExtensionListEntry, to_list_entry}
use specifyr.Extensions.Adding.{
  AddOrgExtensionInput, added, Clone, cloned, Manifest, slug_of, Course, reserved_row, claim, place,
  install, set_slug, with_temp,
}

delete-absent :
    (id : ℕ) (rows : List OrgExtension)
    → any (has_id id) rows ≡ false
    → delete (has_id id) rows ≡ rows
delete-absent id [] h = refl
delete-absent id (r ∷ rows) h = ground (arith, delete-absent id rows)

delete-appended :
    (row : OrgExtension) (rows : List OrgExtension)
    → any (has_id row.id) rows ≡ false
    → delete (has_id row.id) (rows ++ row ∷ []) ≡ rows
delete-appended row [] h = ground arith
delete-appended row (r ∷ rows) h = ground (arith, delete-appended row rows)

-- The claim changes the id of no row.
delete-claimed :
    (id now : ℕ) (slug : Text) (rows : List OrgExtension)
    → delete (has_id id) (update (has_id id) (set_slug slug now) rows) ≡ delete (has_id id) rows
delete-claimed id now slug [] = refl
delete-claimed id now slug (r ∷ rows) = ground (arith, delete-claimed id now slug rows)

select-claimed :
    (now : ℕ) (slug : Text) (row : OrgExtension) (rows : List OrgExtension)
    → any (has_id row.id) rows ≡ false
    → select_one (has_id row.id) (update (has_id row.id) (set_slug slug now) (rows ++ row ∷ []))
      ≡ some (set_slug slug now row)
select-claimed now slug row [] h = ground arith
select-claimed now slug row (r ∷ rows) h = ground (arith, select-claimed now slug row rows)

pub found-claimed :
    (id org_id now : ℕ) (slug : Text) (row : OrgExtension) (rows : List OrgExtension)
    → row.id ≡ id
    → row.org_id ≡ org_id
    → any (has_id row.id) rows ≡ false
    → any (λ r. not (has_id id r) && has_slug org_id slug r) (rows ++ row ∷ []) ≡ false
    → select_one (has_slug org_id slug) (update (has_id id) (set_slug slug now) (rows ++ row ∷ []))
      ≡ some (set_slug slug now row)
found-claimed id org_id now slug row [] at of h free = ground (arith, text_eq_refl slug)
found-claimed id org_id now slug row (r ∷ rows) at of h free =
    ground (arith, found-claimed id org_id now slug row rows)

Clone-cases :
    (c : Clone)
    → ((content : ℕ) × (c ≡ cloned content)) ⊎ ((stderr : Text) × (c ≡ Clone.not_cloned stderr))
Clone-cases (cloned content) = inl (content, refl)
Clone-cases (Clone.not_cloned stderr) = inr (stderr, refl)

Manifest-cases : (m : Manifest) → ((slug : Text) × (m ≡ slug_of slug)) ⊎ (m ≡ Manifest.unreadable)
Manifest-cases (slug_of slug) = inl (slug, refl)
Manifest-cases Manifest.unreadable = inr refl

-- The world in which the extension is installed.
abbrev pub begun : Course → OrgExtension → World → World
begun course row w = with_temp course.temp (record w { extensions = w.extensions ++ row ∷ [] })

module _ (course : Course) (input : AddOrgExtensionInput) (row : OrgExtension) (w : World)
    (same_id : course.id ≡ row.id) (fresh : any (has_id row.id) w.extensions ≡ false) where
  cleaned : delete (has_id course.id) (w.extensions ++ row ∷ []) ≡ w.extensions
  cleaned = rw same_id (delete-appended row w.extensions fresh)

  selected :
      (slug : Text)
      → select_one
          (has_id course.id)
          (update (has_id course.id) (set_slug slug course.claimed_at) (w.extensions ++ row ∷ []))
        ≡ some (set_slug slug course.claimed_at row)
  selected slug = rw same_id (select-claimed course.claimed_at slug row w.extensions fresh)

  place-unchanged :
      (slug : Text) (content : ℕ)
      → course.drops_row ≡ true
      → let claimed = record (begun course row w) {
        extensions =
            update (has_id course.id) (set_slug slug course.claimed_at) (w.extensions ++ row ∷ []);
      } in
        ((e : OrgExtensionListEntry) → (place course input.org_id slug content claimed).0 ≢ added e)
        → (place course input.org_id slug content claimed).1.extensions ≡ w.extensions
  unfolding place
  place-unchanged slug content drops not_added = elim (Bool-cases course.renames) [
    | inr stays ↦ ground (
      arith,
      stays,
      drops,
      delete-claimed course.id course.claimed_at slug (w.extensions ++ row ∷ []) ∙ cleaned,
    )
    | inl moves ↦ ground (
      arith,
      moves,
      selected slug,
      not_added (to_list_entry (set_slug slug course.claimed_at row)),
    )
  ]

  -- Another row of the org has the slug.
  abbrev pub is_taken : Text → Bool
  is_taken slug =
      any (λ r. not (has_id course.id r) && has_slug input.org_id slug r) (w.extensions ++ row ∷ [])

  pub install-unchanged :
      course.drops_row ≡ true
      → ((e : OrgExtensionListEntry) → (install course input (begun course row w)).0 ≢ added e)
      → (install course input (begun course row w)).1.extensions ≡ w.extensions
  unfolding install claim
  install-unchanged drops not_added = elim (Clone-cases course.clone) [
    | inr (stderr, none_there) ↦ ground (arith, drops, none_there, cleaned)
    | inl (content, there) ↦ elim (Manifest-cases course.manifest) [
      | inr bad ↦ ground (arith, drops, there, bad, cleaned)
      | inl (slug, named) ↦ elim (Bool-cases (is_taken slug)) [
        | inl taken ↦ ground (arith, drops, there, named, taken, cleaned)
        | inr free ↦ ground (arith, there, named, free, place-unchanged slug content drops)
      ]
    ]
  ]

  -- What a success has gone through.
  pub install-added :
      (e : OrgExtensionListEntry)
      → (install course input (begun course row w)).0 ≡ added e
      → (slug : Text) × (content : ℕ) × (course.manifest ≡ slug_of slug)
        × (course.clone ≡ cloned content)
        × (is_taken slug ≡ false)
        × (course.renames ≡ true)
        × (e ≡ to_list_entry (set_slug slug course.claimed_at row))
  unfolding install claim place
  install-added e ok_added = elim (Clone-cases course.clone) [
    | inr (stderr, none_there) ↦ ground (arith, none_there, ok_added)
    | inl (content, there) ↦ elim (Manifest-cases course.manifest) [
      | inr bad ↦ ground (arith, there, bad, ok_added)
      | inl (slug, named) ↦ elim (Bool-cases (is_taken slug)) [
        | inl taken ↦ ground (arith, there, named, taken, ok_added)
        | inr free ↦ elim (Bool-cases course.renames) [
          | inr stays ↦ ground (arith, there, named, free, stays, ok_added)
          | inl moves ↦ (
            slug,
            content,
            named,
            there,
            free,
            moves,
            ground (arith, there, named, free, moves, selected slug, ok_added),
          )
        ]
      ]
    ]
  ]

  pub install-directories :
      (slug : Text) (content : ℕ)
      → course.manifest ≡ slug_of slug
      → course.clone ≡ cloned content
      → is_taken slug ≡ false
      → course.renames ≡ true
      → let after = (install course input (begun course row w)).1 in
        (after.extensions
          ≡ update (has_id course.id) (set_slug slug course.claimed_at) (w.extensions ++ row ∷ []))
        × (select_one (is_directory input.org_id slug) after.directories
            ≡ some (record { org_id = input.org_id; slug = slug; content = content }))
        × (after.is_configured ≡ w.is_configured)
  unfolding install claim place
  install-directories slug content named there free moves =
      ground (arith, named, there, free, moves, selected slug, text_eq_refl slug)

pub fresh_row :
    (cipher : Cipher) (course : Course) (input : AddOrgExtensionInput)
    → ((reserved_row cipher course input).id ≡ course.id)
      × ((reserved_row cipher course input).org_id ≡ input.org_id)
unfolding reserved_row
fresh_row cipher course input = elim (Option-cases input.credentials) [
  | inl public ↦ ground (arith, public)
  | inr (c, there) ↦ ground (arith, there)
]
