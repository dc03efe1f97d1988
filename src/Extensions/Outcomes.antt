-- ===== src/Extensions/Outcomes.antt =====
-- What a successful add leaves behind.
use specifyr.Prelude.{
  ℕ, ◌≡◌, ◌≢◌, ◌∙◌, refl, sym, ap, true, false, ◌||◌, none, some, [], ◌∷◌, ◌++◌, Text, ltb, any,
  arith, Bool-cases, inl, inr, ◌⊎◌,
}
use mathlib.Core.Path.{subst}
use specifyr.Prelude.Result.{ok}
use specifyr.Database.{select_one, count}
use specifyr.Orgs.Slug.{trim}
use specifyr.Credentials.Cipher.{Cipher, CipherLaws}
use specifyr.Extensions.Rows.{
  OrgExtension, World, is_reservation_slug, is_visible, has_id, is_of_org, has_slug, is_directory,
}
use specifyr.Extensions.Store.{
  OrgExtensionListEntry, duplicate_id, to_list_entry, get_org_extension_by_slug,
  get_org_extension_credentials, row_credentials, is_present,
}
use specifyr.Extensions.Adding.{
  quota_exceeded, max_extensions_per_org, Credentials, has_blank_credentials, is_blank,
  AddOrgExtensionInput, Outcome, added, refused, failed, cloned, Manifest, slug_of, Course,
  reserved_row, reserve, install, set_slug, add_org_extension,
}
use specifyr.Extensions.Installing.{
  found-claimed, begun, is_taken, install-added, install-directories, fresh_row,
}

-- The row of an extension that has been added.
abbrev final_row : Cipher → Course → AddOrgExtensionInput → Text → OrgExtension
final_row cipher course input slug =
    set_slug slug course.claimed_at (reserved_row cipher course input)

abbrev slug_in : Text → Manifest → Text
slug_in default (slug_of slug) = slug
slug_in default Manifest.unreadable = default

reserve-none :
    (row : OrgExtension) (w : World) (e : OrgExtensionListEntry)
    → ((reserve row w).0 ≡ none) ⊎ ((o : Outcome) × ((reserve row w).0 ≡ some o) × (o ≢ added e))
unfolding reserve
reserve-none row w e =
    elim (Bool-cases
      (any (has_id row.id) w.extensions || any (has_slug row.org_id row.slug) w.extensions)) [
        | inl taken ↦ inr (failed duplicate_id, ground (arith, taken), λ h. ground (arith, h))
        | inr free ↦
            elim (Bool-cases (
              ltb max_extensions_per_org
                (count (is_of_org row.org_id) (w.extensions ++ row ∷ [])))) [
                  | inl full ↦
                      inr
                        (refused quota_exceeded, ground (arith, free, full), λ h. ground (arith, h))
                  | inr room ↦ inl (ground (arith, free, room))
                ]
      ]

reserved :
    (row : OrgExtension) (w : World)
    → (reserve row w).0 ≡ none
    → (any (has_id row.id) w.extensions ≡ false)
      × ((reserve row w).1 ≡ record w { extensions = w.extensions ++ row ∷ [] })
unfolding reserve
reserved row w went = (ground arith, ground arith)

-- A success is an install behind a reservation.
added-install :
    (cipher : Cipher) (course : Course) (input : AddOrgExtensionInput) (w : World)
    (e : OrgExtensionListEntry)
    → (add_org_extension cipher course input w).0 ≡ added e
    → (w.is_configured ≡ true)
      × (has_blank_credentials input.credentials ≡ false)
      × (any (has_id (reserved_row cipher course input).id) w.extensions ≡ false)
      × (add_org_extension cipher course input w
          ≡ install course input (begun course (reserved_row cipher course input) w))
unfolding add_org_extension
added-install cipher course input w e ok_added =
    let row = reserved_row cipher course input in
    elim (Bool-cases w.is_configured) [
      | inr missing ↦ ground (arith, missing, ok_added)
      | inl configured ↦ elim (Bool-cases (has_blank_credentials input.credentials)) [
        | inl blank ↦ ground (arith, configured, blank, ok_added)
        | inr given ↦ elim (reserve-none row w e) [
          | inr (o, stopped, other) ↦ ground (arith, configured, given, stopped, other, ok_added)
          | inl went ↦ elim (Bool-cases course.makes_temp) [
            | inr no_temp ↦ ground (arith, configured, given, went, no_temp, ok_added)
            | inl temp ↦
                let (fresh, world) = reserved row w went in
                (configured, given, fresh, ground (arith, configured, given, went, temp, world))
          ]
        ]
      ]
    ]

add_org_extension-row :
    (cipher : Cipher) (course : Course) (input : AddOrgExtensionInput) (w : World) (slug : Text)
    (content : ℕ) (e : OrgExtensionListEntry)
    → course.manifest ≡ slug_of slug
    → course.clone ≡ cloned content
    → (add_org_extension cipher course input w).0 ≡ added e
    → let after = (add_org_extension cipher course input w).1 in
      (select_one (has_slug input.org_id slug) after.extensions
        ≡ some (final_row cipher course input slug))
      × (select_one (is_directory input.org_id slug) after.directories
          ≡ some (record { org_id = input.org_id; slug = slug; content = content }))
      × (after.is_configured ≡ true)
      × (e ≡ to_list_entry (final_row cipher course input slug))
      × (has_blank_credentials input.credentials ≡ false)
add_org_extension-row cipher course input w slug content e named there ok_added =
    let row = reserved_row cipher course input in
    let same_id = sym (fresh_row cipher course input).0 in
    let (configured, given, fresh, run) = added-install cipher course input w e ok_added in
    let installed : (install course input (begun course row w)).0 ≡ added e =
      subst (λ r. r.0 ≡ added e) run ok_added in
    let (slug', _, named', _, free, moves, entry) =
      install-added course input row w same_id fresh e installed in
    let same : slug' ≡ slug = ap (slug_in slug) (sym named' ∙ named) in
    let free_slug = subst (λ s. is_taken course input row w same_id fresh s ≡ false) same free in
    let (table, directory, kept) =
      install-directories course input row w same_id fresh slug content named there free_slug
        moves in
    let found =
      found-claimed course.id input.org_id course.claimed_at slug row w.extensions
        (fresh_row cipher course input).0 (fresh_row cipher course input).1 fresh free_slug in
    (
      subst
          (λ r.
            select_one (has_slug input.org_id slug) r.1.extensions
            ≡ some (final_row cipher course input slug))
          (sym run) (ap (select_one (has_slug input.org_id slug)) table ∙ found),
      subst
          (λ r.
            select_one (is_directory input.org_id slug) r.1.directories
            ≡ some (record { org_id = input.org_id; slug = slug; content = content }))
          (sym run) directory,
      subst (λ r. r.1.is_configured ≡ true) (sym run) (kept ∙ configured),
      entry ∙ ap (λ s. to_list_entry (set_slug s course.claimed_at row)) same,
      given,
    )

-- Behind a successful add the extension is shown under the slug of its manifest, as the entry that
-- was returned, and its directory holds the clone; unless the slug looks like a reservation.
pub added_is_found :
    (cipher : Cipher) (course : Course) (input : AddOrgExtensionInput) (w : World) (slug : Text)
    (content : ℕ) (e : OrgExtensionListEntry)
    → course.manifest ≡ slug_of slug
    → course.clone ≡ cloned content
    → is_reservation_slug slug ≡ false
    → (add_org_extension cipher course input w).0 ≡ added e
    → let after = (add_org_extension cipher course input w).1 in
      (get_org_extension_by_slug input.org_id slug after ≡ some e)
      × (select_one (is_directory input.org_id slug) after.directories
          ≡ some (record { org_id = input.org_id; slug = slug; content = content }))
unfolding get_org_extension_by_slug is_visible
added_is_found cipher course input w slug content e named there plain ok_added =
    let (found, directory, configured, entry, _) =
      add_org_extension-row cipher course input w slug content e named there ok_added in
    (ground (arith, found, configured, entry, plain), directory)

present : (t : Text) → t ≢ [] → is_present (some t) ≡ true
present [] n = absurd (n refl)
present (c ∷ t) n = refl

not_empty : (t : Text) → is_blank t ≡ false → t ≢ []
unfolding trim
not_empty [] h e = ground (arith, h)
not_empty (c ∷ t) h e = ground (arith, e)

read_back :
    (cipher : Cipher) (laws : CipherLaws cipher) (course : Course) (input : AddOrgExtensionInput)
    (slug : Text) (c : Credentials)
    → input.credentials ≡ some c
    → has_blank_credentials input.credentials ≡ false
    → row_credentials cipher (final_row cipher course input slug) ≡ ok (some (c.username, c.token))
unfolding row_credentials reserved_row
read_back cipher laws course input slug c with_c given =
    let blank : (is_blank c.username || is_blank c.token) ≡ false =
      subst (λ o. has_blank_credentials o ≡ false) with_c given in
    let token = not_empty c.token (ground (arith, blank)) in
    let enc = cipher.encrypt course.iv c.token in
    ground (
      arith,
      with_c,
      present c.username (not_empty c.username (ground (arith, blank))),
      present enc.iv (laws.iv_present course.iv c.token token),
      present enc.tag (laws.tag_present course.iv c.token token),
      present enc.payload (laws.payload_present course.iv c.token token),
      laws.decrypt-encrypt course.iv c.token,
    )

-- The credentials that an extension was added with are read back, under the laws of the cipher.
pub added_credentials :
    (cipher : Cipher) (laws : CipherLaws cipher) (course : Course) (input : AddOrgExtensionInput)
    (w : World) (slug : Text) (content : ℕ) (c : Credentials) (e : OrgExtensionListEntry)
    → course.manifest ≡ slug_of slug
    → course.clone ≡ cloned content
    → is_reservation_slug slug ≡ false
    → input.credentials ≡ some c
    → (add_org_extension cipher course input w).0 ≡ added e
    → get_org_extension_credentials cipher input.org_id slug
        (add_org_extension cipher course input w).1
      ≡ ok (some (c.username, c.token))
unfolding get_org_extension_credentials is_visible
added_credentials cipher laws course input w slug content c e named there plain with_c ok_added =
    let (found, directory, configured, entry, given) =
      add_org_extension-row cipher course input w slug content e named there ok_added in
    let read = read_back cipher laws course input slug c with_c given in
    ground (arith, found, configured, plain, read)
