-- ===== src/Extensions/Adding.antt =====
-- `addOrgExtension`: the reservation, the claim of the slug and the move of the clone. The ids, the
-- iv, the times, the clone, the manifest and which steps on the file system succeed are arguments.
use specifyr.Prelude.{
  ℕ, Bool, false, not, ◌&&◌, ◌||◌, Option, none, some, [], ◌∷◌, ◌++◌, Text, codes, text_eq, ◌==◌,
  ltb, any, if◌then◌else◌,
}
use specifyr.Database.{select_one, update, delete, count}
use specifyr.Orgs.Slug.{trim}
use specifyr.Credentials.Cipher.{Cipher}
use specifyr.Extensions.Rows.{
  OrgExtension, World, includes, reservation_slug, has_id, is_of_org, has_slug, is_directory,
}
use specifyr.Extensions.Store.{
  OrgExtensionListEntry, to_list_entry, Error, db_not_configured, duplicate_id, rename_failed,
  temp_failed, row_vanished,
}

abbrev pub max_extensions_per_org : ℕ
max_extensions_per_org = 100

pub record Credentials : Type 0 where
  pub username : Text
  pub token : Text

pub record AddOrgExtensionInput : Type 0 where
  pub org_id : ℕ
  pub source_url : Text
  pub source_ref : Option Text
  pub credentials : Option Credentials
  pub registered_by : ℕ

pub data Reason : Type 0 where
  quota_exceeded clone_failed manifest_invalid slug_conflict url_invalid : Reason

pub data Outcome : Type 0 where
  added : OrgExtensionListEntry → Outcome
  refused : Reason → Outcome
  failed : Error → Outcome

-- The outcome of `gitClone`: the files, or the text of an error.
pub data Clone : Type 0 where
  cloned : ℕ → Clone
  not_cloned : Text → Clone

-- The slug that `readLocalManifest` finds, or its error.
pub data Manifest : Type 0 where
  slug_of : Text → Manifest
  unreadable : Manifest

-- `makes_temp` is that `fs.mkdir` and `fs.mkdtemp` succeed, `renames` that the move does. The errors
-- of `cleanup` are swallowed: `drops_row` and `drops_temp` are that its two steps succeed.
pub record Course : Type 0 where
  pub id : ℕ
  pub uuid : Text
  pub iv : Text
  pub temp : ℕ
  pub reserved_at : ℕ
  pub claimed_at : ℕ
  pub clone : Clone
  pub manifest : Manifest
  pub makes_temp : Bool
  pub renames : Bool
  pub drops_row : Bool
  pub drops_temp : Bool

abbrev pub is_blank : Text → Bool
is_blank t = text_eq (trim t) []

abbrev pub has_blank_credentials : Option Credentials → Bool
has_blank_credentials none = false
has_blank_credentials (some c) = is_blank c.username || is_blank c.token

abbrev pub plain_row : Course → AddOrgExtensionInput → OrgExtension
plain_row course input = record {
  id = course.id;
  org_id = input.org_id;
  slug = reservation_slug course.uuid;
  source_url = input.source_url;
  source_ref = input.source_ref;
  credential_username = none;
  credential_iv = none;
  credential_tag = none;
  credential_payload = none;
  registered_by = some input.registered_by;
  registered_at = course.reserved_at;
  updated_at = course.reserved_at;
}

unfoldable pub reserved_row : Cipher → Course → AddOrgExtensionInput → OrgExtension
reserved_row cipher course input = elim input.credentials [
  | none ↦ plain_row course input
  | some c ↦
      let enc = cipher.encrypt course.iv c.token in
      record (plain_row course input) {
        credential_username = some c.username;
        credential_iv = some enc.iv;
        credential_tag = some enc.tag;
        credential_payload = some enc.payload;
      }
]

-- The reservation, or why there is none: the insert, and the count behind it, which rolls back.
unfoldable pub reserve : OrgExtension → World → Option Outcome × World
reserve row w =
    if any (has_id row.id) w.extensions || any (has_slug row.org_id row.slug) w.extensions
    then (some (failed duplicate_id), w)
    else if ltb max_extensions_per_org (count (is_of_org row.org_id) (w.extensions ++ row ∷ []))
    then (some (refused quota_exceeded), w)
    else (none, record w { extensions = w.extensions ++ row ∷ [] })

abbrev pub without_temp : Course → World → World
without_temp course w =
    if course.drops_temp then record w { temps = delete (λ t. t == course.temp) w.temps } else w

-- `cleanup`
abbrev pub cleanup : Course → World → World
cleanup course w = without_temp course (
    if course.drops_row
    then record w { extensions = delete (has_id course.id) w.extensions }
    else w)

abbrev pub reason_of_stderr : Text → Reason
reason_of_stderr stderr =
    if includes (codes "only https") stderr
      || includes (codes "URL host") stderr
      || includes (codes "invalid URL") stderr
      || includes (codes "URL must not contain inline credentials") stderr
      || includes (codes "destination") stderr
    then url_invalid
    else clone_failed

abbrev pub set_slug : Text → ℕ → OrgExtension → OrgExtension
set_slug slug now row = record row { slug = slug; updated_at = now }

-- The claim of the slug: `none` is a unique violation, by another row of the org with the slug.
unfoldable pub claim : ℕ → ℕ → ℕ → Text → World → Option World
claim now id org_id slug w =
    if any (λ row. not (has_id id row) && has_slug org_id slug row) w.extensions
    then none
    else some (record w { extensions = update (has_id id) (set_slug slug now) w.extensions })

-- The move of the clone, and the row that is read again.
unfoldable pub place : Course → ℕ → Text → ℕ → World → Outcome × World
unfolding to_list_entry
place course org_id slug content w =
    let cleared = delete (is_directory org_id slug) w.directories in
    if course.renames
    then (let moved = without_temp course (record w {
      directories = record { org_id = org_id; slug = slug; content = content } ∷ cleared;
    }) in
        elim (select_one (has_id course.id) w.extensions) [
          | none ↦ (failed row_vanished, record moved { directories = cleared })
          | some row ↦ (added (to_list_entry row), moved)
        ])
    else (failed rename_failed, record (cleanup course w) { directories = cleared })

-- What follows the reservation and the temporary directory.
unfoldable pub install : Course → AddOrgExtensionInput → World → Outcome × World
unfolding claim place
install course input w = elim course.clone [
  | not_cloned stderr ↦ (refused (reason_of_stderr stderr), cleanup course w)
  | cloned content ↦ elim course.manifest [
    | unreadable ↦ (refused manifest_invalid, cleanup course w)
    | slug_of slug ↦ elim (claim course.claimed_at course.id input.org_id slug w) [
      | none ↦ (refused slug_conflict, cleanup course w)
      | some claimed ↦ place course input.org_id slug content claimed
    ]
  ]
]

abbrev pub with_temp : ℕ → World → World
with_temp temp w = record w { temps = temp ∷ w.temps }

unfoldable pub add_org_extension : Cipher → Course → AddOrgExtensionInput → World → Outcome × World
unfolding reserved_row reserve install reservation_slug
add_org_extension cipher course input w =
    if w.is_configured
    then (if has_blank_credentials input.credentials
        then (refused url_invalid, w)
        else (let (stopped, reserved) = reserve (reserved_row cipher course input) w in
            elim stopped [
              | some outcome ↦ (outcome, reserved)
              | none ↦
                  if course.makes_temp
                  then install course input (with_temp course.temp reserved)
                  else (failed temp_failed, reserved)
            ]))
    else (failed db_not_configured, w)
