-- ===== src/Extensions/Store.antt =====
-- `listOrgExtensions`, `getOrgExtensionBySlug`, `removeOrgExtension` and `getOrgExtensionCredentials`.
use specifyr.Prelude.{
  ℕ, Bool, true, false, not, ◌&&◌, ◌||◌, Option, none, some, List, [], ◌∷◌, map, Text, any,
  if◌then◌else◌,
}
use specifyr.Prelude.Result.{Result, ok, throw}
use specifyr.Database.{select, select_one, delete}
use specifyr.Credentials.Cipher.{Cipher}
use specifyr.Extensions.Rows.{
  OrgExtension, World, is_reservation_slug, is_visible, is_of_org, has_slug, is_directory,
}

pub record OrgExtensionListEntry : Type 0 where
  pub id : ℕ
  pub org_id : ℕ
  pub slug : Text
  pub source_url : Text
  pub source_ref : Option Text
  pub has_credentials : Bool
  pub registered_by : Option ℕ
  pub registered_at : ℕ
  pub updated_at : ℕ

-- `!!s` on a string that may be null
abbrev pub is_present : Option Text → Bool
is_present none = false
is_present (some []) = false
is_present (some (_ ∷ _)) = true

-- The path of the entry is given by its org and its slug.
unfoldable pub to_list_entry : OrgExtension → OrgExtensionListEntry
to_list_entry row = record {
  id = row.id;
  org_id = row.org_id;
  slug = row.slug;
  source_url = row.source_url;
  source_ref = row.source_ref;
  has_credentials = is_present row.credential_iv;
  registered_by = row.registered_by;
  registered_at = row.registered_at;
  updated_at = row.updated_at;
}

unfoldable pub list_org_extensions : ℕ → World → List OrgExtensionListEntry
unfolding is_visible to_list_entry
list_org_extensions org_id w =
    if w.is_configured
    then map to_list_entry (select is_visible (select (is_of_org org_id) w.extensions))
    else []

unfoldable pub get_org_extension_by_slug : ℕ → Text → World → Option OrgExtensionListEntry
unfolding is_visible to_list_entry
get_org_extension_by_slug org_id slug w =
    if w.is_configured
    then elim (select_one (has_slug org_id slug) w.extensions) [
      | none ↦ none
      | some row ↦ if is_visible row then some (to_list_entry row) else none
    ]
    else none

pub data Error : Type 0 where
  db_not_configured partial_credentials not_decrypted : Error
  duplicate_id temp_failed rename_failed row_vanished : Error

-- The removal of the directory may fail, which is ignored.
unfoldable pub remove_org_extension : Bool → ℕ → Text → World → Result Error (Bool × World)
unfolding is_reservation_slug
remove_org_extension removes org_id slug w =
    if w.is_configured
    then (if is_reservation_slug slug || not (any (has_slug org_id slug) w.extensions)
        then ok (false, w)
        else ok (
          true,
          record w {
            extensions = delete (has_slug org_id slug) w.extensions;
            directories =
                if removes then delete (is_directory org_id slug) w.directories else w.directories;
          },
        ))
    else throw db_not_configured

abbrev pub text_of : Option Text → Text
text_of none = []
text_of (some t) = t

-- The credentials of one row.
unfoldable pub row_credentials : Cipher → OrgExtension → Result Error (Option (Text × Text))
row_credentials cipher row =
    if not (is_present row.credential_iv)
      && not (is_present row.credential_username)
      && not (is_present row.credential_tag)
      && not (is_present row.credential_payload)
    then ok none
    else if is_present row.credential_iv
        && is_present row.credential_username
        && is_present row.credential_tag
        && is_present row.credential_payload
    then elim (cipher.decrypt (record {
      iv = text_of row.credential_iv;
      tag = text_of row.credential_tag;
      payload = text_of row.credential_payload;
    })) [
      | none ↦ throw not_decrypted
      | some token ↦ ok (some (text_of row.credential_username, token))
    ]
    else throw partial_credentials

unfoldable pub get_org_extension_credentials :
    Cipher → ℕ → Text → World → Result Error (Option (Text × Text))
unfolding is_visible row_credentials
get_org_extension_credentials cipher org_id slug w =
    if w.is_configured
    then elim (select_one (has_slug org_id slug) w.extensions) [
      | none ↦ ok none
      | some row ↦ if is_visible row then row_credentials cipher row else ok none
    ]
    else ok none
