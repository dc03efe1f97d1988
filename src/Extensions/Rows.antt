-- ===== src/Extensions/Rows.antt =====
-- The table `org_extensions` of server/shared/database/schema.ts, the directories of the clones, and
-- which rows are visible.
use specifyr.Prelude.{
  ℕ, Bool, true, false, not, ◌&&◌, ◌||◌, Option, List, [], ◌∷◌, ◌++◌, Text, codes, text_eq, ◌==◌,
}

pub record OrgExtension : Type 0 where
  pub id : ℕ
  pub org_id : ℕ
  pub slug : Text
  pub source_url : Text
  pub source_ref : Option Text
  pub credential_username : Option Text
  pub credential_iv : Option Text
  pub credential_tag : Option Text
  pub credential_payload : Option Text
  pub registered_by : Option ℕ
  pub registered_at : ℕ
  pub updated_at : ℕ

-- `orgExtensionPath`: a directory is known by the org and the slug. `content` stands for its files.
pub record Directory : Type 0 where
  pub org_id : ℕ
  pub slug : Text
  pub content : ℕ

-- `temps` are the temporary directories that exist.
pub record World : Type 0 where
  pub is_configured : Bool
  pub extensions : List OrgExtension
  pub directories : List Directory
  pub temps : List ℕ

abbrev pub starts_with : Text → Text → Bool
starts_with [] s = true
starts_with (c ∷ p) [] = false
starts_with (c ∷ p) (d ∷ s) = (c == d) && starts_with p s

abbrev pub ends_with : Text → Text → Bool
ends_with p [] = text_eq p []
ends_with p (c ∷ s) = text_eq p (c ∷ s) || ends_with p s

-- `haystack` holds `needle` somewhere.
unfoldable pub includes : Text → Text → Bool
includes needle [] = text_eq needle []
includes needle (c ∷ s) = starts_with needle (c ∷ s) || includes needle s

-- `reservationSlug`, for a random uuid.
unfoldable pub reservation_slug : Text → Text
reservation_slug uuid = codes "__pending_" ++ (uuid ++ codes "__")

unfoldable pub is_reservation_slug : Text → Bool
is_reservation_slug slug = starts_with (codes "__pending_") slug && ends_with (codes "__") slug

unfoldable pub is_visible : OrgExtension → Bool
unfolding is_reservation_slug
is_visible row = not (is_reservation_slug row.slug)

abbrev pub has_id : ℕ → OrgExtension → Bool
has_id id row = row.id == id

abbrev pub is_of_org : ℕ → OrgExtension → Bool
is_of_org org_id row = row.org_id == org_id

-- `and(eq(orgExtensions.orgId, orgId), eq(orgExtensions.slug, slug))`
abbrev pub has_slug : ℕ → Text → OrgExtension → Bool
has_slug org_id slug row = (row.org_id == org_id) && text_eq row.slug slug

abbrev pub is_directory : ℕ → Text → Directory → Bool
is_directory org_id slug d = (d.org_id == org_id) && text_eq d.slug slug
