-- ===== src/Extensions/Tests.antt =====
-- Adds of concrete extensions: tests, and the theorems applied.
use specifyr.Prelude.{false, ◌≡◌, refl, true, Option, none, some, [], ◌∷◌, codes, arith}
use specifyr.Prelude.Result.{ok}
use specifyr.Database.{select_one}
use specifyr.Orgs.Slug.{trim}
use specifyr.Credentials.Cipher.{Cipher, CipherLaws}
use specifyr.Extensions.Rows.{World, is_directory, includes, is_reservation_slug, reservation_slug}
use specifyr.Extensions.Store.{
  get_org_extension_by_slug, get_org_extension_credentials, to_list_entry,
}
use specifyr.Extensions.Adding.{
  Credentials, AddOrgExtensionInput, refused, url_invalid, cloned, not_cloned, slug_of, Course,
  reserved_row, add_org_extension, claim, reserve, set_slug,
}
use specifyr.Extensions.Outcomes.{added_is_found, added_credentials}

-- A cipher that only marks its entries.
abbrev tagging : Cipher
tagging = record {
  encrypt = λ iv t. record { iv = b'i' ∷ iv; tag = b't' ∷ []; payload = t };
  decrypt = λ e. some e.payload;
}

tagging-CipherLaws : CipherLaws tagging
tagging-CipherLaws = record {
  decrypt-encrypt = λ iv t. refl;
  iv_present = λ iv t n e. ground (arith, e);
  tag_present = λ iv t n e. ground (arith, e);
  payload_present = λ iv t n. n;
}

abbrev key : Credentials
key = record { username = codes "bot"; token = codes "secret" }

abbrev input : AddOrgExtensionInput
input = record {
  org_id = 1;
  source_url = codes "https://git.example/x";
  source_ref = none;
  credentials = some key;
  registered_by = 5;
}

abbrev course : Course
course = record {
  id = 10;
  uuid = codes "u";
  iv = codes "v";
  temp = 77;
  reserved_at = 1;
  claimed_at = 2;
  clone = cloned 3;
  manifest = slug_of (codes "ext");
  makes_temp = true;
  renames = true;
  drops_row = true;
  drops_temp = true;
}

abbrev world : World
world = record { is_configured = true; extensions = []; directories = []; temps = [] }

abbrev refused_course : Course
refused_course = record course { clone = not_cloned (codes "only https URLs are allowed") }

stderr_refuses : (add_org_extension tagging refused_course input world).0 ≡ refused url_invalid
unfolding add_org_extension reserve trim includes
stderr_refuses = refl

-- Between the claim and the move the extension is shown, and its directory is not there.
abbrev claimed : Option World
claimed = claim 2 10 1 (codes "ext") (reserve (reserved_row tagging course input) world).1

shown_before_moved :
    (elim claimed [ none ↦ none | some w ↦ get_org_extension_by_slug 1 (codes "ext") w ]
      ≡ some (to_list_entry (set_slug (codes "ext") 2 (reserved_row tagging course input))))
    × (elim claimed [ none ↦ [] | some w ↦ w.directories ] ≡ [])
unfolding claim reserve reserved_row reservation_slug get_org_extension_by_slug is_reservation_slug
shown_before_moved = (refl, refl)

abbrev no_space : Course
no_space = record course { makes_temp = false }

abbrev after : World
after = (add_org_extension tagging course input world).1

added_is_found_example :
    (get_org_extension_by_slug 1 (codes "ext") after
      ≡ some (to_list_entry (set_slug (codes "ext") 2 (reserved_row tagging course input))))
    × (select_one (is_directory 1 (codes "ext")) after.directories
        ≡ some (record { org_id = 1; slug = codes "ext"; content = 3 }))
unfolding add_org_extension reserve trim is_reservation_slug
added_is_found_example =
    added_is_found tagging course input world (codes "ext") 3
      (to_list_entry (set_slug (codes "ext") 2 (reserved_row tagging course input))) refl refl refl
      refl

added_credentials_example :
    get_org_extension_credentials tagging 1 (codes "ext") after
    ≡ ok (some (codes "bot", codes "secret"))
unfolding add_org_extension reserve trim is_reservation_slug
added_credentials_example =
    added_credentials tagging tagging-CipherLaws course input world (codes "ext") 3 key
      (to_list_entry (set_slug (codes "ext") 2 (reserved_row tagging course input))) refl refl refl
      refl refl
