-- ===== src/Extensions/Refusals.antt =====
-- What an add that fails leaves behind.
use specifyr.Prelude.{not, ◌||◌, is_some, Bool}
use specifyr.Credentials.Cipher.{Cipher}
use specifyr.Extensions.Rows.{OrgExtension, World}
use specifyr.Extensions.Adding.{has_blank_credentials, AddOrgExtensionInput, reserve}

-- The add ends before its reservation is made, or with the reservation rolled back.
abbrev pub is_refused_early : OrgExtension → AddOrgExtensionInput → World → Bool
is_refused_early row input w =
    not w.is_configured || (has_blank_credentials input.credentials || is_some (reserve row w).0)
