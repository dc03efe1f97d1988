-- ===== src/Capabilities/Gate.antt =====
-- `checkCapability` of src/core/capability-gate.js. The reason of a verdict is the grant that it
-- names, or none.
use specifyr.Prelude.{
  Bool, true, false, ◌||◌, ◌&&◌, Option, none, some, List, [], ◌∷◌, Text, codes, text_eq, any, ◌==◌,
  if◌then◌else◌,
}

-- `cap.slice(0, cap.indexOf(":"))`, or the whole text without a colon.
unfoldable pub capability_class : Text → Text
capability_class [] = []
capability_class (c ∷ cap) = let rest = capability_class cap in if c == b':' then [] else c ∷ rest

-- `cap.slice(cap.indexOf(":") + 1)`, or "" without a colon.
unfoldable pub capability_sub : Text → Text
capability_sub [] = []
capability_sub (c ∷ cap) = let rest = capability_sub cap in if c == b':' then cap else rest

-- `SENSITIVE_CAPABILITIES`
abbrev pub sensitive_capabilities : List Text
sensitive_capabilities = codes "payment:execute_unrestricted" ∷ codes "secrets:read_vault" ∷ []

-- `SENSITIVE_CLASSES`
abbrev pub sensitive_classes : List Text
sensitive_classes = codes "account" ∷ []

unfoldable pub is_sensitive : Text → Bool
unfolding capability_class
is_sensitive cap =
    if any (text_eq cap) sensitive_capabilities
    then true
    else any (text_eq (capability_class cap)) sensitive_classes

abbrev pub grants : Text → Text → Bool
grants request grant =
    text_eq grant request
    || (text_eq (capability_class grant) (capability_class request)
        && text_eq (capability_sub grant) (codes "any"))

unfoldable pub find_grant : List Text → Text → Option Text
unfolding capability_class capability_sub
find_grant [] request = none
find_grant (grant ∷ granted) request =
    let rest = find_grant granted request in if grants request grant then some grant else rest

pub record Verdict : Type 0 where
  pub allowed : Bool
  pub grant : Option Text
  pub requires_approval : Bool

-- `granted` is `agent?.capabilities ?? []`.
unfoldable pub check_capability : List Text → Text → Verdict
unfolding find_grant is_sensitive
check_capability granted request = elim (find_grant granted request) [
  | none ↦ record { allowed = false; grant = none; requires_approval = false }
  | some grant ↦
      if is_sensitive grant || is_sensitive request
      then record { allowed = true; grant = some grant; requires_approval = true }
      else record { allowed = true; grant = some grant; requires_approval = false }
]
