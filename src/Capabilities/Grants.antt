-- ===== src/Capabilities/Grants.antt =====
-- What the gate lets through, and what it asks an approval for.
use specifyr.Prelude.{
  ◌≡◌, refl, Bool, true, false, ◌||◌, ◌&&◌, some, List, [], ◌∷◌, Text, codes, text_eq,
  text_eq_sound, any, arith, Bool-cases, Option-cases, inl, inr,
}
use mathlib.Core.Path.{subst}
use specifyr.Capabilities.Gate.{
  capability_class, capability_sub, is_sensitive, grants, find_grant, check_capability,
  sensitive_capabilities, sensitive_classes,
}

find_grant-grants :
    (granted : List Text) (request grant : Text)
    → find_grant granted request ≡ some grant
    → grants request grant ≡ true
unfolding find_grant
find_grant-grants [] request grant e = ground arith
find_grant-grants (g ∷ granted) request grant e =
    ground (arith, find_grant-grants granted request grant)

last_of : (a b : Bool) → a ≡ false → (a || (b || false)) ≡ true → b ≡ true
last_of a b n h = ground arith

literal_sub :
    (cap : Text)
    → any (text_eq cap) sensitive_capabilities ≡ true
    → text_eq (capability_sub cap) (codes "any") ≡ false
unfolding capability_sub
literal_sub cap h = elim (Bool-cases (text_eq cap (codes "payment:execute_unrestricted"))) [
  | inl same ↦ rw (text_eq_sound cap (codes "payment:execute_unrestricted") same) refl
  | inr other ↦
      let second : text_eq cap (codes "secrets:read_vault") ≡ true =
        last_of (text_eq cap (codes "payment:execute_unrestricted"))
          (text_eq cap (codes "secrets:read_vault")) other h in
      rw (text_eq_sound cap (codes "secrets:read_vault") second) refl
]

is_sensitive-grants :
    (request g : Text)
    → grants request g ≡ true
    → is_sensitive g ≡ true
    → is_sensitive request ≡ true
unfolding is_sensitive
is_sensitive-grants request g granted sensitive = elim (Bool-cases (text_eq g request)) [
  | inl same ↦ subst (λ t. is_sensitive t ≡ true) (text_eq_sound g request same) sensitive
  | inr other ↦ elim (Bool-cases (any (text_eq g) sensitive_capabilities)) [
    | inl named ↦ ground (arith, other, literal_sub g named)
    | inr unnamed ↦
        let class : text_eq (capability_class g) (capability_class request) ≡ true =
          ground (arith, other) in
        let e = text_eq_sound (capability_class g) (capability_class request) class in
        let by_class : any (text_eq (capability_class g)) sensitive_classes ≡ true =
          ground (arith, unnamed) in
        let moved = subst (λ t. any (text_eq t) sensitive_classes ≡ true) e by_class in
        ground (arith, moved)
  ]
]

-- Whichever grant is found, an approval is asked for exactly if the request is allowed and is itself
-- sensitive: no order of the grants gets around it.
pub check_capability_approval :
    (granted : List Text) (request : Text)
    → (check_capability granted request).requires_approval
      ≡ ((check_capability granted request).allowed && is_sensitive request)
unfolding check_capability
check_capability_approval granted request = elim (Option-cases (find_grant granted request)) [
  | inl nothing ↦ ground (arith, nothing)
  | inr (g, at) ↦
      let implied = is_sensitive-grants request g (find_grant-grants granted request g at) in
      ground (arith, at, implied)
]
