-- ===== src/Network/Allocator/Slots.antt =====
-- Which slot the allocator hands out.
use specifyr.Prelude.{
  ℕ, zero, suc, ◌+◌, ◌-◌, ◌*◌, ◌^◌, ◌≤◌, ◌<◌, ◌≡◌, ◌↔◌, refl, ap, ◌∙◌, true, false, none, some,
  List, Text, arith, ltb, Bool-cases, inl, inr,
}
use native.Mathlib.Nat.{add-zero}
use specifyr.Network.Cidr.{Cidr}
use specifyr.Network.Cidr.Printed.{octets, match_groups-int_to_ip, octets-injective}
use specifyr.Network.Allocator.{subnet, pool_exhausted, slot, has, first_free, allocate_in}

-- The `n` slots from number `i` on are all in use.
abbrev pub AllUsed : List Text → ℕ → ℕ → ℕ → Type 0
AllUsed used base i zero = Unit
AllUsed used base i (suc n) = (has (slot base i) used ≡ true) × AllUsed used base (i + 1) n

-- Slots of one base with different numbers below 2 ^ 24 are different texts.
pub slot-injective : (base i j : ℕ) → i < 2 ^ 24 → j < 2 ^ 24 → slot base i ≡ slot base j → i ≡ j
unfolding slot
slot-injective base i j hi hj e =
    let same : octets (base + i * 256) ≡ octets (base + j * 256) =
      cc (match_groups-int_to_ip (base + i * 256), match_groups-int_to_ip (base + j * 256)) in
    omega (arith, octets-injective (base + i * 256) (base + j * 256) same)

abbrev pub FirstFree : List Text → ℕ → ℕ → ℕ → Text → Type 0
FirstFree used base i n c =
    (k : ℕ) × (k < n) × (c ≡ slot base (i + k)) × (has c used ≡ false) × AllUsed used base i k

first_free-FirstFree :
    (used : List Text) (base i n : ℕ) (c : Text)
    → first_free used base i n ≡ some c
    → FirstFree used base i n c
unfolding first_free
first_free-FirstFree used base i zero c e = cc
first_free-FirstFree used base i (suc n) c e = elim (Bool-cases (has (slot base i) used)) [
  | inl taken ↦
      let (k, lt, at, free, before) = first_free-FirstFree used base (i + 1) n c (ground arith) in
      (suc k, omega arith, at ∙ ap (slot base) (omega arith), free, (taken, before))
  | inr free ↦ (0, omega arith, ground (arith, add-zero i), ground (arith, add-zero i), tt)
]

first_free-none :
    (used : List Text) (base i n : ℕ) → (first_free used base i n ≡ none) ↔ AllUsed used base i n
unfolding first_free
first_free-none used base i zero = (λ e. tt, λ h. refl)
first_free-none used base i (suc n) =
    let (to, from) = first_free-none used base (i + 1) n in
    elim (Bool-cases (has (slot base i) used)) [
      | inl taken ↦ (λ e. (taken, to (ground arith)), λ h. rw taken (from h.1))
      | inr free ↦ (λ e. ground arith, λ h. ground arith)
    ]

-- A subnet that is handed out is used by no org, it is a slot of the pool, and every slot before it
-- is in use.
pub allocate_in_first :
    (pool : Cidr) (used : List Text) (c : Text)
    → allocate_in pool used ≡ subnet c
    → FirstFree used pool.base_int 0 (2 ^ (24 - pool.prefix)) c
unfolding allocate_in
allocate_in_first pool used c e = elim (Bool-cases (ltb 24 pool.prefix)) [
  | inl small ↦ ground arith
  | inr large ↦ first_free-FirstFree used pool.base_int 0 (2 ^ (24 - pool.prefix)) c (ground arith)
]

-- A pool with a prefix of at most 24 counts as exhausted exactly when every slot of it is in use.
pub allocate_in_exhausted_iff :
    (pool : Cidr) (used : List Text)
    → pool.prefix ≤ 24
    → (allocate_in pool used ≡ pool_exhausted)
      ↔ AllUsed used pool.base_int 0 (2 ^ (24 - pool.prefix))
unfolding allocate_in
allocate_in_exhausted_iff pool used h =
    let (to, from) = first_free-none used pool.base_int 0 (2 ^ (24 - pool.prefix)) in
    (λ e. to (ground arith), λ a. ground (arith, from a))
