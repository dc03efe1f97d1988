-- ===== src/Network/Allocator.antt =====
-- `allocateBridgeSubnet` of server/shared/utils/bridge-subnet-allocator.ts. The advisory lock
-- makes the read of the used subnets and the insert of the caller one step, so the function takes
-- the subnets of the org rows as they are in that step.
pub mod Slots
pub mod Capacity
use specifyr.Prelude.{
  ℕ, zero, suc, ◌+◌, ◌-◌, ◌*◌, ◌^◌, Bool, Option, none, some, List, [], ◌∷◌, ◌++◌, ◌≡◌, refl, Text,
  text_eq, codes, any, ltb, if◌then◌else◌,
}
use specifyr.Network.Cidr.{Cidr, parse_cidr, int_to_ip}

pub data Allocation : Type 0 where
  subnet : Text → Allocation
  invalid_cidr pool_too_small pool_exhausted : Allocation

-- The slot with number `i`: `${intToIp(baseInt + i * 256)}/24`.
unfoldable pub slot : ℕ → ℕ → Text
unfolding int_to_ip
slot base i = int_to_ip (base + i * 256) ++ codes "/24"

-- `used.has(cidr)`
abbrev pub has : Text → List Text → Bool
has cidr used = any (text_eq cidr) used

-- The loop over the slots from `i`, with the number of slots left.
unfoldable pub first_free : List Text → ℕ → ℕ → ℕ → Option Text
first_free used base i zero = none
first_free used base i (suc left) =
    let rest = first_free used base (i + 1) left in
    if has (slot base i) used then rest else some (slot base i)

-- `SELECT bridge_subnet … WHERE bridge_subnet IS NOT NULL`
abbrev pub present : List (Option Text) → List Text
present [] = []
present (none ∷ rows) = present rows
present (some s ∷ rows) = s ∷ present rows

unfoldable pub allocate_in : Cidr → List Text → Allocation
unfolding first_free
allocate_in pool used =
    if ltb 24 pool.prefix
    then pool_too_small
    else elim (first_free used pool.base_int 0 (2 ^ (24 - pool.prefix))) [
      | none ↦ pool_exhausted
      | some cidr ↦ subnet cidr
    ]

unfoldable pub allocate_bridge_subnet : Text → List (Option Text) → Allocation
unfolding parse_cidr allocate_in
allocate_bridge_subnet pool subnets = elim (parse_cidr pool) [
  | none ↦ invalid_cidr
  | some c ↦ allocate_in c (present subnets)
]
