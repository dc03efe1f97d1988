-- ===== src/Network/Allocator/Capacity.antt =====
-- How many orgs a pool can serve.
use specifyr.Prelude.{
  ℕ, zero, suc, ◌+◌, ◌-◌, ◌^◌, ◌≤◌, ◌<◌, ◌≡◌, ◌≢◌, true, List, [], ◌∷◌, Text, text_eq, text_eq_iff,
  arith, if◌then◌else◌, length,
}
use native.Mathlib.Nat.{zero-add, pow-le-pow_right}
use specifyr.Network.Cidr.{Cidr}
use specifyr.Network.Allocator.{pool_exhausted, slot, has, allocate_in}
use specifyr.Network.Allocator.Slots.{AllUsed, slot-injective, allocate_in_exhausted_iff}

erase : Text → List Text → List Text
erase c [] = []
erase c (d ∷ ds) = if text_eq c d then ds else d ∷ erase c ds

length-erase : (c : Text) (ds : List Text) → has c ds ≡ true → suc (length (erase c ds)) ≡ length ds
unfolding erase
length-erase c [] h = cc
length-erase c (d ∷ ds) h = ground (arith, length-erase c ds)

has-erase : (b c : Text) (ds : List Text) → b ≢ c → has b ds ≡ true → has b (erase c ds) ≡ true
unfolding erase
has-erase b c [] n h = cc
has-erase b c (d ∷ ds) n h = ground (arith, has-erase b c ds n, text_eq_iff b d, text_eq_iff c d)

-- Taking one slot off the list leaves the later ones on it.
AllUsed-erase :
    (used : List Text) (base i j n : ℕ)
    → i < j
    → j + n ≤ 2 ^ 24
    → AllUsed used base j n
    → AllUsed (erase (slot base i) used) base j n
AllUsed-erase used base i j zero lt le h = tt
AllUsed-erase used base i j (suc n) lt le h = (
  has-erase (slot base j) (slot base i) used
      (λ e. absurd (omega (arith, slot-injective base j i (omega arith) (omega arith) e))) h.0,
  AllUsed-erase used base i (j + 1) n (omega arith) (omega arith) h.1,
)

AllUsed-le-length :
    (used : List Text) (base i n : ℕ) → i + n ≤ 2 ^ 24 → AllUsed used base i n → n ≤ length used
AllUsed-le-length used base i zero le h = omega arith
AllUsed-le-length used base i (suc n) le h = omega (
  arith,
  length-erase (slot base i) used h.0,
  AllUsed-le-length (erase (slot base i) used) base (i + 1) n (omega arith)
      (AllUsed-erase used base i (i + 1) n (omega arith) (omega arith) h.1),
)

-- With a pool prefix of at most 24, the pool counts as exhausted only when at least
-- 2 ^ (24 - prefix) subnets are in use.
pub exhausted_needs_orgs :
    (pool : Cidr) (used : List Text)
    → pool.prefix ≤ 24
    → allocate_in pool used ≡ pool_exhausted
    → 2 ^ (24 - pool.prefix) ≤ length used
exhausted_needs_orgs pool used h e =
    AllUsed-le-length used pool.base_int 0 (2 ^ (24 - pool.prefix))
      (rw zero-add (pow-le-pow_right {n = 2} (omega arith) {j = 24} (omega arith)))
      ((allocate_in_exhausted_iff pool used h).0 e)
