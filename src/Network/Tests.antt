-- ===== src/Network/Tests.antt =====
-- The allocator at concrete pools.
use specifyr.Prelude.{◌-◌, ◌^◌, ◌≡◌, refl, some, none, List, [], ◌∷◌, Text, codes, ◌++◌}
use specifyr.Network.Cidr.{Cidr, match_groups, int_to_ip, parse_cidr}
use specifyr.Network.Cidr.Printed.{octets, match_groups-int_to_ip}
use specifyr.Network.Allocator.{subnet, slot, allocate_in, allocate_bridge_subnet}
use specifyr.Network.Allocator.Slots.{FirstFree, allocate_in_first}

-- 10.20.4.0/23, with two slots.
abbrev pool : Cidr
pool = record { base_int = 169083904; prefix = 23 }

pool_parsed : parse_cidr (codes "10.20.5.9/23") ≡ some pool
unfolding parse_cidr
pool_parsed = refl

bad_prefix : parse_cidr (codes "10.20.5.9/33") ≡ none
unfolding parse_cidr
bad_prefix = refl

abbrev both : List Text
both = codes "10.20.4.0/24" ∷ codes "10.20.5.0/24" ∷ []

match_groups-int_to_ip_example :
    match_groups (int_to_ip 169083904 ++ codes "/24") ≡ some (octets 169083904)
match_groups-int_to_ip_example = match_groups-int_to_ip 169083904

allocate_in_first_example :
    FirstFree (codes "10.20.4.0/24" ∷ []) 169083904 0 (2 ^ (24 - 23)) (codes "10.20.5.0/24")
unfolding allocate_in slot
allocate_in_first_example =
    allocate_in_first pool (codes "10.20.4.0/24" ∷ []) (codes "10.20.5.0/24") refl

second_slot :
    allocate_bridge_subnet (codes "10.20.7.0/22") (some (codes "10.20.4.0/24") ∷ none ∷ [])
    ≡ subnet (codes "10.20.5.0/24")
unfolding allocate_bridge_subnet slot
second_slot = refl
