-- ===== src/Tests/Subnets.antt =====
-- The pre-allocation of a subnet, at a pool that grows from two addresses to three.
use spiderpool.Prelude.{
  ℕ, ◌≡◌, refl, true, false, List, [], ◌∷◌, none, some, Text, text_eq, codes, split_on,
  contains_code, lookup, ◌++◌, ◌+◌, ◌<◌, arith,
}
use spiderpool.Net.Address.{Ip, bytes16}
use spiderpool.Ip.Result as Ip
use spiderpool.Ip.Range.{parse_ip_ranges}
use spiderpool.Ip.Range.Band.{v4, Good}
use spiderpool.Ip.Sets.{assemble_total_ips}
use spiderpool.Pool.Records.{json, unmarshal_allocated_ips}
use spiderpool.Subnets.Records.{PreAllocation, Subnet, ok, unmarshal_subnet_allocated_ip_pools}
use spiderpool.Subnets.Records as Subnets
use spiderpool.Subnets.FreeIps.{used_texts}
use spiderpool.Subnets.PreAllocate.{ScaledPool, allocated_texts, pre_allocate_ips_from_subnet}
use spiderpool.Subnets.PreAllocate.Branches.{Within, Given, parsed_texts}
use spiderpool.Subnets.PreAllocate.Safety.{pre_allocate-Given}
use spiderpool.Tests.Net.{networked, networked_laws, show, address, net_base}

abbrev text : ℕ → Text
text i = show (address i)

abbrev ip : ℕ → Ip
ip i = bytes16 (address i)

abbrev old : PreAllocation
old = record { ips = text 1 ∷ text 2 ∷ []; application = none }

abbrev other : PreAllocation
other = record { ips = text 3 ∷ []; application = none }

abbrev subnet : Subnet
subnet = record {
  name = codes "s";
  deleting = false;
  ip_version = 4;
  subnet = codes "net";
  ips = text 1 ∷ text 2 ∷ text 3 ∷ text 4 ∷ text 5 ∷ [];
  exclude_ips = [];
  controlled_ip_pools = Subnets.json ((codes "a", old) ∷ (codes "b", other) ∷ []);
  total_ip_count = none;
  allocated_ip_count = none;
}

abbrev pool : ScaledPool
pool = record {
  name = codes "a";
  ips = text 1 ∷ text 2 ∷ [];
  allocated_ips = json ((text 2, record { namespaced_name = []; pod_uid = [] }) ∷ []);
}

-- The two addresses of the pool, and the one that is neither used nor reserved.
abbrev grown : List Text
grown = (text 1 ++ b'-' ∷ text 2) ∷ text 5 ∷ []

abbrev after : Subnet
after = record subnet {
  controlled_ip_pools = Subnets.json (
      (codes "a", record { ips = grown; application = some (codes "app") })
      ∷ (codes "b", other)
      ∷ []);
  total_ip_count = some 5;
  allocated_ip_count = some 4;
}

grows :
    pre_allocate_ips_from_subnet networked 20
      (λ s. true)
      (codes "app")
      (Ip.ok (ip 4 ∷ []))
      subnet
      pool
      3
    ≡ ok (grown, some after)
unfolding pre_allocate_ips_from_subnet text_eq split_on contains_code
grows = refl

abbrev total : List Ip
total = ip 1 ∷ ip 2 ∷ ip 3 ∷ ip 4 ∷ ip 5 ∷ []

abbrev used : List Ip
used = ip 1 ∷ ip 2 ∷ ip 3 ∷ []

total_is : assemble_total_ips networked 20 4 subnet.ips subnet.exclude_ips ≡ Ip.ok total
unfolding assemble_total_ips split_on contains_code
total_is = refl

used_is :
    parse_ip_ranges networked 20 4 (used_texts ((codes "a", old) ∷ (codes "b", other) ∷ []))
    ≡ Ip.ok used
unfolding used_texts parse_ip_ranges split_on contains_code
used_is = refl

held_is : parse_ip_ranges networked 20 4 old.ips ≡ Ip.ok (ip 1 ∷ ip 2 ∷ [])
unfolding parse_ip_ranges split_on contains_code
held_is = refl

recorded_is : parse_ip_ranges networked 20 4 (text 2 ∷ []) ≡ Ip.ok (ip 2 ∷ [])
unfolding parse_ip_ranges split_on contains_code
recorded_is = refl

address_fits : (i : ℕ) → i < 200 → Good v4 (ip i)
address_fits i h = (net_base + i, refl, (omega arith, omega arith))

recorded-Within : Within (ip 2 ∷ []) (ip 1 ∷ ip 2 ∷ [])
recorded-Within v h = ground arith

read_pools :
    unmarshal_subnet_allocated_ip_pools subnet.controlled_ip_pools
    ≡ ok ((codes "a", old) ∷ (codes "b", other) ∷ [])
unfolding unmarshal_subnet_allocated_ip_pools
read_pools = refl

read_records : allocated_texts pool.allocated_ips ≡ ok (text 2 ∷ [])
unfolding unmarshal_allocated_ips
read_records = refl

pre_allocate-Given_example :
    Given
      (parsed_texts networked networked_laws v4 20)
      ((codes "a", old) ∷ (codes "b", other) ∷ [])
      (codes "a")
      (total, used, ip 4 ∷ [])
      (ip 1 ∷ ip 2 ∷ [])
      (ip 2 ∷ [])
      grown
      (some after)
unfolding lookup text_eq
pre_allocate-Given_example =
    pre_allocate-Given networked networked_laws v4 20 (λ s. true) (codes "app") subnet pool 3
      ((codes "a", old) ∷ (codes "b", other) ∷ []) total used (ip 4 ∷ []) (ip 1 ∷ ip 2 ∷ [])
      (ip 2 ∷ []) (text 2 ∷ []) refl read_pools total_is used_is held_is read_records recorded_is
      recorded-Within
      (
        address_fits 1 (omega arith),
        (
          address_fits 2 (omega arith),
          (
            address_fits 3 (omega arith),
            (address_fits 4 (omega arith), (address_fits 5 (omega arith), tt)),
          ),
        ),
      )
      (address_fits 1 (omega arith), (address_fits 2 (omega arith), tt)) (omega arith) grows
