-- ===== src/Tests/Parsing.antt =====
-- The theorems on the texts that name interfaces, networks and pools.
use spiderpool.Prelude.{
  ◌≡◌, refl, ℕ, ◌+◌, contains_code, true, false, [], ◌∷◌, none, some, Text, codes, text_eq, any,
}
use Prim.Native.String.{String}
use spiderpool.Multus.Networks as Networks
use spiderpool.Multus.Networks.{
  parse_pod_network_object_name, is_label_or_empty, is_interface_or_empty, ObjectName,
}
use spiderpool.Multus.Networks.RoundTrip.{print_object_name, parse_pod_network_object_name-print}
use spiderpool.Ipam.Nics as Nics
use spiderpool.Ipam.Nics.{Item, mem, has_nic, validate_and_mutate}
use spiderpool.Ipam.Nics.Distinct.{Distinct, nics, named_items, validate_and_mutate-Distinct}
use spiderpool.Ipam.Preference as Preference
use spiderpool.Ipam.Preference.{Pools, parse_wildcard_pool_name_list}
use spiderpool.Ipam.Preference.Wildcards.{stands_for, parse_wildcard_pool_name_list_lem}
use spiderpool.Pool.Affinity.{has_wildcard_in_slice}

-- Numbers below ten
abbrev pub digit : ℕ → Text
digit n = (n + 48) ∷ []

abbrev item : String → Item
item nic = record {
  nic = codes nic;
  ipv4_pools = codes "a" ∷ [];
  ipv6_pools = [];
  clean_gateway = false;
}

accepted :
    validate_and_mutate digit (item "eth0" ∷ item "net1" ∷ []) (codes "net1")
    ≡ Nics.ok (item "eth0" ∷ item "net1" ∷ [])
unfolding validate_and_mutate text_eq
accepted = refl

validate_and_mutate-Distinct_example :
    (item "eth0" ∷ item "net1" ∷ []
      ≡ named_items digit (has_nic (item "eth0")) 0 (item "eth0" ∷ item "net1" ∷ []))
    × Distinct (nics (item "eth0" ∷ item "net1" ∷ []))
    × (has_nic (item "eth0") ≡ true
        → mem (codes "net1") (nics (item "eth0" ∷ item "net1" ∷ [])) ≡ true)
validate_and_mutate-Distinct_example =
    validate_and_mutate-Distinct digit (item "eth0") (item "net1" ∷ [])
      (item "eth0" ∷ item "net1" ∷ []) (codes "net1") accepted

abbrev object : ObjectName
object = record {
  namespace = codes "kube-system";
  name = codes "macvlan";
  interface = codes "net1";
}

object_namespace : is_label_or_empty object.namespace ≡ true
unfolding is_label_or_empty
object_namespace = refl

object_name : is_label_or_empty object.name ≡ true
unfolding is_label_or_empty
object_name = refl

object_interface : is_interface_or_empty object.interface ≡ true
unfolding is_interface_or_empty
object_interface = refl

no_at : contains_code b'@' object.interface ≡ false
unfolding contains_code
no_at = refl

parse_pod_network_object_name-print_example :
    parse_pod_network_object_name (print_object_name object) ≡ Networks.ok object
parse_pod_network_object_name-print_example =
    parse_pod_network_object_name-print object object_namespace object_name object_interface no_at
      refl

-- `abc` is the one pool that `a*` matches.
abbrev pools : Pools
pools = record {
  match_name = λ pattern n. some (text_eq n (codes "abc"));
  list_version = λ v. some (codes "abc" ∷ codes "b" ∷ []);
  list_default = none;
}

wild : has_wildcard_in_slice (codes "a*" ∷ codes "c" ∷ []) ≡ true
unfolding has_wildcard_in_slice
wild = refl

expanded :
    parse_wildcard_pool_name_list pools (codes "a*" ∷ codes "c" ∷ []) 4
    ≡ Preference.ok (codes "abc" ∷ codes "c" ∷ [])
unfolding parse_wildcard_pool_name_list text_eq
expanded = refl

parse_wildcard_pool_name_list_lem_example :
    mem (codes "abc") (codes "abc" ∷ codes "c" ∷ [])
    ≡ any
        (stands_for pools.match_name (codes "abc" ∷ codes "b" ∷ []) (codes "abc"))
        (codes "a*" ∷ codes "c" ∷ [])
parse_wildcard_pool_name_list_lem_example =
    parse_wildcard_pool_name_list_lem pools (codes "a*" ∷ codes "c" ∷ [])
      (codes "abc" ∷ codes "b" ∷ []) (codes "abc" ∷ codes "c" ∷ []) 4 wild refl expanded
      (codes "abc")
