-- ===== src/Webhooks/IpPool/InSubnet.antt =====
-- pkg/ippoolmanager/ippool_subnet_validate.go: the checks of a pool against its SpiderSubnet.
pub mod Contained
use spiderpool.Prelude.{
  ℕ, Bool, true, false, not, ◌&&◌, List, [], ◌∷◌, Option, none, some, Text, lookup, length, ltb,
  ◌==◌, if◌then◌else◌,
}
use spiderpool.Net.Address.{Ip, nil, bytes4, bytes16}
use spiderpool.Net.Textual.{NetText}
use spiderpool.Ip.Result as Ip
use spiderpool.Ip.Range.{parse_ip_ranges, sort_addresses}
use spiderpool.Ip.Sets.{assemble_total_ips, ips_diff_set}
use spiderpool.Subnets.Records as Subnets
use spiderpool.Webhooks.Objects.{
  PoolObject, SubnetObject, Affinity, Enabled, Reason, corrupt_total, corrupt_records,
  get_subnet_failed, outside_subnet, not_pre_allocated, panicked, out_of_fuel, Admission, admit,
  deny, deny_if, to_list, is_auto_created_ip_pool,
}
use spiderpool.Webhooks.IpPool.{validate_create_ip_pool, validate_update_ip_pool}

-- `reflect.DeepEqual` of two lists of addresses compares their bytes.
abbrev pub same_bytes : Ip → Ip → Bool
same_bytes nil nil = true
same_bytes (bytes4 a) (bytes4 b) = a == b
same_bytes (bytes16 a) (bytes16 b) = a == b
same_bytes _ _ = false

unfoldable pub same_ips : List Ip → List Ip → Bool
same_ips [] [] = true
same_ips [] (y ∷ ys) = false
same_ips (x ∷ xs) [] = false
same_ips (x ∷ xs) (y ∷ ys) = same_bytes x y && same_ips xs ys

-- A result of pkg/ip that is needed.
abbrev pub needs : Ip.Result (List Ip) → Reason → (List Ip → Admission) → Admission
needs (Ip.ok ips) r k = k ips
needs (Ip.err e) r k = deny r
needs Ip.diverge r k = deny out_of_fuel

abbrev pub dereference : Option ℕ → (ℕ → Admission) → Admission
dereference none k = deny panicked
dereference (some v) k = k v

module _ (n : NetText) (fuel : ℕ) where
  -- The addresses that the subnet has given to a pool, none without an entry.
  abbrev pub pre_allocated : ℕ → Text → Subnets.PreAllocations → Ip.Result (List Ip)
  unfolding lookup parse_ip_ranges
  pre_allocated version name m = elim (lookup name m) [
    | none ↦ Ip.ok []
    | some a ↦ parse_ip_ranges n fuel version a.ips
  ]

  unfoldable pub validate_new_auto_pool_total_ips_within_subnet :
      ℕ → PoolObject → SubnetObject → Admission
  unfolding assemble_total_ips Subnets.unmarshal_subnet_allocated_ip_pools lookup parse_ip_ranges
      sort_addresses same_ips
  validate_new_auto_pool_total_ips_within_subnet version p s =
      needs (assemble_total_ips n fuel version p.ips p.exclude_ips) corrupt_total λ total.
        elim (Subnets.unmarshal_subnet_allocated_ip_pools s.controlled_ip_pools) [
          | Subnets.err e ↦ deny corrupt_records
          | Subnets.ok m ↦ dereference s.version λ w.
              needs (pre_allocated w p.name m) corrupt_records λ given.
                deny_if (not (same_ips (sort_addresses given) (sort_addresses total)))
                  not_pre_allocated
        ]

  -- `get` is the answer of the API server for a name.
  unfoldable pub validate_subnet_total_ips_contains_ip_pool_total_ips :
      (Text → Option SubnetObject) → ℕ → PoolObject → Admission
  unfolding assemble_total_ips ips_diff_set is_auto_created_ip_pool
      validate_new_auto_pool_total_ips_within_subnet
  validate_subnet_total_ips_contains_ip_pool_total_ips get version p = elim p.controller [
    | none ↦ admit
    | some owner ↦
        needs (assemble_total_ips n fuel version p.ips p.exclude_ips) corrupt_total λ total.
          if length total == 0 then admit else elim (get owner.name) [
            | none ↦ deny get_subnet_failed
            | some s ↦ dereference s.version λ w.
                needs (assemble_total_ips n fuel w s.ips s.exclude_ips) corrupt_total
                  λ subnet_total.
                    if ltb 0 (length (ips_diff_set total subnet_total false))
                    then deny outside_subnet
                    else if is_auto_created_ip_pool p
                    then validate_new_auto_pool_total_ips_within_subnet version p s
                    else admit
          ]
  ]

  -- The rest of a webhook after checks that found nothing; the version is set then.
  abbrev pub in_subnet_too :
      Bool → (Text → Option SubnetObject) → PoolObject → List Reason → List Reason
  in_subnet_too true get p [] =
      to_list
        (dereference p.version λ v. validate_subnet_total_ips_contains_ip_pool_total_ips get v p)
  in_subnet_too false get p [] = []
  in_subnet_too _ get p (r ∷ rs) = r ∷ rs

  unfoldable pub validate_create_ip_pool_while_enable_spider_subnet :
      Bool
      → (Text → Option SubnetObject)
      → Enabled
      → (Affinity → List Reason)
      → Option (List PoolObject)
      → PoolObject
      → List Reason
  unfolding validate_create_ip_pool validate_subnet_total_ips_contains_ip_pool_total_ips
  validate_create_ip_pool_while_enable_spider_subnet enable get enabled check_selector pools p =
      in_subnet_too enable get p (validate_create_ip_pool n fuel enabled check_selector pools p)

  unfoldable pub validate_update_ip_pool_while_enable_spider_subnet :
      Bool
      → (Text → Option SubnetObject)
      → Enabled
      → (Affinity → List Reason)
      → Option (List PoolObject)
      → PoolObject
      → PoolObject
      → List Reason
  unfolding validate_update_ip_pool validate_subnet_total_ips_contains_ip_pool_total_ips
  validate_update_ip_pool_while_enable_spider_subnet enable get enabled check_selector pools old p =
      in_subnet_too enable get p (validate_update_ip_pool n fuel enabled check_selector pools old p)
