-- ===== src/Webhooks/Subnet.antt =====
-- pkg/subnetmanager/subnet_validate.go: what the webhook lets through when a subnet is created or
-- updated. `subnets` and `pools` are the answers of the API server to lists, none for an error.
pub mod Kept
use spiderpool.Prelude.{
  ℕ, false, not, List, [], ◌∷◌, Option, none, some, Text, text_eq, length, ltb, ◌==◌, if◌then◌else◌,
}
use spiderpool.Net.Address.{Ip}
use spiderpool.Net.Textual.{NetText}
use spiderpool.Ip.Format.{is_cidr, is_format_cidr, is_cidr_overlap}
use spiderpool.Ip.Range.{parse_ip_ranges}
use spiderpool.Ip.Sets.{assemble_total_ips, ips_diff_set, is_diff_ip_set}
use spiderpool.Subnets.Records.{PreAllocations, ControlledPools, absent, corrupt, json}
use spiderpool.Webhooks.Objects.{
  PoolObject, SubnetObject, Enabled, Reason, bad_subnet, list_failed, already_exists, corrupt_total,
  corrupt_records, outside_subnet, used_ip_removed, panicked, Admission, admit, deny, ◌and_then◌,
  to_list, deny_if, first_then, with_version,
}
use spiderpool.Webhooks.Checks.{
  validate_ip_version, should_not_be_changed, accepted, validate_contains_ip_range,
  validate_gateway, validate_routes,
}
use spiderpool.Webhooks.IpPool.{overlap_check}
use spiderpool.Webhooks.IpPool.InSubnet.{needs}

abbrev pub stored_pools : ControlledPools → (PreAllocations → Admission) → Admission
stored_pools absent k = admit
stored_pools corrupt k = deny corrupt_records
stored_pools (json m) k = k m

module _ (n : NetText) (fuel : ℕ) where
  -- The loop of `validateOrphanIPPool`; a pool outside the subnet is refused.
  unfoldable pub check_orphan_pools : ℕ → SubnetObject → List PoolObject → Admission
  unfolding text_eq is_cidr_overlap assemble_total_ips is_diff_ip_set
  check_orphan_pools version s [] = admit
  check_orphan_pools version s (q ∷ qs) =
      let rest = check_orphan_pools version s qs in
      elim q.version [
        | none ↦ deny panicked
        | some w ↦
            if not (w == version)
            then rest
            else if not (text_eq q.subnet s.subnet)
            then overlap_check (is_cidr_overlap n version q.subnet s.subnet) rest
            else needs (assemble_total_ips n fuel w q.ips q.exclude_ips) corrupt_total λ pool_ips.
              needs (assemble_total_ips n fuel version s.ips s.exclude_ips) corrupt_total
                λ subnet_ips.
                  deny_if (is_diff_ip_set pool_ips subnet_ips) outside_subnet and_then rest
      ]

  unfoldable pub validate_orphan_ip_pool : Option (List PoolObject) → ℕ → SubnetObject → Admission
  unfolding check_orphan_pools
  validate_orphan_ip_pool pools version s = elim pools [
    | none ↦ deny list_failed
    | some qs ↦ check_orphan_pools version s qs
  ]

  -- The loop of `validateSubnetCIDR`
  unfoldable pub check_subnets_apart : ℕ → SubnetObject → List SubnetObject → Admission
  unfolding text_eq is_cidr_overlap
  check_subnets_apart version s [] = admit
  check_subnets_apart version s (t ∷ ts) =
      let rest = check_subnets_apart version s ts in
      elim t.version [
        | none ↦ deny panicked
        | some w ↦
            if not (w == version)
            then rest
            else if text_eq t.name s.name
            then deny already_exists
            else overlap_check (is_cidr_overlap n version s.subnet t.subnet) rest
      ]

  unfoldable pub validate_subnet_cidr :
      Option (List SubnetObject) → Option (List PoolObject) → ℕ → SubnetObject → Admission
  unfolding is_cidr is_format_cidr check_subnets_apart validate_orphan_ip_pool
  validate_subnet_cidr subnets pools version s =
      deny_if (not (accepted (is_cidr n version s.subnet))) bad_subnet
      and_then deny_if (not (is_format_cidr n s.subnet)) bad_subnet
      and_then (elim subnets [
        | none ↦ deny list_failed
        | some ts ↦ check_subnets_apart version s ts
      ])
      and_then validate_orphan_ip_pool pools version s

  -- `validateSubnetIPs`, `validateSubnetExcludeIPs`
  unfoldable pub validate_ranges : ℕ → Text → List Text → Admission
  unfolding validate_contains_ip_range
  validate_ranges version subnet [] = admit
  validate_ranges version subnet (r ∷ rs) =
      validate_contains_ip_range n fuel version subnet r and_then validate_ranges version subnet rs

  unfoldable pub validate_subnet_spec : ℕ → SubnetObject → Admission
  unfolding validate_ranges validate_gateway validate_routes
  validate_subnet_spec version s =
      validate_ranges version s.subnet s.ips
      and_then validate_ranges version s.subnet s.exclude_ips
      and_then validate_gateway n version s.subnet s.gateway s.exclude_ips s.ips
      and_then validate_routes n version s.subnet s.routes

  -- The loop of `validateSubnetIPInUse` over the pools
  unfoldable pub check_pre_allocations : ℕ → List Ip → PreAllocations → Admission
  unfolding parse_ip_ranges ips_diff_set
  check_pre_allocations version total [] = admit
  check_pre_allocations version total ((k, a) ∷ m) =
      (needs (parse_ip_ranges n fuel version a.ips) corrupt_records
        λ ips. deny_if (ltb 0 (length (ips_diff_set ips total false))) used_ip_removed)
      and_then check_pre_allocations version total m

  unfoldable pub validate_subnet_ip_in_use : ℕ → SubnetObject → Admission
  unfolding assemble_total_ips check_pre_allocations
  validate_subnet_ip_in_use version s =
      needs (assemble_total_ips n fuel version s.ips s.exclude_ips) corrupt_total
        λ total. stored_pools s.controlled_ip_pools λ m. check_pre_allocations version total m

  unfoldable pub validate_create_subnet :
      Enabled → Option (List SubnetObject) → Option (List PoolObject) → SubnetObject → List Reason
  unfolding validate_ip_version validate_subnet_cidr validate_subnet_spec
  validate_create_subnet enabled subnets pools s =
      first_then (validate_ip_version enabled s.version) (
        with_version s.version
          λ v. to_list (validate_subnet_cidr subnets pools v s and_then validate_subnet_spec v s))

  unfoldable pub validate_update_subnet : Enabled → SubnetObject → SubnetObject → List Reason
  unfolding should_not_be_changed validate_ip_version validate_subnet_spec validate_subnet_ip_in_use
  validate_update_subnet enabled old new =
      first_then
        (should_not_be_changed new.version old.version new.subnet old.subnet
          and_then validate_ip_version enabled new.version)
        (with_version new.version
          λ v. to_list (validate_subnet_spec v new and_then validate_subnet_ip_in_use v new))
