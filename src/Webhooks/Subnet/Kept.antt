-- ===== src/Webhooks/Subnet/Kept.antt =====
-- pkg/subnetmanager/subnet_validate.go: an update of a subnet keeps what it has given to its pools.
use spiderpool.Prelude.{
  ℕ, suc, ◌≡◌, true, false, not, List, [], ◌∷◌, some, Text, text_eq, All, length, ltb, Option-cases,
  inl, inr,
}
use spiderpool.Net.Address.{Ip}
use spiderpool.Net.Textual.{NetText}
use spiderpool.Ip.Result as Ip
use spiderpool.Ip.Range.{parse_ip_ranges}
use spiderpool.Ip.Range.Merge.{has}
use spiderpool.Ip.Sets.{assemble_total_ips, ips_diff_set}
use spiderpool.Ip.Sets.Algebra.{empty_diff-subset}
use spiderpool.Subnets.Records.{
  PreAllocation, PreAllocations, ControlledPools, absent, corrupt, json,
}
use spiderpool.Subnets.PreAllocate.Parts.{pools_of}
use spiderpool.Webhooks.Objects.{
  SubnetObject, Enabled, admit, deny_if, corrupt_records, corrupt_total, subnet_changed,
  version_changed, used_ip_removed,
}
use spiderpool.Webhooks.Admitted.{
  and_then-admit, deny_if-admit, not-eq-false, first_then-none, to_list-admit,
}
use spiderpool.Webhooks.Checks.{validate_ip_version, is_changed, should_not_be_changed}
use spiderpool.Webhooks.IpPool.InSubnet.Contained.{needs-admit}
use spiderpool.Webhooks.Subnet.{
  check_pre_allocations, stored_pools, validate_subnet_spec, validate_subnet_ip_in_use,
  validate_update_subnet,
}

module _ (n : NetText) (fuel : ℕ) where
  -- The addresses of a pre-allocation are among those of the subnet.
  abbrev pub IsInside : ℕ → List Ip → Text × PreAllocation → Type 0
  IsInside v total (k, a) =
      (ips : List Ip) × (parse_ip_ranges n fuel v a.ips ≡ Ip.ok ips)
      × ((x : ℕ) → has (suc x) ips ≡ true → has (suc x) total ≡ true)

  check_pre_allocations-IsInside :
      (v : ℕ) (total : List Ip) (m : PreAllocations)
      → check_pre_allocations n fuel v total m ≡ admit
      → All (IsInside v total) m
  unfolding check_pre_allocations
  check_pre_allocations-IsInside v total [] h = tt
  check_pre_allocations-IsInside v total ((k, a) ∷ m) h =
      let (first, rest) = and_then-admit _ (check_pre_allocations n fuel v total m) h in
      let (ips, e, inside) = needs-admit (parse_ip_ranges n fuel v a.ips) corrupt_records _ first in
      (
        (
          ips,
          e,
          λ x. empty_diff-subset x ips total (
              deny_if-admit (ltb 0 (length (ips_diff_set ips total false))) used_ip_removed inside),
        ),
        check_pre_allocations-IsInside v total m rest,
      )

  stored_pools-admit :
      (c : ControlledPools) (v : ℕ) (total : List Ip)
      → stored_pools c (λ m. check_pre_allocations n fuel v total m) ≡ admit
      → All (IsInside v total) (pools_of c)
  stored_pools-admit absent v total h = tt
  stored_pools-admit corrupt v total h = tt
  stored_pools-admit (json m) v total h = check_pre_allocations-IsInside v total m h

  in_use-kept :
      (v : ℕ) (s : SubnetObject)
      → validate_subnet_ip_in_use n fuel v s ≡ admit
      → (total : List Ip) × (assemble_total_ips n fuel v s.ips s.exclude_ips ≡ Ip.ok total)
        × All (IsInside v total) (pools_of s.controlled_ip_pools)
  unfolding validate_subnet_ip_in_use
  in_use-kept v s h =
      let (total, e, kept) =
        needs-admit (assemble_total_ips n fuel v s.ips s.exclude_ips) corrupt_total _ h in
      (total, e, stored_pools-admit s.controlled_ip_pools v total kept)

  -- What an update keeps: the text of the subnet, the version, and what the pools have been given.
  abbrev pub KeepsGiven : Enabled → SubnetObject → SubnetObject → Type 0
  KeepsGiven enabled old new =
      (text_eq new.subnet old.subnet ≡ true)
      × (is_changed new.version old.version ≡ false)
      × (v : ℕ) × (new.version ≡ some v)
      × (validate_ip_version enabled (some v) ≡ admit)
      × (total : List Ip) × (assemble_total_ips n fuel v new.ips new.exclude_ips ≡ Ip.ok total)
      × All (IsInside v total) (pools_of new.controlled_ip_pools)

  -- A subnet whose update `validate_update_subnet` accepts keeps its text, and its version if it had one; its version is
  -- enabled; and every address that it has given to a pool is one that its ranges hold and that it
  -- does not exclude.
  pub validate_update_subnet-keeps :
      (enabled : Enabled) (old new : SubnetObject)
      → validate_update_subnet n fuel enabled old new ≡ []
      → KeepsGiven enabled old new
  unfolding validate_update_subnet should_not_be_changed
  validate_update_subnet-keeps enabled old new h =
      let (checks, rest) = first_then-none _ _ h in
      let (same, a) =
        and_then-admit (should_not_be_changed new.version old.version new.subnet old.subnet)
          (validate_ip_version enabled new.version) checks in
      let (version, subnet) =
        and_then-admit (deny_if (is_changed new.version old.version) version_changed)
          (deny_if (not (text_eq new.subnet old.subnet)) subnet_changed) same in
      elim (Option-cases new.version) [
        | inl unset ↦ cc (rw unset at rest)
        | inr (v, e) ↦
            let (spec, used) =
              and_then-admit (validate_subnet_spec n fuel v new)
                (validate_subnet_ip_in_use n fuel v new) (to_list-admit _ (rw e at rest)) in
            let (total, t, kept) = in_use-kept v new used in
            (
              not-eq-false (text_eq new.subnet old.subnet) (deny_if-admit _ subnet_changed subnet),
              deny_if-admit _ version_changed version,
              v,
              e,
              rw e at a,
              total,
              t,
              kept,
            )
      ]
