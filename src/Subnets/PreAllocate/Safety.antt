-- ===== src/Subnets/PreAllocate/Safety.antt =====
-- pkg/subnetmanager/subnet_manager.go, `preAllocateIPsFromSubnet`: what a subnet gives to a pool is
-- apart from what the other pools have, and holds the addresses that the pool uses.
use spiderpool.Prelude.{
  ℕ, ◌+◌, ◌-◌, ◌<◌, ◌≡◌, Bool, true, List, [], Option, none, some, Text, arith, All, lookup, length,
  ltb, ◌==◌, Bool-cases, inl, inr, Option-cases,
}
use spiderpool.Net.Address.{Ip}
use spiderpool.Net.Textual.{NetText, NetTextLaws}
use spiderpool.Ip.Result as Ip
use spiderpool.Ip.Range.{parse_ip_ranges}
use spiderpool.Ip.Range.Band.{Family, version_of, Good}
use spiderpool.Ip.Sets.{ips_diff_set, assemble_total_ips}
use spiderpool.Subnets.Records.{
  PreAllocation, PreAllocations, Subnet, ok, ◌>>=◌, unmarshal_subnet_allocated_ip_pools,
}
use spiderpool.Subnets.FreeIps.{used_texts, gen_subnet_free_ips}
use spiderpool.Subnets.PreAllocate.{
  ScaledPool, allocated_texts, grow, scale, pre_allocate_ips_from_subnet,
}
use spiderpool.Subnets.PreAllocate.Branches.{
  Within, Given, parsed_texts, free_lem, grow-Given, shrink-Given, reuse-Given,
}

module _ (n : NetText) (laws : NetTextLaws n) (f : Family) (fuel : ℕ) where
  scale-Given :
      (update : Subnet → Bool) (app : Text) (s : Subnet) (m : PreAllocations) (pool : ScaledPool)
      (old : PreAllocation) (desired : ℕ) (total used reserved held allocated : List Ip)
      (texts : List Text) {ranges : List Text} {w : Option Subnet}
      → s.ip_version ≡ version_of f
      → gen_subnet_free_ips n fuel s ≡ ok (ips_diff_set total used true)
      → All (Good f) total
      → All (Good f) held
      → length total + length held + 1 < fuel
      → Within allocated held
      → lookup pool.name m ≡ some old
      → parse_ip_ranges n fuel s.ip_version old.ips ≡ Ip.ok held
      → allocated_texts pool.allocated_ips ≡ ok texts
      → parse_ip_ranges n fuel s.ip_version texts ≡ Ip.ok allocated
      → scale n fuel update app (Ip.ok reserved) s m pool old desired held ≡ ok (ranges, w)
      → Given
          (parsed_texts n laws f fuel)
          m
          pool.name
          (total, used, reserved)
          held
          allocated
          ranges
          w
  scale-Given update app s m pool old desired total used reserved held allocated texts e free gt gh
        small within l own ts al h =
      let facts : List Ip × List Ip × List Ip = (total, used, reserved) in
      elim (Bool-cases (desired == length held)) [
        | inl same ↦
            reuse-Given n laws f fuel update s m pool old desired facts held allocated texts l
              (rw e at own) ts al within (rw same at h)
        | inr other ↦ elim (Bool-cases (ltb desired (length held))) [
          | inl less ↦
              shrink-Given n laws f fuel update app s m pool desired facts held allocated texts e ts
                al gh (omega arith) within (rw less at (rw other at h))
          | inr more ↦
              grow-Given n laws f fuel update app s m pool (desired - length held) total used
                reserved held allocated e free gt gh small within (rw more at (rw other at h))
        ]
      ]

  abbrev texts_of : Option PreAllocation → List Text
  texts_of none = []
  texts_of (some p) = p.ips

  -- Suppose that the addresses of a pool's records are in its pre-allocation, and that no address of
  -- the subnet or of that pre-allocation has a first byte 0 or is the last of its family. If
  -- `preAllocateIPsFromSubnet` succeeds, its ranges stand for addresses that each are of the pool's
  -- former pre-allocation, or are of the subnet, in no pool's pre-allocation, and not reserved; they
  -- hold every address of the pool's records; and the pre-allocations after the call are those
  -- before with the ranges for this pool.
  pub pre_allocate-Given :
      (update : Subnet → Bool) (app : Text) (s : Subnet) (pool : ScaledPool) (desired : ℕ)
      (m : PreAllocations) (total used reserved held allocated : List Ip) (texts : List Text)
      {ranges : List Text} {w : Option Subnet}
      → s.ip_version ≡ version_of f
      → unmarshal_subnet_allocated_ip_pools s.controlled_ip_pools ≡ ok m
      → assemble_total_ips n fuel s.ip_version s.ips s.exclude_ips ≡ Ip.ok total
      → parse_ip_ranges n fuel s.ip_version (used_texts m) ≡ Ip.ok used
      → parse_ip_ranges n fuel s.ip_version (texts_of (lookup pool.name m)) ≡ Ip.ok held
      → allocated_texts pool.allocated_ips ≡ ok texts
      → parse_ip_ranges n fuel s.ip_version texts ≡ Ip.ok allocated
      → Within allocated held
      → All (Good f) total
      → All (Good f) held
      → length total + length held + 1 < fuel
      → pre_allocate_ips_from_subnet n fuel update app (Ip.ok reserved) s pool desired
        ≡ ok (ranges, w)
      → Given
          (parsed_texts n laws f fuel)
          m
          pool.name
          (total, used, reserved)
          held
          allocated
          ranges
          w
  unfolding pre_allocate_ips_from_subnet
  pre_allocate-Given update app s pool desired m total used reserved held allocated texts {ranges}
        {w} e um total_is us hs ts al within gt gh small h =
      let free = free_lem n laws f fuel s m total used um total_is us in
      let h1 = rw (um, ◌>>=◌) at h in
      elim (Option-cases (lookup pool.name m)) [
        | inl new ↦
            let start : held ≡ [] = cc (rw new at hs) in
            let h2 = rw new at h1 in
            let h3 : grow n fuel update app (Ip.ok reserved) s m pool desired held
                ≡ ok (ranges, w) =
              rw start h2 in
            grow-Given n laws f fuel update app s m pool desired total used reserved held allocated
              e free gt gh small within h3
        | inr (old, l) ↦
            let own = rw l at hs in
            let h2 = rw (own, ◌>>=◌) at (rw l at h1) in
            scale-Given update app s m pool old desired total used reserved held allocated texts e
              free gt gh small within l own ts al h2
      ]
