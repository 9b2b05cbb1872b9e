-- ===== src/Subnets/FreeIps.antt =====
-- pkg/applicationcontroller/applicationinformers/utils.go, `GenSubnetFreeIPs`, and
-- pkg/subnetmanager/subnet_manager.go, `subnetStatusCount`.
use spiderpool.Prelude.{ℕ, ◌+◌, true, List, [], ◌∷◌, ◌++◌, Text, length}
use spiderpool.Net.Address.{Ip}
use spiderpool.Net.Textual.{NetText}
use spiderpool.Ip.Result as Ip
use spiderpool.Ip.Range.{parse_ip_ranges}
use spiderpool.Ip.Sets.{ips_diff_set, assemble_total_ips}
use spiderpool.Ip.Subnet as Cidr
use spiderpool.Subnets.Records.{
  PreAllocations, ControlledPools, absent, corrupt, json, Subnet, panicked, out_of_fuel, Result, ok,
  err, ◌>>=◌, from_ip, unmarshal_subnet_allocated_ip_pools,
}

-- The ranges of all pools that the subnet controls
unfoldable pub used_texts : PreAllocations → List Text
used_texts [] = []
used_texts ((k, p) ∷ m) = p.ips ++ used_texts m

module _ (n : NetText) (fuel : ℕ) where
  unfoldable pub gen_subnet_free_ips : Subnet → Result (List Ip)
  unfolding unmarshal_subnet_allocated_ip_pools used_texts parse_ip_ranges assemble_total_ips
      ips_diff_set
  gen_subnet_free_ips s = do
    m ← unmarshal_subnet_allocated_ip_pools s.controlled_ip_pools
    used ← from_ip (parse_ip_ranges n fuel s.ip_version (used_texts m))
    total ← from_ip (assemble_total_ips n fuel s.ip_version s.ips s.exclude_ips)
    ok (ips_diff_set total used true)

  -- An error leaves no addresses.
  abbrev count_of : Ip.Result (List Ip) → Result ℕ
  count_of (Ip.ok ips) = ok (length ips)
  count_of (Ip.err e) = ok 0
  count_of Ip.diverge = err out_of_fuel

  unfoldable pub allocated_count : ℕ → PreAllocations → Result ℕ
  unfolding parse_ip_ranges
  allocated_count version [] = ok 0
  allocated_count version ((k, p) ∷ m) = do
    here ← count_of (parse_ip_ranges n fuel version p.ips)
    rest ← allocated_count version m
    ok (here + rest)

  -- The subnet that `NewCIDR` refuses is nil: its total is not read before the pools are.
  abbrev total_of : Cidr.Result Cidr.Cidr → Result ℕ
  unfolding Cidr.total_ip_int
  total_of (Cidr.ok c) = ok (Cidr.total_ip_int c.ranges)
  total_of (Cidr.err e) = err panicked

  abbrev counts : Subnet → ControlledPools → Result (ℕ × ℕ)
  unfolding Cidr.new_cidr allocated_count Cidr.total_ip_int
  counts s absent = ok (0, 0)
  counts s corrupt = ok (0, 0)
  counts s (json m) = do
    allocated ← allocated_count s.ip_version m
    total ← total_of (Cidr.new_cidr n s.subnet s.ips s.exclude_ips)
    ok (total, allocated)

  unfoldable pub subnet_status_count : Subnet → Result (ℕ × ℕ)
  unfolding Cidr.new_cidr allocated_count Cidr.total_ip_int
  subnet_status_count s = counts s s.controlled_ip_pools
