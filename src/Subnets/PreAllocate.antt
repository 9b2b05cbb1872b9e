-- ===== src/Subnets/PreAllocate.antt =====
-- pkg/subnetmanager/subnet_manager.go, `preAllocateIPsFromSubnet`: the addresses that a subnet gives
-- to an auto-created pool.
pub mod Parts
pub mod Branches
pub mod Safety
use spiderpool.Prelude.{
  ℕ, ◌+◌, ◌-◌, Bool, true, false, ◌||◌, not, List, [], ◌∷◌, ◌++◌, Option, none, some, Text, lookup,
  insert, keys, length, take, ltb, leb, ◌==◌, if◌then◌else◌,
}
use spiderpool.Net.Address.{Ip}
use spiderpool.Net.Textual.{NetText}
use spiderpool.Ip.Result as Ip
use spiderpool.Ip.Range.{parse_ip_ranges, convert_ips_to_ip_ranges}
use spiderpool.Ip.Sets.{ips_diff_set, is_diff_ip_set}
use spiderpool.Pool.Records.{Stored}
use spiderpool.Pool.Records as Pool
use spiderpool.Subnets.Records.{
  PreAllocation, PreAllocations, Subnet, unmarshal_failed, insufficient, free_ips_not_enough,
  update_failed, panicked, Result, ok, err, ◌>>=◌, from_ip, unmarshal_subnet_allocated_ip_pools,
  marshal_subnet_allocated_ip_pools,
}
use spiderpool.Subnets.FreeIps.{gen_subnet_free_ips, subnet_status_count}

-- The pool that is scaled: its name, its ranges, and its records.
pub record ScaledPool : Type 0 where
  pub name : Text
  pub ips : List Text
  pub allocated_ips : Stored

-- `xs[:k]`, where `k` is a difference of lengths; a slice beyond the elements is taken for a panic.
abbrev pub slice : ℕ → ℕ → List Ip → Result (List Ip)
slice long short xs =
    if ltb long short || ltb (length xs) (long - short)
    then err panicked
    else ok (take (long - short) xs)

abbrev pub without_reserved : List Ip → List Ip → List Ip
without_reserved [] free = free
without_reserved (r ∷ rs) free = ips_diff_set free (r ∷ rs) true

-- The keys of the records, none for records that do not decode.
abbrev pub allocated_texts : Stored → Result (List Text)
unfolding Pool.unmarshal_allocated_ips
allocated_texts st = elim (Pool.unmarshal_allocated_ips st) [
  | Pool.ok m ↦ ok (keys m)
  | Pool.err e ↦ err unmarshal_failed
]

module _ (n : NetText) (fuel : ℕ) where
  -- The write of the status: `update` says whether the API server accepts it. The result has the
  -- ranges of the pool and the subnet that was written.
  unfoldable pub write_status :
      (Subnet → Bool) → Subnet → PreAllocations → List Text → Result (List Text × Option Subnet)
  unfolding marshal_subnet_allocated_ip_pools subnet_status_count
  write_status update s m ranges =
      let t = record s { controlled_ip_pools = marshal_subnet_allocated_ip_pools m } in
      do
        (total, allocated) ← subnet_status_count n fuel t
        let u = record t { total_ip_count = some total; allocated_ip_count = some allocated }
        if update u then ok (ranges, some u) else err update_failed

  -- The scaling that was interrupted after the subnet's status and before the pool: the addresses
  -- of the pool replace those of its pre-allocation.
  unfoldable pub correct_status :
      (Subnet → Bool)
      → Subnet
      → PreAllocations
      → ScaledPool
      → PreAllocation
      → ℕ
      → List Ip
      → Result (List Text × Option Subnet)
  unfolding parse_ip_ranges convert_ips_to_ip_ranges ips_diff_set insert write_status
  correct_status update s m pool old desired allocated = do
    total ← from_ip (parse_ip_ranges n fuel s.ip_version pool.ips)
    -- len(total) - len(allocated) >= len(total) - desired
    if leb (length allocated) desired
        then (do
          discarded ← slice (length total) desired (ips_diff_set total allocated true)
          ranges ←
              from_ip (convert_ips_to_ip_ranges n s.ip_version (ips_diff_set total discarded false))
          write_status update s (insert pool.name (record old { ips = ranges }) m) ranges)
        else err free_ips_not_enough

  -- The number is the one of the pre-allocation.
  unfoldable pub reuse :
      (Subnet → Bool)
      → Subnet
      → PreAllocations
      → ScaledPool
      → PreAllocation
      → ℕ
      → List Ip
      → Result (List Text × Option Subnet)
  unfolding Pool.unmarshal_allocated_ips parse_ip_ranges is_diff_ip_set correct_status
  reuse update s m pool old desired held = do
    texts ← allocated_texts pool.allocated_ips
    allocated ← from_ip (parse_ip_ranges n fuel s.ip_version texts)
    if is_diff_ip_set allocated held
        then correct_status update s m pool old desired allocated
        else ok (old.ips, none)

  -- The number is smaller: free addresses are given back.
  unfoldable pub shrink :
      (Subnet → Bool)
      → Text
      → Subnet
      → PreAllocations
      → ScaledPool
      → ℕ
      → List Ip
      → Result (List Text × Option Subnet)
  unfolding Pool.unmarshal_allocated_ips parse_ip_ranges convert_ips_to_ip_ranges ips_diff_set
      insert write_status
  shrink update app s m pool desired held = do
    texts ← allocated_texts pool.allocated_ips
    -- len(held) - len(texts) >= len(held) - desired
    if leb (length texts) desired
        then (do
          allocated ← from_ip (parse_ip_ranges n fuel s.ip_version texts)
          discarded ← slice (length held) desired (ips_diff_set held allocated true)
          ranges ←
              from_ip (convert_ips_to_ip_ranges n s.ip_version (ips_diff_set held discarded false))
          write_status update s
              (insert pool.name (record { ips = ranges; application = some app }) m) ranges)
        else err free_ips_not_enough

  -- `count` more addresses for a pool that has those in `held`; `reserved` is the answer of
  -- `AssembleReservedIPs`.
  unfoldable pub grow :
      (Subnet → Bool)
      → Text
      → Ip.Result (List Ip)
      → Subnet
      → PreAllocations
      → ScaledPool
      → ℕ
      → List Ip
      → Result (List Text × Option Subnet)
  unfolding gen_subnet_free_ips convert_ips_to_ip_ranges ips_diff_set insert write_status
  grow update app reserved s m pool count held = do
    free ← gen_subnet_free_ips n fuel s
    rs ← from_ip reserved
    let left = without_reserved rs free
    if ltb (length left) count then err insufficient else (do
      ranges ← from_ip (convert_ips_to_ip_ranges n s.ip_version (take count left ++ held))
      write_status update s (insert pool.name (record { ips = ranges; application = some app }) m)
          ranges)

  abbrev pub scale :
      (Subnet → Bool)
      → Text
      → Ip.Result (List Ip)
      → Subnet
      → PreAllocations
      → ScaledPool
      → PreAllocation
      → ℕ
      → List Ip
      → Result (List Text × Option Subnet)
  scale update app reserved s m pool old desired held =
      if desired == length held
      then reuse update s m pool old desired held
      else if ltb desired (length held)
      then shrink update app s m pool desired held
      else grow update app reserved s m pool (desired - length held) held

  -- `preAllocateIPsFromSubnet`; `app` is the text of the application, and the pool's version is that
  -- of the subnet.
  unfoldable pub pre_allocate_ips_from_subnet :
      (Subnet → Bool)
      → Text
      → Ip.Result (List Ip)
      → Subnet
      → ScaledPool
      → ℕ
      → Result (List Text × Option Subnet)
  unfolding unmarshal_subnet_allocated_ip_pools lookup parse_ip_ranges reuse shrink grow
  pre_allocate_ips_from_subnet update app reserved s pool desired = do
    m ← unmarshal_subnet_allocated_ip_pools s.controlled_ip_pools
    elim (lookup pool.name m) [
      | none ↦ grow update app reserved s m pool desired []
      | some old ↦ do
        held ← from_ip (parse_ip_ranges n fuel s.ip_version old.ips)
        scale update app reserved s m pool old desired held
    ]
