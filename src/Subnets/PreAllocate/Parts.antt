-- ===== src/Subnets/PreAllocate/Parts.antt =====
-- What the parts of a pre-allocation do to the sets of addresses and to the status of the subnet.
use spiderpool.Prelude.{
  ℕ, zero, suc, ◌+◌, ◌≤◌, ◌≡◌, refl, Bool, true, List, [], ◌∷◌, Option, none, some, Text, arith,
  All, length, take,
}
use spiderpool.Net.Address.{Ip}
use spiderpool.Net.Textual.{NetText}
use spiderpool.Ip.Range.Merge.{has, sort_addresses-All, length-sort_addresses}
use spiderpool.Ip.Sets.{diff_loop, get_ip_diff_set, ips_diff_set}
use spiderpool.Subnets.Records.{
  PreAllocations, ControlledPools, absent, corrupt, json, Subnet, ok,
  marshal_subnet_allocated_ip_pools,
}
use spiderpool.Subnets.PreAllocate.{write_status}

pub has-take : (r k : ℕ) (xs : List Ip) → has r (take k xs) ≡ true → has r xs ≡ true
has-take r zero xs h = cc
has-take r (suc k) [] h = cc
has-take r (suc k) (x ∷ xs) h = ground (arith, has-take r k xs)

pub length-take-le : (k : ℕ) (xs : List Ip) → length (take k xs) ≤ length xs
length-take-le zero xs = omega arith
length-take-le (suc k) [] = omega arith
length-take-le (suc k) (x ∷ xs) = omega (arith, length-take-le k xs)

module _ (P : Ip → Type 0) where
  pub take-All : (k : ℕ) (xs : List Ip) → All P xs → All P (take k xs)
  take-All zero xs h = tt
  take-All (suc k) [] h = tt
  take-All (suc k) (x ∷ xs) h = (h.0, take-All k xs h.1)

  diff_loop-All :
      (excluded : List Ip) (limit got : ℕ) (xs : List Ip)
      → All P xs
      → All P (diff_loop excluded limit got xs)
  unfolding diff_loop
  diff_loop-All excluded limit got [] h = tt
  diff_loop-All excluded limit got (x ∷ xs) h = ground (
    arith,
    diff_loop-All excluded limit got xs h.1,
    diff_loop-All excluded limit (got + 1) xs h.1,
  )

  pub ips_diff_set-All :
      (xs ys : List Ip) (sorted : Bool) → All P xs → All P (ips_diff_set xs ys sorted)
  unfolding ips_diff_set get_ip_diff_set
  ips_diff_set-All xs ys sorted h =
      let d = diff_loop-All ys 0 0 xs h in
      ground (arith, sort_addresses-All P (diff_loop ys 0 0 xs) d)

length-diff_loop-le :
    (excluded : List Ip) (limit got : ℕ) (xs : List Ip)
    → length (diff_loop excluded limit got xs) ≤ length xs
unfolding diff_loop
length-diff_loop-le excluded limit got [] = omega arith
length-diff_loop-le excluded limit got (x ∷ xs) = ground (
  arith,
  length-diff_loop-le excluded limit got xs,
  length-diff_loop-le excluded limit (got + 1) xs,
)

pub length-ips_diff_set-le :
    (xs ys : List Ip) (sorted : Bool) → length (ips_diff_set xs ys sorted) ≤ length xs
unfolding ips_diff_set get_ip_diff_set
length-ips_diff_set-le xs ys sorted =
    ground (arith, length-diff_loop-le ys 0 0 xs, length-sort_addresses (diff_loop ys 0 0 xs))

-- The pools of a status, none where it does not decode.
abbrev pub pools_of : ControlledPools → PreAllocations
pools_of absent = []
pools_of corrupt = []
pools_of (json m) = m

-- The pools after a call: those that it wrote, or those before.
abbrev pub pools_after : PreAllocations → Option Subnet → PreAllocations
pools_after m none = m
pools_after m (some s) = pools_of s.controlled_ip_pools

pools_of-marshal : (m : PreAllocations) → pools_of (marshal_subnet_allocated_ip_pools m) ≡ m
unfolding marshal_subnet_allocated_ip_pools
pools_of-marshal [] = refl
pools_of-marshal (p ∷ m) = refl

module _ (n : NetText) (fuel : ℕ) where
  -- A write that succeeds stores the pools that it is given, and returns the ranges.
  pub write_status_lem :
      (update : Subnet → Bool) (s : Subnet) (m0 m : PreAllocations) (rs : List Text)
      {ranges : List Text} {w : Option Subnet}
      → write_status n fuel update s m rs ≡ ok (ranges, w)
      → (ranges ≡ rs) × (pools_after m0 w ≡ m)
  unfolding write_status
  write_status_lem update s m0 m rs h = ground (arith, pools_of-marshal m)
