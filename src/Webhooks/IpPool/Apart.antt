-- ===== src/Webhooks/IpPool/Apart.antt =====
-- pkg/ippoolmanager/ippool_validate.go: an admitted pool shares no address with the other pools of
-- its subnet.
use spiderpool.Prelude.{
  ℕ, ◌≡◌, ◌⊎◌, refl, Bool, true, false, not, List, [], ◌∷◌, some, Text, text_eq, All, Bool-cases,
  Option-cases, inl, inr, ◌==◌,
}
use spiderpool.Net.Textual.{NetText}
use spiderpool.Ip.Result as Ip
use spiderpool.Ip.Format.{is_cidr_overlap, is_format_cidr}
use spiderpool.Ip.LabelValue.{cidr_to_label_value}
use spiderpool.Ip.Subnet as Cidr
use spiderpool.Ip.Subnet.Cover.{IsProper, covers, is_overlap_ip_ranges_iff}
use spiderpool.Ip.Subnet.Proper.{new_cidr-IsProper, Result-cases}
use spiderpool.Webhooks.Objects.{
  PoolObject, Affinity, Enabled, Reason, Admission, admit, deny_if, ranges_overlap, bad_subnet,
}
use spiderpool.Webhooks.Admitted.{
  and_then-admit, deny_if-admit, not-eq-false, first_then-none, to_list-none,
}
use spiderpool.Webhooks.Checks.{validate_ip_version}
use spiderpool.Webhooks.IpPool.{
  check_other_subnets, overlap_check, validate_ip_pool_cidr, check_other_ranges, of_subnet,
  validate_ip_pool_available_ips, validate_ip_pool_spec, validate_create_ip_pool,
}

overlap_check-admit :
    (r : Ip.Result Bool) (rest : Admission)
    → overlap_check r rest ≡ admit
    → (r ≡ Ip.ok false) × (rest ≡ admit)
overlap_check-admit (Ip.ok true) rest h = cc
overlap_check-admit (Ip.ok false) rest h = (refl, h)
overlap_check-admit (Ip.err e) rest h = cc
overlap_check-admit Ip.diverge rest h = cc

module _ (n : NetText) where
  -- The pool is the same, or its addresses are others.
  abbrev pub SharesNone : Cidr.Cidr → PoolObject → PoolObject → Type 0
  SharesNone c p q =
      (text_eq q.name p.name ≡ true)
      ⊎ ((d : Cidr.Cidr) × (Cidr.new_cidr n q.subnet q.ips q.exclude_ips ≡ Cidr.ok d)
          × ((a : ℕ) → covers a c.ranges ≡ true → covers a d.ranges ≡ false))

  -- The pool has another version; or another name, and the subnet of the new one or one that does
  -- not overlap with it.
  abbrev pub SubnetApart : ℕ → PoolObject → PoolObject → Type 0
  SubnetApart v p q =
      (w : ℕ) × (q.version ≡ some w)
      × (((w == v) ≡ false)
          ⊎ ((text_eq q.name p.name ≡ false)
              × ((text_eq q.subnet p.subnet ≡ true)
                  ⊎ (is_cidr_overlap n v p.subnet q.subnet ≡ Ip.ok false))))

  check_other_ranges-SharesNone :
      (fuel : ℕ) (c : Cidr.Cidr) (p : PoolObject) (qs : List PoolObject)
      → All IsProper c.ranges
      → check_other_ranges n fuel c.ranges p qs ≡ admit
      → All (SharesNone c p) qs
  unfolding check_other_ranges
  check_other_ranges-SharesNone fuel c p [] proper h = tt
  check_other_ranges-SharesNone fuel c p (q ∷ qs) proper h =
      elim (Bool-cases (text_eq q.name p.name)) [
        | inl same ↦ (inl same, check_other_ranges-SharesNone fuel c p qs proper (rw same at h))
        | inr other ↦ elim (Result-cases (Cidr.new_cidr n q.subnet q.ips q.exclude_ips)) [
          | inr (e, bad) ↦ cc (rw (check_other_ranges, other, bad) at h)
          | inl (d, e) ↦
              let h1 = rw (check_other_ranges, other, e) at h in
              let meets = (Cidr.is_overlap_ip_ranges c.ranges d.ranges).1 in
              let (a, b) = and_then-admit (deny_if meets ranges_overlap) _ h1 in
              let proper' = new_cidr-IsProper n q.subnet q.ips q.exclude_ips e in
              (
                inr (
                  d,
                  e,
                  (is_overlap_ip_ranges_iff c.ranges d.ranges proper proper').0
                      (deny_if-admit meets ranges_overlap a),
                ),
                check_other_ranges-SharesNone fuel c p qs proper b,
              )
        ]
      ]

  check_other_subnets-Apart :
      (v : ℕ) (fuel : ℕ) (p : PoolObject) (qs : List PoolObject)
      → check_other_subnets n fuel v p qs ≡ admit
      → All (SubnetApart v p) qs
  unfolding check_other_subnets
  check_other_subnets-Apart v fuel p [] h = tt
  check_other_subnets-Apart v fuel p (q ∷ qs) h = elim (Option-cases q.version) [
    | inl bad ↦ cc (rw (check_other_subnets, bad) at h)
    | inr (w, e) ↦ elim (Bool-cases (w == v)) [
      | inr other ↦ (
        (w, e, inl other),
        check_other_subnets-Apart v fuel p qs (rw (check_other_subnets, e, other) at h),
      )
      | inl same ↦ elim (Bool-cases (text_eq q.name p.name)) [
        | inl taken ↦ cc (rw (check_other_subnets, e, same, taken) at h)
        | inr new ↦ elim (Bool-cases (text_eq q.subnet p.subnet)) [
          | inl equal ↦
              let h1 = rw (check_other_subnets, e, same, new, equal) at h in
              ((w, e, inr (new, inl equal)), check_other_subnets-Apart v fuel p qs h1)
          | inr unequal ↦
              let h1 = rw (check_other_subnets, e, same, new, unequal) at h in
              let (a, b) = overlap_check-admit (is_cidr_overlap n v p.subnet q.subnet) _ h1 in
              ((w, e, inr (new, inr a)), check_other_subnets-Apart v fuel p qs b)
        ]
      ]
    ]
  ]

  -- What an admitted pool is: its version is enabled, its subnet is written as the network prints,
  -- and the pools that are there are apart from it.
  abbrev pub IsApart : ℕ → Enabled → PoolObject → List PoolObject → Type 0
  IsApart fuel enabled p pools =
      (v : ℕ) × (p.version ≡ some v)
      × (validate_ip_version enabled (some v) ≡ admit)
      × (is_format_cidr n p.subnet ≡ true)
      × All (SubnetApart v p) pools
      × (c : Cidr.Cidr) × (Cidr.new_cidr n p.subnet p.ips p.exclude_ips ≡ Cidr.ok c)
      × (cidr : Text) × (cidr_to_label_value n v p.subnet ≡ Ip.ok cidr)
      × All (SharesNone c p) (of_subnet cidr pools)

  available-SharesNone :
      (fuel v : ℕ) (p : PoolObject) (qs : List PoolObject)
      → validate_ip_pool_available_ips n fuel (some qs) v p ≡ admit
      → (c : Cidr.Cidr) × (Cidr.new_cidr n p.subnet p.ips p.exclude_ips ≡ Cidr.ok c)
        × (cidr : Text) × (cidr_to_label_value n v p.subnet ≡ Ip.ok cidr)
        × All (SharesNone c p) (of_subnet cidr qs)
  unfolding validate_ip_pool_available_ips
  available-SharesNone fuel v p qs h =
      elim (Result-cases (Cidr.new_cidr n p.subnet p.ips p.exclude_ips)) [
        | inr (e, bad) ↦ cc (rw (validate_ip_pool_available_ips, bad) at h)
        | inl (c, e) ↦ elim (Ip.Result-cases (cidr_to_label_value n v p.subnet)) [
          | inr (inl (x, bad)) ↦ cc (rw (validate_ip_pool_available_ips, e, bad) at h)
          | inr (inr bad) ↦ cc (rw (validate_ip_pool_available_ips, e, bad) at h)
          | inl (cidr, l) ↦
              let h1 = rw (validate_ip_pool_available_ips, e, l) at h in
              (
                c,
                e,
                cidr,
                l,
                check_other_ranges-SharesNone fuel c p (of_subnet cidr qs)
                    (new_cidr-IsProper n p.subnet p.ips p.exclude_ips e) h1,
              )
        ]
      ]

  -- A pool whose creation is admitted while the API server lists the pools: its version is enabled,
  -- its subnet is written the way the network prints; every pool of the list has another version, or
  -- another name and the same subnet or one that does not overlap with it; and no pool of another
  -- name that the list has for this subnet shares an address with it.
  pub validate_create_ip_pool-IsApart :
      (fuel : ℕ) (enabled : Enabled) (check_selector : Affinity → List Reason)
      (pools : List PoolObject) (p : PoolObject)
      → validate_create_ip_pool n fuel enabled check_selector (some pools) p ≡ []
      → IsApart fuel enabled p pools
  unfolding validate_create_ip_pool validate_ip_pool_cidr validate_ip_pool_spec
  validate_create_ip_pool-IsApart fuel enabled check_selector pools p h =
      let (a, rest) = first_then-none (validate_ip_version enabled p.version) _ h in
      elim (Option-cases p.version) [
        | inl unset ↦ cc (rw unset at rest)
        | inr (v, e) ↦
            let (b, last) =
              first_then-none (validate_ip_pool_cidr n fuel (some pools) v p) _ (rw e at rest) in
            let (spec, affinity) =
              to_list-none (validate_ip_pool_spec n fuel (some pools) v p) _ last in
            let (first, routes) = and_then-admit _ _ spec in
            let (available, gateway) = and_then-admit _ _ first in
            let (texts, subnets) = and_then-admit _ _ b in
            let (cidr, format) = and_then-admit _ _ texts in
            let formatted = deny_if-admit (not (is_format_cidr n p.subnet)) bad_subnet format in
            let (c, made, label, labelled, shares) =
              available-SharesNone fuel v p pools available in
            (
              v,
              e,
              rw e at a,
              not-eq-false (is_format_cidr n p.subnet) formatted,
              check_other_subnets-Apart v fuel p pools subnets,
              c,
              made,
              label,
              labelled,
              shares,
            )
      ]
