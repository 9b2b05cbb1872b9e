-- ===== src/Webhooks/IpPool/InSubnet/Contained.antt =====
-- pkg/ippoolmanager/ippool_subnet_validate.go: an admitted pool has no address that its subnet has not.
use spiderpool.Prelude.{
  ℕ, suc, ◌≡◌, ◌⊎◌, refl, true, false, List, [], ◌∷◌, Option, none, some, Text, length, ltb, ◌==◌,
  Bool-cases, Option-cases, inl, inr, arith,
}
use spiderpool.Net.Address.{Ip}
use spiderpool.Net.Textual.{NetText}
use spiderpool.Ip.Result as Ip
use spiderpool.Ip.Range.Merge.{has}
use spiderpool.Ip.Sets.{assemble_total_ips, ips_diff_set}
use spiderpool.Ip.Sets.Algebra.{empty_diff-subset}
use spiderpool.Webhooks.Objects.{
  PoolObject, SubnetObject, Owner, Affinity, Enabled, Reason, Admission, admit, corrupt_total,
}
use spiderpool.Webhooks.Admitted.{to_list-admit}
use spiderpool.Webhooks.IpPool.{validate_create_ip_pool}
use spiderpool.Webhooks.IpPool.InSubnet.{
  needs, dereference, in_subnet_too, validate_subnet_total_ips_contains_ip_pool_total_ips,
  validate_create_ip_pool_while_enable_spider_subnet,
}

pub needs-admit :
    (r : Ip.Result (List Ip)) (e : Reason) (k : List Ip → Admission)
    → needs r e k ≡ admit
    → (ips : List Ip) × (r ≡ Ip.ok ips) × (k ips ≡ admit)
needs-admit (Ip.ok ips) e k h = (ips, refl, h)
needs-admit (Ip.err x) e k h = cc
needs-admit Ip.diverge e k h = cc

dereference-admit :
    (o : Option ℕ) (k : ℕ → Admission)
    → dereference o k ≡ admit
    → (v : ℕ) × (o ≡ some v) × (k v ≡ admit)
dereference-admit none k h = cc
dereference-admit (some v) k h = (v, refl, h)

module _ (n : NetText) (fuel : ℕ) (get : Text → Option SubnetObject) where
  -- The addresses of the pool are read, and the subnet, if there are any, has them all.
  abbrev pub IsContained : ℕ → PoolObject → Owner → Type 0
  IsContained v p owner =
      (total : List Ip) × (assemble_total_ips n fuel v p.ips p.exclude_ips ≡ Ip.ok total)
      × ((length total ≡ 0)
          ⊎ ((s : SubnetObject) × (get owner.name ≡ some s)
              × (w : ℕ) × (s.version ≡ some w)
              × (every : List Ip) × (assemble_total_ips n fuel w s.ips s.exclude_ips ≡ Ip.ok every)
              × ((a : ℕ) → has (suc a) total ≡ true → has (suc a) every ≡ true)))

  in_subnet_too-none :
      (rs : List Reason) (p : PoolObject)
      → in_subnet_too n fuel true get p rs ≡ []
      → dereference p.version
          (λ v. validate_subnet_total_ips_contains_ip_pool_total_ips n fuel get v p)
        ≡ admit
  in_subnet_too-none [] p h = to_list-admit _ h
  in_subnet_too-none (r ∷ rs) p h = cc

  contained :
      (v : ℕ) (p : PoolObject) (owner : Owner)
      → p.controller ≡ some owner
      → validate_subnet_total_ips_contains_ip_pool_total_ips n fuel get v p ≡ admit
      → IsContained v p owner
  unfolding validate_subnet_total_ips_contains_ip_pool_total_ips
  contained v p owner c h =
      let (total, t, h1) =
        needs-admit (assemble_total_ips n fuel v p.ips p.exclude_ips) corrupt_total _
          (rw (validate_subnet_total_ips_contains_ip_pool_total_ips, c) at h) in
      elim (Bool-cases (length total == 0)) [
        | inl empty ↦ (total, t, inl (ground arith))
        | inr more ↦ elim (Option-cases (get owner.name)) [
          | inl missing ↦ cc (rw (more, missing) at h1)
          | inr (s, e) ↦
              let (w, ew, h2) = dereference-admit s.version _ (rw (more, e) at h1) in
              let (every, te, h3) =
                needs-admit (assemble_total_ips n fuel w s.ips s.exclude_ips) corrupt_total _ h2 in
              elim (Bool-cases (ltb 0 (length (ips_diff_set total every false)))) [
                | inl out ↦ cc (rw out at h3)
                | inr none_out ↦ (
                  total,
                  t,
                  inr (s, e, w, ew, every, te, λ a. empty_diff-subset a total every none_out),
                )
              ]
        ]
      ]

  -- Where subnets are in use, a pool of a controller whose creation is admitted has no address that
  -- the subnet of the controller's name has not: either it has no addresses, or there is such a
  -- subnet, and each address of the pool's ranges that it does not exclude is one that the subnet's
  -- ranges hold and that the subnet does not exclude.
  pub validate_create-IsContained :
      (enabled : Enabled) (check_selector : Affinity → List Reason)
      (pools : Option (List PoolObject)) (p : PoolObject) (owner : Owner)
      → p.controller ≡ some owner
      → validate_create_ip_pool_while_enable_spider_subnet n fuel true get enabled check_selector
          pools p
        ≡ []
      → (v : ℕ) × (p.version ≡ some v) × IsContained v p owner
  unfolding validate_create_ip_pool_while_enable_spider_subnet
  validate_create-IsContained enabled check_selector pools p owner c h =
      let h1 =
        in_subnet_too-none (validate_create_ip_pool n fuel enabled check_selector pools p) p h in
      let (v, e, h2) = dereference-admit p.version _ h1 in (v, e, contained v p owner c h2)
