-- ===== src/Webhooks/IpPool/InUse.antt =====
-- pkg/ippoolmanager/ippool_validate.go: an update takes no address from a pool that its records hold.
use spiderpool.Prelude.{
  ℕ, ◌≡◌, refl, true, false, not, List, [], ◌∷◌, Option, some, Text, text_eq, text_eq_iff, All, In,
  keys, Bool-cases, Option-cases, inl, inr,
}
use spiderpool.Net.Address.{Ip}
use spiderpool.Net.Textual.{NetText}
use spiderpool.Ip.Result as Ip
use spiderpool.Ip.Range.{printed}
use spiderpool.Ip.Sets.{assemble_total_ips}
use spiderpool.Pool.Records.{Allocations}
use spiderpool.Pool.Records as Pool
use spiderpool.Webhooks.Objects.{
  PoolObject, Affinity, Enabled, Reason, admit, deny_if, subnet_changed, version_changed,
  used_ip_removed,
}
use spiderpool.Webhooks.Admitted.{
  and_then-admit, deny_if-admit, not-eq-false, first_then-none, affinity_then-none,
}
use spiderpool.Webhooks.Checks.{validate_ip_version, is_changed, should_not_be_changed}
use spiderpool.Webhooks.IpPool.{
  is_printed, all_printed, validate_ip_pool_spec, validate_ip_pool_pod_affinity,
  validate_ip_pool_ip_in_use, validate_update_ip_pool,
}

module _ (n : NetText) where
  -- The text is that of one of the addresses.
  abbrev pub IsText : List Ip → Text → Type 0
  IsText ips k = (ip : Ip) × In ip ips × (printed n ip ≡ k)

  is_printed-IsText : (k : Text) (ips : List Ip) → is_printed n 0 k ips ≡ true → IsText ips k
  is_printed-IsText k [] h = absurd (cc h)
  is_printed-IsText k (ip ∷ ips) h = elim (Bool-cases (text_eq (printed n ip) k)) [
    | inl e ↦ (ip, inl refl, (text_eq_iff (printed n ip) k).0 e)
    | inr e ↦ let (x, m, q) = is_printed-IsText k ips (rw e at h) in (x, inr m, q)
  ]

  all_printed-IsText :
      (ks : List Text) (ips : List Ip) → all_printed n 0 ks ips ≡ true → All (IsText ips) ks
  all_printed-IsText [] ips h = tt
  all_printed-IsText (k ∷ ks) ips h = elim (Bool-cases (is_printed n 0 k ips)) [
    | inl e ↦ (is_printed-IsText k ips e, all_printed-IsText ks ips (rw e at h))
    | inr e ↦ cc (rw e at h)
  ]

  in_use-kept :
      (fuel v : ℕ) (p : PoolObject)
      → validate_ip_pool_ip_in_use n fuel v p ≡ admit
      → (records : Allocations) × (Pool.unmarshal_allocated_ips p.allocated_ips ≡ Pool.ok records)
        × (total : List Ip) × (assemble_total_ips n fuel v p.ips p.exclude_ips ≡ Ip.ok total)
        × All (IsText total) (keys records)
  unfolding validate_ip_pool_ip_in_use
  in_use-kept fuel v p h = elim (Pool.Result-cases (Pool.unmarshal_allocated_ips p.allocated_ips)) [
    | inr (e, bad) ↦ cc (rw (validate_ip_pool_ip_in_use, bad) at h)
    | inl (records, r) ↦ elim (Ip.Result-cases (assemble_total_ips n fuel v p.ips p.exclude_ips)) [
      | inr (inl (e, bad)) ↦ cc (rw (validate_ip_pool_ip_in_use, r, bad) at h)
      | inr (inr bad) ↦ cc (rw (validate_ip_pool_ip_in_use, r, bad) at h)
      | inl (total, t) ↦
          let h1 = rw (validate_ip_pool_ip_in_use, r, t) at h in
          let gone = not (all_printed n 0 (keys records) total) in
          let there =
            not-eq-false (all_printed n 0 (keys records) total)
              (deny_if-admit gone used_ip_removed h1) in
          (records, r, total, t, all_printed-IsText (keys records) total there)
    ]
  ]

  -- What an update keeps: the subnet, the version, and the addresses of the records.
  abbrev pub KeepsUsed : ℕ → Enabled → PoolObject → PoolObject → Type 0
  KeepsUsed fuel enabled old new =
      (text_eq new.subnet old.subnet ≡ true)
      × (is_changed new.version old.version ≡ false)
      × (v : ℕ) × (new.version ≡ some v)
      × (validate_ip_version enabled (some v) ≡ admit)
      × (records : Allocations) × (Pool.unmarshal_allocated_ips new.allocated_ips ≡ Pool.ok records)
      × (total : List Ip) × (assemble_total_ips n fuel v new.ips new.exclude_ips ≡ Ip.ok total)
      × All (IsText total) (keys records)

  -- A pool whose update `validate_update_ip_pool` accepts keeps its subnet, and its version if it had one; its version is
  -- enabled; and each address of its records is the text of one that its ranges hold and that it
  -- does not exclude.
  pub validate_update_ip_pool-keeps :
      (fuel : ℕ) (enabled : Enabled) (check_selector : Affinity → List Reason)
      (pools : Option (List PoolObject)) (old new : PoolObject)
      → validate_update_ip_pool n fuel enabled check_selector pools old new ≡ []
      → KeepsUsed fuel enabled old new
  unfolding validate_update_ip_pool should_not_be_changed
  validate_update_ip_pool-keeps fuel enabled check_selector pools old new h =
      let (checks, rest) = first_then-none _ _ h in
      let (same, a) =
        and_then-admit (should_not_be_changed new.version old.version new.subnet old.subnet)
          (validate_ip_version enabled new.version) checks in
      let (version, subnet) =
        and_then-admit (deny_if (is_changed new.version old.version) version_changed)
          (deny_if (not (text_eq new.subnet old.subnet)) subnet_changed) same in
      elim (Option-cases new.version) [
        | inl unset ↦ cc (rw unset at rest)
        | inr (v, e) ↦
            let (spec, last) =
              first_then-none (validate_ip_pool_spec n fuel pools v new) _ (rw e at rest) in
            let (affinity, used) =
              affinity_then-none (validate_ip_pool_pod_affinity check_selector new) _ last in
            let (records, r, total, t, kept) = in_use-kept fuel v new used in
            (
              not-eq-false (text_eq new.subnet old.subnet) (deny_if-admit _ subnet_changed subnet),
              deny_if-admit _ version_changed version,
              v,
              e,
              rw e at a,
              records,
              r,
              total,
              t,
              kept,
            )
      ]
