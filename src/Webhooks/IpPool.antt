-- ===== src/Webhooks/IpPool.antt =====
-- pkg/ippoolmanager/ippool_validate.go: what the webhook lets through when a pool is created or
-- updated. `pools` is the answer of the API server to a list of all pools, none for an error.
pub mod Apart
pub mod InUse
pub mod InSubnet
pub mod Mutation
use spiderpool.Prelude.{
  ℕ, ◌+◌, Bool, true, false, not, List, [], ◌∷◌, ◌++◌, Option, none, some, Text, text_eq, any, all,
  filter, length, keys, ◌==◌, if◌then◌else◌,
}
use spiderpool.Net.Address.{Ip}
use spiderpool.Net.Textual.{NetText}
use spiderpool.Ip.Result as Ip
use spiderpool.Ip.Format.{is_cidr, is_format_cidr, is_cidr_overlap}
use spiderpool.Ip.LabelValue.{cidr_to_label_value}
use spiderpool.Ip.Range.{printed}
use spiderpool.Ip.Sets.{assemble_total_ips}
use spiderpool.Ip.Subnet as Cidr
use spiderpool.Pool.Affinity.{
  Labels, app_api_group, app_api_version, app_kind, app_namespace, app_name,
}
use spiderpool.Pool.Records as Pool
use spiderpool.Webhooks.Objects.{
  PoolObject, Affinity, Enabled, Reason, bad_subnet, bad_ranges, list_failed, already_exists,
  subnet_overlaps, ranges_overlap, extra_match_labels, extra_match_expressions, empty_affinity,
  corrupt_records, corrupt_total, used_ip_removed, panicked, out_of_fuel, Admission, admit, deny,
  ◌and_then◌, to_list, deny_if, label_ip_pool_cidr, is_auto_created_ip_pool, has_label,
  with_version, first_then, affinity_then,
}
use spiderpool.Webhooks.Checks.{
  validate_ip_version, should_not_be_changed, accepted, validate_gateway, validate_routes,
}

-- `constant.AutoPoolPodAffinities`
abbrev pub auto_pool_pod_affinities : List Text
auto_pool_pod_affinities =
    app_api_group ∷ app_api_version ∷ app_kind ∷ app_namespace ∷ app_name ∷ []

abbrev pub extra_keys : Labels → List Reason
unfolding text_eq
extra_keys [] = []
extra_keys ((k, v) ∷ ls) =
    if any (text_eq k) auto_pool_pod_affinities
    then extra_keys ls
    else extra_match_labels ∷ extra_keys ls

-- `validateIPPoolPodAffinity`; `check_selector` is `ValidateLabelSelector` of Kubernetes.
unfoldable pub validate_ip_pool_pod_affinity : (Affinity → List Reason) → PoolObject → List Reason
unfolding is_auto_created_ip_pool text_eq
validate_ip_pool_pod_affinity check_selector p = elim p.pod_affinity [
  | none ↦ []
  | some a ↦
      if is_auto_created_ip_pool p
      then extra_keys a.match_labels
        ++ (if a.match_expressions == 0 then [] else extra_match_expressions ∷ [])
      else check_selector a
        ++ (if length a.match_labels + a.match_expressions == 0 then empty_affinity ∷ [] else [])
]

abbrev pub overlap_check : Ip.Result Bool → Admission → Admission
overlap_check (Ip.ok true) rest = deny subnet_overlaps
overlap_check (Ip.ok false) rest = rest
overlap_check (Ip.err e) rest = deny bad_subnet
overlap_check Ip.diverge rest = deny out_of_fuel

-- The pools with the label of the subnet
abbrev pub of_subnet : Text → List PoolObject → List PoolObject
unfolding has_label
of_subnet cidr pools = filter (λ q. has_label label_ip_pool_cidr cidr q.labels) pools

module _ (n : NetText) (fuel : ℕ) where
  -- The loop of `validateIPPoolCIDR` over the pools that exist
  unfoldable pub check_other_subnets : ℕ → PoolObject → List PoolObject → Admission
  unfolding text_eq is_cidr_overlap
  check_other_subnets version p [] = admit
  check_other_subnets version p (q ∷ qs) =
      let rest = check_other_subnets version p qs in
      elim q.version [
        | none ↦ deny panicked
        | some w ↦
            if not (w == version)
            then rest
            else if text_eq q.name p.name
            then deny already_exists
            else if text_eq q.subnet p.subnet
            then rest
            else overlap_check (is_cidr_overlap n version p.subnet q.subnet) rest
      ]

  unfoldable pub validate_ip_pool_cidr : Option (List PoolObject) → ℕ → PoolObject → Admission
  unfolding is_cidr is_format_cidr check_other_subnets
  validate_ip_pool_cidr pools version p =
      deny_if (not (accepted (is_cidr n version p.subnet))) bad_subnet
      and_then deny_if (not (is_format_cidr n p.subnet)) bad_subnet
      and_then (elim pools [ none ↦ deny list_failed | some qs ↦ check_other_subnets version p qs ])

  -- The loop of `validateIPPoolAvailableIPs` over the pools of the same subnet
  unfoldable pub check_other_ranges : List Cidr.Range → PoolObject → List PoolObject → Admission
  unfolding text_eq Cidr.new_cidr Cidr.is_overlap_ip_ranges
  check_other_ranges ranges p [] = admit
  check_other_ranges ranges p (q ∷ qs) =
      let rest = check_other_ranges ranges p qs in
      if text_eq q.name p.name then rest else elim (Cidr.new_cidr n q.subnet q.ips q.exclude_ips) [
        | Cidr.err e ↦ deny bad_ranges
        | Cidr.ok d ↦
            deny_if (Cidr.is_overlap_ip_ranges ranges d.ranges).1 ranges_overlap and_then rest
      ]

  unfoldable pub validate_ip_pool_available_ips :
      Option (List PoolObject) → ℕ → PoolObject → Admission
  unfolding Cidr.new_cidr cidr_to_label_value has_label check_other_ranges
  validate_ip_pool_available_ips pools version p =
      elim (Cidr.new_cidr n p.subnet p.ips p.exclude_ips) [
        | Cidr.err e ↦ deny bad_ranges
        | Cidr.ok c ↦ elim (cidr_to_label_value n version p.subnet) [
          | Ip.err e ↦ deny bad_subnet
          | Ip.diverge ↦ deny out_of_fuel
          | Ip.ok cidr ↦ elim pools [
            | none ↦ deny list_failed
            | some qs ↦ check_other_ranges c.ranges p (of_subnet cidr qs)
          ]
        ]
      ]

  unfoldable pub validate_ip_pool_spec : Option (List PoolObject) → ℕ → PoolObject → Admission
  unfolding validate_ip_pool_available_ips validate_gateway validate_routes
  validate_ip_pool_spec pools version p =
      validate_ip_pool_available_ips pools version p
      and_then validate_gateway n version p.subnet p.gateway p.exclude_ips p.ips
      and_then validate_routes n version p.subnet p.routes

  unfoldable pub validate_create_ip_pool :
      Enabled → (Affinity → List Reason) → Option (List PoolObject) → PoolObject → List Reason
  unfolding validate_ip_version validate_ip_pool_cidr validate_ip_pool_spec
      validate_ip_pool_pod_affinity
  validate_create_ip_pool enabled check_selector pools p =
      first_then (validate_ip_version enabled p.version) (
        with_version p.version λ v. first_then (validate_ip_pool_cidr pools v p) (
          to_list (validate_ip_pool_spec pools v p)
          ++ validate_ip_pool_pod_affinity check_selector p))

  -- `totalIPsMap[ip]`
  abbrev pub is_printed : Text → List Ip → Bool
  is_printed k ips = any (λ ip. text_eq (printed n ip) k) ips

  abbrev pub all_printed : List Text → List Ip → Bool
  all_printed ks ips = all (λ k. is_printed k ips) ks

  unfoldable pub validate_ip_pool_ip_in_use : ℕ → PoolObject → Admission
  unfolding Pool.unmarshal_allocated_ips assemble_total_ips text_eq
  validate_ip_pool_ip_in_use version p = elim (Pool.unmarshal_allocated_ips p.allocated_ips) [
    | Pool.err e ↦ deny corrupt_records
    | Pool.ok records ↦ elim (assemble_total_ips n fuel version p.ips p.exclude_ips) [
      | Ip.err e ↦ deny corrupt_total
      | Ip.diverge ↦ deny out_of_fuel
      | Ip.ok total ↦ deny_if (not (all_printed (keys records) total)) used_ip_removed
    ]
  ]

  unfoldable pub validate_update_ip_pool :
      Enabled
      → (Affinity → List Reason)
      → Option (List PoolObject)
      → PoolObject
      → PoolObject
      → List Reason
  unfolding should_not_be_changed validate_ip_version validate_ip_pool_spec
      validate_ip_pool_pod_affinity validate_ip_pool_ip_in_use
  validate_update_ip_pool enabled check_selector pools old new =
      first_then
        (should_not_be_changed new.version old.version new.subnet old.subnet
          and_then validate_ip_version enabled new.version)
        (with_version new.version λ v. first_then (validate_ip_pool_spec pools v new) (
          affinity_then (validate_ip_pool_pod_affinity check_selector new)
            (validate_ip_pool_ip_in_use v new)))
