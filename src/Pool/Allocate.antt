-- ===== src/Pool/Allocate.antt =====
-- pkg/ippoolmanager/ippool_manager.go, `AllocateIP` and `genRandomIP`; utils.go,
-- `findAllocatedIPFromRecords`.
pub mod Used
pub mod Taken
pub mod Safety
use spiderpool.Prelude.{
  ℕ, suc, ◌+◌, Bool, true, false, ◌&&◌, List, [], ◌∷◌, ◌++◌, Option, none, some, Text, text_eq, ltb,
  length, keys, insert, if◌then◌else◌,
}
use spiderpool.Net.Address.{Ip, nil}
use spiderpool.Net.Textual.{NetText}
use spiderpool.Ip.Result as Ips
use spiderpool.Ip.Format.{parsed}
use spiderpool.Ip.Range.{parse_ip_range, parse_ip_ranges, printed}
use spiderpool.Ip.Available.{find_available_ips}
use spiderpool.Pool.Records.{
  Allocation, Allocations, IpPool, PoolError, ip_error, ip_used_out, panicked, out_of_fuel, Result,
  ok, err, ◌>>=◌, unmarshal_allocated_ips, marshal_allocated_ips,
}
use spiderpool.Pool.Api.{Attempt, fail, done, write, Cluster, retry_on_conflict, default_steps}

-- The pod that an address is for, with the fields that are read, and its top controller.
pub record Pod : Type 0 where
  pub namespace : Text
  pub name : Text
  pub uid : Text
  pub controller_name : Text
  pub is_kubevirt_vmi : Bool

-- The settings that are read, and `MaxAllocatedIPs`.
pub record Config : Type 0 where
  pub enable_kubevirt_static_ip : Bool
  pub max_allocated_ips : ℕ

-- An error of pkg/ip, as an error of the pool manager.
abbrev pub lifted {ℓ} : {A : Type ℓ} → Ips.Result A → Result A
lifted (Ips.ok a) = ok a
lifted (Ips.err e) = err (ip_error e)
lifted Ips.diverge = err out_of_fuel

-- `cache.MetaNamespaceKeyFunc`
abbrev pub namespace_key : Text → Text → Text
namespace_key [] name = name
namespace_key (c ∷ ns) name = (c ∷ ns) ++ b'/' ∷ name

-- A virtual machine keeps its addresses under its own name.
unfoldable pub pod_key : Config → Pod → Text
pod_key config pod =
    if config.enable_kubevirt_static_ip && pod.is_kubevirt_vmi
    then namespace_key pod.namespace pod.controller_name
    else namespace_key pod.namespace pod.name

-- The address that a pod has in the records.
unfoldable pub address_of_uid : Text → Allocations → Option Text
address_of_uid uid [] = none
address_of_uid uid ((ip, r) ∷ m) = if text_eq r.pod_uid uid then some ip else address_of_uid uid m

unfoldable pub find_allocated_ip_from_records : Allocations → Text → Text → Option Text
find_allocated_ip_from_records [] key uid = none
find_allocated_ip_from_records ((ip, r) ∷ m) key uid =
    if text_eq r.namespaced_name key && text_eq r.pod_uid uid
    then some ip
    else find_allocated_ip_from_records m key uid

module _ (n : NetText) (fuel : ℕ) (config : Config) (reserved_ips : ℕ → Result (List Ip)) where
  -- `availableIPs[0]`, with the fallback to a record of the pod.
  unfoldable pub chosen : IpPool → Allocations → Pod → Option (List Ip) → Result Ip
  unfolding parse_ip_range find_allocated_ip_from_records pod_key
  chosen p m pod none = err out_of_fuel
  chosen p m pod (some (ip ∷ ips)) = ok ip
  chosen p m pod (some []) = elim (find_allocated_ip_from_records m (pod_key config pod) pod.uid) [
    | none ↦ err ip_used_out
    | some s ↦ lifted (parse_ip_range n fuel p.ip_version s) >>= λ ips.
        elim ips as (λ _. Result Ip) [ [] ↦ err panicked | ip ∷ _ ↦ ok ip ]
  ]

  -- The pool with the address recorded for the pod, if the records stay below the limit.
  unfoldable pub recorded : IpPool → Allocations → Pod → ℕ → Ip → Result (IpPool × Ip)
  unfolding pod_key marshal_allocated_ips
  recorded p m pod used_count ip =
      let entry : Allocation = record { namespaced_name = pod_key config pod; pod_uid = pod.uid } in
      let q : IpPool = record p {
        allocated_ips = marshal_allocated_ips (insert (printed n ip) entry m);
        allocated_ip_count = some (used_count + 1);
      } in
      if ltb config.max_allocated_ips (used_count + 1) then err ip_used_out else ok (q, ip)

  -- `genRandomIP` for a pod that has no address in the pool yet.
  unfoldable pub fresh_ip : IpPool → Allocations → Pod → List Ip → Result (IpPool × Ip)
  unfolding parse_ip_ranges find_available_ips chosen recorded
  fresh_ip p m pod reserved = lifted (parse_ip_ranges n fuel p.ip_version (keys m)) >>= λ used.
      lifted (parse_ip_ranges n fuel p.ip_version p.exclude_ips) >>= λ unavailable.
      chosen p m pod (find_available_ips n fuel p.ips (unavailable ++ (reserved ++ used)) 1)
      >>= λ ip. recorded p m pod (length used) ip

  -- `genRandomIP`, with the pool that it leaves.
  unfoldable pub gen_random_ip : IpPool → Pod → Result (IpPool × Ip)
  unfolding unmarshal_allocated_ips address_of_uid fresh_ip
  gen_random_ip p pod = reserved_ips p.ip_version >>= λ reserved.
      unmarshal_allocated_ips p.allocated_ips >>= λ m. elim (address_of_uid pod.uid m) [
        | some ip ↦ ok (p, parsed n ip)
        | none ↦ fresh_ip p m pod reserved
      ]

  -- The function that `AllocateIP` retries: the status is written in either case.
  unfoldable pub allocate_once : Pod → IpPool → Attempt Ip
  unfolding gen_random_ip
  allocate_once pod p = elim (gen_random_ip p pod) [ ok (q, ip) ↦ write q ip | err e ↦ fail e ]

  unfoldable pub allocate_ip : Cluster → IpPool → Pod → IpPool × Result Ip
  unfolding retry_on_conflict allocate_once
  allocate_ip c p pod = retry_on_conflict c (allocate_once pod) default_steps p
