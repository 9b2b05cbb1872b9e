-- ===== src/Endpoint/Manager.antt =====
-- pkg/workloadendpointmanager/workloadendpoint_manager.go and utils.go. A function that ends in a
-- call of the API server returns that call; its answer is the function's own.
pub mod Patched
use spiderpool.Prelude.{
  ℕ, Bool, true, false, not, ◌&&◌, ◌||◌, List, [], ◌∷◌, ◌++◌, Option, none, some, Text, codes,
  text_eq, any, if◌then◌else◌,
}
use spiderpool.Pool.Affinity.{PodTopController}
use spiderpool.Ipam.Nics.{mem}
use spiderpool.Endpoint.Records.{AllocationResult, Detail, Endpoint}
use spiderpool.Endpoint.Details.{convert_results_to_ip_details}

pub data EndpointError : Type 0 where
  missing_param owner_reference_failed uid_mismatch : EndpointError

-- What a function asks of the API server
pub data Call : Type 0 where
  no_call : Call
  create update patch : Endpoint → Call
  failed : EndpointError → Call

-- The fields of the pod that are read
pub record EndpointPod : Type 0 where
  pub namespace : Text
  pub name : Text
  pub uid : Text
  pub node_name : Text

abbrev pub kind_stateful_set : Text
kind_stateful_set = codes "StatefulSet"

abbrev pub kind_kubevirt_vmi : Text
kind_kubevirt_vmi = codes "VirtualMachineInstance"

-- `appsv1.SchemeGroupVersion` and the kind
abbrev pub is_stateful_set : PodTopController → Bool
unfolding text_eq
is_stateful_set c = text_eq c.api_version (codes "apps/v1") && text_eq c.kind kind_stateful_set

-- `kubevirtv1.SchemeGroupVersion` and the kind
abbrev pub is_kubevirt_vmi : PodTopController → Bool
unfolding text_eq
is_kubevirt_vmi c =
    text_eq c.api_version (codes "kubevirt.io/v1") && text_eq c.kind kind_kubevirt_vmi

-- `RetrieveIPAllocation`: whether `Status.Current` is returned.
unfoldable pub retrieve_ip_allocation : Text → Text → Option Endpoint → Bool → Bool
unfolding text_eq
retrieve_ip_allocation uid nic none is_static = false
retrieve_ip_allocation uid nic (some e) is_static =
    if text_eq e.uid uid || is_static
    then any (λ (d : Detail). text_eq d.nic nic || text_eq d.nic []) e.ips
    else false

unfoldable pub remove_finalizer : Option Endpoint → Call
remove_finalizer none = failed missing_param
remove_finalizer (some e) =
    if e.has_finalizer then patch (record e { has_finalizer = false }) else no_call

abbrev pub nic_names : List Detail → List Text
nic_names [] = []
nic_names (d ∷ ds) = d.nic ∷ nic_names ds

-- The loop that appends the details of interfaces that the endpoint does not have.
unfoldable pub append_missing : List Detail → List Detail → List Detail
unfolding text_eq
append_missing ds [] = ds
append_missing ds (r ∷ rs) =
    append_missing (if mem r.nic (nic_names ds) then ds else ds ++ r ∷ []) rs

-- The switches `enableStatefulSet` and `enableKubevirtStaticIP`
pub record Switches : Type 0 where
  pub stateful_set : Bool
  pub kubevirt_static_ip : Bool

-- The endpoint that is created; `owner_set` is whether `SetOwnerReference` succeeds.
unfoldable pub new_endpoint : Switches → Bool → List Detail → EndpointPod → PodTopController → Call
unfolding text_eq
new_endpoint s owner_set details pod c =
    let e : Endpoint = record {
      namespace = pod.namespace;
      name = pod.name;
      deleting = false;
      has_finalizer = true;
      owned_by_pod = false;
      uid = pod.uid;
      node = pod.node_name;
      ips = details;
      owner_controller_type = c.kind;
      owner_controller_name = c.name;
    } in
    if s.stateful_set && is_stateful_set c
    then create e
    else if s.kubevirt_static_ip && is_kubevirt_vmi c
    then create (record e { name = c.name })
    else if owner_set
    then create (record e { owned_by_pod = true })
    else failed owner_reference_failed

unfoldable pub patch_ip_allocation_results :
    Switches
    → Bool
    → (Text → Option ℕ)
    → List AllocationResult
    → Option Endpoint
    → Option EndpointPod
    → PodTopController
    → Bool
    → Call
unfolding text_eq convert_results_to_ip_details append_missing new_endpoint
patch_ip_allocation_results s owner_set atoi results e none c multiple = failed missing_param
patch_ip_allocation_results s owner_set atoi results none (some pod) c multiple =
    new_endpoint s owner_set (convert_results_to_ip_details atoi results multiple) pod c
patch_ip_allocation_results s owner_set atoi results (some e) (some pod) c multiple =
    if not (text_eq e.uid pod.uid)
    then no_call
    else update (record e {
      ips = append_missing e.ips (convert_results_to_ip_details atoi results multiple);
    })

-- The loop of `ReallocateCurrentIPAllocation`: the first detail without a name gets the interface's,
-- unless one before it has it.
unfoldable pub name_first : Text → List Detail → List Detail
unfolding text_eq
name_first nic [] = []
name_first nic (d ∷ ds) =
    let rest = name_first nic ds in
    if text_eq d.nic []
    then record d { nic = nic } ∷ ds
    else if text_eq d.nic nic
    then d ∷ ds
    else d ∷ rest

-- `same` is whether `reflect.DeepEqual` finds no difference.
unfoldable pub reallocate_current_ip_allocation :
    (Endpoint → Endpoint → Bool) → Text → Text → Text → Option Endpoint → Bool → Call
unfolding name_first
reallocate_current_ip_allocation same uid node_name nic none multiple = failed missing_param
reallocate_current_ip_allocation same uid node_name nic (some e) multiple =
    let copy : Endpoint = record e {
      uid = uid;
      node = node_name;
      ips = if multiple then name_first nic e.ips else e.ips;
    } in
    if same copy e then no_call else update copy

-- Whether the loop of `UpdateAllocationNICName` returns early.
abbrev pub is_named : Text → List Detail → Bool
unfolding text_eq
is_named nic [] = false
is_named nic (d ∷ ds) =
    if text_eq d.nic [] then false else if text_eq d.nic nic then true else is_named nic ds

unfoldable pub update_allocation_nic_name : Endpoint → Text → Call
unfolding name_first
update_allocation_nic_name e nic =
    if is_named nic e.ips then no_call else update (record e { ips = name_first nic e.ips })

unfoldable pub patch_endpoint_allocation_ips : Endpoint → List Detail → Call
patch_endpoint_allocation_ips e ips = update (record e { ips = ips })

-- The call, and the details that are released once it succeeds.
unfoldable pub release_endpoint_ips : Endpoint → Text → Call × List Detail
unfolding text_eq
release_endpoint_ips e uid =
    if not (text_eq e.uid uid) then (failed uid_mismatch, []) else release_recorded e e.ips
  where
    release_recorded : Endpoint → List Detail → Call × List Detail
    release_recorded e [] = (no_call, [])
    release_recorded e (d ∷ ds) = (update (record e { ips = [] }), d ∷ ds)
