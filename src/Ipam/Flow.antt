-- ===== src/Ipam/Flow.antt =====
-- pkg/ipam/allocate.go: `Allocate` up to the standard mode, with the retrieval of an allocation that
-- the pod's endpoint has. A call of another component is given by its answer.
pub mod Addresses
pub mod Retrieved
use spiderpool.Prelude.{
  Bool, true, false, not, ◌&&◌, ◌||◌, [], Option, none, some, Text, text_eq, if◌then◌else◌,
}
use spiderpool.Net.Textual.{NetText}
use spiderpool.Pool.Affinity.{PodTopController}
use spiderpool.Endpoint.Records.{Endpoint}
use spiderpool.Endpoint.Details.{Grouping, group_ip_allocation_details}
use spiderpool.Endpoint.Configs.{Answer, convert_ip_details}
use spiderpool.Endpoint.Manager.{
  Switches, Call, no_call, create, update, patch, failed, is_kubevirt_vmi, is_stateful_set,
  retrieve_ip_allocation, reallocate_current_ip_allocation, update_allocation_nic_name,
}
use spiderpool.Ipam.Release.{ReleasePod, is_pod_alive, Found, found, missing, unanswered}

-- What the calls answer. `pod`, `controller` and `outdated` are none for an error; `outdated` is that
-- of `releaseStsOutdatedIPIfNeed`. `updated` is whether the tickets are acquired and every pool's
-- `UpdateAllocatedIPs` succeeds, `written` whether an endpoint is written, `detection` whether the
-- check of conflict detection succeeds, and `same` is `reflect.DeepEqual`.
pub record AllocateAnswers : Type 0 where
  pub pod : Option ReleasePod
  pub node_name : Text
  pub controller : Option PodTopController
  pub endpoint : Found Endpoint
  pub outdated : Option Bool
  pub deleted : Bool
  pub finalizer_removed : Bool
  pub updated : Grouping → Bool
  pub written : Endpoint → Bool
  pub detection : Bool
  pub same : Endpoint → Endpoint → Bool

-- How a request goes on: an error, a panic, the answer that was retrieved, nothing retrieved, or the
-- standard mode with an endpoint.
pub data Next : Type 0 where
  refuse crash nothing : Next
  respond : Answer → Next
  standard : Option Endpoint → Next

-- The updates of the pools' records that are asked for, and how the request goes on.
pub record Flow : Type 0 where
  pub updates : Grouping
  pub next : Next

abbrev pub plain : Next → Flow
plain x = record { updates = []; next = x }

-- The endpoint after a call, none where the call fails.
abbrev pub after_call : (Endpoint → Bool) → Endpoint → Call → Option Endpoint
after_call written e no_call = some e
after_call written e (create x) = if written x then some x else none
after_call written e (update x) = if written x then some x else none
after_call written e (patch x) = if written x then some x else none
after_call written e (failed r) = none

-- Whether the allocations of the workload are static, by its top controller
abbrev pub keeps_addresses : Switches → PodTopController → Bool
keeps_addresses s c = s.stateful_set && is_stateful_set c

abbrev pub keeps_vm_addresses : Switches → PodTopController → Bool
keeps_vm_addresses s c = s.kubevirt_static_ip && is_kubevirt_vmi c

-- An endpoint of another pod is not patched later.
abbrev pub own_endpoint : Text → Option Endpoint → Option Endpoint
own_endpoint uid none = none
own_endpoint uid (some e) = if text_eq e.uid uid then some e else none

abbrev pub or_standard : Option Endpoint → Flow → Flow
or_standard e f = elim f.next [ nothing ↦ record f { next = standard e } | _ ↦ f ]

module _ (n : NetText) where
  abbrev pub answer_of : Option Endpoint → Next
  answer_of none = refuse
  answer_of (some e) = elim (convert_ip_details n e.ips) [ none ↦ crash | some a ↦ respond a ]

  -- The part of `retrieveStaticIPAllocation` after the retrieval; none is a nil pool.
  abbrev pub renew : AllocateAnswers → Text → Text → Bool → Endpoint → Option Grouping → Flow
  renew a uid nic multiple e none = plain crash
  renew a uid nic multiple e (some m) = record {
    updates = m;
    next =
        if not (a.updated m)
        then refuse
        else elim (after_call a.written e
            (reallocate_current_ip_allocation a.same uid a.node_name nic (some e) multiple)) [
              | none ↦ refuse
              | some e' ↦ if a.detection then answer_of (some e') else refuse
            ];
  }

  unfoldable pub retrieve_static_ip_allocation :
      AllocateAnswers → Text → Text → Bool → Option Endpoint → Flow
  unfolding retrieve_ip_allocation group_ip_allocation_details reallocate_current_ip_allocation
      convert_ip_details
  retrieve_static_ip_allocation a uid nic multiple none = plain nothing
  retrieve_static_ip_allocation a uid nic multiple (some e) =
      if retrieve_ip_allocation uid nic (some e) true
      then renew a uid nic multiple e (group_ip_allocation_details uid e.ips)
      else plain nothing

  -- An endpoint of another pod is deleted.
  unfoldable pub retrieve_existing_ip_allocation :
      AllocateAnswers → Text → Text → Bool → Option Endpoint → Next
  unfolding text_eq retrieve_ip_allocation update_allocation_nic_name convert_ip_details
  retrieve_existing_ip_allocation a uid nic multiple none = nothing
  retrieve_existing_ip_allocation a uid nic multiple (some e) =
      if not (text_eq e.uid uid)
      then (if (e.deleting || a.deleted) && a.finalizer_removed then nothing else refuse)
      else if not (retrieve_ip_allocation uid nic (some e) false)
      then nothing
      else if multiple
      then answer_of (after_call a.written e (update_allocation_nic_name e nic))
      else answer_of (some e)

  -- Whether the outdated addresses of the StatefulSet's pod have been released, none for an error.
  abbrev pub released_outdated : AllocateAnswers → Bool → Option Endpoint → Option Bool
  released_outdated a false e = some false
  released_outdated a true none = some false
  released_outdated a true (some e) = a.outdated

  abbrev pub retrieve :
      Switches
      → AllocateAnswers
      → Text
      → Text
      → Bool
      → PodTopController
      → Option Endpoint
      → Bool
      → Flow
  retrieve s a uid nic multiple c e released =
      if keeps_addresses s c
      then (if released then plain nothing else retrieve_static_ip_allocation a uid nic multiple e)
      else if keeps_vm_addresses s c
      then retrieve_static_ip_allocation a uid nic multiple e
      else plain (retrieve_existing_ip_allocation a uid nic multiple e)

  abbrev pub with_endpoint :
      Switches → AllocateAnswers → Text → Text → Bool → PodTopController → Option Endpoint → Flow
  with_endpoint s a uid nic multiple c e = elim (released_outdated a (keeps_addresses s c) e) [
    | none ↦ plain refuse
    | some released ↦ or_standard (own_endpoint uid e) (retrieve s a uid nic multiple c e released)
  ]

  abbrev pub with_pod :
      Switches → AllocateAnswers → Text → Bool → ReleasePod → PodTopController → Flow
  with_pod s a nic multiple p c = elim a.endpoint [
    | unanswered ↦ plain refuse
    | missing ↦ with_endpoint s a p.uid nic multiple c none
    | found e ↦ with_endpoint s a p.uid nic multiple c (some e)
  ]

  -- `Allocate` for an interface; `multiple` is `IsMultipleNicWithNoName`.
  unfoldable pub allocate : Switches → AllocateAnswers → Text → Bool → Flow
  unfolding is_pod_alive retrieve_static_ip_allocation retrieve_existing_ip_allocation text_eq
  allocate s a nic multiple = elim a.pod [
    | none ↦ plain refuse
    | some p ↦
        if not (is_pod_alive (some p))
        then plain refuse
        else elim a.controller [ none ↦ plain refuse | some c ↦ with_pod s a nic multiple p c ]
  ]
