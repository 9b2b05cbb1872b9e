-- ===== src/Gc/Trace.antt =====
-- pkg/gcmanager/tracePod_worker.go: the entries of the pod database whose time is over, and the
-- release of their addresses. A call of another component is given by its answer.
pub mod System
pub mod Bounded
use spiderpool.Prelude.{
  ℕ, suc, Bool, true, false, not, ◌&&◌, ◌||◌, List, [], ◌∷◌, Option, none, some, Text, codes,
  text_eq, all, ltb, ◌==◌, if◌then◌else◌,
}
use spiderpool.Pool.Release.{IpAndUid}
use spiderpool.Endpoint.Records.{Detail, Endpoint}
use spiderpool.Endpoint.Details.{Grouping, group_ip_allocation_details}
use spiderpool.Endpoint.Manager.{kind_stateful_set, kind_kubevirt_vmi}
use spiderpool.Gc.PodDatabase.{
  PodEntry, PodDatabase, Applied, ok, delete_pod_entry, apply_pod_entry,
}

-- `GetPodByName`, with whether the pod has addresses.
pub data PodAnswer : Type 0 where
  pod_missing pod_unknown : PodAnswer
  pod_with_ips : Bool → PodAnswer

-- `handlePodEntryForTracingTimeOut`: the database, and whether the entry is signalled.
unfoldable pub handle_pod_entry_for_tracing_time_out :
    ℕ → PodAnswer → PodEntry → PodDatabase → PodDatabase × Bool
unfolding delete_pod_entry
handle_pod_entry_for_tracing_time_out now answer e db =
    if e.tracing_stop_time == 0
    then (db, false)
    else if ltb e.tracing_stop_time now
    then on_time_over answer
    else (db, false)
  where
    on_time_over : PodAnswer → PodDatabase × Bool
    on_time_over pod_missing = (db, true)
    on_time_over pod_unknown = (db, false)
    on_time_over (pod_with_ips true) = (db, true)
    on_time_over (pod_with_ips false) = (delete_pod_entry e.namespace e.pod_name db, true)

pub data EndpointAnswer : Type 0 where
  endpoint_missing endpoint_unknown : EndpointAnswer
  endpoint : Endpoint → EndpointAnswer

-- What the calls of a round answer. `released` is whether `ReleaseIP` succeeds or does not find the
-- pool; `iaas_released` is none without a provider, else whether it releases an address, where one
-- that does not parse is passed over.
pub record Answers : Type 0 where
  pub found : EndpointAnswer
  pub released : Text → List IpAndUid → Bool
  pub iaas_released : Option (Text → Bool)
  pub deleted : Bool
  pub finalizer_removed : Bool

-- How a round ends; `panicked` is the nil pool of an address.
pub data Work : Type 0 where
  finished mismatched failed panicked : Work

abbrev pub all_released : (Text → List IpAndUid → Bool) → Grouping → Bool
all_released released m = all (λ (p : Text × List IpAndUid). released p.0 p.1) m

abbrev pub iaas_detail : (Text → Bool) → Detail → Bool
iaas_detail release d = elim d.ipv4 [ none ↦ true | some ip ↦ release ip ]

abbrev pub iaas_all : Option (Text → Bool) → List Detail → Bool
iaas_all none ds = true
iaas_all (some release) ds = all (iaas_detail release) ds

-- StatefulSet and KubevirtVMI endpoints have no owner reference.
abbrev pub is_deleted_here : Endpoint → Bool
unfolding text_eq
is_deleted_here e =
    (text_eq e.owner_controller_type kind_stateful_set
      || text_eq e.owner_controller_type kind_kubevirt_vmi)
    && not e.deleting

-- The calls after the grouping, up to the first that fails.
abbrev pub release_grouped : Answers → Endpoint → Option Grouping → Work
release_grouped a e none = panicked
release_grouped a e (some m) =
    if not (all_released a.released m)
    then failed
    else if not (iaas_all a.iaas_released e.ips)
    then failed
    else if is_deleted_here e && not a.deleted
    then failed
    else if not a.finalizer_removed
    then failed
    else finished

-- The function in `releaseIPPoolIPExecutor`; a request that the limiter refuses goes on all the same.
unfoldable pub release_ip_pool_ip : Answers → PodEntry → Work
unfolding text_eq group_ip_allocation_details
release_ip_pool_ip a p = elim a.found [
  | endpoint_missing ↦ finished
  | endpoint_unknown ↦ failed
  | endpoint e ↦
      if not (text_eq e.uid p.uid)
      then mismatched
      else release_grouped a e (group_ip_allocation_details e.uid e.ips)
]

abbrev pub or_delete : PodEntry → PodDatabase → Applied → PodDatabase
unfolding delete_pod_entry
or_delete p db (ok after) = after
or_delete p db _ = delete_pod_entry p.namespace p.pod_name db

-- What follows the function: the entry is queued again, or deleted. A panic ends the process.
unfoldable pub settle : ℕ → ℕ → PodEntry → Work → PodDatabase → PodDatabase
unfolding delete_pod_entry apply_pod_entry
settle max_retries now p finished db = delete_pod_entry p.namespace p.pod_name db
settle max_retries now p mismatched db =
    delete_pod_entry p.namespace p.pod_name (delete_pod_entry p.namespace p.pod_name db)
settle max_retries now p panicked db = db
settle max_retries now p failed db =
    if ltb p.num_requeues max_retries
    then or_delete p db (
        apply_pod_entry db
          (some (record p { entry_update_time = now; num_requeues = suc p.num_requeues })))
    else delete_pod_entry p.namespace p.pod_name db
