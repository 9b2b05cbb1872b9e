-- ===== src/Ipam/Release.antt =====
-- pkg/ipam/release.go: CNI DEL, and the release of conflicting addresses; `IsPodAlive` of
-- pkg/podmanager/utils.go. A call of another component is given by its answer.
pub mod Guarded
use spiderpool.Prelude.{
  ℕ, Bool, true, false, not, ◌&&◌, ◌||◌, List, [], ◌∷◌, ◌++◌, Option, none, some, Text, codes,
  text_eq, all, if◌then◌else◌,
}
use spiderpool.Pool.Affinity.{PodTopController}
use spiderpool.Pool.Release.{IpAndUid}
use spiderpool.Endpoint.Records.{Detail, Endpoint}
use spiderpool.Endpoint.Details.{Grouping, group_ip_allocation_details}
use spiderpool.Endpoint.Manager.{
  Switches, is_kubevirt_vmi, is_stateful_set, kind_stateful_set, kind_kubevirt_vmi,
  retrieve_ip_allocation,
}

pub data Phase : Type 0 where
  pending running succeeded failed unknown : Phase

pub data RestartPolicy : Type 0 where
  always on_failure never : RestartPolicy

-- The fields of a pod that are read; `controller` is its controlling owner.
pub record ReleasePod : Type 0 where
  pub uid : Text
  pub deleting : Bool
  pub phase : Phase
  pub restart_policy : RestartPolicy
  pub reason : Text
  pub controller : Option PodTopController

abbrev is_always : RestartPolicy → Bool
is_always always = true
is_always _ = false

abbrev is_never : RestartPolicy → Bool
is_never never = true
is_never _ = false

abbrev has_ended : Phase → RestartPolicy → Text → Bool
unfolding text_eq
has_ended succeeded r reason = not (is_always r)
has_ended failed r reason = is_never r || text_eq reason (codes "Evicted")
has_ended _ r reason = false

unfoldable pub is_pod_alive : Option ReleasePod → Bool
unfolding text_eq
is_pod_alive none = false
is_pod_alive (some p) =
    if p.deleting then false else not (has_ended p.phase p.restart_policy p.reason)

pub data Found (A : Type 0) : Type 0 where
  found : A → Found A
  missing unanswered : Found A

-- What the calls answer. `released` is whether `ReleaseIP` of a pool succeeds, a failed check of
-- validity is none.
pub record ReleaseAnswers : Type 0 where
  pub pod : Found ReleasePod
  pub endpoint : Found Endpoint
  pub valid_stateful_set_pod : Option Bool
  pub valid_vm_pod : Option Bool
  pub deleted : Bool
  pub iaas_released : Bool
  pub tickets_acquired : Bool
  pub released : Text → List IpAndUid → Bool
  pub finalizer_removed : Bool

-- What a call leaves: the pools' releases that were asked for, and whether it succeeds.
pub record Ended : Type 0 where
  pub releases : Grouping
  pub success : Bool

abbrev pub refuse : Ended
refuse = record { releases = []; success = false }

abbrev pub nothing : Ended
nothing = record { releases = []; success = true }

abbrev pub release_groups : ReleaseAnswers → Option Grouping → Ended
release_groups a none = refuse
release_groups a (some m) =
    if a.tickets_acquired
    then record { releases = m; success = all (λ (p : Text × List IpAndUid). a.released p.0 p.1) m }
    else refuse

-- `release`: all pools at once; a nil pool of an address panics.
unfoldable pub release : ReleaseAnswers → Text → List Detail → Ended
unfolding group_ip_allocation_details
release a uid ds = release_groups a (group_ip_allocation_details uid ds)

-- Whether the owner keeps its addresses, none for an error; an owner that does not has its endpoint
-- deleted.
abbrev pub keeps : Bool → Option Bool → Bool → Option Bool
keeps false valid deleted = some false
keeps true none deleted = none
keeps true (some true) deleted = some true
keeps true (some false) true = some false
keeps true (some false) false = none

abbrev pub if_released : Option Bool → Ended → Ended
if_released none rest = refuse
if_released (some true) rest = nothing
if_released (some false) rest = rest

-- The end of the call, once the pools are released.
abbrev pub finish : ReleaseAnswers → Ended → Ended
finish a e = record e { success = e.success && a.finalizer_removed }

-- The part after the checks of the owner
abbrev pub give_back : ReleaseAnswers → Text → Text → Endpoint → Ended
unfolding retrieve_ip_allocation release
give_back a uid nic e =
    if not (retrieve_ip_allocation uid nic (some e) false)
    then nothing
    else if not a.iaas_released
    then refuse
    else finish a (release a e.uid e.ips)

abbrev pub stateful_set_keeps : Switches → ReleaseAnswers → Endpoint → Option Bool
unfolding text_eq
stateful_set_keeps s a e =
    keeps (s.stateful_set && text_eq e.owner_controller_type kind_stateful_set)
      a.valid_stateful_set_pod a.deleted

abbrev pub vm_keeps : Switches → ReleaseAnswers → Endpoint → Option Bool
unfolding text_eq
vm_keeps s a e =
    keeps (s.kubevirt_static_ip && text_eq e.owner_controller_type kind_kubevirt_vmi) a.valid_vm_pod
      a.deleted

unfoldable pub release_for_all_nics : Switches → ReleaseAnswers → Text → Text → Endpoint → Ended
unfolding text_eq retrieve_ip_allocation release
release_for_all_nics s a uid nic e =
    if_released (stateful_set_keeps s a e) (if_released (vm_keeps s a e) (give_back a uid nic e))

-- The uid that the release goes on with: the pod's, or the argument.
abbrev pub uid_of : Found ReleasePod → Text → Text
uid_of (found p) uid = p.uid
uid_of missing uid = uid
uid_of unanswered uid = uid

abbrev pub pod_of : Found ReleasePod → Option ReleasePod
pod_of (found p) = some p
pod_of missing = none
pod_of unanswered = none

abbrev pub is_answered : Found ReleasePod → Bool
is_answered unanswered = false
is_answered _ = true

abbrev pub of_endpoint : Switches → ReleaseAnswers → Text → Text → Found Endpoint → Ended
unfolding release_for_all_nics
of_endpoint s a uid nic (found e) = release_for_all_nics s a uid nic e
of_endpoint s a uid nic missing = nothing
of_endpoint s a uid nic unanswered = refuse

-- `Release`; the endpoint that is asked for has the pod's name, or the virtual machine's.
unfoldable pub release_pod : Switches → ReleaseAnswers → Text → Text → Ended
unfolding is_pod_alive text_eq release_for_all_nics
release_pod s a uid nic =
    if not (is_answered a.pod)
    then refuse
    else if is_pod_alive (pod_of a.pod)
    then nothing
    else if text_eq (uid_of a.pod uid) []
    then nothing
    else of_endpoint s a (uid_of a.pod uid) nic a.endpoint

-- The name of the endpoint that is asked for
unfoldable pub endpoint_name : Switches → Text → Option ReleasePod → Text
unfolding text_eq
endpoint_name s name none = name
endpoint_name s name (some p) = elim p.controller [
  | none ↦ name
  | some c ↦ if s.kubevirt_static_ip && is_kubevirt_vmi c then c.name else name
]
