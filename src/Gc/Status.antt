-- ===== src/Gc/Status.antt =====
-- pkg/gcmanager/scanAll_IPPool.go: what the cluster answers for a record, the checks of owners and
-- nodes, and what the status of a pod says.
use spiderpool.Prelude.{
  ℕ, ◌+◌, Bool, true, false, not, ◌&&◌, List, [], ◌∷◌, Option, none, some, Text, ltb, if◌then◌else◌,
  is_some,
}
use spiderpool.Gc.PodEntries.{Pod, Phase, running, pending, is_ended, Checks, build_pod_entry}
use spiderpool.Gc.PodEntries as Entries

-- The settings that the scan reads.
pub record ScanConfig : Type 0 where
  pub entries : Entries.Config
  pub gc_on_ready_node : Bool
  pub gc_on_not_ready_node : Bool
  pub gc_running_without_ips : Bool

-- The kinds of owners that are told apart, with their API version.
pub data Owner : Type 0 where
  stateful_set kubevirt_vmi other_owner : Owner

abbrev pub is_stateful_set : Owner → Bool
is_stateful_set stateful_set = true
is_stateful_set _ = false

abbrev pub is_kubevirt_vmi : Owner → Bool
is_kubevirt_vmi kubevirt_vmi = true
is_kubevirt_vmi _ = false

-- A pod with its `Status.PodIPs`, its controller, and the kind of its first owner.
pub record ScanPod : Type 0 where
  pub pod : Pod
  pub pod_ips : List Text
  pub controller : Option Owner
  pub first_owner : Option Owner

-- `Status` of a SpiderEndpoint
pub record Endpoint : Type 0 where
  pub uid : Text
  pub owner_controller_type : Owner

pub data Found (A : Type 0) : Type 0 where
  found : A → Found A
  not_found failed : Found A

-- What the cluster answers for one record. A check that fails is none.
pub record Facts : Type 0 where
  pub endpoint : Found Endpoint
  pub scan_pod : Found ScanPod
  pub node_ready : Option Bool
  pub valid_stateful_set_pod : Option Bool
  pub valid_vm_pod : Option Bool
  pub now : ℕ

-- A part of the loop's body: it goes on, it continues with the next record, or it panics.
pub data Part (A : Type 0) : Type 0 where
  go : A → Part A
  skip panic : Part A

infixl 5 ◌>>=◌
abbrev pub ◌>>=◌ : {A B : Type 0} → Part A → (A → Part B) → Part B
go a >>= f = f a
skip >>= f = skip
panic >>= f = panic

-- One check of an owner: an error, a valid pod, or the next check.
abbrev pub check_owner : Bool → Option Bool → Option Bool → Option Bool
check_owner false answer rest = rest
check_owner true none rest = none
check_owner true (some true) rest = some true
check_owner true (some false) rest = rest

unfoldable pub is_valid_statefulset_or_kubevirt : ScanConfig → Facts → Owner → Option Bool
is_valid_statefulset_or_kubevirt config f kind =
    check_owner (config.entries.enable_stateful_set && is_stateful_set kind)
      f.valid_stateful_set_pod
      (check_owner (config.entries.enable_kubevirt_static_ip && is_kubevirt_vmi kind) f.valid_vm_pod
        (some false))

unfoldable pub is_should_gc_on_node : ScanConfig → Option Bool → Option Bool
is_should_gc_on_node config none = none
is_should_gc_on_node config (some ready) =
    if ready && not config.gc_on_ready_node
    then some false
    else if not ready && not config.gc_on_not_ready_node
    then some false
    else some true

-- pkg/podmanager/utils.go, `IsStaticIPPod`
unfoldable pub is_static_ip_pod : Bool → Bool → Option Owner → Bool
is_static_ip_pod stateful kubevirt none = false
is_static_ip_pod stateful kubevirt (some o) =
    if stateful && is_stateful_set o
    then true
    else if kubevirt && is_kubevirt_vmi o
    then true
    else false

-- Whether the status of the pod says to reclaim, and whether to trace the pod.
abbrev pub Flags : Type 0
Flags = Bool × Bool

abbrev pub is_empty : List Text → Bool
is_empty [] = true
is_empty (x ∷ xs) = false

unfoldable pub should_trace_or_reclaim : ScanConfig → ℕ → ScanPod → Bool → Part Flags
should_trace_or_reclaim config now s enabled =
    elim s.pod.deletion_grace_period_seconds as (λ _. Part Flags) [
      | none ↦ panic
      | some g ↦ elim s.pod.deletion_timestamp as (λ _. Part Flags) [
        | none ↦ panic
        | some d ↦
            if ltb (d + (g + config.entries.additional_grace_delay)) now
            then go (enabled, false)
            else if not (is_empty s.pod_ips)
            then go (false, true)
            else go (true, false)
      ]
    ]

-- `OwnerReferences[0].Kind` with the check of it.
unfoldable pub check_first_owner : ScanConfig → Facts → ScanPod → Part Bool
unfolding is_valid_statefulset_or_kubevirt
check_first_owner config f s = elim s.first_owner as (λ _. Part Bool) [
  | none ↦ panic
  | some kind ↦ elim (is_valid_statefulset_or_kubevirt config f kind) as (λ _. Part Bool) [
    | none ↦ skip
    | some valid ↦ go valid
  ]
]

-- The switch over the status of the pod.
unfoldable pub status_flags : ScanConfig → Facts → ScanPod → Bool → Bool → Part Flags
unfolding should_trace_or_reclaim check_first_owner
status_flags config f s static enabled =
    if is_ended s.pod.phase
    then (if static
        then (check_first_owner config f s >>= λ valid.
            go (if valid then (false, true) else (true, false)))
        else if is_some s.pod.deletion_timestamp
        then should_trace_or_reclaim config f.now s enabled
        else go (false, false))
    else if Entries.same_phase s.pod.phase pending
    then go (false, false)
    else if is_some s.pod.deletion_timestamp
    then should_trace_or_reclaim config f.now s enabled
    else if not (is_empty s.pod_ips)
    then go (false, false)
    else if static
    then (check_first_owner config f s >>= λ valid. go (not valid, false))
    else if Entries.same_phase s.pod.phase running
    then go (config.gc_running_without_ips, false)
    else go (true, false)
