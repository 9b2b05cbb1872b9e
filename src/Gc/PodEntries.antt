-- ===== src/Gc/PodEntries.antt =====
-- pkg/gcmanager/pod_cache.go, `buildPodEntry`: which pods are traced, and until when. The checks of
-- the owner of a pod and of its node are arguments, and so is the clock, which stands still in a call.
pub mod Traced
use spiderpool.Prelude.{
  ℕ, ◌+◌, Bool, true, false, not, ◌&&◌, ◌||◌, List, [], ◌∷◌, Option, none, some, Text, codes, ltb,
  ◌==◌, if◌then◌else◌, is_some, length,
}
use spiderpool.Gc.PodDatabase.{PodEntry, pod_running}

pub data Phase : Type 0 where
  pending running succeeded failed unknown : Phase

-- The fields of a pod that are read; a container status is the end of its container, if terminated.
pub record Pod : Type 0 where
  pub name : Text
  pub namespace : Text
  pub node_name : Text
  pub uid : Text
  pub host_network : Bool
  pub deletion_timestamp : Option ℕ
  pub deletion_grace_period_seconds : Option ℕ
  pub termination_grace_period_seconds : Option ℕ
  pub phase : Phase
  pub container_statuses : List (Option ℕ)

pub record Config : Type 0 where
  pub enable_stateful_set : Bool
  pub enable_kubevirt_static_ip : Bool
  pub additional_grace_delay : ℕ

pub data GcError : Type 0 where
  no_pod check_failed no_containers no_finish_time no_grace_period : GcError
  -- a nil pointer is read
  panic : GcError

pub data Answer {ℓ} (A : Type ℓ) : Type ℓ where
  ok : A → Answer A
  err : GcError → Answer A

infixl 5 ◌>>=◌
abbrev pub ◌>>=◌ {ℓ κ} : {A : Type ℓ} {B : Type κ} → Answer A → (A → Answer B) → Answer B
ok a >>= f = f a
err e >>= f = err e

-- The checks that other parts make: of a StatefulSet's pod, of a virtual machine's, of the node.
pub record Checks : Type 0 where
  pub is_valid_stateful_set_pod : Pod → Answer Bool
  pub is_valid_kubevirt_vmi_pod : Pod → Answer Bool
  pub is_should_gc_or_trace : Pod → Answer Bool
  pub now : ℕ

-- The latest end of a container.
abbrev pub latest : ℕ → List (Option ℕ) → ℕ
latest t [] = t
latest t (none ∷ cs) = latest t cs
latest t (some f ∷ cs) = latest (if ltb t f then f else t) cs

-- Start, stop and grace period
abbrev pub Times : Type 0
Times = ℕ × ℕ × ℕ

abbrev pub times_from : Config → ℕ → Option ℕ → Answer Times
times_from config start none = err no_grace_period
times_from config start (some g) =
    let graceful = g + config.additional_grace_delay in ok (start, start + graceful, graceful)

unfoldable pub compute_terminating_time : Config → Pod → Answer Times
compute_terminating_time config p =
    let start = latest 0 p.container_statuses in
    if length p.container_statuses == 0
    then err no_containers
    else if start == 0
    then err no_finish_time
    else times_from config start p.termination_grace_period_seconds

pub data Tracing : Type 0 where
  untraced terminating ended : Tracing

abbrev pub is_ended : Phase → Bool
is_ended succeeded = true
is_ended failed = true
is_ended _ = false

abbrev pub same_phase : Phase → Phase → Bool
same_phase pending pending = true
same_phase running running = true
same_phase succeeded succeeded = true
same_phase failed failed = true
same_phase unknown unknown = true
same_phase _ _ = false

-- `*currentPod.Spec.TerminationGracePeriodSeconds != *oldPod.Spec.TerminationGracePeriodSeconds`
abbrev pub grace_differs : Option ℕ → Option ℕ → Answer Bool
grace_differs (some a) (some b) = ok (not (a == b))
grace_differs _ _ = err panic

abbrev ended_case : Pod → Pod → Answer Tracing
ended_case old p =
    if not (is_ended p.phase)
    then ok untraced
    else if not (same_phase p.phase old.phase)
    then ok ended
    else (grace_differs p.termination_grace_period_seconds old.termination_grace_period_seconds
        >>= λ d. ok (if d then ended else untraced))

-- The switch over both versions of the pod.
unfoldable pub tracing_of : Option Pod → Pod → Answer Tracing
tracing_of none p = ok (
    if is_some p.deletion_timestamp
    then terminating
    else if is_ended p.phase
    then ended
    else untraced)
tracing_of (some old) p =
    if not (is_some p.deletion_timestamp)
    then ended_case old p
    else if not (is_some old.deletion_timestamp)
    then ok terminating
    else (grace_differs p.termination_grace_period_seconds old.termination_grace_period_seconds
        >>= λ d. if d then ok terminating else ended_case old p)

abbrev pub phase_text : Phase → Text
phase_text pending = codes "Pending"
phase_text running = pod_running
phase_text succeeded = codes "Succeeded"
phase_text failed = codes "Failed"
phase_text unknown = codes "Unknown"

abbrev pub entry_of : Checks → Pod → Text → Times → PodEntry
entry_of k p reason (start, stop, graceful) = record {
  pod_name = p.name;
  namespace = p.namespace;
  node_name = p.node_name;
  uid = p.uid;
  entry_update_time = k.now;
  tracing_start_time = start;
  tracing_graceful_time = graceful;
  tracing_stop_time = stop;
  pod_tracing_reason = reason;
  num_requeues = 0;
}

abbrev pub deleting_times : Config → Option ℕ → Option ℕ → Answer Times
deleting_times config none g = err panic
deleting_times config (some start) none = err no_grace_period
deleting_times config (some start) (some g) = times_from config start (some g)

-- The branches that build an entry, after the check of the node.
unfoldable pub build_traced : Config → Checks → Pod → Tracing → Answer (Option PodEntry)
unfolding compute_terminating_time
build_traced config k p untraced = ok none
build_traced config k p terminating = k.is_should_gc_or_trace p >>= λ enabled.
    if not enabled
    then ok none
    else (deleting_times config p.deletion_timestamp p.deletion_grace_period_seconds >>= λ t.
        ok (some (entry_of k p (codes "Terminating") t)))
build_traced config k p ended = k.is_should_gc_or_trace p >>= λ enabled.
    if not enabled
    then ok none
    else (compute_terminating_time config p >>= λ t.
        ok (some (entry_of k p (phase_text p.phase) t)))

unfoldable pub build_deleted : Config → Checks → Option Pod → Pod → Bool → Answer (Option PodEntry)
unfolding tracing_of build_traced
build_deleted config k old p true = ok (
    some (
      entry_of k p (codes "Deleted")
        (k.now, k.now + config.additional_grace_delay, config.additional_grace_delay)))
build_deleted config k old p false = tracing_of old p >>= λ t. build_traced config k p t

-- A check that is made only if its setting is on.
abbrev pub check_if : Bool → Answer Bool → Answer Bool
check_if true a = a
check_if false a = ok false

unfoldable pub build_pod_entry :
    Config → Checks → Option Pod → Option Pod → Bool → Answer (Option PodEntry)
unfolding build_deleted
build_pod_entry config k old none deleted = err no_pod
build_pod_entry config k old (some p) deleted =
    if p.host_network
    then ok none
    else (check_if config.enable_stateful_set (k.is_valid_stateful_set_pod p) >>= λ sts.
        if sts
        then ok none
        else (check_if config.enable_kubevirt_static_ip (k.is_valid_kubevirt_vmi_pod p) >>= λ vmi.
            if vmi then ok none else build_deleted config k old p deleted))
