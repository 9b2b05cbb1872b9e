-- ===== src/Gc/Scan.antt =====
-- pkg/gcmanager/scanAll_IPPool.go: the scan of the records of all pools. What the cluster answers
-- for one record is an argument.
pub mod Calls
pub mod Live
pub mod Kept
use spiderpool.Prelude.{
  ℕ, ◌+◌, Bool, true, false, not, ◌&&◌, ◌||◌, List, [], ◌∷◌, ◌++◌, Option, none, some, Text,
  text_eq, ltb, ◌==◌, any, length, split_on, if◌then◌else◌, is_some,
}
use spiderpool.Pool.Records.{Allocation, Allocations}
use spiderpool.Pool.Release.{IpAndUid}
use spiderpool.Gc.PodDatabase.{PodDatabase, apply_pod_entry}
use spiderpool.Gc.PodDatabase as Db
use spiderpool.Gc.PodEntries.{Pod, Phase, running, pending, is_ended, Checks, build_pod_entry}
use spiderpool.Gc.PodEntries as Entries
use spiderpool.Gc.Status.{
  Endpoint, Facts, Flags, Found, Part, ScanConfig, ScanPod, check_first_owner, failed, found, go,
  is_empty, is_should_gc_on_node, is_static_ip_pod, is_valid_statefulset_or_kubevirt, not_found,
  panic, skip, status_flags, ◌>>=◌,
}

-- A static pod with another uid: its address is taken back if it has one by now, or is not valid.
abbrev pub other_static : ScanConfig → Facts → ScanPod → Part Bool
other_static config f s =
    if not (is_empty s.pod_ips)
    then go true
    else (check_first_owner config f s >>= λ valid. go (not valid))

-- `flagGCIPPoolIP`, from the uid of the record.
unfoldable pub pool_flag : ScanConfig → Facts → ScanPod → Text → Bool → Bool → Part Bool
unfolding check_first_owner
pool_flag config f s uid static reclaim =
    if not (text_eq s.pod.uid uid)
    then (if static then other_static config f s else go true)
    else go reclaim

-- `flagGCIPPoolIP` and `flagGCEndpoint`, from the endpoint.
unfoldable pub endpoint_flags :
    ScanConfig → Facts → ScanPod → Found Endpoint → Bool → Bool → Bool → Part Flags
unfolding check_first_owner
endpoint_flags config f s (found e) static reclaim gc_ip =
    if not (text_eq s.pod.uid e.uid)
    then (if static then (other_static config f s >>= λ gc. go (gc_ip, gc)) else go (true, true))
    else go (gc_ip, reclaim)
endpoint_flags config f s not_found static reclaim gc_ip = go (gc_ip, false)
endpoint_flags config f s failed static reclaim gc_ip = go (gc_ip, false)

-- What is done for a record: release the address, release the endpoint, trace the pod.
pub record Verdict : Type 0 where
  pub gc_ip : Bool
  pub gc_endpoint : Bool
  pub trace : Bool

abbrev pub leave : Verdict
leave = record { gc_ip = false; gc_endpoint = false; trace = false }

-- The pod is not in the cluster.
unfoldable pub decide_absent : ScanConfig → Facts → Found Endpoint → Verdict
unfolding is_valid_statefulset_or_kubevirt
decide_absent config f not_found = record leave { gc_ip = true }
decide_absent config f failed = leave
decide_absent config f (found e) =
    elim (is_valid_statefulset_or_kubevirt config f e.owner_controller_type) as (λ _. Verdict) [
      | none ↦ leave
      | some true ↦ leave
      | some false ↦ record leave { gc_ip = true; gc_endpoint = true }
    ]

-- The pod is traced before a later check may continue with the next record; none is a panic.
abbrev pub with_trace : Bool → Part Flags → Option Verdict
with_trace trace (go (gc_ip, gc_endpoint)) =
    some (record { gc_ip = gc_ip; gc_endpoint = gc_endpoint; trace = trace })
with_trace trace skip = some (record leave { trace = trace })
with_trace trace panic = none

-- The check of the node is made for pods that are not static.
abbrev pub node_check : ScanConfig → Facts → Bool → Option Bool
node_check config f true = some false
node_check config f false = is_should_gc_on_node config f.node_ready

unfoldable pub decide_after :
    ScanConfig → Facts → ScanPod → Text → Bool → Part Flags → Option Verdict
unfolding pool_flag endpoint_flags
decide_after config f s uid static skip = some leave
decide_after config f s uid static panic = none
decide_after config f s uid static (go (reclaim, trace)) = with_trace trace (
    pool_flag config f s uid static reclaim >>= λ gc_ip.
    endpoint_flags config f s f.endpoint static reclaim gc_ip)

unfoldable pub decide_present : ScanConfig → Facts → ScanPod → Text → Option Verdict
unfolding is_static_ip_pod is_should_gc_on_node status_flags decide_after
decide_present config f s uid =
    let static =
      is_static_ip_pod config.entries.enable_stateful_set config.entries.enable_kubevirt_static_ip
        s.controller in
    elim (node_check config f static) as (λ _. Option Verdict) [
      | none ↦ some leave
      | some enabled ↦ decide_after config f s uid static (status_flags config f s static enabled)
    ]

-- The body of the loop for a record with this uid, up to its effects.
unfoldable pub decide : ScanConfig → Facts → Text → Option Verdict
unfolding decide_absent decide_present
decide config f uid = elim f.scan_pod as (λ _. Option Verdict) [
  | not_found ↦ some (decide_absent config f f.endpoint)
  | failed ↦ some leave
  | found s ↦ decide_present config f s uid
]
