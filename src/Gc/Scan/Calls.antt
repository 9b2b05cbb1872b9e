-- ===== src/Gc/Scan/Calls.antt =====
-- pkg/gcmanager/scanAll_IPPool.go: what follows the decision on a record.
use spiderpool.Prelude.{
  Bool, true, false, ◌&&◌, List, [], ◌∷◌, ◌++◌, Option, none, some, Text, text_eq, split_on,
  if◌then◌else◌,
}
use spiderpool.Pool.Records.{Allocation, Allocations}
use spiderpool.Pool.Release.{IpAndUid}
use spiderpool.Gc.PodDatabase.{PodDatabase, apply_pod_entry}
use spiderpool.Gc.PodDatabase as Db
use spiderpool.Gc.PodEntries.{Checks, build_pod_entry}
use spiderpool.Gc.PodEntries as Entries
use spiderpool.Gc.Scan.{Verdict, decide}
use spiderpool.Gc.Status.{ScanConfig, ScanPod, Facts}

-- `SplitMetaNamespaceKey` fails with more than two parts.
abbrev pub is_key : List Text → Bool
is_key (n ∷ []) = true
is_key (ns ∷ n ∷ []) = true
is_key _ = false

abbrev pub released_by : Verdict → Text → Text → List IpAndUid
released_by v ip uid = if v.gc_ip then record { ip = ip; uid = uid } ∷ [] else []

-- The calls of `ReleaseIP` for one record, each with one address; none for a panic.
unfoldable pub calls_for : ScanConfig → Facts → Text → Allocation → Option (List IpAndUid)
unfolding decide
calls_for config f ip r =
    if is_key (split_on b'/' r.namespaced_name)
    then elim (decide config f r.pod_uid) [
      | none ↦ none
      | some v ↦ some (released_by v ip r.pod_uid)
    ]
    else some []

-- The calls that are made, up to a panic, which ends the process.
pub record ScanCalls : Type 0 where
  pub calls : List IpAndUid
  pub panicked : Bool

-- The calls of `ReleaseIP` for the records of one pool.
unfoldable pub release_calls : ScanConfig → (Text → Allocation → Facts) → Allocations → ScanCalls
unfolding calls_for
release_calls config facts [] = record { calls = []; panicked = false }
release_calls config facts ((ip, r) ∷ m) =
    let rest = release_calls config facts m in
    elim (calls_for config (facts ip r) ip r) [
      | none ↦ record { calls = []; panicked = true }
      | some made ↦ record { calls = made ++ rest.calls; panicked = rest.panicked }
    ]

-- The entry for a pod that is to be traced, applied by the elected controller.
unfoldable pub traced : ScanConfig → Checks → Bool → ScanPod → Verdict → PodDatabase → PodDatabase
unfolding build_pod_entry apply_pod_entry
traced config k elected s v db =
    if v.trace && elected
    then elim (build_pod_entry config.entries k none (some s.pod) false) as (λ _. PodDatabase) [
      | Entries.err e ↦ db
      | Entries.ok o ↦ elim (apply_pod_entry db o) as (λ _. PodDatabase) [
        | Db.ok after ↦ after
        | _ ↦ db
      ]
    ]
    else db

-- `checkEndpointExistInIPPool`: whether the endpoint is released.
unfoldable pub is_endpoint_outdated : Text → Allocations → Bool
is_endpoint_outdated key [] = true
is_endpoint_outdated key ((ip, r) ∷ m) =
    if text_eq r.namespaced_name key then false else is_endpoint_outdated key m
