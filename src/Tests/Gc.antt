-- ===== src/Tests/Gc.antt =====
-- The theorems of the garbage collector on a pod that has ended.
use spiderpool.Prelude.{
  ◌≡◌, refl, lookup, split_on, true, false, [], ◌∷◌, none, some, codes, text_eq,
}
use spiderpool.Gc.PodDatabase.{PodEntry, PodDatabase, ok, new_pod_db, apply_pod_entry}
use spiderpool.Gc.PodDatabase.Invariant.{created, applied, IsSound, Reach-IsSound}
use spiderpool.Pool.Records.{Allocation, Allocations}
use spiderpool.Pool.Release.{Released}
use spiderpool.Gc.Status as Status
use spiderpool.Gc.Scan.{decide, leave}
use spiderpool.Gc.Status.{ScanConfig, ScanPod, Facts, other_owner}
use spiderpool.Gc.Scan.Calls.{release_calls}
use spiderpool.Gc.Scan.Live.{agrees, decide-leave}
use spiderpool.Gc.Scan.Kept.{reclaims}
use spiderpool.Gc.Trace as Trace
use spiderpool.Gc.Trace.{settle}
use spiderpool.Gc.Trace.System.{TraceSystem}
use spiderpool.Gc.PodEntries as Entries
use spiderpool.Gc.PodEntries.{Pod, Config, Checks, build_pod_entry, entry_of}
use spiderpool.Gc.PodEntries.Traced.{Describes, is_leaving, build_pod_entry-Describes}

abbrev pod : Pod
pod = record {
  name = codes "a";
  namespace = codes "ns";
  node_name = codes "n";
  uid = codes "ua";
  host_network = false;
  deletion_timestamp = none;
  deletion_grace_period_seconds = none;
  termination_grace_period_seconds = some 30;
  phase = Entries.succeeded;
  container_statuses = some 100 ∷ none ∷ some 120 ∷ [];
}

abbrev config : Config
config = record {
  enable_stateful_set = true;
  enable_kubevirt_static_ip = false;
  additional_grace_delay = 5;
}

abbrev checks : Checks
checks = record {
  is_valid_stateful_set_pod = λ p. Entries.ok false;
  is_valid_kubevirt_vmi_pod = λ p. Entries.ok true;
  is_should_gc_or_trace = λ p. Entries.ok true;
  now = 200;
}

abbrev entry : PodEntry
entry = entry_of checks pod (codes "Succeeded") (120, 155, 35)

built : build_pod_entry config checks none (some pod) false ≡ Entries.ok (some entry)
unfolding build_pod_entry
built = refl

build_pod_entry-Describes_example :
    Describes pod entry × (is_leaving pod false ≡ true) × (pod.host_network ≡ false)
build_pod_entry-Describes_example =
    build_pod_entry-Describes config checks none pod false entry built

abbrev one : PodDatabase
one = record { pods = entry ∷ []; max_cap = 2 }

stored : apply_pod_entry (new_pod_db 2) (some entry) ≡ ok one
unfolding apply_pod_entry new_pod_db text_eq
stored = refl

Reach-IsSound_example : IsSound 2 one
Reach-IsSound_example = Reach-IsSound 2 (applied (some entry) created stored)

abbrev live : ScanPod
live = record {
  pod = record pod { phase = Entries.running; container_statuses = [] };
  pod_ips = codes "10.0.0.5" ∷ [];
  controller = none;
  first_owner = none;
}

abbrev scan_config : ScanConfig
scan_config = record {
  entries = config;
  gc_on_ready_node = true;
  gc_on_not_ready_node = true;
  gc_running_without_ips = true;
}

abbrev live_facts : Facts
live_facts = record {
  endpoint = Status.found (record { uid = codes "ua"; owner_controller_type = other_owner });
  scan_pod = Status.found live;
  node_ready = some true;
  valid_stateful_set_pod = some false;
  valid_vm_pod = some false;
  now = 200;
}

lives : agrees live.pod.uid live_facts.endpoint ≡ true
unfolding text_eq
lives = refl

decide-leave_example : decide scan_config live_facts (codes "ua") ≡ some leave
decide-leave_example = decide-leave scan_config live_facts live refl refl lives

-- A record of another pod with the name of the live one, and the record of the live one.
abbrev records : Allocations
records =
    (codes "10.0.0.4", record { namespaced_name = codes "ns/a"; pod_uid = codes "old" })
    ∷ (codes "10.0.0.5", record { namespaced_name = codes "ns/a"; pod_uid = codes "ua" })
    ∷ []

abbrev before : Released
before = record { records = records; count = 2; release = false }

recorded :
    lookup (codes "10.0.0.4") records
    ≡ some (record { namespaced_name = codes "ns/a"; pod_uid = codes "old" })
unfolding lookup text_eq
recorded = refl

stale :
    reclaims scan_config
      (λ ip r. live_facts)
      (codes "10.0.0.4")
      (record { namespaced_name = codes "ns/a"; pod_uid = codes "old" })
    ≡ true
unfolding decide split_on text_eq
stale = refl

abbrev old_record : Allocation
old_record = record { namespaced_name = codes "ns/a"; pod_uid = codes "old" }

quiet : (release_calls scan_config (λ ip r. live_facts) before.records).panicked ≡ false
unfolding release_calls split_on text_eq
quiet = refl

-- The entry is traced, listed, signalled, received, and queued again as its release fails.
abbrev requeued : TraceSystem
requeued = record {
  db = settle 1 400 entry Trace.failed one;
  listed = [];
  signalled = [];
  working = [];
}
