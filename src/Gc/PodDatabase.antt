-- ===== src/Gc/PodDatabase.antt =====
-- pkg/gcmanager/pod_cache.go: the database of pods whose addresses are to be collected. A time is
-- the number of seconds since Go's zero time; a stored entry has the key of its own name.
pub mod Invariant
pub mod Entries
use spiderpool.Prelude.{
  ℕ, Bool, true, false, not, ◌&&◌, List, [], ◌∷◌, Option, none, some, Text, codes, text_eq, length,
  ◌==◌, if◌then◌else◌,
}

-- `PodEntry`
pub record PodEntry : Type 0 where
  pub pod_name : Text
  pub namespace : Text
  pub node_name : Text
  pub uid : Text
  pub entry_update_time : ℕ
  pub tracing_start_time : ℕ
  pub tracing_graceful_time : ℕ
  pub tracing_stop_time : ℕ
  pub pod_tracing_reason : Text
  pub num_requeues : ℕ

pub record PodDatabase : Type 0 where
  pub pods : List PodEntry
  pub max_cap : ℕ

pub data Applied : Type 0 where
  ok : PodDatabase → Applied
  nil_entry running_pod out_of_capacity : Applied

abbrev pub pod_running : Text
pod_running = codes "Running"

unfoldable pub new_pod_db : ℕ → PodDatabase
new_pod_db cap = record { pods = []; max_cap = cap }

abbrev pub has_key : Text → Text → PodEntry → Bool
has_key ns name e = text_eq e.namespace ns && text_eq e.pod_name name

unfoldable pub find_entry : Text → Text → List PodEntry → Option PodEntry
find_entry ns name [] = none
find_entry ns name (e ∷ es) = if has_key ns name e then some e else find_entry ns name es

unfoldable pub drop_entry : Text → Text → List PodEntry → List PodEntry
drop_entry ns name [] = []
drop_entry ns name (e ∷ es) =
    if has_key ns name e then drop_entry ns name es else e ∷ drop_entry ns name es

-- A write under the key of the entry.
unfoldable pub put_entry : PodEntry → List PodEntry → List PodEntry
put_entry p [] = p ∷ []
put_entry p (e ∷ es) = if has_key p.namespace p.pod_name e then p ∷ es else e ∷ put_entry p es

unfoldable pub delete_pod_entry : Text → Text → PodDatabase → PodDatabase
unfolding find_entry drop_entry
delete_pod_entry ns name db = elim (find_entry ns name db.pods) [
  | none ↦ db
  | some e ↦ record db { pods = drop_entry ns name db.pods }
]

abbrev pub list_all_pod_entries : PodDatabase → List PodEntry
list_all_pod_entries db = db.pods

-- The fields that are compared.
abbrev pub is_same_tracing : PodEntry → PodEntry → Bool
is_same_tracing a b =
    a.tracing_start_time == b.tracing_start_time
    && (a.tracing_graceful_time == b.tracing_graceful_time
        && (a.tracing_stop_time == b.tracing_stop_time
            && (text_eq a.pod_tracing_reason b.pod_tracing_reason
                && a.num_requeues == b.num_requeues)))

-- What is stored for the key of the entry, and the write that follows.
unfoldable pub apply_found : PodDatabase → PodEntry → Option PodEntry → Applied
unfolding put_entry
apply_found db p none =
    if length db.pods == db.max_cap
    then out_of_capacity
    else ok (record db { pods = put_entry p db.pods })
apply_found db p (some e) =
    if not (is_same_tracing e p) then ok (record db { pods = put_entry p db.pods }) else ok db

unfoldable pub apply_pod_entry : PodDatabase → Option PodEntry → Applied
unfolding find_entry apply_found
apply_pod_entry db none = nil_entry
apply_pod_entry db (some p) =
    if text_eq p.pod_tracing_reason pod_running
    then running_pod
    else apply_found db p (find_entry p.namespace p.pod_name db.pods)
