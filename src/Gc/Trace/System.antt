-- ===== src/Gc/Trace/System.antt =====
-- pkg/gcmanager/tracePod_worker.go with pod_cache.go: the trace worker, the channel of signals and the
-- executors, which work on copies of entries, interleaved with the writers of the database.
use spiderpool.Prelude.{
  ℕ, ◌≡◌, Bool, true, false, ◌&&◌, List, [], ◌∷◌, ◌++◌, Option, some, Text, if◌then◌else◌,
}
use spiderpool.Gc.PodDatabase.{
  PodEntry, PodDatabase, ok, new_pod_db, list_all_pod_entries, apply_pod_entry, delete_pod_entry,
}
use spiderpool.Gc.PodEntries.{Pod, Config, Checks, build_pod_entry}
use spiderpool.Gc.PodEntries as Entries
use spiderpool.Gc.Trace.{PodAnswer, handle_pod_entry_for_tracing_time_out, Work, panicked, settle}

-- The database, the rest of the list that the worker goes through, the signals in the channel, and
-- the copies on which executors work.
pub record TraceSystem : Type 0 where
  pub db : PodDatabase
  pub listed : List PodEntry
  pub signalled : List PodEntry
  pub working : List PodEntry

abbrev pub is_panic : Work → Bool
is_panic panicked = true
is_panic _ = false

-- `finish` is what an executor does with the database once its calls are made. A panic ends the
-- process; a full channel drops a signal after a time. `drop` is a deletion of an entry that comes
-- before the rest of its `handle` or `finish`, which then goes on with what comes after.
pub data TraceStep (max_retries : ℕ) (s : TraceSystem) : TraceSystem → Type 0 where
  trace :
      (config : Config) (k : Checks) (old : Option Pod) (p : Pod) (deleted : Bool) (e : PodEntry)
      (after : PodDatabase)
      → build_pod_entry config k old (some p) deleted ≡ Entries.ok (some e)
      → apply_pod_entry s.db (some e) ≡ ok after
      → TraceStep max_retries s (record s { db = after })
  list_entries :
      s.listed ≡ [] → TraceStep max_retries s (record s { listed = list_all_pod_entries s.db })
  handle :
      (now : ℕ) (answer : PodAnswer) (is_sent : Bool) (e : PodEntry) (es : List PodEntry)
      → s.listed ≡ e ∷ es
      → TraceStep max_retries s (record s {
        db = (handle_pod_entry_for_tracing_time_out now answer e s.db).0;
        listed = es;
        signalled =
            if (handle_pod_entry_for_tracing_time_out now answer e s.db).1 && is_sent
            then s.signalled ++ e ∷ []
            else s.signalled;
      })
  receive :
      (p : PodEntry) (ps : List PodEntry)
      → s.signalled ≡ p ∷ ps
      → TraceStep max_retries s (record s { signalled = ps; working = p ∷ s.working })
  drop :
      (ns name : Text) → TraceStep max_retries s (record s { db = delete_pod_entry ns name s.db })
  finish :
      (now : ℕ) (w : Work) (xs ys : List PodEntry) (p : PodEntry)
      → s.working ≡ xs ++ p ∷ ys
      → is_panic w ≡ false
      → TraceStep max_retries s
          (record s { db = settle max_retries now p w s.db; working = xs ++ ys })

abbrev pub init : ℕ → TraceSystem
init cap = record { db = new_pod_db cap; listed = []; signalled = []; working = [] }

pub data Reach (max_retries cap : ℕ) : TraceSystem → Type 0 where
  start : Reach max_retries cap (init cap)
  later :
      {s t : TraceSystem}
      → Reach max_retries cap s
      → TraceStep max_retries s t
      → Reach max_retries cap t
