-- ===== src/Gc/Trace/Bounded.antt =====
-- No entry is queued again more often than the configuration allows.
use spiderpool.Prelude.{ℕ, suc, ◌≤◌, All}
use spiderpool.Gc.PodDatabase.{PodEntry, PodDatabase}
use spiderpool.Gc.Trace.System.{TraceSystem}

abbrev pub IsRetried : ℕ → PodEntry → Type 0
IsRetried max_retries e = e.num_requeues ≤ max_retries

abbrev pub IsBounded : ℕ → TraceSystem → Type 0
IsBounded max_retries s =
    All (IsRetried max_retries) s.db.pods
    × All (IsRetried max_retries) s.listed
    × All (IsRetried max_retries) s.signalled
    × All (IsRetried max_retries) s.working

-- The entry that is queued again
abbrev again : ℕ → PodEntry → PodEntry
again now p = record p { entry_update_time = now; num_requeues = suc p.num_requeues }
