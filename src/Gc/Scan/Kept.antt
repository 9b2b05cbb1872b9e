-- ===== src/Gc/Scan/Kept.antt =====
-- What the calls of the scan leave in the records of a pool.
use spiderpool.Prelude.{
  Bool, false, List, [], ◌∷◌, ◌++◌, Option, none, some, Text, split_on, if◌then◌else◌,
}
use spiderpool.Pool.Records.{Allocation, Allocations}
use spiderpool.Pool.Release.{IpAndUid}
use spiderpool.Gc.Scan.{Verdict, decide}
use spiderpool.Gc.Status.{ScanConfig, Facts}
use spiderpool.Gc.Scan.Calls.{is_key, calls_for}

-- Whether the scan takes the address of a record back.
abbrev pub takes : Option Verdict → Bool
takes none = false
takes (some v) = v.gc_ip

abbrev pub reclaims : ScanConfig → (Text → Allocation → Facts) → Text → Allocation → Bool
reclaims config facts ip r =
    if is_key (split_on b'/' r.namespaced_name)
    then takes (decide config (facts ip r) r.pod_uid)
    else false

-- The calls of `calls_for`, where it panics none
abbrev made_for : ScanConfig → Facts → Text → Allocation → List IpAndUid
made_for config f ip r = elim (calls_for config f ip r) [ none ↦ [] | some made ↦ made ]

-- The calls for all records, as if no panic ended the scan
abbrev all_calls : ScanConfig → (Text → Allocation → Facts) → Allocations → List IpAndUid
all_calls config facts [] = []
all_calls config facts ((ip, r) ∷ m) = made_for config (facts ip r) ip r ++ all_calls config facts m
