-- ===== src/Tests/Pool.antt =====
-- The theorems of the pool manager on a pool of two addresses.
use spiderpool.Prelude.{
  ℕ, suc, ◌+◌, ◌≡◌, ◌||◌, refl, true, false, List, [], ◌∷◌, ◌++◌, none, some, Text, text_eq, codes,
  contains_code, lookup, insert, split_on, if◌then◌else◌,
}
use spiderpool.Net.Address.{Ip, bytes16, v4_prefix}
use spiderpool.Tests.Net.{show, sample, sample_laws}
use spiderpool.Pool.Records.{
  Allocation, Allocations, Stored, json, IpPool, Result, ok, err, data_broken,
}
use spiderpool.Pool.Api.{
  Cluster, IsVersioned, History, Applied, settled, retry_on_conflict, retry_on_conflict_lem,
  written, default_steps,
}
use spiderpool.Pool.Allocate.{Pod, Config, allocate_once, allocate_ip}
use spiderpool.Pool.Allocate.Taken.{IsAllocation}
use spiderpool.Pool.Allocate.Safety.{allocate_ip-IsAllocation}
use spiderpool.Pool.Release.{IpAndUid, Released, release_records, Updated, update_records}
use spiderpool.Pool.Release.Ownership.{
  is_released, release_records_lem, all_named, renewed, update_records_lem,
}
use spiderpool.Pool.Priority.{Selectors}
use spiderpool.Pool.Affinity.{
  PodTopController, new_auto_pool_pod_affinity, is_match_auto_pool_affinity, is_match-new,
}

abbrev ip_text : ℕ → Text
ip_text i = show (v4_prefix + i)

abbrev older : Allocation
older = record { namespaced_name = codes "ns/b"; pod_uid = codes "ub" }

abbrev newer : Allocation
newer = record { namespaced_name = codes "ns/a"; pod_uid = codes "ua" }

abbrev first_ip : Text
first_ip = ip_text 0xa00_0001

abbrev second_ip : Text
second_ip = ip_text 0xa00_0002

abbrev records : Allocations
records = (first_ip, older) ∷ []

abbrev pool_of : Stored → ℕ → ℕ → IpPool
pool_of m c v = record {
  name = codes "pool-a";
  ip_version = 4;
  ips = (first_ip ++ b'-' ∷ second_ip) ∷ [];
  exclude_ips = [];
  allocated_ips = m;
  allocated_ip_count = some c;
  resource_version = v;
}

abbrev pool : IpPool
pool = pool_of (json records) 1 7

abbrev pod : Pod
pod = record {
  namespace = codes "ns";
  name = codes "a";
  uid = codes "ua";
  controller_name = codes "a";
  is_kubevirt_vmi = false;
}

abbrev config : Config
config = record { enable_kubevirt_static_ip = false; max_allocated_ips = 10 }

abbrev no_reserved : ℕ → Result (List Ip)
no_reserved v = ok []

abbrev quiet : Cluster
quiet = record { others = λ k p. p; fails = λ k. false }

quiet-IsVersioned : IsVersioned quiet
quiet-IsVersioned k p h = refl

abbrev after : IpPool
after = pool_of (json ((first_ip, older) ∷ (second_ip, newer) ∷ [])) 2 8

allocated :
    allocate_ip sample 10 config no_reserved quiet pool pod
    ≡ (after, ok (bytes16 (v4_prefix + 0xa00_0002)))
unfolding allocate_ip settled text_eq split_on contains_code insert
allocated = refl

retried :
    retry_on_conflict quiet (allocate_once sample 10 config no_reserved pod) default_steps pool
    ≡ (after, ok (bytes16 (v4_prefix + 0xa00_0002)))
unfolding allocate_ip
retried = allocated

retry_on_conflict_lem_example :
    (j : ℕ) × (u : IpPool) × History quiet
      (allocate_once sample 10 config no_reserved pod)
      default_steps
      pool
      (suc j)
      u
    × Applied quiet
        (allocate_once sample 10 config no_reserved pod)
        j
        u
        after
        (bytes16 (v4_prefix + 0xa00_0002))
retry_on_conflict_lem_example =
    retry_on_conflict_lem quiet (allocate_once sample 10 config no_reserved pod) quiet-IsVersioned
      default_steps pool after (bytes16 (v4_prefix + 0xa00_0002)) retried

allocate_ip-IsAllocation_example :
    (j : ℕ) × (u r : IpPool) × History quiet
      (allocate_once sample 10 config no_reserved pod)
      default_steps
      pool
      (suc j)
      u
    × (quiet.others j u ≡ u)
    × IsAllocation sample 10 config no_reserved pod u r (bytes16 (v4_prefix + 0xa00_0002))
    × (after ≡ written r)
allocate_ip-IsAllocation_example =
    allocate_ip-IsAllocation sample 10 config no_reserved sample_laws quiet pool after pod
      (bytes16 (v4_prefix + 0xa00_0002)) quiet-IsVersioned allocated

abbrev both : Allocations
both = (first_ip, older) ∷ (second_ip, newer) ∷ []

abbrev stale : List IpAndUid
stale =
    record { ip = first_ip; uid = codes "ua" } ∷ record { ip = second_ip; uid = codes "ua" } ∷ []

abbrev before_release : Released
before_release = record { records = both; count = 2; release = false }

release_records_lem_example :
    lookup first_ip (release_records stale before_release).records
    ≡ (if is_released stale first_ip (lookup first_ip both) then none else lookup first_ip both)
release_records_lem_example = release_records_lem stale first_ip before_release

update_records_lem_example :
    (all_named (codes "ns/a") stale both ≡ false
      → update_records (codes "ns/a") stale (both, false) ≡ err data_broken)
    × (all_named (codes "ns/a") stale both ≡ true
        → (t : Updated) × (update_records (codes "ns/a") stale (both, false) ≡ ok t)
          × ((ip : Text) → lookup ip t.0 ≡ renewed stale ip (lookup ip both)))
update_records_lem_example = update_records_lem (codes "ns/a") stale (both, false)

abbrev plain : Selectors ℕ
plain = record {
  pod_affinity = none;
  node_name = [];
  node_affinity = none;
  namespace_name = codes "ns" ∷ [];
  namespace_affinity = none;
  multus_name = [];
}

abbrev bound : Selectors ℕ
bound = record plain { pod_affinity = some 1; namespace_name = [] }

abbrev bare_pod : PodTopController
bare_pod = record {
  api_version = codes "v1";
  kind = codes "Pod";
  namespace = codes "ns";
  name = codes "a";
}

is_match-new_example :
    is_match_auto_pool_affinity (some (new_auto_pool_pod_affinity bare_pod)) bare_pod
    ≡ (contains_code b'/' bare_pod.api_version || text_eq bare_pod.api_version [])
is_match-new_example = is_match-new bare_pod
