-- ===== src/Tests/Ipam.antt =====
-- The theorems of the IPAM on one interface with two pools.
use spiderpool.Prelude.{
  ◌≡◌, inl, inr, refl, sym, ap, ◌∙◌, ℕ, suc, true, false, not, List, [], ◌∷◌, ◌++◌, Option, none,
  some, Text, codes, text_eq, text_eq_iff, Bool-cases, lookup, any, filter, length, In, ◌==◌,
  if◌then◌else◌,
}
use Prim.Native.String.{String}
use spiderpool.Endpoint.Records.{SpecRoute, IpConfig, AllocationResult, Detail, Endpoint}
use spiderpool.Ipam.Nics.{mem}
use spiderpool.Ipam.Select.{Request}
use spiderpool.Ipam.Facts.{CandidatePool, SelectFacts}
use spiderpool.Ipam.Candidates as Candidates
use spiderpool.Ipam.Candidates.{
  PoolMap, pools_of, Candidate, ToBeAllocated, precheck_candidate, filter_candidate, sort_candidate,
}
use spiderpool.Ipam.Candidates.Names.{Agrees}
use spiderpool.Ipam.Candidates.Chosen.{Chosen, choose, choose-Chosen}
use spiderpool.Ipam.Allocate.{
  Later, get_failure_ips, find_reusable, allocate_ip_from_candidate, allocate_in_standard_mode,
  allocate_ips_from_all_candidates,
}
use spiderpool.Ipam.Allocate.First.{
  Fails, with_routes, first_success, allocate_ip_from_candidate-first,
  allocate_in_standard_mode-retry,
}
use spiderpool.Ipam.Outdated.{
  is_expected, delete_unless, remove_finalizer, patch_ips, release_ips,
  release_sts_outdated_ip_if_need,
}
use spiderpool.Ipam.Outdated.Partition.{is_outdated, release_sts_outdated_ip_if_need_lem}
use spiderpool.Tests.Net.{sample}
use spiderpool.Tests.Parsing.{digit}

abbrev route : SpecRoute
route = record { dst = codes "10.0.0.0/8"; gw = codes "10.0.0.1" }

-- A pool with these nodes
abbrev pool : String → List Text → CandidatePool
pool name nodes = record {
  name = codes name;
  labels = [];
  terminating = false;
  disable = false;
  ip_version = some 4;
  subnet = codes "10.0.0.0/8";
  routes = route ∷ [];
  selectors = record {
    pod_affinity = none;
    node_name = nodes;
    node_affinity = none;
    namespace_name = [];
    namespace_affinity = none;
    multus_name = [];
  };
}

abbrev facts : SelectFacts
facts = record {
  multus_cluster_network = some (codes "kube-system/macvlan");
  agent_namespace = codes "kube-system";
  node_labels = none;
  namespace_labels = none;
  net_text = sample;
  parse_mac = λ s. true;
  decode = λ s. none;
  itoa = digit;
  pf_subnet_matches = λ n s i. false;
}

abbrev request : Request
request = record {
  pod = record { namespace = codes "ns"; node_name = codes "n1"; labels = []; annotations = [] };
  controller = record {
    api_version = codes "apps/v1";
    kind = codes "StatefulSet";
    namespace = codes "ns";
    name = codes "a";
  };
  nic = codes "eth0";
  net_namespace = none;
  match_master_subnet = false;
}

abbrev fetch : Text → Option CandidatePool
fetch n =
    if text_eq n (codes "a")
    then some (pool "a" [])
    else if text_eq n (codes "b")
    then some (pool "b" (codes "n1" ∷ []))
    else if text_eq n (codes "c")
    then some (pool "c" (codes "n2" ∷ []))
    else none

abbrev candidate : Candidate
candidate = record {
  ip_version = 4;
  pools = codes "a" ∷ codes "b" ∷ codes "c" ∷ [];
  to_ip_pool = [];
}

-- The pool of the node comes first, that of another node is left out.
abbrev best : Candidate
best = record {
  ip_version = 4;
  pools = codes "b" ∷ codes "a" ∷ [];
  to_ip_pool = (codes "a", pool "a" []) ∷ (codes "b", pool "b" (codes "n1" ∷ [])) ∷ [];
}

chosen : choose fetch facts request candidate ≡ Candidates.ok best
unfolding precheck_candidate filter_candidate sort_candidate text_eq
chosen = refl

fetch-Agrees : Agrees fetch
fetch-Agrees k p e = elim (Bool-cases (text_eq k (codes "a"))) [
  | inl a ↦ named (pool "a" []) p (rw a at e) ∙ sym ((text_eq_iff k (codes "a")).0 a)
  | inr not_a ↦ elim (Bool-cases (text_eq k (codes "b"))) [
    | inl b ↦
        named (pool "b" (codes "n1" ∷ [])) p (rw (not_a, b) at e)
        ∙ sym ((text_eq_iff k (codes "b")).0 b)
    | inr not_b ↦ elim (Bool-cases (text_eq k (codes "c"))) [
      | inl c ↦
          named (pool "c" (codes "n2" ∷ [])) p (rw (not_a, not_b, c) at e)
          ∙ sym ((text_eq_iff k (codes "c")).0 c)
      | inr not_c ↦ let q : none ≡ some p = rw (not_a, not_b, not_c) at e in cc
    ]
  ]
]
  where
    same : (q p : CandidatePool) → some q ≡ some p → q ≡ p
    same q p e = cc

    named : (q p : CandidatePool) → some q ≡ some p → p.name ≡ q.name
    named q p e = ap (λ (x : CandidatePool). x.name) (sym (same q p e))

none-Agrees : Agrees (λ k. lookup k [])
unfolding lookup
none-Agrees k p e = cc

nothing_held : (k : Text) → mem k candidate.pools ≡ false → lookup k candidate.to_ip_pool ≡ none
unfolding lookup
nothing_held k e = refl

choose-Chosen_example : Chosen fetch facts request candidate best
choose-Chosen_example =
    choose-Chosen fetch facts request candidate fetch-Agrees none-Agrees nothing_held best tt chosen

-- Pool `a` is used up; the state counts the calls.
abbrev allocate : ℕ → Text → ℕ × Option IpConfig
allocate n name = if text_eq name (codes "a") then (suc n, none) else (
  suc n,
  some (record {
    nic = codes "eth0";
    address = codes "10.0.0.5/8";
    ip_pool = name;
    version = 4;
    gateway = [];
    vlan = 0;
    mac = [];
  }),
)

abbrev later : Candidate
later = record best { pools = codes "a" ∷ codes "b" ∷ [] }

no_cache : find_reusable (codes "eth0") false later.to_ip_pool [] ≡ none
unfolding find_reusable
no_cache = refl

allocate_ip_from_candidate-first_example :
    allocate_ip_from_candidate allocate (codes "eth0") false [] later 0
    ≡ with_routes allocate
        (codes "eth0")
        false
        later.to_ip_pool
        (first_success allocate later.pools 0)
allocate_ip_from_candidate-first_example =
    allocate_ip_from_candidate-first allocate (codes "eth0") false [] later 0 no_cache

abbrev obtained : AllocationResult
obtained = record {
  ip = record {
    nic = codes "eth0";
    address = codes "10.0.0.5/8";
    ip_pool = codes "b";
    version = 4;
    gateway = [];
    vlan = 0;
    mac = [];
  };
  routes = record { if_name = codes "eth0"; dst = codes "10.0.0.0/8"; gw = codes "10.0.0.1" } ∷ [];
  clean_gateway = false;
}

abbrev unpatched : Later
unpatched = record { iaas = none; grouped = λ rs. true; patched = λ rs. false }

abbrev wanted : List ToBeAllocated
wanted = record { nic = codes "eth0"; clean_gateway = false; candidates = later ∷ [] } ∷ []

failing :
    Fails allocate unpatched
      (allocate_ips_from_all_candidates allocate (get_failure_ips (codes "u") []) wanted 0)
unfolding allocate_ips_from_all_candidates get_failure_ips text_eq
failing = refl

had :
    In obtained (allocate_in_standard_mode allocate unpatched (codes "u") false wanted [] 0).results
unfolding allocate_in_standard_mode text_eq
had = inl refl

held : lookup (codes "b") best.to_ip_pool ≡ some (pool "b" (codes "n1" ∷ []))
unfolding lookup text_eq
held = refl

allocate_in_standard_mode-retry_example :
    (q r : AllocationResult) × In q
      (allocate_in_standard_mode allocate unpatched (codes "u") false wanted [] 0).results
    × (allocate_ip_from_candidate allocate
          (codes "eth0")
          false
          (get_failure_ips
            (codes "u")
            (allocate_in_standard_mode allocate unpatched (codes "u") false wanted [] 0).cache)
          best
          2
        ≡ (2, some r))
    × (r.ip ≡ q.ip)
allocate_in_standard_mode-retry_example =
    allocate_in_standard_mode-retry allocate unpatched (codes "u") wanted [] 0 2 obtained false best
      (codes "b") (pool "b" (codes "n1" ∷ [])) failing had held refl

abbrev detail : String → String → Detail
detail nic name = record {
  nic = codes nic;
  ipv4 = some (codes "10.0.0.5/8");
  ipv6 = none;
  ipv4_pool = some (codes name);
  ipv6_pool = none;
  vlan = some 0;
  ipv4_gateway = none;
  ipv6_gateway = none;
  clean_gateway = none;
  routes = [];
  mac = none;
}

abbrev endpoint : List Detail → Endpoint
endpoint ips = record {
  namespace = codes "ns";
  name = codes "a-0";
  deleting = false;
  has_finalizer = true;
  owned_by_pod = false;
  uid = codes "u";
  node = codes "n1";
  ips = ips;
  owner_controller_type = codes "StatefulSet";
  owner_controller_name = codes "a";
}

abbrev two_nics : Endpoint
two_nics = endpoint (detail "eth0" "old" ∷ detail "net1" "x" ∷ [])

release_sts_outdated_ip_if_need_lem_example :
    release_sts_outdated_ip_if_need wanted digit false (codes "eth0") two_nics ≡ (
      if not (any (is_outdated wanted (codes "eth0")) two_nics.ips)
      then []
      else if length (filter (is_outdated wanted (codes "eth0")) two_nics.ips)
          == length two_nics.ips
      then delete_unless two_nics.deleting ++ (remove_finalizer ∷ release_ips two_nics.ips ∷ [])
      else patch_ips (filter (λ d. not (is_outdated wanted (codes "eth0") d)) two_nics.ips)
        ∷ release_ips (filter (is_outdated wanted (codes "eth0")) two_nics.ips)
        ∷ [])
release_sts_outdated_ip_if_need_lem_example =
    release_sts_outdated_ip_if_need_lem wanted digit (codes "eth0") two_nics

-- The candidates of an annotation without names
abbrev unnamed : List ToBeAllocated
unnamed = record { nic = codes "0"; clean_gateway = false; candidates = later ∷ [] } ∷ []

expected : is_expected unnamed (digit 0) (codes "b") ≡ true
unfolding is_expected text_eq pools_of
expected = refl

unexpected : is_expected unnamed (codes "eth0") (codes "b") ≡ false
unfolding is_expected text_eq
unexpected = refl
