-- ===== src/Ipam/Allocate.antt =====
-- pkg/ipam/allocate.go and ipam.go: the allocation of an address for a candidate, and the cache of
-- what a failed allocation has already obtained.
pub mod First
use spiderpool.Prelude.{
  ℕ, zero, suc, Bool, true, false, not, ◌&&◌, List, [], ◌∷◌, Option, none, some, Text, text_eq,
  lookup, insert, remove, length, any, ◌==◌, if◌then◌else◌,
}
use spiderpool.Endpoint.Records.{SpecRoute, Route, IpConfig, AllocationResult, convert_spec_routes}
use spiderpool.Ipam.Facts.{CandidatePool}
use spiderpool.Ipam.Candidates.{PoolMap, Candidate, ToBeAllocated}

-- `failureCache.entries`, by the uid of the pod
abbrev pub FailureCache : Type 0
FailureCache = List (Text × List AllocationResult)

unfoldable pub add_failure_ips : Text → List AllocationResult → FailureCache → FailureCache
unfolding insert
add_failure_ips uid results c = insert uid results c

-- A missing key and a nil slice are alike.
unfoldable pub get_failure_ips : Text → FailureCache → List AllocationResult
unfolding lookup
get_failure_ips uid c = elim (lookup uid c) [ none ↦ [] | some results ↦ results ]

unfoldable pub rm_failure_ips : Text → FailureCache → FailureCache
unfolding remove
rm_failure_ips uid c = remove uid c

-- Whether a cached result is of this pool and this interface.
abbrev pub is_reusable : Text → AllocationResult → Text × CandidatePool → Bool
is_reusable nic old (k, p) = text_eq old.ip.ip_pool p.name && text_eq old.ip.nic nic

-- The routes of the first pool of the map that fits.
abbrev pub reuse_routes : Text → AllocationResult → PoolMap → Option (List Route)
reuse_routes nic old [] = none
reuse_routes nic old ((k, p) ∷ m) =
    if is_reusable nic old (k, p)
    then some (convert_spec_routes nic p.routes)
    else reuse_routes nic old m

-- The two loops over the cached results and the pools of the candidate
unfoldable pub find_reusable :
    Text → Bool → PoolMap → List AllocationResult → Option AllocationResult
unfolding text_eq convert_spec_routes
find_reusable nic clean_gateway m [] = none
find_reusable nic clean_gateway m (old ∷ olds) = elim (reuse_routes nic old m) [
  | some routes ↦ some (record old { routes = routes; clean_gateway = clean_gateway })
  | none ↦ find_reusable nic clean_gateway m olds
]

-- What the steps after the allocation do: `iaas` is none without a provider, else whether its call
-- succeeds; `grouped` and `patched` say whether `groupCustomRoutes` and
-- `PatchIPAllocationResults` succeed.
pub record Later : Type 0 where
  pub iaas : Option Bool
  pub grouped : List AllocationResult → Bool
  pub patched : List AllocationResult → Bool

-- The deferred function: `failed` is whether the variable `err` is set.
unfoldable pub keep_failure :
    Text → Bool → Bool → List AllocationResult → FailureCache → FailureCache
unfolding add_failure_ips rm_failure_ips
keep_failure uid multiple true [] f = if multiple then rm_failure_ips uid f else f
keep_failure uid multiple true (r ∷ rs) f =
    if multiple then rm_failure_ips uid f else add_failure_ips uid (r ∷ rs) f
keep_failure uid multiple false results f = rm_failure_ips uid f

abbrev iaas_failed : Option Bool → Bool
iaas_failed (some false) = true
iaas_failed _ = false

-- Whether the call succeeds, and whether `err` is set when it returns: a failed call of the
-- provider returns an error that `err` does not hold.
abbrev pub outcome : Later → ℕ → List AllocationResult → Bool × Bool
outcome l errs results =
    if not (errs == 0)
    then (false, true)
    else if iaas_failed l.iaas
    then (false, false)
    else if not (l.grouped results)
    then (false, true)
    else if not (l.patched results)
    then (false, true)
    else (true, false)

-- `State` is what the IPPool manager works on, `allocate_ip` its `AllocateIP` for the pod and the
-- interface, none for an error.
module _ {State : Type 0} (allocate_ip : State → Text → State × Option IpConfig) where
  -- The routes of a pool; a missing pool would be dereferenced as nil.
  abbrev pub routes_of : Option CandidatePool → List SpecRoute
  routes_of none = []
  routes_of (some p) = p.routes

  abbrev pub result_of : Text → Bool → PoolMap → Text → IpConfig → AllocationResult
  unfolding lookup convert_spec_routes
  result_of nic clean_gateway m pool ip = record {
    ip = ip;
    routes = convert_spec_routes nic (routes_of (lookup pool m));
    clean_gateway = clean_gateway;
  }

  -- The loop over the pools, with the number of errors.
  unfoldable pub try_pools :
      Text → Bool → PoolMap → List Text → ℕ → State → State × ℕ × Option AllocationResult
  try_pools nic clean_gateway m [] errs s = (s, errs, none)
  try_pools nic clean_gateway m (pool ∷ pools) errs s =
      let (t, r) = allocate_ip s pool in
      elim r [
        | none ↦ try_pools nic clean_gateway m pools (suc errs) t
        | some ip ↦ (t, errs, some (result_of nic clean_gateway m pool ip))
      ]

  abbrev pub unless_all_failed :
      ℕ → State × ℕ × Option AllocationResult → State × Option AllocationResult
  unless_all_failed n (s, errs, r) = if errs == n then (s, none) else (s, r)

  -- none is an error.
  unfoldable pub allocate_ip_from_candidate :
      Text → Bool → List AllocationResult → Candidate → State → State × Option AllocationResult
  unfolding find_reusable try_pools
  allocate_ip_from_candidate nic clean_gateway cached c s =
      elim (find_reusable nic clean_gateway c.to_ip_pool cached) [
        | some r ↦ (s, some r)
        | none ↦
            unless_all_failed (length c.pools)
              (try_pools nic clean_gateway c.to_ip_pool c.pools 0 s)
      ]

  -- What the goroutines of all candidates obtain, and the number of their errors.
  pub record Obtained : Type 0 where
    pub state : State
    pub results : List AllocationResult
    pub errs : ℕ

  abbrev count_result : State × Option AllocationResult → (State → Obtained) → Obtained
  count_result (s, none) rest = let o = rest s in record o { errs = suc o.errs }
  count_result (s, some r) rest = let o = rest s in record o { results = r ∷ o.results }

  unfoldable pub allocate_candidates :
      Text → Bool → List AllocationResult → List Candidate → (State → Obtained) → State → Obtained
  unfolding allocate_ip_from_candidate
  allocate_candidates nic clean_gateway cached [] rest s = rest s
  allocate_candidates nic clean_gateway cached (c ∷ cs) rest s =
      count_result (allocate_ip_from_candidate nic clean_gateway cached c s)
        (allocate_candidates nic clean_gateway cached cs rest)

  -- `allocateIPsFromAllCandidates`, once the tickets are granted: the goroutines one after another.
  unfoldable pub allocate_ips_from_all_candidates :
      List AllocationResult → List ToBeAllocated → State → Obtained
  unfolding allocate_candidates
  allocate_ips_from_all_candidates cached [] s = record { state = s; results = []; errs = 0 }
  allocate_ips_from_all_candidates cached (t ∷ ts) s =
      allocate_candidates t.nic t.clean_gateway cached t.candidates
        (allocate_ips_from_all_candidates cached ts) s

  pub record Finished : Type 0 where
    pub state : State
    pub cache : FailureCache
    pub results : List AllocationResult
    pub success : Bool

  -- `allocateInStandardMode`, from the deferred function on.
  unfoldable pub allocate_in_standard_mode :
      Later → Text → Bool → List ToBeAllocated → FailureCache → State → Finished
  unfolding get_failure_ips allocate_ips_from_all_candidates keep_failure
  allocate_in_standard_mode l uid multiple ts f s =
      let o = allocate_ips_from_all_candidates (get_failure_ips uid f) ts s in
      let (success, failed) = outcome l o.errs o.results in
      record {
        state = o.state;
        cache = keep_failure uid multiple failed o.results f;
        results = o.results;
        success = success;
      }
