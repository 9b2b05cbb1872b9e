-- ===== src/Ipam/Allocate/First.antt =====
-- The address that a candidate gets, and that a failed allocation leaves for the next.
use spiderpool.Prelude.{
  ℕ, suc, ◌+◌, ◌≡◌, refl, sym, ap, ◌∙◌, Bool, true, false, List, [], ◌∷◌, Option, none, some, Text,
  text_eq, text_eq_refl, lookup, lookup-insert, length, is_some, In, ◌==◌, arith, Bool-cases,
  Option-cases, inl, inr,
}
use spiderpool.Endpoint.Records.{IpConfig, AllocationResult}
use spiderpool.Ipam.Facts.{CandidatePool}
use spiderpool.Ipam.Candidates.{PoolMap, Candidate, ToBeAllocated}
use spiderpool.Ipam.Allocate.{
  FailureCache, add_failure_ips, get_failure_ips, is_reusable, reuse_routes, find_reusable,
  result_of, try_pools, unless_all_failed, allocate_ip_from_candidate, Obtained, Later,
  keep_failure, outcome, allocate_in_standard_mode, allocate_ips_from_all_candidates,
}

module _ {State : Type 0} (allocate_ip : State → Text → State × Option IpConfig) where
  -- The address of the first pool, in order, that has one; every pool before it is asked once.
  abbrev pub first_success : List Text → State → State × Option (Text × IpConfig)
  first_success [] s = (s, none)
  first_success (pool ∷ pools) s =
      let (t, r) = allocate_ip s pool in
      elim r [ none ↦ first_success pools t | some ip ↦ (t, some (pool, ip)) ]

  abbrev pub with_routes :
      Text → Bool → PoolMap → State × Option (Text × IpConfig) → State × Option AllocationResult
  with_routes nic clean_gateway m (s, none) = (s, none)
  with_routes nic clean_gateway m (s, some (pool, ip)) =
      (s, some (result_of allocate_ip nic clean_gateway m pool ip))

  -- The errors are counted right.
  try_pools_lem :
      (nic : Text) (clean_gateway : Bool) (m : PoolMap) (pools : List Text) (errs n : ℕ) (s : State)
      → n ≡ errs + length pools
      → unless_all_failed allocate_ip n (try_pools allocate_ip nic clean_gateway m pools errs s)
        ≡ with_routes nic clean_gateway m (first_success pools s)
  unfolding try_pools
  try_pools_lem nic cg m [] errs n s h = let e : (errs == n) ≡ true = ground arith in rw e refl
  try_pools_lem nic cg m (pool ∷ pools) errs n s h = elim (Option-cases (allocate_ip s pool).1) [
    | inl fails ↦
        rw (try_pools, first_success, fails)
          (try_pools_lem nic cg m pools (suc errs) n (allocate_ip s pool).0 (omega (arith, h)))
    | inr (ip, succeeds) ↦
        let e : (errs == n) ≡ false = ground arith in
        rw (try_pools, first_success, succeeds, e) refl
  ]

  -- A candidate for which nothing is cached gets an address of the first of its pools, in order,
  -- that has one, with that pool's routes; it fails exactly if all its pools fail.
  pub allocate_ip_from_candidate-first :
      (nic : Text) (clean_gateway : Bool) (cached : List AllocationResult) (c : Candidate)
      (s : State)
      → find_reusable nic clean_gateway c.to_ip_pool cached ≡ none
      → allocate_ip_from_candidate allocate_ip nic clean_gateway cached c s
        ≡ with_routes nic clean_gateway c.to_ip_pool (first_success c.pools s)
  unfolding allocate_ip_from_candidate
  allocate_ip_from_candidate-first nic cg cached c s h =
      rw (allocate_ip_from_candidate, h)
        (try_pools_lem nic cg c.to_ip_pool c.pools 0 (length c.pools) s (omega arith))

  -- A cached result that is for a pool of the map.
  reuse_routes_lem :
      (nic : Text) (old : AllocationResult) (m : PoolMap) (k : Text) (p : CandidatePool)
      → lookup k m ≡ some p
      → p.name ≡ old.ip.ip_pool
      → old.ip.nic ≡ nic
      → is_some (reuse_routes nic old m) ≡ true
  unfolding lookup
  reuse_routes_lem nic old [] k p h e g = cc
  reuse_routes_lem nic old ((j, q) ∷ m) k p h e g = elim (Bool-cases (is_reusable nic old (j, q))) [
    | inl fits ↦ rw fits refl
    | inr other ↦ elim (Bool-cases (text_eq j k)) [
      | inr later ↦ rw other (reuse_routes_lem nic old m k p (rw later at h) e g)
      | inl here ↦
          let same : some q ≡ some p = rw here at h in
          let qp : q ≡ p = some_injective q p same in
          let yes : is_reusable nic old (j, q) ≡ true =
            rw (qp, e, g, text_eq_refl old.ip.ip_pool, text_eq_refl nic) refl in
          let clash : true ≡ false = sym yes ∙ other in cc
    ]
  ]
    where
      some_injective : (x y : CandidatePool) → some x ≡ some y → x ≡ y
      some_injective x y z = cc

  abbrev Reused : Text → Bool → PoolMap → List AllocationResult → Type 0
  Reused nic cg m olds =
      (q r : AllocationResult) × In q olds × (find_reusable nic cg m olds ≡ some r) × (r.ip ≡ q.ip)

  find_reusable_lem :
      (nic : Text) (cg : Bool) (m : PoolMap) (olds : List AllocationResult) (old : AllocationResult)
      → In old olds
      → is_some (reuse_routes nic old m) ≡ true
      → Reused nic cg m olds
  unfolding find_reusable
  find_reusable_lem nic cg m [] old i h = elim i [ ]
  find_reusable_lem nic cg m (x ∷ xs) old i h = elim (Option-cases (reuse_routes nic x m)) [
    | inr (routes, fits) ↦ (
      x,
      record x { routes = routes; clean_gateway = cg },
      inl refl,
      rw (find_reusable, fits) refl,
      refl,
    )
    | inl misses ↦ elim i [
      | inl e ↦
          let there : is_some (reuse_routes nic x m) ≡ true =
            ap (λ o. is_some (reuse_routes nic o m)) (sym e) ∙ h in
          let clash : false ≡ true = ap is_some (sym misses) ∙ there in cc
      | inr later ↦
          let (q, r, at_q, found, same) = find_reusable_lem nic cg m xs old later h in
          (q, r, inr at_q, rw (find_reusable, misses) found, same)
    ]
  ]

  keep_failure_lem :
      (uid : Text) (results : List AllocationResult) (r : AllocationResult) (f : FailureCache)
      → In r results
      → get_failure_ips uid (keep_failure uid false true results f) ≡ results
  unfolding keep_failure get_failure_ips add_failure_ips
  keep_failure_lem uid [] r f i = elim i [ ]
  keep_failure_lem uid (x ∷ xs) r f i =
      rw (get_failure_ips, lookup-insert uid uid (x ∷ xs) f, text_eq_refl uid) refl

  -- The call returns with `err` set.
  abbrev pub Fails : Later → Obtained allocate_ip → Type 0
  Fails l o = (outcome l o.errs o.results).1 ≡ true

  -- After an allocation that failed with `err` set, for a pod whose interfaces have names, the next
  -- allocation of an interface for which the failed one had obtained an address, from a candidate that
  -- still has the address's pool, takes an address that the failed one obtained and asks no pool.
  pub allocate_in_standard_mode-retry :
      (l : Later) (uid : Text) (ts : List ToBeAllocated) (f : FailureCache) (s t : State)
      (old : AllocationResult) (cg : Bool) (c : Candidate) (k : Text) (p : CandidatePool)
      → Fails l (allocate_ips_from_all_candidates allocate_ip (get_failure_ips uid f) ts s)
      → In old (allocate_in_standard_mode allocate_ip l uid false ts f s).results
      → lookup k c.to_ip_pool ≡ some p
      → p.name ≡ old.ip.ip_pool
      → (q r : AllocationResult) × In q
          (allocate_in_standard_mode allocate_ip l uid false ts f s).results
        × (allocate_ip_from_candidate allocate_ip old.ip.nic cg
              (get_failure_ips uid (allocate_in_standard_mode allocate_ip l uid false ts f s).cache)
              c
              t
            ≡ (t, some r))
        × (r.ip ≡ q.ip)
  unfolding allocate_in_standard_mode allocate_ip_from_candidate
  allocate_in_standard_mode-retry l uid ts f s t old cg c k p failed i held own =
      let results =
        (allocate_ips_from_all_candidates allocate_ip (get_failure_ips uid f) ts s).results in
      let (q, r, at_q, found, same) =
        find_reusable_lem old.ip.nic cg c.to_ip_pool results old i
          (reuse_routes_lem old.ip.nic old c.to_ip_pool k p held own refl) in
      let kept = keep_failure_lem uid results old f i in
      (q, r, at_q, rw (failed, kept, allocate_ip_from_candidate, found) refl, same)
