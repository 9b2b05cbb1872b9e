-- ===== src/Ipam/Candidates.antt =====
-- pkg/ipam/allocate.go, types.go and config.go: the candidate pools of the interfaces, from
-- `checkIPVersionEnable` to `sortPoolCandidates`.
pub mod Names
pub mod Chosen
use spiderpool.Prelude.{
  ℕ, Bool, true, false, ◌&&◌, ◌||◌, List, [], ◌∷◌, ◌++◌, Option, none, some, Text, text_eq, lookup,
  insert, remove, any, map, filter, ◌==◌, if◌then◌else◌,
}
use spiderpool.Pool.Priority.{less}
use spiderpool.Ipam.Nics.{mem}
use spiderpool.Ipam.Select.{Request, select_by_pod}
use spiderpool.Ipam.Facts.{CandidatePool, SelectFacts, Check, pass, refuse}

abbrev pub PoolMap : Type 0
PoolMap = List (Text × CandidatePool)

-- `PoolCandidate`
pub record Candidate : Type 0 where
  pub ip_version : ℕ
  pub pools : List Text
  pub to_ip_pool : PoolMap

pub record ToBeAllocated : Type 0 where
  pub nic : Text
  pub clean_gateway : Bool
  pub candidates : List Candidate

pub data CandidateError : Type 0 where
  duplicate_pool get_failed no_available_pool : CandidateError

pub data Outcome {ℓ} (A : Type ℓ) : Type ℓ where
  ok : A → Outcome A
  err : CandidateError → Outcome A

infixl 5 ◌>>=◌
abbrev pub ◌>>=◌ {ℓ κ} : {A : Type ℓ} {B : Type κ} → Outcome A → (A → Outcome B) → Outcome B
ok a >>= f = f a
err e >>= f = err e

-- `ToBeAllocated.Pools`, the tickets of the limiter
unfoldable pub pools_of : List Candidate → List Text
pools_of [] = []
pools_of (c ∷ cs) = c.pools ++ pools_of cs

-- `ToBeAllocateds.Pools`
unfoldable pub all_pools : List ToBeAllocated → List Text
unfolding pools_of
all_pools [] = []
all_pools (t ∷ ts) = pools_of t.candidates ++ all_pools ts

unfoldable pub all_candidates : List ToBeAllocated → List Candidate
all_candidates [] = []
all_candidates (t ∷ ts) = t.candidates ++ all_candidates ts

-- Whether the configuration has the version.
abbrev pub is_enabled : Bool → Bool → Candidate → Bool
is_enabled enable_ipv4 enable_ipv6 c =
    (c.ip_version == 4 && enable_ipv4) || (c.ip_version == 6 && enable_ipv6)

unfoldable pub filter_pool_misspecified : Bool → Bool → ToBeAllocated → ToBeAllocated
filter_pool_misspecified enable_ipv4 enable_ipv6 t = record t {
  candidates = filter (is_enabled enable_ipv4 enable_ipv6) t.candidates;
}

-- The loop of `precheckPoolCandidates` over the names; `fetch` is `GetIPPoolByName`.
unfoldable pub precheck_pools :
    (Text → Option CandidatePool) → List Text → List Text → PoolMap → Outcome PoolMap
unfolding lookup insert
precheck_pools fetch marks [] m = ok m
precheck_pools fetch marks (n ∷ ns) m =
    if mem n marks then err duplicate_pool else elim (lookup n m) [
      | some p ↦ precheck_pools fetch (n ∷ marks) ns m
      | none ↦ elim (fetch n) [
        | none ↦ err get_failed
        | some p ↦ precheck_pools fetch (n ∷ marks) ns (insert n p m)
      ]
    ]

unfoldable pub precheck_candidate : (Text → Option CandidatePool) → Candidate → Outcome Candidate
unfolding precheck_pools
precheck_candidate fetch c =
    precheck_pools fetch [] c.pools c.to_ip_pool >>= λ m. ok (record c { to_ip_pool = m })

abbrev pub is_pass : Check → Bool
is_pass pass = true
is_pass (refuse r) = false

-- The names that stay, and the map without the others.
unfoldable pub filter_pools :
    (Option CandidatePool → Bool) → List Text → PoolMap → List Text × PoolMap
unfolding lookup remove
filter_pools selects [] m = ([], m)
filter_pools selects (n ∷ ns) m =
    if selects (lookup n m)
    then (let (rest, m') = filter_pools selects ns m in (n ∷ rest, m'))
    else filter_pools selects ns (remove n m)

abbrev pub require_pools : Candidate → List Text × PoolMap → Outcome Candidate
require_pools c ([], m) = err no_available_pool
require_pools c (n ∷ ns, m) = ok (record c { pools = n ∷ ns; to_ip_pool = m })

unfoldable pub filter_candidate : SelectFacts → Request → Candidate → Outcome Candidate
unfolding filter_pools select_by_pod
filter_candidate f r c =
    require_pools c
      (filter_pools (λ o. is_pass (select_by_pod f r c.ip_version o)) c.pools c.to_ip_pool)

-- `sort.Sort(ByPoolPriority(…))`: one of the orders that it may leave, which the order of the map
-- chooses.
unfoldable pub insert_pool : CandidatePool → List CandidatePool → List CandidatePool
unfolding less
insert_pool p [] = p ∷ []
insert_pool p (q ∷ qs) = if less q.selectors p.selectors then q ∷ insert_pool p qs else p ∷ q ∷ qs

unfoldable pub sort_pools : PoolMap → List CandidatePool
unfolding insert_pool
sort_pools [] = []
sort_pools ((k, p) ∷ m) = insert_pool p (sort_pools m)

abbrev pub names_of : List CandidatePool → List Text
names_of [] = []
names_of (p ∷ ps) = p.name ∷ names_of ps

unfoldable pub sort_candidate : Candidate → Candidate
unfolding sort_pools
sort_candidate c = record c { pools = names_of (sort_pools c.to_ip_pool) }

abbrev pub each : (Candidate → Outcome Candidate) → List Candidate → Outcome (List Candidate)
each g [] = ok []
each g (c ∷ cs) = g c >>= λ d. each g cs >>= λ ds. ok (d ∷ ds)

abbrev pub each_nic :
    (ToBeAllocated → Candidate → Outcome Candidate)
    → List ToBeAllocated
    → Outcome (List ToBeAllocated)
each_nic g [] = ok []
each_nic g (t ∷ ts) =
    each (g t) t.candidates >>= λ cs. each_nic g ts >>= λ us. ok (record t { candidates = cs } ∷ us)

-- `genToBeAllocatedSet` from the preliminary candidates on
unfoldable pub gen_to_be_allocated_set :
    Bool
    → Bool
    → (Text → Option CandidatePool)
    → SelectFacts
    → Request
    → List ToBeAllocated
    → Outcome (List ToBeAllocated)
unfolding filter_pool_misspecified precheck_candidate filter_candidate sort_candidate
gen_to_be_allocated_set enable_ipv4 enable_ipv6 fetch f r preliminary =
    each_nic (λ t. precheck_candidate fetch)
      (map (filter_pool_misspecified enable_ipv4 enable_ipv6) preliminary)
    >>= λ ts. each_nic (λ t. filter_candidate f (record r { nic = t.nic })) ts >>= λ us.
        each_nic (λ t c. ok (sort_candidate c)) us
