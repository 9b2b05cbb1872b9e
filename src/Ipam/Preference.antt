-- ===== src/Ipam/Preference.antt =====
-- pkg/ipam/pool_selections.go: where the candidate pools come from, and in which order the sources are
-- asked; the wildcards in pool names of pkg/ippoolmanager/ippool_manager.go.
pub mod Wildcards
use spiderpool.Prelude.{
  ℕ, Bool, true, false, not, List, [], ◌∷◌, ◌++◌, Option, none, some, Text, codes, lookup, insert,
  ◌==◌, is_some, all, filter, map, if◌then◌else◌,
}
use spiderpool.Pool.Affinity.{has_wildcard_in_str, has_wildcard_in_slice}
use spiderpool.Ipam.Nics.{Item, Checked, validate_and_mutate, anno_pod_ip_pools}
use spiderpool.Ipam.Nics
use spiderpool.Ipam.Facts.{CandidatePool}
use spiderpool.Ipam.Candidates.{PoolMap, Candidate, ToBeAllocated}

pub data PreferenceError : Type 0 where
  list_failed match_failed decode_failed bad_interfaces namespace_failed : PreferenceError
  subnet_failed subnet_disabled no_default_pool nil_version : PreferenceError

pub data Sourced {ℓ} (A : Type ℓ) : Type ℓ where
  ok : A → Sourced A
  err : PreferenceError → Sourced A

infixl 5 ◌>>=◌
abbrev pub ◌>>=◌ {ℓ κ} : {A : Type ℓ} {B : Type κ} → Sourced A → (A → Sourced B) → Sourced B
ok a >>= f = f a
err e >>= f = err e

-- `filepath.Match` of a pattern and a name, none for a malformed pattern, and `ListIPPools`: the names
-- of the pools of a version, and the default pools; none where a query fails.
pub record Pools : Type 0 where
  pub match_name : Text → Text → Option Bool
  pub list_version : ℕ → Option (List Text)
  pub list_default : Option (List CandidatePool)

-- The pools that match, before `rest`
unfoldable pub matching : (Text → Text → Option Bool) → Text → List Text → Sourced (List Text)
matching match_name pattern [] = ok []
matching match_name pattern (n ∷ ns) = elim (match_name pattern n) [
  | none ↦ err match_failed
  | some b ↦ matching match_name pattern ns >>= λ rest. ok (if b then n ∷ rest else rest)
]

unfoldable pub expand_names :
    (Text → Text → Option Bool) → List Text → List Text → Sourced (List Text)
unfolding has_wildcard_in_str matching
expand_names match_name pools [] = ok []
expand_names match_name pools (s ∷ names) =
    let here : Sourced (List Text) =
      if has_wildcard_in_str s then matching match_name s pools else ok (s ∷ []) in
    here >>= λ first. expand_names match_name pools names >>= λ rest. ok (first ++ rest)

-- `ParseWildcardPoolNameList`, the names that its callers go on with.
unfoldable pub parse_wildcard_pool_name_list : Pools → List Text → ℕ → Sourced (List Text)
unfolding has_wildcard_in_slice expand_names
parse_wildcard_pool_name_list p names version =
    if has_wildcard_in_slice names
    then elim (p.list_version version) [
      | none ↦ err list_failed
      | some pools ↦ expand_names p.match_name pools names
    ]
    else ok names

-- No names are not resolved.
abbrev pub resolve : Pools → ℕ → List Text → Sourced (List Text)
unfolding parse_wildcard_pool_name_list
resolve p version [] = ok []
resolve p version (n ∷ ns) = parse_wildcard_pool_name_list p (n ∷ ns) version

abbrev pub candidate_of : ℕ → List Text → PoolMap → List Candidate
candidate_of version [] m = []
candidate_of version (n ∷ ns) m =
    record { ip_version = version; pools = n ∷ ns; to_ip_pool = m } ∷ []

-- The candidates of an interface, of pools that are given by name
unfoldable pub of_names : Pools → Text → Bool → List Text → List Text → Sourced ToBeAllocated
unfolding parse_wildcard_pool_name_list
of_names p nic clean_gateway v4 v6 = resolve p 4 v4 >>= λ v4'. resolve p 6 v6 >>= λ v6'.
    ok (record {
      nic = nic;
      clean_gateway = clean_gateway;
      candidates = candidate_of 4 v4' [] ++ candidate_of 6 v6' [];
    })

-- The decoded value of an annotation of pools: IPv4 and IPv6.
abbrev pub Names : Type 0
Names = List Text × List Text

-- `value` is the decoded annotation, none where `json.Unmarshal` fails.
unfoldable pub get_pool_from_pod_anno_pool :
    Pools → Option Names → Text → Bool → Sourced ToBeAllocated
unfolding of_names
get_pool_from_pod_anno_pool p none nic clean_gateway = err decode_failed
get_pool_from_pod_anno_pool p (some (v4, v6)) nic clean_gateway = of_names p nic clean_gateway v4 v6

-- `GetNSDefaultPools` of the namespace: none where the query or the decoding fails.
unfoldable pub get_pool_from_ns :
    Pools → Option Names → Text → Bool → Sourced (Option ToBeAllocated)
unfolding of_names
get_pool_from_ns p none nic clean_gateway = err namespace_failed
get_pool_from_ns p (some ([], [])) nic clean_gateway = ok none
get_pool_from_ns p (some (v4, v6)) nic clean_gateway =
    of_names p nic clean_gateway v4 v6 >>= λ t. ok (some t)

unfoldable pub get_pool_from_net_conf : Pools → Names → Text → Bool → Sourced (Option ToBeAllocated)
unfolding of_names
get_pool_from_net_conf p ([], []) nic clean_gateway = ok none
get_pool_from_net_conf p (v4, v6) nic clean_gateway =
    of_names p nic clean_gateway v4 v6 >>= λ t. ok (some t)

-- Whether a pool is of IPv4.
abbrev pub is_v4 : CandidatePool → Bool
is_v4 q = elim q.ip_version [ none ↦ false | some v ↦ v == 4 ]

abbrev pub names_of : List CandidatePool → List Text
names_of [] = []
names_of (q ∷ qs) = q.name ∷ names_of qs

unfoldable pub map_of : List CandidatePool → PoolMap → PoolMap
unfolding insert
map_of [] m = m
map_of (q ∷ qs) m = map_of qs (insert q.name q m)

-- The candidate of the pools of one version
abbrev pub default_candidate : ℕ → List CandidatePool → List Candidate
unfolding map_of
default_candidate version qs = candidate_of version (names_of qs) (map_of qs [])

-- A pool without a version is dereferenced as nil, which panics.
unfoldable pub get_cluster_default_pools : Pools → Text → Bool → Sourced ToBeAllocated
unfolding map_of
get_cluster_default_pools p nic clean_gateway = elim p.list_default [
  | none ↦ err list_failed
  | some [] ↦ err no_default_pool
  | some (q ∷ qs) ↦
      if not (all (λ (x : CandidatePool). is_some x.ip_version) (q ∷ qs))
      then err nil_version
      else ok (record {
        nic = nic;
        clean_gateway = clean_gateway;
        candidates =
            default_candidate 4 (filter is_v4 (q ∷ qs))
            ++ default_candidate 6 (filter (λ x. not (is_v4 x)) (q ∷ qs));
      })
]

-- The items of the annotation `ippools`, their wildcards replaced
unfoldable pub resolve_items : Pools → List Item → Sourced (List Item)
unfolding parse_wildcard_pool_name_list
resolve_items p [] = ok []
resolve_items p (x ∷ xs) = resolve p 4 x.ipv4_pools >>= λ v4. resolve p 6 x.ipv6_pools >>= λ v6.
    resolve_items p xs >>= λ rest. ok (record x { ipv4_pools = v4; ipv6_pools = v6 } ∷ rest)

abbrev pub to_be_allocated : Item → ToBeAllocated
to_be_allocated x = record {
  nic = x.nic;
  clean_gateway = x.clean_gateway;
  candidates = candidate_of 4 x.ipv4_pools [] ++ candidate_of 6 x.ipv6_pools [];
}

abbrev pub of_checked : Checked (List Item) → Sourced (List ToBeAllocated)
of_checked (Nics.err e) = err bad_interfaces
of_checked (Nics.ok items) = ok (map to_be_allocated items)

unfoldable pub get_pool_from_pod_anno_pools :
    (ℕ → Text) → Pools → Option (List Item) → Text → Sourced (List ToBeAllocated)
unfolding resolve_items validate_and_mutate
get_pool_from_pod_anno_pools itoa p none nic = err decode_failed
get_pool_from_pod_anno_pools itoa p (some items) nic =
    resolve_items p items >>= λ xs. of_checked (validate_and_mutate itoa xs nic)

abbrev pub anno_pod_ip_pool : Text
anno_pod_ip_pool = codes "ipam.spidernet.io/ippool"

-- What the sources hold. `from_subnet` is what `getPoolFromSubnetAnno` answers, none for an error;
-- the decoders are `json.Unmarshal` of the values of the two annotations.
pub record Sources : Type 0 where
  pub enable_spider_subnet : Bool
  pub enable_auto_pool : Bool
  pub from_subnet : Option (Option ToBeAllocated)
  pub has_subnets_annotation : Bool
  pub annotations : List (Text × Text)
  pub decode_pools : Text → Option (List Item)
  pub decode_pool : Text → Option Names
  pub namespace_pools : Option Names
  pub net_conf_pools : Names
  pub clean_gateway : Bool

abbrev pub or_source :
    Sourced (Option ToBeAllocated) → Sourced (List ToBeAllocated) → Sourced (List ToBeAllocated)
or_source (err e) next = err e
or_source (ok none) next = next
or_source (ok (some t)) next = ok (t ∷ [])

-- The SpiderSubnet of the annotations, none where they have none.
unfoldable pub get_pool_from_subnet : Sources → Sourced (Option ToBeAllocated)
get_pool_from_subnet s =
    if s.enable_spider_subnet
    then if s.enable_auto_pool
      then elim s.from_subnet [ none ↦ err subnet_failed | some t ↦ ok t ]
      else if s.has_subnets_annotation
      then err subnet_disabled
      else ok none
    else ok none

unfoldable pub get_pool_candidates :
    (ℕ → Text) → Pools → Sources → Text → Sourced (List ToBeAllocated)
unfolding lookup get_pool_from_subnet get_pool_from_pod_anno_pools get_pool_from_pod_anno_pool
    get_pool_from_ns get_pool_from_net_conf get_cluster_default_pools
get_pool_candidates itoa p s nic =
    or_source (get_pool_from_subnet s) (elim (lookup anno_pod_ip_pools s.annotations) [
      | some value ↦ get_pool_from_pod_anno_pools itoa p (s.decode_pools value) nic
      | none ↦ elim (lookup anno_pod_ip_pool s.annotations) [
        | some value ↦
            get_pool_from_pod_anno_pool p (s.decode_pool value) nic s.clean_gateway >>= λ t.
            ok (t ∷ [])
        | none ↦ or_source (get_pool_from_ns p s.namespace_pools nic s.clean_gateway) (
            or_source (get_pool_from_net_conf p s.net_conf_pools nic s.clean_gateway)
              (get_cluster_default_pools p nic s.clean_gateway >>= λ t. ok (t ∷ [])))
      ]
    ])
