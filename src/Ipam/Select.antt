-- ===== src/Ipam/Select.antt =====
-- pkg/ipam/allocate.go, `selectByPod`: whether a pool may serve an interface of a pod.
use spiderpool.Prelude.{
  ℕ, suc, Bool, true, false, not, ◌||◌, List, [], ◌∷◌, ◌++◌, Option, none, some, Text, codes,
  text_eq, contains_code, lookup, any, if◌then◌else◌,
}
use spiderpool.Pool.Affinity.{PodTopController, is_match_auto_pool_affinity}
use spiderpool.Pool.Priority.{named}
use spiderpool.Multus.Networks.{NetworkElement, Parsed, parse_pod_network_annotation}
use spiderpool.Multus.Networks
use spiderpool.Ipam.Facts.{
  CandidatePool, Check, Refusal, SelectFacts, SelectPod, check_named, check_selector, check_version,
  disabled_pool, namespace_query, namespace_selector, network_failed, nil_pool, no_cluster_network,
  no_multus_object, no_net_namespace, no_network, node_query, node_selector, other_auto_pool,
  other_multus, other_namespace, other_namespace_affinity, other_node, other_node_affinity,
  other_pf_subnet, other_pod_affinity, parse_networks, pass, pod_selector, refuse, require,
  terminating_pool, ◌then◌,
}

-- The part before the pod's affinity
unfoldable pub check_placement : SelectFacts → ℕ → SelectPod → CandidatePool → Check
unfolding text_eq
check_placement f version pod p =
    require (not p.terminating) terminating_pool
    then require (not p.disable) disabled_pool
    then check_version version p
    then check_named p.selectors.node_name pod.node_name other_node (
        check_selector node_query node_selector other_node_affinity f.node_labels
          p.selectors.node_affinity)
    then check_named p.selectors.namespace_name pod.namespace other_namespace (
        check_selector namespace_query namespace_selector other_namespace_affinity
          f.namespace_labels p.selectors.namespace_affinity)

abbrev pub owner_application_name : Text
owner_application_name = codes "ipam.spidernet.io/owner-application-name"

-- `IsAutoCreatedIPPool`
unfoldable pub is_auto_created_ip_pool : CandidatePool → Bool
unfolding lookup
is_auto_created_ip_pool p = elim (lookup owner_application_name p.labels) [
  | none ↦ false
  | some v ↦ true
]

pub record Network : Type 0 where
  pub namespace : Text
  pub name : Text

pub data Sought : Type 0 where
  found : Network → Sought
  refused : Refusal → Sought

abbrev pub default_net_annot : Text
default_net_annot = codes "v1.multus-cni.io/default-network"

abbrev pub network_attachment_annot : Text
network_attachment_annot = codes "k8s.v1.cni.cncf.io/networks"

-- An annotation's value, the empty text where there is none.
abbrev pub value_of : Option Text → Text
value_of none = []
value_of (some v) = v

abbrev pub or_else : Text → Text → Text
or_else [] d = d
or_else (c ∷ s) d = c ∷ s

-- The network of the default object
unfoldable pub default_network : SelectFacts → Text → Sought
unfolding parse_pod_network_annotation
default_network f obj = elim (parse_networks f obj f.agent_namespace) [
  | Networks.err e ↦ refused network_failed
  | Networks.ok [] ↦ refused no_network
  | Networks.ok (e ∷ es) ↦
      found (record { namespace = or_else e.namespace f.agent_namespace; name = e.name })
]

unfoldable pub first_network : SelectFacts → SelectPod → Sought
unfolding lookup default_network
first_network f pod = elim (value_of (lookup default_net_annot pod.annotations)) [
  | [] ↦ elim f.multus_cluster_network [
    | none ↦ refused no_cluster_network
    | some obj ↦ default_network f obj
  ]
  | c ∷ s ↦ default_network f (c ∷ s)
]

-- The loop over the elements; `i` is the index plus one.
unfoldable pub find_network : SelectFacts → Text → Text → ℕ → List NetworkElement → Sought
unfolding text_eq
find_network f nic pod_namespace i [] = refused no_multus_object
find_network f nic pod_namespace i (e ∷ es) =
    let request = or_else e.interface_request (codes "net" ++ f.itoa i) in
    let rest = find_network f nic pod_namespace (suc i) es in
    if text_eq nic request || text_eq nic (f.itoa i)
    then found (record { namespace = or_else e.namespace pod_namespace; name = e.name })
    else rest

abbrev pub default_interface : Text
default_interface = codes "eth0"

-- The network of an interface: of the first one, or of an additional one.
unfoldable pub network_of : SelectFacts → SelectPod → Text → Sought
unfolding text_eq lookup first_network find_network parse_pod_network_annotation
network_of f pod nic =
    if text_eq nic default_interface || text_eq nic (f.itoa 0)
    then first_network f pod
    else elim (parse_networks f (value_of (lookup network_attachment_annot pod.annotations))
        pod.namespace) [
          | Networks.err e ↦ refused network_failed
          | Networks.ok es ↦ find_network f nic pod.namespace 1 es
        ]

-- A name without a namespace is in the agent's.
abbrev pub expected_name : SelectFacts → Text → Text
expected_name f name = if contains_code b'/' name then name else f.agent_namespace ++ b'/' ∷ name

abbrev pub has_network : SelectFacts → Network → List Text → Bool
has_network f w = any (λ name. text_eq (expected_name f name) (w.namespace ++ b'/' ∷ w.name))

abbrev pub check_master : SelectFacts → Bool → Option Text → CandidatePool → Text → Check
check_master f false net_namespace p nic = pass
check_master f true none p nic = refuse no_net_namespace
check_master f true (some []) p nic = refuse no_net_namespace
check_master f true (some (c ∷ s)) p nic =
    require (f.pf_subnet_matches (c ∷ s) p.subnet nic) other_pf_subnet

-- The checks of the Multus network and of the node's subnet
unfoldable pub check_network :
    SelectFacts → SelectPod → Text → Option Text → Bool → CandidatePool → Check
unfolding text_eq contains_code network_of
check_network f pod nic net_namespace match_master_subnet p = elim (network_of f pod nic) [
  | refused r ↦ refuse r
  | found w ↦
      if named p.selectors.multus_name
      then require (has_network f w p.selectors.multus_name) other_multus
      else check_master f match_master_subnet net_namespace p nic
]

-- From the pod's affinity on; that of an auto-created pool decides alone.
unfoldable pub check_pod_affinity :
    SelectFacts → SelectPod → PodTopController → CandidatePool → Check → Check
unfolding is_auto_created_ip_pool is_match_auto_pool_affinity
check_pod_affinity f pod controller p network = elim p.selectors.pod_affinity [
  | none ↦ network
  | some s ↦
      if is_auto_created_ip_pool p
      then require (is_match_auto_pool_affinity s.match_labels controller) other_auto_pool
      else check_selector pod_selector pod_selector other_pod_affinity (some pod.labels) (some s)
        then network
]

-- The arguments of a call
pub record Request : Type 0 where
  pub pod : SelectPod
  pub controller : PodTopController
  pub nic : Text
  pub net_namespace : Option Text
  pub match_master_subnet : Bool

unfoldable pub select_by_pod : SelectFacts → Request → ℕ → Option CandidatePool → Check
unfolding check_placement check_network check_pod_affinity
select_by_pod f r version none = refuse nil_pool
select_by_pod f r version (some p) =
    check_placement f version r.pod p
    then check_pod_affinity f r.pod r.controller p
        (check_network f r.pod r.nic r.net_namespace r.match_master_subnet p)
