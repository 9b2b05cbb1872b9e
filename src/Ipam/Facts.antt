-- ===== src/Ipam/Facts.antt =====
-- pkg/ipam/allocate.go: what the selection of pools reads, and the checks of names and selectors.
use spiderpool.Prelude.{
  ℕ, Bool, true, false, List, Option, none, some, Text, text_eq, any, ◌==◌, if◌then◌else◌,
}
use spiderpool.Pool.Affinity.{Labels}
use spiderpool.Pool.Priority.{Selectors, named}
use spiderpool.Net.Textual.{NetText}
use spiderpool.Endpoint.Records.{SpecRoute}
use spiderpool.Multus.Networks.{NetworkElement, Parsed, parse_pod_network_annotation}

-- `metav1.LabelSelector`: its `matchLabels`, and `LabelSelectorAsSelector` with `Matches`, none
-- where the conversion fails.
pub record Selector : Type 0 where
  pub match_labels : Option Labels
  pub selects_labels : Labels → Option Bool

pub record CandidatePool : Type 0 where
  pub name : Text
  pub labels : Labels
  pub terminating : Bool
  pub disable : Bool
  pub ip_version : Option ℕ
  pub subnet : Text
  pub routes : List SpecRoute
  pub selectors : Selectors Selector

pub record SelectPod : Type 0 where
  pub namespace : Text
  pub node_name : Text
  pub labels : Labels
  pub annotations : List (Text × Text)

-- What the configuration and the cluster answer.
pub record SelectFacts : Type 0 where
  pub multus_cluster_network : Option Text
  pub agent_namespace : Text
  -- The labels of the pod's node and of its namespace, none where the query fails.
  pub node_labels : Option Labels
  pub namespace_labels : Option Labels
  -- `net.ParseMAC` without an error, the other texts of addresses, and `json.Unmarshal` into the
  -- elements of an annotation.
  pub net_text : NetText
  pub parse_mac : Text → Bool
  pub decode : Text → Option (List (Option NetworkElement))
  -- `strconv.Itoa`
  pub itoa : ℕ → Text
  -- `filterPoolCandidatesByPfSubnet` without an error: network namespace, subnet, interface.
  pub pf_subnet_matches : Text → Text → Text → Bool

abbrev pub parse_networks : SelectFacts → Text → Text → Parsed (List NetworkElement)
parse_networks f = parse_pod_network_annotation f.net_text f.parse_mac f.decode

pub data Refusal : Type 0 where
  nil_pool terminating_pool disabled_pool nil_version other_version : Refusal
  other_node node_query node_selector other_node_affinity : Refusal
  other_namespace namespace_query namespace_selector other_namespace_affinity : Refusal
  other_auto_pool pod_selector other_pod_affinity : Refusal
  no_cluster_network network_failed no_network no_multus_object other_multus : Refusal
  no_net_namespace other_pf_subnet : Refusal

-- A check that passes, or the reason why not.
pub data Check : Type 0 where
  pass : Check
  refuse : Refusal → Check

infixr 6 ◌then◌
abbrev pub ◌then◌ : Check → Check → Check
pass then c = c
refuse r then c = refuse r

abbrev pub require : Bool → Refusal → Check
require true r = pass
require false r = refuse r

abbrev pub contains_text : Text → List Text → Bool
contains_text t = any (text_eq t)

-- A selector on the labels of an object that is queried.
abbrev pub check_selector : Refusal → Refusal → Refusal → Option Labels → Option Selector → Check
check_selector query selector other labels none = pass
check_selector query selector other none (some s) = refuse query
check_selector query selector other (some l) (some s) = elim (s.selects_labels l) [
  | none ↦ refuse selector
  | some b ↦ require b other
]

-- Names where there are any, else the selector.
abbrev pub check_named : List Text → Text → Refusal → Check → Check
check_named names name other otherwise =
    if named names then require (contains_text name names) other else otherwise

abbrev pub check_version : ℕ → CandidatePool → Check
check_version version p = elim p.ip_version [
  | none ↦ refuse nil_version
  | some v ↦ require (v == version) other_version
]
