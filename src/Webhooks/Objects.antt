-- ===== src/Webhooks/Objects.antt =====
-- The objects of pkg/k8s/apis as the webhooks see them, where fields may be unset, and what a webhook
-- answers.
use spiderpool.Prelude.{
  ℕ, Bool, true, false, List, [], ◌∷◌, ◌++◌, Option, none, some, Text, codes, text_eq, lookup,
  is_some,
}
use spiderpool.Pool.Affinity.{Labels, prefix}
use spiderpool.Pool.Records.{Stored}
use spiderpool.Endpoint.Records.{SpecRoute}
use spiderpool.Subnets.Records.{ControlledPools}

-- The controlling owner
pub record Owner : Type 0 where
  pub name : Text
  pub uid : Text

-- A label selector; its expressions are only counted here.
pub record Affinity : Type 0 where
  pub match_labels : Labels
  pub match_expressions : ℕ

-- `SpiderIPPool`; nil and empty routes differ.
pub record PoolObject : Type 0 where
  pub name : Text
  pub deleting : Bool
  pub has_finalizer : Bool
  pub labels : Labels
  pub controller : Option Owner
  pub version : Option ℕ
  pub subnet : Text
  pub ips : List Text
  pub exclude_ips : List Text
  pub gateway : Option Text
  pub routes : Option (List SpecRoute)
  pub pod_affinity : Option Affinity
  pub allocated_ips : Stored

-- `SpiderSubnet`
pub record SubnetObject : Type 0 where
  pub name : Text
  pub uid : Text
  pub deleting : Bool
  pub has_finalizer : Bool
  pub labels : Labels
  pub version : Option ℕ
  pub subnet : Text
  pub ips : List Text
  pub exclude_ips : List Text
  pub gateway : Option Text
  pub routes : Option (List SpecRoute)
  pub controlled_ip_pools : ControlledPools

-- `SpiderReservedIP`
pub record ReservedObject : Type 0 where
  pub deleting : Bool
  pub version : Option ℕ
  pub ips : List Text

-- The enabled versions
pub record Enabled : Type 0 where
  pub ipv4 : Bool
  pub ipv6 : Bool

-- Why a webhook refuses. `panicked` is a nil pointer that is dereferenced, `out_of_fuel` a loop of
-- pkg/ip that has used up its fuel.
pub data Reason : Type 0 where
  bad_version disabled_version version_changed subnet_changed : Reason
  bad_subnet bad_ranges list_failed already_exists subnet_overlaps ranges_overlap : Reason
  bad_gateway gateway_conflict default_route duplicate_route bad_route : Reason
  extra_match_labels extra_match_expressions bad_selector empty_affinity : Reason
  corrupt_records corrupt_total used_ip_removed : Reason
  get_subnet_failed outside_subnet not_pre_allocated terminating : Reason
  panicked out_of_fuel : Reason

pub data Admission : Type 0 where
  admit : Admission
  deny : Reason → Admission

-- The `if err := …; err != nil { return err }` of the webhooks.
infixl 5 ◌and_then◌
abbrev pub ◌and_then◌ : Admission → Admission → Admission
admit and_then b = b
(deny r) and_then b = deny r

-- `field.ErrorList`
abbrev pub to_list : Admission → List Reason
to_list admit = []
to_list (deny r) = r ∷ []

abbrev pub deny_if : Bool → Reason → Admission
deny_if true r = deny r
deny_if false r = admit

-- The checks that read `*ipPool.Spec.IPVersion`
abbrev pub with_version : Option ℕ → (ℕ → List Reason) → List Reason
with_version none k = panicked ∷ []
with_version (some v) k = k v

-- The checks of a list end with the first that refuses.
abbrev pub first_then : Admission → List Reason → List Reason
first_then admit rest = rest
first_then (deny r) rest = r ∷ []

abbrev pub affinity_then : List Reason → Admission → List Reason
affinity_then [] last = to_list last
affinity_then (r ∷ rs) last = r ∷ rs

abbrev pub label_ip_pool_cidr : Text
label_ip_pool_cidr = prefix ++ codes "/ippool-cidr"

abbrev pub label_subnet_cidr : Text
label_subnet_cidr = prefix ++ codes "/subnet-cidr"

abbrev pub label_owner_application_name : Text
label_owner_application_name = prefix ++ codes "/owner-application-name"

abbrev pub label_owner_spider_subnet : Text
label_owner_spider_subnet = prefix ++ codes "/owner-spider-subnet"

-- `IsAutoCreatedIPPool`
unfoldable pub is_auto_created_ip_pool : PoolObject → Bool
unfolding lookup
is_auto_created_ip_pool p = is_some (lookup label_owner_application_name p.labels)

-- Whether a label has a value, as `client.MatchingLabels` selects
unfoldable pub has_label : Text → Text → Labels → Bool
unfolding lookup text_eq
has_label k v labels = elim (lookup k labels) [ none ↦ false | some w ↦ text_eq w v ]
