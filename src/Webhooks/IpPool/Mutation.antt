-- ===== src/Webhooks/IpPool/Mutation.antt =====
-- pkg/ippoolmanager/ippool_mutate.go: what the webhook fills in. pkg/subnetmanager/subnet_mutate.go
-- does the same for the fields that both have.
use spiderpool.Prelude.{
  ℕ, Bool, true, false, List, [], ◌∷◌, Option, none, some, Text, text_eq, lookup, insert, filter,
  length, ltb, if◌then◌else◌,
}
use spiderpool.Net.Textual.{NetText}
use spiderpool.Ip.Result as Ip
use spiderpool.Ip.Format.{is_ipv4_cidr, is_ipv6_cidr}
use spiderpool.Ip.LabelValue.{cidr_to_label_value}
use spiderpool.Ip.Range.{merge_ip_ranges}
use spiderpool.Pool.Affinity.{Labels}
use spiderpool.Endpoint.Records.{SpecRoute}
use spiderpool.Webhooks.Objects.{
  PoolObject, SubnetObject, Owner, label_ip_pool_cidr, label_subnet_cidr, label_owner_spider_subnet,
  has_label,
}
pub use spiderpool.Prelude.Fallible.{Fallible, ok, err, ◌>>=◌}

pub data MutateError : Type 0 where
  no_version bad_label set_controller_failed merge_failed out_of_fuel : MutateError

abbrev pub Mutated {ℓ} : Type ℓ → Type ℓ
Mutated A = Fallible MutateError A

abbrev pub from_ip {ℓ} : {A : Type ℓ} → MutateError → Ip.Result A → Mutated A
from_ip e (Ip.ok a) = ok a
from_ip e (Ip.err x) = err e
from_ip e Ip.diverge = err out_of_fuel

-- `labels[k] = v`, unless it is there
abbrev pub set_label : Text → Text → Labels → Labels
unfolding has_label insert
set_label k v labels = if has_label k v labels then labels else insert k v labels

-- What a pool takes over, unless it has its own; empty routes of a pool are its own.
abbrev pub inherit_gateway : Option Text → Option Text → Option Text
inherit_gateway (some g) none = some g
inherit_gateway _ own = own

abbrev pub inherit_routes :
    Option (List SpecRoute) → Option (List SpecRoute) → Option (List SpecRoute)
inherit_routes (some (r ∷ rs)) none = some (r ∷ rs)
inherit_routes _ own = own

unfoldable pub inherit_subnet_properties : SubnetObject → PoolObject → PoolObject
inherit_subnet_properties s p = record p {
  gateway = inherit_gateway s.gateway p.gateway;
  routes = inherit_routes s.routes p.routes;
}

abbrev pub is_controlled_by : Option Owner → SubnetObject → Bool
unfolding text_eq
is_controlled_by none s = false
is_controlled_by (some o) s = text_eq o.uid s.uid

-- Whether the label names the owner of the pool
abbrev pub is_owner_label : Option Text → Option Owner → Bool
unfolding text_eq
is_owner_label (some v) (some o) = text_eq v o.name
is_owner_label _ _ = false

module _ (n : NetText) (fuel : ℕ) where
  unfoldable pub generate_version : Option ℕ → Text → Mutated ℕ
  unfolding is_ipv4_cidr is_ipv6_cidr
  generate_version (some v) subnet = ok v
  generate_version none subnet =
      if is_ipv4_cidr n subnet then ok 4 else if is_ipv6_cidr n subnet then ok 6 else err no_version

  -- More than one range is merged.
  unfoldable pub merge_if_many : ℕ → List Text → Mutated (List Text)
  unfolding merge_ip_ranges
  merge_if_many version rs =
      if ltb 1 (length rs) then from_ip merge_failed (merge_ip_ranges n fuel version rs) else ok rs

  -- The list of the subnets, none for an error; `set_controller_reference` is that of
  -- controller-runtime, none for an error.
  module _ (subnets : Option (List SubnetObject))
      (set_controller_reference : SubnetObject → PoolObject → Option PoolObject) where
    abbrev pub controlled : SubnetObject → PoolObject → Mutated PoolObject
    unfolding text_eq
    controlled s p =
        if is_controlled_by p.controller s then ok p else elim (set_controller_reference s p) [
          | none ↦ err set_controller_failed
          | some q ↦ ok q
        ]

    unfoldable pub set_controller_subnet :
        ℕ → PoolObject → Mutated (PoolObject × Option SubnetObject)
    unfolding lookup insert text_eq cidr_to_label_value has_label
    set_controller_subnet version p =
        if is_owner_label (lookup label_owner_spider_subnet p.labels) p.controller
        then ok (p, none)
        else (from_ip bad_label (cidr_to_label_value n version p.subnet) >>= λ cidr. elim subnets [
          | none ↦ err set_controller_failed
          | some ss ↦
              elim (filter (λ (s : SubnetObject). has_label label_subnet_cidr cidr s.labels) ss) [
                | [] ↦ ok (p, none)
                | s ∷ rest ↦ controlled s p >>= λ q. ok (
                  record q { labels = set_label label_owner_spider_subnet s.name q.labels },
                  some s,
                )
              ]
        ])

    abbrev inherit : PoolObject × Option SubnetObject → PoolObject
    unfolding inherit_subnet_properties
    inherit (p, none) = p
    inherit (p, some s) = inherit_subnet_properties s p

    abbrev take_over : Bool → ℕ → PoolObject → Mutated PoolObject
    unfolding set_controller_subnet inherit_subnet_properties
    take_over false version p = ok p
    take_over true version p = set_controller_subnet version p >>= λ q. ok (inherit q)

    unfoldable pub mutate_ip_pool : Bool → PoolObject → Mutated PoolObject
    unfolding generate_version cidr_to_label_value has_label insert set_controller_subnet
        inherit_subnet_properties merge_if_many
    mutate_ip_pool enable_spider_subnet p =
        if p.deleting
        then ok p
        else (generate_version p.version p.subnet >>= λ v.
            from_ip bad_label (cidr_to_label_value n v p.subnet) >>= λ cidr.
            take_over enable_spider_subnet v (record p {
              has_finalizer = true;
              version = some v;
              labels = set_label label_ip_pool_cidr cidr p.labels;
            })
            >>= λ q. merge_if_many v q.ips >>= λ ips.
                merge_if_many v q.exclude_ips >>= λ exclude_ips.
                ok (record q { ips = ips; exclude_ips = exclude_ips }))

  unfoldable pub mutate_subnet : SubnetObject → Mutated SubnetObject
  unfolding generate_version cidr_to_label_value has_label insert merge_if_many
  mutate_subnet s =
      if s.deleting
      then ok s
      else (generate_version s.version s.subnet >>= λ v.
          from_ip bad_label (cidr_to_label_value n v s.subnet) >>= λ cidr.
          merge_if_many v s.ips >>= λ ips. merge_if_many v s.exclude_ips >>= λ exclude_ips.
          ok (record s {
            has_finalizer = true;
            version = some v;
            labels = set_label label_subnet_cidr cidr s.labels;
            ips = ips;
            exclude_ips = exclude_ips;
          }))
