-- ===== src/Pool/Priority.antt =====
-- pkg/ippoolmanager/utils.go, `ByPoolPriority`: the order in which the candidate pools are tried.
use spiderpool.Prelude.{
  ℕ, ◌+◌, ◌*◌, ◌<◌, ◌≡◌, refl, ap, ◌∙◌, Bool, true, false, not, ◌&&◌, List, Text, Option, ltb,
  length, is_some, if◌then◌else◌, arith,
}

-- The fields of `IPPoolSpec` that the order reads; a selector is only tested for nil.
pub record Selectors (Selector : Type 0) : Type 0 where
  pub pod_affinity : Option Selector
  pub node_name : List Text
  pub node_affinity : Option Selector
  pub namespace_name : List Text
  pub namespace_affinity : Option Selector
  pub multus_name : List Text

-- Two tests of one field of both pools that return, and what follows.
abbrev pub prefer : Bool → Bool → Bool → Bool
prefer a b rest = if a && not b then true else if not a && b then false else rest

abbrev pub named : List Text → Bool
named names = ltb 0 (length names)

unfoldable pub less : {S : Type 0} → Selectors S → Selectors S → Bool
less p q = prefer (is_some p.pod_affinity) (is_some q.pod_affinity) (
    prefer (named p.node_name) (named q.node_name) (
      prefer (is_some p.node_affinity) (is_some q.node_affinity) (
        prefer (named p.namespace_name) (named q.namespace_name) (
          prefer (is_some p.namespace_affinity) (is_some q.namespace_affinity)
            (prefer (named p.multus_name) (named q.multus_name) false)))))

-- The weight of a property with what weaker properties weigh.
abbrev pub weight : ℕ → Bool → ℕ → ℕ
weight k true rest = k + rest
weight k false rest = rest

abbrev pub priority : {S : Type 0} → Selectors S → ℕ
priority p = weight 32 (is_some p.pod_affinity) (
    weight 16 (named p.node_name) (
      weight 8 (is_some p.node_affinity) (
        weight 4 (named p.namespace_name)
          (weight 2 (is_some p.namespace_affinity) (weight 1 (named p.multus_name) 0)))))

weight_lt : (k : ℕ) (a : Bool) (x : ℕ) → x < k → weight k a x < 2 * k
weight_lt k true x h = omega arith
weight_lt k false x h = omega arith

prefer_lem :
    (k : ℕ) (a b : Bool) (x y : ℕ)
    → x < k
    → y < k
    → prefer a b (ltb y x) ≡ ltb (weight k b y) (weight k a x)
prefer_lem k true true x y hx hy = ground arith
prefer_lem k true false x y hx hy = ground arith
prefer_lem k false true x y hx hy = ground arith
prefer_lem k false false x y hx hy = refl

-- `Less` is the comparison of one number: pod affinity outweighs node names, these a node
-- affinity, then namespaces, a namespace affinity, and Multus names.
pub less_lem : {S : Type 0} (p q : Selectors S) → less p q ≡ ltb (priority q) (priority p)
unfolding less
less_lem p q =
    let p1 = weight 1 (named p.multus_name) 0 in
    let q1 = weight 1 (named q.multus_name) 0 in
    let p2 = weight 2 (is_some p.namespace_affinity) p1 in
    let q2 = weight 2 (is_some q.namespace_affinity) q1 in
    let p3 = weight 4 (named p.namespace_name) p2 in
    let q3 = weight 4 (named q.namespace_name) q2 in
    let p4 = weight 8 (is_some p.node_affinity) p3 in
    let q4 = weight 8 (is_some q.node_affinity) q3 in
    let p5 = weight 16 (named p.node_name) p4 in
    let q5 = weight 16 (named q.node_name) q4 in
    let bp1 : p1 < 2 = weight_lt 1 _ 0 (omega arith) in
    let bq1 : q1 < 2 = weight_lt 1 _ 0 (omega arith) in
    let bp2 : p2 < 4 = weight_lt 2 _ p1 bp1 in
    let bq2 : q2 < 4 = weight_lt 2 _ q1 bq1 in
    let bp3 : p3 < 8 = weight_lt 4 _ p2 bp2 in
    let bq3 : q3 < 8 = weight_lt 4 _ q2 bq2 in
    let bp4 : p4 < 16 = weight_lt 8 _ p3 bp3 in
    let bq4 : q4 < 16 = weight_lt 8 _ q3 bq3 in
    let bp5 : p5 < 32 = weight_lt 16 _ p4 bp4 in
    let bq5 : q5 < 32 = weight_lt 16 _ q4 bq4 in
    ap (prefer _ _) (
      ap (prefer _ _) (
        ap (prefer _ _) (
          ap (prefer _ _) (
            ap (prefer _ _) (
              prefer_lem 1 (named p.multus_name) (named q.multus_name) 0 0 (omega arith)
                (omega arith))
            ∙ prefer_lem 2 (is_some p.namespace_affinity) (is_some q.namespace_affinity) p1 q1 bp1
                bq1)
          ∙ prefer_lem 4 (named p.namespace_name) (named q.namespace_name) p2 q2 bp2 bq2)
        ∙ prefer_lem 8 (is_some p.node_affinity) (is_some q.node_affinity) p3 q3 bp3 bq3)
      ∙ prefer_lem 16 (named p.node_name) (named q.node_name) p4 q4 bp4 bq4)
    ∙ prefer_lem 32 (is_some p.pod_affinity) (is_some q.pod_affinity) p5 q5 bp5 bq5
