-- ===== src/Endpoint/Manager/Patched.antt =====
-- What a patch adds to an endpoint, and that a name is found again.
use spiderpool.Prelude.{
  ◌≡◌, refl, sym, ap, subst, ℕ, ◌∙◌, Bool, true, false, ◌||◌, List, [], ◌∷◌, ◌++◌, Option, some,
  Text, text_eq, text_eq_iff, arith, Bool-cases, inl, inr,
}
use spiderpool.Pool.Affinity.{PodTopController}
use spiderpool.Ipam.Nics.{mem}
use spiderpool.Ipam.Nics.Distinct.{Distinct}
use spiderpool.Endpoint.Records.{AllocationResult, Detail, Endpoint}
use spiderpool.Endpoint.Details.{convert_results_to_ip_details}
use spiderpool.Endpoint.Details.Converted.{result_nics, convert_results_to_ip_details-Distinct}
use spiderpool.Endpoint.Manager.{
  update, EndpointPod, Switches, nic_names, append_missing, patch_ip_allocation_results,
}

mem-nic_names-append :
    (k : Text) (ds : List Detail) (r : Detail)
    → mem k (nic_names (ds ++ r ∷ [])) ≡ (mem k (nic_names ds) || text_eq k r.nic)
mem-nic_names-append k [] r = or_false (text_eq k r.nic)
  where
    or_false : (b : Bool) → (b || false) ≡ b
    or_false true = refl
    or_false false = refl
mem-nic_names-append k (d ∷ ds) r =
    ap (λ b. text_eq k d.nic || b) (mem-nic_names-append k ds r) ∙ or_assoc (text_eq k d.nic) _ _
  where
    or_assoc : (a b c : Bool) → (a || (b || c)) ≡ ((a || b) || c)
    or_assoc true b c = refl
    or_assoc false b c = refl

append-Distinct :
    (ds : List Detail) (r : Detail)
    → mem r.nic (nic_names ds) ≡ false
    → Distinct (nic_names ds)
    → Distinct (nic_names (ds ++ r ∷ []))
append-Distinct [] r h d = (refl, tt)
append-Distinct (x ∷ ds) r h d = (
  mem-nic_names-append x.nic ds r
      ∙ fresh (text_eq x.nic r.nic) (text_eq r.nic x.nic) _ _ (text_eq_sym x.nic r.nic) h d.0,
  append-Distinct ds r (later (text_eq r.nic x.nic) _ h) d.1,
)
  where
    text_eq_sym : (a b : Text) → text_eq a b ≡ text_eq b a
    text_eq_sym a b = ground (arith, text_eq_iff a b, text_eq_iff b a)

    fresh : (a b c d : Bool) → a ≡ b → (b || c) ≡ false → d ≡ false → (d || a) ≡ false
    fresh a b c d e h g = ground arith

    later : (b c : Bool) → (b || c) ≡ false → c ≡ false
    later b c h = ground arith

-- The details `ds` with those of `rs` whose interfaces are new
abbrev Appended : List Detail → List Detail → List Detail → Type 0
Appended ds rs out =
    ((added : List Detail) × (out ≡ ds ++ added))
    × Distinct (nic_names out)
    × ((k : Text) → mem k (nic_names out) ≡ (mem k (nic_names ds) || mem k (nic_names rs)))

append_missing-Appended :
    (ds rs : List Detail) → Distinct (nic_names ds) → Appended ds rs (append_missing ds rs)
unfolding append_missing
append_missing-Appended ds [] d =
    (([], sym (append_empty ds)), d, λ k. or_false (mem k (nic_names ds)))
  where
    append_empty : (xs : List Detail) → xs ++ [] ≡ xs
    append_empty [] = refl
    append_empty (x ∷ xs) = ap (λ ys. x ∷ ys) (append_empty xs)

    or_false : (b : Bool) → b ≡ (b || false)
    or_false true = refl
    or_false false = refl
append_missing-Appended ds (r ∷ rs) d = elim (Bool-cases (mem r.nic (nic_names ds))) [
  | inl there ↦
      let (pre, distinct, same) = append_missing-Appended ds rs d in
      rw there (pre, distinct, λ k. same k ∙ known k (text_eq k r.nic) _ _ (member k there))
  | inr new ↦
      let ((added, pre), distinct, same) =
        append_missing-Appended (ds ++ r ∷ []) rs (append-Distinct ds r new d) in
      rw new (
        (r ∷ added, pre ∙ append_assoc ds added),
        distinct,
        λ k.
            same k
            ∙ ap (λ b. b || mem k (nic_names rs)) (mem-nic_names-append k ds r)
            ∙ or_assoc (mem k (nic_names ds)) _ _,
      )
]
  where
    append_assoc : (xs ys : List Detail) → (xs ++ r ∷ []) ++ ys ≡ xs ++ (r ∷ ys)
    append_assoc [] ys = refl
    append_assoc (x ∷ xs) ys = ap (λ zs. x ∷ zs) (append_assoc xs ys)

    or_assoc : (a b c : Bool) → ((a || b) || c) ≡ (a || (b || c))
    or_assoc true b c = refl
    or_assoc false b c = refl

    member :
        (k : Text)
        → mem r.nic (nic_names ds) ≡ true
        → text_eq k r.nic ≡ true
        → mem k (nic_names ds) ≡ true
    member k there e =
        subst (λ n. mem n (nic_names ds) ≡ true) (sym ((text_eq_iff k r.nic).0 e)) there

    known : (k : Text) (a b c : Bool) → (a ≡ true → b ≡ true) → (b || c) ≡ (b || (a || c))
    known k true b c h = rw (h refl) refl
    known k false b c h = refl

-- Where interfaces have names, a patch of an endpoint of the pod, whose details have different
-- interfaces, keeps these details in front and adds others, so that the endpoint then has a detail
-- for exactly the interfaces that it had and those of the results, and no interface is there twice.
pub patch_ip_allocation_results-Named :
    (s : Switches) (owner_set : Bool) (atoi : Text → Option ℕ) (results : List AllocationResult)
    (e : Endpoint) (pod : EndpointPod) (c : PodTopController)
    → e.uid ≡ pod.uid
    → Distinct (nic_names e.ips)
    → (ips : List Detail) × (patch_ip_allocation_results s owner_set atoi results
          (some e)
          (some pod)
          c
          false
        ≡ update (record e { ips = ips }))
      × ((added : List Detail) × (ips ≡ e.ips ++ added))
      × Distinct (nic_names ips)
      × ((k : Text)
          → mem k (nic_names ips) ≡ (mem k (nic_names e.ips) || mem k (result_nics results)))
unfolding patch_ip_allocation_results
patch_ip_allocation_results-Named s owner_set atoi results e pod c same d =
    let own : text_eq e.uid pod.uid ≡ true = (text_eq_iff e.uid pod.uid).1 same in
    let details = convert_results_to_ip_details atoi results false in
    let (pre, distinct, nics) = append_missing-Appended e.ips details d in
    (
      append_missing e.ips details,
      rw own refl,
      pre,
      distinct,
      λ k.
          nics k
          ∙ ap (λ b. mem k (nic_names e.ips) || b)
              ((convert_results_to_ip_details-Distinct atoi results).1 k),
    )
