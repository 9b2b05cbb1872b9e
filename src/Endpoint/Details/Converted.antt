-- ===== src/Endpoint/Details/Converted.antt =====
-- The interfaces of the details that are made of an allocation's results.
use spiderpool.Prelude.{
  ◌≡◌, refl, sym, ap, ◌∙◌, ℕ, Bool, true, false, ◌||◌, List, [], ◌∷◌, Option, some, Text, text_eq,
  text_eq_iff, text_eq_refl, lookup, insert, lookup-insert, insert-IsMap, IsMap, is_some, arith,
  Bool-cases, Option-cases, inl, inr,
}
use spiderpool.Ipam.Nics.{mem}
use spiderpool.Ipam.Nics.Distinct.{Distinct}
use spiderpool.Endpoint.Records.{AllocationResult, Detail}
use spiderpool.Endpoint.Details.{
  NicMap, new_detail, add_to_detail, add_result, collect_results, values,
  convert_results_to_ip_details,
}
use spiderpool.Endpoint.Manager.{nic_names}

-- A detail stands under its interface.
abbrev Keyed : NicMap → Type 0
Keyed m = (k : Text) (d : Detail) → lookup k m ≡ some d → d.nic ≡ k

some_injective : (x y : Detail) → some x ≡ some y → x ≡ y
some_injective x y e = cc

insert-Keyed : (n : Text) (v : Detail) (m : NicMap) → v.nic ≡ n → Keyed m → Keyed (insert n v m)
insert-Keyed n v m e h k d q = elim (Bool-cases (text_eq n k)) [
  | inl same ↦
      let q' : some v ≡ some d = rw same at (sym (lookup-insert n k v m) ∙ q) in
      ap (λ (x : Detail). x.nic) (sym (some_injective v d q')) ∙ e ∙ (text_eq_iff n k).0 same
  | inr other ↦ h k d (rw other at (sym (lookup-insert n k v m) ∙ q))
]

-- What a result adds
abbrev Collected : AllocationResult → NicMap → NicMap → Type 0
Collected r m m' =
    IsMap m'
    × Keyed m'
    × ((k : Text) → is_some (lookup k m') ≡ (text_eq k r.ip.nic || is_some (lookup k m)))

is_some-insert :
    (n k : Text) (v : Detail) (m : NicMap)
    → is_some (lookup k (insert n v m)) ≡ (text_eq k n || is_some (lookup k m))
is_some-insert n k v m =
    ap is_some (lookup-insert n k v m) ∙ ground (arith, text_eq_iff n k, text_eq_iff k n)

add_result-Collected :
    (r : AllocationResult) (m : NicMap) → IsMap m → Keyed m → Collected r m (add_result r m)
unfolding add_result add_to_detail new_detail
add_result-Collected r m i h = elim (Option-cases (lookup r.ip.nic m)) [
  | inr (d, known) ↦
      rw (add_result, known)
        (
          insert-IsMap r.ip.nic (add_to_detail r d) m i,
          insert-Keyed r.ip.nic (add_to_detail r d) m (kept d (h r.ip.nic d known)) h,
          λ k. is_some-insert r.ip.nic k (add_to_detail r d) m,
        )
  | inl new ↦
      rw (add_result, new)
        (
          insert-IsMap r.ip.nic (new_detail r) m i,
          insert-Keyed r.ip.nic (new_detail r) m fresh h,
          λ k. is_some-insert r.ip.nic k (new_detail r) m,
        )
]
  where
    kept : (d : Detail) → d.nic ≡ r.ip.nic → (add_to_detail r d).nic ≡ r.ip.nic
    kept d e = e

    fresh : (new_detail r).nic ≡ r.ip.nic
    fresh = refl

abbrev pub result_nics : List AllocationResult → List Text
result_nics [] = []
result_nics (r ∷ rs) = r.ip.nic ∷ result_nics rs

collect_results-Collected :
    (rs : List AllocationResult) (m : NicMap)
    → IsMap m
    → Keyed m
    → IsMap (collect_results rs m)
      × Keyed (collect_results rs m)
      × ((k : Text)
          → is_some (lookup k (collect_results rs m))
            ≡ (mem k (result_nics rs) || is_some (lookup k m)))
unfolding collect_results
collect_results-Collected [] m i h = (i, h, λ k. refl)
collect_results-Collected (r ∷ rs) m i h =
    let (i', h', one) = add_result-Collected r m i h in
    let (i'', h'', all_rest) = collect_results-Collected rs (add_result r m) i' h' in
    (
      i'',
      h'',
      λ k.
          all_rest k
          ∙ ap (λ b. mem k (result_nics rs) || b) (one k)
          ∙ or_swap (mem k (result_nics rs)) (text_eq k r.ip.nic) _,
    )
  where
    or_swap : (a b c : Bool) → (a || (b || c)) ≡ ((b || a) || c)
    or_swap a b c = ground arith

Keyed-tail :
    (j : Text) (d : Detail) (m : NicMap) → IsMap ((j, d) ∷ m) → Keyed ((j, d) ∷ m) → Keyed m
unfolding lookup
Keyed-tail j d m i h k e q = h k e (ground (arith, i.0, text_eq_iff j k))

mem-values :
    (m : NicMap)
    → IsMap m
    → Keyed m
    → (k : Text) → mem k (nic_names (values m)) ≡ is_some (lookup k m)
unfolding lookup
mem-values [] i h k = refl
mem-values ((j, d) ∷ m) i h k =
    let same : d.nic ≡ j = h j d (rw (text_eq_refl j) refl) in
    ap (λ n. text_eq k n || mem k (nic_names (values m))) same
    ∙ ap (λ b. text_eq k j || b) (mem-values m i.1 (Keyed-tail j d m i h) k)
    ∙ ground (arith, text_eq_iff k j, text_eq_iff j k)

values-Distinct : (m : NicMap) → IsMap m → Keyed m → Distinct (nic_names (values m))
unfolding lookup
values-Distinct [] i h = tt
values-Distinct ((j, d) ∷ m) i h =
    let same : d.nic ≡ j = h j d (rw (text_eq_refl j) refl) in
    (
      ap (λ n. mem n (nic_names (values m))) same
          ∙ mem-values m i.1 (Keyed-tail j d m i h) j
          ∙ ap is_some i.0,
      values-Distinct m i.1 (Keyed-tail j d m i h),
    )

-- The details that are made of results, where interfaces have names, are of different interfaces,
-- and these are those of the results.
pub convert_results_to_ip_details-Distinct :
    (atoi : Text → Option ℕ) (results : List AllocationResult)
    → Distinct (nic_names (convert_results_to_ip_details atoi results false))
      × ((k : Text)
          → mem k (nic_names (convert_results_to_ip_details atoi results false))
            ≡ mem k (result_nics results))
unfolding convert_results_to_ip_details lookup
convert_results_to_ip_details-Distinct atoi results =
    let (i, h, found) = collect_results-Collected results [] tt (λ k d e. missing k d e) in
    (
      values-Distinct _ i h,
      λ k. mem-values _ i h k ∙ found k ∙ or_false (mem k (result_nics results)),
    )
  where
    missing : (k : Text) (d : Detail) → lookup k [] ≡ some d → d.nic ≡ k
    missing k d e = cc

    or_false : (b : Bool) → (b || false) ≡ b
    or_false true = refl
    or_false false = refl
