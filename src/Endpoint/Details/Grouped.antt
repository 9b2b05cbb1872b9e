-- ===== src/Endpoint/Details/Grouped.antt =====
-- What the grouping of an endpoint's addresses holds.
use spiderpool.Prelude.{
  ◌≡◌, refl, sym, ap, subst, ◌∙◌, List, [], ◌∷◌, ◌++◌, Option, none, some, Text, text_eq,
  text_eq_iff, lookup-insert, if◌then◌else◌, Bool-cases, inl, inr,
}
use spiderpool.Pool.Release.{IpAndUid}
use spiderpool.Endpoint.Records.{Detail}
use spiderpool.Endpoint.Details.{
  Grouping, grouped, before_slash, group_address, group_details, group_ip_allocation_details,
}

-- An address of this pool
abbrev pub address_in : Text → Text → Option Text → Option Text → List IpAndUid
address_in pool uid none p = []
address_in pool uid (some ip) none = []
address_in pool uid (some ip) (some p) =
    if text_eq p pool then record { ip = before_slash ip; uid = uid } ∷ [] else []

-- The addresses of a pool, in the order of the details, IPv4 first.
abbrev pub addresses_in : Text → Text → List Detail → List IpAndUid
addresses_in pool uid [] = []
addresses_in pool uid (d ∷ ds) =
    address_in pool uid d.ipv4 d.ipv4_pool
    ++ (address_in pool uid d.ipv6 d.ipv6_pool ++ addresses_in pool uid ds)

-- What a step says of its result
abbrev Adds : Grouping → Text → List IpAndUid → Option Grouping → Type 0
Adds m pool ius none = Unit
Adds m pool ius (some m') = grouped pool m' ≡ grouped pool m ++ ius

append_empty : {A : Type 0} (xs : List A) → xs ++ [] ≡ xs
append_empty [] = refl
append_empty (x ∷ xs) = ap (λ ys. x ∷ ys) (append_empty xs)

append_assoc : {A : Type 0} (xs ys zs : List A) → (xs ++ ys) ++ zs ≡ xs ++ (ys ++ zs)
append_assoc [] ys zs = refl
append_assoc (x ∷ xs) ys zs = ap (λ ws. x ∷ ws) (append_assoc xs ys zs)

group_address-Adds :
    (pool uid : Text) (ip p : Option Text) (m : Grouping)
    → Adds m pool (address_in pool uid ip p) (group_address uid ip p m)
unfolding group_address
group_address-Adds pool uid none p m = sym (append_empty _)
group_address-Adds pool uid (some ip) none m = tt
group_address-Adds pool uid (some ip) (some p) m =
    let new = grouped p m ++ record { ip = before_slash ip; uid = uid } ∷ [] in
    elim (Bool-cases (text_eq p pool)) [
      | inl same ↦
          let e : p ≡ pool = (text_eq_iff p pool).0 same in
          ap found (lookup-insert p pool new m)
          ∙ rw same (ap (λ q. grouped q m ++ record { ip = before_slash ip; uid = uid } ∷ []) e)
      | inr other ↦
          ap found (lookup-insert p pool new m) ∙ rw other (sym (append_empty (grouped pool m)))
    ]
  where
    found : Option (List IpAndUid) → List IpAndUid
    found o = elim o [ none ↦ [] | some ius ↦ ius ]

group_details-Adds :
    (pool uid : Text) (ds : List Detail) (m : Grouping)
    → Adds m pool (addresses_in pool uid ds) (group_details uid ds m)
unfolding group_details
group_details-Adds pool uid [] m = sym (append_empty _)
group_details-Adds pool uid (d ∷ ds) m =
    first (group_address uid d.ipv4 d.ipv4_pool m) (λ n. group_details-Adds pool uid ds n)
      (group_address-Adds pool uid d.ipv4 d.ipv4_pool m)
  where
    third :
        (a b c : List IpAndUid) (m m4 m6 : Grouping) (o : Option Grouping)
        → grouped pool m4 ≡ grouped pool m ++ a
        → grouped pool m6 ≡ grouped pool m4 ++ b
        → Adds m6 pool c o
        → Adds m pool (a ++ (b ++ c)) o
    third a b c m m4 m6 none e4 e6 h = tt
    third a b c m m4 m6 (some n) e4 e6 h =
        h
        ∙ ap (λ xs. xs ++ c) (e6 ∙ ap (λ xs. xs ++ b) e4)
        ∙ append_assoc (grouped pool m ++ a) b c
        ∙ append_assoc (grouped pool m) a (b ++ c)

    second :
        (m4 : Grouping) (o : Option Grouping)
        → ((n : Grouping) → Adds n pool (addresses_in pool uid ds) (group_details uid ds n))
        → grouped pool m4 ≡ grouped pool m ++ address_in pool uid d.ipv4 d.ipv4_pool
        → Adds m4 pool (address_in pool uid d.ipv6 d.ipv6_pool) o
        → Adds m pool
            (addresses_in pool uid (d ∷ ds))
            (elim o [ none ↦ none | some m6 ↦ group_details uid ds m6 ])
    second m4 none k e4 h = tt
    second m4 (some m6) k e4 h = third _ _ _ m m4 m6 (group_details uid ds m6) e4 h (k m6)

    first :
        (o : Option Grouping)
        → ((n : Grouping) → Adds n pool (addresses_in pool uid ds) (group_details uid ds n))
        → Adds m pool (address_in pool uid d.ipv4 d.ipv4_pool) o
        → Adds m pool (addresses_in pool uid (d ∷ ds)) (elim o [
          | none ↦ none
          | some m4 ↦ elim (group_address uid d.ipv6 d.ipv6_pool m4) [
            | none ↦ none
            | some m6 ↦ group_details uid ds m6
          ]
        ])
    first none k h = tt
    first (some m4) k h =
        second m4 (group_address uid d.ipv6 d.ipv6_pool m4) k h
          (group_address-Adds pool uid d.ipv6 d.ipv6_pool m4)

-- The grouping has for each pool exactly the addresses that the details hold of it, in order and
-- without their prefix lengths, with the given uid; where the grouping does not panic.
pub group_ip_allocation_details_lem :
    (pool uid : Text) (ds : List Detail) (m : Grouping)
    → group_ip_allocation_details uid ds ≡ some m
    → grouped pool m ≡ addresses_in pool uid ds
unfolding group_ip_allocation_details
group_ip_allocation_details_lem pool uid ds m h =
    subst (Adds [] pool (addresses_in pool uid ds)) h (group_details-Adds pool uid ds [])
