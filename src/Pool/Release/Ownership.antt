-- ===== src/Pool/Release/Ownership.antt =====
-- Which records `ReleaseIP` deletes and `UpdateAllocatedIPs` changes.
use spiderpool.Prelude.{
  ◌≡◌, refl, ap, sym, Bool, true, false, ◌&&◌, List, [], ◌∷◌, Option, none, some, Text, text_eq,
  text_eq_iff, lookup, insert, any, all, if◌then◌else◌, lookup-remove, lookup-insert, arith,
  Bool-cases, inl, inr, ◌∙◌,
}
use spiderpool.Pool.Records.{Allocation, Allocations, data_broken, ok, err}
use spiderpool.Pool.Release.{
  IpAndUid, Released, release_one, release_records, Updated, update_one, update_records,
}

-- The record belongs to a pod with this uid.
abbrev pub has_uid : Text → Option Allocation → Bool
has_uid uid none = false
has_uid uid (some r) = text_eq r.pod_uid uid

-- One of the given pairs is this address with the uid of its record.
abbrev pub is_released : List IpAndUid → Text → Option Allocation → Bool
is_released ius ip o = any (λ iu. text_eq iu.ip ip && has_uid iu.uid o) ius

-- The records after the check of one address.
release_one_lem :
    (iu : IpAndUid) (ip : Text) (s : Released)
    → lookup ip (release_one iu (lookup iu.ip s.records) s).records ≡ (
        if text_eq iu.ip ip && has_uid iu.uid (lookup ip s.records)
        then none
        else lookup ip s.records)
unfolding release_one
release_one_lem iu ip s = by_lookup (lookup iu.ip s.records) refl
  where
    by_lookup :
        (o : Option Allocation)
        → lookup iu.ip s.records ≡ o
        → lookup ip (release_one iu o s).records ≡ (
            if text_eq iu.ip ip && has_uid iu.uid (lookup ip s.records)
            then none
            else lookup ip s.records)
    by_lookup none e = elim (Bool-cases (text_eq iu.ip ip)) [
      | inl same ↦ let at_ip = rw ((text_eq_iff iu.ip ip).0 same) at e in rw (same, at_ip) refl
      | inr other ↦ rw other refl
    ]
    by_lookup (some r) e = elim (Bool-cases (text_eq iu.ip ip)) [
      | inl same ↦
          let at_ip = rw ((text_eq_iff iu.ip ip).0 same) at e in
          ground (arith, lookup-remove iu.ip ip s.records)
      | inr other ↦ ground (arith, lookup-remove iu.ip ip s.records)
    ]

-- The loop of `ReleaseIP` deletes exactly the records whose address is given with the uid of the
-- record.
pub release_records_lem :
    (ius : List IpAndUid) (ip : Text) (s : Released)
    → lookup ip (release_records ius s).records
      ≡ (if is_released ius ip (lookup ip s.records) then none else lookup ip s.records)
unfolding release_records
release_records_lem [] ip s = refl
release_records_lem (iu ∷ ius) ip s = ground (
  arith,
  release_one_lem iu ip s,
  release_records_lem ius ip (release_one iu (lookup iu.ip s.records) s),
)

-- Only a record of this name, or none.
abbrev pub is_named : Text → Option Allocation → Bool
is_named name none = true
is_named name (some r) = text_eq r.namespaced_name name

-- The record with the uid that is given for its address.
abbrev pub renew : IpAndUid → Text → Option Allocation → Option Allocation
renew iu ip none = none
renew iu ip (some r) = some (if text_eq iu.ip ip then record r { pod_uid = iu.uid } else r)

-- The record with the uid that is given last for its address.
abbrev pub renewed : List IpAndUid → Text → Option Allocation → Option Allocation
renewed [] ip o = o
renewed (iu ∷ ius) ip o = renewed ius ip (renew iu ip o)

renew_other :
    (iu : IpAndUid) (ip : Text) (o : Option Allocation)
    → text_eq iu.ip ip ≡ false
    → renew iu ip o ≡ o
renew_other iu ip none h = refl
renew_other iu ip (some r) h = rw h refl

is_named-renew :
    (name ip : Text) (iu : IpAndUid) (o : Option Allocation)
    → is_named name (renew iu ip o) ≡ is_named name o
is_named-renew name ip iu none = refl
is_named-renew name ip iu (some r) = ground arith

-- One check that does not fail: the records by their address.
update_one_lem :
    (name : Text) (iu : IpAndUid) (s : Updated)
    → is_named name (lookup iu.ip s.0) ≡ true
    → (t : Updated) × (update_one name iu (lookup iu.ip s.0) s ≡ ok t)
      × ((ip : Text) → lookup ip t.0 ≡ renew iu ip (lookup ip s.0))
unfolding update_one
update_one_lem name iu (m, b) h = by_lookup (lookup iu.ip m) refl
  where
    by_lookup :
        (o : Option Allocation)
        → lookup iu.ip m ≡ o
        → (t : Updated) × (update_one name iu o (m, b) ≡ ok t)
          × ((ip : Text) → lookup ip t.0 ≡ renew iu ip (lookup ip m))
    by_lookup none e = (
      (m, b),
      refl,
      λ ip. elim (Bool-cases (text_eq iu.ip ip)) [
        | inl near ↦ let here = rw ((text_eq_iff iu.ip ip).0 near) at e in rw here refl
        | inr far ↦ sym (renew_other iu ip (lookup ip m) far)
      ],
    )
    by_lookup (some r) e =
        let name_eq : text_eq r.namespaced_name name ≡ true = rw e at h in
        elim (Bool-cases (text_eq r.pod_uid iu.uid)) [
          | inl same ↦ (
            (m, b),
            rw (name_eq, same) refl,
            λ ip. elim (Bool-cases (text_eq iu.ip ip)) [
              | inl near ↦
                  let here = rw ((text_eq_iff iu.ip ip).0 near) at e in
                  rw (here, near)
                    (ap (λ u. some (record r { pod_uid = u })) ((text_eq_iff _ _).0 same))
              | inr far ↦ sym (renew_other iu ip (lookup ip m) far)
            ],
          )
          | inr other ↦ (
            (insert iu.ip (record r { pod_uid = iu.uid }) m, true),
            rw (name_eq, other) refl,
            λ ip. elim (Bool-cases (text_eq iu.ip ip)) [
              | inl near ↦
                  let here = rw ((text_eq_iff iu.ip ip).0 near) at e in
                  lookup-insert iu.ip ip _ m ∙ rw (here, near) refl
              | inr far ↦
                  lookup-insert iu.ip ip _ m ∙ rw far (sym (renew_other iu ip (lookup ip m) far))
            ],
          )
        ]

-- All the given addresses that are recorded have this name.
abbrev pub all_named : Text → List IpAndUid → Allocations → Bool
all_named name ius m = all (λ iu. is_named name (lookup iu.ip m)) ius

all_named_cong :
    (name : Text) (ius : List IpAndUid) (m k : Allocations)
    → ((ip : Text) → is_named name (lookup ip k) ≡ is_named name (lookup ip m))
    → all_named name ius k ≡ all_named name ius m
all_named_cong name [] m k h = refl
all_named_cong name (iu ∷ ius) m k h = rw (h iu.ip, all_named_cong name ius m k h) refl

update_one-foreign :
    (name : Text) (iu : IpAndUid) (o : Option Allocation) (s : Updated)
    → is_named name o ≡ false
    → update_one name iu o s ≡ err data_broken
unfolding update_one
update_one-foreign name iu none s h = cc
update_one-foreign name iu (some r) (m, b) h = rw h refl

-- The loop of `UpdateAllocatedIPs` fails if one of the addresses is recorded under another name;
-- if not, it succeeds, each record has the uid that is given last for its address, and nothing
-- else changes.
pub update_records_lem :
    (name : Text) (ius : List IpAndUid) (s : Updated)
    → (all_named name ius s.0 ≡ false → update_records name ius s ≡ err data_broken)
      × (all_named name ius s.0 ≡ true
          → (t : Updated) × (update_records name ius s ≡ ok t)
            × ((ip : Text) → lookup ip t.0 ≡ renewed ius ip (lookup ip s.0)))
unfolding update_records
update_records_lem name [] s = (λ h. cc, λ h. (s, refl, λ ip. refl))
update_records_lem name (iu ∷ ius) s = elim (Bool-cases (is_named name (lookup iu.ip s.0))) [
  | inr foreign ↦ (
    λ h. rw (update_one-foreign name iu (lookup iu.ip s.0) s foreign) refl,
    λ h. let g = rw foreign at h in cc,
  )
  | inl own ↦
      let (t, step, found) = update_one_lem name iu s own in
      let same : all_named name ius t.0 ≡ all_named name ius s.0 =
        all_named_cong name ius s.0 t.0
          (λ ip. rw (found ip) (is_named-renew name ip iu (lookup ip s.0))) in
      let (bad, good) = update_records_lem name ius t in
      (
        λ h. rw step (bad (same ∙ rw own at h)),
        λ h.
            let (u, runs, ends) = good (same ∙ rw own at h) in
            (u, rw step runs, λ ip. ends ip ∙ ap (renewed ius ip) (found ip)),
      )
]
