-- ===== src/Gc/PodDatabase/Entries.antt =====
-- What holds of all entries of the database stays so, where it holds of those that are written.
use spiderpool.Prelude.{
  ◌≡◌, subst, List, [], ◌∷◌, Option, none, some, Text, text_eq, length, ◌==◌, Bool-cases, inl, inr,
  All,
}
use spiderpool.Gc.PodDatabase.{
  PodEntry, PodDatabase, ok, pod_running, has_key, find_entry, drop_entry, put_entry,
  delete_pod_entry, is_same_tracing, apply_found, apply_pod_entry,
}

pub ok-injective : (a b : PodDatabase) → ok a ≡ ok b → a ≡ b
ok-injective a b h = cc

module _ (P : PodEntry → Type 0) where
  pub put-All : (p : PodEntry) (es : List PodEntry) → P p → All P es → All P (put_entry p es)
  unfolding put_entry
  put-All p [] h k = (h, tt)
  put-All p (e ∷ es) h k = elim (Bool-cases (has_key p.namespace p.pod_name e)) [
    | inl same ↦ rw same (h, k.1)
    | inr other ↦ rw other (k.0, put-All p es h k.1)
  ]

  pub drop-All : (ns name : Text) (es : List PodEntry) → All P es → All P (drop_entry ns name es)
  unfolding drop_entry
  drop-All ns name [] k = tt
  drop-All ns name (e ∷ es) k = elim (Bool-cases (has_key ns name e)) [
    | inl same ↦ rw same (drop-All ns name es k.1)
    | inr other ↦ rw other (k.0, drop-All ns name es k.1)
  ]

  pub delete-All :
      (ns name : Text) (db : PodDatabase) → All P db.pods → All P (delete_pod_entry ns name db).pods
  unfolding delete_pod_entry
  delete-All ns name db k = by_found (find_entry ns name db.pods)
    where
      after : Option PodEntry → PodDatabase
      after o = elim o [ none ↦ db | some e ↦ record db { pods = drop_entry ns name db.pods } ]

      by_found : (o : Option PodEntry) → All P (after o).pods
      by_found none = k
      by_found (some e) = drop-All ns name db.pods k

  apply_found-All :
      (db after : PodDatabase) (p : PodEntry) (o : Option PodEntry)
      → P p
      → All P db.pods
      → apply_found db p o ≡ ok after
      → All P after.pods
  unfolding apply_found
  apply_found-All db after p none h k e = elim (Bool-cases (length db.pods == db.max_cap)) [
    | inl full ↦ let g = rw full at e in cc
    | inr room ↦
        subst (λ d. All P d.pods) (ok-injective _ after (rw room at e)) (put-All p db.pods h k)
  ]
  apply_found-All db after p (some x) h k e = elim (Bool-cases (is_same_tracing x p)) [
    | inl kept ↦ subst (λ d. All P d.pods) (ok-injective _ after (rw kept at e)) k
    | inr fresh ↦
        subst (λ d. All P d.pods) (ok-injective _ after (rw fresh at e)) (put-All p db.pods h k)
  ]

  pub apply-All :
      (db after : PodDatabase) (p : PodEntry)
      → P p
      → All P db.pods
      → apply_pod_entry db (some p) ≡ ok after
      → All P after.pods
  unfolding apply_pod_entry
  apply-All db after p h k e = elim (Bool-cases (text_eq p.pod_tracing_reason pod_running)) [
    | inl runs ↦ let g = rw runs at e in cc
    | inr traced ↦
        apply_found-All db after p (find_entry p.namespace p.pod_name db.pods) h k (rw traced at e)
  ]
