-- ===== src/Gc/PodDatabase/Invariant.antt =====
-- The capacity and the entries of the database, in every use.
use spiderpool.Prelude.{
  ℕ, suc, ◌≤◌, ◌≡◌, refl, subst, false, List, [], ◌∷◌, Option, none, some, Text, text_eq, length,
  ◌==◌, arith, Bool-cases, inl, inr, All,
}
use spiderpool.Gc.PodDatabase.{
  PodEntry, PodDatabase, ok, pod_running, new_pod_db, find_entry, drop_entry, put_entry,
  delete_pod_entry, is_same_tracing, apply_found, apply_pod_entry,
}
use spiderpool.Gc.PodDatabase.Entries.{ok-injective, put-All, drop-All}

-- The databases that calls of `ApplyPodEntry` and `DeletePodEntry` lead to.
pub data Reach (cap : ℕ) : PodDatabase → Type 0 where
  created : Reach cap (new_pod_db cap)
  applied :
      {db after : PodDatabase} (p : Option PodEntry)
      → Reach cap db
      → apply_pod_entry db p ≡ ok after
      → Reach cap after
  deleted :
      {db : PodDatabase} (ns name : Text) → Reach cap db → Reach cap (delete_pod_entry ns name db)

abbrev pub IsTraced : PodEntry → Type 0
IsTraced e = text_eq e.pod_tracing_reason pod_running ≡ false

-- What holds of a database with a capacity.
abbrev pub IsSound : ℕ → PodDatabase → Type 0
IsSound cap db = (db.max_cap ≡ cap) × (length db.pods ≤ cap) × All IsTraced db.pods

length-put_new :
    (p : PodEntry) (es : List PodEntry)
    → find_entry p.namespace p.pod_name es ≡ none
    → length (put_entry p es) ≡ suc (length es)
unfolding find_entry put_entry
length-put_new p [] h = refl
length-put_new p (e ∷ es) h = ground (arith, length-put_new p es)

length-put_old :
    (p o : PodEntry) (es : List PodEntry)
    → find_entry p.namespace p.pod_name es ≡ some o
    → length (put_entry p es) ≡ length es
unfolding find_entry put_entry
length-put_old p o [] h = cc
length-put_old p o (e ∷ es) h = ground (arith, length-put_old p o es)

length-drop : (ns name : Text) (es : List PodEntry) → length (drop_entry ns name es) ≤ length es
unfolding drop_entry
length-drop ns name [] = omega arith
length-drop ns name (e ∷ es) = ground (arith, length-drop ns name es)

apply_found-IsSound :
    (cap : ℕ) (db after : PodDatabase) (p : PodEntry) (o : Option PodEntry)
    → find_entry p.namespace p.pod_name db.pods ≡ o
    → IsTraced p
    → IsSound cap db
    → apply_found db p o ≡ ok after
    → IsSound cap after
unfolding apply_found
apply_found-IsSound cap db after p none f t (c, l, k) h =
    elim (Bool-cases (length db.pods == db.max_cap)) [
      | inl full ↦ let g = rw full at h in cc
      | inr room ↦
          let same = ok-injective _ after (rw room at h) in
          let bound : length (put_entry p db.pods) ≤ cap =
            ground (arith, length-put_new p db.pods) in
          subst (IsSound cap) same (c, bound, put-All IsTraced p db.pods t k)
    ]
apply_found-IsSound cap db after p (some e) f t (c, l, k) h =
    elim (Bool-cases (is_same_tracing e p)) [
      | inl kept ↦ subst (IsSound cap) (ok-injective _ after (rw kept at h)) (c, l, k)
      | inr fresh ↦
          let same = ok-injective _ after (rw fresh at h) in
          let bound : length (put_entry p db.pods) ≤ cap =
            ground (arith, length-put_old p e db.pods) in
          subst (IsSound cap) same (c, bound, put-All IsTraced p db.pods t k)
    ]

apply-IsSound :
    (cap : ℕ) (db after : PodDatabase) (p : Option PodEntry)
    → IsSound cap db
    → apply_pod_entry db p ≡ ok after
    → IsSound cap after
unfolding apply_pod_entry
apply-IsSound cap db after none s h = cc
apply-IsSound cap db after (some p) s h =
    elim (Bool-cases (text_eq p.pod_tracing_reason pod_running)) [
      | inl runs ↦ let g = rw runs at h in cc
      | inr traced ↦
          apply_found-IsSound cap db after p (find_entry p.namespace p.pod_name db.pods) refl traced
            s (rw traced at h)
    ]

delete-IsSound :
    (cap : ℕ) (ns name : Text) (db : PodDatabase)
    → IsSound cap db
    → IsSound cap (delete_pod_entry ns name db)
unfolding delete_pod_entry
delete-IsSound cap ns name db (c, l, k) = by_found (find_entry ns name db.pods)
  where
    by_found :
        (o : Option PodEntry)
        → IsSound cap (elim o as (λ _. PodDatabase) [
          | none ↦ db
          | some e ↦ record db { pods = drop_entry ns name db.pods }
        ])
    by_found none = (c, l, k)
    by_found (some e) =
        (c, omega (arith, length-drop ns name db.pods), drop-All IsTraced ns name db.pods k)

-- However it is used, the database keeps its capacity, never has more entries than that, and has no
-- entry of a running pod.
pub Reach-IsSound : (cap : ℕ) {db : PodDatabase} → Reach cap db → IsSound cap db
unfolding new_pod_db
Reach-IsSound cap created = (refl, omega arith, tt)
Reach-IsSound cap (applied {db} {after} p r h) =
    apply-IsSound cap db after p (Reach-IsSound cap r) h
Reach-IsSound cap (deleted {db} ns name r) = delete-IsSound cap ns name db (Reach-IsSound cap r)
