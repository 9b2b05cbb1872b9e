-- ===== src/Webhooks/Admitted.antt =====
-- The checks of a webhook in sequence: where they admit, each of them does.
use spiderpool.Prelude.{◌≡◌, refl, Bool, true, false, not, List, [], ◌∷◌, ◌++◌}
use spiderpool.Webhooks.Objects.{
  Reason, Admission, admit, deny, ◌and_then◌, deny_if, to_list, first_then, affinity_then,
}

pub and_then-admit : (a b : Admission) → (a and_then b) ≡ admit → (a ≡ admit) × (b ≡ admit)
and_then-admit admit b h = (refl, h)
and_then-admit (deny r) b h = cc

pub deny_if-admit : (b : Bool) (r : Reason) → deny_if b r ≡ admit → b ≡ false
deny_if-admit true r h = cc
deny_if-admit false r h = refl

pub first_then-none :
    (a : Admission) (rest : List Reason) → first_then a rest ≡ [] → (a ≡ admit) × (rest ≡ [])
first_then-none admit rest h = (refl, h)
first_then-none (deny r) rest h = cc

pub to_list-none :
    (a : Admission) (rest : List Reason) → to_list a ++ rest ≡ [] → (a ≡ admit) × (rest ≡ [])
to_list-none admit rest h = (refl, h)
to_list-none (deny r) rest h = cc

pub affinity_then-none :
    (rs : List Reason) (last : Admission) → affinity_then rs last ≡ [] → (rs ≡ []) × (last ≡ admit)
affinity_then-none [] admit h = (refl, refl)
affinity_then-none [] (deny r) h = cc
affinity_then-none (r ∷ rs) last h = cc

pub not-eq-false : (b : Bool) → not b ≡ false → b ≡ true
not-eq-false true h = refl
not-eq-false false h = cc

pub to_list-admit : (a : Admission) → to_list a ≡ [] → a ≡ admit
to_list-admit admit h = refl
to_list-admit (deny r) h = cc
