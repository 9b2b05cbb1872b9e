-- ===== src/Ipam/Nics/Distinct.antt =====
-- What an accepted annotation says: interfaces that differ.
use spiderpool.Prelude.{
  ℕ, suc, ◌≡◌, refl, sym, ap, subst, ◌∙◌, Bool, true, false, not, ◌||◌, List, [], ◌∷◌, Text,
  text_eq_iff, arith, Bool-cases, inl, inr,
}
use spiderpool.Ipam.Nics.{
  Item, Checked, ok, err, interface_missing, mem, has_nic, same, prepend_item, with_name,
  visit_items, require_current, validate_and_mutate,
}

abbrev pub nics : List Item → List Text
nics [] = []
nics (x ∷ xs) = x.nic ∷ nics xs

-- No name twice.
abbrev pub Distinct : List Text → Type 0
Distinct [] = Unit
Distinct (t ∷ ts) = (mem t ts ≡ false) × Distinct ts

-- No name of the one is in the other.
abbrev Apart : List Text → List Text → Type 0
Apart [] seen = Unit
Apart (t ∷ ts) seen = (mem t seen ≡ false) × Apart ts seen

Apart-tail :
    (ts : List Text) (u : Text) (seen : List Text)
    → Apart ts (u ∷ seen)
    → Apart ts seen × (mem u ts ≡ false)
Apart-tail [] u seen h = (tt, refl)
Apart-tail (t ∷ ts) u seen h =
    let (a, b) = Apart-tail ts u seen h.1 in
    ((ground (arith, h.0), a), ground (arith, h.0, b, text_eq_iff t u, text_eq_iff u t))

module _ (itoa : ℕ → Text) where
  -- The items, each with its index for a name.
  abbrev pub numbered : ℕ → List Item → List Item
  numbered i [] = []
  numbered i (x ∷ xs) = record x { nic = itoa i } ∷ numbered (suc i) xs

  abbrev pub named_items : Bool → ℕ → List Item → List Item
  named_items true i xs = xs
  named_items false i xs = numbered i xs

  with_name_lem :
      (named : Bool) (i : ℕ) (x : Item) (xs : List Item)
      → not (same (has_nic x) named) ≡ false
      → with_name itoa i x ∷ named_items named (suc i) xs ≡ named_items named i (x ∷ xs)
  with_name_lem true i x xs h = let e : has_nic x ≡ true = ground arith in rw e refl
  with_name_lem false i x xs h = let e : has_nic x ≡ false = ground arith in rw e refl

  named_items-empty : (named : Bool) (i : ℕ) → named_items named i [] ≡ []
  named_items-empty true i = refl
  named_items-empty false i = refl

  -- What the loop says of the items that it accepts.
  abbrev Visited : Bool → ℕ → List Text → List Item → Checked (List Item × List Text) → Type 0
  Visited named i seen xs (err e) = Unit
  Visited named i seen xs (ok (ys, out)) =
      (ys ≡ named_items named i xs)
      × Distinct (nics ys)
      × Apart (nics ys) seen
      × ((t : Text) → mem t out ≡ (mem t (nics ys) || mem t seen))

  prepend_item-Visited :
      (named : Bool) (i : ℕ) (seen : List Text) (x : Item) (xs : List Item)
      (rest : Checked (List Item × List Text))
      → not (same (has_nic x) named) ≡ false
      → mem (with_name itoa i x).nic seen ≡ false
      → Visited named (suc i) ((with_name itoa i x).nic ∷ seen) xs rest
      → Visited named i seen (x ∷ xs) (prepend_item (with_name itoa i x) rest)
  prepend_item-Visited named i seen x xs (err e) fits fresh h = tt
  prepend_item-Visited named i seen x xs (ok (ys, out)) fits fresh (e, d, a, m) =
      let y = with_name itoa i x in
      let (apart, new) = Apart-tail (nics ys) y.nic seen a in
      (
        ap (λ zs. y ∷ zs) e ∙ with_name_lem named i x xs fits,
        (new, d),
        (fresh, apart),
        λ t. ground (arith, m t),
      )

  visit_items-Visited :
      (named : Bool) (i : ℕ) (seen : List Text) (xs : List Item)
      → Visited named i seen xs (visit_items itoa named i seen xs)
  unfolding visit_items
  visit_items-Visited named i seen [] = (sym (named_items-empty named i), tt, tt, λ t. refl)
  visit_items-Visited named i seen (x ∷ xs) = elim (Bool-cases (not (same (has_nic x) named))) [
    | inl mixed ↦ rw mixed tt
    | inr fits ↦ elim (Bool-cases (mem (with_name itoa i x).nic seen)) [
      | inl twice ↦ rw (fits, twice) tt
      | inr fresh ↦
          rw (fits, fresh)
            (prepend_item-Visited named i seen x xs _ fits fresh
              (visit_items-Visited named (suc i) _ xs))
    ]
  ]

  ok_injective : (a b : List Item) → ok a ≡ ok b → a ≡ b
  ok_injective a b h = cc

  abbrev Accepted : Bool → Text → List Item → List Item → Type 0
  Accepted named current xs ys =
      (ys ≡ named_items named 0 xs)
      × Distinct (nics ys)
      × (named ≡ true → mem current (nics ys) ≡ true)

  require_current_lem :
      (named : Bool) (current : Text) (xs ys : List Item) (r : Checked (List Item × List Text))
      → Visited named 0 [] xs r
      → require_current itoa named current r ≡ ok ys
      → Accepted named current xs ys
  require_current_lem named current xs ys (err e) v h = cc
  require_current_lem true current xs ys (ok (zs, out)) (e, d, a, m) h =
      elim (Bool-cases (mem current out)) [
        | inl there ↦
            let q : zs ≡ ys = ok_injective zs ys (rw there at h) in
            subst (Accepted true current xs) q (e, d, λ _. ground (arith, m current))
        | inr gone ↦ let q : err interface_missing ≡ ok ys = rw gone at h in cc
      ]
  require_current_lem false current xs ys (ok (zs, out)) (e, d, a, m) h =
      subst (Accepted false current xs) (ok_injective zs ys h) (e, d, λ f. cc)

  -- An accepted annotation keeps its items, in order, and their interfaces differ. If the first item
  -- has a name, the items are unchanged and the current interface is among theirs; otherwise the
  -- interface of each item is its index.
  pub validate_and_mutate-Distinct :
      (x : Item) (xs ys : List Item) (current : Text)
      → validate_and_mutate itoa (x ∷ xs) current ≡ ok ys
      → (ys ≡ named_items (has_nic x) 0 (x ∷ xs))
        × Distinct (nics ys)
        × (has_nic x ≡ true → mem current (nics ys) ≡ true)
  unfolding validate_and_mutate
  validate_and_mutate-Distinct x xs ys current h =
      require_current_lem (has_nic x) current (x ∷ xs) ys _
        (visit_items-Visited (has_nic x) 0 [] (x ∷ xs)) h
