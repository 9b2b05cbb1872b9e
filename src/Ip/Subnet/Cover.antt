-- ===== src/Ip/Subnet/Cover.antt =====
-- pkg/ip/subnet.go: which addresses the ranges hold.
use spiderpool.Prelude.{
  ℕ, ◌<◌, ◌≤◌, ◌≡◌, ◌⊎◌, ◌↔◌, refl, Bool, true, false, not, ◌&&◌, ◌||◌, List, [], ◌∷◌, ◌++◌, none,
  Text, leb, arith, Bool-cases, inl, inr, All, any,
}
use spiderpool.Ip.Subnet.{
  Range, ordered, clash, first_clash, add_include_range, cut, remove_range, remove_exclude_ip_range,
  ok, meets, overlaps_with, overlap_texts, is_overlap_ip_ranges,
}

abbrev pub inside : ℕ → Range → Bool
inside v r = leb r.start v && leb v r.end

abbrev pub covers : ℕ → List Range → Bool
covers v rs = any (inside v) rs

abbrev pub IsProper : Range → Type 0
IsProper r = r.start ≤ r.end

abbrev pub Apart : Range → Range → Type 0
Apart a b = (a.end < b.start) ⊎ (b.end < a.start)

abbrev pub AreDisjoint : List Range → Type 0
AreDisjoint [] = Unit
AreDisjoint (r ∷ rs) = All (Apart r) rs × AreDisjoint rs

covers-append : (v : ℕ) (xs ys : List Range) → covers v (xs ++ ys) ≡ (covers v xs || covers v ys)
covers-append v [] ys = refl
covers-append v (x ∷ xs) ys = ground (arith, covers-append v xs ys)

covers-cut :
    (v : ℕ) (x e : Range) → IsProper x → covers v (cut x e) ≡ (inside v e && not (inside v x))
covers-cut v x e p = ground arith

covers-remove_range :
    (v : ℕ) (es : List Range) (x : Range)
    → IsProper x
    → covers v (remove_range es x) ≡ (covers v es && not (inside v x))
unfolding remove_range
covers-remove_range v [] x p = refl
covers-remove_range v (e ∷ es) x p =
    rw
      (
        covers-append v (cut x e) (remove_range es x),
        covers-cut v x e p,
        covers-remove_range v es x p,
      )
      (distribute (inside v e) (covers v es) (inside v x))
  where
    distribute : (a b c : Bool) → (a && not c || b && not c) ≡ ((a || b) && not c)
    distribute a b c = ground arith

-- If the ends of the excluded ranges are in order, an address is left after the exclusion exactly
-- if it was there and no excluded range holds it.
pub covers-remove_exclude_ip_range :
    (v : ℕ) (base xs : List Range)
    → All IsProper xs
    → covers v (remove_exclude_ip_range base xs) ≡ (covers v base && not (covers v xs))
unfolding remove_exclude_ip_range
covers-remove_exclude_ip_range v base [] p = ground arith
covers-remove_exclude_ip_range v base (x ∷ xs) p =
    rw
      (
        covers-remove_exclude_ip_range v (remove_range base x) xs p.1,
        covers-remove_range v base x p.0,
      )
      (regroup (covers v base) (inside v x) (covers v xs))
  where
    regroup : (a b c : Bool) → (a && not b && not c) ≡ (a && not (b || c))
    regroup a b c = ground arith

ordered-IsProper : (r : Range) → IsProper (ordered r)
ordered-IsProper r = ground arith

clash_iff : (a b : Range) → IsProper a → IsProper b → (clash a b ≡ none) ↔ Apart a b
unfolding clash
clash_iff a b p q = (λ e. ground arith, λ e. ground arith)

first_clash_iff :
    (a : Range) (bs : List Range)
    → IsProper a
    → All IsProper bs
    → (first_clash a bs ≡ none) ↔ All (Apart a) bs
unfolding first_clash
first_clash_iff a [] p q = (λ _. tt, λ _. refl)
first_clash_iff a (b ∷ bs) p q = (
  λ e. ((clash_iff a b p q.0).0 (ground arith), (first_clash_iff a bs p q.1).0 (ground arith)),
  λ h. ground (arith, (clash_iff a b p q.0).1 h.0, (first_clash_iff a bs p q.1).1 h.1),
)

Apart-iff :
    (a : Range) (bs : List Range)
    → IsProper a
    → All IsProper bs
    → All (Apart a) bs ↔ ((v : ℕ) → inside v a ≡ true → covers v bs ≡ false)
Apart-iff a [] p q = (λ _ v h. refl, λ _. tt)
Apart-iff a (b ∷ bs) p q = (
  λ h v k. ground (arith, (Apart-iff a bs p q.1).0 h.1 v k),
  λ h. (
    ground (arith, h a.start, h b.start, h a.end),
    (Apart-iff a bs p q.1).1 (λ v k. ground (arith, h v k)),
  ),
)

-- If the ends of the ranges that are there are in order, a range is added, with its ends in order,
-- exactly if it shares no address with them.
pub add_include_range_iff :
    (rs : List Range) (r : Range)
    → All IsProper rs
    → (add_include_range rs r ≡ ok (rs ++ ordered r ∷ []))
      ↔ ((v : ℕ) → inside v (ordered r) ≡ true → covers v rs ≡ false)
unfolding add_include_range
add_include_range_iff rs r p =
    let proper = ordered-IsProper r in
    (
      λ e.
          (Apart-iff (ordered r) rs proper p).0
            ((first_clash_iff (ordered r) rs proper p).0 (ground arith)),
      λ h. ground (
        arith,
        (first_clash_iff (ordered r) rs proper p).1 ((Apart-iff (ordered r) rs proper p).1 h),
      ),
    )

meets_iff : (x y : Range) → IsProper x → IsProper y → (meets x y ≡ false) ↔ Apart x y
meets_iff x y p q = (λ e. ground arith, λ e. ground arith)

overlaps_with_iff :
    (x : Range) (ys : List Range)
    → IsProper x
    → All IsProper ys
    → (overlaps_with x ys ≡ []) ↔ All (Apart x) ys
unfolding overlaps_with
overlaps_with_iff x [] p q = (λ _. tt, λ _. refl)
overlaps_with_iff x (y ∷ ys) p q = elim (Bool-cases (meets x y)) [
  | inl e ↦ rw e (λ h. cc, λ h. let apart = (meets_iff x y p q.0).1 h.0 in cc)
  | inr e ↦ rw e (
    λ h. ((meets_iff x y p q.0).0 e, (overlaps_with_iff x ys p q.1).0 h),
    λ h. (overlaps_with_iff x ys p q.1).1 h.1,
  )
]

append_empty : (xs ys : List Text) → (xs ++ ys ≡ []) ↔ ((xs ≡ []) × (ys ≡ []))
append_empty [] ys = (λ h. (refl, h), λ h. h.1)
append_empty (x ∷ xs) ys = (λ h. cc, λ h. cc)

overlap_texts_iff :
    (xs ys : List Range)
    → All IsProper xs
    → All IsProper ys
    → (overlap_texts xs ys ≡ []) ↔ ((v : ℕ) → covers v xs ≡ true → covers v ys ≡ false)
unfolding overlap_texts
overlap_texts_iff [] ys p q = (λ _ v h. cc, λ _. refl)
overlap_texts_iff (x ∷ xs) ys p q = (
  λ h v k.
      let (here, there) = (append_empty (overlaps_with x ys) (overlap_texts xs ys)).0 h in
      ground (
        arith,
        (Apart-iff x ys p.0 q).0 ((overlaps_with_iff x ys p.0 q).0 here) v,
        (overlap_texts_iff xs ys p.1 q).0 there v,
      ),
  λ h. (append_empty (overlaps_with x ys) (overlap_texts xs ys)).1 (
    (overlaps_with_iff x ys p.0 q).1 ((Apart-iff x ys p.0 q).1 (λ v k. h v (ground arith))),
    (overlap_texts_iff xs ys p.1 q).1 (λ v k. h v (ground arith)),
  ),
)

-- If the ends of all ranges are in order, two lists of ranges are found not to overlap exactly if
-- they share no address.
pub is_overlap_ip_ranges_iff :
    (xs ys : List Range)
    → All IsProper xs
    → All IsProper ys
    → ((is_overlap_ip_ranges xs ys).1 ≡ false)
      ↔ ((v : ℕ) → covers v xs ≡ true → covers v ys ≡ false)
unfolding is_overlap_ip_ranges
is_overlap_ip_ranges_iff xs ys p q = (
  λ e. (overlap_texts_iff xs ys p q).0 (ground arith),
  λ h. rw ((overlap_texts_iff xs ys p q).1 h),
)
