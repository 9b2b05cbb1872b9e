-- ===== src/Ip/Subnet/Proper.antt =====
-- pkg/ip/subnet.go, `NewCIDR`: the ends of the ranges that it leaves are in order, whatever it is
-- given.
use spiderpool.Prelude.{
  ◌≡◌, ◌⊎◌, refl, List, [], ◌∷◌, ◌++◌, none, Text, All, All-append, arith, subst, Option-cases, inl,
  inr,
}
use spiderpool.Net.Textual.{NetText}
use spiderpool.Ip.Subnet.{
  Range, Cidr, CidrError, Result, ok, err, ◌>>=◌, ordered, cut, add_include_range, first_clash,
  remove_range, remove_exclude_ip_range, parse, include_all, exclude_ranges, new_cidr,
}
use spiderpool.Ip.Subnet.Cover.{IsProper}

cut-IsProper : (x e : Range) → IsProper e → All IsProper (cut x e)
cut-IsProper x e h = ground arith

remove_range-IsProper :
    (base : List Range) (x : Range) → All IsProper base → All IsProper (remove_range base x)
unfolding remove_range
remove_range-IsProper [] x h = tt
remove_range-IsProper (e ∷ es) x h =
    All-append IsProper (cut x e) (remove_range es x) (cut-IsProper x e h.0)
      (remove_range-IsProper es x h.1)

remove_all-IsProper :
    (base xs : List Range) → All IsProper base → All IsProper (remove_exclude_ip_range base xs)
unfolding remove_exclude_ip_range
remove_all-IsProper base [] h = h
remove_all-IsProper base (x ∷ xs) h =
    remove_all-IsProper (remove_range base x) xs (remove_range-IsProper base x h)

ordered-IsProper : (r : Range) → IsProper (ordered r)
ordered-IsProper r = ground arith

>>=-eq-ok {ℓ κ} :
    {A : Type ℓ} {B : Type κ} (r : Result A) (next : A → Result B) {y : B}
    → (r >>= next) ≡ ok y
    → (x : A) × (r ≡ ok x) × (next x ≡ ok y)
>>=-eq-ok (err reason) next e = cc
>>=-eq-ok (ok x) next e = (x, refl, e)

pub Result-cases {ℓ} :
    {A : Type ℓ} (r : Result A) → ((a : A) × (r ≡ ok a)) ⊎ ((e : CidrError) × (r ≡ err e))
Result-cases (ok a) = inl (a, refl)
Result-cases (err e) = inr (e, refl)

add-IsProper :
    (rs : List Range) (r : Range) {out : List Range}
    → All IsProper rs
    → add_include_range rs r ≡ ok out
    → All IsProper out
unfolding add_include_range
add-IsProper rs r {out} p h = elim (Option-cases (first_clash (ordered r) rs)) [
  | inl free ↦
      let e : rs ++ ordered r ∷ [] ≡ out = cc (rw (add_include_range, free) at h) in
      rw (← e) (All-append IsProper rs (ordered r ∷ []) p (ordered-IsProper r, tt))
  | inr (x, clash) ↦ cc (rw (add_include_range, clash) at h)
]

module _ (n : NetText) where
  include_all-IsProper :
      (c : Cidr) (ts : List Text) {d : Cidr}
      → All IsProper c.ranges
      → include_all n c ts ≡ ok d
      → All IsProper d.ranges
  unfolding include_all
  include_all-IsProper c [] {d} p h =
      let e : c ≡ d = cc h in subst (λ (x : Cidr). All IsProper x.ranges) e p
  include_all-IsProper c (t ∷ ts) {d} p h =
      let (se, e1, h1) = >>=-eq-ok (parse n c t) _ h in
      let r : Range = record { raw = t; start = se.0; end = se.1 } in
      let (rs, e2, h2) =
        >>=-eq-ok (add_include_range c.ranges r) (λ x. include_all n (record c { ranges = x }) ts)
          h1 in
      include_all-IsProper (record c { ranges = rs }) ts (add-IsProper c.ranges r p e2) h2

  -- The ranges of an accepted pool or subnet have their ends in order.
  pub new_cidr-IsProper :
      (base : Text) (ranges exclude : List Text) {c : Cidr}
      → new_cidr n base ranges exclude ≡ ok c
      → All IsProper c.ranges
  unfolding new_cidr
  new_cidr-IsProper base ranges exclude {c} h = elim (Option-cases (n.parse_cidr base)) [
    | inl bad ↦ cc (rw (new_cidr, bad) at h)
    | inr ((v, m), e) ↦
        let start : Cidr = record { base = m; is_ipv4 = m.is_v4; ranges = []; used_map = none } in
        let (d, e1, h1) = >>=-eq-ok (include_all n start ranges) _ (rw (new_cidr, e) at h) in
        let (xs, e2, h2) = >>=-eq-ok (exclude_ranges n d exclude) _ h1 in
        let out : record d { ranges = remove_exclude_ip_range d.ranges xs } ≡ c = cc h2 in
        subst (λ (x : Cidr). All IsProper x.ranges) out
          (remove_all-IsProper d.ranges xs (include_all-IsProper start ranges tt e1))
  ]
