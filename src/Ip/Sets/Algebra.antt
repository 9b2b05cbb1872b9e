-- ===== src/Ip/Sets/Algebra.antt =====
-- pkg/ip/ip.go: the set operations are those of sets of addresses.
use spiderpool.Prelude.{
  ℕ, suc, ◌+◌, ◌≡◌, ◌↔◌, refl, ◌∙◌, Bool, true, false, not, ◌&&◌, ◌||◌, List, [], ◌∷◌, ◌++◌, arith,
  filter, length, ltb, if◌then◌else◌, Bool-cases, inl, inr,
}
use spiderpool.Net.Address.{Ip, nil, bytes4, bytes16, v4_prefix}
use spiderpool.Ip.Range.{rank, address_set, sort_addresses}
use spiderpool.Ip.Range.Merge.{has, has-address_set, has-sort_addresses}
use spiderpool.Ip.Sets.{
  is_address, is_member, diff_loop, get_ip_diff_set, ips_diff_set, is_diff_ip_set, ips_union_set,
  ips_intersection_set, sort_if,
}

-- An address (its rank is its value and 1) is a key of the map that a list fills exactly if the
-- list has it.
member_lem :
    (v : ℕ) (ip : Ip) (ips : List Ip) → rank ip ≡ suc v → is_member ip ips ≡ has (suc v) ips
member_lem v ip [] e = refl
member_lem v ip (x ∷ xs) e = ground (arith, member_lem v ip xs e)

has-diff_loop :
    (v : ℕ) (excluded : List Ip) (got : ℕ) (ips : List Ip)
    → has (suc v) (diff_loop excluded 0 got ips) ≡ (has (suc v) ips && not (has (suc v) excluded))
unfolding diff_loop
has-diff_loop v excluded got [] = refl
has-diff_loop v excluded got (ip ∷ ips) = ground (
  arith,
  member_lem v ip excluded,
  has-diff_loop v excluded got ips,
  has-diff_loop v excluded (got + 1) ips,
)

has-sort_if : (r : ℕ) (b : Bool) (ips : List Ip) → has r (sort_if b ips) ≡ has r ips
has-sort_if r b ips = ground (arith, has-sort_addresses r ips)

pub has-append : (r : ℕ) (xs ys : List Ip) → has r (xs ++ ys) ≡ (has r xs || has r ys)
has-append r [] ys = refl
has-append r (x ∷ xs) ys = ground (arith, has-append r xs ys)

has-filter :
    (v : ℕ) (p : Ip → Bool) (b : Bool) (ips : List Ip)
    → ((ip : Ip) → rank ip ≡ suc v → p ip ≡ b)
    → has (suc v) (filter p ips) ≡ (has (suc v) ips && b)
has-filter v p b [] h = refl
has-filter v p b (ip ∷ ips) h = ground (arith, h ip, has-filter v p b ips h)

has-ips_diff_set :
    (v : ℕ) (a b : List Ip) (sorted : Bool)
    → has (suc v) (ips_diff_set a b sorted) ≡ (has (suc v) a && not (has (suc v) b))
unfolding ips_diff_set get_ip_diff_set
has-ips_diff_set v a b sorted =
    has-sort_if (suc v) sorted (diff_loop b 0 0 a) ∙ has-diff_loop v b 0 a

has-sort_when :
    (r : ℕ) (sorted : Bool) (ips : List Ip)
    → has r (if sorted then sort_addresses ips else ips) ≡ has r ips
has-sort_when r true ips = has-sort_addresses r ips
has-sort_when r false ips = refl

has-nil : (r : ℕ) (ips : List Ip) → length ips ≡ 0 → has r ips ≡ false
has-nil r [] e = refl
has-nil r (ip ∷ ips) e = absurd (omega arith)

has-ips_union_set :
    (v : ℕ) (a b : List Ip) (sorted : Bool)
    → has (suc v) (ips_union_set a b sorted) ≡ (has (suc v) a || has (suc v) b)
unfolding ips_union_set
has-ips_union_set v a b sorted =
    let ips = filter is_address (a ++ b) in
    rw
      (
        has-sort_when (suc v) sorted (address_set ips),
        has-address_set (suc v) ips,
        has-filter v is_address true (a ++ b) (λ ip e. ground arith),
        has-append (suc v) a b,
      )
      (ground arith)

has-ips_intersection_set :
    (v : ℕ) (a b : List Ip) (sorted : Bool)
    → has (suc v) (ips_intersection_set a b sorted) ≡ (has (suc v) b && has (suc v) a)
unfolding ips_intersection_set
has-ips_intersection_set v a b sorted =
    let p = λ (ip : Ip). is_address ip && is_member ip a in
    rw (
      has-sort_when (suc v) sorted (address_set (filter p b)),
      has-address_set (suc v) (filter p b),
      has-filter v p (has (suc v) a) b (λ ip e. ground (arith, member_lem v ip a)),
    )

-- Difference, union and intersection hold an address exactly if the first list has it and the
-- second does not, if one of them has it, if both have it, sorted or not.
pub set_algebra :
    (v : ℕ) (a b : List Ip) (sorted : Bool)
    → (has (suc v) (ips_diff_set a b sorted) ≡ (has (suc v) a && not (has (suc v) b)))
      × (has (suc v) (ips_union_set a b sorted) ≡ (has (suc v) a || has (suc v) b))
      × (has (suc v) (ips_intersection_set a b sorted) ≡ (has (suc v) b && has (suc v) a))
set_algebra v a b sorted = (
  has-ips_diff_set v a b sorted,
  has-ips_union_set v a b sorted,
  has-ips_intersection_set v a b sorted,
)

no_diff-subset :
    (v : ℕ) (b : List Ip) (a : List Ip)
    → length (diff_loop b 1 0 a) ≡ 0
    → has (suc v) a ≡ true
    → has (suc v) b ≡ true
unfolding diff_loop
no_diff-subset v b [] e h = cc
no_diff-subset v b (ip ∷ ips) e h = ground (arith, member_lem v ip b, no_diff-subset v b ips)

address-rank : (ip : Ip) → is_address ip ≡ true → (v : ℕ) × (rank ip ≡ suc v)
address-rank nil h = cc
address-rank (bytes4 v) h = (v4_prefix + v, refl)
address-rank (bytes16 v) h = (v, refl)

subset-no_diff :
    (b : List Ip) (a : List Ip)
    → ((v : ℕ) → has (suc v) a ≡ true → has (suc v) b ≡ true)
    → length (diff_loop b 1 0 a) ≡ 0
unfolding diff_loop
subset-no_diff b [] h = refl
subset-no_diff b (ip ∷ ips) h = elim (Bool-cases (is_address ip && not (is_member ip b))) [
  | inl e ↦
      let (v, r) = address-rank ip (ground arith) in
      let found = h v (ground arith) in
      let inside = member_lem v ip b r ∙ found in absurd (ground arith)
  | inr e ↦ rw e (subset-no_diff b ips (λ v k. h v (ground arith)))
]

-- `IsDiffIPSet` answers false exactly if every address of the first list is in the second.
pub is_diff_ip_set_iff :
    (a b : List Ip)
    → (is_diff_ip_set a b ≡ false) ↔ ((v : ℕ) → has (suc v) a ≡ true → has (suc v) b ≡ true)
unfolding is_diff_ip_set get_ip_diff_set
is_diff_ip_set_iff a b =
    (λ e v h. no_diff-subset v b a (ground arith) h, λ h. rw (subset-no_diff b a h))

-- Where no address is left by a difference, every address of the first list is in the second.
pub empty_diff-subset :
    (v : ℕ) (a b : List Ip)
    → ltb 0 (length (ips_diff_set a b false)) ≡ false
    → has (suc v) a ≡ true
    → has (suc v) b ≡ true
empty_diff-subset v a b e h =
    let alg = has-ips_diff_set v a b false in
    let none_left = has-nil (suc v) (ips_diff_set a b false) (ground arith) in ground arith
