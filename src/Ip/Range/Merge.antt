-- ===== src/Ip/Range/Merge.antt =====
-- pkg/ip/iprange.go, `MergeIPRanges`: the merged ranges hold the same addresses, each once, in order.
use spiderpool.Prelude.{
  ℕ, suc, ◌+◌, ◌<◌, ◌≤◌, ◌≡◌, ◌≢◌, refl, ◌∙◌, Bool, ◌||◌, List, [], ◌∷◌, arith, Text, ltb, ◌==◌,
  Bool-cases, inl, inr, All, any, length,
}
use spiderpool.Net.Address.{Ip}
use spiderpool.Net.Textual.{NetText, NetTextLaws}
use spiderpool.Ip.Result.{ok}
use spiderpool.Ip.Range.{
  parse_ip_ranges, merge_sorted, convert_ips_to_ip_ranges, merge_ip_ranges, canonical, set_insert,
  sorted_insert, sort_addresses, address_set, check_versions, rank,
}
use spiderpool.Ip.Range.Band.{Family, v4, v6, version_of, Good, right_version}
use spiderpool.Ip.Range.RoundTrip.{merge_runs_lem}

-- A set of ranks.
abbrev pub has : ℕ → List Ip → Bool
has r ips = any (λ ip. rank ip == r) ips

-- Strictly ascending by rank.
abbrev pub IsAscending : List Ip → Type 0
IsAscending [] = Unit
IsAscending (x ∷ xs) = All (λ y. rank x < rank y) xs × IsAscending xs

abbrev IsDistinct : List Ip → Type 0
IsDistinct [] = Unit
IsDistinct (x ∷ xs) = All (λ y. rank x ≢ rank y) xs × IsDistinct xs

module _ (P : Ip → Type 0) where
  set_insert-All : (ip : Ip) (xs : List Ip) → P ip → All P xs → All P (set_insert ip xs)
  set_insert-All ip [] p h = (p, tt)
  set_insert-All ip (x ∷ xs) p h = ground (arith, set_insert-All ip xs p h.1)

  sorted_insert-All : (ip : Ip) (xs : List Ip) → P ip → All P xs → All P (sorted_insert ip xs)
  sorted_insert-All ip [] p h = (p, tt)
  sorted_insert-All ip (x ∷ xs) p h = ground (arith, sorted_insert-All ip xs p h.1)

  pub sort_addresses-All : (ips : List Ip) → All P ips → All P (sort_addresses ips)
  unfolding sort_addresses
  sort_addresses-All [] h = tt
  sort_addresses-All (ip ∷ ips) h = sorted_insert-All ip _ h.0 (sort_addresses-All ips h.1)

rank-canonical : (ip : Ip) → rank (canonical ip) ≡ rank ip
rank-canonical ip = ground arith

set_insert-IsDistinct : (ip : Ip) (xs : List Ip) → IsDistinct xs → IsDistinct (set_insert ip xs)
set_insert-IsDistinct ip [] h = (tt, tt)
set_insert-IsDistinct ip (x ∷ xs) h = elim (Bool-cases (rank ip == rank x)) [
  | inl e ↦ rw e h
  | inr e ↦
      let ne : rank x ≢ rank ip = λ q. ground arith in
      rw e (set_insert-All (λ y. rank x ≢ rank y) ip xs ne h.0, set_insert-IsDistinct ip xs h.1)
]

address_set-IsDistinct : (ips : List Ip) → IsDistinct (address_set ips)
unfolding address_set
address_set-IsDistinct [] = tt
address_set-IsDistinct (ip ∷ ips) =
    set_insert-IsDistinct (canonical ip) (address_set ips) (address_set-IsDistinct ips)

All_lt_trans :
    (r : ℕ) (x : Ip) (xs : List Ip)
    → r < rank x
    → All (λ y. rank x < rank y) xs
    → All (λ y. r < rank y) xs
All_lt_trans r x [] l h = tt
All_lt_trans r x (y ∷ ys) l h = (omega arith, All_lt_trans r x ys l h.1)

sorted_insert-IsAscending :
    (ip : Ip) (xs : List Ip)
    → All (λ y. rank ip ≢ rank y) xs
    → IsAscending xs
    → IsAscending (sorted_insert ip xs)
sorted_insert-IsAscending ip [] d h = (tt, tt)
sorted_insert-IsAscending ip (x ∷ xs) d h = elim (Bool-cases (ltb (rank ip) (rank x))) [
  | inl e ↦
      let l : rank ip < rank x = ground arith in rw e ((l, All_lt_trans (rank ip) x xs l h.0), h)
  | inr e ↦
      let l : rank x < rank ip = ground arith in
      rw e (
        sorted_insert-All (λ y. rank x < rank y) ip xs l h.0,
        sorted_insert-IsAscending ip xs d.1 h.1,
      )
]

sort_addresses-IsAscending : (ips : List Ip) → IsDistinct ips → IsAscending (sort_addresses ips)
unfolding sort_addresses
sort_addresses-IsAscending [] d = tt
sort_addresses-IsAscending (ip ∷ ips) d =
    sorted_insert-IsAscending ip (sort_addresses ips)
      (sort_addresses-All (λ y. rank ip ≢ rank y) ips d.0) (sort_addresses-IsAscending ips d.1)

has-set_insert :
    (r : ℕ) (ip : Ip) (xs : List Ip) → has r (set_insert ip xs) ≡ (rank ip == r || has r xs)
has-set_insert r ip [] = refl
has-set_insert r ip (x ∷ xs) = ground (arith, has-set_insert r ip xs)

has-sorted_insert :
    (r : ℕ) (ip : Ip) (xs : List Ip) → has r (sorted_insert ip xs) ≡ (rank ip == r || has r xs)
has-sorted_insert r ip [] = refl
has-sorted_insert r ip (x ∷ xs) = ground (arith, has-sorted_insert r ip xs)

pub has-address_set : (r : ℕ) (ips : List Ip) → has r (address_set ips) ≡ has r ips
unfolding address_set
has-address_set r [] = refl
has-address_set r (ip ∷ ips) =
    rw (has-set_insert r (canonical ip) (address_set ips), rank-canonical ip, has-address_set r ips)

pub has-sort_addresses : (r : ℕ) (ips : List Ip) → has r (sort_addresses ips) ≡ has r ips
unfolding sort_addresses
has-sort_addresses r [] = refl
has-sort_addresses r (ip ∷ ips) =
    rw (has-sorted_insert r ip (sort_addresses ips), has-sort_addresses r ips)

-- The sorted set of a list of addresses is strictly ascending, and holds an address exactly if the
-- list does.
sorted_set_lem :
    (ips : List Ip)
    → let s = sort_addresses (address_set ips) in IsAscending s × ((r : ℕ) → has r s ≡ has r ips)
sorted_set_lem ips = (
  sort_addresses-IsAscending (address_set ips) (address_set-IsDistinct ips),
  λ r. has-sort_addresses r (address_set ips) ∙ has-address_set r ips,
)

canonical-Good : (f : Family) (ip : Ip) → Good f ip → Good f (canonical ip)
canonical-Good f ip (i, e, b) = (i, rw e, b)

address_set-Good : (f : Family) (ips : List Ip) → All (Good f) ips → All (Good f) (address_set ips)
unfolding address_set
address_set-Good f [] h = tt
address_set-Good f (ip ∷ ips) h =
    set_insert-All (Good f) (canonical ip) (address_set ips) (canonical-Good f ip h.0)
      (address_set-Good f ips h.1)

length-set_insert : (ip : Ip) (xs : List Ip) → length (set_insert ip xs) ≤ suc (length xs)
length-set_insert ip [] = omega arith
length-set_insert ip (x ∷ xs) = ground (arith, length-set_insert ip xs)

length-sorted_insert : (ip : Ip) (xs : List Ip) → length (sorted_insert ip xs) ≡ suc (length xs)
length-sorted_insert ip [] = refl
length-sorted_insert ip (x ∷ xs) = ground (arith, length-sorted_insert ip xs)

length-address_set : (ips : List Ip) → length (address_set ips) ≤ length ips
unfolding address_set
length-address_set [] = omega arith
length-address_set (ip ∷ ips) =
    omega (arith, length-set_insert (canonical ip) (address_set ips), length-address_set ips)

pub length-sort_addresses : (ips : List Ip) → length (sort_addresses ips) ≡ length ips
unfolding sort_addresses
length-sort_addresses [] = refl
length-sort_addresses (ip ∷ ips) =
    omega (arith, length-sorted_insert ip (sort_addresses ips), length-sort_addresses ips)

check_versions-Good :
    (f : Family) (ips : List Ip) → All (Good f) ips → check_versions (version_of f) ips ≡ ok tt
unfolding check_versions
check_versions-Good f [] h = refl
check_versions-Good f (ip ∷ ips) ((i, e, b), h) =
    rw (e, right_version f i b, check_versions-Good f ips h)

module _ (n : NetText) (laws : NetTextLaws n) where
  merge_sorted_lem :
      (f : Family) (fuel : ℕ) (xs : List Ip)
      → All (Good f) xs
      → length xs + 1 < fuel
      → parse_ip_ranges n fuel (version_of f) (merge_sorted n xs) ≡ ok xs
  unfolding parse_ip_ranges
  merge_sorted_lem f fuel [] h u = refl
  merge_sorted_lem f fuel (x ∷ xs) ((i, e, b), h) u =
      let start : i + 0 ≡ i = omega arith in
      let rest = merge_runs_lem n laws f fuel xs i 0 b (rw start b) h (omega arith) in
      rw e (rw start at rest)

  convert_lem :
      (f : Family) (ips : List Ip)
      → All (Good f) ips
      → convert_ips_to_ip_ranges n (version_of f) ips
        ≡ ok (merge_sorted n (sort_addresses (address_set ips)))
  unfolding convert_ips_to_ip_ranges
  convert_lem v4 ips h = rw (check_versions-Good v4 ips h)
  convert_lem v6 ips h = rw (check_versions-Good v6 ips h)

  -- The ranges that addresses are converted to stand for the sorted set of the addresses.
  pub parse-convert_ips_to_ip_ranges :
      (f : Family) (fuel : ℕ) (ips : List Ip)
      → All (Good f) ips
      → length ips + 1 < fuel
      → (merged : List Text) × (convert_ips_to_ip_ranges n (version_of f) ips ≡ ok merged)
        × (parse_ip_ranges n fuel (version_of f) merged ≡ ok (sort_addresses (address_set ips)))
  parse-convert_ips_to_ip_ranges f fuel ips h u =
      let s = sort_addresses (address_set ips) in
      (
        merge_sorted n s,
        convert_lem f ips h,
        merge_sorted_lem f fuel s
            (sort_addresses-All (Good f) (address_set ips) (address_set-Good f ips h))
            (omega (arith, length-sort_addresses (address_set ips), length-address_set ips)),
      )

  -- If the ranges stand for addresses of one family, none with a first byte 0 and none the last of
  -- the family, and the fuel is for more than one test after them, then the ranges can be merged,
  -- and the merged ranges stand for the sorted set of the same addresses.
  pub parse-merge_ip_ranges :
      (f : Family) (fuel : ℕ) (rs : List Text) (ips : List Ip)
      → parse_ip_ranges n fuel (version_of f) rs ≡ ok ips
      → All (Good f) ips
      → length ips + 1 < fuel
      → (merged : List Text) × (merge_ip_ranges n fuel (version_of f) rs ≡ ok merged)
        × (parse_ip_ranges n fuel (version_of f) merged ≡ ok (sort_addresses (address_set ips)))
  unfolding merge_ip_ranges
  parse-merge_ip_ranges f fuel rs ips p h u =
      let (merged, e, back) = parse-convert_ips_to_ip_ranges f fuel ips h u in
      (merged, rw p e, back)
