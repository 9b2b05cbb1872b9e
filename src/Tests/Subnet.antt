-- ===== src/Tests/Subnet.antt =====
-- The theorems of the ranges of a pool, on small ranges.
use spiderpool.Prelude.{
  ℕ, ◌-◌, ◌+◌, ◌≡◌, ◌↔◌, inl, true, false, not, ◌&&◌, List, [], ◌∷◌, ◌++◌, All, arith,
}
use spiderpool.Ip.Subnet.{
  Range, ok, ordered, add_include_range, remove_exclude_ip_range, total_ip, is_overlap_ip_ranges,
}
use spiderpool.Ip.Subnet.Cover.{
  inside, covers, IsProper, AreDisjoint, covers-remove_exclude_ip_range, add_include_range_iff,
  is_overlap_ip_ranges_iff,
}
use spiderpool.Ip.Subnet.Count.{remove_reversed}

abbrev range : ℕ → ℕ → Range
range s e = record { raw = []; start = s; end = e }

abbrev base : List Range
base = range 10 20 ∷ range 30 31 ∷ []

abbrev excluded : List Range
excluded = range 12 13 ∷ range 20 30 ∷ []

base-IsProper : All IsProper base
base-IsProper = (omega arith, (omega arith, tt))

excluded-IsProper : All IsProper excluded
excluded-IsProper = (omega arith, (omega arith, tt))

base-AreDisjoint : AreDisjoint base
base-AreDisjoint = ((inl (omega arith), tt), (tt, tt))

covers-remove_exclude_ip_range_example :
    covers 13 (remove_exclude_ip_range base excluded) ≡ (covers 13 base && not (covers 13 excluded))
covers-remove_exclude_ip_range_example =
    covers-remove_exclude_ip_range 13 base excluded excluded-IsProper

add_include_range_iff_example :
    (add_include_range base (range 25 21) ≡ ok (base ++ ordered (range 25 21) ∷ []))
    ↔ ((v : ℕ) → inside v (ordered (range 25 21)) ≡ true → covers v base ≡ false)
add_include_range_iff_example = add_include_range_iff base (range 25 21) base-IsProper

is_overlap_ip_ranges_iff_example :
    ((is_overlap_ip_ranges base excluded).1 ≡ false)
    ↔ ((v : ℕ) → covers v base ≡ true → covers v excluded ≡ false)
is_overlap_ip_ranges_iff_example =
    is_overlap_ip_ranges_iff base excluded base-IsProper excluded-IsProper

remove_reversed_example :
    ((v : ℕ)
      → covers v (remove_exclude_ip_range (range 10 20 ∷ []) (range 16 13 ∷ []))
        ≡ inside v (range 10 20))
    × (total_ip (remove_exclude_ip_range (range 10 20 ∷ []) (range 16 13 ∷ []))
        ≡ total_ip (range 10 20 ∷ []) + (16 - 13 - 1))
remove_reversed_example =
    remove_reversed (range 10 20) (range 16 13) (omega arith) (omega arith) (omega arith)
