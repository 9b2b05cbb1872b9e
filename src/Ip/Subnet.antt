-- ===== src/Ip/Subnet.antt =====
-- pkg/ip/subnet.go: the ranges of a pool inside its subnet, with the excluded ranges taken out. The
-- webhook and the informer of IPPools count and compare the addresses of pools with it.
pub mod Cover
pub mod Count
pub mod Proper
use spiderpool.Prelude.{
  ℕ, suc, ◌+◌, ◌-◌, ◌^◌, Bool, true, false, not, ◌&&◌, ◌||◌, List, [], ◌∷◌, ◌++◌, Option, none,
  some, Text, text_eq, ltb, leb, ◌==◌, split_on, contains_code, if◌then◌else◌, is_some, length,
}
use spiderpool.Net.Address.{Ip, bytes16, to4, IpNet, contains, bytes4}
use spiderpool.Net.Textual.{NetText}

-- `start` and `end` are `*big.Int`, here never below 0.
pub record Range : Type 0 where
  pub raw : Text
  pub start : ℕ
  pub end : ℕ

-- `usedMap` is nil as `NewCIDR` leaves it: none.
pub record Cidr : Type 0 where
  pub base : IpNet
  pub is_ipv4 : Bool
  pub ranges : List Range
  pub used_map : Option (List Text)

pub data CidrError : Type 0 where
  bad_base invalid_range invalid_ip not_in_base wrong_version : CidrError
  already_covered covers overlaps : CidrError
  -- a write to a nil map
  panic : CidrError

pub data Result {ℓ} (A : Type ℓ) : Type ℓ where
  ok : A → Result A
  err : CidrError → Result A

infixl 5 ◌>>=◌
abbrev pub ◌>>=◌ {ℓ κ} : {A : Type ℓ} {B : Type κ} → Result A → (A → Result B) → Result B
ok a >>= f = f a
err e >>= f = err e

-- Reversed ends are exchanged.
abbrev pub ordered : Range → Range
ordered r = if ltb r.end r.start then record { raw = r.raw; start = r.end; end = r.start } else r

-- The four tests of `addIncludeRange` against one range, in order.
unfoldable pub clash : Range → Range → Option CidrError
clash a b =
    if leb b.start a.start && leb a.end b.end
    then some already_covered
    else if leb a.start b.start && leb b.end a.end
    then some covers
    else if leb b.start a.start && leb a.start b.end
    then some overlaps
    else if leb b.start a.end && leb a.end b.end
    then some overlaps
    else none

unfoldable pub first_clash : Range → List Range → Option CidrError
unfolding clash
first_clash a [] = none
first_clash a (b ∷ bs) = elim (clash a b) [ none ↦ first_clash a bs | some e ↦ some e ]

unfoldable pub add_include_range : List Range → Range → Result (List Range)
unfolding first_clash
add_include_range ranges r = elim (first_clash (ordered r) ranges) [
  | none ↦ ok (ranges ++ ordered r ∷ [])
  | some e ↦ err e
]

-- What is left of one range, the part below and the part above.
abbrev pub cut : Range → Range → List Range
cut removed e =
    if ltb removed.end e.start || ltb e.end removed.start
    then e ∷ []
    else (if ltb e.start removed.start then record e { end = removed.start - 1 } ∷ [] else [])
      ++ (if ltb removed.end e.end then record e { start = removed.end + 1 } ∷ [] else [])

-- The function `f` inside `removeExcludeIPRange`.
unfoldable pub remove_range : List Range → Range → List Range
remove_range [] removed = []
remove_range (e ∷ es) removed = cut removed e ++ remove_range es removed

unfoldable pub remove_exclude_ip_range : List Range → List Range → List Range
unfolding remove_range
remove_exclude_ip_range base [] = base
remove_exclude_ip_range base (x ∷ xs) = remove_exclude_ip_range (remove_range base x) xs

unfoldable pub total_ip : List Range → ℕ
total_ip [] = 0
total_ip (r ∷ rs) = 1 + (r.end - r.start) + total_ip rs

abbrev pub max_int64 : ℕ
max_int64 = 0x7fff_ffff_ffff_ffff

-- `Int64` of a larger number is not used.
unfoldable pub total_ip_int : List Range → ℕ
unfolding total_ip
total_ip_int rs = if ltb max_int64 (total_ip rs) then max_int64 else total_ip rs

abbrev pub meets : Range → Range → Bool
meets x y =
    leb y.start x.start && leb x.start y.end
    || leb y.start x.end && leb x.end y.end
    || leb x.start y.start && leb y.start x.end
    || leb x.start y.end && leb y.end x.end

unfoldable pub overlaps_with : Range → List Range → List Text
overlaps_with x [] = []
overlaps_with x (y ∷ ys) = if meets x y then y.raw ∷ overlaps_with x ys else overlaps_with x ys

unfoldable pub overlap_texts : List Range → List Range → List Text
unfolding overlaps_with
overlap_texts [] ys = []
overlap_texts (x ∷ xs) ys = overlaps_with x ys ++ overlap_texts xs ys

unfoldable pub is_overlap_ip_ranges : List Range → List Range → List Text × Bool
unfolding overlap_texts
is_overlap_ip_ranges xs ys = (overlap_texts xs ys, ltb 0 (length (overlap_texts xs ys)))

abbrev set_add : Text → List Text → List Text
set_add t [] = t ∷ []
set_add t (u ∷ us) = if text_eq u t then u ∷ us else u ∷ set_add t us

abbrev add_all : List Text → List Text → List Text
add_all [] m = m
add_all (t ∷ ts) m = add_all ts (set_add t m)

-- The first write panics if the map is nil.
unfoldable pub add_used_ip : Cidr → List Text → Result Cidr
unfolding text_eq
add_used_ip c [] = ok c
add_used_ip c (t ∷ ts) = elim c.used_map [
  | none ↦ err panic
  | some m ↦ ok (record c { used_map = some (add_all (t ∷ ts) m) })
]

unfoldable pub total_used_ip_int : Cidr → ℕ
total_used_ip_int c = elim c.used_map [ none ↦ 0 | some m ↦ length m ]

abbrev pub ip_range : Cidr → List Range
ip_range c = c.ranges

module _ (n : NetText) where
  open n use {parse_ip, parse_cidr}

  -- The integer of the 4 or 16 bytes, by the family of the base.
  unfoldable pub convert_ip_to_big_int : Cidr → Text → Result ℕ
  unfolding contains
  convert_ip_to_big_int c value = elim (parse_ip value) [
    | none ↦ err invalid_ip
    | some v ↦
        if not (contains c.base (bytes16 v))
        then err not_in_base
        else if c.is_ipv4
        then elim (to4 (bytes16 v)) [ none ↦ err wrong_version | some i ↦ ok i ]
        else ok v
  ]

  abbrev parse_parts : Cidr → Text → List Text → Result (ℕ × ℕ)
  parse_parts c value [] = err invalid_range
  parse_parts c value (a ∷ []) =
      if contains_code b'/' value
      then err invalid_range
      else (convert_ip_to_big_int c value >>= λ i. ok (i, i))
  parse_parts c value (a ∷ b ∷ []) = do
    s ← convert_ip_to_big_int c a
    e ← convert_ip_to_big_int c b
    ok (s, e)
  parse_parts c value (a ∷ b ∷ x ∷ rest) = err invalid_range

  unfoldable pub parse : Cidr → Text → Result (ℕ × ℕ)
  unfolding convert_ip_to_big_int
  parse c value = parse_parts c value (split_on b'-' value)

  unfoldable pub include_all : Cidr → List Text → Result Cidr
  unfolding parse add_include_range
  include_all c [] = ok c
  include_all c (t ∷ ts) = do
    (s, e) ← parse c t
    ranges ← add_include_range c.ranges (record { raw = t; start = s; end = e })
    include_all (record c { ranges = ranges }) ts

  unfoldable pub exclude_ranges : Cidr → List Text → Result (List Range)
  unfolding parse
  exclude_ranges c [] = ok []
  exclude_ranges c (t ∷ ts) = do
    (s, e) ← parse c t
    rest ← exclude_ranges c ts
    ok (record { raw = t; start = s; end = e } ∷ rest)

  unfoldable pub new_cidr : Text → List Text → List Text → Result Cidr
  unfolding include_all exclude_ranges remove_exclude_ip_range
  new_cidr base ranges exclude = elim (parse_cidr base) [
    | none ↦ err bad_base
    | some (v, m) ↦ do
      c ← include_all (record { base = m; is_ipv4 = m.is_v4; ranges = []; used_map = none }) ranges
      excluded ← exclude_ranges c exclude
      ok (record c { ranges = remove_exclude_ip_range c.ranges excluded })
  ]
