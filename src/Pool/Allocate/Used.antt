-- ===== src/Pool/Allocate/Used.antt =====
-- The records as lists of used addresses, and the address of a pod in them.
use spiderpool.Prelude.{
  ℕ, ◌<◌, ◌≡◌, ◌∙◌, sym, ◌||◌, refl, Bool, true, false, List, [], ◌∷◌, ◌++◌, none, some, Text,
  text_eq, text_eq_iff, split_on_none, keys, lookup, arith, Bool-cases, inl, inr,
}
use spiderpool.Net.Address.{Ip, bytes16, v6_modulus}
use spiderpool.Net.Textual.{NetText, NetTextLaws}
use spiderpool.Ip.Result.{Result, ok, err, diverge, ◌>>=◌, ◌>>◌}
use spiderpool.Ip.Format.{parsed, is_ip_range}
use spiderpool.Ip.Range.{parse_ip_range, parse_ip_ranges}
use spiderpool.Ip.Sets.{is_member}
use spiderpool.Pool.Records.{Allocation, Allocations}
use spiderpool.Pool.Allocate.{address_of_uid, find_allocated_ip_from_records}

is_member-append :
    (ip : Ip) (xs ys : List Ip) → is_member ip (xs ++ ys) ≡ (is_member ip xs || is_member ip ys)
is_member-append ip [] ys = refl
is_member-append ip (x ∷ xs) ys = ground (arith, is_member-append ip xs ys)

or-false : (a b : Bool) → (a || b) ≡ false → (a ≡ false) × (b ≡ false)
or-false false b h = (refl, h)
or-false true b h = cc

-- An address outside three lists that are joined is in none of them.
pub is_member-append_three :
    (ip : Ip) (xs ys zs : List Ip)
    → is_member ip (xs ++ (ys ++ zs)) ≡ false
    → (is_member ip xs ≡ false) × (is_member ip ys ≡ false) × (is_member ip zs ≡ false)
is_member-append_three ip xs ys zs h =
    let (a, rest) = or-false _ _ (sym (is_member-append ip xs (ys ++ zs)) ∙ h) in
    let (b, c) = or-false _ _ (sym (is_member-append ip ys zs) ∙ rest) in (a, b, c)

-- A pod that has no record is not found by the fallback either.
pub no_record-find_allocated_ip_from_records :
    (key uid : Text) (m : Allocations)
    → address_of_uid uid m ≡ none
    → find_allocated_ip_from_records m key uid ≡ none
unfolding address_of_uid find_allocated_ip_from_records
no_record-find_allocated_ip_from_records key uid [] h = refl
no_record-find_allocated_ip_from_records key uid ((ip, r) ∷ m) h =
    ground (arith, no_record-find_allocated_ip_from_records key uid m)

-- The two steps of a list of ranges that parses.
parse-split :
    {A B : Type 0} (r : Result A) (s : Result B) {C : Type 0} (f : A → B → C) (c : C)
    → (r >>= λ a. s >>= λ b. ok (f a b)) ≡ ok c
    → (a : A) × (b : B) × (r ≡ ok a) × (s ≡ ok b) × (f a b ≡ c)
parse-split (ok a) (ok b) f c h = (a, b, refl, refl, cc)
parse-split (ok a) (err e) f c h = cc
parse-split (ok a) diverge f c h = cc
parse-split (err e) s f c h = cc
parse-split diverge s f c h = cc

module _ (n : NetText) (laws : NetTextLaws n) where
  open n use {parse_ip, print_ip}

  checked : {A : Type 0} (r : Result (Unit {0})) (s : Result A) (a : A) → (r >> s) ≡ ok a → s ≡ ok a
  checked (ok t) s a h = h
  checked (err e) s a h = cc
  checked diverge s a h = cc

  parse-printed :
      (fuel version v : ℕ) (ips : List Ip)
      → v < v6_modulus
      → parse_ip_range n fuel version (print_ip v) ≡ ok ips
      → ips ≡ bytes16 v ∷ []
  unfolding parse_ip_range
  parse-printed fuel version v ips b h =
      let p = checked (is_ip_range n version (print_ip v)) _ ips h in
      let q = rw (split_on_none b'-' (print_ip v) (laws.print_dash v)) at p in
      let same : parsed n (print_ip v) ≡ bytes16 v = rw (parsed, laws.parse-print v b) refl in
      let done : parsed n (print_ip v) ∷ [] ≡ ips = cc in rw same at (sym done)

  -- The addresses parsed from the keys have every address that is recorded.
  pub recorded-used :
      (fuel version v : ℕ) (m : Allocations) (r : Allocation) (used : List Ip)
      → v < v6_modulus
      → parse_ip_ranges n fuel version (keys m) ≡ ok used
      → lookup (print_ip v) m ≡ some r
      → is_member (bytes16 v) used ≡ true
  unfolding parse_ip_ranges lookup
  recorded-used fuel version v [] r used b h l = cc
  recorded-used fuel version v ((k, s) ∷ m) r used b h l =
      let (a, rest, pa, pr, e) =
        parse-split (parse_ip_range n fuel version k) (parse_ip_ranges n fuel version (keys m)) _
          used h in
      elim (Bool-cases (text_eq k (print_ip v))) [
        | inl same ↦
            let here =
              parse-printed fuel version v a b (rw ((text_eq_iff k (print_ip v)).0 same) at pa) in
            rw (sym e, is_member-append (bytes16 v) a rest, here) (ground arith)
        | inr other ↦
            let there = recorded-used fuel version v m r rest b pr (rw other at l) in
            rw (sym e, is_member-append (bytes16 v) a rest, there) (ground arith)
      ]
