-- ===== src/Ip/Range/RoundTrip.antt =====
-- pkg/ip/iprange.go: `ConvertIPsToIPRanges` writes ranges that `ParseIPRanges` reads back.
use mathlib.Core.List.{append-nil}
use spiderpool.Prelude.{
  ℕ, zero, suc, ◌+◌, ◌<◌, ◌≤◌, ◌≡◌, refl, ap, ◌∙◌, Bool, true, false, not, List, [], ◌∷◌, ◌++◌, map,
  arith, Text, ◌==◌, Bool-cases, inl, inr, All, length, split_on, split_on_none, split_on_one,
}
use spiderpool.Net.Address.{Ip, equal}
use spiderpool.Net.Textual.{NetText, NetTextLaws}
use spiderpool.Ip.Arithmetic.{int_to_ip, next_ip, cmp}
use spiderpool.Ip.Result.{ok}
use spiderpool.Ip.Format.{is_gt, parsed, is_ip_range}
use spiderpool.Ip.Range.{
  parse_ip_range, range_of_parts, print_run, parse_ip_ranges, printed, merge_runs,
}
use spiderpool.Ip.Range.Termination.{upto, cmp_le, addresses_up_to_lem}
use spiderpool.Ip.Range.Band.{
  Family, v4, v6, base, version_of, addr, InBand, Good, ip_to_int-addr, int_to_ip-addr,
  next_ip-addr, addr-injective, InBand-AllRepresentable, parsed-printed, is_address-printed,
  modulus, lowest,
}

map-upto :
    (f : Family) (k i : ℕ)
    → lowest f ≤ i
    → i + k ≤ modulus f
    → map int_to_ip (upto k i) ≡ map (addr f) (upto k i)
map-upto f zero i l u = refl
map-upto f (suc k) i l u =
    rw (int_to_ip-addr f i l (omega arith), map-upto f k (i + 1) (omega arith) (omega arith))

upto_snoc :
    (f : Family) (k i : ℕ) (xs : List Ip)
    → map (addr f) (upto (suc k) i) ++ xs ≡ map (addr f) (upto k i) ++ addr f (i + k) ∷ xs
upto_snoc f zero i xs = let e : i + 0 ≡ i = omega arith in rw e
upto_snoc f (suc k) i xs =
    let e : i + 1 + k ≡ i + suc k = omega arith in
    ap (◌∷◌ (addr f i)) (rw (← e) (upto_snoc f k (i + 1) xs))

module _ (n : NetText) (laws : NetTextLaws n) where
  split_single :
      (f : Family) (i : ℕ) → split_on b'-' (printed n (addr f i)) ≡ printed n (addr f i) ∷ []
  split_single f i = split_on_none b'-' (printed n (addr f i)) (laws.print_dash (base f + i))

  split_pair :
      (f : Family) (i j : ℕ)
      → split_on b'-' (printed n (addr f i) ++ b'-' ∷ printed n (addr f j))
        ≡ printed n (addr f i) ∷ printed n (addr f j) ∷ []
  split_pair f i j =
      split_on_one b'-' (printed n (addr f i)) (printed n (addr f j)) (laws.print_dash (base f + i))
        (laws.print_dash (base f + j))

  single_accepted :
      (f : Family) (i : ℕ)
      → InBand f i
      → is_ip_range n (version_of f) (printed n (addr f i)) ≡ ok tt
  unfolding is_ip_range
  single_accepted v4 i h = rw (split_single v4 i, is_address-printed n laws v4 i h)
  single_accepted v6 i h = rw (split_single v6 i, is_address-printed n laws v6 i h)

  ordered :
      (f : Family) (i j : ℕ)
      → InBand f i
      → InBand f j
      → i ≤ j
      → is_gt (cmp (parsed n (printed n (addr f i))) (parsed n (printed n (addr f j)))) ≡ false
  ordered f i j h k l =
      rw (parsed-printed n laws f i h, parsed-printed n laws f j k)
        (cmp_le (addr f i) (addr f j) (rw (ip_to_int-addr f i h, ip_to_int-addr f j k) l))

  run_accepted :
      (f : Family) (i j : ℕ)
      → InBand f i
      → InBand f j
      → i ≤ j
      → is_ip_range n (version_of f) (printed n (addr f i) ++ b'-' ∷ printed n (addr f j)) ≡ ok tt
  unfolding is_ip_range
  run_accepted v4 i j h k l = rw (
    split_pair v4 i j,
    is_address-printed n laws v4 i h,
    is_address-printed n laws v4 j k,
    ordered v4 i j h k l,
  )
  run_accepted v6 i j h k l = rw (
    split_pair v6 i j,
    is_address-printed n laws v6 i h,
    is_address-printed n laws v6 j k,
    ordered v6 i j h k l,
  )

  single_lem :
      (f : Family) (fuel i : ℕ)
      → InBand f i
      → parse_ip_range n fuel (version_of f) (printed n (addr f i)) ≡ ok (addr f i ∷ [])
  unfolding parse_ip_range
  single_lem f fuel i h =
      rw (single_accepted f i h, split_single f i, range_of_parts, parsed-printed n laws f i h)

  run_lem :
      (f : Family) (fuel i k : ℕ)
      → InBand f i
      → InBand f (i + k)
      → k + 1 < fuel
      → parse_ip_range n fuel
          (version_of f)
          (printed n (addr f i) ++ b'-' ∷ printed n (addr f (i + k)))
        ≡ ok (map (addr f) (upto (suc k) i))
  unfolding parse_ip_range
  run_lem f fuel i k h g u = rw (
    run_accepted f i (i + k) h g (omega arith),
    split_pair f i (i + k),
    range_of_parts,
    parsed-printed n laws f i h,
    parsed-printed n laws f (i + k) g,
    addresses_up_to_lem k fuel (addr f i) (addr f (i + k))
        (rw (ip_to_int-addr f i h, ip_to_int-addr f (i + k) g))
        (rw (ip_to_int-addr f i h, ip_to_int-addr f (i + k) g)
          (InBand-AllRepresentable f i (i + k) h g))
        u,
    ip_to_int-addr f i h,
    map-upto f k (i + 1) (omega arith) (omega arith),
  )

  print_run_lem :
      (f : Family) (fuel i k : ℕ)
      → InBand f i
      → InBand f (i + k)
      → k + 1 < fuel
      → parse_ip_range n fuel
          (version_of f)
          (print_run n (addr f i) (addr f (i + k)) (not (k == 0)))
        ≡ ok (map (addr f) (upto (suc k) i))
  print_run_lem f fuel i zero h g u = single_lem f fuel i h
  print_run_lem f fuel i (suc k) h g u =
      let more : not (suc k == 0) ≡ true = ground arith in rw more (run_lem f fuel i (suc k) h g u)

  parse_cons :
      (fuel version : ℕ) (r : Text) (rs : List Text) (xs ys : List Ip)
      → parse_ip_range n fuel version r ≡ ok xs
      → parse_ip_ranges n fuel version rs ≡ ok ys
      → parse_ip_ranges n fuel version (r ∷ rs) ≡ ok (xs ++ ys)
  unfolding parse_ip_ranges
  parse_cons fuel version r rs xs ys h k = rw (h, k)

  parse_one :
      (fuel version : ℕ) (r : Text) (xs : List Ip)
      → parse_ip_range n fuel version r ≡ ok xs
      → parse_ip_ranges n fuel version (r ∷ []) ≡ ok xs
  unfolding parse_ip_ranges
  parse_one fuel version r xs h = rw (h, append-nil xs)

  merge_join :
      (start end x : Ip) (more : Bool) (xs : List Ip)
      → equal x (next_ip end) ≡ true
      → merge_runs n start end more (x ∷ xs) ≡ merge_runs n start x true xs
  unfolding merge_runs
  merge_join start end x more xs h = rw (h, merge_runs)

  merge_break :
      (start end x : Ip) (more : Bool) (xs : List Ip)
      → equal x (next_ip end) ≡ false
      → merge_runs n start end more (x ∷ xs)
        ≡ print_run n start end more ∷ merge_runs n x x false xs
  unfolding merge_runs
  merge_break start end x more xs h = rw (h, merge_runs)

  merge_end :
      (start end : Ip) (more : Bool)
      → merge_runs n start end more [] ≡ print_run n start end more ∷ []
  unfolding merge_runs
  merge_end start end more = refl

  -- Reading back what the loop writes for an open run and the addresses after it.
  pub merge_runs_lem :
      (f : Family) (fuel : ℕ) (xs : List Ip) (i k : ℕ)
      → InBand f i
      → InBand f (i + k)
      → All (Good f) xs
      → k + length xs + 1 < fuel
      → parse_ip_ranges n fuel
          (version_of f)
          (merge_runs n (addr f i) (addr f (i + k)) (not (k == 0)) xs)
        ≡ ok (map (addr f) (upto (suc k) i) ++ xs)
  merge_runs_lem f fuel [] i k h g a u =
      rw
        (
          merge_end (addr f i) (addr f (i + k)) (not (k == 0)),
          append-nil (map (addr f) (upto (suc k) i)),
        )
        (parse_one fuel (version_of f) _ _ (print_run_lem f fuel i k h g (omega arith)))
  merge_runs_lem f fuel (x ∷ xs) i k h g ((j, e, b), a) u =
      elim (Bool-cases (equal x (next_ip (addr f (i + k))))) [
        | inl joins ↦
            let same : j ≡ i + k + 1 =
              addr-injective f j (i + k + 1) x _ e (next_ip-addr f (i + k) g) joins in
            let last : x ≡ addr f (i + suc k) = e ∙ ap (addr f) (omega arith) in
            let more : not (suc k == 0) ≡ true = ground arith in
            let next : InBand f (i + suc k) = (omega arith, omega arith) in
            rw
              (
                merge_join (addr f i) (addr f (i + k)) x (not (k == 0)) xs joins,
                last,
                ← more,
                merge_runs_lem f fuel xs i (suc k) h next a (omega arith),
              )
              (ap ok (upto_snoc f (suc k) i xs))
        | inr breaks ↦
            let alone : j + 0 ≡ j = omega arith in
            let rest = merge_runs_lem f fuel xs j 0 b (rw alone b) a (omega arith) in
            rw (merge_break (addr f i) (addr f (i + k)) x (not (k == 0)) xs breaks) (
              parse_cons fuel (version_of f) _ _ _ (x ∷ xs)
                (print_run_lem f fuel i k h g (omega arith)) (rw e (rw alone at rest)))
      ]
