-- ===== src/Webhooks/ReservedIp/Reserved.antt =====
-- pkg/reservedipmanager/reservedip_manager.go: which addresses are reserved.
use spiderpool.Prelude.{
  ℕ, ◌≡◌, refl, Bool, true, false, not, ◌&&◌, ◌||◌, List, [], ◌∷◌, ◌++◌, some, Text, any, filter,
  Bool-cases, inl, inr,
}
use spiderpool.Net.Address.{Ip}
use spiderpool.Net.Textual.{NetText}
use spiderpool.Ip.Result as Ip
use spiderpool.Ip.Format.{is_ip_version}
use spiderpool.Ip.Range.{parse_ip_range, parse_ip_ranges}
use spiderpool.Ip.Range.Merge.{has}
use spiderpool.Ip.Sets.Algebra.{has-append}
use spiderpool.Webhooks.Objects.{ReservedObject}
use spiderpool.Webhooks.Checks.{accepted}
use spiderpool.Webhooks.ReservedIp.{live_ranges, of_version, assemble_reserved_ips}

module _ (n : NetText) (fuel version : ℕ) where
  -- Whether the ranges hold an address.
  abbrev pub holds : ℕ → List Text → Bool
  holds r rs = elim (parse_ip_ranges n fuel version rs) [ Ip.ok ips ↦ has r ips | _ ↦ false ]

  -- Ranges that parse together parse in parts.
  parse-append :
      (r : ℕ) (xs ys : List Text) (ips : List Ip)
      → parse_ip_ranges n fuel version (xs ++ ys) ≡ Ip.ok ips
      → (us : List Ip) × (parse_ip_ranges n fuel version xs ≡ Ip.ok us)
        × (zs : List Ip) × (parse_ip_ranges n fuel version ys ≡ Ip.ok zs)
        × (has r ips ≡ (has r us || has r zs))
  unfolding parse_ip_ranges
  parse-append r [] ys ips h = ([], refl, ips, h, refl)
  parse-append r (x ∷ xs) ys ips h = elim (Ip.Result-cases (parse_ip_range n fuel version x)) [
    | inr (inl (e, bad)) ↦ cc (rw bad at h)
    | inr (inr bad) ↦ cc (rw bad at h)
    | inl (first, e) ↦ elim (Ip.Result-cases (parse_ip_ranges n fuel version (xs ++ ys))) [
      | inr (inl (e', bad)) ↦ cc (rw (e, bad) at h)
      | inr (inr bad) ↦ cc (rw (e, bad) at h)
      | inl (rest, e') ↦
          let whole : first ++ rest ≡ ips = cc (rw (e, e') at h) in
          let (us, u, zs, z, members) = parse-append r xs ys rest e' in
          (
            first ++ us,
            rw (e, u) refl,
            zs,
            z,
            rw (← whole, has-append r first rest, has-append r first us, members)
                (or_assoc (has r first) (has r us) (has r zs)),
          )
    ]
  ]
    where
      or_assoc : (a b c : Bool) → (a || (b || c)) ≡ ((a || b) || c)
      or_assoc true b c = refl
      or_assoc false b c = refl

  -- Whether an object reserves an address: it is of the version, is not being deleted, and its
  -- ranges hold the address.
  abbrev pub reserves : ℕ → ReservedObject → Bool
  reserves r o = of_version version o && not o.deleting && holds r o.ips

  parse-nil : parse_ip_ranges n fuel version [] ≡ Ip.ok []
  unfolding parse_ip_ranges
  parse-nil = refl

  live_ranges-reserves :
      (r : ℕ) (os : List ReservedObject) (ips : List Ip)
      → parse_ip_ranges n fuel version (live_ranges (filter (of_version version) os)) ≡ Ip.ok ips
      → has r ips ≡ any (reserves r) os
  unfolding live_ranges
  live_ranges-reserves r [] ips h = let e : [] ≡ ips = cc (parse-nil, h) in rw (← e) refl
  live_ranges-reserves r (o ∷ os) ips h = elim (Bool-cases (of_version version o)) [
    | inr other ↦ rw other (live_ranges-reserves r os ips (rw other at h))
    | inl same ↦ elim (Bool-cases o.deleting) [
      | inl gone ↦ rw (same, gone) (live_ranges-reserves r os ips (rw (same, gone) at h))
      | inr live ↦
          let (us, u, zs, z, members) =
            parse-append r o.ips (live_ranges (filter (of_version version) os)) ips
              (rw (same, live) at h) in
          rw (same, live, holds, u, members, live_ranges-reserves r os zs z) refl
    ]
  ]

  -- An address is reserved exactly if an object of the version that is not being deleted has it in
  -- its ranges.
  pub assemble_reserved_ips_lem :
      (os : List ReservedObject) (ips : List Ip)
      → assemble_reserved_ips n fuel (some os) version ≡ some (Ip.ok ips)
      → (r : ℕ) → has r ips ≡ any (reserves r) os
  unfolding assemble_reserved_ips
  assemble_reserved_ips_lem os ips h r = elim (Bool-cases (accepted (is_ip_version version))) [
    | inr bad ↦ cc (rw (assemble_reserved_ips, bad) at h)
    | inl good ↦
        live_ranges-reserves r os ips (some-injective (rw (assemble_reserved_ips, good) at h))
  ]
    where
      some-injective : {a b : Ip.Result (List Ip)} → some a ≡ some b → a ≡ b
      some-injective e = cc
