-- ===== src/Subnets/PreAllocate/Branches.antt =====
-- pkg/subnetmanager/subnet_manager.go, `preAllocateIPsFromSubnet`: each of its branches.
use spiderpool.Prelude.{
  ℕ, suc, ◌+◌, ◌-◌, ◌<◌, ◌≤◌, ◌≡◌, ◌⊎◌, refl, sym, ◌∙◌, Bool, true, false, ◌||◌, List, [], ◌∷◌,
  ◌++◌, Option, none, some, Text, arith, All, All-append, lookup, insert, length, take, ltb, leb,
  if◌then◌else◌, Bool-cases, inl, inr, text_eq, text_eq_iff, lookup-insert, length-append,
}
use spiderpool.Net.Address.{Ip}
use spiderpool.Net.Textual.{NetText, NetTextLaws}
use spiderpool.Ip.Result as Ip
use spiderpool.Ip.Range.{parse_ip_ranges, convert_ips_to_ip_ranges, sort_addresses, address_set}
use spiderpool.Ip.Range.Band.{Family, version_of, Good}
use spiderpool.Ip.Range.Merge.{
  has, has-sort_addresses, has-address_set, parse-convert_ips_to_ip_ranges,
}
use spiderpool.Ip.Sets.{ips_diff_set, is_diff_ip_set, assemble_total_ips}
use spiderpool.Ip.Sets.Algebra.{set_algebra, is_diff_ip_set_iff, has-append}
use spiderpool.Subnets.Records.{
  PreAllocation, PreAllocations, Subnet, ok, ◌>>=◌, from_ip, unmarshal_subnet_allocated_ip_pools,
}
use spiderpool.Subnets.FreeIps.{used_texts, gen_subnet_free_ips}
use spiderpool.Subnets.PreAllocate.{
  ScaledPool, allocated_texts, write_status, reuse, shrink, grow, without_reserved,
}
use spiderpool.Subnets.PreAllocate.Parts.{
  has-take, length-take-le, take-All, ips_diff_set-All, length-ips_diff_set-le, pools_after,
  write_status_lem,
}

-- Every address of the first list is in the second.
abbrev pub Within : List Ip → List Ip → Type 0
Within xs ys = (v : ℕ) → has (suc v) xs ≡ true → has (suc v) ys ≡ true

-- An address that the subnet has and that is neither used nor reserved.
abbrev pub IsFree : List Ip → List Ip → List Ip → ℕ → Type 0
IsFree total used reserved v =
    (has (suc v) total ≡ true) × (has (suc v) used ≡ false) × (has (suc v) reserved ≡ false)

-- The ranges stand for addresses that the pool had or that were free, among them all that it uses,
-- and the pool is the only one whose pre-allocation changes.
abbrev pub Given :
    (List Text → Ip.Result (List Ip))
    → PreAllocations
    → Text
    → (List Ip × List Ip × List Ip)
    → List Ip
    → List Ip
    → List Text
    → Option Subnet
    → Type 0
Given parse m name (total, used, reserved) held allocated ranges w =
    (new : List Ip) × (parse ranges ≡ Ip.ok new)
    × ((v : ℕ) → has (suc v) new ≡ true → (has (suc v) held ≡ true) ⊎ IsFree total used reserved v)
    × Within allocated new
    × (p : PreAllocation) × (p.ips ≡ ranges)
    × ((k : Text) → lookup k (pools_after m w) ≡ (if text_eq name k then some p else lookup k m))

module _ (total used : List Ip) where
  remaining-IsFree :
      (v : ℕ) (rs : List Ip)
      → has (suc v) (without_reserved rs (ips_diff_set total used true)) ≡ true
      → IsFree total used rs v
  remaining-IsFree v [] h =
      let alg = (set_algebra v total used true).0 in (ground arith, ground arith, refl)
  remaining-IsFree v (r ∷ rs) h =
      let free = ips_diff_set total used true in
      let alg = (set_algebra v total used true).0 in
      let left = (set_algebra v free (r ∷ rs) true).0 in (ground arith, ground arith, ground arith)

  free-All :
      (P : Ip → Type 0) (rs : List Ip)
      → All P total
      → All P (without_reserved rs (ips_diff_set total used true))
  free-All P [] h = ips_diff_set-All P total used true h
  free-All P (r ∷ rs) h =
      ips_diff_set-All P (ips_diff_set total used true) (r ∷ rs) true
        (ips_diff_set-All P total used true h)

  length-free-le :
      (rs : List Ip) → length (without_reserved rs (ips_diff_set total used true)) ≤ length total
  length-free-le [] = length-ips_diff_set-le total used true
  length-free-le (r ∷ rs) =
      let free = ips_diff_set total used true in
      omega
        (arith, length-ips_diff_set-le total used true, length-ips_diff_set-le free (r ∷ rs) true)

module _ (n : NetText) (laws : NetTextLaws n) (f : Family) (fuel : ℕ) where
  abbrev pub parsed_texts : List Text → Ip.Result (List Ip)
  parsed_texts = parse_ip_ranges n fuel (version_of f)

  -- A conversion that is written gives what its addresses give.
  written :
      (update : Subnet → Bool) (s : Subnet) (m : PreAllocations) (name : Text)
      (facts : List Ip × List Ip × List Ip) (held allocated ips : List Ip)
      (make : List Text → PreAllocation) (version : ℕ)
      → ((rs : List Text) → (make rs).ips ≡ rs)
      → version ≡ version_of f
      → All (Good f) ips
      → length ips + 1 < fuel
      → ((v : ℕ)
          → has (suc v) ips ≡ true
          → (has (suc v) held ≡ true) ⊎ IsFree facts.0 facts.1 facts.2 v)
      → Within allocated ips
      → {ranges : List Text} {w : Option Subnet}
      → (from_ip (convert_ips_to_ip_ranges n version ips) >>= λ rs.
          write_status n fuel update s (insert name (make rs) m) rs)
        ≡ ok (ranges, w)
      → Given parsed_texts m name facts held allocated ranges w
  written update s m name facts held allocated ips make version shape e good small sound kept h =
      let (merged, c, back) = parse-convert_ips_to_ip_ranges n laws f fuel ips good small in
      let (r, stored) =
        write_status_lem n fuel update s m (insert name (make merged) m) merged (rw (e, c) at h) in
      let same =
        λ (v : ℕ). has-sort_addresses (suc v) (address_set ips) ∙ has-address_set (suc v) ips in
      (
        sort_addresses (address_set ips),
        rw r back,
        λ v g. sound v (sym (same v) ∙ g),
        λ v g. same v ∙ kept v g,
        make merged,
        shape merged ∙ sym r,
        λ k. rw stored (lookup-insert name k (make merged) m),
      )

  -- More addresses: free ones, and those that the pool has.
  pub grow-Given :
      (update : Subnet → Bool) (app : Text) (s : Subnet) (m : PreAllocations) (pool : ScaledPool)
      (count : ℕ) (total used reserved held allocated : List Ip) {ranges : List Text}
      {w : Option Subnet}
      → s.ip_version ≡ version_of f
      → gen_subnet_free_ips n fuel s ≡ ok (ips_diff_set total used true)
      → All (Good f) total
      → All (Good f) held
      → length total + length held + 1 < fuel
      → Within allocated held
      → grow n fuel update app (Ip.ok reserved) s m pool count held ≡ ok (ranges, w)
      → Given parsed_texts m pool.name (total, used, reserved) held allocated ranges w
  unfolding grow
  grow-Given update app s m pool count total used reserved held allocated e free gt gh small within
        h =
      let left = without_reserved reserved (ips_diff_set total used true) in
      let mine = take count left in
      let h1 = rw free at h in
      elim (Bool-cases (ltb (length left) count)) [
        | inl few ↦ cc (rw few at h1)
        | inr enough ↦
            written update s m pool.name (total, used, reserved) held allocated (mine ++ held)
              (λ rs. record { ips = rs; application = some app }) s.ip_version (λ rs. refl) e
              (All-append (Good f) mine held
                (take-All (Good f) count left (free-All total used (Good f) reserved gt)) gh)
              (omega (
                arith,
                length-append mine held,
                length-take-le count left,
                length-free-le total used reserved,
              ))
              (λ v g. elim (Bool-cases (has (suc v) held)) [
                | inl old ↦ inl old
                | inr new ↦
                    let mem = has-append (suc v) mine held in
                    inr (
                      remaining-IsFree total used v reserved
                        (has-take (suc v) count left (ground arith)))
              ])
              (λ v g.
                let mem = has-append (suc v) mine held in let old = within v g in ground arith)
              (rw enough at h1)
      ]

  pub free_lem :
      (s : Subnet) (m : PreAllocations) (total used : List Ip)
      → unmarshal_subnet_allocated_ip_pools s.controlled_ip_pools ≡ ok m
      → assemble_total_ips n fuel s.ip_version s.ips s.exclude_ips ≡ Ip.ok total
      → parse_ip_ranges n fuel s.ip_version (used_texts m) ≡ Ip.ok used
      → gen_subnet_free_ips n fuel s ≡ ok (ips_diff_set total used true)
  unfolding gen_subnet_free_ips
  free_lem s m total used um ts us = rw (um, us, ts) refl

  -- Fewer addresses: those given back are none that the pool uses.
  pub shrink-Given :
      (update : Subnet → Bool) (app : Text) (s : Subnet) (m : PreAllocations) (pool : ScaledPool)
      (desired : ℕ) (facts : List Ip × List Ip × List Ip) (held allocated : List Ip)
      (texts : List Text) {ranges : List Text} {w : Option Subnet}
      → s.ip_version ≡ version_of f
      → allocated_texts pool.allocated_ips ≡ ok texts
      → parse_ip_ranges n fuel s.ip_version texts ≡ Ip.ok allocated
      → All (Good f) held
      → length held + 1 < fuel
      → Within allocated held
      → shrink n fuel update app s m pool desired held ≡ ok (ranges, w)
      → Given parsed_texts m pool.name facts held allocated ranges w
  unfolding shrink
  shrink-Given update app s m pool desired facts held allocated texts e t p gh small within h =
      let unused = ips_diff_set held allocated true in
      let discarded = take (length held - desired) unused in
      let beyond = ltb (length held) desired || ltb (length unused) (length held - desired) in
      let h1 = rw t at h in
      elim (Bool-cases (leb (length texts) desired)) [
        | inr many ↦ cc (rw many at h1)
        | inl few ↦
            let h2 = rw p at (rw few at h1) in
            elim (Bool-cases beyond) [
              | inl far ↦ cc (rw far at h2)
              | inr near ↦
                  written update s m pool.name facts held allocated
                    (ips_diff_set held discarded false)
                    (λ rs. record { ips = rs; application = some app }) s.ip_version (λ rs. refl) e
                    (ips_diff_set-All (Good f) held discarded false gh)
                    (omega (arith, length-ips_diff_set-le held discarded false))
                    (λ v g. inl (let alg = (set_algebra v held discarded false).0 in ground arith))
                    (λ v g.
                      let old = within v g in
                      let alg = (set_algebra v held discarded false).0 in
                      let out = (set_algebra v held allocated true).0 in
                      let sub = has-take (suc v) (length held - desired) unused in
                      elim (Bool-cases (has (suc v) discarded)) [
                        | inl gone ↦ let there = sub gone in cc (out, there, g)
                        | inr stays ↦ ground arith
                      ])
                    (rw near at h2)
            ]
      ]

  same_lookup :
      (k name : Text) (m : PreAllocations) (old : PreAllocation)
      → lookup name m ≡ some old
      → lookup k m ≡ (if text_eq name k then some old else lookup k m)
  same_lookup k name m old l = elim (Bool-cases (text_eq name k)) [
    | inl e ↦ rw (e, ← (text_eq_iff name k).0 e) l
    | inr e ↦ rw e refl
  ]

  -- As many addresses: the pre-allocation stays.
  pub reuse-Given :
      (update : Subnet → Bool) (s : Subnet) (m : PreAllocations) (pool : ScaledPool)
      (old : PreAllocation) (desired : ℕ) (facts : List Ip × List Ip × List Ip)
      (held allocated : List Ip) (texts : List Text) {ranges : List Text} {w : Option Subnet}
      → lookup pool.name m ≡ some old
      → parsed_texts old.ips ≡ Ip.ok held
      → allocated_texts pool.allocated_ips ≡ ok texts
      → parse_ip_ranges n fuel s.ip_version texts ≡ Ip.ok allocated
      → Within allocated held
      → reuse n fuel update s m pool old desired held ≡ ok (ranges, w)
      → Given parsed_texts m pool.name facts held allocated ranges w
  unfolding reuse
  reuse-Given update s m pool old desired facts held allocated texts {ranges} {w} l o t p within h =
      let same : is_diff_ip_set allocated held ≡ false =
        (is_diff_ip_set_iff allocated held).1 within in
      let h1 = rw same at (rw p at (rw t at h)) in
      let r : ranges ≡ old.ips = cc h1 in
      let u : w ≡ none = cc h1 in
      (held, rw r o, λ v g. inl g, within, old, sym r, λ k. rw u (same_lookup k pool.name m old l))
