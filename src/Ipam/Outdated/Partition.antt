-- ===== src/Ipam/Outdated/Partition.antt =====
-- Which addresses are given back.
use spiderpool.Prelude.{
  ◌≡◌, refl, ap, ◌∙◌, ℕ, suc, Bool, true, false, not, ◌&&◌, ◌||◌, List, [], ◌∷◌, ◌++◌, Option, none,
  some, Text, text_eq, text_eq_refl, length, any, filter, ◌==◌, if◌then◌else◌, arith, Bool-cases,
  inl, inr,
}
use spiderpool.Endpoint.Records.{Detail, Endpoint}
use spiderpool.Ipam.Candidates.{ToBeAllocated}
use spiderpool.Ipam.Outdated.{
  is_expected, Finding, fits, outdated, or_next, add_detail, check_pool, check_detail, sort_out,
  remove_finalizer, patch_ips, release_ips, delete_unless, release_sts_outdated_ip_if_need,
}

-- A pool that is no longer a candidate of the interface
abbrev pub has_left : List ToBeAllocated → Text → Option Text → Bool
has_left ts nic none = false
has_left ts nic (some []) = false
has_left ts nic (some (c ∷ pool)) = not (is_expected ts nic (c ∷ pool))

-- A detail of the interface `if_name` one of whose pools has left
abbrev pub is_outdated : List ToBeAllocated → Text → Detail → Bool
is_outdated ts if_name d =
    text_eq d.nic if_name && (has_left ts d.nic d.ipv4_pool || has_left ts d.nic d.ipv6_pool)

abbrev pub finding : Bool → Finding
finding true = outdated
finding false = fits

check_pool_lem :
    (ts : List ToBeAllocated) (if_name key nic : Text) (p : Option Text)
    → check_pool ts false if_name key nic p ≡ finding (text_eq nic if_name && has_left ts nic p)
unfolding check_pool
check_pool_lem ts if_name key nic none = elim (Bool-cases (text_eq nic if_name)) [
  | inl e ↦ rw e refl
  | inr e ↦ rw e refl
]
check_pool_lem ts if_name key nic (some []) = elim (Bool-cases (text_eq nic if_name)) [
  | inl e ↦ rw e refl
  | inr e ↦ rw e refl
]
check_pool_lem ts if_name key nic (some (c ∷ pool)) =
    swap (is_expected ts nic (c ∷ pool)) (text_eq nic if_name)
  where
    swap : (a b : Bool) → (if not a && b then outdated else fits) ≡ finding (b && not a)
    swap a b = ground arith

check_detail_lem :
    (ts : List ToBeAllocated) (if_name key : Text) (d : Detail)
    → check_detail ts false if_name key d ≡ finding (is_outdated ts if_name d)
unfolding check_detail
check_detail_lem ts if_name key d =
    rw
      (
        check_detail,
        check_pool_lem ts if_name key d.nic d.ipv4_pool,
        check_pool_lem ts if_name key d.nic d.ipv6_pool,
      )
      (both (text_eq d.nic if_name) (has_left ts d.nic d.ipv4_pool) (has_left ts d.nic d.ipv6_pool))
  where
    both : (a b c : Bool) → or_next (finding (a && b)) (finding (a && c)) ≡ finding (a && (b || c))
    both true true c = refl
    both true false c = refl
    both false b c = refl

sort_out_lem :
    (ts : List ToBeAllocated) (itoa : ℕ → Text) (if_name : Text) (i : ℕ) (ds : List Detail)
    → sort_out ts itoa false if_name i ds ≡ record {
      release = any (is_outdated ts if_name) ds;
      need = filter (is_outdated ts if_name) ds;
      keep = filter (λ d. not (is_outdated ts if_name d)) ds;
    }
unfolding sort_out
sort_out_lem ts itoa if_name i [] = refl
sort_out_lem ts itoa if_name i (d ∷ ds) =
    ap (λ x. add_detail x d (sort_out ts itoa false if_name (suc i) ds))
      (check_detail_lem ts if_name (itoa i) d)
    ∙ ap (add_detail (finding (is_outdated ts if_name d)) d)
        (sort_out_lem ts itoa if_name (suc i) ds)
    ∙ add (is_outdated ts if_name d) _ _ _
  where
    add :
        (b r : Bool) (need keep : List Detail)
        → add_detail (finding b) d (record { release = r; need = need; keep = keep }) ≡ record {
          release = b || r;
          need = if b then d ∷ need else need;
          keep = if not b then d ∷ keep else keep;
        }
    add true r need keep = refl
    add false r need keep = refl

-- For a pod whose interfaces have names: where no detail of the interface has lost a pool, nothing is
-- called; where as many details have lost one as there are, the endpoint is deleted, unless it is
-- being deleted, its finalizer is removed, and all addresses are released; otherwise the endpoint
-- keeps the other details, in order, and the addresses of those that have lost a pool are released.
pub release_sts_outdated_ip_if_need_lem :
    (ts : List ToBeAllocated) (itoa : ℕ → Text) (if_name : Text) (e : Endpoint)
    → release_sts_outdated_ip_if_need ts itoa false if_name e ≡ (
        if not (any (is_outdated ts if_name) e.ips)
        then []
        else if length (filter (is_outdated ts if_name) e.ips) == length e.ips
        then delete_unless e.deleting ++ (remove_finalizer ∷ release_ips e.ips ∷ [])
        else patch_ips (filter (λ d. not (is_outdated ts if_name d)) e.ips)
          ∷ release_ips (filter (is_outdated ts if_name) e.ips)
          ∷ [])
unfolding release_sts_outdated_ip_if_need
release_sts_outdated_ip_if_need_lem ts itoa if_name e =
    rw (sort_out_lem ts itoa if_name 0 e.ips) refl

-- For a pod whose interfaces have no names: when the IPv4 pool of the first detail is expected under
-- the index 0 and not under the name of the detail's interface, which the request is for, all details
-- are given back, this one too.
release_sts_outdated_ip_if_need-unnamed :
    (ts : List ToBeAllocated) (itoa : ℕ → Text) (c : ℕ) (pool : Text) (d : Detail)
    (ds : List Detail) (e : Endpoint)
    → e.ips ≡ d ∷ ds
    → d.ipv4_pool ≡ some (c ∷ pool)
    → is_expected ts (itoa 0) (c ∷ pool) ≡ true
    → is_expected ts d.nic (c ∷ pool) ≡ false
    → release_sts_outdated_ip_if_need ts itoa true d.nic e
      ≡ delete_unless e.deleting ++ (remove_finalizer ∷ release_ips e.ips ∷ [])
unfolding release_sts_outdated_ip_if_need sort_out check_detail check_pool
release_sts_outdated_ip_if_need-unnamed ts itoa c pool d ds e ips v4 there gone =
    let first : check_detail ts true d.nic (itoa 0) d ≡ outdated =
      rw (check_detail, v4, check_pool, there, gone, text_eq_refl d.nic) refl in
    rw (ips, sort_out, first) refl
