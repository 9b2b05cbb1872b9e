-- ===== src/Ipam/Outdated.antt =====
-- pkg/ipam/allocate.go, `releaseStsOutdatedIPIfNeed`: the addresses of a StatefulSet's pod that are
-- given back because the pools of an interface have changed.
pub mod Partition
use spiderpool.Prelude.{
  ℕ, zero, suc, Bool, true, false, not, ◌&&◌, ◌||◌, List, [], ◌∷◌, ◌++◌, Option, none, some, Text,
  text_eq, length, any, ◌==◌, if◌then◌else◌,
}
use spiderpool.Endpoint.Records.{Detail, Endpoint}
use spiderpool.Ipam.Nics.{mem}
use spiderpool.Ipam.Candidates.{ToBeAllocated, pools_of}

-- `_, ok := poolMap[nic][pool]`
unfoldable pub is_expected : List ToBeAllocated → Text → Text → Bool
unfolding pools_of text_eq
is_expected ts nic pool =
    any (λ (t : ToBeAllocated). text_eq t.nic nic && mem pool (pools_of t.candidates)) ts

pub data Finding : Type 0 where
  fits outdated renew_all : Finding

-- The checks of one pool of a detail; `key` is the index as a text.
unfoldable pub check_pool : List ToBeAllocated → Bool → Text → Text → Text → Option Text → Finding
unfolding text_eq is_expected
check_pool ts multiple if_name key nic none = fits
check_pool ts multiple if_name key nic (some []) = fits
check_pool ts multiple if_name key nic (some (c ∷ pool)) =
    if multiple && not (is_expected ts key (c ∷ pool))
    then renew_all
    else if not (is_expected ts nic (c ∷ pool)) && text_eq nic if_name
    then outdated
    else fits

-- The second finding where the first one does not decide.
abbrev pub or_next : Finding → Finding → Finding
or_next fits g = g
or_next outdated g = outdated
or_next renew_all g = renew_all

-- Both pools of a detail, IPv4 first
unfoldable pub check_detail : List ToBeAllocated → Bool → Text → Text → Detail → Finding
unfolding check_pool
check_detail ts multiple if_name key d =
    or_next (check_pool ts multiple if_name key d.nic d.ipv4_pool)
      (check_pool ts multiple if_name key d.nic d.ipv6_pool)

-- `releaseEndpointIPsFlag`, `needReleaseEndpointIPs` and `noReleaseEndpointIPs`
pub record Sorted : Type 0 where
  pub release : Bool
  pub need : List Detail
  pub keep : List Detail

-- One round of the loop, before the rest; `renew_all` leaves the loop.
abbrev pub add_detail : Finding → Detail → Sorted → Sorted
add_detail fits d rest = record rest { keep = d ∷ rest.keep }
add_detail outdated d rest = record rest { release = true; need = d ∷ rest.need }
add_detail renew_all d rest = record { release = true; need = []; keep = [] }

-- `itoa` is `strconv.Itoa`.
unfoldable pub sort_out : List ToBeAllocated → (ℕ → Text) → Bool → Text → ℕ → List Detail → Sorted
unfolding check_detail
sort_out ts itoa multiple if_name i [] = record { release = false; need = []; keep = [] }
sort_out ts itoa multiple if_name i (d ∷ ds) =
    add_detail (check_detail ts multiple if_name (itoa i) d) d
      (sort_out ts itoa multiple if_name (suc i) ds)

-- The calls of the endpoint manager and of `release`
pub data Effect : Type 0 where
  delete_endpoint remove_finalizer : Effect
  patch_ips release_ips : List Detail → Effect

abbrev pub delete_unless : Bool → List Effect
delete_unless true = []
delete_unless false = delete_endpoint ∷ []

-- The calls, in order, each one only if those before it succeed; none where nothing is outdated.
unfoldable pub release_sts_outdated_ip_if_need :
    List ToBeAllocated → (ℕ → Text) → Bool → Text → Endpoint → List Effect
unfolding sort_out
release_sts_outdated_ip_if_need ts itoa multiple if_name e =
    let s = sort_out ts itoa multiple if_name 0 e.ips in
    if not s.release
    then []
    else if multiple || length s.need == length e.ips
    then delete_unless e.deleting ++ (remove_finalizer ∷ release_ips e.ips ∷ [])
    else patch_ips s.keep ∷ release_ips s.need ∷ []
