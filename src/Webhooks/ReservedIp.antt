-- ===== src/Webhooks/ReservedIp.antt =====
-- pkg/reservedipmanager: the webhook of ReservedIPs, and the addresses that no pool gives out.
pub mod Reserved
use spiderpool.Prelude.{
  ℕ, Bool, false, not, List, [], ◌∷◌, ◌++◌, Option, none, some, Text, filter, ◌==◌, if◌then◌else◌,
}
use spiderpool.Net.Address.{Ip}
use spiderpool.Net.Textual.{NetText}
use spiderpool.Ip.Result as Ip
use spiderpool.Ip.Format.{is_ip_version, is_ip_range, is_ipv4_ip_range, is_ipv6_ip_range}
use spiderpool.Ip.Range.{parse_ip_ranges}
use spiderpool.Webhooks.Objects.{
  ReservedObject, Enabled, Reason, bad_ranges, version_changed, Admission, admit, ◌and_then◌,
  to_list, deny_if, first_then, with_version,
}
use spiderpool.Webhooks.Checks.{validate_ip_version, accepted, is_changed}
use spiderpool.Webhooks.IpPool.Mutation.{Mutated, ok, err, ◌>>=◌, no_version, merge_if_many}

-- The ranges of the objects that are not being deleted
unfoldable pub live_ranges : List ReservedObject → List Text
live_ranges [] = []
live_ranges (r ∷ rs) = (if r.deleting then [] else r.ips) ++ live_ranges rs

abbrev pub of_version : ℕ → ReservedObject → Bool
of_version version r = elim r.version [ none ↦ false | some v ↦ v == version ]

module _ (n : NetText) (fuel : ℕ) where
  -- `AssembleReservedIPs`: the list is by the field of the version, none for an error; the error of
  -- the list is not told from the others.
  unfoldable pub assemble_reserved_ips :
      Option (List ReservedObject) → ℕ → Option (Ip.Result (List Ip))
  unfolding is_ip_version live_ranges parse_ip_ranges
  assemble_reserved_ips reserved version =
      if not (accepted (is_ip_version version))
      then some (Ip.err Ip.invalid_ip_version)
      else elim reserved [
        | none ↦ none
        | some rs ↦
            some (parse_ip_ranges n fuel version (live_ranges (filter (of_version version) rs)))
      ]

  unfoldable pub validate_reserved_ips : ℕ → List Text → Admission
  unfolding is_ip_range
  validate_reserved_ips version [] = admit
  validate_reserved_ips version (r ∷ rs) =
      deny_if (not (accepted (is_ip_range n version r))) bad_ranges
      and_then validate_reserved_ips version rs

  unfoldable pub validate_create_reserved_ip : Enabled → ReservedObject → List Reason
  unfolding validate_ip_version validate_reserved_ips
  validate_create_reserved_ip enabled r =
      first_then (validate_ip_version enabled r.version)
        (with_version r.version λ v. to_list (validate_reserved_ips v r.ips))

  unfoldable pub validate_update_reserved_ip :
      Enabled → ReservedObject → ReservedObject → List Reason
  unfolding validate_ip_version validate_reserved_ips
  validate_update_reserved_ip enabled old new =
      first_then
        (deny_if (is_changed new.version old.version) version_changed
          and_then validate_ip_version enabled new.version)
        (with_version new.version λ v. to_list (validate_reserved_ips v new.ips))

  -- The version of the first range
  abbrev first_version : Option ℕ → Text → Mutated ℕ
  unfolding is_ipv4_ip_range is_ipv6_ip_range
  first_version (some v) r = ok v
  first_version none r =
      if is_ipv4_ip_range n r then ok 4 else if is_ipv6_ip_range n r then ok 6 else err no_version

  abbrev merge_all : ReservedObject → List Text → Mutated ReservedObject
  unfolding is_ipv4_ip_range is_ipv6_ip_range merge_if_many
  merge_all r [] = err no_version
  merge_all r (t ∷ ts) = first_version r.version t >>= λ v.
      merge_if_many n fuel v (t ∷ ts) >>= λ ips. ok (record r { version = some v; ips = ips })

  unfoldable pub mutate_reserved_ip : ReservedObject → Mutated ReservedObject
  unfolding is_ipv4_ip_range is_ipv6_ip_range merge_if_many
  mutate_reserved_ip r = if r.deleting then ok r else merge_all r r.ips
