-- ===== src/Ipam/Nics.antt =====
-- pkg/ipam/utils.go: the interfaces that the annotation `ipam.spidernet.io/ippools` names.
pub mod Distinct
use spiderpool.Prelude.{
  ℕ, zero, suc, Bool, true, false, not, ◌&&◌, List, [], ◌∷◌, Option, none, some, Text, text_eq, any,
  lookup, codes, if◌then◌else◌,
}

-- `AnnoIPPoolItem`
pub record Item : Type 0 where
  pub nic : Text
  pub ipv4_pools : List Text
  pub ipv6_pools : List Text
  pub clean_gateway : Bool

pub data NicError : Type 0 where
  no_item mixed_nics duplicate_interface interface_missing : NicError

pub data Checked {ℓ} (A : Type ℓ) : Type ℓ where
  ok : A → Checked A
  err : NicError → Checked A

abbrev pub mem : Text → List Text → Bool
mem t = any (text_eq t)

-- `NIC != ""`
abbrev pub has_nic : Item → Bool
has_nic x = not (text_eq x.nic [])

abbrev pub same : Bool → Bool → Bool
same true b = b
same false b = not b

abbrev pub anno_pod_ip_pools : Text
anno_pod_ip_pools = codes "ipam.spidernet.io/ippools"

abbrev pub any_unnamed : Option (List Item) → Bool
any_unnamed none = false
any_unnamed (some items) = any (λ x. not (has_nic x)) items

-- `decode` is `json.Unmarshal` of the annotation's value, none where it fails.
unfoldable pub is_multiple_nic_with_no_name :
    (Text → Option (List Item)) → List (Text × Text) → Bool
unfolding lookup
is_multiple_nic_with_no_name decode anno = elim (lookup anno_pod_ip_pools anno) [
  | none ↦ false
  | some value ↦ any_unnamed (decode value)
]

-- An item and the interfaces of the rest, if these are accepted.
abbrev pub prepend_item : Item → Checked (List Item × List Text) → Checked (List Item × List Text)
prepend_item y (ok (ys, nics)) = ok (y ∷ ys, nics)
prepend_item y (err e) = err e

-- `itoa` is `strconv.Itoa`.
module _ (itoa : ℕ → Text) where
  -- An item without a name gets its index for a name.
  abbrev pub with_name : ℕ → Item → Item
  with_name i x = if has_nic x then x else record x { nic = itoa i }

  -- The loop: the items with their names, and `nicSet`.
  unfoldable pub visit_items : Bool → ℕ → List Text → List Item → Checked (List Item × List Text)
  visit_items named i seen [] = ok ([], seen)
  visit_items named i seen (x ∷ xs) =
      let y = with_name i x in
      let rest = visit_items named (suc i) (y.nic ∷ seen) xs in
      if not (same (has_nic x) named)
      then err mixed_nics
      else if mem y.nic seen
      then err duplicate_interface
      else prepend_item y rest

  abbrev pub require_current : Bool → Text → Checked (List Item × List Text) → Checked (List Item)
  require_current named current (err e) = err e
  require_current named current (ok (ys, nics)) =
      if named then if mem current nics then ok ys else err interface_missing else ok ys

  unfoldable pub validate_and_mutate : List Item → Text → Checked (List Item)
  unfolding visit_items
  validate_and_mutate [] current = err no_item
  validate_and_mutate (x ∷ xs) current =
      require_current (has_nic x) current (visit_items (has_nic x) 0 [] (x ∷ xs))
