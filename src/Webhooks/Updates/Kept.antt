-- ===== src/Webhooks/Updates/Kept.antt =====
-- What an update that the webhooks admit keeps.
use spiderpool.Prelude.{ℕ, ◌≡◌, ◌⊎◌, inl, inr, refl, Bool, true, false, List, [], ◌∷◌, Option, Text}
use spiderpool.Net.Textual.{NetText}
use spiderpool.Webhooks.Objects.{PoolObject, SubnetObject, Affinity, Enabled, Reason}
use spiderpool.Webhooks.IpPool.{validate_update_ip_pool}
use spiderpool.Webhooks.IpPool.InSubnet.{
  in_subnet_too, validate_update_ip_pool_while_enable_spider_subnet,
}
use spiderpool.Webhooks.IpPool.InUse.{KeepsUsed, validate_update_ip_pool-keeps}
use spiderpool.Webhooks.Subnet.Kept.{KeepsGiven, validate_update_subnet-keeps}
use spiderpool.Webhooks.Updates.{unless_terminating, admit_ip_pool_update, admit_subnet_update}

-- The object terminates and has lost its finalizer, or it does not terminate and `P` holds.
abbrev pub GoneOr : Bool → Bool → Type 0 → Type 0
GoneOr deleting has_finalizer P =
    ((deleting ≡ true) × (has_finalizer ≡ false)) ⊎ ((deleting ≡ false) × P)

unless_terminating-none :
    (deleting has_finalizer : Bool) (checks : List Reason)
    → unless_terminating deleting has_finalizer checks ≡ []
    → GoneOr deleting has_finalizer (checks ≡ [])
unless_terminating-none false f checks h = inr (refl, h)
unless_terminating-none true true checks h = cc
unless_terminating-none true false checks h = inl (refl, refl)

module _ (n : NetText) (fuel : ℕ) where
  in_subnet_too-none :
      (enable : Bool) (get : Text → Option SubnetObject) (p : PoolObject) (rs : List Reason)
      → in_subnet_too n fuel enable get p rs ≡ []
      → rs ≡ []
  in_subnet_too-none enable get p [] h = refl
  in_subnet_too-none true get p (r ∷ rs) h = cc
  in_subnet_too-none false get p (r ∷ rs) h = cc

  -- An IPPool whose update the webhook admits either terminates and has lost its finalizer, or it
  -- does not terminate and keeps its subnet, and its version if it had one, which is enabled, and
  -- each address of its records is the text of one that its ranges hold and that it does not
  -- exclude.
  pub admit_ip_pool_update-keeps :
      (enable : Bool) (get : Text → Option SubnetObject) (enabled : Enabled)
      (check_selector : Affinity → List Reason) (pools : Option (List PoolObject))
      (old new : PoolObject)
      → admit_ip_pool_update n fuel enable get enabled check_selector pools old new ≡ []
      → GoneOr new.deleting new.has_finalizer (KeepsUsed n fuel enabled old new)
  unfolding admit_ip_pool_update validate_update_ip_pool_while_enable_spider_subnet
  admit_ip_pool_update-keeps enable get enabled check_selector pools old new h =
      elim (unless_terminating-none new.deleting new.has_finalizer _ h) [
        | inl gone ↦ inl gone
        | inr (live, checked) ↦ inr (
          live,
          validate_update_ip_pool-keeps n fuel enabled check_selector pools old new (
              in_subnet_too-none enable get new
                (validate_update_ip_pool n fuel enabled check_selector pools old new) checked),
        )
      ]

  -- A subnet whose update the webhook admits either terminates and has lost its finalizer, or it
  -- does not terminate and keeps its text, and its version if it had one, which is enabled, and
  -- every address that it has given to a pool is one that its ranges hold and that it does not
  -- exclude.
  pub admit_subnet_update-keeps :
      (enabled : Enabled) (old new : SubnetObject)
      → admit_subnet_update n fuel enabled old new ≡ []
      → GoneOr new.deleting new.has_finalizer (KeepsGiven n fuel enabled old new)
  unfolding admit_subnet_update
  admit_subnet_update-keeps enabled old new h =
      elim (unless_terminating-none new.deleting new.has_finalizer _ h) [
        | inl gone ↦ inl gone
        | inr (live, checked) ↦
            inr (live, validate_update_subnet-keeps n fuel enabled old new checked)
      ]
