-- ===== src/Webhooks/Updates.antt =====
-- `ValidateUpdate` of the webhooks: pkg/ippoolmanager/ippool_webhook.go,
-- pkg/subnetmanager/subnet_webhook.go and pkg/reservedipmanager/reservedip_webhook.go.
pub mod Kept
use spiderpool.Prelude.{ℕ, Bool, true, false, List, [], ◌∷◌, Option, Text, if◌then◌else◌}
use spiderpool.Net.Textual.{NetText}
use spiderpool.Webhooks.Objects.{
  PoolObject, SubnetObject, ReservedObject, Affinity, Enabled, Reason, terminating,
}
use spiderpool.Webhooks.IpPool.InSubnet.{validate_update_ip_pool_while_enable_spider_subnet}
use spiderpool.Webhooks.Subnet.{validate_update_subnet}
use spiderpool.Webhooks.ReservedIp.{validate_update_reserved_ip}

-- A terminating object may lose its finalizer, by an update that is not checked any further, and may
-- not be updated before.
abbrev pub unless_terminating : Bool → Bool → List Reason → List Reason
unless_terminating false has_finalizer checks = checks
unless_terminating true true checks = terminating ∷ []
unless_terminating true false checks = []

module _ (n : NetText) (fuel : ℕ) where
  unfoldable pub admit_ip_pool_update :
      Bool
      → (Text → Option SubnetObject)
      → Enabled
      → (Affinity → List Reason)
      → Option (List PoolObject)
      → PoolObject
      → PoolObject
      → List Reason
  unfolding validate_update_ip_pool_while_enable_spider_subnet
  admit_ip_pool_update enable get enabled check_selector pools old new =
      unless_terminating new.deleting new.has_finalizer (
        validate_update_ip_pool_while_enable_spider_subnet n fuel enable get enabled check_selector
          pools old new)

  unfoldable pub admit_subnet_update : Enabled → SubnetObject → SubnetObject → List Reason
  unfolding validate_update_subnet
  admit_subnet_update enabled old new =
      unless_terminating new.deleting new.has_finalizer
        (validate_update_subnet n fuel enabled old new)

  -- Here the update that sets the deletion is let through.
  unfoldable pub admit_reserved_ip_update : Enabled → ReservedObject → ReservedObject → List Reason
  unfolding validate_update_reserved_ip
  admit_reserved_ip_update enabled old new =
      unless_terminating new.deleting old.deleting
        (validate_update_reserved_ip n fuel enabled old new)
