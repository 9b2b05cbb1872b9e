-- ===== src/Tests/Webhooks.antt =====
-- The theorems of the webhooks, at pools and subnets of one small network.
use spiderpool.Prelude.{
  ℕ, ◌+◌, ◌≡◌, refl, true, false, List, [], ◌∷◌, none, some, Text, text_eq, any, codes, split_on,
  contains_code,
}
use spiderpool.Net.Address.{Ip, bytes16}
use spiderpool.Ip.Result as Ip
use spiderpool.Ip.Range.Merge.{has}
use spiderpool.Pool.Records.{json, absent}
use spiderpool.Subnets.Records as Subnets
use spiderpool.Webhooks.Objects.{
  PoolObject, SubnetObject, ReservedObject, Enabled, label_ip_pool_cidr, terminating,
}
use spiderpool.Webhooks.IpPool.{validate_create_ip_pool}
use spiderpool.Webhooks.IpPool.Apart.{IsApart, validate_create_ip_pool-IsApart}
use spiderpool.Webhooks.IpPool.InUse.{KeepsUsed}
use spiderpool.Webhooks.IpPool.InSubnet.{validate_create_ip_pool_while_enable_spider_subnet}
use spiderpool.Webhooks.IpPool.InSubnet.Contained.{IsContained, validate_create-IsContained}
use spiderpool.Webhooks.Updates.{admit_ip_pool_update, admit_subnet_update}
use spiderpool.Webhooks.Updates.Kept.{GoneOr, admit_ip_pool_update-keeps, admit_subnet_update-keeps}
use spiderpool.Webhooks.Subnet.Kept.{KeepsGiven}
use spiderpool.Webhooks.ReservedIp.{assemble_reserved_ips}
use spiderpool.Webhooks.ReservedIp.Reserved.{reserves, assemble_reserved_ips_lem}
use spiderpool.Tests.Net.{networked, show, address}

abbrev text : ℕ → Text
text i = show (address i)

abbrev ip : ℕ → Ip
ip i = bytes16 (address i)

abbrev both : Enabled
both = record { ipv4 = true; ipv6 = true }

abbrev first : PoolObject
first = record {
  name = codes "a";
  deleting = false;
  has_finalizer = true;
  labels = (label_ip_pool_cidr, codes "net") ∷ [];
  controller = none;
  version = some 4;
  subnet = codes "net";
  ips = text 1 ∷ text 2 ∷ [];
  exclude_ips = [];
  gateway = none;
  routes = none;
  pod_affinity = none;
  allocated_ips = json ((text 2, record { namespaced_name = []; pod_uid = [] }) ∷ []);
}

abbrev second : PoolObject
second = record first { name = codes "b"; ips = text 3 ∷ text 4 ∷ []; allocated_ips = absent }

abbrev controlled : PoolObject
controlled = record second { controller = some (record { name = codes "s"; uid = codes "u" }) }

abbrev subnet : SubnetObject
subnet = record {
  name = codes "s";
  uid = codes "u";
  deleting = false;
  has_finalizer = true;
  labels = [];
  version = some 4;
  subnet = codes "net";
  ips = text 3 ∷ text 4 ∷ text 5 ∷ [];
  exclude_ips = [];
  gateway = none;
  routes = none;
  controlled_ip_pools =
      Subnets.json ((codes "b", record { ips = text 3 ∷ text 4 ∷ []; application = none }) ∷ []);
}

created : validate_create_ip_pool networked 20 both (λ a. []) (some (first ∷ [])) second ≡ []
unfolding validate_create_ip_pool text_eq split_on contains_code
created = refl

validate_create_ip_pool-IsApart_example : IsApart networked 20 both second (first ∷ [])
validate_create_ip_pool-IsApart_example =
    validate_create_ip_pool-IsApart networked 20 both (λ a. []) (first ∷ []) second created

updated :
    admit_ip_pool_update networked 20 false
      (λ name. some subnet)
      both
      (λ a. [])
      (some (first ∷ []))
      first
      (record first { ips = text 2 ∷ [] })
    ≡ []
unfolding admit_ip_pool_update text_eq split_on contains_code
updated = refl

created_within :
    validate_create_ip_pool_while_enable_spider_subnet networked 20 true
      (λ name. some subnet)
      both
      (λ a. [])
      (some (first ∷ []))
      controlled
    ≡ []
unfolding validate_create_ip_pool_while_enable_spider_subnet text_eq split_on contains_code
created_within = refl

validate_create-IsContained_example :
    (v : ℕ) × (controlled.version ≡ some v)
    × IsContained networked 20
        (λ name. some subnet)
        v
        controlled
        (record { name = codes "s"; uid = codes "u" })
validate_create-IsContained_example =
    validate_create-IsContained networked 20 (λ name. some subnet) both (λ a. [])
      (some (first ∷ [])) controlled (record { name = codes "s"; uid = codes "u" }) refl
      created_within

shrunk :
    admit_subnet_update networked 20 both subnet (record subnet { ips = text 3 ∷ text 4 ∷ [] }) ≡ []
unfolding admit_subnet_update text_eq split_on contains_code
shrunk = refl

abbrev reserved : List ReservedObject
reserved =
    record { deleting = false; version = some 4; ips = text 7 ∷ [] }
    ∷ record { deleting = true; version = some 4; ips = text 8 ∷ [] }
    ∷ []

reserved_are : assemble_reserved_ips networked 20 (some reserved) 4 ≡ some (Ip.ok (ip 7 ∷ []))
unfolding assemble_reserved_ips split_on contains_code
reserved_are = refl

assemble_reserved_ips_lem_example :
    has (address 7 + 1) (ip 7 ∷ []) ≡ any (reserves networked 20 4 (address 7 + 1)) reserved
assemble_reserved_ips_lem_example =
    assemble_reserved_ips_lem networked 20 4 reserved (ip 7 ∷ []) reserved_are (address 7 + 1)

admit_ip_pool_update-keeps_example :
    GoneOr false true (KeepsUsed networked 20 both first (record first { ips = text 2 ∷ [] }))
admit_ip_pool_update-keeps_example =
    admit_ip_pool_update-keeps networked 20 false (λ name. some subnet) both (λ a. [])
      (some (first ∷ [])) first (record first { ips = text 2 ∷ [] }) updated

admit_subnet_update-keeps_example :
    GoneOr false true
      (KeepsGiven networked 20 both subnet (record subnet { ips = text 3 ∷ text 4 ∷ [] }))
admit_subnet_update-keeps_example =
    admit_subnet_update-keeps networked 20 both subnet
      (record subnet { ips = text 3 ∷ text 4 ∷ [] }) shrunk

-- A terminating pool may not be updated while it has its finalizer.
terminates :
    admit_ip_pool_update networked 20 false
      (λ name. some subnet)
      both
      (λ a. [])
      (some (first ∷ []))
      first
      (record first { deleting = true })
    ≡ terminating ∷ []
unfolding admit_ip_pool_update
terminates = refl
