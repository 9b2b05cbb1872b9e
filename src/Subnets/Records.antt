-- ===== src/Subnets/Records.antt =====
-- The SpiderSubnet as pkg/subnetmanager uses it, and the codec of its pre-allocations in
-- pkg/utils/convert/convert.go. The JSON text of the status is represented by what it decodes to.
use spiderpool.Prelude.{ℕ, Bool, List, [], ◌∷◌, Option, Text}
use spiderpool.Ip.Result.{IpError}
use spiderpool.Ip.Result as Ip
pub use spiderpool.Prelude.Fallible.{Fallible, ok, err, ◌>>=◌}

-- `PoolIPPreAllocation`
pub record PreAllocation : Type 0 where
  pub ips : List Text
  pub application : Option Text

-- `PoolIPPreAllocations`, by the name of the pool
abbrev pub PreAllocations : Type 0
PreAllocations = List (Text × PreAllocation)

-- `Status.ControlledIPPools`, a pointer to a JSON text; `corrupt` is a text that does not decode.
pub data ControlledPools : Type 0 where
  absent corrupt : ControlledPools
  json : PreAllocations → ControlledPools

pub record Subnet : Type 0 where
  pub name : Text
  pub deleting : Bool
  pub ip_version : ℕ
  pub subnet : Text
  pub ips : List Text
  pub exclude_ips : List Text
  pub controlled_ip_pools : ControlledPools
  pub total_ip_count : Option ℕ
  pub allocated_ip_count : Option ℕ

pub data SubnetError : Type 0 where
  ip_error : IpError → SubnetError
  unmarshal_failed wrong_input get_failed insufficient free_ips_not_enough : SubnetError
  update_failed panicked out_of_fuel : SubnetError

abbrev pub Result {ℓ} : Type ℓ → Type ℓ
Result A = Fallible SubnetError A

-- A result of pkg/ip.
abbrev pub from_ip {ℓ} : {A : Type ℓ} → Ip.Result A → Result A
from_ip (Ip.ok a) = ok a
from_ip (Ip.err e) = err (ip_error e)
from_ip Ip.diverge = err out_of_fuel

-- `UnmarshalSubnetAllocatedIPPools`; the nil map is empty.
unfoldable pub unmarshal_subnet_allocated_ip_pools : ControlledPools → Result PreAllocations
unmarshal_subnet_allocated_ip_pools absent = ok []
unmarshal_subnet_allocated_ip_pools corrupt = err unmarshal_failed
unmarshal_subnet_allocated_ip_pools (json m) = ok m

-- `MarshalSubnetAllocatedIPPools`: no pools are stored as nil.
unfoldable pub marshal_subnet_allocated_ip_pools : PreAllocations → ControlledPools
marshal_subnet_allocated_ip_pools [] = absent
marshal_subnet_allocated_ip_pools (p ∷ ps) = json (p ∷ ps)
