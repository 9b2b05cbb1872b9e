-- ===== src/Pool/Records.antt =====
-- The IPPool resource as pkg/ippoolmanager uses it, and the codec of its records in
-- pkg/utils/convert/convert.go. The JSON text of the status is represented by what it decodes to.
use spiderpool.Prelude.{ℕ, List, [], ◌∷◌, Option, Text, ◌≡◌, ◌⊎◌, refl, inl, inr}
use spiderpool.Ip.Result.{IpError}

-- `PoolIPAllocation`
pub record Allocation : Type 0 where
  pub namespaced_name : Text
  pub pod_uid : Text

-- `PoolIPAllocations`, by the text of the address
abbrev pub Allocations : Type 0
Allocations = List (Text × Allocation)

-- `Status.AllocatedIPs`, a pointer to a JSON text; `corrupt` is a text that does not decode.
pub data Stored : Type 0 where
  absent corrupt : Stored
  json : Allocations → Stored

pub record IpPool : Type 0 where
  pub name : Text
  pub ip_version : ℕ
  pub ips : List Text
  pub exclude_ips : List Text
  pub allocated_ips : Stored
  pub allocated_ip_count : Option ℕ
  pub resource_version : ℕ

pub data PoolError : Type 0 where
  ip_error : IpError → PoolError
  unmarshal_failed reserved_failed ip_used_out data_broken : PoolError
  retries_exhausted update_failed panicked out_of_fuel : PoolError

pub data Result {ℓ} (A : Type ℓ) : Type ℓ where
  ok : A → Result A
  err : PoolError → Result A

infixl 5 ◌>>=◌
abbrev pub ◌>>=◌ {ℓ κ} : {A : Type ℓ} {B : Type κ} → Result A → (A → Result B) → Result B
ok a >>= f = f a
err e >>= f = err e

pub Result-cases {ℓ} :
    {A : Type ℓ} (r : Result A) → ((a : A) × (r ≡ ok a)) ⊎ ((e : PoolError) × (r ≡ err e))
Result-cases (ok a) = inl (a, refl)
Result-cases (err e) = inr (e, refl)

-- `UnmarshalIPPoolAllocatedIPs`; the nil map is empty.
unfoldable pub unmarshal_allocated_ips : Stored → Result Allocations
unmarshal_allocated_ips absent = ok []
unmarshal_allocated_ips corrupt = err unmarshal_failed
unmarshal_allocated_ips (json m) = ok m

-- `MarshalIPPoolAllocatedIPs`: no records are stored as nil.
unfoldable pub marshal_allocated_ips : Allocations → Stored
marshal_allocated_ips [] = absent
marshal_allocated_ips (r ∷ rs) = json (r ∷ rs)

-- The records of a pool, empty where they do not decode.
abbrev pub records_of : Stored → Allocations
records_of absent = []
records_of corrupt = []
records_of (json m) = m
