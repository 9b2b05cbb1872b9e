-- ===== src/Pool/Release.antt =====
-- pkg/ippoolmanager/ippool_manager.go, `ReleaseIP` and `UpdateAllocatedIPs`.
pub mod Ownership
use spiderpool.Prelude.{
  ℕ, Bool, true, false, not, List, [], ◌∷◌, Option, none, some, Text, text_eq, length, lookup,
  insert, remove, if◌then◌else◌,
}
use spiderpool.Pool.Records.{
  Allocation, Allocations, IpPool, PoolError, data_broken, Result, ok, err, ◌>>=◌,
  unmarshal_allocated_ips, marshal_allocated_ips,
}
use spiderpool.Pool.Api.{Attempt, fail, done, write, Cluster, retry_on_conflict, default_steps}

-- `types.IPAndUID`
pub record IpAndUid : Type 0 where
  pub ip : Text
  pub uid : Text

-- The records, the count of the status, and whether a record was released.
pub record Released : Type 0 where
  pub records : Allocations
  pub count : ℕ
  pub release : Bool

-- The check of one address: the record is deleted if it has the given pod.
unfoldable pub release_one : IpAndUid → Option Allocation → Released → Released
unfolding remove
release_one iu none s = s
release_one iu (some r) s =
    let rest = remove iu.ip s.records in
    if text_eq r.pod_uid iu.uid
    then record { records = rest; count = length rest; release = true }
    else s

unfoldable pub release_records : List IpAndUid → Released → Released
unfolding lookup release_one
release_records [] s = s
release_records (iu ∷ ius) s = release_records ius (release_one iu (lookup iu.ip s.records) s)

abbrev pub count_of : Option ℕ → ℕ
count_of none = 0
count_of (some c) = c

unfoldable pub release_once : List IpAndUid → IpPool → Attempt (Unit {0})
unfolding unmarshal_allocated_ips marshal_allocated_ips release_records
release_once ius p = elim (unmarshal_allocated_ips p.allocated_ips) [
  | err e ↦ fail e
  | ok m ↦
      let s =
        release_records ius
          (record { records = m; count = count_of p.allocated_ip_count; release = false }) in
      let q : IpPool = record p {
        allocated_ips = marshal_allocated_ips s.records;
        allocated_ip_count = some s.count;
      } in
      if s.release then write q tt else done tt
]

unfoldable pub release_ip : Cluster → IpPool → List IpAndUid → IpPool × Result (Unit {0})
unfolding retry_on_conflict release_once
release_ip c p ius = retry_on_conflict c (release_once ius) default_steps p

-- The records with the flag `recreate`.
abbrev pub Updated : Type 0
Updated = Allocations × Bool

-- The check of one address: another owner is an error, another uid is replaced.
unfoldable pub update_one : Text → IpAndUid → Option Allocation → Updated → Result Updated
unfolding insert
update_one name iu none s = ok s
update_one name iu (some r) (m, recreate) =
    if not (text_eq r.namespaced_name name)
    then err data_broken
    else if not (text_eq r.pod_uid iu.uid)
    then ok (insert iu.ip (record r { pod_uid = iu.uid }) m, true)
    else ok (m, recreate)

unfoldable pub update_records : Text → List IpAndUid → Updated → Result Updated
unfolding lookup update_one
update_records name [] s = ok s
update_records name (iu ∷ ius) s =
    update_one name iu (lookup iu.ip s.0) s >>= λ t. update_records name ius t

unfoldable pub update_once : Text → List IpAndUid → IpPool → Attempt (Unit {0})
unfolding unmarshal_allocated_ips marshal_allocated_ips update_records
update_once name ius p =
    elim (unmarshal_allocated_ips p.allocated_ips >>= λ m. update_records name ius (m, false)) [
      | err e ↦ fail e
      | ok (m, recreate) ↦
          if recreate
          then write (record p { allocated_ips = marshal_allocated_ips m }) tt
          else done tt
    ]

unfoldable pub update_allocated_ips :
    Cluster → IpPool → Text → List IpAndUid → IpPool × Result (Unit {0})
unfolding retry_on_conflict update_once
update_allocated_ips c p name ius = retry_on_conflict c (update_once name ius) default_steps p
