-- ===== src/Pool/Allocate/Safety.antt =====
-- What `genRandomIP` and `AllocateIP` promise of the address that they return.
use spiderpool.Prelude.{ℕ, suc, ◌≡◌, ◌⊎◌, sym, refl, inl, inr, List, Option, none, some, Text}
use spiderpool.Net.Address.{Ip}
use spiderpool.Net.Textual.{NetText, NetTextLaws}
use spiderpool.Ip.Format.{parsed}
use spiderpool.Pool.Records.{Allocations, IpPool, Result, ok, err, unmarshal_allocated_ips}
use spiderpool.Pool.Api.{
  Attempt, fail, done, write, Cluster, IsVersioned, History, Applied, written,
  retry_on_conflict_lem, default_steps,
}
use spiderpool.Pool.Allocate.{
  Pod, Config, address_of_uid, fresh_ip, gen_random_ip, allocate_once, allocate_ip,
}
use spiderpool.Pool.Allocate.Taken.{
  bind-ok, pair-injective, Kept, Taken, IsAllocation, fresh_ip-Taken,
}

module _ (n : NetText) (fuel : ℕ) (config : Config) (reserved_ips : ℕ → Result (List Ip)) where
  module _ (laws : NetTextLaws n) where
    gen_random_ip-IsAllocation :
        (p q : IpPool) (pod : Pod) (ip : Ip)
        → gen_random_ip n fuel config reserved_ips p pod ≡ ok (q, ip)
        → IsAllocation n fuel config reserved_ips pod p q ip
    unfolding gen_random_ip
    gen_random_ip-IsAllocation p q pod ip h =
        let (reserved, re, h1) = bind-ok (reserved_ips p.ip_version) _ (q, ip) h in
        let (m, me, h2) = bind-ok (unmarshal_allocated_ips p.allocated_ips) _ (q, ip) h1 in
        (m, me, by_record reserved m re (address_of_uid pod.uid m) refl h2)
      where
        by_record :
            (reserved : List Ip) (m : Allocations)
            → reserved_ips p.ip_version ≡ ok reserved
            → (o : Option Text) → address_of_uid pod.uid m ≡ o
            → (elim o as (λ _. Result (IpPool × Ip)) [
              | some s ↦ ok (p, parsed n s)
              | none ↦ fresh_ip n fuel config reserved_ips p m pod reserved
            ])
              ≡ ok (q, ip)
            → Kept n fuel config reserved_ips pod m p q ip
              ⊎ Taken n fuel config reserved_ips pod m p q ip
        by_record reserved m re (some s) e g =
            let same = pair-injective p q (parsed n s) ip g in inl (s, e, sym same.0, sym same.1)
        by_record reserved m re none e g =
            inr (fresh_ip-Taken n fuel config reserved_ips laws p q m pod reserved ip re e g)

    allocate_once-write :
        (p r : IpPool) (pod : Pod) (ip : Ip)
        → allocate_once n fuel config reserved_ips pod p ≡ write r ip
        → gen_random_ip n fuel config reserved_ips p pod ≡ ok (r, ip)
    unfolding allocate_once
    allocate_once-write p r pod ip h = by_result (gen_random_ip n fuel config reserved_ips p pod) h
      where
        by_result :
            (t : Result (IpPool × Ip))
            → (elim t as (λ _. Attempt Ip) [ ok (q, a) ↦ write q a | err e ↦ fail e ]) ≡ write r ip
            → t ≡ ok (r, ip)
        by_result (ok (q, a)) g = cc
        by_result (err e) g = cc

    allocate_once-done :
        (p : IpPool) (pod : Pod) (ip : Ip)
        → allocate_once n fuel config reserved_ips pod p ≡ done ip
        → ⊥
    unfolding allocate_once
    allocate_once-done p pod ip h = by_result (gen_random_ip n fuel config reserved_ips p pod) h
      where
        by_result :
            (t : Result (IpPool × Ip))
            → (elim t as (λ _. Attempt Ip) [ ok (q, a) ↦ write q a | err e ↦ fail e ]) ≡ done ip
            → ⊥
        by_result (ok (q, a)) g = cc
        by_result (err e) g = cc

    -- Suppose that the server's resource versions tell objects apart. If `AllocateIP` returns an
    -- address, then the server's pool is the outcome of an allocation on the state `u` that it had
    -- when the status was written, which others came to by their writes: either the pod keeps the
    -- address that it has there, or the address was in no record of `u`, was neither excluded nor
    -- reserved, and is now recorded for the pod, all other records kept.
    pub allocate_ip-IsAllocation :
        (c : Cluster) (p q : IpPool) (pod : Pod) (ip : Ip)
        → IsVersioned c
        → allocate_ip n fuel config reserved_ips c p pod ≡ (q, ok ip)
        → (j : ℕ) × (u r : IpPool) × History c
            (allocate_once n fuel config reserved_ips pod)
            default_steps
            p
            (suc j)
            u
          × (c.others j u ≡ u)
          × IsAllocation n fuel config reserved_ips pod u r ip
          × (q ≡ written r)
    unfolding allocate_ip
    allocate_ip-IsAllocation c p q pod ip v h =
        let (j, u, past, applied) =
          retry_on_conflict_lem c (allocate_once n fuel config reserved_ips pod) v default_steps p q
            ip h in
        by_write j u past applied
      where
        by_write :
            (j : ℕ) (u : IpPool)
            → History c (allocate_once n fuel config reserved_ips pod) default_steps p (suc j) u
            → Applied c (allocate_once n fuel config reserved_ips pod) j u q ip
            → (j : ℕ) × (u r : IpPool) × History c
                (allocate_once n fuel config reserved_ips pod)
                default_steps
                p
                (suc j)
                u
              × (c.others j u ≡ u)
              × IsAllocation n fuel config reserved_ips pod u r ip
              × (q ≡ written r)
        by_write j u past (inl (d, e)) = elim (allocate_once-done u pod ip d) [ ]
        by_write j u past (inr (r, w, same, e)) = (
          j,
          u,
          r,
          past,
          same,
          gen_random_ip-IsAllocation u r pod ip (allocate_once-write u r pod ip w),
          e,
        )
