-- ===== src/Pool/Allocate/Taken.antt =====
-- The address that `genRandomIP` takes for a pod that has none in the pool.
use spiderpool.Prelude.{
  ℕ, ◌<◌, ◌+◌, ◌≡◌, ◌⊎◌, ◌∙◌, sym, refl, inl, inr, false, List, [], ◌∷◌, ◌++◌, Option, none, some,
  Text, keys, lookup, insert, ap, length, ltb, arith, Bool-cases, Option-cases,
}
use spiderpool.Net.Address.{Ip, bytes16, v6_modulus}
use spiderpool.Net.Textual.{NetText, NetTextLaws}
use spiderpool.Ip.Result as Ips
use spiderpool.Ip.Format.{parsed}
use spiderpool.Ip.Range.{printed, parse_ip_ranges}
use spiderpool.Ip.Sets.{is_member}
use spiderpool.Ip.Available.{find_available_ips}
use spiderpool.Ip.Available.Fresh.{Fresh, find_available_ips-Fresh}
use spiderpool.Pool.Records.{
  Allocations, IpPool, Result, ok, err, ◌>>=◌, unmarshal_allocated_ips, records_of,
  marshal_allocated_ips,
}
use spiderpool.Pool.Allocate.{
  Pod, Config, lifted, pod_key, address_of_uid, chosen, recorded, fresh_ip,
}
use spiderpool.Pool.Allocate.Used.{
  is_member-append_three, no_record-find_allocated_ip_from_records, recorded-used,
}

pub bind-ok :
    {A B : Type 0} (r : Result A) (f : A → Result B) (b : B)
    → (r >>= f) ≡ ok b
    → (a : A) × (r ≡ ok a) × (f a ≡ ok b)
bind-ok (ok a) f b h = (a, refl, h)
bind-ok (err e) f b h = cc

lifted-ok : {A : Type 0} (r : Ips.Result A) (a : A) → lifted r ≡ ok a → r ≡ Ips.ok a
lifted-ok (Ips.ok x) a h = cc
lifted-ok (Ips.err e) a h = cc
lifted-ok Ips.diverge a h = cc

records_of-marshal : (m : Allocations) → records_of (marshal_allocated_ips m) ≡ m
unfolding marshal_allocated_ips
records_of-marshal [] = refl
records_of-marshal (r ∷ m) = refl

ok-injective : {A : Type 0} (a b : A) → ok a ≡ ok b → a ≡ b
ok-injective a b h = cc

pub pair-injective :
    {A B : Type 0} (a c : A) (b d : B)
    → ◌≡◌ {A = Result (A × B)} (ok (a, b)) (ok (c, d))
    → (a ≡ c) × (b ≡ d)
pair-injective a c b d h = (cc, cc)

module _ (n : NetText) (fuel : ℕ) (config : Config) (reserved_ips : ℕ → Result (List Ip)) where
  open n use {print_ip}

  -- The pod keeps the address that it has in the pool, which does not change.
  abbrev pub Kept : Pod → Allocations → IpPool → IpPool → Ip → Type 0
  Kept pod m p q ip = (s : Text) × (address_of_uid pod.uid m ≡ some s) × (q ≡ p) × (ip ≡ parsed n s)

  -- The address is in no record, neither excluded nor reserved, and is recorded for the pod; no
  -- other record changes.
  pub record Taken (pod : Pod) (m : Allocations) (p q : IpPool) (ip : Ip) : Type 0 where
    pub value : ℕ
    pub reserved : List Ip
    pub excluded : List Ip
    pub ip_eq : ip ≡ bytes16 value
    pub value_lt : value < v6_modulus
    pub reserved_eq : reserved_ips p.ip_version ≡ ok reserved
    pub excluded_eq : parse_ip_ranges n fuel p.ip_version p.exclude_ips ≡ Ips.ok excluded
    pub not_reserved : is_member ip reserved ≡ false
    pub not_excluded : is_member ip excluded ≡ false
    pub no_address : address_of_uid pod.uid m ≡ none
    pub not_recorded : lookup (print_ip value) m ≡ none
    pub records_eq :
        records_of q.allocated_ips
        ≡ insert
            (print_ip value)
            (record { namespaced_name = pod_key config pod; pod_uid = pod.uid })
            m
    pub ips_eq : q.ips ≡ p.ips

  -- What an allocation for the pod does to the pool.
  abbrev pub IsAllocation : Pod → IpPool → IpPool → Ip → Type 0
  IsAllocation pod p q ip =
      (m : Allocations) × (unmarshal_allocated_ips p.allocated_ips ≡ ok m)
      × (Kept pod m p q ip ⊎ Taken pod m p q ip)

  module _ (laws : NetTextLaws n) where
    recorded-ok :
        (p q : IpPool) (m : Allocations) (pod : Pod) (c : ℕ) (a ip : Ip)
        → recorded n fuel config reserved_ips p m pod c a ≡ ok (q, ip)
        → (a ≡ ip)
          × (records_of q.allocated_ips
              ≡ insert
                  (printed n a)
                  (record { namespaced_name = pod_key config pod; pod_uid = pod.uid })
                  m)
          × (q.ips ≡ p.ips)
          × (c < config.max_allocated_ips)
    unfolding recorded
    recorded-ok p q m pod c a ip h = elim (Bool-cases (ltb config.max_allocated_ips (c + 1))) [
      | inl over ↦ let g = rw over at h in cc
      | inr under ↦
          let e = pair-injective _ q a ip (rw under at h) in
          (
            e.1,
            ap (λ (z : IpPool). records_of z.allocated_ips) (sym e.0) ∙ records_of-marshal _,
            ap (λ (z : IpPool). z.ips) (sym e.0),
            ground arith,
          )
    ]

    chosen-Fresh :
        (p : IpPool) (m : Allocations) (pod : Pod) (used : List Ip) (c : ℕ)
        (found : Option (List Ip)) (ip : Ip)
        → address_of_uid pod.uid m ≡ none
        → Fresh used c found
        → chosen n fuel config reserved_ips p m pod found ≡ ok ip
        → (v : ℕ) × (ip ≡ bytes16 v) × (v < v6_modulus) × (is_member ip used ≡ false)
    unfolding chosen
    chosen-Fresh p m pod used c none ip none_yet f h = cc
    chosen-Fresh p m pod used c (some (a ∷ ips)) ip none_yet f h =
        let (v, e, b) = f.0.0.1 in
        (v, sym (ok-injective a ip h) ∙ e, b, rw (ok-injective a ip h) at f.0.0.0)
    chosen-Fresh p m pod used c (some []) ip none_yet f h =
        let g =
          rw
            (
              chosen,
              no_record-find_allocated_ip_from_records (pod_key config pod) pod.uid m none_yet,
            )
            at h in
        cc

    settled-Taken :
        (p q : IpPool) (m : Allocations) (pod : Pod) (reserved excluded used : List Ip) (a ip : Ip)
        → reserved_ips p.ip_version ≡ ok reserved
        → address_of_uid pod.uid m ≡ none
        → parse_ip_ranges n fuel p.ip_version (keys m) ≡ Ips.ok used
        → parse_ip_ranges n fuel p.ip_version p.exclude_ips ≡ Ips.ok excluded
        → (v : ℕ) × (a ≡ bytes16 v)
          × (v < v6_modulus)
          × (is_member a (excluded ++ (reserved ++ used)) ≡ false)
        → recorded n fuel config reserved_ips p m pod (length used) a ≡ ok (q, ip)
        → Taken pod m p q ip
    settled-Taken p q m pod reserved excluded used a ip re none_yet ue ee (v, av, b, free) h =
        let (same, records, ips, room) = recorded-ok p q m pod (length used) a ip h in
        let (not_ex, not_res, unused) = is_member-append_three a excluded reserved used free in
        let unused_v : is_member (bytes16 v) used ≡ false = rw av at unused in
        let text : printed n a ≡ print_ip v = rw av refl in
        record {
          value = v;
          reserved = reserved;
          excluded = excluded;
          ip_eq = sym same ∙ av;
          value_lt = b;
          reserved_eq = re;
          excluded_eq = ee;
          not_reserved = rw (sym same) not_res;
          not_excluded = rw (sym same) not_ex;
          no_address = none_yet;
          not_recorded = elim (Option-cases (lookup (print_ip v) m)) [
            | inl e ↦ e
            | inr (r, e) ↦ let hit = recorded-used n laws fuel p.ip_version v m r used b ue e in cc
          ];
          records_eq = rw text at records;
          ips_eq = ips;
        }

    pub fresh_ip-Taken :
        (p q : IpPool) (m : Allocations) (pod : Pod) (reserved : List Ip) (ip : Ip)
        → reserved_ips p.ip_version ≡ ok reserved
        → address_of_uid pod.uid m ≡ none
        → fresh_ip n fuel config reserved_ips p m pod reserved ≡ ok (q, ip)
        → Taken pod m p q ip
    unfolding fresh_ip
    fresh_ip-Taken p q m pod reserved ip re none_yet h =
        let (used, ue, h1) =
          bind-ok (lifted (parse_ip_ranges n fuel p.ip_version (keys m))) _ (q, ip) h in
        let (excluded, ee, h2) =
          bind-ok (lifted (parse_ip_ranges n fuel p.ip_version p.exclude_ips)) _ (q, ip) h1 in
        let (a, ae, h3) =
          bind-ok
            (chosen n fuel config reserved_ips p m pod
              (find_available_ips n fuel p.ips (excluded ++ (reserved ++ used)) 1))
            _ (q, ip) h2 in
        settled-Taken p q m pod reserved excluded used a ip re none_yet (lifted-ok _ used ue)
          (lifted-ok _ excluded ee)
          (chosen-Fresh p m pod (excluded ++ (reserved ++ used)) 1 _ a none_yet
            (find_available_ips-Fresh n laws fuel p.ips (excluded ++ (reserved ++ used)) 1) ae)
          h3
