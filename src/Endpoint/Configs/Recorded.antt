-- ===== src/Endpoint/Configs/Recorded.antt =====
-- The addresses of an answer are those that the details record.
use spiderpool.Prelude.{
  ◌≡◌, refl, sym, ap, ◌∙◌, ℕ, List, [], ◌∷◌, ◌++◌, Option, none, some, Text, arith, map,
}
use mathlib.Core.List.{map-append}
use spiderpool.Net.Textual.{NetText}
use spiderpool.Endpoint.Records.{IpConfig, Detail, convert_spec_routes}
use spiderpool.Endpoint.Configs.{Answer, present, part_of, join, convert_ip_details}
use spiderpool.Endpoint.Manager.{name_first}

-- An address with its pool and version
abbrev pub Placed : Type 0
Placed = Text × Text × ℕ

abbrev pub placed : IpConfig → Placed
placed c = (c.address, c.ip_pool, c.version)

abbrev pub placed_part : Option Text → Option Text → ℕ → List Placed
placed_part (some address) (some pool) version = (address, pool, version) ∷ []
placed_part _ _ version = []

unfoldable pub recorded_addresses : List Detail → List Placed
recorded_addresses [] = []
recorded_addresses (d ∷ ds) =
    placed_part d.ipv4 d.ipv4_pool 4 ++ (placed_part d.ipv6 d.ipv6_pool 6 ++ recorded_addresses ds)

-- Naming an interface changes no address.
pub recorded_addresses-name_first :
    (nic : Text) (ds : List Detail) → recorded_addresses (name_first nic ds) ≡ recorded_addresses ds
unfolding recorded_addresses name_first
recorded_addresses-name_first nic [] = refl
recorded_addresses-name_first nic (d ∷ ds) = ground (arith, recorded_addresses-name_first nic ds)

abbrev placed_of : Option Answer → List Placed
placed_of none = []
placed_of (some a) = map placed a.ips

module _ (n : NetText) where
  join-eq-some :
      (x y : Option Answer) {a : Answer}
      → join n x y ≡ some a
      → (b : Answer) × (c : Answer) × (x ≡ some b)
        × (y ≡ some c)
        × (map placed a.ips ≡ map placed b.ips ++ map placed c.ips)
  join-eq-some (some b) (some c) e =
      (b, c, refl, refl, sym (ap placed_of e) ∙ map-append placed b.ips c.ips)
  join-eq-some (some b) none e = cc
  join-eq-some none y e = cc

  placed-part_of :
      (d : Detail) (version : ℕ) (address pool gateway : Option Text) (vlan : Option ℕ) {a : Answer}
      → part_of n d version address pool gateway vlan ≡ some a
      → map placed a.ips ≡ placed_part address pool version
  unfolding part_of
  placed-part_of d version none pool gateway vlan e = sym (ap placed_of e)
  placed-part_of d version (some address) (some pool) gateway (some vlan) e = sym (ap placed_of e)
  placed-part_of d version (some address) (some pool) gateway none e = cc
  placed-part_of d version (some address) none gateway (some vlan) e = cc
  placed-part_of d version (some address) none gateway none e = cc

  ap2 : {xs xs' ys ys' : List Placed} → xs ≡ xs' → ys ≡ ys' → (xs ++ ys) ≡ (xs' ++ ys')
  ap2 p q = cc

  pub placed-convert_ip_details :
      (ds : List Detail) {a : Answer}
      → convert_ip_details n ds ≡ some a
      → map placed a.ips ≡ recorded_addresses ds
  unfolding convert_ip_details recorded_addresses
  placed-convert_ip_details [] e = sym (ap placed_of e)
  placed-convert_ip_details (d ∷ ds) e =
      let (b, c, hb, hc, eq) = join-eq-some _ _ e in
      let (b', c', hb', hc', eq') = join-eq-some _ _ hc in
      let (b'', c'', hb'', hc'', eq'') =
        join-eq-some
          (some (record { ips = []; routes = present (convert_spec_routes d.nic d.routes) })) _
          hc' in
      eq
      ∙ ap2 (placed-part_of d 4 d.ipv4 d.ipv4_pool d.ipv4_gateway d.vlan hb) (
          eq'
          ∙ ap2 (placed-part_of d 6 d.ipv6 d.ipv6_pool d.ipv6_gateway d.vlan hb')
              (eq'' ∙ ap2 (sym (ap placed_of hb'')) (placed-convert_ip_details ds hc'')))
