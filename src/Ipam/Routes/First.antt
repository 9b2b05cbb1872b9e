-- ===== src/Ipam/Routes/First.antt =====
-- pkg/ipam/utils.go, `groupCustomRoutes`: every custom route goes to the first result whose network
-- has its gateway, and to no other.
use spiderpool.Prelude.{
  ℕ, ◌≡◌, ◌≢◌, subst, refl, sym, ap, ◌∙◌, Bool, true, false, not, ◌&&◌, ◌||◌, List, [], ◌∷◌, ◌++◌,
  none, some, Text, map, filter, Bool-cases, Option-cases, inl, inr, arith,
}
use spiderpool.Net.Address.{IpNet}
use spiderpool.Net.Textual.{NetText}
use spiderpool.Endpoint.Records.{Route, AllocationResult}
use spiderpool.Ipam.Routes.{
  RoutesGrouped, with_nic, has_gateway, take_routes, group_routes, group_custom_routes,
}

filter-filter {ℓ} :
    {A : Type ℓ} (p q : A → Bool) (xs : List A)
    → filter p (filter q xs) ≡ filter (λ x. q x && p x) xs
filter-filter p q [] = refl
filter-filter p q (x ∷ xs) = ground (arith, filter-filter p q xs)

filter-ext {ℓ} :
    {A : Type ℓ} (p q : A → Bool) (xs : List A) → ((x : A) → p x ≡ q x) → filter p xs ≡ filter q xs
filter-ext p q [] h = refl
filter-ext p q (x ∷ xs) h = ground (arith, h x, filter-ext p q xs h)

filter_all {ℓ} : {A : Type ℓ} (xs : List A) → filter (λ x. true) xs ≡ xs
filter_all [] = refl
filter_all (x ∷ xs) = ap (λ l. x ∷ l) (filter_all xs)

or_assoc : (a b c : Bool) → not ((a || b) || c) ≡ not (a || (b || c))
or_assoc true b c = refl
or_assoc false b c = refl

module _ (n : NetText) where
  take_routes_lem :
      (m : IpNet) (nic : Text) (rs : List Route)
      → take_routes n m nic rs ≡ (
        map (with_nic nic) (filter (has_gateway n m) rs),
        filter (λ r. not (has_gateway n m r)) rs,
      )
  unfolding take_routes
  take_routes_lem m nic [] = refl
  take_routes_lem m nic (r ∷ rs) = elim (Bool-cases (has_gateway n m r)) [
    | inl e ↦ rw (take_routes_lem m nic rs, e) refl
    | inr e ↦ rw (take_routes_lem m nic rs, e) refl
  ]

  -- Whether the network of a result has the gateway of a route.
  abbrev pub serves : AllocationResult → Route → Bool
  serves x r = elim (n.parse_cidr x.ip.address) [ none ↦ false | some (v, m) ↦ has_gateway n m r ]

  -- The results with the routes that they serve and no earlier one serves.
  abbrev pub assigned : (Route → Bool) → List AllocationResult → List Route → List AllocationResult
  assigned earlier [] routes = []
  assigned earlier (x ∷ xs) routes =
      record x {
        routes =
            x.routes
            ++ map (with_nic x.ip.nic) (filter (λ r. not (earlier r) && serves x r) routes);
      }
      ∷ assigned (λ r. earlier r || serves x r) xs routes

  abbrev pub served : List AllocationResult → Route → Bool
  served [] r = false
  served (x ∷ xs) r = serves x r || served xs r

  serves_lem :
      (x : AllocationResult) (v : ℕ) (m : IpNet)
      → n.parse_cidr x.ip.address ≡ some (v, m)
      → (r : Route) → serves x r ≡ has_gateway n m r
  serves_lem x v m e r = rw (serves, e) refl

  abbrev after : AllocationResult → IpNet → List Route → RoutesGrouped → RoutesGrouped
  after x m rs g = record g {
    results =
        record x { routes = x.routes ++ map (with_nic x.ip.nic) (filter (has_gateway n m) rs) }
        ∷ g.results;
  }

  group_step :
      (rs : List Route) (x : AllocationResult) (xs : List AllocationResult) (v : ℕ) (m : IpNet)
      → n.parse_cidr x.ip.address ≡ some (v, m)
      → group_routes n rs (x ∷ xs)
        ≡ after x m rs (group_routes n (filter (λ r. not (has_gateway n m r)) rs) xs)
  unfolding group_routes
  group_step rs x xs v m e = rw (group_routes, e, take_routes_lem m x.ip.nic rs) refl

  group_stop :
      (rs : List Route) (x : AllocationResult) (xs : List AllocationResult)
      → n.parse_cidr x.ip.address ≡ none
      → (group_routes n rs (x ∷ xs)).success ≡ false
  unfolding group_routes
  group_stop rs x xs e = rw (group_routes, e) refl

  group_end :
      (rs : List Route) → group_routes n rs [] ≡ record { results = []; left = rs; success = true }
  unfolding group_routes
  group_end rs = refl

  -- The routes that neither an earlier result nor one of these serves
  abbrev Assigned : (Route → Bool) → List AllocationResult → List Route → RoutesGrouped → Type 0
  Assigned earlier xs routes g =
      (g.results ≡ assigned earlier xs routes)
      × (g.left ≡ filter (λ r. not (earlier r || served xs r)) routes)

  group_routes_lem :
      (earlier : Route → Bool) (xs : List AllocationResult) (routes : List Route)
      → (group_routes n (filter (λ r. not (earlier r)) routes) xs).success ≡ true
      → Assigned earlier xs routes (group_routes n (filter (λ r. not (earlier r)) routes) xs)
  group_routes_lem earlier [] routes h =
      rw (group_end (filter (λ r. not (earlier r)) routes))
        (refl, filter-ext _ _ routes (λ r. ground arith))
  group_routes_lem earlier (x ∷ xs) routes h =
      let old = λ (r : Route). not (earlier r) in
      elim (Option-cases (n.parse_cidr x.ip.address)) [
        | inl bad ↦ cc (group_stop (filter old routes) x xs bad, h)
        | inr ((v, m), e) ↦
            let takes = has_gateway n m in
            let rest = λ (r : Route). not (takes r) in
            let later = λ (r : Route). earlier r || serves x r in
            let new = λ (r : Route). not (later r) in
            let left : filter rest (filter old routes) ≡ filter new routes =
              filter-filter rest old routes
              ∙ filter-ext (λ r. old r && rest r) new routes
                  (λ r. ground (arith, serves_lem x v m e r)) in
            let mine : filter takes (filter old routes) ≡ filter (λ r. old r && serves x r) routes =
              filter-filter takes old routes
              ∙ filter-ext (λ r. old r && takes r) (λ r. old r && serves x r) routes
                  (λ r. ground (arith, serves_lem x v m e r)) in
            let whole =
              group_step (filter old routes) x xs v m e
              ∙ ap (λ (rs : List Route). after x m (filter old routes) (group_routes n rs xs))
                  left in
            let ok : (group_routes n (filter new routes) xs).success ≡ true =
              sym (ap (λ (g : RoutesGrouped). g.success) whole) ∙ h in
            let (results, others) = group_routes_lem later xs routes ok in
            (
              ap (λ (g : RoutesGrouped). g.results) whole ∙ (λ i.
                  record x { routes = x.routes ++ map (with_nic x.ip.nic) (mine i) } ∷ results i),
              ap (λ (g : RoutesGrouped). g.left) whole
                  ∙ others
                  ∙ filter-ext (λ r. not (later r || served xs r))
                      (λ r. not (earlier r || served (x ∷ xs) r)) routes
                      (λ r. or_assoc (earlier r) (serves x r) (served xs r)),
            )
      ]

  -- Where `groupCustomRoutes` succeeds, each result keeps its routes and gets, after them and in
  -- order, the custom routes whose gateway its network has and no earlier result's network has, with
  -- its interface; the routes that are left are those whose gateway no result's network has.
  pub group_custom_routes_lem :
      (routes : List Route) (xs : List AllocationResult)
      → (group_custom_routes n routes xs).success ≡ true
      → routes ≢ []
      → ((group_custom_routes n routes xs).results ≡ assigned (λ r. false) xs routes)
        × ((group_custom_routes n routes xs).left ≡ filter (λ r. not (served xs r)) routes)
  unfolding group_custom_routes
  group_custom_routes_lem [] xs h some_routes = absurd (some_routes refl)
  group_custom_routes_lem (r ∷ rs) xs h some_routes =
      let every : filter (λ (x : Route). true) (r ∷ rs) ≡ r ∷ rs = filter_all (r ∷ rs) in
      let start = λ (l : List Route). (group_routes n l xs).success ≡ true in
      subst (λ (l : List Route). Assigned (λ x. false) xs (r ∷ rs) (group_routes n l xs)) every
        (group_routes_lem (λ x. false) xs (r ∷ rs) (subst start (sym every) h))
