-- ===== src/Ipam/Flow/Retrieved.antt =====
-- What an allocation that is retrieved answers.
use spiderpool.Prelude.{
  ◌≡◌, refl, sym, ap, ◌∙◌, Bool, true, false, not, ◌||◌, [], subst, Option, none, some, Text,
  text_eq, inl, inr, map, ◌⊎◌, if◌then◌else◌,
}
use spiderpool.Net.Textual.{NetText}
use spiderpool.Pool.Affinity.{PodTopController}
use spiderpool.Endpoint.Records.{Endpoint}
use spiderpool.Endpoint.Details.{Grouping}
use spiderpool.Endpoint.Configs.{Answer}
use spiderpool.Endpoint.Configs.Recorded.{placed, recorded_addresses}
use spiderpool.Endpoint.Manager.{Switches}
use spiderpool.Ipam.Release.{ReleasePod, is_pod_alive, Found, found, missing, unanswered}
use spiderpool.Ipam.Flow.{
  AllocateAnswers, Next, respond, refuse, crash, nothing, standard, Flow, plain,
  retrieve_static_ip_allocation, retrieve_existing_ip_allocation, keeps_addresses,
  keeps_vm_addresses, or_standard, own_endpoint, retrieve, released_outdated, with_endpoint,
  with_pod, allocate,
}
use spiderpool.Ipam.Flow.Addresses.{Refreshed, retrieve_static-Refreshed, retrieve_existing-own}

abbrev found_in : Option Endpoint → Found Endpoint
found_in none = missing
found_in (some e) = found e

-- Where the answer comes from: an endpoint of a workload that keeps its addresses, for any pod of
-- the workload, or else the pod's own endpoint, for which no pool is written.
abbrev pub Retrieved : Bool → AllocateAnswers → Text → Endpoint → Flow → Answer → Type 0
Retrieved keeps a uid e f ans =
    ((keeps ≡ true) × Refreshed a uid e f ans)
    ⊎ ((keeps ≡ false)
        × (map placed ans.ips ≡ recorded_addresses e.ips)
        × (text_eq e.uid uid ≡ true)
        × (f.updates ≡ []))

abbrev pub Answered : Switches → AllocateAnswers → Flow → Answer → Type 0
Answered s a f ans =
    (p : ReleasePod) × (c : PodTopController) × (e : Endpoint) × (a.pod ≡ some p)
    × (is_pod_alive (some p) ≡ true)
    × (a.controller ≡ some c)
    × (a.endpoint ≡ found e)
    × Retrieved (keeps_addresses s c || keeps_vm_addresses s c) a p.uid e f ans

module _ (n : NetText) where
  or_standard-respond :
      (o : Option Endpoint) (f : Flow) {ans : Answer}
      → (or_standard o f).next ≡ respond ans
      → or_standard o f ≡ f
  or_standard-respond o f h = go f.updates f.next h
    where
      go :
          {ans : Answer} (m : Grouping) (x : Next)
          → (or_standard o (record { updates = m; next = x })).next ≡ respond ans
          → or_standard o (record { updates = m; next = x }) ≡ record { updates = m; next = x }
      go m refuse h = cc
      go m crash h = cc
      go m nothing h = cc
      go m (respond x) h = refl
      go m (standard x) h = cc

  static-Retrieved :
      (a : AllocateAnswers) (uid nic : Text) (multiple : Bool) (o : Option Endpoint) {ans : Answer}
      → (retrieve_static_ip_allocation n a uid nic multiple o).next ≡ respond ans
      → (e : Endpoint) × (o ≡ some e)
        × Retrieved true a uid e (retrieve_static_ip_allocation n a uid nic multiple o) ans
  unfolding retrieve_static_ip_allocation
  static-Retrieved a uid nic multiple none h = cc
  static-Retrieved a uid nic multiple (some e) h =
      (e, refl, inl (refl, retrieve_static-Refreshed n a uid nic multiple e h))

  retrieve-Retrieved :
      (s : Switches) (a : AllocateAnswers) (uid nic : Text) (multiple : Bool) (c : PodTopController)
      (o : Option Endpoint) (released : Bool) {ans : Answer}
      → (retrieve n s a uid nic multiple c o released).next ≡ respond ans
      → (e : Endpoint) × (o ≡ some e)
        × Retrieved
            (keeps_addresses s c || keeps_vm_addresses s c)
            a
            uid
            e
            (retrieve n s a uid nic multiple c o released)
            ans
  unfolding retrieve_existing_ip_allocation
  retrieve-Retrieved s a uid nic multiple c o released h =
      go (keeps_addresses s c) (keeps_vm_addresses s c) released o h
    where
      go :
          {ans : Answer} (k v r : Bool) (o : Option Endpoint)
          → (if k
              then (if r
                  then plain nothing
                  else retrieve_static_ip_allocation n a uid nic multiple o)
              else if v
              then retrieve_static_ip_allocation n a uid nic multiple o
              else plain (retrieve_existing_ip_allocation n a uid nic multiple o)).next
            ≡ respond ans
          → (e : Endpoint) × (o ≡ some e)
            × Retrieved
                (k || v)
                a
                uid
                e
                (if k
                  then (if r
                      then plain nothing
                      else retrieve_static_ip_allocation n a uid nic multiple o)
                  else if v
                  then retrieve_static_ip_allocation n a uid nic multiple o
                  else plain (retrieve_existing_ip_allocation n a uid nic multiple o))
                ans
      go true v true o h = cc
      go true v false o h = static-Retrieved a uid nic multiple o h
      go false true r o h = static-Retrieved a uid nic multiple o h
      go false false r none h = cc
      go false false r (some e) h =
          let (same, own) = retrieve_existing-own n a uid nic multiple e h in
          (e, refl, inr (refl, same, own, refl))

  with_endpoint-Retrieved :
      (s : Switches) (a : AllocateAnswers) (uid nic : Text) (multiple : Bool) (c : PodTopController)
      (o : Option Endpoint) {ans : Answer}
      → (with_endpoint n s a uid nic multiple c o).next ≡ respond ans
      → (e : Endpoint) × (o ≡ some e)
        × Retrieved
            (keeps_addresses s c || keeps_vm_addresses s c)
            a
            uid
            e
            (with_endpoint n s a uid nic multiple c o)
            ans
  with_endpoint-Retrieved s a uid nic multiple c o h =
      go (released_outdated n a (keeps_addresses s c) o) h
    where
      of : Option Bool → Flow
      of released = elim released [
        | none ↦ plain refuse
        | some r ↦ or_standard (own_endpoint uid o) (retrieve n s a uid nic multiple c o r)
      ]

      go :
          {ans : Answer} (released : Option Bool)
          → (of released).next ≡ respond ans
          → (e : Endpoint) × (o ≡ some e)
            × Retrieved (keeps_addresses s c || keeps_vm_addresses s c) a uid e (of released) ans
      go none h = cc
      go {ans} (some r) h =
          let same =
            or_standard-respond (own_endpoint uid o) (retrieve n s a uid nic multiple c o r) h in
          let (e, found_e, source) =
            retrieve-Retrieved s a uid nic multiple c o r
              (sym (ap (λ (f : Flow). f.next) same) ∙ h) in
          (
            e,
            found_e,
            subst (λ f. Retrieved (keeps_addresses s c || keeps_vm_addresses s c) a uid e f ans)
                (sym same) source,
          )

  with_pod-Answered :
      (s : Switches) (a : AllocateAnswers) (nic : Text) (multiple : Bool) (p : ReleasePod)
      (c : PodTopController) {ans : Answer}
      → a.pod ≡ some p
      → is_pod_alive (some p) ≡ true
      → a.controller ≡ some c
      → (with_pod n s a nic multiple p c).next ≡ respond ans
      → Answered s a (with_pod n s a nic multiple p c) ans
  with_pod-Answered s a nic multiple p c hp alive hc h = go a.endpoint refl h
    where
      of : Found Endpoint → Flow
      of x = elim x [
        | unanswered ↦ plain refuse
        | missing ↦ with_endpoint n s a p.uid nic multiple c none
        | found e ↦ with_endpoint n s a p.uid nic multiple c (some e)
      ]

      go :
          {ans : Answer} (x : Found Endpoint)
          → a.endpoint ≡ x
          → (of x).next ≡ respond ans
          → Answered s a (of x) ans
      go unanswered q h = cc
      go missing q h =
          let (e', same, source) = with_endpoint-Retrieved s a p.uid nic multiple c none h in cc
      go (found e) q h =
          let (e', same, source) = with_endpoint-Retrieved s a p.uid nic multiple c (some e) h in
          (p, c, e', hp, alive, hc, q ∙ ap found_in same, source)

  -- When `allocate` answers a request without allocating anything new, the pod is alive, and the
  -- addresses, pools and versions of the answer are those that the endpoint records, in their order.
  -- If the workload keeps its addresses, the records of all pools of the endpoint have been updated
  -- for the pod; otherwise the endpoint is that of the pod itself, and no pool is updated.
  pub allocate-Retrieved :
      (s : Switches) (a : AllocateAnswers) (nic : Text) (multiple : Bool) (ans : Answer)
      → (allocate n s a nic multiple).next ≡ respond ans
      → Answered s a (allocate n s a nic multiple) ans
  unfolding allocate
  allocate-Retrieved s a nic multiple ans h = by_pod a.pod refl h
    where
      to_controller : ReleasePod → Option PodTopController → Flow
      to_controller p o = elim o [ none ↦ plain refuse | some c ↦ with_pod n s a nic multiple p c ]

      to_life : ReleasePod → Bool → Flow
      to_life p b = if not b then plain refuse else to_controller p a.controller

      to_pod : Option ReleasePod → Flow
      to_pod o = elim o [ none ↦ plain refuse | some p ↦ to_life p (is_pod_alive (some p)) ]

      by_controller :
          {ans : Answer} (p : ReleasePod) (o : Option PodTopController)
          → a.pod ≡ some p
          → is_pod_alive (some p) ≡ true
          → a.controller ≡ o
          → (to_controller p o).next ≡ respond ans
          → Answered s a (to_controller p o) ans
      by_controller p none hp alive q h = cc
      by_controller p (some c) hp alive q h = with_pod-Answered s a nic multiple p c hp alive q h

      by_life :
          {ans : Answer} (p : ReleasePod) (b : Bool)
          → a.pod ≡ some p
          → is_pod_alive (some p) ≡ b
          → (to_life p b).next ≡ respond ans
          → Answered s a (to_life p b) ans
      by_life p false hp q h = cc
      by_life p true hp q h = by_controller p a.controller hp q refl h

      by_pod :
          {ans : Answer} (o : Option ReleasePod)
          → a.pod ≡ o
          → (to_pod o).next ≡ respond ans
          → Answered s a (to_pod o) ans
      by_pod none q h = cc
      by_pod (some p) q h = by_life p (is_pod_alive (some p)) q refl h
