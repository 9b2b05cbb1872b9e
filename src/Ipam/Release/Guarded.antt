-- ===== src/Ipam/Release/Guarded.antt =====
-- Whose addresses CNI DEL gives back.
use spiderpool.Prelude.{
  ◌≡◌, ◌⊎◌, refl, Bool, true, false, ◌&&◌, [], Option, none, some, Text, text_eq, text_eq_iff,
  Bool-cases, inl, inr,
}
use spiderpool.Endpoint.Records.{Endpoint}
use spiderpool.Endpoint.Details.{Grouping, grouped, group_ip_allocation_details}
use spiderpool.Endpoint.Details.Grouped.{addresses_in, group_ip_allocation_details_lem}
use spiderpool.Endpoint.Manager.{
  Switches, retrieve_ip_allocation, kind_stateful_set, kind_kubevirt_vmi,
}
use spiderpool.Ipam.Release.{
  is_pod_alive, Found, found, missing, unanswered, ReleaseAnswers, Ended, release_groups, release,
  keeps, if_released, finish, give_back, stateful_set_keeps, vm_keeps, release_for_all_nics, uid_of,
  pod_of, is_answered, of_endpoint, release_pod,
}

-- Nothing is released, or the addresses of this endpoint are, with its uid.
abbrev pub Gives : (Endpoint → Type 0) → Ended → Type 0
Gives P o =
    (o.releases ≡ [])
    ⊎ ((e : Endpoint) × P e
        × ((pool : Text) → grouped pool o.releases ≡ addresses_in pool e.uid e.ips))

release-Gives :
    (P : Endpoint → Type 0) (a : ReleaseAnswers) (e : Endpoint)
    → P e
    → Gives P (finish a (release a e.uid e.ips))
unfolding release
release-Gives P a e h = go (group_ip_allocation_details e.uid e.ips) refl
  where
    go :
        (o : Option Grouping)
        → group_ip_allocation_details e.uid e.ips ≡ o
        → Gives P (finish a (release_groups a o))
    go none q = inl refl
    go (some m) q = elim (Bool-cases a.tickets_acquired) [
      | inl got ↦ rw got (inr (e, h, λ pool. group_ip_allocation_details_lem pool e.uid e.ips m q))
      | inr refused ↦ rw refused (inl refl)
    ]

if_released-Gives :
    (P : Endpoint → Type 0) (k : Option Bool) (o : Ended)
    → (k ≡ some false → Gives P o)
    → Gives P (if_released k o)
if_released-Gives P none o h = inl refl
if_released-Gives P (some true) o h = inl refl
if_released-Gives P (some false) o h = h refl

-- The owner of an endpoint does not keep its addresses.
abbrev pub Gone : Bool → Option Bool → Type 0
Gone is_owner valid = is_owner ≡ true → valid ≡ some false

keeps-Gone :
    (b : Bool) (valid : Option Bool) (deleted : Bool)
    → keeps b valid deleted ≡ some false
    → Gone b valid
keeps-Gone false valid deleted h = λ e. cc
keeps-Gone true none deleted h = cc
keeps-Gone true (some true) deleted h = cc
keeps-Gone true (some false) deleted h = λ e. refl

-- What an endpoint is whose addresses are released.
abbrev pub Released : Switches → ReleaseAnswers → Text → Endpoint → Type 0
Released s a uid e =
    (a.endpoint ≡ found e)
    × (e.uid ≡ uid)
    × Gone (s.stateful_set && text_eq e.owner_controller_type kind_stateful_set)
        a.valid_stateful_set_pod
    × Gone (s.kubevirt_static_ip && text_eq e.owner_controller_type kind_kubevirt_vmi)
        a.valid_vm_pod

release_for_all_nics-Gives :
    (P : Endpoint → Type 0) (s : Switches) (a : ReleaseAnswers) (uid nic : Text) (e : Endpoint)
    → (Released s a uid e → P e)
    → a.endpoint ≡ found e
    → Gives P (release_for_all_nics s a uid nic e)
unfolding release_for_all_nics retrieve_ip_allocation
release_for_all_nics-Gives P s a uid nic e h there =
    if_released-Gives P (stateful_set_keeps s a e)
      (if_released (vm_keeps s a e) (give_back a uid nic e))
      (λ k. if_released-Gives P (vm_keeps s a e) (give_back a uid nic e) (λ l.
        own (Bool-cases (text_eq e.uid uid))
          (keeps-Gone (s.stateful_set && text_eq e.owner_controller_type kind_stateful_set)
            a.valid_stateful_set_pod a.deleted k)
          (keeps-Gone (s.kubevirt_static_ip && text_eq e.owner_controller_type kind_kubevirt_vmi)
            a.valid_vm_pod a.deleted l)))
  where
    own :
        (text_eq e.uid uid ≡ true) ⊎ (text_eq e.uid uid ≡ false)
        → Gone
            (s.stateful_set && text_eq e.owner_controller_type kind_stateful_set)
            a.valid_stateful_set_pod
        → Gone
            (s.kubevirt_static_ip && text_eq e.owner_controller_type kind_kubevirt_vmi)
            a.valid_vm_pod
        → Gives P (give_back a uid nic e)
    own (inr other) g k = rw (give_back, retrieve_ip_allocation, other) (inl refl)
    own (inl same) g k = elim (Bool-cases (retrieve_ip_allocation uid nic (some e) false)) [
      | inr no_nic ↦ rw (give_back, no_nic) (inl refl)
      | inl has ↦ elim (Bool-cases a.iaas_released) [
        | inr stays ↦ rw (give_back, has, stays) (inl refl)
        | inl freed ↦
            rw (give_back, has, freed)
              (release-Gives P a e (h (there, (text_eq_iff e.uid uid).0 same, g, k)))
      ]
    ]

of_endpoint-Gives :
    (P : Endpoint → Type 0) (s : Switches) (a : ReleaseAnswers) (uid nic : Text)
    (o : Found Endpoint)
    → a.endpoint ≡ o
    → ((e : Endpoint) → Released s a uid e → P e)
    → Gives P (of_endpoint s a uid nic o)
unfolding of_endpoint release_for_all_nics
of_endpoint-Gives P s a uid nic missing q h = inl refl
of_endpoint-Gives P s a uid nic unanswered q h = inl refl
of_endpoint-Gives P s a uid nic (found e) q h = release_for_all_nics-Gives P s a uid nic e (h e) q

release_pod-P :
    (P : Endpoint → Type 0) (s : Switches) (a : ReleaseAnswers) (uid nic : Text)
    → (is_pod_alive (pod_of a.pod) ≡ false
        → (e : Endpoint) → Released s a (uid_of a.pod uid) e
        → P e)
    → Gives P (release_pod s a uid nic)
unfolding release_pod
release_pod-P P s a uid nic h = elim (Bool-cases (is_answered a.pod)) [
  | inr no_answer ↦ rw (release_pod, no_answer) (inl refl)
  | inl answer ↦ elim (Bool-cases (is_pod_alive (pod_of a.pod))) [
    | inl lives ↦ rw (release_pod, answer, lives) (inl refl)
    | inr dead ↦ elim (Bool-cases (text_eq (uid_of a.pod uid) [])) [
      | inl no_uid ↦ rw (release_pod, answer, dead, no_uid) (inl refl)
      | inr has_uid ↦
          rw (release_pod, answer, dead, has_uid)
            (of_endpoint-Gives P s a (uid_of a.pod uid) nic a.endpoint refl (h dead))
    ]
  ]
]

-- CNI DEL asks the pools for nothing, or for exactly the addresses of the pod's endpoint with the
-- endpoint's uid, and then the pod is known not to be alive, the endpoint has its uid, and neither a
-- StatefulSet nor a virtual machine, where these keep addresses, still has the pod.
pub release_pod-Gives :
    (s : Switches) (a : ReleaseAnswers) (uid nic : Text)
    → Gives
        (λ e. (is_pod_alive (pod_of a.pod) ≡ false) × Released s a (uid_of a.pod uid) e)
        (release_pod s a uid nic)
release_pod-Gives s a uid nic = release_pod-P _ s a uid nic (λ dead e r. (dead, r))
