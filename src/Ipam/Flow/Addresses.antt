-- ===== src/Ipam/Flow/Addresses.antt =====
-- The addresses of an answer that is retrieved are those of the endpoint.
use spiderpool.Prelude.{
  ◌≡◌, refl, ◌∙◌, Bool, true, false, not, Option, none, some, Text, text_eq, map, if◌then◌else◌,
}
use spiderpool.Net.Textual.{NetText}
use spiderpool.Endpoint.Records.{Endpoint}
use spiderpool.Endpoint.Details.{Grouping, group_ip_allocation_details}
use spiderpool.Endpoint.Configs.{Answer, convert_ip_details}
use spiderpool.Endpoint.Configs.Recorded.{
  placed, recorded_addresses, recorded_addresses-name_first, placed-convert_ip_details,
}
use spiderpool.Endpoint.Manager.{
  no_call, update, name_first, is_named, reallocate_current_ip_allocation,
  update_allocation_nic_name, retrieve_ip_allocation,
}
use spiderpool.Ipam.Flow.{
  AllocateAnswers, Next, respond, refuse, crash, nothing, Flow, plain, after_call, answer_of, renew,
  retrieve_static_ip_allocation, retrieve_existing_ip_allocation,
}

-- What there is of an endpoint has the addresses of `e`.
abbrev Keeps : Endpoint → Option Endpoint → Type 0
Keeps e none = Unit {0}
Keeps e (some e') = recorded_addresses e'.ips ≡ recorded_addresses e.ips

keep-if :
    (b : Bool) (e : Endpoint) (x y : Option Endpoint)
    → Keeps e x
    → Keeps e y
    → Keeps e (if b then x else y)
keep-if true e x y hx hy = hx
keep-if false e x y hx hy = hy

keep-choice :
    (written : Endpoint → Bool) (b : Bool) (e x : Endpoint)
    → recorded_addresses x.ips ≡ recorded_addresses e.ips
    → Keeps e (after_call written e (if b then no_call else update x))
keep-choice written true e x same = refl
keep-choice written false e x same = keep-if (written x) e (some x) none same tt

reallocate-Keeps :
    (written : Endpoint → Bool) (same : Endpoint → Endpoint → Bool) (uid node nic : Text)
    (e : Endpoint) (multiple : Bool)
    → Keeps e (
        after_call written e (reallocate_current_ip_allocation same uid node nic (some e) multiple))
unfolding reallocate_current_ip_allocation
reallocate-Keeps written same uid node nic e multiple =
    keep-choice written (same _ e) e _ (renamed multiple)
  where
    renamed :
        (b : Bool)
        → recorded_addresses (if b then name_first nic e.ips else e.ips) ≡ recorded_addresses e.ips
    renamed true = recorded_addresses-name_first nic e.ips
    renamed false = refl

rename-Keeps :
    (written : Endpoint → Bool) (e : Endpoint) (nic : Text)
    → Keeps e (after_call written e (update_allocation_nic_name e nic))
unfolding update_allocation_nic_name
rename-Keeps written e nic =
    keep-choice written (is_named nic e.ips) e (record e { ips = name_first nic e.ips })
      (recorded_addresses-name_first nic e.ips)

if-respond :
    (b : Bool) (x : Next) {ans : Answer} → (if b then x else refuse) ≡ respond ans → x ≡ respond ans
if-respond true x h = h
if-respond false x h = cc

-- The addresses are those of the endpoint, and their records were refreshed for the pod.
abbrev pub Refreshed : AllocateAnswers → Text → Endpoint → Flow → Answer → Type 0
Refreshed a uid e f ans =
    (map placed ans.ips ≡ recorded_addresses e.ips)
    × (group_ip_allocation_details uid e.ips ≡ some f.updates)
    × (a.updated f.updates ≡ true)

module _ (n : NetText) where
  answer_of-respond :
      (e : Endpoint) (x : Option Endpoint) {ans : Answer}
      → Keeps e x
      → answer_of n x ≡ respond ans
      → map placed ans.ips ≡ recorded_addresses e.ips
  answer_of-respond e none keep h = cc
  answer_of-respond e (some e') keep h =
      placed-convert_ip_details n e'.ips (converted (convert_ip_details n e'.ips) h) ∙ keep
    where
      converted :
          {ans : Answer} (o : Option Answer)
          → (elim o [ none ↦ crash | some a ↦ respond a ]) ≡ respond ans
          → o ≡ some ans
      converted none q = cc
      converted (some a) q = cc

  pub retrieve_static-Refreshed :
      (a : AllocateAnswers) (uid nic : Text) (multiple : Bool) (e : Endpoint) {ans : Answer}
      → (retrieve_static_ip_allocation n a uid nic multiple (some e)).next ≡ respond ans
      → Refreshed a uid e (retrieve_static_ip_allocation n a uid nic multiple (some e)) ans
  unfolding retrieve_static_ip_allocation
  retrieve_static-Refreshed a uid nic multiple e h =
      found_one (retrieve_ip_allocation uid nic (some e) true) h
    where
      updated_one :
          {ans : Answer} (m : Grouping) (b : Bool) (x : Option Endpoint)
          → a.updated m ≡ b
          → Keeps e x
          → (if not b then refuse else elim x [
            | none ↦ refuse
            | some e' ↦ if a.detection then answer_of n (some e') else refuse
          ])
            ≡ respond ans
          → (map placed ans.ips ≡ recorded_addresses e.ips) × (a.updated m ≡ true)
      updated_one m false x q keep h = cc
      updated_one m true none q keep h = cc
      updated_one m true (some e') q keep h =
          (answer_of-respond e (some e') keep (if-respond a.detection _ h), q)

      renewed :
          {ans : Answer} (o : Option Grouping)
          → group_ip_allocation_details uid e.ips ≡ o
          → (renew n a uid nic multiple e o).next ≡ respond ans
          → Refreshed a uid e (renew n a uid nic multiple e o) ans
      renewed none q h = cc
      renewed (some m) q h =
          let (same, updated) =
            updated_one m (a.updated m) _ refl
              (reallocate-Keeps a.written a.same uid a.node_name nic e multiple) h in
          (same, q, updated)

      found_one :
          {ans : Answer} (b : Bool)
          → (if b
              then renew n a uid nic multiple e (group_ip_allocation_details uid e.ips)
              else plain nothing).next
            ≡ respond ans
          → Refreshed a uid e
              (if b
                then renew n a uid nic multiple e (group_ip_allocation_details uid e.ips)
                else plain nothing)
              ans
      found_one true h = renewed _ refl h
      found_one false h = cc

  pub retrieve_existing-own :
      (a : AllocateAnswers) (uid nic : Text) (multiple : Bool) (e : Endpoint) {ans : Answer}
      → retrieve_existing_ip_allocation n a uid nic multiple (some e) ≡ respond ans
      → (map placed ans.ips ≡ recorded_addresses e.ips) × (text_eq e.uid uid ≡ true)
  unfolding retrieve_existing_ip_allocation
  retrieve_existing-own a uid nic multiple e h =
      own (text_eq e.uid uid) (retrieve_ip_allocation uid nic (some e) false) multiple _ refl h
    where
      own :
          {ans : Answer} (b r m x : Bool)
          → text_eq e.uid uid ≡ b
          → (if not b
              then (if x then nothing else refuse)
              else if not r
              then nothing
              else if m
              then answer_of n (after_call a.written e (update_allocation_nic_name e nic))
              else answer_of n (some e))
            ≡ respond ans
          → (map placed ans.ips ≡ recorded_addresses e.ips) × (text_eq e.uid uid ≡ true)
      own false r m true q h = cc
      own false r m false q h = cc
      own true false m x q h = cc
      own true true true x q h = (answer_of-respond e _ (rename-Keeps a.written e nic) h, q)
      own true true false x q h = (answer_of-respond e (some e) refl h, q)
