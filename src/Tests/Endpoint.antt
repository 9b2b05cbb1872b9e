-- ===== src/Tests/Endpoint.antt =====
-- The theorems of endpoints and of CNI DEL on an endpoint with one detail.
use spiderpool.Prelude.{
  ◌≡◌, refl, true, false, ◌||◌, ◌++◌, Text, List, [], ◌∷◌, none, some, codes, text_eq,
}
use spiderpool.Pool.Affinity.{PodTopController}
use spiderpool.Endpoint.Records.{AllocationResult, Detail, Endpoint}
use spiderpool.Endpoint.Details.{Grouping, grouped, group_ip_allocation_details}
use spiderpool.Endpoint.Details.Grouped.{addresses_in, group_ip_allocation_details_lem}
use spiderpool.Endpoint.Manager.{
  EndpointPod, Switches, update, nic_names, patch_ip_allocation_results,
}
use spiderpool.Endpoint.Details.Converted.{result_nics}
use spiderpool.Ipam.Nics.{mem}
use spiderpool.Ipam.Nics.Distinct.{Distinct}
use spiderpool.Endpoint.Manager.Patched.{patch_ip_allocation_results-Named}
use spiderpool.Endpoint.Configs.{Answer}
use spiderpool.Ipam.Flow.{AllocateAnswers, respond, allocate}
use spiderpool.Ipam.Flow.Retrieved.{Answered, allocate-Retrieved}
use spiderpool.Tests.Net.{sample}
use spiderpool.Ipam.Release.{
  running, always, succeeded, never, found, ReleaseAnswers, release_pod, is_pod_alive, pod_of,
  uid_of,
}
use spiderpool.Ipam.Release.Guarded.{Gives, Released, release_pod-Gives}

abbrev detail : Detail
detail = record {
  nic = codes "eth0";
  ipv4 = some (codes "10.0.0.5/8");
  ipv6 = none;
  ipv4_pool = some (codes "a");
  ipv6_pool = none;
  vlan = some 0;
  ipv4_gateway = none;
  ipv6_gateway = none;
  clean_gateway = none;
  routes = [];
  mac = none;
}

abbrev endpoint : Endpoint
endpoint = record {
  namespace = codes "ns";
  name = codes "a-0";
  deleting = false;
  has_finalizer = true;
  owned_by_pod = true;
  uid = codes "u";
  node = codes "n1";
  ips = detail ∷ [];
  owner_controller_type = codes "Deployment";
  owner_controller_name = codes "a";
}

abbrev groups : Grouping
groups = (codes "a", record { ip = codes "10.0.0.5"; uid = codes "u" } ∷ []) ∷ []

gathered : group_ip_allocation_details (codes "u") endpoint.ips ≡ some groups
unfolding group_ip_allocation_details
gathered = refl

group_ip_allocation_details_lem_example :
    grouped (codes "a") groups ≡ addresses_in (codes "a") (codes "u") endpoint.ips
group_ip_allocation_details_lem_example =
    group_ip_allocation_details_lem (codes "a") (codes "u") endpoint.ips groups gathered

abbrev switches : Switches
switches = record { stateful_set = true; kubevirt_static_ip = true }

abbrev controller : PodTopController
controller = record {
  api_version = codes "apps/v1";
  kind = codes "Deployment";
  namespace = codes "ns";
  name = codes "a";
}

abbrev pod : EndpointPod
pod = record { namespace = codes "ns"; name = codes "a-0"; uid = codes "u"; node_name = codes "n1" }

abbrev result : AllocationResult
result = record {
  ip = record {
    nic = codes "net1";
    address = codes "10.0.0.6/8";
    ip_pool = codes "a";
    version = 4;
    gateway = [];
    vlan = 0;
    mac = [];
  };
  routes = [];
  clean_gateway = false;
}

patch_ip_allocation_results-Named_example :
    (ips : List Detail) × (patch_ip_allocation_results switches true
        (λ s. none)
        (result ∷ [])
        (some endpoint)
        (some pod)
        controller
        false
      ≡ update (record endpoint { ips = ips }))
    × ((added : List Detail) × (ips ≡ endpoint.ips ++ added))
    × Distinct (nic_names ips)
    × ((k : Text)
        → mem k (nic_names ips)
          ≡ (mem k (nic_names endpoint.ips) || mem k (result_nics (result ∷ []))))
patch_ip_allocation_results-Named_example =
    patch_ip_allocation_results-Named switches true (λ s. none) (result ∷ []) endpoint pod
      controller refl (refl, tt)

abbrev answers : ReleaseAnswers
answers = record {
  pod = found (record {
    uid = codes "u";
    deleting = false;
    phase = succeeded;
    restart_policy = never;
    reason = [];
    controller = none;
  });
  endpoint = found endpoint;
  valid_stateful_set_pod = none;
  valid_vm_pod = none;
  deleted = true;
  iaas_released = true;
  tickets_acquired = true;
  released = λ p ius. true;
  finalizer_removed = true;
}

-- The addresses are asked for.
given : (release_pod switches answers [] (codes "eth0")).releases ≡ groups
unfolding release_pod text_eq
given = refl

release_pod-Gives_example :
    Gives
      (λ e.
        (is_pod_alive (pod_of answers.pod) ≡ false)
        × Released switches answers (uid_of answers.pod []) e)
      (release_pod switches answers [] (codes "eth0"))
release_pod-Gives_example = release_pod-Gives switches answers [] (codes "eth0")

-- A running pod of a Deployment, whose endpoint has its addresses
abbrev asked : AllocateAnswers
asked = record {
  pod = some (record {
    uid = codes "u";
    deleting = false;
    phase = running;
    restart_policy = always;
    reason = [];
    controller = some controller;
  });
  node_name = codes "n1";
  controller = some controller;
  endpoint = found endpoint;
  outdated = none;
  deleted = false;
  finalizer_removed = false;
  updated = λ m. true;
  written = λ e. true;
  detection = true;
  same = λ x y. true;
}

abbrev repeated : Answer
repeated = record {
  ips =
      record {
        nic = codes "eth0";
        address = codes "10.0.0.5/8";
        ip_pool = codes "a";
        version = 4;
        gateway = [];
        vlan = 0;
        mac = [];
      }
      ∷ [];
  routes = [];
}

retrieves : (allocate sample switches asked (codes "eth0") false).next ≡ respond repeated
unfolding allocate
retrieves = refl

allocate-Retrieved_example :
    Answered switches asked (allocate sample switches asked (codes "eth0") false) repeated
allocate-Retrieved_example =
    allocate-Retrieved sample switches asked (codes "eth0") false repeated retrieves
