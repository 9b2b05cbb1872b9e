-- ===== src/Lib.antt =====
-- Spiderpool, an IP address manager for Kubernetes: verification of the parts that decide which
-- address a pod gets, and of the limiter through which concurrent requests for addresses pass.
--
-- How the parts interact. A pod's request for addresses (pkg/ipam) chooses its interfaces and their
-- candidate pools from annotations, namespaces, the CNI configuration or the cluster's defaults,
-- leaves out the pools that may not serve the pod, and sorts the others. It then asks the limiter
-- (pkg/limiter) for the tickets of these pools, so that requests for one pool run one after another.
-- The pool manager (pkg/ippoolmanager) reads a pool from the API server, looks for a free address
-- with pkg/ip, records it in the status and writes the status back; a write that conflicts with
-- another is retried (pkg/utils/retry). What was allocated is recorded in the pod's endpoint
-- (pkg/workloadendpointmanager), or in a cache of failures, from which the next request takes it. The
-- release of a pod's addresses groups those of its endpoint by pool and takes them out of the pools'
-- records. The webhooks refuse a pool that overlaps another, leaves its subnet or drops an address in
-- use; they compare ranges with pkg/ip/subnet.go. The subnet manager (pkg/subnetmanager) gives free
-- addresses of a subnet to the pools that it controls, and records them in the subnet's status; the
-- application controller names these pools and says how many addresses they need. The garbage
-- collector (pkg/gcmanager) scans the records of all pools for addresses whose pods have left, and
-- traces pods that leave, to release their addresses.
--
-- Files and code:
--   Prelude           shared notation, lists, texts as lists of character codes, results, Go maps as
--                     association lists
--   Net               net.IP and net.IPNet as values; parsing and printing are parameters
--   Ip/Arithmetic     pkg/ip/ip.go: ipToInt, intToIP, NextIP, PrevIP, Cmp
--   Ip/Bytes          pkg/ip/ip.go: nextIP on bytes and on values
--   Ip/Format         pkg/ip/ip.go, iprange.go, cidr.go, route.go: the checks of texts
--   Ip/Range          pkg/ip/iprange.go: ParseIPRange(s), MergeIPRanges, ConvertIPsToIPRanges, ...
--   Ip/Sets           pkg/ip/ip.go, utils.go: difference, union, intersection
--   Ip/Available      pkg/ip/ip.go: FindAvailableIPs
--   Ip/Subnet         pkg/ip/subnet.go: the type CIDR
--   Ip/LabelValue     pkg/ip/utils.go: CIDRToLabelValue
--   Limiter/Queue     pkg/limiter/queue.go, config.go: one function per critical section
--   Limiter/System    the same with callers, as a step relation over all interleavings
--   Pool/Records      the fields of an IPPool, its records of addresses, and their codec in
--                     pkg/utils/convert/convert.go
--   Pool/Api          pkg/utils/retry/retry.go against a server to which others write
--   Pool/Allocate     pkg/ippoolmanager/ippool_manager.go: AllocateIP, genRandomIP
--   Pool/Release      pkg/ippoolmanager/ippool_manager.go: ReleaseIP, UpdateAllocatedIPs
--   Pool/Affinity     pkg/ippoolmanager/utils.go: affinity of auto-created pools, wildcards
--   Pool/Priority     pkg/ippoolmanager/utils.go: ByPoolPriority
--   Subnets/Records   a subnet's record of the addresses given to pools, and its codec
--   Subnets/FreeIps   the free addresses of a subnet, of pkg/applicationcontroller, and the counts of
--                     its status, of pkg/subnetmanager/subnet_manager.go
--   Subnets/PreAllocate  pkg/subnetmanager/subnet_manager.go: preAllocateIPsFromSubnet
--   Webhooks/Objects  what the webhooks read of pools, subnets and reserved addresses
--   Webhooks/Checks   pkg/ippoolmanager/ippool_validate.go: the checks of versions, ranges, gateways
--                     and routes, shared by the webhooks
--   Webhooks/IpPool   the rest of that file; /InSubnet of ippool_subnet_validate.go, /Mutation of
--                     ippool_mutate.go and pkg/subnetmanager/subnet_mutate.go
--   Webhooks/Subnet   pkg/subnetmanager/subnet_validate.go
--   Webhooks/ReservedIp  pkg/reservedipmanager: AssembleReservedIPs, validation and mutation
--   Webhooks/Updates  ValidateUpdate in ippool_webhook.go, subnet_webhook.go and
--                     reservedip_webhook.go of these packages
--   Apps/Names        pkg/applicationcontroller/applicationinformers/utils.go: names of automatic
--                     pools and of applications
--   Apps/Numbers      the same file and pkg/ipam/utils.go: how many addresses an automatic pool needs
--   Gc/PodDatabase    pkg/gcmanager/pod_cache.go: the database of pods to collect
--   Gc/PodEntries     pkg/gcmanager/pod_cache.go: buildPodEntry, which pods are traced
--   Gc/Status         pkg/gcmanager/scanAll_IPPool.go: the checks of owners, nodes and the status of
--                     a pod; IsStaticIPPod of pkg/podmanager/utils.go
--   Gc/Scan           pkg/gcmanager/scanAll_IPPool.go: the decision on one record, in Gc/Scan/Calls
--                     the calls that follow
--   Gc/Trace          pkg/gcmanager/tracePod_worker.go: the handling of one entry and of one signal; in
--                     Gc/Trace/System the worker, the channel and the executors as a step relation
--   Multus/Networks   pkg/multuscniconfig/utils.go: the networks that a pod's annotation selects
--   Endpoint/Records  the SpiderEndpoint, an allocation's results and its routes
--   Endpoint/Details  pkg/utils/convert/convert.go: GroupIPAllocationDetails,
--                     ConvertResultsToIPDetails
--   Endpoint/Configs  pkg/utils/convert/convert.go: configurations and default routes of an answer
--   Endpoint/Manager  pkg/workloadendpointmanager: the writes of an endpoint
--   Ipam/Nics         pkg/ipam/utils.go: the interfaces of the annotation `ippools`
--   Ipam/Preference   pkg/ipam/pool_selections.go: where candidate pools come from; wildcards of
--                     pkg/ippoolmanager/ippool_manager.go
--   Ipam/Facts        what selectByPod reads, and its checks of names and selectors
--   Ipam/Select       pkg/ipam/allocate.go: selectByPod
--   Ipam/Candidates   pkg/ipam/allocate.go, config.go, types.go: from the preliminary candidates to
--                     the sorted ones
--   Ipam/Allocate     pkg/ipam/allocate.go, ipam.go: allocation for the candidates, failure cache
--   Ipam/Outdated     pkg/ipam/allocate.go: releaseStsOutdatedIPIfNeed
--   Ipam/Routes       pkg/ipam/utils.go: groupCustomRoutes
--   Ipam/Flow         pkg/ipam/allocate.go: Allocate, with the retrieval of existing allocations
--   Ipam/Release      pkg/ipam/release.go: CNI DEL; IsPodAlive of pkg/podmanager/utils.go
--   Tests             the theorems at concrete inputs
-- A function keeps its Go name in snake case; a record stands for a struct, an error for an error
-- value. A module below one of these (Range/Merge, Pool/Allocate/Safety) holds proofs.
--
-- Bounds and fuel. Addresses are the big-endian values of 4 or 16 bytes and wrap as the bytes do.
-- The loops of ParseIPRange and FindAvailableIPs run on fuel; `addresses_up_to_lem` and
-- `find_available_ips_lem` give the fuel that is enough, one more than the addresses of a range and
-- the closing test. An operation has at most 5 attempts, as in the code.
--
-- A text is the list of its code points. Where the source counts bytes, as for the name of an
-- interface, the model counts those of UTF-8; the names and uids of Kubernetes are ASCII.
--
-- A function that calls other components takes their answers as arguments; the calls that it makes
-- are its result. The goroutines of one allocation, which hold the tickets of their pools, are run one
-- after another, in any order of the candidates. sort.Sort and sort.Slice are sorts by insertion; the
-- order of a Go map, which is open, chooses among the orders that they may leave.
--
-- The step relation of the limiter assumes that callers give back exactly the tickets that they were
-- granted. pkg/ipam does, by defer; pkg/gcmanager/tracePod_worker.go also gives tickets back when its
-- request was refused, which Limiter/Unmatched is about.
--
-- Not modelled: net.ParseIP, IP.String, net.ParseCIDR and IPNet.String (the record NetText, with
-- their documented behaviour in NetTextLaws), json.Unmarshal, strconv, filepath.Match, label selectors
-- and net.ParseMAC (arguments), the API server beyond the resource version of one object, contexts and
-- their deadlines, logs and metrics, the calls of the IaaS provider beyond their success, and the
-- components of the repository that have no file above: the reconciliation of automatic pools, the
-- informers, the coordinator, the CNI plugins, and generated code. The webhooks take the lists of pools
-- and subnets as answers of the API server, and the names of API versions, the validity of selectors,
-- SetControllerReference and strings.ToLower as arguments. Numbers of addresses and replicas are not
-- negative.
pub mod Prelude
pub mod Net
pub mod Ip
pub mod Pool
pub mod Gc
pub mod Multus
pub mod Ipam
pub mod Endpoint
pub mod Limiter
pub mod Apps
pub mod Subnets
pub mod Webhooks
pub mod Tests
