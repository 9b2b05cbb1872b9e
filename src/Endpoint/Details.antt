-- ===== src/Endpoint/Details.antt =====
-- pkg/utils/convert/convert.go: from the results of an allocation to the details of an endpoint, and
-- from these to the addresses of each pool.
pub mod Grouped
pub mod Converted
use spiderpool.Prelude.{
  ℕ, Bool, true, false, List, [], ◌∷◌, ◌++◌, Option, none, some, Text, codes, text_eq, split_on,
  lookup, insert, ltb, ◌==◌, is_some, if◌then◌else◌,
}
use spiderpool.Pool.Release.{IpAndUid}
use spiderpool.Endpoint.Records.{
  SpecRoute, Route, IpConfig, AllocationResult, Detail, convert_oai_routes,
}

-- `types.PoolNameToIPAndUIDs`
abbrev pub Grouping : Type 0
Grouping = List (Text × List IpAndUid)

abbrev pub grouped : Text → Grouping → List IpAndUid
grouped pool m = elim (lookup pool m) [ none ↦ [] | some ius ↦ ius ]

-- `strings.Split(s, "/")[0]`
abbrev pub first_part : List Text → Text
first_part [] = []
first_part (w ∷ ws) = w

abbrev pub before_slash : Text → Text
before_slash s = first_part (split_on b'/' s)

-- One address; none stands for the panic where its pool is nil.
unfoldable pub group_address : Text → Option Text → Option Text → Grouping → Option Grouping
unfolding insert lookup split_on
group_address uid none pool m = some m
group_address uid (some ip) none m = none
group_address uid (some ip) (some pool) m =
    some (insert pool (grouped pool m ++ record { ip = before_slash ip; uid = uid } ∷ []) m)

-- The loop of `GroupIPAllocationDetails`
unfoldable pub group_details : Text → List Detail → Grouping → Option Grouping
unfolding group_address
group_details uid [] m = some m
group_details uid (d ∷ ds) m = elim (group_address uid d.ipv4 d.ipv4_pool m) [
  | none ↦ none
  | some m4 ↦ elim (group_address uid d.ipv6 d.ipv6_pool m4) [
    | none ↦ none
    | some m6 ↦ group_details uid ds m6
  ]
]

unfoldable pub group_ip_allocation_details : Text → List Detail → Option Grouping
unfolding group_details
group_ip_allocation_details uid ds = group_details uid ds []

-- none for the empty text
abbrev pub non_empty : Text → Option Text
non_empty [] = none
non_empty (c ∷ s) = some (c ∷ s)

-- The detail of an interface's first result
unfoldable pub new_detail : AllocationResult → Detail
unfolding convert_oai_routes
new_detail r =
    let v4 = r.ip.version == 4 in
    record {
      nic = r.ip.nic;
      ipv4 = if v4 then some r.ip.address else none;
      ipv6 = if v4 then none else some r.ip.address;
      ipv4_pool = if v4 then some r.ip.ip_pool else none;
      ipv6_pool = if v4 then none else some r.ip.ip_pool;
      vlan = some r.ip.vlan;
      ipv4_gateway = if v4 then non_empty r.ip.gateway else none;
      ipv6_gateway = if v4 then none else non_empty r.ip.gateway;
      clean_gateway = if is_some (non_empty r.ip.gateway) then some r.clean_gateway else none;
      routes = convert_oai_routes r.routes;
      mac = non_empty r.ip.mac;
    }

-- A further result of the interface
unfoldable pub add_to_detail : AllocationResult → Detail → Detail
unfolding convert_oai_routes
add_to_detail r d =
    let v4 = r.ip.version == 4 in
    record d {
      ipv4 = if v4 then some r.ip.address else d.ipv4;
      ipv6 = if v4 then d.ipv6 else some r.ip.address;
      ipv4_pool = if v4 then some r.ip.ip_pool else d.ipv4_pool;
      ipv6_pool = if v4 then d.ipv6_pool else some r.ip.ip_pool;
      ipv4_gateway = if v4 then non_empty r.ip.gateway else d.ipv4_gateway;
      ipv6_gateway = if v4 then d.ipv6_gateway else non_empty r.ip.gateway;
      routes = d.routes ++ convert_oai_routes r.routes;
      mac = if is_some d.mac then d.mac else non_empty r.ip.mac;
    }

-- `nicToDetail`
abbrev pub NicMap : Type 0
NicMap = List (Text × Detail)

unfoldable pub add_result : AllocationResult → NicMap → NicMap
unfolding lookup insert new_detail add_to_detail
add_result r m = elim (lookup r.ip.nic m) [
  | some d ↦ insert r.ip.nic (add_to_detail r d) m
  | none ↦ insert r.ip.nic (new_detail r) m
]

unfoldable pub collect_results : List AllocationResult → NicMap → NicMap
unfolding add_result
collect_results [] m = m
collect_results (r ∷ rs) m = collect_results rs (add_result r m)

abbrev pub values : NicMap → List Detail
values [] = []
values ((k, d) ∷ m) = d ∷ values m

-- The test of `sort.Slice`: not less where one of the names is no number.
abbrev pub number_less : Option ℕ → Option ℕ → Bool
number_less (some a) (some b) = ltb a b
number_less _ _ = false

-- `atoi` is `strconv.Atoi`, none where it fails.
unfoldable pub insert_detail : (Text → Option ℕ) → Detail → List Detail → List Detail
insert_detail atoi d [] = d ∷ []
insert_detail atoi d (e ∷ es) =
    if number_less (atoi e.nic) (atoi d.nic) then e ∷ insert_detail atoi d es else d ∷ e ∷ es

unfoldable pub sort_details : (Text → Option ℕ) → List Detail → List Detail
unfolding insert_detail
sort_details atoi [] = []
sort_details atoi (d ∷ ds) = insert_detail atoi d (sort_details atoi ds)

abbrev pub eth0 : Text
eth0 = codes "eth0"

abbrev pub without_names : List Detail → List Detail
without_names [] = []
without_names (d ∷ ds) = record d { nic = [] } ∷ without_names ds

-- The first interface is `eth0`, the others have no name yet.
unfoldable pub rename_details : List Detail → List Detail
rename_details [] = []
rename_details (d ∷ ds) = record d { nic = eth0 } ∷ without_names ds

unfoldable pub convert_results_to_ip_details :
    (Text → Option ℕ) → List AllocationResult → Bool → List Detail
unfolding collect_results sort_details rename_details
convert_results_to_ip_details atoi results multiple =
    let details = values (collect_results results []) in
    if multiple then rename_details (sort_details atoi details) else details
