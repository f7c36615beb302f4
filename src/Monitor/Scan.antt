-- ===== src/Monitor/Scan.antt =====
-- resourceMonitor.Scan of pkg/resourcemonitor: the zones, attributes and annotations of the node.
pub mod Resources
pub mod Zones
use resource_topology_export.Base.{
  ℕ, zero, suc, ◌+◌, ◌≡◌, Bool, true, false, ◌||◌, ◌&&◌, not, Option, none, some, List, [], ◌∷◌,
  ◌++◌, Text, nat_eq, text_eq, nat_beq, text_beq, any, if◌then◌else◌,
}
use resource_topology_export.Base.Int.{Int64, sub64, is_negative, lt64}
use resource_topology_export.Base.Dict.{Dict, get, put, get_or}
use resource_topology_export.Base.Strings.{codes}
use resource_topology_export.Podres.{PodResources}
use resource_topology_export.Podres.Filter.{FilterResult, verify, verify_always_pass}
use resource_topology_export.Middleware.{Reply}
use resource_topology_export.Monitor.Topology.{
  Node, CostInfo, make_zone_name, make_costs_per_numa_node,
}
use resource_topology_export.Monitor.Normalize.{resource_cpu, get_all_container_devices}
use resource_topology_export.Monitor.Counters.{
  ResourceCounter, PerNumaResourceCounter, container_devices_to_per_numa_resource_counters, counter,
}
use resource_topology_export.Monitor.Resources.{ResourceMonitor}

-- ResourceExclude: resource names by node name, where * stands for every node.
abbrev pub ResourceExclude : Type 0
ResourceExclude = Dict Text (List Text)

-- ToMapSet, whose sets are only asked for members
abbrev pub has_name : Text → Option (List Text) → Bool
has_name name none = false
has_name name (some names) = any (λ n. text_beq n name) names

-- inExcludeSet
unfoldable pub in_exclude_set : ResourceExclude → Text → Text → Bool
in_exclude_set exclude name node_name =
    if has_name name (get exclude (codes "*"))
    then true
    else if has_name name (get exclude node_name)
    then true
    else false

-- topologyv1alpha2.ResourceInfo, whose quantities hold an int64
pub record ResourceInfo : Type 0 where
  pub name : Text
  pub available : Int64
  pub allocatable : Int64
  pub capacity : Int64

pub record Zone : Type 0 where
  pub name : Text
  pub type : Text
  pub resources : List ResourceInfo
  pub costs : List CostInfo

-- The capacity that is reported: the known one, unless it is missing, zero or below the allocatable.
unfoldable pub report_capacity : Option Int64 → Int64 → Int64
report_capacity known alloc =
    let capacity : Int64 = elim known [
      | none ↦ alloc
      | some c ↦ if nat_beq c 0 then alloc else c
    ] in
    if lt64 capacity alloc then alloc else capacity

-- What is left, not below zero.
unfoldable pub report_available : Int64 → Int64 → Int64
report_available alloc used = let avail = sub64 alloc used in if is_negative avail then 0 else avail

-- The body of the loop over the resources of a node.
unfoldable pub resource_info : ResourceCounter → ResourceCounter → Text → Int64 → ResourceInfo
resource_info capacities used name alloc = record {
  name = name;
  available = report_available alloc (get_or used name 0);
  allocatable = alloc;
  capacity = report_capacity (get capacities name) alloc;
}

unfoldable pub zone_resources :
    ResourceExclude → Text → ResourceCounter → ResourceCounter → ResourceCounter → List ResourceInfo
zone_resources exclude node_name capacities used [] = []
zone_resources exclude node_name capacities used ((name, alloc) ∷ rest) =
    let more = zone_resources exclude node_name capacities used rest in
    if in_exclude_set exclude name node_name
    then more
    else resource_info capacities used name alloc ∷ more

abbrev costs_or_none : Option (List CostInfo) → List CostInfo
costs_or_none none = []
costs_or_none (some costs) = costs

-- A NUMA node with nothing allocatable has all its CPUs reserved.
abbrev pub allocatable_of : PerNumaResourceCounter → Int64 → ResourceCounter
allocatable_of allocatable id = elim (get allocatable id) [
  | none ↦ (resource_cpu, 0) ∷ []
  | some counter ↦ counter
]

module _ (rm : ResourceMonitor) (exclude : ResourceExclude)
    (allocated : PerNumaResourceCounter) where
  -- The body of the loop over the NUMA nodes.
  unfoldable pub make_zone : Int64 → Zone
  make_zone id = record {
    name = make_zone_name id;
    type = codes "Node";
    resources =
        zone_resources exclude rm.node_name (get_or rm.node_capacity id []) (get_or allocated id [])
          (allocatable_of rm.node_allocatable id);
    costs = costs_or_none (make_costs_per_numa_node rm.topo id);
  }

  -- The loop is over the indices of the nodes.
  unfoldable pub zones_from : ℕ → List Node → List Zone
  zones_from i [] = []
  zones_from i (node ∷ nodes) = make_zone i ∷ zones_from (i + 1) nodes

pub record AttributeInfo : Type 0 where
  pub name : Text
  pub value : Text

pub record ScanResponse : Type 0 where
  pub zones : List Zone
  pub attributes : List AttributeInfo
  pub annotations : Option (Dict Text Text)  -- none is the nil map

-- github.com/k8stopologyawareschedwg/podfingerprint: its names, and the signature of the pods in the
-- order in which they are added.
pub record PodFingerprint : Type 0 where
  pub attribute : Text
  pub attribute_method : Text
  pub annotation : Text
  pub method_all : Text
  pub sign : List PodResources → Text

-- The arguments that Scan reads.
pub record ScanArgs : Type 0 where
  pub namespace : Text
  pub pod_set_fingerprint : Bool
  pub pod_set_fingerprint_method : Text

-- computePodFingerprintFromPodResources, up to the signature: the pods that are added.
unfoldable pub fingerprinted :
    (Option PodResources → FilterResult) → List PodResources → List PodResources
fingerprinted verify_func [] = []
fingerprinted verify_func (pr ∷ prs) =
    let rest = fingerprinted verify_func prs in
    if (verify_func (some pr)).allow then pr ∷ rest else rest

module _ (pfp : PodFingerprint) where
  unfoldable pub compute_pod_fingerprint : Text → List PodResources → Text
  compute_pod_fingerprint method prs = pfp.sign (
      if text_beq method pfp.method_all
      then fingerprinted verify_always_pass prs
      else fingerprinted verify prs)

  unfoldable pub scan_pods :
      ScanArgs → ResourceMonitor → ResourceExclude → List PodResources → ScanResponse
  scan_pods args rm exclude prs =
      let sign = compute_pod_fingerprint args.pod_set_fingerprint_method prs in
      let devices = get_all_container_devices prs args.namespace rm.core_id_to_node_id_map in
      let allocated = container_devices_to_per_numa_resource_counters devices in
      record {
        zones = zones_from rm exclude allocated 0 rm.topo;
        attributes =
            if args.pod_set_fingerprint
            then record { name = pfp.attribute; value = sign }
              ∷ record { name = pfp.attribute_method; value = args.pod_set_fingerprint_method }
              ∷ []
            else [];
        annotations = some (if args.pod_set_fingerprint then put [] pfp.annotation sign else []);
      }

  -- Scan, over what the List call of the pod resources client gives. On an error the response is the
  -- zero value.
  unfoldable pub scan :
      {E : Type 0}
      → ScanArgs
      → ResourceMonitor
      → ResourceExclude
      → Reply E (List PodResources)
      → Reply E ScanResponse
  scan args rm exclude reply = elim reply.err [
    | some e ↦ record {
      resp = record { zones = []; attributes = []; annotations = none };
      err = some e;
    }
    | none ↦ record { resp = scan_pods args rm exclude reply.resp; err = none }
  ]
