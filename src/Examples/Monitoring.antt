-- ===== src/Examples/Monitoring.antt =====
-- A node with two NUMA nodes of two CPUs each, and one pod on it.
use mathlib.Core.List.Perm
use resource_topology_export.Base.{
  ◌%◌, ◌≡◌, ◌≢◌, refl, ◌↔◌, inl, true, none, some, List, [], ◌∷◌, map, length, Text, nat_eq,
  text_eq, text_beq, text_beq_iff, arith, All,
}
use resource_topology_export.Base.Int.{NonNegative, Int64, minus_one, int64_mod, add64, to_int64}
use resource_topology_export.Base.Dict.{Dict, get, get_or, put}
use resource_topology_export.Base.Strings.{codes, format_int, format_uint, parse_int, has_prefix}
use resource_topology_export.Podres.{ContainerDevices, ContainerResources, PodResources}
use resource_topology_export.Podres.Filter.{verify}
use resource_topology_export.Podres.Filter.Locality.{Verdict, verify-first-exclusive}
use resource_topology_export.Middleware.{Filtered}
use resource_topology_export.Monitor.Topology.{
  Node, Located, make_core_id_to_node_id_map, map_nodes, map_cores, map_processors,
  make_core_id_to_node_id_map-Located,
}
use resource_topology_export.Monitor.Normalize.{
  resource_cpu, resource_memory, on_node, cpus_per_numa, cpu_devices, memory_devices, block_devices,
  normalize_container_devices, all_containers, get_all_container_devices,
}
use resource_topology_export.Monitor.Counters.{
  PerNumaResourceCounter, is_memory, sum_sizes, device_amount, count_nodes, count_devices,
  container_devices_to_per_numa_resource_counters, counter,
}
use resource_topology_export.Monitor.Counters.Tally.{
  tally, tally_nodes, counters-tally, counters-perm,
}
use resource_topology_export.Monitor.Accounting.Pods.{held_by_pods, allocated-eq-held}
use resource_topology_export.Monitor.Resources.{
  ResourceMonitor, update_devices_capacity, copy_counter, is_native_resource,
}
use resource_topology_export.Monitor.Resources.Panics.{HasStray, update_devices_capacity_panics_iff}
use resource_topology_export.Monitor.Scan.{
  allocatable_of, ResourceExclude, ScanArgs, PodFingerprint, zone_resources, scan_pods,
}
use resource_topology_export.Monitor.Scan.Resources.{
  KnownFits, IsExcludedName, zone_resources-Filtered, reported_pair,
}
use resource_topology_export.Monitor.Scan.Zones.{
  IsCounted, IsSound, AllFrom, allocated_of, scan_pods-IsSound,
}

abbrev two_nodes : List Node
two_nodes =
    record {
      id = 0;
      cores = record { logical_processors = 0 ∷ 2 ∷ [] } ∷ [];
      distances = 10 ∷ 20 ∷ [];
    }
    ∷ record {
      id = 1;
      cores = record { logical_processors = 1 ∷ 3 ∷ [] } ∷ [];
      distances = 20 ∷ 10 ∷ [];
    }
    ∷ []

abbrev core_map : Dict Int64 Int64
core_map = make_core_id_to_node_id_map two_nodes

abbrev vendor : Text
vendor = codes "v.io/x"

abbrev container : ContainerResources
container = record {
  name = codes "c";
  devices =
      record { resource_name = vendor; device_ids = codes "d0" ∷ []; topology = on_node 1 } ∷ [];
  memory = record { memory_type = resource_memory; size = 4096; topology = on_node 1 } ∷ [];
  cpu_ids = 1 ∷ 3 ∷ [];
}

abbrev pod : PodResources
pod = record { name = codes "p"; namespace = codes "ns"; containers = container ∷ [] }

cpu-ne-vendor : vendor ≢ resource_cpu
unfolding text_beq
cpu-ne-vendor e = absurd (ground (arith, (text_beq_iff vendor resource_cpu).1 e))

memory-ne-cpu : resource_memory ≢ resource_cpu
unfolding text_beq
memory-ne-cpu e = absurd (ground (arith, (text_beq_iff resource_memory resource_cpu).1 e))

allocated-eq-held_example :
    counter
      (container_devices_to_per_numa_resource_counters
        (get_all_container_devices (pod ∷ []) (codes "ns") core_map))
      1
      resource_cpu
    ≡ held_by_pods core_map (codes "ns") 1 resource_cpu (pod ∷ []) % int64_mod
allocated-eq-held_example =
    allocated-eq-held core_map 1 resource_cpu (codes "ns") (pod ∷ []) (inl refl)
      ((((cpu-ne-vendor, tt), (memory-ne-cpu, tt), (omega arith, tt)), tt), tt)

-- Both of the container's CPUs are on node 1.
two_cpus :
    counter
      (container_devices_to_per_numa_resource_counters
        (get_all_container_devices (pod ∷ []) (codes "ns") core_map))
      1
      resource_cpu
    ≡ 2
unfolding get_all_container_devices all_containers normalize_container_devices cpus_per_numa
    cpu_devices memory_devices block_devices make_core_id_to_node_id_map map_nodes map_cores
    map_processors container_devices_to_per_numa_resource_counters count_devices count_nodes
    device_amount counter get_or get put format_int format_uint parse_int is_memory sum_sizes add64
    to_int64 text_beq has_prefix
two_cpus = refl

make_core_id_to_node_id_map-Located_example :
    Located two_nodes 3 none (get (make_core_id_to_node_id_map two_nodes) 3)
make_core_id_to_node_id_map-Located_example = make_core_id_to_node_id_map-Located two_nodes 3

verify-first-exclusive_example : Verdict pod.containers (verify (some pod))
verify-first-exclusive_example = verify-first-exclusive pod

abbrev devices : List ContainerDevices
devices =
    record {
      resource_name = vendor;
      device_ids = codes "d0" ∷ codes "d1" ∷ [];
      topology = on_node 1;
    }
    ∷ record { resource_name = resource_cpu; device_ids = codes "3" ∷ []; topology = on_node 1 }
    ∷ []

abbrev swapped : List ContainerDevices
swapped =
    record { resource_name = resource_cpu; device_ids = codes "3" ∷ []; topology = on_node 1 }
    ∷ record {
      resource_name = vendor;
      device_ids = codes "d0" ∷ codes "d1" ∷ [];
      topology = on_node 1;
    }
    ∷ []

counters-tally_example :
    counter (container_devices_to_per_numa_resource_counters devices) 1 vendor
    ≡ tally 1 vendor devices 0
counters-tally_example = counters-tally devices 1 vendor

counters-perm_example :
    counter (container_devices_to_per_numa_resource_counters devices) 1 vendor
    ≡ counter (container_devices_to_per_numa_resource_counters swapped) 1 vendor
counters-perm_example = counters-perm devices swapped 1 vendor (Perm.swap _ _ _)

-- A device that does not care for its place is counted on the node -1.
abbrev stray_counter : PerNumaResourceCounter
stray_counter = (minus_one, (vendor, 1) ∷ []) ∷ []

abbrev capacity : PerNumaResourceCounter
capacity = (0, (resource_cpu, 2) ∷ []) ∷ (1, (resource_cpu, 2) ∷ []) ∷ []

update_devices_capacity_panics_iff_example :
    (update_devices_capacity stray_counter capacity ≡ none) ↔ HasStray stray_counter capacity
update_devices_capacity_panics_iff_example =
    update_devices_capacity_panics_iff stray_counter capacity

stray_panics : update_devices_capacity stray_counter capacity ≡ none
unfolding update_devices_capacity copy_counter is_native_resource text_beq has_prefix get
stray_panics = refl

abbrev exclude : ResourceExclude
exclude = (codes "*", vendor ∷ []) ∷ []

zone_resources-Filtered_example :
    Filtered
      (λ e. IsExcludedName exclude (codes "n1") e.0)
      ((resource_cpu, 2) ∷ (vendor, 1) ∷ [])
      (map reported_pair
        (zone_resources exclude (codes "n1") [] [] ((resource_cpu, 2) ∷ (vendor, 1) ∷ [])))
zone_resources-Filtered_example =
    zone_resources-Filtered exclude (codes "n1") [] [] ((resource_cpu, 2) ∷ (vendor, 1) ∷ [])

abbrev pfp : PodFingerprint
pfp = record {
  attribute = codes "fp";
  attribute_method = codes "method";
  annotation = codes "a";
  method_all = codes "all";
  sign = λ prs. codes "s";
}

abbrev args : ScanArgs
args = record {
  namespace = [];
  pod_set_fingerprint = true;
  pod_set_fingerprint_method = codes "all";
}

abbrev monitor : ResourceMonitor
monitor = record {
  node_name = codes "n1";
  topo = two_nodes;
  core_id_to_node_id_map = (0, 0) ∷ (1, 1) ∷ (2, 0) ∷ (3, 1) ∷ [];
  node_capacity = capacity;
  node_allocatable = (1, (resource_cpu, 2) ∷ []) ∷ [];
}

abbrev small_pod : PodResources
small_pod = record {
  name = codes "p";
  namespace = codes "ns";
  containers = record { name = codes "c"; devices = []; memory = []; cpu_ids = 3 ∷ [] } ∷ [];
}

small_pod_devices :
    get_all_container_devices (small_pod ∷ []) args.namespace monitor.core_id_to_node_id_map
    ≡ record { resource_name = resource_cpu; device_ids = codes "3" ∷ []; topology = on_node 1 }
      ∷ []
unfolding get_all_container_devices all_containers normalize_container_devices cpus_per_numa
    cpu_devices memory_devices get get_or put format_int format_uint text_beq
small_pod_devices = refl

abbrev cpu_device : ContainerDevices
cpu_device = record {
  resource_name = resource_cpu;
  device_ids = codes "3" ∷ [];
  topology = on_node 1;
}

cpu_device_amount : device_amount cpu_device ≡ 1
unfolding device_amount is_memory to_int64 text_beq has_prefix
cpu_device_amount = refl

small_tally : (n : Int64) (name : Text) → NonNegative (tally n name (cpu_device ∷ []) 0)
unfolding tally tally_nodes add64
small_tally n name = ground (arith, cpu_device_amount)

small_pod_used :
    (n : Int64) (name : Text)
    → NonNegative (counter (allocated_of args monitor (small_pod ∷ [])) n name)
small_pod_used n name = rw small_pod_devices (rw counters-tally (small_tally n name))

small_known : (n : Int64) (name : Text) → KnownFits (get (get_or capacity n []) name)
unfolding get get_or
small_known n name = ground arith

small_alloc : (n : Int64) → All (λ e. NonNegative e.1) (allocatable_of monitor.node_allocatable n)
unfolding get
small_alloc n = ground arith

small_pod-IsCounted : IsCounted monitor (allocated_of args monitor (small_pod ∷ []))
small_pod-IsCounted = record { used = small_pod_used; known = small_known; alloc = small_alloc }

scan_pods-IsSound_example :
    AllFrom
      (IsSound monitor exclude (allocated_of args monitor (small_pod ∷ [])))
      0
      (scan_pods pfp args monitor exclude (small_pod ∷ [])).zones
    × (length (scan_pods pfp args monitor exclude (small_pod ∷ [])).zones ≡ 2)
scan_pods-IsSound_example =
    scan_pods-IsSound pfp args monitor exclude (small_pod ∷ []) small_pod-IsCounted
