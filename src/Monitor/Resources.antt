-- ===== src/Monitor/Resources.antt =====
-- The node resources that the monitor of pkg/resourcemonitor keeps: capacity and allocatable.
pub mod Panics
use resource_topology_export.Base.{
  ℕ, zero, suc, ◌+◌, ◌≡◌, Bool, true, false, ◌||◌, Option, none, some, List, [], ◌∷◌, Text, nat_eq,
  text_eq, text_beq, if◌then◌else◌,
}
use resource_topology_export.Base.Int.{Int64}
use resource_topology_export.Base.Dict.{Dict, get, put, get_or}
use resource_topology_export.Base.Strings.{has_prefix}
use resource_topology_export.Podres.{AllocatableResources}
use resource_topology_export.Middleware.{Reply}
use resource_topology_export.Monitor.Topology.{Node, cpu_capacity, make_core_id_to_node_id_map}
use resource_topology_export.Monitor.Normalize.{
  resource_cpu, resource_memory, hugepages_prefix, normalize_container_devices,
}
use resource_topology_export.Monitor.Counters.{
  ResourceCounter, PerNumaResourceCounter, container_devices_to_per_numa_resource_counters,
}

-- isNativeResource
unfoldable pub is_native_resource : Text → Bool
is_native_resource name =
    text_beq name resource_cpu
    || (text_beq name resource_memory || has_prefix name hugepages_prefix)

-- The names of the huge pages of 2 MiB and of 1 GiB, which resource.Quantity prints.
pub record HugepageNames : Type 0 where
  pub hp_2mi : Text
  pub hp_1gi : Text

-- sysinfo.GetMemoryResourceCounters: by resource, by NUMA node.
abbrev pub MemoryCounters : Type 0
MemoryCounters = Dict Text (Dict Int64 Int64)

-- The part of resourceMonitor that changes, and the topology.
pub record ResourceMonitor : Type 0 where
  pub node_name : Text
  pub topo : List Node
  pub core_id_to_node_id_map : Dict Int64 Int64
  pub node_capacity : PerNumaResourceCounter
  pub node_allocatable : PerNumaResourceCounter

-- How a call ends.
pub data Outcome (E : Type 0) : Type 0 where
  done : Outcome E
  capacity_failed : E → Outcome E
  allocatable_failed : E → Outcome E
  panicked : Outcome E

module _ (hp : HugepageNames) where
  -- The counter of one node in updateNodeCapacity.
  unfoldable pub capacity_of : MemoryCounters → Int64 → Int64 → ResourceCounter
  capacity_of mem id cpus =
      put
        (put
          (put (put [] resource_cpu cpus) resource_memory
            (get_or (get_or mem resource_memory []) id 0))
          hp.hp_2mi (get_or (get_or mem hp.hp_2mi []) id 0))
        hp.hp_1gi (get_or (get_or mem hp.hp_1gi []) id 0)

  -- The loop of updateNodeCapacity over the indices of the nodes; none is the panic of cpuCapacity.
  unfoldable pub capacity_from :
      List Node
      → MemoryCounters
      → ℕ
      → List Node
      → PerNumaResourceCounter
      → Option PerNumaResourceCounter
  capacity_from topo mem i [] rc = some rc
  capacity_from topo mem i (node ∷ nodes) rc = elim (cpu_capacity topo i) [
    | none ↦ none
    | some cpus ↦ capacity_from topo mem (i + 1) nodes (put rc i (capacity_of mem i cpus))
  ]

  -- updateNodeCapacity, up to the assignment
  unfoldable pub new_capacity : List Node → MemoryCounters → Option PerNumaResourceCounter
  new_capacity topo mem = capacity_from topo mem 0 topo []

  -- updateNodeAllocatable, up to the assignment
  unfoldable pub new_allocatable : Dict Int64 Int64 → AllocatableResources → PerNumaResourceCounter
  new_allocatable core_map res =
      container_devices_to_per_numa_resource_counters
        (normalize_container_devices res.devices res.memory res.cpu_ids core_map)

-- The inner loop of updateDevicesCapacity. The counter of the node is shared with the map, so the
-- write goes to the map; with no counter, the write is to a nil map: the panic, none.
unfoldable pub copy_counter :
    Int64 → ResourceCounter → PerNumaResourceCounter → Option PerNumaResourceCounter
copy_counter numa [] capacity = some capacity
copy_counter numa ((name, quan) ∷ rest) capacity = elim (is_native_resource name) [
  | true ↦ copy_counter numa rest capacity
  | false ↦ elim (get capacity numa) [
    | none ↦ none
    | some counter ↦ copy_counter numa rest (put capacity numa (put counter name quan))
  ]
]

-- updateDevicesCapacity
unfoldable pub update_devices_capacity :
    PerNumaResourceCounter → PerNumaResourceCounter → Option PerNumaResourceCounter
update_devices_capacity [] capacity = some capacity
update_devices_capacity ((numa, counter) ∷ rest) capacity =
    elim (copy_counter numa counter capacity) [
      | none ↦ none
      | some capacity' ↦ update_devices_capacity rest capacity'
    ]

module _ {E : Type 0} (hp : HugepageNames) where
  devices_step : ResourceMonitor → Outcome E × ResourceMonitor
  devices_step rm = elim (update_devices_capacity rm.node_allocatable rm.node_capacity) [
    | none ↦ (panicked, rm)
    | some capacity ↦ (done, record rm { node_capacity = capacity })
  ]

  allocatable_step : Reply E AllocatableResources → ResourceMonitor → Outcome E × ResourceMonitor
  unfolding devices_step
  allocatable_step reply rm = elim reply.err [
    | some e ↦ (allocatable_failed e, rm)
    | none ↦
        devices_step
          (record rm { node_allocatable = new_allocatable hp rm.core_id_to_node_id_map reply.resp })
  ]

  -- updateNodeResources, over what sysfs and the kubelet answer
  unfoldable pub update_node_resources :
      Reply E MemoryCounters
      → Reply E AllocatableResources
      → ResourceMonitor
      → Outcome E × ResourceMonitor
  unfolding allocatable_step
  update_node_resources mem reply rm = elim mem.err [
    | some e ↦ (capacity_failed e, rm)
    | none ↦ elim (new_capacity hp rm.topo mem.resp) [
      | none ↦ (panicked, rm)
      | some capacity ↦ allocatable_step reply (record rm { node_capacity = capacity })
    ]
  ]

-- What reflect.DeepEqual says of the old and the new status of a node.
pub record NodeUpdate : Type 0 where
  pub new_name : Text
  pub same_capacity : Bool
  pub same_allocatable : Bool

module _ {E : Type 0} (hp : HugepageNames) where
  -- resUpdated, the handler of the node informer; an error is logged. none: nothing was called.
  pub res_updated :
      NodeUpdate
      → Reply E MemoryCounters
      → Reply E AllocatableResources
      → ResourceMonitor
      → Option (Outcome E) × ResourceMonitor
  res_updated upd mem reply rm =
      let (out, rm') = update_node_resources hp mem reply rm in
      if text_beq upd.new_name rm.node_name
      then elim upd.same_capacity [
        | false ↦ (some out, rm')
        | true ↦ elim upd.same_allocatable [ false ↦ (some out, rm') | true ↦ (none, rm) ]
      ]
      else (none, rm)
