-- ===== src/Monitor/Normalize.antt =====
-- NormalizeContainerDevices and GetAllContainerDevices of pkg/resourcemonitor: CPUs and memory
-- blocks turned into devices on a NUMA node.
use resource_topology_export.Base.{
  ℕ, Bool, true, false, ◌&&◌, not, Option, none, some, List, [], ◌∷◌, ◌++◌, Text, nat_eq, nat_beq,
  text_beq, if◌then◌else◌,
}
use resource_topology_export.Base.Int.{Int64}
use resource_topology_export.Base.Dict.{Dict, get, put, get_or}
use resource_topology_export.Base.Strings.{codes, format_int, format_uint}
use resource_topology_export.Podres.{
  TopologyInfo, ContainerMemory, ContainerDevices, ContainerResources, PodResources,
}

-- v1.ResourceCPU, v1.ResourceMemory, v1.ResourceHugePagesPrefix
abbrev pub resource_cpu : Text
resource_cpu = codes "cpu"

abbrev pub resource_memory : Text
resource_memory = codes "memory"

abbrev pub hugepages_prefix : Text
hugepages_prefix = codes "hugepages-"

-- GetTopology().GetNodes(), where nil topologies have no nodes
abbrev pub topology_nodes : Option TopologyInfo → List Int64
topology_nodes none = []
topology_nodes (some topo) = topo.nodes

abbrev pub on_node : Int64 → Option TopologyInfo
on_node id = some (record { nodes = id ∷ [] })

-- The loop over the CPU IDs; a CPU that the map does not know is skipped.
unfoldable pub cpus_per_numa :
    Dict Int64 Int64 → List Int64 → Dict Int64 (List Text) → Dict Int64 (List Text)
cpus_per_numa core_map [] acc = acc
cpus_per_numa core_map (cpu ∷ cpus) acc = cpus_per_numa core_map cpus (elim (get core_map cpu) [
  | none ↦ acc
  | some node ↦ put acc node (get_or acc node [] ++ format_int cpu ∷ [])
])

-- The loop over the CPUs per NUMA node.
unfoldable pub cpu_devices : Dict Int64 (List Text) → List ContainerDevices
cpu_devices [] = []
cpu_devices ((node, cpu_list) ∷ rest) =
    record { resource_name = resource_cpu; device_ids = cpu_list; topology = on_node node }
    ∷ cpu_devices rest

unfoldable pub block_devices : Text → ℕ → List Int64 → List ContainerDevices
block_devices memory_type size [] = []
block_devices memory_type size (node ∷ nodes) =
    record {
      resource_name = memory_type;
      device_ids = format_uint size ∷ [];
      topology = on_node node;
    }
    ∷ block_devices memory_type size nodes

-- The loop over the memory blocks; an empty block is skipped.
unfoldable pub memory_devices : List ContainerMemory → List ContainerDevices
memory_devices [] = []
memory_devices (block ∷ blocks) =
    let rest = memory_devices blocks in
    if nat_beq block.size 0
    then rest
    else block_devices block.memory_type block.size (topology_nodes block.topology) ++ rest

-- NormalizeContainerDevices
unfoldable pub normalize_container_devices :
    List ContainerDevices
    → List ContainerMemory
    → List Int64
    → Dict Int64 Int64
    → List ContainerDevices
normalize_container_devices devices memory_blocks cpu_ids core_map =
    devices ++ (cpu_devices (cpus_per_numa core_map cpu_ids []) ++ memory_devices memory_blocks)

unfoldable pub all_containers : List ContainerResources → Dict Int64 Int64 → List ContainerDevices
all_containers [] core_map = []
all_containers (cnt ∷ cnts) core_map =
    normalize_container_devices cnt.devices cnt.memory cnt.cpu_ids core_map
    ++ all_containers cnts core_map

abbrev pub is_blank : Text → Bool
is_blank [] = true
is_blank (c ∷ s) = false

-- GetAllContainerDevices: an empty namespace stands for all.
unfoldable pub get_all_container_devices :
    List PodResources → Text → Dict Int64 Int64 → List ContainerDevices
get_all_container_devices [] namespace core_map = []
get_all_container_devices (pr ∷ prs) namespace core_map =
    let rest = get_all_container_devices prs namespace core_map in
    if not (is_blank namespace) && not (text_beq namespace pr.namespace)
    then rest
    else all_containers pr.containers core_map ++ rest
