-- ===== src/Monitor/Counters.antt =====
-- ContainerDevicesToPerNUMAResourceCounters of pkg/resourcemonitor.
pub mod Tally
use resource_topology_export.Base.{
  ℕ, ◌≡◌, refl, Bool, true, false, ◌&&◌, ◌||◌, Option, none, some, List, [], ◌∷◌, ◌++◌, arith, Text,
  nat_eq, text_eq, text_beq, length, if◌then◌else◌,
}
use resource_topology_export.Base.Int.{Int64, add64, to_int64}
use resource_topology_export.Base.Dict.{Dict, get, put, get_or}
use resource_topology_export.Base.Strings.{has_prefix, parse_int}
use resource_topology_export.Podres.{ContainerDevices}
use resource_topology_export.Monitor.Normalize.{resource_memory, hugepages_prefix, topology_nodes}

abbrev pub ResourceCounter : Type 0
ResourceCounter = Dict Text Int64

abbrev pub PerNumaResourceCounter : Type 0
PerNumaResourceCounter = Dict Int64 ResourceCounter

-- The resources that are counted in bytes.
unfoldable pub is_memory : Text → Bool
is_memory name = text_beq name resource_memory || has_prefix name hugepages_prefix

-- The loop over the sizes; the error of strconv.ParseInt is ignored.
unfoldable pub sum_sizes : Int64 → List Text → Int64
sum_sizes acc [] = acc
sum_sizes acc (id ∷ ids) = sum_sizes (add64 acc (parse_int id).value) ids

-- What a device adds to the counter of its resource.
unfoldable pub device_amount : ContainerDevices → Int64
device_amount device =
    if is_memory device.resource_name
    then sum_sizes 0 device.device_ids
    else to_int64 (length device.device_ids)

-- The inner loop, over the nodes of a device.
unfoldable pub count_nodes :
    Text → Int64 → List Int64 → PerNumaResourceCounter → PerNumaResourceCounter
count_nodes name amount [] rc = rc
count_nodes name amount (node ∷ nodes) rc =
    let node_res = get_or rc node [] in
    count_nodes name amount nodes
      (put rc node (put node_res name (add64 (get_or node_res name 0) amount)))

unfoldable pub count_devices :
    List ContainerDevices → PerNumaResourceCounter → PerNumaResourceCounter
count_devices [] rc = rc
count_devices (device ∷ devices) rc =
    count_devices devices
      (count_nodes device.resource_name (device_amount device) (topology_nodes device.topology) rc)

-- ContainerDevicesToPerNUMAResourceCounters
unfoldable pub container_devices_to_per_numa_resource_counters :
    List ContainerDevices → PerNumaResourceCounter
container_devices_to_per_numa_resource_counters devices = count_devices devices []

-- rc[node][name], with the zero values of missing keys
unfoldable pub counter : PerNumaResourceCounter → Int64 → Text → Int64
counter rc node name = get_or (get_or rc node []) name 0
