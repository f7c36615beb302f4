-- ===== src/Sysinfo/Counters.antt =====
-- GetMemoryResourceCounters of pkg/sysinfo: the counters of memory and huge pages by resource and by
-- NUMA node.
use resource_topology_export.Base.{none, some, List, [], ◌∷◌, ◌++◌, Text, nat_eq, text_eq}
use resource_topology_export.Base.Int.{Int64, mul64}
use resource_topology_export.Base.Dict.{Dict, get_or, put, put_all}
use resource_topology_export.Base.Strings.{codes}
use resource_topology_export.Middleware.{Reply}
use resource_topology_export.Monitor.Normalize.{resource_memory}
use resource_topology_export.Monitor.Resources.{MemoryCounters}
use resource_topology_export.Sysinfo.{SysFs, SysError, Hugepages}
use resource_topology_export.Sysinfo.Memory.{get_memory}
use resource_topology_export.Sysinfo.Pages.{get_hugepages}

-- `quantity_text` is the text of a resource.Quantity in the format BinarySI.
module _ (quantity_text : Int64 → Text) where
  -- HugepageResourceNameFromSize
  unfoldable pub hugepage_resource_name_from_size : Int64 → Text
  hugepage_resource_name_from_size size = codes "hugepages-" ++ quantity_text (mul64 size 1024)

  abbrev bytes_of : Hugepages → Int64
  bytes_of hp = mul64 (mul64 hp.total hp.size_kb) 1024

  -- The loop of GetMemoryResourceCounters over the huge pages.
  unfoldable pub add_hugepages : List Hugepages → MemoryCounters → MemoryCounters
  add_hugepages [] counters = counters
  add_hugepages (hp ∷ hps) counters =
      let name = hugepage_resource_name_from_size hp.size_kb in
      add_hugepages hps (put counters name (put (get_or counters name []) hp.node_id (bytes_of hp)))

  abbrev pub no_counters : MemoryCounters
  no_counters = (resource_memory, []) ∷ []

  module _ {E : Type 0} (fs : SysFs E) where
    add_memory :
        MemoryCounters → Reply (SysError E) (Dict Int64 Int64) → Reply (SysError E) MemoryCounters
    add_memory counters memory = elim memory.err [
      | some e ↦ record { resp = counters; err = some e }
      | none ↦ record {
        resp =
            put counters resource_memory (put_all (get_or counters resource_memory []) memory.resp);
        err = none;
      }
    ]

    -- GetMemoryResourceCounters
    unfoldable pub get_memory_resource_counters : Text → Reply (SysError E) MemoryCounters
    unfolding add_hugepages add_memory
    get_memory_resource_counters root =
        let hugepages = get_hugepages fs root in
        elim hugepages.err [
          | some e ↦ record { resp = no_counters; err = some e }
          | none ↦ add_memory (add_hugepages hugepages.resp no_counters) (get_memory fs root)
        ]
