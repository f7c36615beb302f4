-- ===== src/Sysinfo/Memory.antt =====
-- memory.go of pkg/sysinfo: the memory of the NUMA nodes, from their meminfo files.
use resource_topology_export.Base.{
  ℕ, Bool, true, false, ◌||◌, none, some, List, [], ◌∷◌, Text, ok, failed, nat_eq, nat_beq,
  if◌then◌else◌,
}
use resource_topology_export.Base.Int.{Int64, minus_one, mul64}
use resource_topology_export.Base.Dict.{Dict, put}
use resource_topology_export.Base.Strings.{Parsed, codes, contains, split, trim, parse_int}
use resource_topology_export.Middleware.{Reply}
use resource_topology_export.Sysinfo.{
  Entry, SysFs, SysError, os_error, no_node_id, no_memory_on, unexpected_format, unconverted,
  no_mem_total, sys_devices_nodes, sys_devices_nodes_node_nth, is_node_dir, after_node,
}

abbrev pub mem_total : Text
mem_total = codes "MemTotal"

-- The cutset "\t\n kB".
unfoldable pub is_cut : ℕ → Bool
is_cut c = nat_beq c 9 || (nat_beq c 10 || (nat_beq c b' ' || (nat_beq c b'k' || nat_beq c b'B')))

module _ {E : Type 0} where
  unfoldable pub converted : Text → Parsed → Reply (SysError E) Int64
  converted value parsed = elim parsed.error [
    | some e ↦ record { resp = minus_one; err = some (unconverted value) }
    | none ↦ record { resp = mul64 1024 parsed.value; err = none }
  ]

  unfoldable pub total_of_parts : Text → List Text → Reply (SysError E) Int64
  unfolding converted
  total_of_parts line (label ∷ value ∷ []) =
      converted (trim is_cut value) (parse_int (trim is_cut value))
  total_of_parts line _ = record { resp = minus_one; err = some (unexpected_format line) }

  -- The loop of readTotalMemoryFromMeminfo over the lines.
  unfoldable pub total_in : Text → List Text → Reply (SysError E) Int64
  unfolding total_of_parts
  total_in path [] = record { resp = minus_one; err = some (no_mem_total path) }
  total_in path (line ∷ lines) =
      let rest = total_in path lines in
      if contains line mem_total then total_of_parts line (split b':' line) else rest

module _ {E : Type 0} (fs : SysFs E) where
  -- readTotalMemoryFromMeminfo
  unfoldable pub read_total_memory_from_meminfo : Text → Reply (SysError E) Int64
  unfolding total_in
  read_total_memory_from_meminfo path = elim (fs.read_file path) [
    | failed e ↦ record { resp = minus_one; err = some (os_error e) }
    | ok data' ↦ total_in path (split b'\n' data')
  ]

  -- MemoryForNode
  unfoldable pub memory_for_node : Text → Int64 → Reply (SysError E) Int64
  unfolding read_total_memory_from_meminfo
  memory_for_node root id =
      let read =
        read_total_memory_from_meminfo
          (fs.join (sys_devices_nodes_node_nth fs root id ∷ codes "meminfo" ∷ [])) in
      elim read.err [
        | some e ↦ record { resp = minus_one; err = some e }
        | none ↦ record { resp = read.resp; err = none }
      ]

  -- The loop of GetMemory over the entries, from the map that it has.
  unfoldable pub memory_of_entries :
      Text → List Entry → Dict Int64 Int64 → Reply (SysError E) (Dict Int64 Int64)
  unfolding memory_for_node
  memory_of_entries root [] memory = record { resp = memory; err = none }
  memory_of_entries root (entry ∷ entries) memory = elim (is_node_dir entry) [
    | false ↦ memory_of_entries root entries memory
    | true ↦
        let id = parse_int (after_node entry.name) in
        let read = memory_for_node root id.value in
        elim id.error [
          | some e ↦ record { resp = memory; err = some (no_node_id entry.name) }
          | none ↦ elim read.err [
            | some e ↦ record { resp = memory; err = some (no_memory_on id.value e) }
            | none ↦ memory_of_entries root entries (put memory id.value read.resp)
          ]
        ]
  ]

  -- GetMemory
  unfoldable pub get_memory : Text → Reply (SysError E) (Dict Int64 Int64)
  unfolding memory_of_entries
  get_memory root = elim (fs.read_dir (sys_devices_nodes fs root)) [
    | failed e ↦ record { resp = []; err = some (os_error e) }
    | ok entries ↦ memory_of_entries root entries []
  ]
