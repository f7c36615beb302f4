-- ===== src/Examples/Sysfs.antt =====
-- The files of sysfs, at concrete inputs.
use resource_topology_export.Base.{
  ℕ, ◌≡◌, refl, true, false, none, some, arith, List, [], ◌∷◌, ◌++◌, Text, ok, text_beq,
  if◌then◌else◌,
}
use resource_topology_export.Base.Int.{Int64}
use resource_topology_export.Base.Strings.{
  codes, contains, format_uint, split, trim, parse_int, has_prefix, is_space, format_int,
}
use resource_topology_export.Sysinfo.{SysFs, is_node_dir}
use resource_topology_export.Sysinfo.Memory.{get_memory, is_cut, read_total_memory_from_meminfo}
use resource_topology_export.Sysinfo.Pages.{get_hugepages, scan_size}
use resource_topology_export.Sysinfo.Counters.{get_memory_resource_counters}
use resource_topology_export.Sysinfo.Meminfo.{
  value_of, lines_before, total_line, read_total_memory_from_meminfo-total_line,
  scan_size-format_uint,
}
use resource_topology_export.Sysinfo.Filed.Counted.{
  IsCounted, get_memory_resource_counters-IsCounted,
}

abbrev meminfo : Text
meminfo =
    lines_before (codes "Node 0 MemFree: 3 kB" ∷ [])
      (total_line (codes "Node 0 ") (codes "  ") 2048 ++ b'\n' ∷ codes "Node 0 MemUsed: 1 kB")

abbrev joined : List Text → Text
joined [] = []
joined (part ∷ parts) = part ++ b'/' ∷ joined parts

-- One node with two huge pages of 2 MiB, and a file that is no node.
abbrev sysfs : SysFs ℕ
sysfs = record {
  read_dir = λ path.
      if text_beq path (codes "root//sys/devices/system/node/")
      then ok (
          record { name = codes "node0"; is_dir = true }
          ∷ record { name = codes "online"; is_dir = false }
          ∷ [])
      else ok (record { name = codes "hugepages-2048kB"; is_dir = true } ∷ []);
  read_file = λ path. if contains path (codes "meminfo") then ok meminfo else ok (codes "2\n");
  eval_symlinks = λ path. ok path;
  join = joined;
}

abbrev quantity : Int64 → Text
quantity n = codes "2Mi"

read_total_memory_from_meminfo-total_line_example :
    read_total_memory_from_meminfo sysfs (codes "meminfo") ≡ record { resp = 2097152; err = none }
unfolding has_prefix
read_total_memory_from_meminfo-total_line_example =
    read_total_memory_from_meminfo-total_line sysfs (codes "meminfo")
      (codes "Node 0 MemFree: 3 kB" ∷ []) (codes "Node 0 ") (codes "  ") 2048
      (codes "Node 0 MemUsed: 1 kB") (unfold contains in refl)
      ((ground arith, unfold contains in refl), tt) (ground arith, ground arith) (refl, (refl, tt))
      (omega arith)

scan_size-format_uint_example :
    scan_size (codes "hugepages-" ++ (format_uint 2048 ++ codes "kB")) ≡ some 2048
scan_size-format_uint_example = scan_size-format_uint 2048 (omega arith)

get_memory_resource_counters-IsCounted_example :
    IsCounted quantity sysfs
      (codes "root")
      (get_memory_resource_counters quantity sysfs (codes "root")).resp
unfolding get_memory_resource_counters get_hugepages get_memory contains split trim scan_size
    is_node_dir text_beq parse_int has_prefix is_space format_int value_of is_cut
get_memory_resource_counters-IsCounted_example =
    get_memory_resource_counters-IsCounted quantity sysfs (codes "root") refl
