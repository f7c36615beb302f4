-- ===== src/Sysinfo.antt =====
-- pkg/sysinfo: the memory and the huge pages of the NUMA nodes, from the files of sysfs. What the
-- operating system answers is a parameter, with the functions of path/filepath.
pub mod Memory
pub mod Pages
pub mod Counters
pub mod Meminfo
pub mod Filed
use resource_topology_export.Base.{
  ℕ, Bool, true, false, ◌&&◌, ◌++◌, none, some, List, [], ◌∷◌, Text, Result, ok, failed, nat_eq,
  text_eq,
}
use resource_topology_export.Base.Int.{Int64, mul64}
use resource_topology_export.Base.Dict.{Dict, get_or, put, put_all}
use resource_topology_export.Base.Strings.{ParseError, codes, has_prefix, format_int}

-- os.DirEntry
pub record Entry : Type 0 where
  pub name : Text
  pub is_dir : Bool

-- os.ReadDir, os.ReadFile, filepath.EvalSymlinks and filepath.Join
pub record SysFs (E : Type 0) : Type 0 where
  pub read_dir : Text → Result E (List Entry)
  pub read_file : Text → Result E Text
  pub eval_symlinks : Text → Result E Text
  pub join : List Text → Text

-- The errors, by the texts of fmt.Errorf.
pub data SysError (E : Type 0) : Type 0 where
  os_error : E → SysError E
  no_integer : ParseError → SysError E
  no_node_id : Text → SysError E
  no_memory_on : Int64 → SysError E → SysError E
  no_hugepages_on : Int64 → SysError E → SysError E
  unexpected_format : Text → SysError E
  unconverted : Text → SysError E
  no_mem_total : Text → SysError E
  malformed_entry : Text → SysError E
  not_clean : Text → E → SysError E
  not_subpath : Text → Text → SysError E
  unread : Text → SysError E → SysError E

-- Hugepages
pub record Hugepages : Type 0 where
  pub node_id : Int64
  pub size_kb : Int64
  pub total : Int64

abbrev pub sys_devices_node : Text
sys_devices_node = codes "/sys/devices/system/node"

abbrev pub node_prefix : Text
node_prefix = codes "node"

module _ {E : Type 0} (fs : SysFs E) (root : Text) where
  open fs use {join}

  -- Handle.SysDevicesNodes
  abbrev pub sys_devices_nodes : Text
  sys_devices_nodes = join (root ∷ sys_devices_node ∷ [])

  -- Handle.SysDevicesNodesNodeNth
  abbrev pub sys_devices_nodes_node_nth : Int64 → Text
  sys_devices_nodes_node_nth id =
      join (root ∷ sys_devices_node ∷ (node_prefix ++ format_int id) ∷ [])

-- entry.IsDir() && strings.HasPrefix(entryName, "node")
unfoldable pub is_node_dir : Entry → Bool
is_node_dir entry = entry.is_dir && has_prefix entry.name node_prefix

-- entryName[4:] of a name that begins with "node"
abbrev pub after_node : Text → Text
after_node (n ∷ o ∷ d ∷ e ∷ id) = id
after_node _ = []
