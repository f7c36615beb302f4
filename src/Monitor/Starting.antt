-- ===== src/Monitor/Starting.antt =====
-- NewResourceMonitor of pkg/resourcemonitor, and its options.
use resource_topology_export.Base.{
  Bool, true, false, Option, none, some, List, [], ◌∷◌, Text, Result, ok, failed,
}
use resource_topology_export.Podres.{AllocatableResources}
use resource_topology_export.Middleware.{Reply}
use resource_topology_export.Monitor.Topology.{Node, make_core_id_to_node_id_map}
use resource_topology_export.Monitor.Resources.{
  HugepageNames, MemoryCounters, ResourceMonitor, Outcome, done, update_node_resources,
}

-- The monitor before it is ready: the name, and the topology, which may be nil.
pub record Draft : Type 0 where
  pub node_name : Text
  pub topo : Option (List Node)

-- WithTopology and WithNodeName
unfoldable pub with_topology : List Node → Draft → Draft
with_topology topo draft = record draft { topo = some topo }

unfoldable pub with_node_name : Text → Draft → Draft
with_node_name name draft = record draft { node_name = name }

unfoldable pub apply_options : List (Draft → Draft) → Draft → Draft
apply_options [] draft = draft
apply_options (opt ∷ options) draft = apply_options options (opt draft)

pub data Started (E : Type 0) : Type 0 where
  ready : ResourceMonitor → Started E
  no_topology : E → Started E
  no_resources : Outcome E → Started E
  no_informer : E → Started E

-- What the monitor is made from: os.Getenv("NODE_NAME"), ghw's topology under a root of sysfs, the
-- answers of sysfs and of the kubelet, and whether the informer of the nodes syncs.
pub record Inputs (E : Type 0) : Type 0 where
  pub env_node_name : Text
  pub read_topology : Text → Result E (List Node)
  pub memory : Reply E MemoryCounters
  pub allocatable : Reply E AllocatableResources
  pub informer_error : Option E

module _ {E : Type 0} (hp : HugepageNames) (inputs : Inputs E) where
  abbrev name_or_env : Text → Text
  name_or_env [] = inputs.env_node_name
  name_or_env (c ∷ name) = c ∷ name

  -- The end of NewResourceMonitor: the informer only if the resources are to be refreshed.
  abbrev pub tracked : Bool → Option E → ResourceMonitor → Started E
  tracked false informer rm = ready rm
  tracked true none rm = ready rm
  tracked true (some e) rm = no_informer e

  abbrev pub updated : Bool → Outcome E × ResourceMonitor → Started E
  updated refresh (done, rm) = tracked refresh inputs.informer_error rm
  updated refresh (out, rm) = no_resources out

  unfoldable pub with_topo : Bool → Text → List Node → Started E
  with_topo refresh name topo = updated refresh (
      update_node_resources hp inputs.memory inputs.allocatable (record {
        node_name = name;
        topo = topo;
        core_id_to_node_id_map = make_core_id_to_node_id_map topo;
        node_capacity = [];
        node_allocatable = [];
      }))

  abbrev pub from_topology : Bool → Text → Result E (List Node) → Started E
  from_topology refresh name (failed e) = no_topology e
  from_topology refresh name (ok topo) = with_topo refresh name topo

  abbrev pub topology_of : Text → Option (List Node) → Result E (List Node)
  topology_of sysfs_root none = inputs.read_topology sysfs_root
  topology_of sysfs_root (some topo) = ok topo

  -- NewResourceMonitor
  unfoldable pub new_resource_monitor : Text → Bool → List (Draft → Draft) → Started E
  unfolding apply_options with_topo
  new_resource_monitor sysfs_root refresh options =
      let draft = apply_options options (record { node_name = []; topo = none }) in
      from_topology refresh (name_or_env draft.node_name) (topology_of sysfs_root draft.topo)
