-- ===== src/Updater/Object.antt =====
-- The NodeResourceTopology object, and what pkg/nrtupdater puts into it.
use resource_topology_export.Base.{
  Bool, none, some, List, [], ◌∷◌, ◌++◌, Text, text_eq, if◌then◌else◌,
}
use resource_topology_export.Base.Dict.{Dict, get, put, put_all}
use resource_topology_export.Base.Strings.{codes}
use resource_topology_export.Monitor.Scan.{Zone, AttributeInfo}

pub record OwnerReference : Type 0 where
  pub api_version : Text
  pub kind : Text
  pub name : Text
  pub uid : Text

-- NodeResourceTopology. `metadata` is what else the object carries; the code hands it on.
pub record Nrt : Type 0 where
  pub name : Text
  pub annotations : Dict Text Text
  pub owner_references : List OwnerReference
  pub zones : List Zone
  pub attributes : List AttributeInfo
  pub metadata : Text

pub record TmConfig : Type 0 where
  pub policy : Text
  pub scope : Text

pub record MonitorInfo : Type 0 where
  pub timer : Bool
  pub zones : List Zone
  pub attributes : List AttributeInfo
  pub annotations : Dict Text Text

-- MonitorInfo.UpdateReason
abbrev pub update_reason : MonitorInfo → Text
update_reason info = if info.timer then codes "periodic" else codes "reactive"

-- k8sannotations.RTEUpdate
abbrev pub rte_update : Text
rte_update = codes "k8stopoawareschedwg/rte-update"

-- k8sannotations.Merge of two maps
unfoldable pub merge : Dict Text Text → Dict Text Text → Dict Text Text
merge a b = put_all (put_all [] a) b

-- makeAttributes
abbrev pub make_attributes : TmConfig → List AttributeInfo
make_attributes tm =
    record { name = codes "topologyManagerScope"; value = tm.scope }
    ∷ record { name = codes "topologyManagerPolicy"; value = tm.policy }
    ∷ []

-- updateNRTInfo
unfoldable pub update_nrt_info : TmConfig → Nrt → MonitorInfo → Nrt
update_nrt_info tm nrt info = record nrt {
  annotations = put (merge nrt.annotations info.annotations) rte_update (update_reason info);
  zones = info.zones;
  attributes = info.attributes ++ make_attributes tm;
}

pub record NodeInfo : Type 0 where
  pub name : Text
  pub uid : Text

-- DisabledNodeGetter, or CachedNodeGetter with its map
pub data NodeGetter : Type 0 where
  disabled : NodeGetter
  cached : Dict Text NodeInfo → NodeGetter

unfoldable pub cache_nodes : Dict Text NodeInfo → List NodeInfo → Dict Text NodeInfo
cache_nodes d [] = d
cache_nodes d (node ∷ nodes) = cache_nodes (put d node.name node) nodes

-- NewCachedNodeGetter, from the nodes that the API server lists
unfoldable pub new_cached_node_getter : List NodeInfo → NodeGetter
new_cached_node_getter nodes = cached (cache_nodes [] nodes)

pub data NodeReply : Type 0 where
  found : NodeInfo → NodeReply
  not_configured : NodeReply
  not_found : Text → NodeReply

-- The Get methods
unfoldable pub get_node : NodeGetter → Text → NodeReply
get_node disabled name = not_configured
get_node (cached nodes) name = elim (get nodes name) [
  | none ↦ not_found name
  | some node ↦ found node
]

abbrev owned_by : Nrt → NodeReply → Nrt
owned_by nrt (found node) = record nrt {
  owner_references =
      record { api_version = codes "v1"; kind = codes "Node"; name = node.name; uid = node.uid }
      ∷ [];
}
owned_by nrt _ = nrt

-- updateOwnerReferences
unfoldable pub update_owner_references : NodeGetter → Nrt → Nrt
update_owner_references getter nrt = owned_by nrt (get_node getter nrt.name)

-- The object that sendObjectUpdate starts from where there is none.
unfoldable pub new_nrt : Text → Nrt
new_nrt hostname = record {
  name = hostname;
  annotations = [];
  owner_references = [];
  zones = [];
  attributes = [];
  metadata = [];
}
