-- ===== src/Monitor/Scan/Zones.antt =====
-- What the zones of a scan say.
use resource_topology_export.Base.{
  ℕ, suc, ◌+◌, ◌≡◌, refl, ap, List, [], ◌∷◌, map, inl, inr, Text, nat_eq, text_eq, All, length,
  Bool-cases,
}
use resource_topology_export.Base.Int.{Int64, NonNegative}
use resource_topology_export.Base.Dict.{get, get_or}
use resource_topology_export.Podres.{PodResources}
use resource_topology_export.Middleware.{Filtered}
use resource_topology_export.Monitor.Topology.{Node, make_zone_name}
use resource_topology_export.Monitor.Counters.{
  ResourceCounter, PerNumaResourceCounter, container_devices_to_per_numa_resource_counters, counter,
}
use resource_topology_export.Monitor.Normalize.{get_all_container_devices}
use resource_topology_export.Monitor.Resources.{ResourceMonitor}
use resource_topology_export.Monitor.Scan.{
  ResourceExclude, in_exclude_set, Zone, allocatable_of, resource_info, zone_resources, make_zone,
  zones_from, PodFingerprint, ScanArgs, scan_pods,
}
use resource_topology_export.Monitor.Scan.Resources.{
  IsConsistent, KnownFits, IsExcludedName, reported_pair, resource_info-IsConsistent,
  zone_resources-Filtered,
}

-- What a scan says of one zone, when `n` is the index of its NUMA node.
pub record IsSound (rm : ResourceMonitor) (exclude : ResourceExclude)
    (allocated : PerNumaResourceCounter) (n : ℕ) (zone : Zone) : Type 0 where
  pub name : zone.name ≡ make_zone_name n
  pub listed :
      Filtered
        (λ e. IsExcludedName exclude rm.node_name e.0)
        (allocatable_of rm.node_allocatable n)
        (map reported_pair zone.resources)
  pub quantities :
      All
        (λ info. IsConsistent info.allocatable (counter allocated n info.name) info)
        zone.resources

-- The counters that Scan starts from are not negative.
pub record IsCounted (rm : ResourceMonitor) (allocated : PerNumaResourceCounter) : Type 0 where
  pub used : (n : Int64) (name : Text) → NonNegative (counter allocated n name)
  pub known : (n : Int64) (name : Text) → KnownFits (get (get_or rm.node_capacity n []) name)
  pub alloc : (n : Int64) → All (λ e. NonNegative e.1) (allocatable_of rm.node_allocatable n)

-- A statement of each zone, at its index.
abbrev pub AllFrom : (ℕ → Zone → Type 0) → ℕ → List Zone → Type 0
AllFrom P n [] = Unit
AllFrom P n (zone ∷ zones) = P n zone × AllFrom P (n + 1) zones

resource_info_at :
    (capacities used : ResourceCounter) (name : Text) (alloc : Int64)
    → IsConsistent alloc (get_or used name 0) (resource_info capacities used name alloc)
    → IsConsistent
        (resource_info capacities used name alloc).allocatable
        (get_or used (resource_info capacities used name alloc).name 0)
        (resource_info capacities used name alloc)
unfolding resource_info
resource_info_at capacities used name alloc h = h

All-zone_resources :
    (exclude : ResourceExclude) (node_name : Text) (capacities used alloc : ResourceCounter)
    → ((name : Text) → NonNegative (get_or used name 0))
    → ((name : Text) → KnownFits (get capacities name))
    → All (λ e. NonNegative e.1) alloc
    → All
        (λ info. IsConsistent info.allocatable (get_or used info.name 0) info)
        (zone_resources exclude node_name capacities used alloc)
unfolding zone_resources
All-zone_resources exclude node_name capacities used [] u k a = tt
All-zone_resources exclude node_name capacities used ((name, quan) ∷ rest) u k a =
    elim (Bool-cases (in_exclude_set exclude name node_name)) [
      | inl e ↦ rw e (All-zone_resources exclude node_name capacities used rest u k a.1)
      | inr e ↦ rw e (
        resource_info_at capacities used name quan
            (resource_info-IsConsistent capacities used name quan a.0 (u name) (k name)),
        All-zone_resources exclude node_name capacities used rest u k a.1,
      )
    ]

make_zone-IsSound :
    (rm : ResourceMonitor) (exclude : ResourceExclude) (allocated : PerNumaResourceCounter) (n : ℕ)
    → IsCounted rm allocated
    → IsSound rm exclude allocated n (make_zone rm exclude allocated n)
unfolding make_zone counter
make_zone-IsSound rm exclude allocated n c = record {
  name = refl;
  listed =
      zone_resources-Filtered exclude rm.node_name (get_or rm.node_capacity n [])
        (get_or allocated n []) (allocatable_of rm.node_allocatable n);
  quantities =
      All-zone_resources exclude rm.node_name (get_or rm.node_capacity n []) (get_or allocated n [])
        (allocatable_of rm.node_allocatable n) (λ name. unfold counter in c.used n name) (c.known n)
        (c.alloc n);
}

zones_from-IsSound :
    (rm : ResourceMonitor) (exclude : ResourceExclude) (allocated : PerNumaResourceCounter)
    (nodes : List Node) (n : ℕ)
    → IsCounted rm allocated
    → AllFrom (IsSound rm exclude allocated) n (zones_from rm exclude allocated n nodes)
unfolding zones_from
zones_from-IsSound rm exclude allocated [] n c = tt
zones_from-IsSound rm exclude allocated (node ∷ nodes) n c = (
  make_zone-IsSound rm exclude allocated n c,
  zones_from-IsSound rm exclude allocated nodes (n + 1) c,
)

length-zones_from :
    (rm : ResourceMonitor) (exclude : ResourceExclude) (allocated : PerNumaResourceCounter)
    (nodes : List Node) (n : ℕ)
    → length (zones_from rm exclude allocated n nodes) ≡ length nodes
unfolding zones_from
length-zones_from rm exclude allocated [] n = refl
length-zones_from rm exclude allocated (node ∷ nodes) n =
    ap suc (length-zones_from rm exclude allocated nodes (n + 1))

-- The counters of the pods that Scan watches.
abbrev pub allocated_of : ScanArgs → ResourceMonitor → List PodResources → PerNumaResourceCounter
allocated_of args rm prs =
    container_devices_to_per_numa_resource_counters
      (get_all_container_devices prs args.namespace rm.core_id_to_node_id_map)

-- Scan reports one zone for each NUMA node of the topology, named for its index. The zone lists the
-- allocatable resources that are not excluded, with their counts, each with what the watched pods
-- leave of it and a capacity that is not negative and not below it, provided that no counter is
-- negative.
pub scan_pods-IsSound :
    (pfp : PodFingerprint) (args : ScanArgs) (rm : ResourceMonitor) (exclude : ResourceExclude)
    (prs : List PodResources)
    → IsCounted rm (allocated_of args rm prs)
    → AllFrom
        (IsSound rm exclude (allocated_of args rm prs))
        0
        (scan_pods pfp args rm exclude prs).zones
      × (length (scan_pods pfp args rm exclude prs).zones ≡ length rm.topo)
unfolding scan_pods
scan_pods-IsSound pfp args rm exclude prs c = (
  zones_from-IsSound rm exclude (allocated_of args rm prs) rm.topo 0 c,
  length-zones_from rm exclude (allocated_of args rm prs) rm.topo 0,
)
