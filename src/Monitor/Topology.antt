-- ===== src/Monitor/Topology.antt =====
-- The machine topology (github.com/jaypipes/ghw/pkg/topology) as resourcemonitor.go reads it.
use resource_topology_export.Base.{
  ℕ, ◌+◌, ◌≡◌, refl, ◌∙◌, ◌⊎◌, inl, inr, Option, none, some, List, [], ◌∷◌, ◌++◌, arith, Text, Any,
  length, find, nat_eq, nat_beq, nat_beq_iff, Bool-cases,
}
use resource_topology_export.Base.Int.{Int64, to_int64}
use resource_topology_export.Base.Dict.{Dict, get, put, get-put}
use resource_topology_export.Base.Strings.{codes, format_int}

pub record Core : Type 0 where
  pub logical_processors : List Int64

pub record Node : Type 0 where
  pub id : Int64
  pub cores : List Core
  pub distances : List Int64

unfoldable pub map_processors : Int64 → List Int64 → Dict Int64 Int64 → Dict Int64 Int64
map_processors id [] m = m
map_processors id (p ∷ ps) m = map_processors id ps (put m p id)

unfoldable pub map_cores : Int64 → List Core → Dict Int64 Int64 → Dict Int64 Int64
map_cores id [] m = m
map_cores id (core ∷ cores) m = map_cores id cores (map_processors id core.logical_processors m)

unfoldable pub map_nodes : List Node → Dict Int64 Int64 → Dict Int64 Int64
map_nodes [] m = m
map_nodes (node ∷ nodes) m = map_nodes nodes (map_cores node.id node.cores m)

-- MakeCoreIDToNodeIDMap: three nested loops that write to one map.
unfoldable pub make_core_id_to_node_id_map : List Node → Dict Int64 Int64
make_core_id_to_node_id_map nodes = map_nodes nodes []

-- findNodeByID
unfoldable pub find_node_by_id : List Node → Int64 → Option Node
find_node_by_id nodes id = find (λ node. nat_beq node.id id) nodes

-- makeZoneName
unfoldable pub make_zone_name : Int64 → Text
make_zone_name id = codes "node-" ++ format_int id

pub record CostInfo : Type 0 where
  pub name : Text
  pub value : Int64

-- The loop of makeCostsPerNumaNode, from the index of the next distance.
unfoldable pub costs_from : ℕ → List Int64 → List CostInfo
costs_from i [] = []
costs_from i (dist ∷ dists) =
    record { name = make_zone_name i; value = dist } ∷ costs_from (i + 1) dists

-- makeCostsPerNumaNode: none is the error on an unknown node.
unfoldable pub make_costs_per_numa_node : List Node → Int64 → Option (List CostInfo)
unfolding costs_from
make_costs_per_numa_node nodes src = elim (find_node_by_id nodes src) [
  | none ↦ none
  | some node ↦ some (costs_from 0 node.distances)
]

unfoldable pub count_processors : List Core → ℕ
count_processors [] = 0
count_processors (core ∷ cores) = length core.logical_processors + count_processors cores

-- cpuCapacity: none is the panic on the nil node.
unfoldable pub cpu_capacity : List Node → Int64 → Option Int64
unfolding count_processors
cpu_capacity nodes id = elim (find_node_by_id nodes id) [
  | none ↦ none
  | some node ↦ some (to_int64 (count_processors node.cores))
]

-- The processor is listed under a core of the node.
abbrev pub Owns : Int64 → Node → Type 0
Owns p node = Any (λ core. Any (λ q. q ≡ p) core.logical_processors) node.cores

-- What a lookup finds, against the nodes that the loops have seen and what was there before.
abbrev Finds : Int64 → Type 0 → Option Int64 → Option Int64 → Type 0
Finds n Listed before after = ((after ≡ some n) × Listed) ⊎ ((after ≡ before) × ¬ Listed)

map_processors-Finds :
    (n : Int64) (ps : List Int64) (m : Dict Int64 Int64) (p : Int64)
    → Finds n (Any (λ q. q ≡ p) ps) (get m p) (get (map_processors n ps m) p)
unfolding map_processors
map_processors-Finds n [] m p = inr (refl, λ h. h)
map_processors-Finds n (q ∷ ps) m p = elim (map_processors-Finds n ps (put m q n) p) [
  | inl (e, h) ↦ inl (e, inr h)
  | inr (e, h) ↦ elim (Bool-cases (nat_beq q p)) [
    | inl b ↦ inl (ground (arith, get-put m q p n), inl ((nat_beq_iff q p).0 b))
    | inr b ↦ inr (ground (arith, get-put m q p n), elim [ inl x ↦ ground arith | inr y ↦ h y ])
  ]
]

map_cores-Finds :
    (n : Int64) (cores : List Core) (m : Dict Int64 Int64) (p : Int64)
    → Finds n
        (Any (λ core. Any (λ q. q ≡ p) core.logical_processors) cores)
        (get m p)
        (get (map_cores n cores m) p)
unfolding map_cores
map_cores-Finds n [] m p = inr (refl, λ h. h)
map_cores-Finds n (core ∷ cores) m p =
    elim (map_cores-Finds n cores (map_processors n core.logical_processors m) p) [
      | inl (e, h) ↦ inl (e, inr h)
      | inr (e, h) ↦ elim (map_processors-Finds n core.logical_processors m p) [
        | inl (f, k) ↦ inl (e ∙ f, inl k)
        | inr (f, k) ↦ inr (e ∙ f, elim [ inl x ↦ k x | inr y ↦ h y ])
      ]
    ]

-- What the finished map says of a processor.
pub data Located (nodes : List Node) (p : Int64) (before after : Option Int64) : Type 0 where
  unlisted : (Any (Owns p) nodes → ⊥) → after ≡ before → Located nodes p before after
  listed :
      (n : Int64)
      → after ≡ some n
      → Any (λ node. (node.id ≡ n) × Owns p node) nodes
      → Located nodes p before after

Located-skip :
    (node : Node) (nodes : List Node) (p : Int64) (before after : Option Int64)
    → Finds node.id (Owns p node) before after
    → (last : Option Int64) → Located nodes p after last
    → Located (node ∷ nodes) p before last
Located-skip node nodes p before after f last (listed n e h) = listed n e (inr h)
Located-skip node nodes p before after (inl (f, k)) last (unlisted h e) =
    listed node.id (e ∙ f) (inl (refl, k))
Located-skip node nodes p before after (inr (f, k)) last (unlisted h e) =
    unlisted (elim [ inl x ↦ k x | inr y ↦ h y ]) (e ∙ f)

map_nodes-Located :
    (nodes : List Node) (m : Dict Int64 Int64) (p : Int64)
    → Located nodes p (get m p) (get (map_nodes nodes m) p)
unfolding map_nodes
map_nodes-Located [] m p = unlisted (λ h. h) refl
map_nodes-Located (node ∷ nodes) m p =
    Located-skip node nodes p (get m p) (get (map_cores node.id node.cores m) p)
      (map_cores-Finds node.id node.cores m p) _
      (map_nodes-Located nodes (map_cores node.id node.cores m) p)

-- A processor that no node lists is missing from the map; for any other, the map holds the ID of a
-- node that lists it.
pub make_core_id_to_node_id_map-Located :
    (nodes : List Node) (p : Int64)
    → Located nodes p none (get (make_core_id_to_node_id_map nodes) p)
unfolding make_core_id_to_node_id_map
make_core_id_to_node_id_map-Located nodes p = unfold get in map_nodes-Located nodes [] p
