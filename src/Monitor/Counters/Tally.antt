-- ===== src/Monitor/Counters/Tally.antt =====
-- The counters are sums over the devices, whatever the order of the devices.
use mathlib.Core.Path.{ap₂}
use native.Mathlib.Nat.{ℕ_set}
use mathlib.Core.List.{Perm, Permᴰ}
use mathlib.Core.Logic.{∥∥₁_elim}
use resource_topology_export.Base.{
  ◌≡◌, refl, sym, ap, ◌∙◌, ◌&&◌, List, [], ◌∷◌, ◌++◌, arith, Text, nat_eq, text_eq, nat_beq,
  text_beq, text_beq_iff, if◌then◌else◌,
}
use resource_topology_export.Base.Int.{Int64, add64, add64_swap}
use resource_topology_export.Base.Dict.{get, put, get_or, get_or-put}
use resource_topology_export.Podres.{ContainerDevices}
use resource_topology_export.Monitor.Normalize.{topology_nodes}
use resource_topology_export.Monitor.Counters.{
  PerNumaResourceCounter, device_amount, count_nodes, count_devices,
  container_devices_to_per_numa_resource_counters, counter,
}

-- The amount, added once for each of the nodes that is the given one.
unfoldable pub tally_nodes : Int64 → Int64 → List Int64 → Int64 → Int64
tally_nodes node amount [] acc = acc
tally_nodes node amount (id ∷ ids) acc =
    tally_nodes node amount ids (if nat_beq id node then add64 acc amount else acc)

-- What the devices of one resource add up to on one node.
unfoldable pub tally : Int64 → Text → List ContainerDevices → Int64 → Int64
tally node name [] acc = acc
tally node name (d ∷ ds) acc = tally node name ds (
    if text_beq d.resource_name name
    then tally_nodes node (device_amount d) (topology_nodes d.topology) acc
    else acc)

counter-put :
    (rc : PerNumaResourceCounter) (id node : Int64) (r name : Text) (amount : Int64)
    → counter
        (put rc id (put (get_or rc id []) r (add64 (get_or (get_or rc id []) r 0) amount)))
        node
        name
      ≡ (if nat_beq id node && text_beq r name
          then add64 (counter rc node name) amount
          else counter rc node name)
unfolding counter
counter-put rc id node r name amount = ground (
  arith,
  get_or-put rc id node (put (get_or rc id []) r (add64 (get_or (get_or rc id []) r 0) amount)) [],
  get_or-put (get_or rc id []) r name (add64 (get_or (get_or rc id []) r 0) amount) 0,
  text_beq_iff r name,
)

count_nodes-tally :
    (r name : Text) (amount node : Int64) (ids : List Int64) (rc : PerNumaResourceCounter)
    → counter (count_nodes r amount ids rc) node name ≡ (
        if text_beq r name
        then tally_nodes node amount ids (counter rc node name)
        else counter rc node name)
unfolding count_nodes tally_nodes
count_nodes-tally r name amount node [] rc = ground arith
count_nodes-tally r name amount node (id ∷ ids) rc =
    count_nodes-tally r name amount node ids _
    ∙ rw (counter-put rc id node r name amount) (ground arith)

count_devices-tally :
    (ds : List ContainerDevices) (rc : PerNumaResourceCounter) (node : Int64) (name : Text)
    → counter (count_devices ds rc) node name ≡ tally node name ds (counter rc node name)
unfolding count_devices tally
count_devices-tally [] rc node name = refl
count_devices-tally (d ∷ ds) rc node name =
    count_devices-tally ds _ node name
    ∙ ap (tally node name ds) (
        count_nodes-tally d.resource_name name (device_amount d) node (topology_nodes d.topology)
          rc)

counter_empty : (node : Int64) (name : Text) → counter [] node name ≡ 0
unfolding counter get_or get
counter_empty node name = refl

-- The counter of a resource on a node is the sum, modulo 2 ^ 64, of the amounts of the devices of
-- that resource, each taken once for each time that the device names the node.
pub counters-tally :
    (ds : List ContainerDevices) (node : Int64) (name : Text)
    → counter (container_devices_to_per_numa_resource_counters ds) node name ≡ tally node name ds 0
unfolding container_devices_to_per_numa_resource_counters
counters-tally ds node name =
    count_devices-tally ds [] node name ∙ ap (tally node name ds) (counter_empty node name)

tally_nodes-add64 :
    (node amount b acc : Int64) (ids : List Int64)
    → tally_nodes node amount ids (add64 acc b) ≡ add64 (tally_nodes node amount ids acc) b
unfolding tally_nodes
tally_nodes-add64 node amount b acc [] = refl
tally_nodes-add64 node amount b acc (id ∷ ids) =
    ap (tally_nodes node amount ids) (ground (arith, add64_swap acc b amount))
    ∙ tally_nodes-add64 node amount b (if nat_beq id node then add64 acc amount else acc) ids

tally_nodes_swap :
    (node a b acc : Int64) (ids jds : List Int64)
    → tally_nodes node a ids (tally_nodes node b jds acc)
      ≡ tally_nodes node b jds (tally_nodes node a ids acc)
unfolding tally_nodes
tally_nodes_swap node a b acc ids [] = refl
tally_nodes_swap node a b acc ids (j ∷ jds) =
    tally_nodes_swap node a b (if nat_beq j node then add64 acc b else acc) ids jds
    ∙ ap (tally_nodes node b jds) (ground (arith, tally_nodes-add64 node a b acc ids))

-- One device's share.
abbrev share : Int64 → Text → ContainerDevices → Int64 → Int64
share node name d acc =
    if text_beq d.resource_name name
    then tally_nodes node (device_amount d) (topology_nodes d.topology) acc
    else acc

share_swap :
    (node : Int64) (name : Text) (d e : ContainerDevices) (acc : Int64)
    → share node name d (share node name e acc) ≡ share node name e (share node name d acc)
share_swap node name d e acc = ground (
  arith,
  tally_nodes_swap node (device_amount d) (device_amount e) acc (topology_nodes d.topology)
      (topology_nodes e.topology),
)

tally-Permᴰ :
    (node : Int64) (name : Text) {ds es : List ContainerDevices}
    → Permᴰ ds es
    → (acc : Int64) → tally node name ds acc ≡ tally node name es acc
unfolding tally
tally-Permᴰ node name Permᴰ.nil acc = refl
tally-Permᴰ node name (Permᴰ.cons {a = d} {l₁ = ds} {l₂ = es} e p) acc =
    tally-Permᴰ node name p (share node name d acc)
    ∙ ap (λ x. tally node name es (share node name x acc)) e
tally-Permᴰ node name (Permᴰ.swap {a = d} {b = c} {l = ds} e f) acc =
    ap (tally node name ds) (share_swap node name c d acc)
    ∙ ap₂ (λ x y. tally node name ds (share node name x (share node name y acc))) e f
tally-Permᴰ node name (Permᴰ.trans p q) acc =
    tally-Permᴰ node name p acc ∙ tally-Permᴰ node name q acc

-- The counters do not depend on the order of the devices.
pub counters-perm :
    (ds es : List ContainerDevices) (node : Int64) (name : Text)
    → Perm ds es
    → counter (container_devices_to_per_numa_resource_counters ds) node name
      ≡ counter (container_devices_to_per_numa_resource_counters es) node name
counters-perm ds es node name p = ∥∥₁_elim p (ℕ_set _ _) (λ q.
    counters-tally ds node name ∙ tally-Permᴰ node name q 0 ∙ sym (counters-tally es node name))

pub tally-append :
    (node : Int64) (name : Text) (ds es : List ContainerDevices) (acc : Int64)
    → tally node name (ds ++ es) acc ≡ tally node name es (tally node name ds acc)
unfolding tally
tally-append node name [] es acc = refl
tally-append node name (d ∷ ds) es acc = tally-append node name ds es (share node name d acc)
