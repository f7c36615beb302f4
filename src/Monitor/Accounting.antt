-- ===== src/Monitor/Accounting.antt =====
-- What the normalized devices of the containers add up to.
pub mod Pods
use resource_topology_export.Base.{
  ℕ, suc, ◌+◌, ◌*◌, ◌%◌, ◌^◌, ◌≤◌, ◌<◌, ◌≡◌, ◌≢◌, refl, sym, ap, ◌∙◌, Bool, true, false, ◌&&◌, ◌||◌,
  not, Option, none, some, List, [], ◌∷◌, ◌++◌, inl, inr, arith, Text, nat_eq, nat_beq, nat_beq_iff,
  text_beq, text_beq_iff, All, length, length-append, Bool-cases, Option-cases, if◌then◌else◌,
}
use resource_topology_export.Base.Int.{Int64, int64_mod, int64_min, add64, to_int64}
use resource_topology_export.Base.Dict.{Dict, get, put, get_or}
use resource_topology_export.Base.Strings.{has_prefix, format_int, format_uint, parse_int, Parsed}
use resource_topology_export.Base.Strings.Decimal.{parse_int-format_uint}
use resource_topology_export.Podres.{
  ContainerMemory, ContainerDevices, ContainerResources, PodResources,
}
use resource_topology_export.Monitor.Normalize.{
  resource_cpu, on_node, topology_nodes, cpus_per_numa, cpu_devices, block_devices, memory_devices,
  normalize_container_devices,
}
use resource_topology_export.Monitor.Counters.{
  is_memory, sum_sizes, device_amount, container_devices_to_per_numa_resource_counters, counter,
}
use resource_topology_export.Monitor.Counters.Tally.{
  tally, tally_nodes, tally-append, counters-tally,
}

-- The CPUs of the list that the map puts on the node.
abbrev pub cpus_on : Dict Int64 Int64 → Int64 → List Int64 → ℕ
cpus_on core_map node [] = 0
cpus_on core_map node (cpu ∷ cpus) =
    elim (get core_map cpu) [ none ↦ 0 | some n ↦ if nat_beq n node then 1 else 0 ]
    + cpus_on core_map node cpus

-- The CPUs that a map by NUMA node holds for the node.
held : Int64 → Dict Int64 (List Text) → ℕ
held node [] = 0
held node ((n, cpus) ∷ rest) = (if nat_beq n node then length cpus else 0) + held node rest

held-put :
    (d : Dict Int64 (List Text)) (n node : Int64) (t : Text)
    → held node (put d n (get_or d n [] ++ t ∷ []))
      ≡ held node d + (if nat_beq n node then 1 else 0)
unfolding held put get_or get
held-put [] n node t = ground arith
held-put ((k, cpus) ∷ d) n node t = ground (
  arith,
  length-append cpus (t ∷ []),
  held-put d n node t,
  nat_beq_iff k n,
  nat_beq_iff k node,
  nat_beq_iff n node,
)

held-cpus_per_numa :
    (core_map : Dict Int64 Int64) (node : Int64) (cpus : List Int64) (d : Dict Int64 (List Text))
    → held node (cpus_per_numa core_map cpus d) ≡ held node d + cpus_on core_map node cpus
unfolding cpus_per_numa
held-cpus_per_numa core_map node [] d = omega arith
held-cpus_per_numa core_map node (cpu ∷ cpus) d = elim (Option-cases (get core_map cpu)) [
  | inl e ↦ rw e (held-cpus_per_numa core_map node cpus d ∙ omega arith)
  | inr (n, e) ↦
      rw e (
        held-cpus_per_numa core_map node cpus _ ∙ omega (arith, held-put d n node (format_int cpu)))
]

is_memory-cpu : is_memory resource_cpu ≡ false
unfolding is_memory has_prefix text_beq
is_memory-cpu = refl

cpu_amount :
    (d : ContainerDevices)
    → d.resource_name ≡ resource_cpu
    → device_amount d ≡ to_int64 (length d.device_ids)
unfolding device_amount
cpu_amount d e = ground (arith, ap is_memory e ∙ is_memory-cpu)

-- Adding one amount on one node.
tally_nodes_one :
    (node id amount acc : Int64)
    → tally_nodes node amount (id ∷ []) acc ≡ (if nat_beq id node then add64 acc amount else acc)
unfolding tally_nodes
tally_nodes_one node id amount acc = refl

tally_hit :
    (node id : Int64) (d : ContainerDevices) (ds : List ContainerDevices) (acc : Int64)
    → topology_nodes d.topology ≡ id ∷ []
    → tally node d.resource_name (d ∷ ds) acc
      ≡ tally node d.resource_name ds (if nat_beq id node then add64 acc (device_amount d) else acc)
unfolding tally
tally_hit node id d ds acc e = ap (tally node d.resource_name ds) (
    ground (
      arith,
      text_beq_iff d.resource_name d.resource_name,
      ap (λ t. tally_nodes node (device_amount d) t acc) e,
      tally_nodes_one node id (device_amount d) acc,
    ))

tally_miss :
    (node : Int64) (name : Text) (d : ContainerDevices) (ds : List ContainerDevices) (acc : Int64)
    → d.resource_name ≢ name
    → tally node name (d ∷ ds) acc ≡ tally node name ds acc
unfolding tally
tally_miss node name d ds acc e =
    ap (tally node name ds) (ground (arith, text_beq_iff d.resource_name name))

-- Of devices of other resources nothing is added.
tally_others :
    (node : Int64) (name : Text) (ds : List ContainerDevices) (acc : Int64)
    → All (λ d. d.resource_name ≢ name) ds
    → tally node name ds acc ≡ acc
tally_others node name [] acc h = unfold tally in refl
tally_others node name (d ∷ ds) acc h =
    tally_miss node name d ds acc h.0 ∙ tally_others node name ds acc h.1

tally-nil : (node : Int64) (name : Text) (acc : Int64) → tally node name [] acc ≡ acc
unfolding tally
tally-nil node name acc = refl

cpu_step :
    (node n acc l : ℕ)
    → acc < int64_mod
    → (if nat_beq n node then add64 acc (to_int64 l) else acc)
      ≡ (acc + (if nat_beq n node then l else 0)) % int64_mod
unfolding add64 to_int64
cpu_step node n acc l h = ground arith

tally-cpu_devices :
    (node : Int64) (d : Dict Int64 (List Text)) (acc : Int64)
    → acc < int64_mod
    → tally node resource_cpu (cpu_devices d) acc ≡ (acc + held node d) % int64_mod
unfolding cpu_devices held
tally-cpu_devices node [] acc h = tally-nil node resource_cpu acc ∙ omega arith
tally-cpu_devices node ((n, cpus) ∷ d) acc h =
    let device : ContainerDevices = record {
      resource_name = resource_cpu;
      device_ids = cpus;
      topology = on_node n;
    } in
    let next : ℕ = (acc + (if nat_beq n node then length cpus else 0)) % int64_mod in
    tally_hit node n device (cpu_devices d) acc refl
    ∙ ap (tally node resource_cpu (cpu_devices d))
        (rw (cpu_amount device refl) (cpu_step node n acc (length cpus) h))
    ∙ tally-cpu_devices node d next (omega arith)
    ∙ omega arith

-- The bytes that the memory blocks of a resource hold on the node.
abbrev pub times_on : Int64 → List Int64 → ℕ
times_on node [] = 0
times_on node (n ∷ ns) = (if nat_beq n node then 1 else 0) + times_on node ns

abbrev pub bytes_on : Int64 → Text → List ContainerMemory → ℕ
bytes_on node name [] = 0
bytes_on node name (block ∷ blocks) =
    (if text_beq block.memory_type name
      then block.size * times_on node (topology_nodes block.topology)
      else 0)
    + bytes_on node name blocks

-- A block size that an int64 holds.
abbrev pub Fits : ContainerMemory → Type 0
Fits block = block.size < int64_min

size_amount :
    (d : ContainerDevices) (size : ℕ)
    → is_memory d.resource_name ≡ true
    → d.device_ids ≡ format_uint size ∷ []
    → size < int64_min
    → device_amount d ≡ size
unfolding device_amount sum_sizes add64
size_amount d size m e h = rw m (rw e (rw (parse_int-format_uint size h) (omega arith)))

block_step :
    (node n acc size : ℕ)
    → acc < int64_mod
    → (if nat_beq n node then add64 acc size else acc)
      ≡ (acc + size * (if nat_beq n node then 1 else 0)) % int64_mod
unfolding add64
block_step node n acc size h = ground arith

tally-block_devices :
    (node : Int64) (name : Text) (size : ℕ) (ns : List Int64) (acc : Int64)
    → is_memory name ≡ true
    → size < int64_min
    → acc < int64_mod
    → tally node name (block_devices name size ns) acc ≡ (acc + size * times_on node ns) % int64_mod
unfolding block_devices
tally-block_devices node name size [] acc m k h = tally-nil node name acc ∙ omega arith
tally-block_devices node name size (n ∷ ns) acc m k h =
    let device : ContainerDevices = record {
      resource_name = name;
      device_ids = format_uint size ∷ [];
      topology = on_node n;
    } in
    let next : ℕ = (acc + size * (if nat_beq n node then 1 else 0)) % int64_mod in
    tally_hit node n device (block_devices name size ns) acc refl
    ∙ ap (tally node name (block_devices name size ns))
        (rw (size_amount device size m refl k) (block_step node n acc size h))
    ∙ tally-block_devices node name size ns next m k (omega arith)
    ∙ omega arith

others-block_devices :
    (name other : Text) (size : ℕ) (ns : List Int64)
    → other ≢ name
    → All (λ d. d.resource_name ≢ name) (block_devices other size ns)
unfolding block_devices
others-block_devices name other size [] h = tt
others-block_devices name other size (n ∷ ns) h = (h, others-block_devices name other size ns h)

tally-block :
    (node : Int64) (name : Text) (block : ContainerMemory) (acc : Int64)
    → is_memory name ≡ true
    → Fits block
    → acc < int64_mod
    → tally node name
        (block_devices block.memory_type block.size (topology_nodes block.topology))
        acc
      ≡ (acc
          + (if text_beq block.memory_type name
              then block.size * times_on node (topology_nodes block.topology)
              else 0))
        % int64_mod
tally-block node name block acc m k h = elim (Bool-cases (text_beq block.memory_type name)) [
  | inl e ↦
      let same : block.memory_type ≡ name = (text_beq_iff block.memory_type name).0 e in
      rw e (
        ap (λ t. tally node name (block_devices t block.size (topology_nodes block.topology)) acc)
          same
        ∙ tally-block_devices node name block.size (topology_nodes block.topology) acc m k h)
  | inr e ↦ rw e (
      tally_others node name _ acc (
        others-block_devices name block.memory_type block.size (topology_nodes block.topology)
          (λ q. cc ((text_beq_iff block.memory_type name).1 q)))
      ∙ omega arith)
]
