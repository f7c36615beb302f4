-- ===== src/Monitor/Accounting/Pods.antt =====
-- What GetAllContainerDevices adds up to over all pods, as ContainerDevicesToPerNUMAResourceCounters
-- counts it.
use resource_topology_export.Base.{
  ℕ, ◌+◌, ◌*◌, ◌%◌, ◌<◌, ◌≡◌, ◌≢◌, ◌⊎◌, refl, ap, ◌∙◌, true, false, ◌&&◌, ◌||◌, not, List, [], ◌∷◌,
  inl, inr, arith, Text, nat_beq, nat_beq_iff, text_beq, text_beq_iff, All, All-append, Bool-cases,
  if◌then◌else◌,
}
use resource_topology_export.Base.Int.{Int64, int64_mod}
use resource_topology_export.Base.Dict.{Dict}
use resource_topology_export.Podres.{ContainerMemory, ContainerResources, PodResources}
use resource_topology_export.Monitor.Normalize.{
  resource_cpu, topology_nodes, cpus_per_numa, cpu_devices, block_devices, memory_devices,
  normalize_container_devices, all_containers, is_blank, get_all_container_devices,
}
use resource_topology_export.Monitor.Counters.{
  is_memory, container_devices_to_per_numa_resource_counters, counter,
}
use resource_topology_export.Monitor.Counters.Tally.{tally, tally-append, counters-tally}
use resource_topology_export.Monitor.Accounting.{
  cpus_on, held, held-cpus_per_numa, tally-cpu_devices, bytes_on, times_on, Fits, tally-block,
  tally-nil, tally_others, others-block_devices, is_memory-cpu,
}

held-nil : (node : Int64) (n : ℕ) → held node [] + n ≡ n
unfolding held
held-nil node n = omega arith

tally-memory_devices :
    (node : Int64) (name : Text) (blocks : List ContainerMemory) (acc : Int64)
    → is_memory name ≡ true
    → All Fits blocks
    → acc < int64_mod
    → tally node name (memory_devices blocks) acc ≡ (acc + bytes_on node name blocks) % int64_mod
unfolding memory_devices
tally-memory_devices node name [] acc m k h = tally-nil node name acc ∙ omega arith
tally-memory_devices node name (block ∷ blocks) acc m k h =
    elim (Bool-cases (nat_beq block.size 0)) [
      | inl e ↦ rw e (
          tally-memory_devices node name blocks acc m k.1 h
          ∙ ground (
            arith,
            ap (λ (t : ℕ). t * times_on node (topology_nodes block.topology))
                ((nat_beq_iff block.size 0).0 e),
          ))
      | inr e ↦ rw e (
          tally-append node name
            (block_devices block.memory_type block.size (topology_nodes block.topology))
            (memory_devices blocks) acc
          ∙ ap (tally node name (memory_devices blocks)) (tally-block node name block acc m k.0 h)
          ∙ tally-memory_devices node name blocks _ m k.1 (omega arith)
          ∙ omega arith)
    ]

others-memory_devices :
    (name : Text) (blocks : List ContainerMemory)
    → All (λ b. b.memory_type ≢ name) blocks
    → All (λ d. d.resource_name ≢ name) (memory_devices blocks)
unfolding memory_devices
others-memory_devices name [] h = tt
others-memory_devices name (block ∷ blocks) h = elim (Bool-cases (nat_beq block.size 0)) [
  | inl e ↦ rw e (others-memory_devices name blocks h.1)
  | inr e ↦ rw e (
      All-append _ _ _
        (others-block_devices name block.memory_type block.size (topology_nodes block.topology) h.0)
        (others-memory_devices name blocks h.1))
]

others-cpu_devices :
    (name : Text) (d : Dict Int64 (List Text))
    → resource_cpu ≢ name
    → All (λ d. d.resource_name ≢ name) (cpu_devices d)
unfolding cpu_devices
others-cpu_devices name [] h = tt
others-cpu_devices name ((n, cpus) ∷ d) h = (h, others-cpu_devices name d h)

-- What one container holds of a resource on a node, read off the API's message.
abbrev pub held_by : Dict Int64 Int64 → Int64 → Text → ContainerResources → ℕ
held_by core_map node name cnt =
    if text_beq name resource_cpu
    then cpus_on core_map node cnt.cpu_ids
    else bytes_on node name cnt.memory

abbrev pub held_by_all : Dict Int64 Int64 → Int64 → Text → List ContainerResources → ℕ
held_by_all core_map node name [] = 0
held_by_all core_map node name (cnt ∷ cnts) =
    held_by core_map node name cnt + held_by_all core_map node name cnts

abbrev pub held_by_pods : Dict Int64 Int64 → Text → Int64 → Text → List PodResources → ℕ
held_by_pods core_map namespace node name [] = 0
held_by_pods core_map namespace node name (pr ∷ prs) =
    (if is_blank namespace || text_beq namespace pr.namespace
      then held_by_all core_map node name pr.containers
      else 0)
    + held_by_pods core_map namespace node name prs

-- No device goes by the name of a resource that the kubelet reports as CPUs or as memory, no memory
-- block is called cpu, and block sizes fit.
abbrev pub IsPlain : Text → ContainerResources → Type 0
IsPlain name cnt =
    All (λ d. d.resource_name ≢ name) cnt.devices
    × All (λ b. b.memory_type ≢ resource_cpu) cnt.memory
    × All Fits cnt.memory

module _ (core_map : Dict Int64 Int64) (node : Int64) where
  tally-normalize_cpu :
      (cnt : ContainerResources) (acc : Int64)
      → IsPlain resource_cpu cnt
      → acc < int64_mod
      → tally node resource_cpu
          (normalize_container_devices cnt.devices cnt.memory cnt.cpu_ids core_map)
          acc
        ≡ (acc + cpus_on core_map node cnt.cpu_ids) % int64_mod
  unfolding normalize_container_devices
  tally-normalize_cpu cnt acc p h =
      let cpus = cpus_per_numa core_map cnt.cpu_ids [] in
      tally-append node resource_cpu cnt.devices _ acc
      ∙ ap (tally node resource_cpu _) (tally_others node resource_cpu cnt.devices acc p.0)
      ∙ tally-append node resource_cpu (cpu_devices cpus) (memory_devices cnt.memory) acc
      ∙ tally_others node resource_cpu (memory_devices cnt.memory) _
          (others-memory_devices resource_cpu cnt.memory p.1)
      ∙ tally-cpu_devices node cpus acc h
      ∙ ap (λ t. (acc + t) % int64_mod)
          (held-cpus_per_numa core_map node cnt.cpu_ids [] ∙ held-nil node _)

  tally-normalize_memory :
      (name : Text) (cnt : ContainerResources) (acc : Int64)
      → is_memory name ≡ true
      → resource_cpu ≢ name
      → IsPlain name cnt
      → acc < int64_mod
      → tally node name
          (normalize_container_devices cnt.devices cnt.memory cnt.cpu_ids core_map)
          acc
        ≡ (acc + bytes_on node name cnt.memory) % int64_mod
  unfolding normalize_container_devices
  tally-normalize_memory name cnt acc m ne p h =
      let cpus = cpus_per_numa core_map cnt.cpu_ids [] in
      tally-append node name cnt.devices _ acc
      ∙ ap (tally node name _) (tally_others node name cnt.devices acc p.0)
      ∙ tally-append node name (cpu_devices cpus) (memory_devices cnt.memory) acc
      ∙ ap (tally node name (memory_devices cnt.memory))
          (tally_others node name (cpu_devices cpus) acc (others-cpu_devices name cpus ne))
      ∙ tally-memory_devices node name cnt.memory acc m p.2 h

-- The resources that the kubelet reports as CPUs or as memory.
abbrev pub IsReported : Text → Type 0
IsReported name = (name ≡ resource_cpu) ⊎ (is_memory name ≡ true)

memory-ne-cpu : (name : Text) → is_memory name ≡ true → resource_cpu ≢ name
memory-ne-cpu name m e = cc (ap is_memory e, is_memory-cpu)

watched :
    (namespace pod_namespace : Text)
    → (is_blank namespace || text_beq namespace pod_namespace) ≡ true
    → (not (is_blank namespace) && not (text_beq namespace pod_namespace)) ≡ false
watched namespace pod_namespace h = ground arith

skipped :
    (namespace pod_namespace : Text)
    → (is_blank namespace || text_beq namespace pod_namespace) ≡ false
    → (not (is_blank namespace) && not (text_beq namespace pod_namespace)) ≡ true
skipped namespace pod_namespace h = ground arith

module _ (core_map : Dict Int64 Int64) (node : Int64) (name : Text) where
  tally-normalize :
      (cnt : ContainerResources) (acc : Int64)
      → IsReported name
      → IsPlain name cnt
      → acc < int64_mod
      → tally node name
          (normalize_container_devices cnt.devices cnt.memory cnt.cpu_ids core_map)
          acc
        ≡ (acc + held_by core_map node name cnt) % int64_mod
  tally-normalize cnt acc (inl e) p h = rw e (
      rw ((text_beq_iff resource_cpu resource_cpu).1 refl)
        (tally-normalize_cpu core_map node cnt acc (rw e at p) h))
  tally-normalize cnt acc (inr m) p h = ground (
    arith,
    text_beq_iff name resource_cpu,
    is_memory-cpu,
    memory-ne-cpu name m,
    tally-normalize_memory core_map node name cnt acc m (memory-ne-cpu name m) p h,
  )

  tally-all_containers :
      (cnts : List ContainerResources) (acc : Int64)
      → IsReported name
      → All (IsPlain name) cnts
      → acc < int64_mod
      → tally node name (all_containers cnts core_map) acc
        ≡ (acc + held_by_all core_map node name cnts) % int64_mod
  unfolding all_containers
  tally-all_containers [] acc r p h = tally-nil node name acc ∙ omega arith
  tally-all_containers (cnt ∷ cnts) acc r p h =
      tally-append node name _ (all_containers cnts core_map) acc
      ∙ ap (tally node name (all_containers cnts core_map)) (tally-normalize cnt acc r p.0 h)
      ∙ tally-all_containers cnts ((acc + held_by core_map node name cnt) % int64_mod) r p.1
          (omega arith)
      ∙ omega arith

  tally-pods :
      (namespace : Text) (prs : List PodResources) (acc : Int64)
      → IsReported name
      → All (λ pr. All (IsPlain name) pr.containers) prs
      → acc < int64_mod
      → tally node name (get_all_container_devices prs namespace core_map) acc
        ≡ (acc + held_by_pods core_map namespace node name prs) % int64_mod
  unfolding get_all_container_devices
  tally-pods namespace [] acc r p h = tally-nil node name acc ∙ omega arith
  tally-pods namespace (pr ∷ prs) acc r p h =
      elim (Bool-cases (is_blank namespace || text_beq namespace pr.namespace)) [
        | inl e ↦
            let here = held_by_all core_map node name pr.containers in
            rw (e, watched namespace pr.namespace e)
              (tally-append node name (all_containers pr.containers core_map) _ acc
                ∙ ap (tally node name (get_all_container_devices prs namespace core_map))
                    (tally-all_containers pr.containers acc r p.0 h)
                ∙ tally-pods namespace prs ((acc + here) % int64_mod) r p.1 (omega arith)
                ∙ omega arith)
        | inr e ↦
            rw (e, skipped namespace pr.namespace e)
              (tally-pods namespace prs acc r p.1 h ∙ omega arith)
      ]

  -- For cpu and for every resource counted in bytes, what Scan counts as allocated on a node is,
  -- modulo 2 ^ 64, the CPUs that the map puts on the node, or the sizes of the memory blocks, each
  -- once for each time that it names the node, over the containers of the watched pods. No device
  -- goes by the resource's name, no memory block is called cpu, and each block is below 2 ^ 63 bytes.
  pub allocated-eq-held :
      (namespace : Text) (prs : List PodResources)
      → IsReported name
      → All (λ pr. All (IsPlain name) pr.containers) prs
      → counter
          (container_devices_to_per_numa_resource_counters
            (get_all_container_devices prs namespace core_map))
          node
          name
        ≡ held_by_pods core_map namespace node name prs % int64_mod
  allocated-eq-held namespace prs r p =
      counters-tally (get_all_container_devices prs namespace core_map) node name
      ∙ tally-pods namespace prs 0 r p (omega arith)
      ∙ omega arith
