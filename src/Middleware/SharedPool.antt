-- ===== src/Middleware/SharedPool.antt =====
-- pkg/podres/middleware/sharedcpuspool: takes the CPUs of the shared pool, learned from a reference
-- container, out of every container.
pub mod Ident
pub mod Pool
use resource_topology_export.Base.{
  ◌≡◌, refl, ◌↔◌, ◌⊎◌, inl, inr, Bool, true, false, ◌&&◌, not, Option, none, some, List, [], ◌∷◌,
  map, arith, Text, text_beq, text_beq_iff, Any, Bool-cases, Option-cases, if◌then◌else◌,
}
use resource_topology_export.Base.Int.{Int64}
use resource_topology_export.Podres.{ContainerResources, PodResources}
use resource_topology_export.Middleware.{Reply, filter_reply}
use resource_topology_export.Middleware.SharedPool.Ident.{ContainerIdent}

-- k8s.io/utils/cpuset, with what the program relies on: the members of what it builds.
pub record CpuSets : Type 1 where
  pub CpuSet : Type 0
  pub empty : CpuSet
  pub from_list : List Int64 → CpuSet
  pub difference : CpuSet → CpuSet → CpuSet
  pub to_list : CpuSet → List Int64
  pub equals : CpuSet → CpuSet → Bool
  pub mem_empty : (c : Int64) → ¬ Any (λ x. x ≡ c) (to_list empty)
  pub mem_from_list :
      (cpus : List Int64) (c : Int64)
      → Any (λ x. x ≡ c) (to_list (from_list cpus)) ↔ Any (λ x. x ≡ c) cpus
  pub mem_difference :
      (a b : CpuSet) (c : Int64)
      → Any (λ x. x ≡ c) (to_list (difference a b))
        ↔ (Any (λ x. x ≡ c) (to_list a) × ¬ Any (λ x. x ≡ c) (to_list b))

-- c is among the CPUs.
abbrev pub Has : Int64 → List Int64 → Type 0
Has c cpus = Any (λ x. x ≡ c) cpus

module _ (cs : CpuSets) where
  open cs use {CpuSet, empty, from_list, difference, to_list, equals}

  -- removeCPUs
  unfoldable pub remove_cpus : List Int64 → CpuSet → List Int64
  remove_cpus cpu_ids to_remove = to_list (difference (from_list cpu_ids) to_remove)

  -- The inner loop of findSharedPoolCPUsInListResponse: the first container of that name.
  unfoldable pub find_container : Text → List ContainerResources → Option CpuSet
  find_container name [] = none
  find_container name (cnt ∷ cnts) =
      let rest = find_container name cnts in
      if text_beq cnt.name name then some (from_list cnt.cpu_ids) else rest

  unfoldable pub find_pool_in : ContainerIdent → List PodResources → CpuSet
  unfolding find_container
  find_pool_in ref [] = empty
  find_pool_in ref (pr ∷ prs) =
      let rest = find_pool_in ref prs in
      if text_beq pr.namespace ref.namespace && text_beq pr.name ref.pod_name
      then elim (find_container ref.container_name pr.containers) [ none ↦ rest | some pool ↦ pool ]
      else rest

  -- findSharedPoolCPUsInListResponse
  unfoldable pub find_shared_pool_cpus : Option ContainerIdent → List PodResources → CpuSet
  find_shared_pool_cpus none prs = empty
  find_shared_pool_cpus (some ref) prs = find_pool_in ref prs

  -- filteringClient
  pub record FilteringClient : Type 0 where
    pub ref_cnt : Option ContainerIdent
    pub shared_pool_cpus : CpuSet  -- used only for logging

  abbrev pub shrink_container : CpuSet → ContainerResources → ContainerResources
  shrink_container pool cnt = record cnt { cpu_ids = remove_cpus cnt.cpu_ids pool }

  abbrev pub shrink_pod : CpuSet → PodResources → PodResources
  shrink_pod pool pr = record pr { containers = map (shrink_container pool) pr.containers }

  -- filteringClient.FilterListResponse: the client remembers the pool, and the response changes.
  unfoldable pub filter_list_response :
      FilteringClient → List PodResources → FilteringClient × List PodResources
  filter_list_response fc prs =
      let pool = find_shared_pool_cpus fc.ref_cnt prs in
      let fc' =
        if not (equals fc.shared_pool_cpus pool)
        then record fc { shared_pool_cpus = pool }
        else fc in
      (fc', map (shrink_pod pool) prs)

  -- filteringClient.List, over what the wrapped client answers
  unfoldable pub list :
      {E : Type 0}
      → FilteringClient
      → Reply E (List PodResources)
      → FilteringClient × Reply E (List PodResources)
  list fc reply = elim reply.err [
    | some e ↦ (fc, reply)
    | none ↦
        let (fc', prs) = filter_list_response fc reply.resp in
        (fc', record { resp = prs; err = none })
  ]

-- Two lists of the same length, related element by element.
pub data Pairs {A B : Type 0} (R : A → B → Type 0) : List A → List B → Type 0 where
  nil : Pairs R [] []
  cons :
      {a : A} {b : B} {xs : List A} {ys : List B}
      → R a b
      → Pairs R xs ys
      → Pairs R (a ∷ xs) (b ∷ ys)

Pairs-map :
    {A B : Type 0} (R : A → B → Type 0) (f : A → B) (r : (a : A) → R a (f a)) (xs : List A)
    → Pairs R xs (map f xs)
Pairs-map R f r [] = nil
Pairs-map R f r (x ∷ xs) = cons (r x) (Pairs-map R f r xs)

-- A container that lost exactly the CPUs of a pool, and nothing else.
pub record ContainerShrunk (pool : List Int64) (old new : ContainerResources) : Type 0 where
  pub same_name : new.name ≡ old.name
  pub same_devices : new.devices ≡ old.devices
  pub same_memory : new.memory ≡ old.memory
  pub cpus : (c : Int64) → Has c new.cpu_ids ↔ (Has c old.cpu_ids × ¬ Has c pool)

pub record PodShrunk (pool : List Int64) (old new : PodResources) : Type 0 where
  pub same_name : new.name ≡ old.name
  pub same_namespace : new.namespace ≡ old.namespace
  pub containers : Pairs (ContainerShrunk pool) old.containers new.containers

module _ (cs : CpuSets) where
  open cs use {
    CpuSet, empty, from_list, difference, to_list, mem_empty, mem_from_list, mem_difference,
  }

  remove_cpus_iff :
      (cpu_ids : List Int64) (pool : CpuSet) (c : Int64)
      → Has c (remove_cpus cs cpu_ids pool) ↔ (Has c cpu_ids × ¬ Has c (to_list pool))
  unfolding remove_cpus
  remove_cpus_iff cpu_ids pool c =
      let d = mem_difference (from_list cpu_ids) pool c in
      let m = mem_from_list cpu_ids c in
      ((λ h. (m.0 (d.0 h).0, (d.0 h).1)), λ h. d.1 (m.1 h.0, h.1))

  -- Every pod and container loses the CPUs of the pool that the code finds.
  pub filter_list_response-Pairs :
      (fc : FilteringClient cs) (prs : List PodResources)
      → Pairs
          (PodShrunk (to_list (find_shared_pool_cpus cs fc.ref_cnt prs)))
          prs
          (filter_list_response cs fc prs).1
  unfolding filter_list_response
  filter_list_response-Pairs fc prs =
      Pairs-map _ _
        (λ pr. record {
          same_name = refl;
          same_namespace = refl;
          containers =
              Pairs-map _ _
                (λ cnt. record {
                  same_name = refl;
                  same_devices = refl;
                  same_memory = refl;
                  cpus = remove_cpus_iff cnt.cpu_ids (find_shared_pool_cpus cs fc.ref_cnt prs);
                })
                pr.containers;
        })
        prs
