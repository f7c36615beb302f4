-- ===== src/Middleware/SharedPool/Pool.antt =====
-- pkg/podres/middleware/sharedcpuspool: which CPUs are the shared pool, and what a response loses.
use resource_topology_export.Base.{
  ◌≡◌, refl, ◌≢◌, ◌↔◌, ◌⊎◌, inl, inr, ◌&&◌, Option, none, some, List, [], ◌∷◌, Text, text_beq,
  text_beq_iff, Any, Bool-cases, arith,
}
use resource_topology_export.Base.Int.{Int64}
use resource_topology_export.Podres.{ContainerResources, PodResources}
use resource_topology_export.Middleware.SharedPool.{
  CpuSets, Has, find_container, find_pool_in, find_shared_pool_cpus, FilteringClient,
  filter_list_response, Pairs, PodShrunk, filter_list_response-Pairs,
}
use resource_topology_export.Middleware.SharedPool.Ident.{ContainerIdent}

-- The CPUs are those of the first container of that name.
pub data IsContainerPool (name : Text) (pool : List Int64) : List ContainerResources → Type 0 where
  this_one :
      {cnt : ContainerResources} {cnts : List ContainerResources}
      → cnt.name ≡ name
      → ((c : Int64) → Has c pool ↔ Has c cnt.cpu_ids)
      → IsContainerPool name pool (cnt ∷ cnts)
  a_later_one :
      {cnt : ContainerResources} {cnts : List ContainerResources}
      → cnt.name ≢ name
      → IsContainerPool name pool cnts
      → IsContainerPool name pool (cnt ∷ cnts)

-- The pod is the one that the reference names, and it has the container.
abbrev pub IsReferred : ContainerIdent → PodResources → Type 0
IsReferred ref pr =
    (pr.namespace ≡ ref.namespace)
    × (pr.name ≡ ref.pod_name)
    × Any (λ cnt. cnt.name ≡ ref.container_name) pr.containers

-- The CPUs are those of the container that the reference names, or there are none.
pub data IsPool (ref : ContainerIdent) (pool : List Int64) : List PodResources → Type 0 where
  nowhere : ((c : Int64) → ¬ Has c pool) → IsPool ref pool []
  in_this_pod :
      {pr : PodResources} {prs : List PodResources}
      → pr.namespace ≡ ref.namespace
      → pr.name ≡ ref.pod_name
      → IsContainerPool ref.container_name pool pr.containers
      → IsPool ref pool (pr ∷ prs)
  in_a_later_pod :
      {pr : PodResources} {prs : List PodResources}
      → ¬ IsReferred ref pr
      → IsPool ref pool prs
      → IsPool ref pool (pr ∷ prs)

abbrev pub IsSharedPool : Option ContainerIdent → List Int64 → List PodResources → Type 0
IsSharedPool none pool prs = (c : Int64) → ¬ Has c pool
IsSharedPool (some ref) pool prs = IsPool ref pool prs

module _ (cs : CpuSets) where
  open cs use {CpuSet, to_list, from_list, mem_empty, mem_from_list}

  find_container_lem :
      (name : Text) (cnts : List ContainerResources)
      → ((find_container cs name cnts ≡ none) × ¬ Any (λ cnt. cnt.name ≡ name) cnts)
        ⊎ ((pool : CpuSet) × (find_container cs name cnts ≡ some pool)
            × IsContainerPool name (to_list pool) cnts)
  unfolding find_container
  find_container_lem name [] = inl (refl, λ h. h)
  find_container_lem name (cnt ∷ cnts) = elim (Bool-cases (text_beq cnt.name name)) [
    | inl e ↦ inr (
      from_list cnt.cpu_ids,
      rw (find_container, e) refl,
      this_one ((text_beq_iff cnt.name name).0 e) (mem_from_list cnt.cpu_ids),
    )
    | inr e ↦
        let other : cnt.name ≢ name = λ h. let yes = (text_beq_iff cnt.name name).1 h in cc in
        elim (find_container_lem name cnts) [
          | inl (n, h) ↦ inl (rw (find_container, e) n, elim [ inl x ↦ other x | inr y ↦ h y ])
          | inr (pool, p, h) ↦ inr (pool, rw (find_container, e) p, a_later_one other h)
        ]
  ]

  find_pool_in-IsPool :
      (ref : ContainerIdent) (prs : List PodResources)
      → IsPool ref (to_list (find_pool_in cs ref prs)) prs
  unfolding find_pool_in
  find_pool_in-IsPool ref [] = nowhere mem_empty
  find_pool_in-IsPool ref (pr ∷ prs) =
      elim (Bool-cases (text_beq pr.namespace ref.namespace && text_beq pr.name ref.pod_name)) [
        | inr e ↦
            rw (find_pool_in, e)
              (in_a_later_pod
                (λ (n, p, a). ground (
                  arith,
                  (text_beq_iff pr.namespace ref.namespace).1 n,
                  (text_beq_iff pr.name ref.pod_name).1 p,
                ))
                (find_pool_in-IsPool ref prs))
        | inl e ↦ elim (find_container_lem ref.container_name pr.containers) [
          | inl (n, h) ↦
              rw (find_pool_in, e, n)
                (in_a_later_pod (λ (_, p, a). h a) (find_pool_in-IsPool ref prs))
          | inr (pool, p, h) ↦
              rw (find_pool_in, e, p)
                (in_this_pod (ground (arith, (text_beq_iff pr.namespace ref.namespace).0))
                  (ground (arith, (text_beq_iff pr.name ref.pod_name).0)) h)
        ]
      ]

  find_shared_pool_cpus-IsSharedPool :
      (o : Option ContainerIdent) (prs : List PodResources)
      → IsSharedPool o (to_list (find_shared_pool_cpus cs o prs)) prs
  unfolding find_shared_pool_cpus
  find_shared_pool_cpus-IsSharedPool none prs = mem_empty
  find_shared_pool_cpus-IsSharedPool (some ref) prs = find_pool_in-IsPool ref prs

  -- The response loses the CPUs of one pool: every pod and container stays, in its place, and its CPUs
  -- are those that it had and that are not in the pool, while names, devices and memory stay. The pool
  -- is that of the container which the reference names by namespace, pod and container, the first one
  -- of the response; it is empty where there is no reference or no such container.
  pub filter_list_response-PodShrunk :
      (fc : FilteringClient cs) (prs : List PodResources)
      → (pool : List Int64) × IsSharedPool fc.ref_cnt pool prs
        × Pairs (PodShrunk pool) prs (filter_list_response cs fc prs).1
  filter_list_response-PodShrunk fc prs = (
    to_list (find_shared_pool_cpus cs fc.ref_cnt prs),
    find_shared_pool_cpus-IsSharedPool fc.ref_cnt prs,
    filter_list_response-Pairs cs fc prs,
  )
