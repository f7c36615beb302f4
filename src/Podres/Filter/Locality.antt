-- ===== src/Podres/Filter/Locality.antt =====
-- What numalocality.Verify decides.
use resource_topology_export.Base.{
  ◌≡◌, refl, ap, ◌≢◌, ◌↔◌, ◌⊎◌, inl, inr, Bool, true, false, ◌&&◌, not, Option, none, some, List,
  [], ◌∷◌, ◌++◌, arith, Text, any, All, Any, Any-map, any→Any, Any→any, Bool-cases, Option-cases,
}
use resource_topology_export.Base.Int.{is_negative}
use resource_topology_export.Podres.{
  TopologyInfo, ContainerMemory, ContainerDevices, ContainerResources, PodResources,
}
use resource_topology_export.Podres.Filter.{
  FilterResult, rejected, is_present, is_empty, container_reason, verify_containers, verify,
}

-- The topology names a NUMA node; -1 is the legal way to name none.
abbrev pub HasLocality : Option TopologyInfo → Type 0
HasLocality none = ⊥
HasLocality (some topo) = Any (λ id. is_negative id ≡ false) topo.nodes

-- The container holds something exclusively: CPUs, or memory or devices on some NUMA node.
abbrev pub IsExclusive : ContainerResources → Type 0
IsExclusive cr =
    (cr.cpu_ids ≢ [])
    ⊎ Any (λ mem. HasLocality mem.topology) cr.memory
    ⊎ Any (λ dev. (dev.device_ids ≢ []) × HasLocality dev.topology) cr.devices

negated_iff : (b : Bool) → (not b ≡ true) ↔ (b ≡ false)
negated_iff b = ground arith

is_present_iff : (topo : Option TopologyInfo) → (is_present topo ≡ true) ↔ HasLocality topo
unfolding is_present
is_present_iff none = ((λ h. cc), λ h. absurd h)
is_present_iff (some topo) = (
  (λ h.
      Any-map _ _ (λ id e. (negated_iff (is_negative id)).0 e) topo.nodes (any→Any _ topo.nodes h)),
  λ h. Any→any _ topo.nodes (Any-map _ _ (λ id e. (negated_iff (is_negative id)).1 e) topo.nodes h),
)

is_empty_iff {ℓ} : {A : Type ℓ} (xs : List A) → (not (is_empty xs) ≡ true) ↔ (xs ≢ [])
is_empty_iff [] = ((λ h. cc), λ h. absurd (h refl))
is_empty_iff (x ∷ xs) = ((λ h e. cc e), λ h. refl)

device_iff :
    (dev : ContainerDevices)
    → ((not (is_empty dev.device_ids) && is_present dev.topology) ≡ true)
      ↔ ((dev.device_ids ≢ []) × HasLocality dev.topology)
device_iff dev = (
  (λ h. (
    (is_empty_iff dev.device_ids).0 (ground arith),
    (is_present_iff dev.topology).0 (ground arith),
  )),
  λ h. ground (arith, (is_empty_iff dev.device_ids).1 h.0, (is_present_iff dev.topology).1 h.1),
)

memory_any_iff :
    (mems : List ContainerMemory)
    → (any (λ mem. is_present mem.topology) mems ≡ true)
      ↔ Any (λ mem. HasLocality mem.topology) mems
memory_any_iff mems = (
  (λ h. Any-map _ _ (λ mem e. (is_present_iff mem.topology).0 e) mems (any→Any _ mems h)),
  λ h. Any→any _ mems (Any-map _ _ (λ mem e. (is_present_iff mem.topology).1 e) mems h),
)

device_any_iff :
    (devs : List ContainerDevices)
    → (any (λ dev. not (is_empty dev.device_ids) && is_present dev.topology) devs ≡ true)
      ↔ Any (λ dev. (dev.device_ids ≢ []) × HasLocality dev.topology) devs
device_any_iff devs = (
  (λ h. Any-map _ _ (λ dev e. (device_iff dev).0 e) devs (any→Any _ devs h)),
  λ h. Any→any _ devs (Any-map _ _ (λ dev e. (device_iff dev).1 e) devs h),
)

reason→IsExclusive :
    (cr : ContainerResources) (r : Text) → container_reason cr ≡ some r → IsExclusive cr
unfolding container_reason
reason→IsExclusive cr r h = elim (Bool-cases (not (is_empty cr.cpu_ids))) [
  | inl c ↦ inl ((is_empty_iff cr.cpu_ids).0 c)
  | inr c ↦ elim (Bool-cases (any (λ mem. is_present mem.topology) cr.memory)) [
    | inl m ↦ inr (inl ((memory_any_iff cr.memory).0 m))
    | inr m ↦ inr (inr ((device_any_iff cr.devices).0 (ground arith)))
  ]
]

none→not-IsExclusive : (cr : ContainerResources) → container_reason cr ≡ none → ¬ IsExclusive cr
unfolding container_reason
none→not-IsExclusive cr h (inl c) = ground (arith, (is_empty_iff cr.cpu_ids).1 c)
none→not-IsExclusive cr h (inr (inl m)) = ground (arith, (memory_any_iff cr.memory).1 m)
none→not-IsExclusive cr h (inr (inr d)) = ground (arith, (device_any_iff cr.devices).1 d)

-- What is said of a container list: the first exclusive container decides.
pub data Verdict (crs : List ContainerResources) (res : FilterResult) : Type 0 where
  refused : All (λ cr. ¬ IsExclusive cr) crs → res ≡ rejected → Verdict crs res
  allowed :
      (before after : List ContainerResources) (cr : ContainerResources)
      → crs ≡ before ++ cr ∷ after
      → All (λ c. ¬ IsExclusive c) before
      → IsExclusive cr
      → res.allow ≡ true
      → res.ident ≡ cr.name
      → container_reason cr ≡ some res.reason
      → Verdict crs res

Verdict-skip :
    (cr : ContainerResources) (crs : List ContainerResources) (res : FilterResult)
    → ¬ IsExclusive cr
    → Verdict crs res
    → Verdict (cr ∷ crs) res
Verdict-skip cr crs res n (refused all e) = refused (n, all) e
Verdict-skip cr crs res n (allowed before after c e all x a i r) =
    allowed (cr ∷ before) after c (ap (λ t. cr ∷ t) e) (n, all) x a i r

verify_containers-Verdict : (crs : List ContainerResources) → Verdict crs (verify_containers crs)
unfolding verify_containers
verify_containers-Verdict [] = refused tt refl
verify_containers-Verdict (cr ∷ crs) = elim (Option-cases (container_reason cr)) [
  | inl e ↦ rw e (Verdict-skip cr crs _ (none→not-IsExclusive cr e) (verify_containers-Verdict crs))
  | inr (r, e) ↦ rw e (allowed [] crs cr refl tt (reason→IsExclusive cr r e) refl refl e)
]

-- Verify allows a pod exactly when some container of it holds exclusive resources, and then the
-- result names the first such container, with the reason that the checks on it give.
pub verify-first-exclusive : (pr : PodResources) → Verdict pr.containers (verify (some pr))
unfolding verify
verify-first-exclusive pr = verify_containers-Verdict pr.containers
