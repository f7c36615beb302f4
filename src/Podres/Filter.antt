-- ===== src/Podres/Filter.antt =====
-- pkg/podres/filter: the verifiers that choose the pods of the fingerprint.
pub mod Locality
use resource_topology_export.Base.{
  suc, Bool, true, false, ◌&&◌, not, Option, none, some, List, [], ◌∷◌, Text, any, if◌then◌else◌,
}
use resource_topology_export.Base.Int.{Int64, is_negative}
use resource_topology_export.Base.Strings.{codes}
use resource_topology_export.Podres.{
  TopologyInfo, ContainerMemory, ContainerDevices, ContainerResources, PodResources,
}

-- filter.Result
pub record FilterResult : Type 0 where
  pub allow : Bool
  pub ident : Text
  pub reason : Text

abbrev pub rejected : FilterResult
rejected = record { allow = false; ident = []; reason = [] }

pub verify_always_pass : Option PodResources → FilterResult
verify_always_pass pr = record { allow = true; ident = []; reason = [] }

abbrev pub reason_cpu : Text
reason_cpu = codes "cpu"

abbrev pub reason_memory : Text
reason_memory = codes "memory"

abbrev pub reason_device : Text
reason_device = codes "device"

-- numalocality.IsPresent
unfoldable pub is_present : Option TopologyInfo → Bool
is_present none = false
is_present (some topo) = any (λ id. not (is_negative id)) topo.nodes

abbrev pub is_empty {ℓ} : {A : Type ℓ} → List A → Bool
is_empty [] = true
is_empty (x ∷ xs) = false

-- One round of the loop of numalocality.Verify: the reason by which a container is taken.
unfoldable pub container_reason : ContainerResources → Option Text
container_reason cr =
    if not (is_empty cr.cpu_ids)
    then some reason_cpu
    else if any (λ mem. is_present mem.topology) cr.memory
    then some reason_memory
    else if any (λ dev. not (is_empty dev.device_ids) && is_present dev.topology) cr.devices
    then some reason_device
    else none

abbrev taken : ContainerResources → Option Text → FilterResult → FilterResult
taken cr (some reason) rest = record { allow = true; ident = cr.name; reason = reason }
taken cr none rest = rest

unfoldable pub verify_containers : List ContainerResources → FilterResult
verify_containers [] = rejected
verify_containers (cr ∷ crs) =
    let rest = verify_containers crs in taken cr (container_reason cr) rest

-- numalocality.Verify
unfoldable pub verify : Option PodResources → FilterResult
unfolding verify_containers
verify none = rejected
verify (some pr) = verify_containers pr.containers
