-- ===== src/Podres.antt =====
-- The messages of the pod resources API (k8s.io/kubelet/pkg/apis/podresources/v1), as far as the
-- program reads them. A nil slice is the empty list.
pub mod Filter
pub mod Client
use resource_topology_export.Base.{ℕ, List, Option, Text}
use resource_topology_export.Base.Int.{Int64}

-- The NUMA nodes by their IDs.
pub record TopologyInfo : Type 0 where
  pub nodes : List Int64

pub record ContainerMemory : Type 0 where
  pub memory_type : Text
  pub size : ℕ  -- uint64
  pub topology : Option TopologyInfo

pub record ContainerDevices : Type 0 where
  pub resource_name : Text
  pub device_ids : List Text
  pub topology : Option TopologyInfo

pub record ContainerResources : Type 0 where
  pub name : Text
  pub devices : List ContainerDevices
  pub memory : List ContainerMemory
  pub cpu_ids : List Int64

pub record PodResources : Type 0 where
  pub name : Text
  pub namespace : Text
  pub containers : List ContainerResources

pub record AllocatableResources : Type 0 where
  pub devices : List ContainerDevices
  pub memory : List ContainerMemory
  pub cpu_ids : List Int64
