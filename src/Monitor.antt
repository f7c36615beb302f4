-- ===== src/Monitor.antt =====
-- pkg/resourcemonitor: from what the kubelet says of pods and devices to the zones of the node.
pub mod Topology
pub mod Normalize
pub mod Counters
pub mod Accounting
pub mod Resources
pub mod Starting
pub mod Scan
