-- ===== src/Examples.antt =====
-- The theorems at concrete inputs, and runs of the definitions.
mod Monitoring
mod Clients
mod Writing
mod Reporting
mod Setup
mod Sysfs
mod Server
mod Loading
mod Starting
