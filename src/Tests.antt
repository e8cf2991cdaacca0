-- ===== src/Tests.antt =====
-- The theorems at concrete inputs, and runs of the modelled functions.
mod Keys
mod Documents
mod Generators
mod Worker
mod Reservoir
mod Retry
mod Config
mod Cluster
mod Waits
mod Phases
mod PathoGen
mod Workload
mod Monitor
