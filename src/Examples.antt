-- ===== src/Examples.antt =====
-- Concrete inputs, and the theorems at these inputs.
pub mod Data
pub mod Jobs
pub mod Adhocs
pub mod Storages
pub mod Served
pub mod Requests
pub mod Handlers
pub mod Transfers
pub mod Texts
pub mod Deployments
pub mod Clients
pub mod Conversions
pub mod Locks
pub mod Memory
pub mod Slurm
pub mod Processes
pub mod Sizes
