-- ===== src/Managers.antt =====
-- src/scord/*_manager.hpp: the four registries of the server. Each method of a registry holds the
-- registry's mutex from its first to its last step, so a call is one step.
pub mod Counter
pub mod Job
pub mod Adhoc
pub mod Pfs
pub mod Transfer
pub use Job.{JobManager}
pub use Adhoc.{AdhocManager}
pub use Pfs.{PfsManager}
pub use Transfer.{TransferManager}
