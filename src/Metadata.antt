-- ===== src/Metadata.antt =====
-- src/scord/internal_types.hpp and src/scord/internal_types.cpp: what the server keeps for each
-- job, adhoc storage, PFS storage and transfer. A child module holds one type and its methods. A
-- `std::shared_ptr` is an optional index into the objects of the manager that made the object; a
-- method that mutates gives the new object.
pub mod Job
pub mod Adhoc
pub mod Pfs
pub mod Transfer
pub use Job.{JobMetadata}
pub use Adhoc.{AdhocMetadata}
pub use Pfs.{PfsMetadata}
pub use Transfer.{TransferMetadata}
