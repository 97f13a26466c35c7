-- ===== src/Server/Consistency.antt =====
-- What holds between the tables of jobs and of adhoc storages while no handler runs. The children
-- prove that each handler keeps it.
pub mod Links
pub mod Adhocs
pub mod Jobs
pub mod Removal
pub mod Handlers
pub mod History
pub mod Transfers
use io_scheduler.Prelude.{ℕ, ◌≡◌, Option, none, some, deref, nat_key}
use io_scheduler.Prelude.Map
use io_scheduler.Types.{AdhocStorage, JobRequirements}
use io_scheduler.Metadata.{JobMetadata, AdhocMetadata}
use io_scheduler.Managers.{JobManager, AdhocManager}
use io_scheduler.Managers

-- A job's pointer goes with its requirements: both are there or neither, and the pointer leads to
-- the metadata of the storage that the requirements name, also when that has been removed.
pub data Linked (m : AdhocManager) : Option AdhocStorage → Option ℕ → Type 0 where
  unlinked : Linked m none none
  linked :
      (storage : AdhocStorage) (q : ℕ) (a : AdhocMetadata)
      → deref m.objects q ≡ some a
      → a.adhoc_storage.id ≡ storage.id
      → Linked m (some storage) (some q)

pub record IsLinked (m : AdhocManager) (o : JobMetadata) : Type 0 where
  pub reqs : JobRequirements
  pub has_reqs : o.requirements ≡ some reqs
  pub link : Linked m reqs.adhoc_storage o.adhoc_metadata_ptr

-- `p` points to a registered job that uses the storage at `q`.
pub record IsClient (m : JobManager) (q p : ℕ) : Type 0 where
  pub job : JobMetadata
  pub at : deref m.objects p ≡ some job
  pub registered : Map.find job.job.id m.jobs ≡ some p
  pub uses : job.adhoc_metadata_ptr ≡ some q

-- Both managers are valid; every registered job is linked; and the client of a registered storage
-- is a registered job that uses it.
pub record IsConsistent (jobs : JobManager) (adhocs : AdhocManager) : Type 0 where
  pub jobs_valid : Managers.Job.View.IsValid jobs
  pub adhocs_valid : Managers.Adhoc.View.IsValid adhocs
  pub links : (j : ℕ) (o : JobMetadata) → Managers.Job.View.view jobs j ≡ some o → IsLinked adhocs o
  pub clients :
      (id q p : ℕ) (a : AdhocMetadata)
      → Map.find id adhocs.adhoc_storages ≡ some q
      → deref adhocs.objects q ≡ some a
      → a.client_info ≡ some p
      → IsClient jobs q p
