-- ===== src/Metadata/Job.antt =====
-- `job_metadata`
use io_scheduler.Prelude.{ℕ, ◌%◌, ◌^◌, Option, none, some, length}
use io_scheduler.Types.{Job, JobResources, JobRequirements}

pub record JobMetadata : Type 0 where
  pub job : Job
  pub resources : Option JobResources
  pub requirements : Option JobRequirements
  pub adhoc_metadata_ptr : Option ℕ

-- The constructor: both optionals are set.
unfoldable pub make : Job → JobResources → JobRequirements → Option ℕ → JobMetadata
make j res reqs adhoc = record {
  job = j;
  resources = some res;
  requirements = some reqs;
  adhoc_metadata_ptr = adhoc;
}

-- `size()` is cut down to a `std::uint32_t`.
unfoldable pub io_procs : JobMetadata → ℕ
io_procs m = elim m.resources [ none ↦ 0 | some r ↦ length r.nodes % 2 ^ 32 ]

unfoldable pub update : JobResources → JobMetadata → JobMetadata
update res m = record m { resources = some res }
