-- ===== src/Managers/Job.antt =====
-- src/scord/job_manager.hpp
pub mod View
pub mod Invariant
pub mod Index
use io_scheduler.Prelude.{
  ℕ, Option, none, some, List, [], length, alloc, deref, modify, if◌then◌else◌, nat_key,
}
use io_scheduler.Prelude.Map
use io_scheduler.Prelude.Map.{Map}
use io_scheduler.Types.{
  ErrorCode, success, snafu, entity_exists, no_such_entity, Expected, expected, unexpected,
  JobResources, JobRequirements,
}
use io_scheduler.Metadata.{JobMetadata}
use io_scheduler.Metadata
use io_scheduler.Managers.Counter.{next}

-- `objects` are all that `create` has made, those too that have been removed since: other parts may
-- still hold a pointer to them.
pub record JobManager : Type 0 where
  pub current_id : ℕ
  pub jobs : Map ℕ ℕ
  pub slurm_to_scord : Map ℕ ℕ
  pub objects : List JobMetadata

unfoldable pub init : JobManager
init = record { current_id = 0; jobs = []; slurm_to_scord = []; objects = [] }

-- The body of the branch of `create` in which the number is free.
register : JobManager → ℕ → ℕ → JobMetadata → JobManager × Expected ℕ
unfolding Map.emplace Map.find
register m id slurm_id metadata =
    let ptr = length m.objects in
    let (jobs, inserted) = Map.emplace id ptr m.jobs in
    let m' = record m {
      jobs = jobs;
      slurm_to_scord = (Map.emplace slurm_id id m.slurm_to_scord).0;
      objects = alloc m.objects metadata;
    } in
    if inserted then (m', expected ptr) else (m', unexpected snafu)

unfoldable pub create :
    JobManager → ℕ → JobResources → JobRequirements → Option ℕ → JobManager × Expected ℕ
unfolding register
create m slurm_id resources requirements adhoc_ptr =
    let id = m.current_id in
    let m' = record m { current_id = next id } in
    elim (Map.find id m.jobs) [
      | none ↦ register m' id slurm_id (
          Metadata.Job.make (record { id = id; slurm_id = slurm_id }) resources requirements
            adhoc_ptr)
      | some ptr ↦ (m', unexpected entity_exists)
    ]

unfoldable pub update : JobManager → ℕ → JobResources → JobManager × ErrorCode
update m id resources = elim (Map.find id m.jobs) [
  | some ptr ↦
      (record m { objects = modify m.objects ptr (Metadata.Job.update resources) }, success)
  | none ↦ (m, no_such_entity)
]

unfoldable pub find : JobManager → ℕ → Expected ℕ
find m id = elim (Map.find id m.jobs) [ some ptr ↦ expected ptr | none ↦ unexpected no_such_entity ]

unfoldable pub find_by_slurm_id : JobManager → ℕ → Expected ℕ
unfolding find
find_by_slurm_id m slurm_id = elim (Map.find slurm_id m.slurm_to_scord) [
  | some id ↦ find m id
  | none ↦ unexpected no_such_entity
]

-- The mapped object gives the Slurm number whose entry goes too.
unregister : JobManager → ℕ → ℕ → Option JobMetadata → JobManager
unregister m id ptr none = record m { jobs = Map.erase id m.jobs }
unregister m id ptr (some metadata) = record m {
  jobs = Map.erase id m.jobs;
  slurm_to_scord = Map.erase metadata.job.slurm_id m.slurm_to_scord;
}

unfoldable pub remove : JobManager → ℕ → JobManager × Expected ℕ
unfolding unregister
remove m id = elim (Map.find id m.jobs) [
  | some ptr ↦ (unregister m id ptr (deref m.objects ptr), expected ptr)
  | none ↦ (m, unexpected no_such_entity)
]
