-- ===== src/Server/Jobs.antt =====
-- The handlers `query`, `register_job`, `update_job` and `remove_job`.
use io_scheduler.Prelude.{ℕ, Option, none, some, List, [], ◌∷◌, deref, has_value, if◌then◌else◌}
use io_scheduler.Prelude.Bytes.{codes}
use io_scheduler.Types.{
  Bytes, ErrorCode, success, no_resources, is_success, Expected, expected, unexpected, JobInfo,
  JobResources, JobRequirements, AdhocStorage,
}
use io_scheduler.Metadata
use io_scheduler.Metadata.{JobMetadata, AdhocMetadata}
use io_scheduler.Network.{GenericResponse, Response}
use io_scheduler.Managers
use io_scheduler.Managers.{AdhocManager}
use io_scheduler.Server.{
  Server, Outcome, responds, faults, null_dereference, FieldValue, text, number, adhoc_type,
  start_rpc, hmset,
}

-- The end of `query`, from the job's metadata and that of its adhoc storage.
job_info_of : Option JobMetadata → (ℕ → Option AdhocMetadata) → Outcome (Expected JobInfo)
unfolding Metadata.Adhoc.controller_address Metadata.Job.io_procs
job_info_of none adhoc_at = faults null_dereference
job_info_of (some job) adhoc_at =
    if has_value job.resources
    then elim job.adhoc_metadata_ptr [
      | none ↦ faults null_dereference
      | some ptr ↦ elim (adhoc_at ptr) [
        | none ↦ faults null_dereference
        | some adhoc ↦ responds (
            expected (record {
              adhoc_controller_address = Metadata.Adhoc.controller_address adhoc;
              uuid = adhoc.uuid;
              io_procs = Metadata.Job.io_procs job;
            }))
      ]
    ]
    else responds (unexpected no_resources)

-- The response of a handler to a value or an error.
unfoldable pub answer {ℓ} : {A : Type ℓ} → ℕ → Expected A → Response A
answer op_id (expected a) = record { op_id = op_id; error_code = success; value = some a }
answer op_id (unexpected ec) = record { op_id = op_id; error_code = ec; value = none }

-- The first part of `register_job`: the adhoc storage that the job requires.
unfoldable pub required_adhoc : AdhocManager → JobRequirements → Expected (Option ℕ)
required_adhoc m reqs = elim reqs.adhoc_storage [
  | none ↦ expected none
  | some storage ↦ elim (Managers.Adhoc.find m storage.id) [
    | expected ptr ↦ expected (some ptr)
    | unexpected ec ↦ if is_success ec then expected none else unexpected ec
  ]
]

-- The fields that `register_job` writes to Redis.
job_fields : ℕ → ℕ → AdhocStorage → AdhocMetadata → List (Bytes × FieldValue)
job_fields now job_id storage adhoc =
    (codes "timestamp", number now)
    ∷ (codes "job_id", number job_id)
    ∷ (codes "AdhocID", number storage.id)
    ∷ (codes "AdhocUUID", text adhoc.uuid)
    ∷ (codes "AdhocName", text adhoc.adhoc_storage.name)
    ∷ (codes "Type", adhoc_type adhoc.adhoc_storage.type)
    ∷ (codes "Deployed", text (codes "No"))
    ∷ (codes "StartTime", text [])
    ∷ (codes "EndTime", text [])
    ∷ (codes "Policies", text [])
    ∷ []

-- `m_adhoc_manager.find(adhoc_id)` and what its result points to.
unfoldable pub adhoc_at : AdhocManager → ℕ → Option AdhocMetadata
adhoc_at m id = elim (Managers.Adhoc.find m id) [
  | unexpected ec ↦ none
  | expected ptr ↦ deref m.objects ptr
]

-- What `remove_job` does with the adhoc storage of the job that it has removed.
unfoldable pub release : AdhocManager → Option JobMetadata → Outcome (AdhocManager × ErrorCode)
release m none = faults null_dereference
release m (some job) = elim job.requirements [
  | none ↦ faults null_dereference
  | some reqs ↦ elim reqs.adhoc_storage [
    | none ↦ responds (m, success)
    | some storage ↦ responds (Managers.Adhoc.remove_client_info m storage.id)
  ]
]

module _ {H F : Type 0} where
  unfoldable pub query : Server H F → Bytes → ℕ → Server H F × Outcome (Response JobInfo)
  unfolding job_info_of start_rpc answer
  query s from slurm_id =
      let (rpc, s1) = start_rpc s (codes "ADM_query") from in
      elim (Managers.Job.find_by_slurm_id s.job_manager slurm_id) [
        | unexpected ec ↦ (s1, responds (answer rpc.id (unexpected ec)))
        | expected ptr ↦ (
          s1,
          elim (job_info_of (deref s.job_manager.objects ptr) (deref s.adhoc_manager.objects)) [
            | responds rv ↦ responds (answer rpc.id rv)
            | faults fault ↦ faults fault
          ],
        )
      ]

  -- The write to Redis in `register_job`, under `if(m_redis and job_id)`.
  record_job : Server H F → ℕ → ℕ → JobRequirements → ℕ → Outcome (Server H F)
  unfolding hmset job_fields adhoc_at
  record_job s now slurm_id reqs job_id = elim s.redis [
    | none ↦ responds s
    | some log ↦ elim reqs.adhoc_storage [
      | none ↦ faults null_dereference
      | some storage ↦ elim (adhoc_at s.adhoc_manager storage.id) [
        | none ↦ faults null_dereference
        | some adhoc ↦ responds (hmset s slurm_id (job_fields now job_id storage adhoc))
      ]
    ]
  ]

  -- `if(adhoc_metadata_ptr) adhoc_metadata_ptr->add_client_info(…)`, whose answer is dropped.
  unfoldable pub attach : Server H F → Option ℕ → ℕ → Server H F
  attach s none job_ptr = s
  attach s (some ptr) job_ptr = record s {
    adhoc_manager = (Managers.Adhoc.add_client_at s.adhoc_manager ptr job_ptr).0;
  }

  -- The rest of `register_job` once the job is created.
  finish_job :
      Server H F
      → ℕ
      → ℕ
      → ℕ
      → JobRequirements
      → Option JobMetadata
      → Server H F × Outcome (Response ℕ)
  unfolding record_job answer
  finish_job s op_id now slurm_id reqs none = (s, faults null_dereference)
  finish_job s op_id now slurm_id reqs (some job) =
      elim (record_job s now slurm_id reqs job.job.id) [
        | responds s' ↦ (s', responds (answer op_id (expected job.job.id)))
        | faults fault ↦ (s, faults fault)
      ]

  -- `now` is the clock's time.
  unfoldable pub register_job :
      Server H F
      → Bytes
      → ℕ
      → JobResources
      → JobRequirements
      → ℕ
      → Server H F × Outcome (Response ℕ)
  unfolding required_adhoc attach finish_job start_rpc answer
  register_job s from now res reqs slurm_id =
      let (rpc, s1) = start_rpc s (codes "ADM_register_job") from in
      elim (required_adhoc s.adhoc_manager reqs) [
        | unexpected ec ↦ (s1, responds (answer rpc.id (unexpected ec)))
        | expected adhoc_ptr ↦
            (let (jobs, created) = Managers.Job.create s.job_manager slurm_id res reqs adhoc_ptr in
              let s2 = record s1 { job_manager = jobs } in
              elim created [
                | unexpected ec ↦ (s2, responds (answer rpc.id (unexpected ec)))
                | expected ptr ↦
                    finish_job (attach s2 adhoc_ptr ptr) rpc.id now slurm_id reqs
                      (deref jobs.objects ptr)
              ])
      ]

  unfoldable pub update_job :
      Server H F → Bytes → ℕ → JobResources → Server H F × Outcome GenericResponse
  unfolding start_rpc
  update_job s from job_id new_resources =
      let (rpc, s1) = start_rpc s (codes "ADM_update_job") from in
      let (jobs, ec) = Managers.Job.update s.job_manager job_id new_resources in
      (record s1 { job_manager = jobs }, responds (record { op_id = rpc.id; error_code = ec }))

  unfoldable pub remove_job : Server H F → Bytes → ℕ → Server H F × Outcome GenericResponse
  unfolding release start_rpc
  remove_job s from job_id =
      let (rpc, s1) = start_rpc s (codes "ADM_remove_job") from in
      let (jobs, removed) = Managers.Job.remove s.job_manager job_id in
      let s2 = record s1 { job_manager = jobs } in
      elim removed [
        | unexpected ec ↦ (s2, responds (record { op_id = rpc.id; error_code = ec }))
        | expected ptr ↦ elim (release s.adhoc_manager (deref jobs.objects ptr)) [
          | faults fault ↦ (s2, faults fault)
          | responds (adhocs, ec) ↦ (
            record s2 { adhoc_manager = adhocs },
            responds (record { op_id = rpc.id; error_code = ec }),
          )
        ]
      ]
