-- ===== src/Server/Removal.antt =====
-- What `remove_job` does and answers, and what becomes of a storage that two jobs require.
use mathlib.Core.Option
use io_scheduler.Prelude.{
  ℕ, ◌≡◌, refl, Option, none, some, arith, nat_key, ◌==◌, if◌then◌else◌, inl, inr, Option-cases,
}
use io_scheduler.Prelude.Map
use io_scheduler.Types.{
  Bytes, ErrorCode, success, no_such_entity, AdhocStorage, JobResources, JobRequirements, expected,
}
use io_scheduler.Metadata
use io_scheduler.Metadata.{JobMetadata, AdhocMetadata}
use io_scheduler.Network
use io_scheduler.Managers
use io_scheduler.Managers.Job.View.{created, view-remove, view-free, view-pointer}
use io_scheduler.Managers.Adhoc.View.{view, view-remove_client_info}
use io_scheduler.Managers.Adhoc.Clients.{claim}
use io_scheduler.Server.{Server, responds}
use io_scheduler.Server.Jobs.{remove_job, register_job, required_adhoc}
use io_scheduler.Server.Consistency.Removal
use io_scheduler.Server.Consistency.Handlers.{
  Consistent, HasRoom, register_job-Consistent, managers-remove_job,
}
use io_scheduler.Server.Registration.{register_job_met}

-- Without a client.
abbrev pub freed : AdhocMetadata → AdhocMetadata
freed a = record a { client_info = none }

-- The storages once a job that required one, or none, has given it back.
pub given_back : Option AdhocStorage → ℕ → Option AdhocMetadata → Option AdhocMetadata
given_back none i a = a
given_back (some st) i a = if st.id == i then Option.map freed a else a

-- The answer to the removal of a job that required a storage, from that storage's metadata.
pub removal_verdict : Option AdhocStorage → (ℕ → Option AdhocMetadata) → ErrorCode
removal_verdict none storages = success
removal_verdict (some st) storages = elim (storages st.id) [
  | none ↦ no_such_entity
  | some a ↦ success
]

module _ {H F : Type 0} (s : Server H F) (c : Consistent s) (from : Bytes) (id : ℕ) where
  -- In a consistent state: the removal of an unknown job answers `no_such_entity`, and nothing but
  -- the counter of calls changes.
  pub remove_job_unknown :
      Managers.Job.View.view s.job_manager id ≡ none
      → remove_job s from id ≡ (
        record s { rpc_counter = (Network.new_id s.rpc_counter).1 },
        responds (record { op_id = s.rpc_counter; error_code = no_such_entity }),
      )
  unfolding remove_job Managers.Job.remove Managers.Job.View.view
  remove_job_unknown e = elim (Option-cases (Map.find id s.job_manager.jobs)) [
    | inl x ↦ ground arith
    | inr (p, x) ↦ (let (o, d, n) = c.jobs_valid.backed id p x in absurd (ground arith))
  ]

  answer-remove_job :
      (o : JobMetadata) (reqs : JobRequirements)
      → Managers.Job.View.view s.job_manager id ≡ some o
      → o.requirements ≡ some reqs
      → (remove_job s from id).1
        ≡ responds (record {
          op_id = s.rpc_counter;
          error_code = removal_verdict reqs.adhoc_storage (view s.adhoc_manager);
        })
  unfolding remove_job Managers.Job.remove Managers.Adhoc.remove_client_info removal_verdict
  answer-remove_job o reqs e h =
      let (p, x, d) = view-pointer s.job_manager id o e in
      elim (Option-cases reqs.adhoc_storage) [
        | inl none_required ↦ ground arith
        | inr (st, required) ↦ elim (Option-cases (Map.find st.id s.adhoc_manager.adhoc_storages)) [
          | inl missing ↦ unfold view in ground arith
          | inr (q, there) ↦
              (let (a, at, n) = c.adhocs_valid.backed st.id q there in unfold view in ground arith)
        ]
      ]

  view-released :
      (x : Option AdhocStorage) (i : ℕ)
      → view (Removal.released s.adhoc_manager x) i ≡ given_back x i (view s.adhoc_manager i)
  unfolding Removal.released given_back Metadata.Adhoc.remove_client_info
  view-released none i = refl
  view-released (some st) i = view-remove_client_info s.adhoc_manager c.adhocs_valid st.id i

  -- In a consistent state: the removal of a registered job answers success, or `no_such_entity` if
  -- the storage that the job required is no longer registered; either way the job is gone, every
  -- other job is as before, and that storage, if any, has no client, whichever job was its client
  -- before, while every other storage is as before.
  pub remove_job_known :
      (o : JobMetadata) (reqs : JobRequirements) (j i : ℕ)
      → Managers.Job.View.view s.job_manager id ≡ some o
      → o.requirements ≡ some reqs
      → ((remove_job s from id).1
          ≡ responds (record {
            op_id = s.rpc_counter;
            error_code = removal_verdict reqs.adhoc_storage (view s.adhoc_manager);
          }))
        × (Managers.Job.View.view (remove_job s from id).0.job_manager j
            ≡ (if id == j then none else Managers.Job.View.view s.job_manager j))
        × (view (remove_job s from id).0.adhoc_manager i
            ≡ given_back reqs.adhoc_storage i (view s.adhoc_manager i))
  remove_job_known o reqs j i e h =
      let (p, x, d) = view-pointer s.job_manager id o e in
      let (jobs, adhocs) = managers-remove_job s c from id p o reqs x d h in
      (
        answer-remove_job o reqs e h,
        rw jobs (view-remove s.job_manager id j),
        rw adhocs (view-released reqs.adhoc_storage i),
      )

module _ {H F : Type 0} (s : Server H F) (c : Consistent s) (room : HasRoom s) where
  -- In a consistent state in which neither jobs nor adhoc storages have run out of numbers: a job
  -- is registered that requires a registered adhoc storage, and is removed again (without Redis).
  -- Then the jobs are as they were, and every storage but the required one; that one has no
  -- client, also if another job was its client before.
  pub register_job-remove_job :
      (from from' : Bytes) (now : ℕ) (res : JobResources) (reqs : JobRequirements) (slurm_id : ℕ)
      (st : AdhocStorage) (a : AdhocMetadata) (j i : ℕ)
      → s.redis ≡ none
      → reqs.adhoc_storage ≡ some st
      → view s.adhoc_manager st.id ≡ some a
      → (let s' =
            (remove_job
              (register_job s from now res reqs slurm_id).0
              from'
              s.job_manager.current_id).0 in
          (Managers.Job.View.view s'.job_manager j ≡ Managers.Job.View.view s.job_manager j)
          × (view s'.adhoc_manager i
              ≡ (if st.id == i then some (freed a) else view s.adhoc_manager i)))
  register_job-remove_job from from' now res reqs slurm_id st a j i r x e =
      let s1 = (register_job s from now res reqs slurm_id).0 in
      let ptr : Option ℕ = Map.find st.id s.adhoc_manager.adhoc_storages in
      let id = s.job_manager.current_id in
      let job = created s.job_manager slurm_id res reqs ptr in
      let found : required_adhoc s.adhoc_manager reqs ≡ expected ptr =
        unfold required_adhoc Managers.Adhoc.find view in ground arith in
      let (answered, jobs, adhocs) =
        register_job_met s c room from now res reqs slurm_id ptr j i r found in
      let (answered', new, adhocs') =
        register_job_met s c room from now res reqs slurm_id ptr id i r found in
      let (removed, jobs', adhocs'') =
        remove_job_known s1 (register_job-Consistent s c room from now res reqs slurm_id) from' id
          job reqs j i (ground (arith, new)) (unfold Metadata.Job.make in refl) in
      (
        ground (arith, jobs, jobs', view-free s.job_manager c.jobs_valid),
        unfold given_back claim in ground (arith, adhocs, adhocs''),
      )
