-- ===== src/Server/Registration.antt =====
-- What `register_job` does and answers, on each of its paths.
use mathlib.Core.Option
use io_scheduler.Prelude.{
  ℕ, ◌≡◌, Option, none, some, List, arith, deref-alloc, deref-modify, [], ◌∷◌, ◌++◌, length, inl,
  inr, Option-cases, nat_key, ◌==◌, if◌then◌else◌,
}
use io_scheduler.Prelude.Bytes.{codes}
use io_scheduler.Prelude.Map
use io_scheduler.Types.{
  Bytes, AdhocStorage, JobResources, JobRequirements, expected, unexpected, no_such_entity,
}
use io_scheduler.Metadata
use io_scheduler.Metadata.{JobMetadata, AdhocMetadata}
use io_scheduler.Network.{Response}
use io_scheduler.Network
use io_scheduler.Managers
use io_scheduler.Managers.Job.View.{created, registered, create_lem, view-registered}
use io_scheduler.Managers.Adhoc.View.{view, view-pointer, with_client}
use io_scheduler.Managers.Adhoc.Clients.{claim, view-claim}
use io_scheduler.Server.{
  text, number, adhoc_type, Server, RedisCommand, responds, faults, null_dereference,
}
use io_scheduler.Server.Jobs.{register_job, required_adhoc, answer}
use io_scheduler.Server.Consistency.Handlers.{Consistent, HasRoom, managers-register_job, attached}

-- The storages of the server once a job that asks for `reqs` is registered: if it requires one, it
-- claims that one.
abbrev pub claimed : Option AdhocStorage → ℕ → ℕ → Option AdhocMetadata → Option AdhocMetadata
claimed none job_ptr i a = a
claimed (some st) job_ptr i a = if st.id == i then Option.map (claim job_ptr) a else a

-- What Redis is told under the Slurm number of a job that requires the storage `a`.
pub registered_at : ℕ → ℕ → ℕ → AdhocMetadata → RedisCommand
registered_at now slurm_id job_id a = record {
  key = slurm_id;
  fields =
      (codes "timestamp", number now)
      ∷ (codes "job_id", number job_id)
      ∷ (codes "AdhocID", number a.adhoc_storage.id)
      ∷ (codes "AdhocUUID", text a.uuid)
      ∷ (codes "AdhocName", text a.adhoc_storage.name)
      ∷ (codes "Type", adhoc_type a.adhoc_storage.type)
      ∷ (codes "Deployed", text (codes "No"))
      ∷ (codes "StartTime", text [])
      ∷ (codes "EndTime", text [])
      ∷ (codes "Policies", text [])
      ∷ [];
}

module _ {H F : Type 0} (s : Server H F) (c : Consistent s) (room : HasRoom s) (from : Bytes)
    (now : ℕ) (res : JobResources) (reqs : JobRequirements) (slurm_id : ℕ) where
  -- In a consistent state in which neither jobs nor adhoc storages have run out of numbers: if the
  -- adhoc storage that the job requires is not registered, the response is `no_such_entity`, and
  -- nothing but the counter of calls changes.
  pub register_job_unknown_adhoc :
      (st : AdhocStorage)
      → reqs.adhoc_storage ≡ some st
      → Map.find st.id s.adhoc_manager.adhoc_storages ≡ none
      → register_job s from now res reqs slurm_id ≡ (
        record s { rpc_counter = (Network.new_id s.rpc_counter).1 },
        responds (answer s.rpc_counter (unexpected no_such_entity)),
      )
  unfolding register_job Managers.Adhoc.find
  register_job_unknown_adhoc st x e = ground arith

  -- The adhoc storages after a job whose requirements can be met.
  view-attached :
      (ptr : Option ℕ) (i : ℕ)
      → required_adhoc s.adhoc_manager reqs ≡ expected ptr
      → view (attached s.adhoc_manager ptr (length s.job_manager.objects)) i
        ≡ claimed reqs.adhoc_storage (length s.job_manager.objects) i (view s.adhoc_manager i)
  unfolding attached required_adhoc Managers.Adhoc.find
  view-attached ptr i e = elim (Option-cases reqs.adhoc_storage) [
    | inl x ↦ (let none_too : ptr ≡ none = ground arith in rw (x, none_too))
    | inr (st, x) ↦ elim (Option-cases (Map.find st.id s.adhoc_manager.adhoc_storages)) [
      | inl x' ↦ absurd (ground arith)
      | inr (q, x') ↦
          (let found : ptr ≡ some q = ground arith in
            rw (x, found)
              (view-claim s.adhoc_manager c.adhocs_valid st.id q (length s.job_manager.objects) i
                x'))
    ]
  ]

  response :
      (ptr : Option ℕ)
      → s.redis ≡ none
      → required_adhoc s.adhoc_manager reqs ≡ expected ptr
      → (register_job s from now res reqs slurm_id).1
        ≡ responds (answer s.rpc_counter (expected s.job_manager.current_id))
  unfolding register_job Metadata.Job.make
  response ptr r e =
      let made_it = create_lem s.job_manager slurm_id res reqs ptr c.jobs_valid in
      let job = created s.job_manager slurm_id res reqs ptr in
      let there = deref-alloc s.job_manager.objects job (length s.job_manager.objects) in
      elim (Option-cases ptr) [
        | inl x ↦ ground (arith, made_it, there)
        | inr (q, x) ↦ ground (arith, made_it, there)
      ]

  -- In a consistent state in which neither jobs nor adhoc storages have run out of numbers: if the
  -- requirements can be met and Redis is not connected, the response is success with the next job
  -- number; the job manager then holds the job as given under that number, and every other job as
  -- before; and the required storage, if any, has the job as its client if it had none, while
  -- every other storage is as before.
  pub register_job_met :
      (ptr : Option ℕ) (j i : ℕ)
      → s.redis ≡ none
      → required_adhoc s.adhoc_manager reqs ≡ expected ptr
      → ((register_job s from now res reqs slurm_id).1
          ≡ responds (answer s.rpc_counter (expected s.job_manager.current_id)))
        × (Managers.Job.View.view (register_job s from now res reqs slurm_id).0.job_manager j ≡ (
            if s.job_manager.current_id == j
            then some (created s.job_manager slurm_id res reqs ptr)
            else Managers.Job.View.view s.job_manager j))
        × (view (register_job s from now res reqs slurm_id).0.adhoc_manager i
            ≡ claimed reqs.adhoc_storage (length s.job_manager.objects) i (view s.adhoc_manager i))
  register_job_met ptr j i r e =
      let (jobs, adhocs) = managers-register_job s c room from now res reqs slurm_id ptr e in
      (
        response ptr r e,
        rw jobs (view-registered s.job_manager slurm_id res reqs ptr c.jobs_valid j),
        rw adhocs (view-attached ptr i e),
      )

  -- In a consistent state in which neither jobs nor adhoc storages have run out of numbers: if
  -- Redis is connected and the job requires no adhoc storage, `register_job` uses an empty
  -- optional; by then the job is registered under the next number.
  pub register_job_redis_without_adhoc :
      (log : List RedisCommand)
      → s.redis ≡ some log
      → reqs.adhoc_storage ≡ none
      → ((register_job s from now res reqs slurm_id).1 ≡ faults null_dereference)
        × (Managers.Job.View.view
              (register_job s from now res reqs slurm_id).0.job_manager
              s.job_manager.current_id
            ≡ some (created s.job_manager slurm_id res reqs none))
  unfolding register_job
  register_job_redis_without_adhoc log r x =
      let met : required_adhoc s.adhoc_manager reqs ≡ expected none = ground arith in
      let (jobs, adhocs) = managers-register_job s c room from now res reqs slurm_id none met in
      let made_it = create_lem s.job_manager slurm_id res reqs none c.jobs_valid in
      let job = created s.job_manager slurm_id res reqs none in
      let there = deref-alloc s.job_manager.objects job (length s.job_manager.objects) in
      (
        ground (arith, made_it, there),
        rw jobs (
            ground (
              arith,
              view-registered s.job_manager slurm_id res reqs none c.jobs_valid
                  s.job_manager.current_id,
            )),
      )

  -- In a consistent state in which neither jobs nor adhoc storages have run out of numbers: if
  -- Redis is connected and the required adhoc storage is registered, the response is success with
  -- the next job number, and Redis is told of job and storage under the Slurm number, not under
  -- that job number.
  pub register_job_recorded :
      (log : List RedisCommand) (st : AdhocStorage) (a : AdhocMetadata)
      → s.redis ≡ some log
      → reqs.adhoc_storage ≡ some st
      → view s.adhoc_manager st.id ≡ some a
      → ((register_job s from now res reqs slurm_id).1
          ≡ responds (answer s.rpc_counter (expected s.job_manager.current_id)))
        × ((register_job s from now res reqs slurm_id).0.redis
            ≡ some (log ++ registered_at now slurm_id s.job_manager.current_id a ∷ []))
  unfolding register_job registered_at Managers.Adhoc.find Managers.Adhoc.add_client_at
      Metadata.Adhoc.add_client_info Metadata.Job.make
  register_job_recorded log st a r x known =
      let (q, e, d) = view-pointer s.adhoc_manager st.id a known in
      let (b, d', n) = c.adhocs_valid.backed st.id q e in
      let made_it = create_lem s.job_manager slurm_id res reqs (some q) c.jobs_valid in
      let job = created s.job_manager slurm_id res reqs (some q) in
      let there = deref-alloc s.job_manager.objects job (length s.job_manager.objects) in
      let claims =
        deref-modify s.adhoc_manager.objects q (with_client (length s.job_manager.objects)) q in
      (ground (arith, made_it, there, claims), ground (arith, made_it, there, claims))
