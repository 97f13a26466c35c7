-- ===== src/Client/Daemon/RoundTrip.antt =====
-- What a user of src/lib/libscord.cpp sees of a daemon.
use io_scheduler.Prelude.{
  ℕ, ◌≡◌, refl, ◌∙◌, ap, Bool, true, false, none, some, arith, length, deref-alloc, deref-modify,
  ◌%◌, ◌^◌, nat_key, deref,
}
use io_scheduler.Prelude.Map
use io_scheduler.Types.{
  Bytes, no_such_entity, expected, unexpected, AdhocStorage, JobResources, JobRequirements,
}
use io_scheduler.Metadata
use io_scheduler.Metadata.{JobMetadata, AdhocMetadata}
use io_scheduler.Client
use io_scheduler.Client.{Connection, Ended, returns, terminates}
use io_scheduler.Client.Api
use io_scheduler.Client.Api.{Reply, gives, throws, aborts}
use io_scheduler.Client.Daemon.{daemon}
use io_scheduler.Managers
use io_scheduler.Managers.Job.Index.{find_by_slurm_id-create}
use io_scheduler.Managers.Job.View.{created, create_lem}
use io_scheduler.Managers.Adhoc.View.{view, view-pointer, with_client}
use io_scheduler.Server.{Server}
use io_scheduler.Server.Jobs
use io_scheduler.Server.Jobs.{answer, required_adhoc}
use io_scheduler.Server.Requests.{World}
use io_scheduler.Server.Consistency.Handlers.{
  Consistent, HasRoom, attached, managers-register_job, register_job-Consistent,
}
use io_scheduler.Server.Registration.{register_job_met}
use io_scheduler.Server.Queries.{query_known, query_unknown, info}

module _ {H F : Type 0} (w : World H F) (from : Bytes) (now : ℕ) (random : Bytes) (s : Server H F)
    (c : Consistent s) where
  -- In a consistent state a client asks the daemon for a Slurm number that is not in the index: where the
  -- client has a default logger, reading the answer terminates the client's process; where it has none,
  -- `query` returns `no_such_entity`.
  pub query_unknown_logged :
      (slurm_id : ℕ)
      → Map.find slurm_id s.job_manager.slurm_to_scord ≡ none
      → ((Client.query (daemon w from now random) true slurm_id s).1 ≡ terminates)
        × ((Client.query (daemon w from now random) false slurm_id s).1
            ≡ returns (unexpected no_such_entity))
  unfolding Client.query answer
  query_unknown_logged slurm_id free =
      let e = query_unknown s c from slurm_id free in (ground (arith, e), ground (arith, e))

  -- The index and the objects after the registration.
  found :
      (slurm_id : ℕ) (res : JobResources) (reqs : JobRequirements) (ptr : ℕ)
      → HasRoom s
      → Map.find slurm_id s.job_manager.slurm_to_scord ≡ none
      → required_adhoc s.adhoc_manager reqs ≡ expected (some ptr)
      → (let jobs = (Jobs.register_job s from now res reqs slurm_id).0.job_manager in
          (Managers.Job.find_by_slurm_id jobs slurm_id ≡ expected (length s.job_manager.objects))
          × (deref jobs.objects (length s.job_manager.objects)
              ≡ some (created s.job_manager slurm_id res reqs (some ptr))))
  found slurm_id res reqs ptr room free e =
      let (jobs, _) = managers-register_job s c room from now res reqs slurm_id (some ptr) e in
      let made_it = create_lem s.job_manager slurm_id res reqs (some ptr) c.jobs_valid in
      let (index, _) =
        find_by_slurm_id-create s.job_manager c.jobs_valid slurm_id res reqs (some ptr) free in
      let job = created s.job_manager slurm_id res reqs (some ptr) in
      let there = deref-alloc s.job_manager.objects job (length s.job_manager.objects) in
      (
        rw (jobs, ← ap (λ r. r.0) made_it) (index ∙ ap (λ r. r.1) made_it),
        rw jobs (there ∙ ground arith),
      )

  -- The storage that a registration claims keeps what `query` reads.
  claimed_info :
      (res : JobResources) (job_ptr : ℕ) (a : AdhocMetadata)
      → info res (with_client job_ptr a) ≡ info res a
  unfolding info Metadata.Adhoc.add_client_info
  claimed_info res job_ptr a = ground arith

  claimed_there :
      (slurm_id : ℕ) (res : JobResources) (reqs : JobRequirements) (ptr : ℕ) (a : AdhocMetadata)
      → HasRoom s
      → required_adhoc s.adhoc_manager reqs ≡ expected (some ptr)
      → deref s.adhoc_manager.objects ptr ≡ some a
      → deref (Jobs.register_job s from now res reqs slurm_id).0.adhoc_manager.objects ptr
        ≡ some (with_client (length s.job_manager.objects) a)
  unfolding attached Managers.Adhoc.add_client_at
  claimed_there slurm_id res reqs ptr a room e d =
      let (_, adhocs) = managers-register_job s c room from now res reqs slurm_id (some ptr) e in
      let claims =
        deref-modify s.adhoc_manager.objects ptr (with_client (length s.job_manager.objects)) ptr in
      rw adhocs (ground (arith, claims, d))

  -- In a consistent state with room for numbers, without Redis, where a Slurm number is new and the
  -- adhoc storage that a job requires is registered with metadata `a`: `register_job` of the library
  -- gives the job with the daemon's next number, and in the state that it leaves `query` of the Slurm
  -- number gives the controller's address and the uuid that are in `a`, and the number of the job's
  -- nodes, with or without a logger.
  pub register_job-query :
      (logging : Bool) (res : JobResources) (reqs : JobRequirements) (slurm_id : ℕ)
      (storage : AdhocStorage) (a : AdhocMetadata)
      → HasRoom s
      → s.redis ≡ none
      → Map.find slurm_id s.job_manager.slurm_to_scord ≡ none
      → reqs.adhoc_storage ≡ some storage
      → view s.adhoc_manager storage.id ≡ some a
      → (let d = daemon w from now random in
          let registered = Api.register_job d logging res reqs slurm_id s in
          (registered.1 ≡ gives (record { id = s.job_manager.current_id; slurm_id = slurm_id }))
          × ((Api.query d logging slurm_id registered.0).1
              ≡ gives (record {
                adhoc_controller_address = a.adhoc_storage.context.controller_address;
                uuid = a.uuid;
                io_procs = length res.nodes % 2 ^ 32;
              })))
  unfolding Api.register_job Api.query Client.register_job Client.query answer Metadata.Job.make
      required_adhoc Managers.Adhoc.find info
  register_job-query logging res reqs slurm_id storage a room r free x known =
      let (ptr, at, d) = view-pointer s.adhoc_manager storage.id a known in
      let e : required_adhoc s.adhoc_manager reqs ≡ expected (some ptr) = ground arith in
      let (resp, _, _) = register_job_met s c room from now res reqs slurm_id (some ptr) 0 0 r e in
      let s' = (Jobs.register_job s from now res reqs slurm_id).0 in
      let (q, b, leads, there, named, answered) =
        query_known s' (register_job-Consistent s c room from now res reqs slurm_id) from slurm_id
          (length s.job_manager.objects) (created s.job_manager slurm_id res reqs (some ptr)) res
          reqs storage (found slurm_id res reqs ptr room free e).0
          (found slurm_id res reqs ptr room free e).1 refl refl x in
      let same : ptr ≡ q = ground (arith, leads) in
      let claims = claimed_there slurm_id res reqs ptr a room e d in
      let b_is : b ≡ with_client (length s.job_manager.objects) a =
        ground (arith, same, there, claims) in
      let told : info res b ≡ info res a =
        ap (info res) b_is ∙ claimed_info res (length s.job_manager.objects) a in
      (ground (arith, resp), ground (arith, answered, told))
