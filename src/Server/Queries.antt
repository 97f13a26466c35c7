-- ===== src/Server/Queries.antt =====
-- What `query` answers, job by job.
use io_scheduler.Prelude.{ℕ, ◌%◌, ◌^◌, ◌≡◌, none, some, arith, deref, length, nat_key}
use io_scheduler.Prelude.Map
use io_scheduler.Types.{
  Bytes, AdhocStorage, JobInfo, JobResources, JobRequirements, expected, unexpected, no_such_entity,
}
use io_scheduler.Metadata.{JobMetadata, AdhocMetadata}
use io_scheduler.Managers
use io_scheduler.Managers.Job.Index.{find_by_slurm_id_sound}
use io_scheduler.Server.{Server, responds, faults, null_dereference}
use io_scheduler.Server.Jobs.{query, answer}
use io_scheduler.Server.Consistency.{Linked}
use io_scheduler.Server.Consistency.Links.{Linked-required, Linked-none, link_of}
use io_scheduler.Server.Consistency.Handlers.{Consistent}

-- What a client is told of a job that has resources `res` and uses the storage `a`.
unfoldable pub info : JobResources → AdhocMetadata → JobInfo
info res a = record {
  adhoc_controller_address = a.adhoc_storage.context.controller_address;
  uuid = a.uuid;
  io_procs = length res.nodes % 2 ^ 32;
}

module _ {H F : Type 0} (s : Server H F) (c : Consistent s) (from : Bytes) (slurm_id : ℕ) where
  -- In a consistent state: for a Slurm number that is not in the index `query` responds with
  -- `no_such_entity`.
  pub query_unknown :
      Map.find slurm_id s.job_manager.slurm_to_scord ≡ none
      → (query s from slurm_id).1 ≡ responds (answer s.rpc_counter (unexpected no_such_entity))
  unfolding query Managers.Job.find_by_slurm_id
  query_unknown e = ground arith

  -- The link of the job that a search by the Slurm number finds.
  link :
      (p : ℕ) (o : JobMetadata) (reqs : JobRequirements)
      → Managers.Job.find_by_slurm_id s.job_manager slurm_id ≡ expected p
      → deref s.job_manager.objects p ≡ some o
      → o.requirements ≡ some reqs
      → Linked s.adhoc_manager reqs.adhoc_storage o.adhoc_metadata_ptr
  link p o reqs e d h =
      let (o', d', n, at) = find_by_slurm_id_sound s.job_manager c.jobs_valid slurm_id p e in
      let same : o' ≡ o = ground arith in link_of c o.job.id o reqs (rw same at at) h

  -- In a consistent state: for a Slurm number that the index leads to a job which has resources
  -- and requires an adhoc storage, the job's pointer leads to the metadata of the storage of that
  -- number; `query` responds with success and the controller's address and the uuid in it, and the
  -- number of the job's nodes as a 32-bit integer.
  pub query_known :
      (p : ℕ) (o : JobMetadata) (res : JobResources) (reqs : JobRequirements) (st : AdhocStorage)
      → Managers.Job.find_by_slurm_id s.job_manager slurm_id ≡ expected p
      → deref s.job_manager.objects p ≡ some o
      → o.resources ≡ some res
      → o.requirements ≡ some reqs
      → reqs.adhoc_storage ≡ some st
      → (q : ℕ) × (a : AdhocMetadata) × (o.adhoc_metadata_ptr ≡ some q)
        × (deref s.adhoc_manager.objects q ≡ some a)
        × (a.adhoc_storage.id ≡ st.id)
        × ((query s from slurm_id).1 ≡ responds (answer s.rpc_counter (expected (info res a))))
  unfolding query info
  query_known p o res reqs st e d r h x =
      let (q, a, y, at, n) = Linked-required st (link p o reqs e d h) x in
      (q, a, y, at, n, ground arith)

  -- In a consistent state: for a Slurm number that the index leads to a job which has resources
  -- and requires no adhoc storage, `query` uses a null pointer.
  pub query_without_adhoc :
      (p : ℕ) (o : JobMetadata) (res : JobResources) (reqs : JobRequirements)
      → Managers.Job.find_by_slurm_id s.job_manager slurm_id ≡ expected p
      → deref s.job_manager.objects p ≡ some o
      → o.resources ≡ some res
      → o.requirements ≡ some reqs
      → reqs.adhoc_storage ≡ none
      → (query s from slurm_id).1 ≡ faults null_dereference
  unfolding query
  query_without_adhoc p o res reqs e d r h x =
      let null = Linked-none (link p o reqs e d h) x in ground arith
