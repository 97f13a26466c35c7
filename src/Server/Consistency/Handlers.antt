-- ===== src/Server/Consistency/Handlers.antt =====
-- Each handler that reads or writes jobs and adhoc storages keeps their tables consistent.
use io_scheduler.Prelude.{
  ℕ, ◌+◌, ◌<◌, ◌^◌, ◌≡◌, refl, Option, none, some, arith, deref, length, nat_key, ◌⊎◌, inl, inr,
  Option-cases,
}
use io_scheduler.Prelude.Map
use io_scheduler.Types.{
  Bytes, ErrorCode, Expected, expected, unexpected, JobResources, JobRequirements, AdhocType,
  AdhocContext, AdhocResources,
}
use io_scheduler.Metadata.{JobMetadata, AdhocMetadata}
use io_scheduler.Managers
use io_scheduler.Managers.Job.View.{registered, create_lem}
use io_scheduler.Managers.{JobManager, AdhocManager}
use io_scheduler.Server.{Server, Remote}
use io_scheduler.Server.Jobs.{register_job, update_job, remove_job, required_adhoc, adhoc_at}
use io_scheduler.Server.Adhocs.{
  register_adhoc_storage, update_adhoc_storage, remove_adhoc_storage, deploy_adhoc_storage,
  terminate_adhoc_storage,
}
use io_scheduler.Server.Consistency.{Linked, unlinked, linked, IsConsistent}
use io_scheduler.Server.Consistency.Adhocs
use io_scheduler.Server.Consistency.Jobs
use io_scheduler.Server.Consistency.Removal

module _ {H F : Type 0} where
  abbrev pub Consistent : Server H F → Type 0
  Consistent s = IsConsistent s.job_manager s.adhoc_manager

  -- Neither manager has given out all its numbers.
  abbrev pub HasRoom : Server H F → Type 0
  HasRoom s = (s.job_manager.current_id + 1 < 2 ^ 64) × (s.adhoc_manager.current_id + 1 < 2 ^ 64)

required_adhoc-Linked :
    (m : AdhocManager)
    → Managers.Adhoc.View.IsValid m
    → (reqs : JobRequirements) (ptr : Option ℕ) → required_adhoc m reqs ≡ expected ptr
    → Linked m reqs.adhoc_storage ptr
unfolding required_adhoc Managers.Adhoc.find
required_adhoc-Linked m v reqs ptr h = elim (Option-cases reqs.adhoc_storage) [
  | inl e ↦ (let none_too : ptr ≡ none = ground arith in rw (e, none_too) unlinked)
  | inr (st, e) ↦ elim (Option-cases (Map.find st.id m.adhoc_storages)) [
    | inl e' ↦ absurd (ground arith)
    | inr (q, e') ↦
        (let (a, d, n) = v.backed st.id q e' in
          let found : ptr ≡ some q = ground arith in rw (e, found) (linked st q a d n))
  ]
]

Expected-cases {ℓ} :
    {A : Type ℓ} (r : Expected A)
    → ((a : A) × (r ≡ expected a)) ⊎ ((ec : ErrorCode) × (r ≡ unexpected ec))
Expected-cases (expected a) = inl (a, refl)
Expected-cases (unexpected ec) = inr (ec, refl)

-- What `attach` does to the adhoc storages.
unfoldable pub attached : AdhocManager → Option ℕ → ℕ → AdhocManager
attached m none p = m
attached m (some q) p = (Managers.Adhoc.add_client_at m q p).0

module _ {H F : Type 0} (s : Server H F) (c : Consistent s) where
  module _ (room : HasRoom s) (from : Bytes) (now : ℕ) (res : JobResources) (reqs : JobRequirements)
      (slurm_id : ℕ) where
    abbrev pub made : Option ℕ → JobManager
    made ptr = registered s.job_manager slurm_id res reqs ptr

    pub managers-register_job :
        (ptr : Option ℕ)
        → required_adhoc s.adhoc_manager reqs ≡ expected ptr
        → ((register_job s from now res reqs slurm_id).0.job_manager ≡ made ptr)
          × ((register_job s from now res reqs slurm_id).0.adhoc_manager
              ≡ attached s.adhoc_manager ptr (length s.job_manager.objects))
    unfolding register_job attached
    managers-register_job none e =
        let made_it = create_lem s.job_manager slurm_id res reqs none c.jobs_valid in
        (ground (arith, made_it), ground (arith, made_it))
    managers-register_job (some q) e =
        let made_it = create_lem s.job_manager slurm_id res reqs (some q) c.jobs_valid in
        (ground (arith, made_it), ground (arith, made_it))

    -- The managers after a job whose requirements can be met.
    met-IsConsistent :
        (ptr : Option ℕ)
        → required_adhoc s.adhoc_manager reqs ≡ expected ptr
        → IsConsistent (made ptr) (attached s.adhoc_manager ptr (length s.job_manager.objects))
    unfolding attached
    met-IsConsistent none e =
        Jobs.registered-IsConsistent s.job_manager c room.0 slurm_id res reqs none
          (required_adhoc-Linked s.adhoc_manager c.adhocs_valid reqs none e)
    met-IsConsistent (some q) e =
        Jobs.add_client_at-IsConsistent s.adhoc_manager
          (Jobs.registered-IsConsistent s.job_manager c room.0 slurm_id res reqs (some q)
            (required_adhoc-Linked s.adhoc_manager c.adhocs_valid reqs (some q) e))
          q (length s.job_manager.objects)
          (Jobs.IsClient-created s.job_manager c room.0 slurm_id res reqs (some q) refl)

    pub register_job-Consistent : Consistent (register_job s from now res reqs slurm_id).0
    register_job-Consistent = elim (Expected-cases (required_adhoc s.adhoc_manager reqs)) [
      | inl (ptr, e) ↦
          (let (jobs, adhocs) = managers-register_job ptr e in
            rw (jobs, adhocs) (met-IsConsistent ptr e))
      | inr (ec, e) ↦ unfold register_job in rw (e, register_job) c
    ]

  pub update_job-Consistent :
      (from : Bytes) (id : ℕ) (res : JobResources) → Consistent (update_job s from id res).0
  unfolding update_job
  update_job-Consistent from id res = Jobs.update-IsConsistent s.job_manager c id res

  pub managers-remove_job :
      (from : Bytes) (id p : ℕ) (o : JobMetadata) (reqs : JobRequirements)
      → Map.find id s.job_manager.jobs ≡ some p
      → deref s.job_manager.objects p ≡ some o
      → o.requirements ≡ some reqs
      → ((remove_job s from id).0.job_manager ≡ (Managers.Job.remove s.job_manager id).0)
        × ((remove_job s from id).0.adhoc_manager
            ≡ Removal.released s.adhoc_manager reqs.adhoc_storage)
  unfolding remove_job Managers.Job.remove Removal.released
  managers-remove_job from id p o reqs e d r = (ground arith, ground arith)

  managers-remove_job_unknown :
      (from : Bytes) (id : ℕ)
      → Map.find id s.job_manager.jobs ≡ none
      → ((remove_job s from id).0.job_manager ≡ s.job_manager)
        × ((remove_job s from id).0.adhoc_manager ≡ s.adhoc_manager)
  unfolding remove_job Managers.Job.remove
  managers-remove_job_unknown from id e = (ground arith, ground arith)

  pub remove_job-Consistent : (from : Bytes) (id : ℕ) → Consistent (remove_job s from id).0
  remove_job-Consistent from id = elim (Option-cases (Map.find id s.job_manager.jobs)) [
    | inl e ↦ (let (jobs, adhocs) = managers-remove_job_unknown from id e in rw (jobs, adhocs) c)
    | inr (p, e) ↦
        (let (o, d, n) = c.jobs_valid.backed id p e in
          let l = c.links id o (unfold Managers.Job.View.view in ground arith) in
          let (jobs, adhocs) = managers-remove_job from id p o l.reqs e d l.has_reqs in
          rw (jobs, adhocs) (Removal.remove-IsConsistent c id p o l.reqs e d l.has_reqs))
  ]

  pub register_adhoc_storage-Consistent :
      HasRoom s
      → (from random name : Bytes) (type : AdhocType) (ctx : AdhocContext) (res : AdhocResources)
      → Consistent (register_adhoc_storage s from random name type ctx res).0
  unfolding register_adhoc_storage
  register_adhoc_storage-Consistent room from random name type ctx res =
      Adhocs.create-IsConsistent s.adhoc_manager c room.1 random type name ctx res

  managers-update_adhoc_storage :
      (remote : Remote) (from : Bytes) (id : ℕ) (res : AdhocResources) (a : AdhocMetadata)
      → adhoc_at s.adhoc_manager id ≡ some a
      → ((update_adhoc_storage remote s from id res).0.job_manager ≡ s.job_manager)
        × ((update_adhoc_storage remote s from id res).0.adhoc_manager
            ≡ (Managers.Adhoc.update s.adhoc_manager id res).0)
  unfolding update_adhoc_storage
  managers-update_adhoc_storage remote from id res a e = (ground arith, ground arith)

  managers-update_adhoc_storage_unknown :
      (remote : Remote) (from : Bytes) (id : ℕ) (res : AdhocResources)
      → adhoc_at s.adhoc_manager id ≡ none
      → ((update_adhoc_storage remote s from id res).0.job_manager ≡ s.job_manager)
        × ((update_adhoc_storage remote s from id res).0.adhoc_manager ≡ s.adhoc_manager)
  unfolding update_adhoc_storage
  managers-update_adhoc_storage_unknown remote from id res e = (ground arith, ground arith)

  pub update_adhoc_storage-Consistent :
      (remote : Remote) (from : Bytes) (id : ℕ) (res : AdhocResources)
      → Consistent (update_adhoc_storage remote s from id res).0
  update_adhoc_storage-Consistent remote from id res =
      elim (Option-cases (adhoc_at s.adhoc_manager id)) [
        | inl e ↦
            (let (jobs, adhocs) = managers-update_adhoc_storage_unknown remote from id res e in
              rw (jobs, adhocs) c)
        | inr (a, e) ↦
            (let (jobs, adhocs) = managers-update_adhoc_storage remote from id res a e in
              rw (jobs, adhocs) (Adhocs.update-IsConsistent s.adhoc_manager c id res))
      ]

  pub remove_adhoc_storage-Consistent :
      (from : Bytes) (id : ℕ) → Consistent (remove_adhoc_storage s from id).0
  unfolding remove_adhoc_storage
  remove_adhoc_storage-Consistent from id = Adhocs.remove-IsConsistent s.adhoc_manager c id

  -- The handlers that read both managers and write neither.
  pub deploy_adhoc_storage-Consistent :
      (remote : Remote) (from : Bytes) (now id : ℕ)
      → Consistent (deploy_adhoc_storage remote s from now id).0
  unfolding deploy_adhoc_storage
  deploy_adhoc_storage-Consistent remote from now id =
      let jobs : (deploy_adhoc_storage remote s from now id).0.job_manager ≡ s.job_manager =
        ground arith in
      let adhocs : (deploy_adhoc_storage remote s from now id).0.adhoc_manager ≡ s.adhoc_manager =
        ground arith in
      rw (jobs, adhocs) c

  pub terminate_adhoc_storage-Consistent :
      (remote : Remote) (from : Bytes) (now id : ℕ)
      → Consistent (terminate_adhoc_storage remote s from now id).0
  unfolding terminate_adhoc_storage
  terminate_adhoc_storage-Consistent remote from now id =
      let jobs : (terminate_adhoc_storage remote s from now id).0.job_manager ≡ s.job_manager =
        ground arith in
      let adhocs : (terminate_adhoc_storage remote s from now id).0.adhoc_manager
          ≡ s.adhoc_manager =
        ground arith in
      rw (jobs, adhocs) c
