-- ===== src/Server/Consistency/Jobs.antt =====
-- The operations on jobs keep the tables consistent.
use io_scheduler.Prelude.{
  ℕ, ◌≡◌, refl, ◌∙◌, Option, some, arith, deref-alloc, deref-modify, deref-bound, length, nat_key,
  ◌==◌, if◌then◌else◌, inl, inr, Option-cases,
}
use io_scheduler.Prelude.Map
use io_scheduler.Prelude.Map.{find-emplace, find-erase}
use io_scheduler.Types.{JobResources, JobRequirements}
use io_scheduler.Metadata
use io_scheduler.Metadata.{JobMetadata, AdhocMetadata}
use io_scheduler.Managers.{JobManager, AdhocManager}
use io_scheduler.Managers.Job.{update}
use io_scheduler.Managers.Job.View.{
  HasRoom, view, created, registered, view-registered, view-update, view-free, find-free,
}
use io_scheduler.Managers.Job.Invariant.{registered-IsValid, update-IsValid}
use io_scheduler.Managers.Adhoc.{add_client_at}
use io_scheduler.Managers.Adhoc.View.{with_client}
use io_scheduler.Managers.Adhoc.Invariant.{add_client_at-IsValid, id-with_client}
use io_scheduler.Server.Consistency.{Linked, IsLinked, IsClient, IsConsistent}
use io_scheduler.Server.Consistency.Adhocs.{Persists-modify, IsLinked-Persists}

IsLinked-same :
    {m : AdhocManager} {o : JobMetadata} (o' : JobMetadata)
    → IsLinked m o
    → o'.requirements ≡ o.requirements
    → o'.adhoc_metadata_ptr ≡ o.adhoc_metadata_ptr
    → IsLinked m o'
IsLinked-same o' l e d = record { reqs = l.reqs; has_reqs = e ∙ l.has_reqs; link = rw d l.link }

-- `update_job`
module _ {m : AdhocManager} (jobs : JobManager) (c : IsConsistent jobs m) (id : ℕ)
    (res : JobResources) where
  IsClient-update : {q p : ℕ} → IsClient jobs q p → IsClient (update jobs id res).0 q p
  unfolding update
  IsClient-update {q} {p} k = elim (Option-cases (Map.find id jobs.jobs)) [
    | inl e ↦ rw (e, update) k
    | inr (p', e) ↦
        rw (e, update)
          record {
            job = if p' == p then Metadata.Job.update res k.job else k.job;
            at =
                unfold Metadata.Job.update in
                ground (arith, k.at, deref-modify jobs.objects p' (Metadata.Job.update res) p);
            registered = unfold Metadata.Job.update in ground (arith, k.registered);
            uses = unfold Metadata.Job.update in ground (arith, k.uses);
          }
  ]

  pub update-IsConsistent : IsConsistent (update jobs id res).0 m
  update-IsConsistent = record {
    jobs_valid = update-IsValid jobs c.jobs_valid id res;
    adhocs_valid = c.adhocs_valid;
    links = λ j o e. elim (Option-cases (view jobs j)) [
      | inl e' ↦ absurd (ground (arith, view-update jobs c.jobs_valid id res j))
      | inr (o', e') ↦
          unfold Metadata.Job.update in
          IsLinked-same o (c.links j o' e') (ground (arith, view-update jobs c.jobs_valid id res j))
            (ground (arith, view-update jobs c.jobs_valid id res j))
    ];
    clients = λ i q p a e d k. IsClient-update (c.clients i q p a e d k);
  }

-- The creation of a job in `register_job`.
module _ {m : AdhocManager} (jobs : JobManager) (c : IsConsistent jobs m) (room : HasRoom jobs)
    (slurm_id : ℕ) (res : JobResources) (reqs : JobRequirements) (adhoc : Option ℕ) where
  IsClient-registered :
      {q p : ℕ} → IsClient jobs q p → IsClient (registered jobs slurm_id res reqs adhoc) q p
  IsClient-registered {q} {p} k = record {
    job = k.job;
    at = ground (
      arith,
      k.at,
      deref-alloc jobs.objects (created jobs slurm_id res reqs adhoc) p,
      deref-bound jobs.objects p k.at,
    );
    registered = ground (
      arith,
      k.registered,
      find-emplace jobs.current_id (length jobs.objects) jobs.jobs k.job.job.id,
    );
    uses = k.uses;
  }

  -- The new job may become the client of the storage that it uses.
  pub IsClient-created :
      {q : ℕ}
      → adhoc ≡ some q
      → IsClient (registered jobs slurm_id res reqs adhoc) q (length jobs.objects)
  unfolding Metadata.Job.make
  IsClient-created {q} e = record {
    job = created jobs slurm_id res reqs adhoc;
    at = ground (
      arith,
      deref-alloc jobs.objects (created jobs slurm_id res reqs adhoc) (length jobs.objects),
    );
    registered = ground (
      arith,
      find-free jobs c.jobs_valid,
      find-emplace jobs.current_id (length jobs.objects) jobs.jobs jobs.current_id,
    );
    uses = e;
  }

  pub registered-IsConsistent :
      Linked m reqs.adhoc_storage adhoc → IsConsistent (registered jobs slurm_id res reqs adhoc) m
  unfolding Metadata.Job.make
  registered-IsConsistent link = record {
    jobs_valid = registered-IsValid jobs c.jobs_valid room slurm_id res reqs adhoc;
    adhocs_valid = c.adhocs_valid;
    links = λ j o e. elim (Option-cases (view jobs j)) [
      | inl e' ↦
          (let step = view-registered jobs slurm_id res reqs adhoc c.jobs_valid j in
            let new : IsLinked m (created jobs slurm_id res reqs adhoc) = record {
              reqs = reqs;
              has_reqs = refl;
              link = link;
            } in
            IsLinked-same o new (ground (arith, step)) (ground (arith, step)))
      | inr (o', e') ↦
          (let step = view-registered jobs slurm_id res reqs adhoc c.jobs_valid j in
            let free = view-free jobs c.jobs_valid in
            IsLinked-same o (c.links j o' e') (ground (arith, step, free))
              (ground (arith, step, free)))
    ];
    clients = λ i q p a e d k. IsClient-registered (c.clients i q p a e d k);
  }

-- `attach` in `register_job`: a registered job that uses the storage at `q` asks to be its client.
module _ {jobs : JobManager} (m : AdhocManager) (c : IsConsistent jobs m) where
  pub add_client_at-IsConsistent :
      (q p : ℕ) → IsClient jobs q p → IsConsistent jobs (add_client_at m q p).0
  unfolding add_client_at
  add_client_at-IsConsistent q p new = record {
    jobs_valid = c.jobs_valid;
    adhocs_valid = add_client_at-IsValid m c.adhocs_valid q p;
    links = λ j o e.
        IsLinked-Persists (Persists-modify m q (with_client p) (id-with_client p)) (c.links j o e);
    clients = λ id q' p' a e d k.
        let (old, d', n) = c.adhocs_valid.backed id q' e in
        elim (Option-cases old.client_info) [
          | inr (holder, h) ↦ c.clients id q' p' old e d' (
              unfold Metadata.Adhoc.add_client_info in
              ground (arith, deref-modify m.objects q (with_client p) q'))
          | inl h ↦
              (let written = deref-modify m.objects q (with_client p) q' in
                let same_storage : q' ≡ q =
                  unfold Metadata.Adhoc.add_client_info in ground (arith, written) in
                let same_job : p' ≡ p =
                  unfold Metadata.Adhoc.add_client_info in ground (arith, written) in
                rw (same_storage, same_job) new)
        ];
  }
