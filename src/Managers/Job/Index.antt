-- ===== src/Managers/Job/Index.antt =====
-- The index from Slurm numbers to jobs: what a search by Slurm number finds, and what it misses
-- when two jobs have the same one.
use io_scheduler.Prelude.{
  ℕ, ◌≡◌, Option, none, some, arith, deref, deref-alloc, length, nat_key, inl, inr, Option-cases,
}
use io_scheduler.Prelude.Map
use io_scheduler.Prelude.Map.{find-emplace, find-erase}
use io_scheduler.Types.{expected, unexpected, no_such_entity, JobResources, JobRequirements}
use io_scheduler.Metadata
use io_scheduler.Metadata.{JobMetadata}
use io_scheduler.Managers.Job.{JobManager, create, find_by_slurm_id, remove}
use io_scheduler.Managers.Job.View.{
  IsValid, view, view-free, view-remove, find-free, created, registered, create_lem,
  view-registered,
}

-- On a valid manager: a search by Slurm number that succeeds gives a pointer to a registered job
-- that has that number.
pub find_by_slurm_id_sound :
    (m : JobManager)
    → IsValid m
    → (slurm_id p : ℕ) → find_by_slurm_id m slurm_id ≡ expected p
    → (o : JobMetadata) × (deref m.objects p ≡ some o)
      × (o.job.slurm_id ≡ slurm_id)
      × (view m o.job.id ≡ some o)
unfolding find_by_slurm_id view
find_by_slurm_id_sound m v slurm_id p h = elim (Option-cases (Map.find slurm_id m.slurm_to_scord)) [
  | inl e ↦ absurd (ground arith)
  | inr (j, e) ↦
      (let (o, w, n) = v.indexed slurm_id j e in
        elim (Option-cases (Map.find j m.jobs)) [
          | inl e' ↦ absurd (ground arith)
          | inr (q, e') ↦ (let (o', d', n') = v.backed j q e' in (o, ground arith, n, ground arith))
        ])
]

-- After a job is removed, a search by its Slurm number fails.
find_by_slurm_id-remove :
    (m : JobManager) (id p : ℕ) (o : JobMetadata)
    → Map.find id m.jobs ≡ some p
    → deref m.objects p ≡ some o
    → find_by_slurm_id (remove m id).0 o.job.slurm_id ≡ unexpected no_such_entity
unfolding find_by_slurm_id remove
find_by_slurm_id-remove m id p o e d =
    ground (arith, find-erase o.job.slurm_id m.slurm_to_scord o.job.slurm_id)

module _ (m : JobManager) (v : IsValid m) (slurm_id : ℕ) (res : JobResources)
    (reqs : JobRequirements) (adhoc : Option ℕ) where
  -- On a valid manager: if the Slurm number is not in the index, then after `create` a search for
  -- it succeeds with the pointer that `create` returned, which points to the new job's metadata.
  pub find_by_slurm_id-create :
      Map.find slurm_id m.slurm_to_scord ≡ none
      → (find_by_slurm_id (create m slurm_id res reqs adhoc).0 slurm_id
          ≡ (create m slurm_id res reqs adhoc).1)
        × (view (create m slurm_id res reqs adhoc).0 m.current_id
            ≡ some (created m slurm_id res reqs adhoc))
  find_by_slurm_id-create free = rw (create_lem m slurm_id res reqs adhoc v) (
    unfold find_by_slurm_id in
        ground (
          arith,
          find-emplace slurm_id m.current_id m.slurm_to_scord slurm_id,
          find-emplace m.current_id (length m.objects) m.jobs m.current_id,
          find-free m v,
        ),
    ground (arith, view-registered m slurm_id res reqs adhoc v m.current_id),
  )

  -- On a valid manager: if the index leads to job `old` at a Slurm number with which a new job is
  -- created, then once the new job is removed a search by the number fails, although `old` is
  -- still registered as it was.
  pub create_duplicate-remove :
      (old : ℕ) (o : JobMetadata)
      → Map.find slurm_id m.slurm_to_scord ≡ some old
      → view m old ≡ some o
      → (let m' = (remove (create m slurm_id res reqs adhoc).0 m.current_id).0 in
          (find_by_slurm_id m' slurm_id ≡ unexpected no_such_entity) × (view m' old ≡ some o))
  unfolding Metadata.Job.make
  create_duplicate-remove old o taken there = rw (create_lem m slurm_id res reqs adhoc v) (
    find_by_slurm_id-remove (registered m slurm_id res reqs adhoc) m.current_id (length m.objects)
        (created m slurm_id res reqs adhoc)
        (ground
          (arith, find-free m v, find-emplace m.current_id (length m.objects) m.jobs m.current_id))
        (ground
          (arith, deref-alloc m.objects (created m slurm_id res reqs adhoc) (length m.objects))),
    ground (
      arith,
      view-remove (registered m slurm_id res reqs adhoc) m.current_id old,
      view-registered m slurm_id res reqs adhoc v old,
      view-free m v,
    ),
  )
