-- ===== src/Managers/Job/Invariant.antt =====
-- Every call of a job manager keeps its tables consistent.
use io_scheduler.Prelude.{
  ℕ, ◌+◌, ◌<◌, ◌≤◌, ◌^◌, ◌≡◌, ◌==◌, if◌then◌else◌, Option, some, List, [], ◌∷◌, arith, deref,
  deref-alloc, deref-bound, length, nat_key, inl, inr, Option-cases,
}
use io_scheduler.Prelude.Map
use io_scheduler.Prelude.Map.{find-emplace, find-erase}
use io_scheduler.Types.{JobResources, JobRequirements}
use io_scheduler.Metadata
use io_scheduler.Metadata.{JobMetadata}
use io_scheduler.Managers.Counter.{next}
use io_scheduler.Managers.Job.{JobManager, init, create, register, update, remove, unregister}
use io_scheduler.Managers.Job.View.{
  IsValid, HasRoom, view, init-IsValid, view-free, created, registered, create_lem, view-registered,
  view-update, view-remove,
}

module _ (m : JobManager) (v : IsValid m) (room : HasRoom m) (slurm_id : ℕ) (res : JobResources)
    (reqs : JobRequirements) (adhoc : Option ℕ) where
  pub registered-IsValid : IsValid (registered m slurm_id res reqs adhoc)
  unfolding next
  registered-IsValid = record {
    fresh =
        λ j p e. ground (arith, find-emplace m.current_id (length m.objects) m.jobs j, v.fresh j p);
    backed = λ j p e. elim (Option-cases (Map.find j m.jobs)) [
      | inl e' ↦ (
        created m slurm_id res reqs adhoc,
        ground (
          arith,
          find-emplace m.current_id (length m.objects) m.jobs j,
          deref-alloc m.objects (created m slurm_id res reqs adhoc) p,
        ),
        unfold Metadata.Job.make in
            ground (arith, find-emplace m.current_id (length m.objects) m.jobs j),
      )
      | inr (q, e') ↦
          (let (o, d, n) = v.backed j q e' in
            let same = find-emplace m.current_id (length m.objects) m.jobs j in
            let grown = deref-alloc m.objects (created m slurm_id res reqs adhoc) p in
            (o, ground (arith, same, grown, deref-bound m.objects q d), n))
    ];
    indexed = λ s j e. elim (Option-cases (Map.find s m.slurm_to_scord)) [
      | inl e' ↦ (
        created m slurm_id res reqs adhoc,
        ground (
          arith,
          find-emplace slurm_id m.current_id m.slurm_to_scord s,
          view-registered m slurm_id res reqs adhoc v j,
        ),
        unfold Metadata.Job.make in
            ground (arith, find-emplace slurm_id m.current_id m.slurm_to_scord s),
      )
      | inr (i, e') ↦
          (let (o, d, n) = v.indexed s i e' in
            let same = find-emplace slurm_id m.current_id m.slurm_to_scord s in
            (
              o,
              ground (arith, same, view-registered m slurm_id res reqs adhoc v j, view-free m v),
              n,
            ))
    ];
  }

  pub create-IsValid : IsValid (create m slurm_id res reqs adhoc).0
  create-IsValid = rw (create_lem m slurm_id res reqs adhoc v) registered-IsValid

view-deref : (m : JobManager) (j p : ℕ) → Map.find j m.jobs ≡ some p → view m j ≡ deref m.objects p
unfolding view
view-deref m j p e = ground arith

jobs-update : (m : JobManager) (id : ℕ) (res : JobResources) → (update m id res).0.jobs ≡ m.jobs
unfolding update
jobs-update m id res = ground arith

slurm_to_scord-update :
    (m : JobManager) (id : ℕ) (res : JobResources)
    → (update m id res).0.slurm_to_scord ≡ m.slurm_to_scord
unfolding update
slurm_to_scord-update m id res = ground arith

-- What `update` leaves of the object of job `j`.
after_update : ℕ → JobResources → ℕ → JobMetadata → JobMetadata
after_update id res j o = if id == j then Metadata.Job.update res o else o

pub update-IsValid :
    (m : JobManager) → IsValid m → (id : ℕ) (res : JobResources) → IsValid (update m id res).0
unfolding after_update Metadata.Job.update
update-IsValid m v id res = record {
  fresh = λ j p e. unfold update in ground (arith, v.fresh j p);
  backed = λ j p e.
      let e' = rw jobs-update at e in
      let (o, d, n) = v.backed j p e' in
      (
        after_update id res j o,
        ground (
          arith,
          view-update m v id res j,
          view-deref m j p e',
          view-deref (update m id res).0 j p e,
        ),
        ground arith,
      );
  indexed = λ s j e.
      let (o, d, n) = v.indexed s j (rw slurm_to_scord-update at e) in
      (after_update id res j o, ground (arith, view-update m v id res j), ground arith);
}

pub remove-IsValid : (m : JobManager) → IsValid m → (id : ℕ) → IsValid (remove m id).0
unfolding remove
remove-IsValid m v id = elim (Option-cases (Map.find id m.jobs)) [
  | inl missing ↦ rw (missing, remove) v
  | inr (q, found) ↦
      (let (gone, dq, nq) = v.backed id q found in
        record {
          fresh = λ j p e. ground (arith, find-erase id m.jobs j, v.fresh j p);
          backed = λ j p e.
              let (o, d, n) = v.backed j p (ground (arith, find-erase id m.jobs j)) in
              (o, ground arith, n);
          indexed = λ s j e.
              let erased = find-erase gone.job.slurm_id m.slurm_to_scord s in
              let (o, d, n) = v.indexed s j (ground (arith, erased)) in
              (o, ground (arith, erased, view-remove m id j, view-deref m id q found), n);
        })
]

pub data Call : Type 0 where
  creates : ℕ → JobResources → JobRequirements → Option ℕ → Call
  updates : ℕ → JobResources → Call
  removes : ℕ → Call

pub step : JobManager → Call → JobManager
step m (creates slurm_id res reqs adhoc) = (create m slurm_id res reqs adhoc).0
step m (updates id res) = (update m id res).0
step m (removes id) = (remove m id).0

pub run : JobManager → List Call → JobManager
run m [] = m
run m (c ∷ cs) = run (step m c) cs

step-IsValid : (m : JobManager) → IsValid m → HasRoom m → (c : Call) → IsValid (step m c)
unfolding step
step-IsValid m v room (creates slurm_id res reqs adhoc) =
    create-IsValid m v room slurm_id res reqs adhoc
step-IsValid m v room (updates id res) = update-IsValid m v id res
step-IsValid m v room (removes id) = remove-IsValid m v id

current_id-step :
    (m : JobManager) → HasRoom m → (c : Call) → (step m c).current_id ≤ m.current_id + 1
unfolding step create register update remove unregister next
current_id-step m room c = ground arith

run_keeps :
    (m : JobManager) (cs : List Call)
    → IsValid m
    → m.current_id + length cs + 1 < 2 ^ 64
    → IsValid (run m cs)
unfolding run
run_keeps m [] v room = v
run_keeps m (c ∷ cs) v room =
    run_keeps (step m c) cs (step-IsValid m v (omega arith) c)
      (omega (arith, current_id-step m (omega arith) c))

-- After any calls on a new manager, fewer than 2 ^ 64 - 1 of them, the tables are consistent: the
-- numbers in use are below the next one, each leads to metadata that bears it, and each Slurm
-- number in the index leads to a registered job that has it.
pub run-IsValid : (cs : List Call) → length cs + 1 < 2 ^ 64 → IsValid (run init cs)
unfolding init
run-IsValid cs room = run_keeps init cs init-IsValid (omega arith)
