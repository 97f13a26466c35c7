-- ===== src/Managers/Job/View.antt =====
-- A job manager seen as a partial map from job numbers to metadata, and what each operation does to
-- that map.
use mathlib.Core.Option
use io_scheduler.Prelude.{
  ℕ, ◌+◌, ◌<◌, ◌^◌, ◌≡◌, Option, none, some, arith, alloc, deref, deref-alloc, deref-bound,
  deref-modify, length, ◌==◌, nat_key, if◌then◌else◌, inl, inr, Option-cases,
}
use io_scheduler.Prelude.Map
use io_scheduler.Prelude.Map.{find-emplace, emplace-inserted, find-erase}
use io_scheduler.Types.{expected, JobResources, JobRequirements}
use io_scheduler.Metadata
use io_scheduler.Metadata.{JobMetadata}
use io_scheduler.Managers.Counter.{next}
use io_scheduler.Managers.Job.{JobManager, init, create, update, remove}

-- The metadata that a number leads to.
unfoldable pub view : JobManager → ℕ → Option JobMetadata
view m j = elim (Map.find j m.jobs) [ none ↦ none | some p ↦ deref m.objects p ]

-- What holds between any two calls: numbers in use are below the next one; a pointer in the table
-- has its object, which bears the number that leads to it; a Slurm number leads to a job that has
-- it.
pub record IsValid (m : JobManager) : Type 0 where
  pub fresh : (j p : ℕ) → Map.find j m.jobs ≡ some p → j < m.current_id
  pub backed :
      (j p : ℕ)
      → Map.find j m.jobs ≡ some p
      → (o : JobMetadata) × (deref m.objects p ≡ some o) × (o.job.id ≡ j)
  pub indexed :
      (s j : ℕ)
      → Map.find s m.slurm_to_scord ≡ some j
      → (o : JobMetadata) × (view m j ≡ some o) × (o.job.slurm_id ≡ s)

-- The next number is in range, so that `current_id++` does not wrap.
abbrev pub HasRoom : JobManager → Type 0
HasRoom m = m.current_id + 1 < 2 ^ 64

pub init-IsValid : IsValid init
unfolding init Map.find
init-IsValid = record { fresh = λ j p e. cc; backed = λ j p e. cc; indexed = λ s j e. cc }

pub find-free : (m : JobManager) → IsValid m → Map.find m.current_id m.jobs ≡ none
find-free m v = elim (Option-cases (Map.find m.current_id m.jobs)) [
  | inl e ↦ e
  | inr (p, e) ↦ absurd (omega (arith, v.fresh m.current_id p e))
]

pub view-free : (m : JobManager) → IsValid m → view m m.current_id ≡ none
unfolding view
view-free m v = ground (arith, find-free m v)

module _ (m : JobManager) (slurm_id : ℕ) (res : JobResources) (reqs : JobRequirements)
    (adhoc : Option ℕ) where
  -- The metadata that `create` makes.
  abbrev pub created : JobMetadata
  created = Metadata.Job.make (record { id = m.current_id; slurm_id = slurm_id }) res reqs adhoc

  -- The manager that `create` leaves when its number is free.
  abbrev pub registered : JobManager
  registered = record {
    current_id = next m.current_id;
    jobs = (Map.emplace m.current_id (length m.objects) m.jobs).0;
    slurm_to_scord = (Map.emplace slurm_id m.current_id m.slurm_to_scord).0;
    objects = alloc m.objects created;
  }

  pub create_lem :
      IsValid m → create m slurm_id res reqs adhoc ≡ (registered, expected (length m.objects))
  unfolding create
  create_lem v = ground (arith, find-free m v)

  pub view-registered :
      IsValid m
      → (j : ℕ) → view registered j ≡ (if m.current_id == j then some created else view m j)
  unfolding view
  view-registered v j = elim (Option-cases (Map.find j m.jobs)) [
    | inl e ↦ ground (
      arith,
      find-emplace m.current_id (length m.objects) m.jobs j,
      deref-alloc m.objects created (length m.objects),
    )
    | inr (p, e) ↦
        (let (o, d, n) = v.backed j p e in
          ground (
            arith,
            find-emplace m.current_id (length m.objects) m.jobs j,
            v.fresh j p e,
            deref-bound m.objects p d,
            deref-alloc m.objects created p,
          ))
  ]

pub view-update :
    (m : JobManager)
    → IsValid m
    → (id : ℕ) (res : JobResources) (j : ℕ)
    → view (update m id res).0 j
      ≡ (if id == j then Option.map (Metadata.Job.update res) (view m j) else view m j)
unfolding view update
view-update m v id res j = elim (Option-cases (Map.find id m.jobs)) [
  | inl e ↦ ground arith
  | inr (p, e) ↦ elim (Option-cases (Map.find j m.jobs)) [
    | inl e' ↦ ground arith
    | inr (q, e') ↦
        (let (o, d, n) = v.backed id p e in
          let (o', d', n') = v.backed j q e' in
          ground (arith, deref-modify m.objects p (Metadata.Job.update res) q))
  ]
]

pub view-remove :
    (m : JobManager) (id j : ℕ) → view (remove m id).0 j ≡ (if id == j then none else view m j)
unfolding view remove
view-remove m id j = ground (arith, find-erase id m.jobs j)

-- A number that leads to metadata is in the table.
pub view-pointer :
    (m : JobManager) (j : ℕ) (o : JobMetadata)
    → view m j ≡ some o
    → (p : ℕ) × (Map.find j m.jobs ≡ some p) × (deref m.objects p ≡ some o)
unfolding view
view-pointer m j o e = elim (Option-cases (Map.find j m.jobs)) [
  | inl x ↦ absurd (ground arith)
  | inr (p, x) ↦ (p, x, ground arith)
]
