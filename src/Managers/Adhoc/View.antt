-- ===== src/Managers/Adhoc/View.antt =====
-- An adhoc storage manager seen as a partial map from numbers to metadata, and what each operation
-- does to that map.
use mathlib.Core.Option
use io_scheduler.Prelude.{
  ℕ, ◌+◌, ◌<◌, ◌^◌, ◌≡◌, Option, none, some, arith, alloc, deref, deref-alloc, deref-modify,
  deref-bound, length, ◌==◌, nat_key, if◌then◌else◌, inl, inr, Option-cases, modify,
}
use io_scheduler.Prelude.Map
use io_scheduler.Prelude.Map.{find-emplace, find-erase}
use io_scheduler.Types.{Bytes, expected, AdhocType, AdhocContext, AdhocResources}
use io_scheduler.Metadata
use io_scheduler.Metadata.{AdhocMetadata}
use io_scheduler.Managers.Counter.{next}
use io_scheduler.Managers.Adhoc.{
  AdhocManager, init, generate_adhoc_uuid, create, update, remove, add_client_at,
  remove_client_info,
}

-- The metadata that a number leads to.
unfoldable pub view : AdhocManager → ℕ → Option AdhocMetadata
view m j = elim (Map.find j m.adhoc_storages) [ none ↦ none | some p ↦ deref m.objects p ]

-- What holds between any two calls: numbers in use are below the next one, and a pointer in the
-- table has its object, which bears the number that leads to it.
pub record IsValid (m : AdhocManager) : Type 0 where
  pub fresh : (j p : ℕ) → Map.find j m.adhoc_storages ≡ some p → j < m.current_id
  pub backed :
      (j p : ℕ)
      → Map.find j m.adhoc_storages ≡ some p
      → (o : AdhocMetadata) × (deref m.objects p ≡ some o) × (o.adhoc_storage.id ≡ j)

-- The next number is in range, so that `current_id++` does not wrap.
abbrev pub HasRoom : AdhocManager → Type 0
HasRoom m = m.current_id + 1 < 2 ^ 64

pub init-IsValid : IsValid init
unfolding init Map.find
init-IsValid = record { fresh = λ j p e. cc; backed = λ j p e. cc }

pub find-free : (m : AdhocManager) → IsValid m → Map.find m.current_id m.adhoc_storages ≡ none
find-free m v = elim (Option-cases (Map.find m.current_id m.adhoc_storages)) [
  | inl e ↦ e
  | inr (p, e) ↦ absurd (omega (arith, v.fresh m.current_id p e))
]

pub view-free : (m : AdhocManager) → IsValid m → view m m.current_id ≡ none
unfolding view
view-free m v = ground (arith, find-free m v)

pub view-deref :
    (m : AdhocManager) (j p : ℕ)
    → Map.find j m.adhoc_storages ≡ some p
    → view m j ≡ deref m.objects p
unfolding view
view-deref m j p e = ground arith

module _ (m : AdhocManager) (random : Bytes) (type : AdhocType) (name : Bytes) (ctx : AdhocContext)
    (res : AdhocResources) where
  -- The metadata that `create` makes.
  abbrev pub created : AdhocMetadata
  created =
      Metadata.Adhoc.make (generate_adhoc_uuid type random)
        (record { type = type; name = name; id = m.current_id; context = ctx; resources = res })

  -- The manager that `create` leaves when its number is free.
  abbrev pub registered : AdhocManager
  registered = record {
    current_id = next m.current_id;
    adhoc_storages = (Map.emplace m.current_id (length m.objects) m.adhoc_storages).0;
    objects = alloc m.objects created;
  }

  pub create_lem :
      IsValid m → create m random type name ctx res ≡ (registered, expected (length m.objects))
  unfolding create
  create_lem v = ground (arith, find-free m v)

  pub view-registered :
      IsValid m
      → (j : ℕ) → view registered j ≡ (if m.current_id == j then some created else view m j)
  unfolding view
  view-registered v j = elim (Option-cases (Map.find j m.adhoc_storages)) [
    | inl e ↦ ground (
      arith,
      find-emplace m.current_id (length m.objects) m.adhoc_storages j,
      deref-alloc m.objects created (length m.objects),
    )
    | inr (p, e) ↦
        (let (o, d, n) = v.backed j p e in
          ground (
            arith,
            find-emplace m.current_id (length m.objects) m.adhoc_storages j,
            v.fresh j p e,
            deref-bound m.objects p d,
            deref-alloc m.objects created p,
          ))
  ]

-- A mutation of the object of one number changes the view at that number alone.
pub view-modify :
    (m : AdhocManager)
    → IsValid m
    → (id p : ℕ) (f : AdhocMetadata → AdhocMetadata) (j : ℕ) → Map.find id m.adhoc_storages ≡ some p
    → view (record m { objects = modify m.objects p f }) j
      ≡ (if id == j then Option.map f (view m j) else view m j)
unfolding view
view-modify m v id p f j e = elim (Option-cases (Map.find j m.adhoc_storages)) [
  | inl e' ↦ ground arith
  | inr (q, e') ↦
      (let (o, d, n) = v.backed id p e in
        let (o', d', n') = v.backed j q e' in ground (arith, deref-modify m.objects p f q))
]

pub view-update :
    (m : AdhocManager)
    → IsValid m
    → (id : ℕ) (res : AdhocResources) (j : ℕ)
    → view (update m id res).0 j
      ≡ (if id == j then Option.map (Metadata.Adhoc.update res) (view m j) else view m j)
unfolding update
view-update m v id res j = elim (Option-cases (Map.find id m.adhoc_storages)) [
  | inl e ↦ unfold view in ground arith
  | inr (p, e) ↦ rw (e, update) (view-modify m v id p (Metadata.Adhoc.update res) j e)
]

pub view-remove :
    (m : AdhocManager) (id j : ℕ) → view (remove m id).0 j ≡ (if id == j then none else view m j)
unfolding view remove
view-remove m id j = ground (arith, find-erase id m.adhoc_storages j)

-- What `add_client_info` does to the object.
abbrev pub with_client : ℕ → AdhocMetadata → AdhocMetadata
with_client job_ptr o = (Metadata.Adhoc.add_client_info job_ptr o).0

pub view-add_client :
    (m : AdhocManager)
    → IsValid m
    → (id p job_ptr j : ℕ) → Map.find id m.adhoc_storages ≡ some p
    → view (add_client_at m p job_ptr).0 j
      ≡ (if id == j then Option.map (with_client job_ptr) (view m j) else view m j)
unfolding add_client_at
view-add_client m v id p job_ptr j e = view-modify m v id p (with_client job_ptr) j e

pub view-remove_client_info :
    (m : AdhocManager)
    → IsValid m
    → (id j : ℕ)
    → view (remove_client_info m id).0 j
      ≡ (if id == j then Option.map Metadata.Adhoc.remove_client_info (view m j) else view m j)
unfolding remove_client_info
view-remove_client_info m v id j = elim (Option-cases (Map.find id m.adhoc_storages)) [
  | inl e ↦ unfold view in ground arith
  | inr (p, e) ↦
      rw (e, remove_client_info) (view-modify m v id p Metadata.Adhoc.remove_client_info j e)
]

-- A number that leads to metadata is in the table.
pub view-pointer :
    (m : AdhocManager) (j : ℕ) (o : AdhocMetadata)
    → view m j ≡ some o
    → (p : ℕ) × (Map.find j m.adhoc_storages ≡ some p) × (deref m.objects p ≡ some o)
unfolding view
view-pointer m j o e = elim (Option-cases (Map.find j m.adhoc_storages)) [
  | inl x ↦ absurd (ground arith)
  | inr (p, x) ↦ (p, x, ground arith)
]
