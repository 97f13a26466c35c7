-- ===== src/Managers/Pfs/Contract.antt =====
-- What the calls of a manager of PFS storages promise each other.
use io_scheduler.Prelude.{
  ℕ, ◌+◌, ◌<◌, ◌^◌, ◌≡◌, refl, none, some, arith, nat_key, ◌==◌, if◌then◌else◌, inl, inr,
  Option-cases,
}
use io_scheduler.Prelude.Map
use io_scheduler.Prelude.Map.{find-emplace, find-erase, find-assign}
use io_scheduler.Types.{Bytes, PfsStorage, PfsContext, PfsType, success, expected}
use io_scheduler.Metadata
use io_scheduler.Metadata.{PfsMetadata}
use io_scheduler.Managers.Counter.{next}
use io_scheduler.Managers.Pfs.{PfsManager, init, create, update, find, remove}

-- Numbers in use are below the next one, and each leads to metadata that bears it.
pub record IsValid (m : PfsManager) : Type 0 where
  pub fresh :
      (j : ℕ) (t : PfsMetadata)
      → Map.find j m.pfs_storages ≡ some t
      → (j < m.current_id) × (t.pfs_storage.id ≡ j)

pub init-IsValid : IsValid init
unfolding init Map.find
init-IsValid = record { fresh = λ j t e. absurd (cc) }

find-free : (m : PfsManager) → IsValid m → Map.find m.current_id m.pfs_storages ≡ none
find-free m v = elim (Option-cases (Map.find m.current_id m.pfs_storages)) [
  | inl e ↦ e
  | inr (t, e) ↦ absurd (let (below, n) = v.fresh m.current_id t e in omega arith)
]

module _ (m : PfsManager) (v : IsValid m) (type : PfsType) (name : Bytes) (ctx : PfsContext) where
  abbrev storage : PfsStorage
  storage = record { type = type; name = name; id = m.current_id; context = ctx }

  abbrev registered : PfsManager
  registered = record {
    current_id = next m.current_id;
    pfs_storages = (Map.emplace m.current_id (Metadata.Pfs.make storage) m.pfs_storages).0;
  }

  create_lem : create m type name ctx ≡ (registered, expected (Metadata.Pfs.make storage))
  unfolding create
  create_lem = ground (arith, find-free m v)

  pub create-IsValid : m.current_id + 1 < 2 ^ 64 → IsValid (create m type name ctx).0
  unfolding next Metadata.Pfs.make
  create-IsValid room = rw create_lem record {
    fresh = λ j t e. ground (
      arith,
      find-emplace m.current_id (Metadata.Pfs.make storage) m.pfs_storages j,
      v.fresh j t,
    );
  }

  -- A storage that is created on a valid manager gets the next number and is found under it; after
  -- an update, which succeeds, it is found with the new context and is otherwise the same; and after
  -- a removal, which succeeds, it is found no longer. Every other storage is found as before all
  -- along.
  pub create-update-remove :
      (ctx' : PfsContext) (j : ℕ)
      → (let m1 = (create m type name ctx).0 in
          let m2 = (update m1 m.current_id ctx').0 in
          ((create m type name ctx).1 ≡ expected (record { pfs_storage = storage }))
          × (find m1 j ≡ (
              if m.current_id == j then expected (record { pfs_storage = storage }) else find m j))
          × ((update m1 m.current_id ctx').1 ≡ success)
          × (find m2 j ≡ (
              if m.current_id == j
              then expected (record { pfs_storage = record storage { context = ctx' } })
              else find m j))
          × ((remove m2 m.current_id).1 ≡ success)
          × (find (remove m2 m.current_id).0 j ≡ find m j))
  unfolding find update remove Metadata.Pfs.make Metadata.Pfs.update
  create-update-remove ctx' j =
      let free = find-free m v in
      let new = Metadata.Pfs.make storage in
      let there = find-emplace m.current_id new m.pfs_storages m.current_id in
      let seen = find-emplace m.current_id new m.pfs_storages j in
      let changed =
        find-assign m.current_id (Metadata.Pfs.update ctx' new) registered.pfs_storages in
      rw create_lem (
        unfold Metadata.Pfs.make in refl,
        ground arith,
        ground arith,
        ground (arith, changed j),
        ground (arith, changed m.current_id),
        ground (
          arith,
          changed j,
          changed m.current_id,
          find-erase m.current_id
              (Map.assign m.current_id (Metadata.Pfs.update ctx' new) registered.pfs_storages) j,
        ),
      )
