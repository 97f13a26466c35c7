-- ===== src/Managers/Pfs.antt =====
-- src/scord/pfs_storage_manager.hpp. No pointer to a metadata object outlives the call that gave
-- it, so the table holds the objects themselves.
pub mod Contract
use io_scheduler.Prelude.{ℕ, none, some, [], if◌then◌else◌, nat_key}
use io_scheduler.Prelude.Map
use io_scheduler.Prelude.Map.{Map}
use io_scheduler.Types.{
  Bytes, ErrorCode, success, snafu, entity_exists, no_such_entity, Expected, expected, unexpected,
  PfsStorage, PfsContext, PfsType,
}
use io_scheduler.Metadata
use io_scheduler.Metadata.{PfsMetadata}
use io_scheduler.Managers.Counter.{next}

pub record PfsManager : Type 0 where
  pub current_id : ℕ
  pub pfs_storages : Map ℕ PfsMetadata

unfoldable pub init : PfsManager
init = record { current_id = 0; pfs_storages = [] }

-- The body of the branch of `create` in which the number is free.
register : PfsManager → ℕ → PfsMetadata → PfsManager × Expected PfsMetadata
unfolding Map.emplace Map.find
register m id metadata =
    let (storages, inserted) = Map.emplace id metadata m.pfs_storages in
    let m' = record m { pfs_storages = storages } in
    if inserted then (m', expected metadata) else (m', unexpected snafu)

unfoldable pub create :
    PfsManager → PfsType → Bytes → PfsContext → PfsManager × Expected PfsMetadata
unfolding register
create m type name ctx =
    let id = m.current_id in
    let m' = record m { current_id = next id } in
    let storage : PfsStorage = record { type = type; name = name; id = id; context = ctx } in
    elim (Map.find id m.pfs_storages) [
      | none ↦ register m' id (Metadata.Pfs.make storage)
      | some metadata ↦ (m', unexpected entity_exists)
    ]

unfoldable pub update : PfsManager → ℕ → PfsContext → PfsManager × ErrorCode
unfolding Map.assign
update m id new_ctx = elim (Map.find id m.pfs_storages) [
  | some metadata ↦ (
    record m { pfs_storages = Map.assign id (Metadata.Pfs.update new_ctx metadata) m.pfs_storages },
    success,
  )
  | none ↦ (m, no_such_entity)
]

unfoldable pub find : PfsManager → ℕ → Expected PfsMetadata
find m id = elim (Map.find id m.pfs_storages) [
  | some metadata ↦ expected metadata
  | none ↦ unexpected no_such_entity
]

unfoldable pub remove : PfsManager → ℕ → PfsManager × ErrorCode
unfolding Map.contains
remove m id =
    if Map.contains id m.pfs_storages
    then (record m { pfs_storages = Map.erase id m.pfs_storages }, success)
    else (m, no_such_entity)
