-- ===== src/Managers/Adhoc.antt =====
-- src/scord/adhoc_storage_manager.hpp. The random text of `generate_adhoc_uuid` is an argument of
-- `create`.
pub mod View
pub mod Invariant
pub mod Clients
use io_scheduler.Prelude.{
  ℕ, ◌++◌, Option, none, some, List, [], length, alloc, deref, modify, if◌then◌else◌, nat_key,
}
use io_scheduler.Prelude.Bytes.{codes}
use io_scheduler.Prelude.Map
use io_scheduler.Prelude.Map.{Map}
use io_scheduler.Types.{
  Bytes, ErrorCode, success, snafu, entity_exists, no_such_entity, Expected, expected, unexpected,
  AdhocStorage, AdhocContext, AdhocResources, AdhocType, gekkofs, dataclay, expand, hercules,
}
use io_scheduler.Metadata
use io_scheduler.Metadata.{AdhocMetadata}
use io_scheduler.Managers.Counter.{next}

-- `objects` are all that `create` has made, those too that have been removed since.
pub record AdhocManager : Type 0 where
  pub current_id : ℕ
  pub adhoc_storages : Map ℕ ℕ
  pub objects : List AdhocMetadata

unfoldable pub init : AdhocManager
init = record { current_id = 0; adhoc_storages = []; objects = [] }

-- The `{:e}` form of a type.
unfoldable pub type_name : AdhocType → Bytes
type_name gekkofs = codes "gekkofs"
type_name dataclay = codes "dataclay"
type_name expand = codes "expand"
type_name hercules = codes "hercules"

unfoldable pub generate_adhoc_uuid : AdhocType → Bytes → Bytes
unfolding type_name
generate_adhoc_uuid type random = type_name type ++ codes "-" ++ random

-- The body of the branch of `create` in which the number is free.
register : AdhocManager → ℕ → AdhocMetadata → AdhocManager × Expected ℕ
unfolding Map.emplace Map.find
register m id metadata =
    let ptr = length m.objects in
    let (storages, inserted) = Map.emplace id ptr m.adhoc_storages in
    let m' = record m { adhoc_storages = storages; objects = alloc m.objects metadata } in
    if inserted then (m', expected ptr) else (m', unexpected snafu)

unfoldable pub create :
    AdhocManager
    → Bytes
    → AdhocType
    → Bytes
    → AdhocContext
    → AdhocResources
    → AdhocManager × Expected ℕ
unfolding register
create m random type name ctx resources =
    let id = m.current_id in
    let m' = record m { current_id = next id } in
    let storage : AdhocStorage = record {
      type = type;
      name = name;
      id = id;
      context = ctx;
      resources = resources;
    } in
    elim (Map.find id m.adhoc_storages) [
      | none ↦ register m' id (Metadata.Adhoc.make (generate_adhoc_uuid type random) storage)
      | some ptr ↦ (m', unexpected entity_exists)
    ]

unfoldable pub update : AdhocManager → ℕ → AdhocResources → AdhocManager × ErrorCode
update m id new_resources = elim (Map.find id m.adhoc_storages) [
  | some ptr ↦
      (record m { objects = modify m.objects ptr (Metadata.Adhoc.update new_resources) }, success)
  | none ↦ (m, no_such_entity)
]

unfoldable pub find : AdhocManager → ℕ → Expected ℕ
find m id = elim (Map.find id m.adhoc_storages) [
  | some ptr ↦ expected ptr
  | none ↦ unexpected no_such_entity
]

unfoldable pub remove : AdhocManager → ℕ → AdhocManager × ErrorCode
unfolding Map.contains
remove m id =
    if Map.contains id m.adhoc_storages
    then (record m { adhoc_storages = Map.erase id m.adhoc_storages }, success)
    else (m, no_such_entity)

-- What a call of `adhoc_storage_metadata::add_client_info` through a pointer answers. A shared
-- pointer always has its object, so the first clause is never reached.
client_answer : Option AdhocMetadata → ℕ → ErrorCode
client_answer none job_ptr = snafu
client_answer (some metadata) job_ptr = (Metadata.Adhoc.add_client_info job_ptr metadata).1

-- `ptr->add_client_info(job_ptr)`
unfoldable pub add_client_at : AdhocManager → ℕ → ℕ → AdhocManager × ErrorCode
unfolding client_answer
add_client_at m ptr job_ptr = (
  record m { objects = modify m.objects ptr (λ o. (Metadata.Adhoc.add_client_info job_ptr o).0) },
  client_answer (deref m.objects ptr) job_ptr,
)

unfoldable pub add_client_info : AdhocManager → ℕ → ℕ → AdhocManager × ErrorCode
unfolding add_client_at find
add_client_info m adhoc_id job_ptr = elim (find m adhoc_id) [
  | expected ptr ↦ add_client_at m ptr job_ptr
  | unexpected ec ↦ (m, no_such_entity)
]

unfoldable pub remove_client_info : AdhocManager → ℕ → AdhocManager × ErrorCode
unfolding find
remove_client_info m adhoc_id = elim (find m adhoc_id) [
  | expected ptr ↦
      (record m { objects = modify m.objects ptr Metadata.Adhoc.remove_client_info }, success)
  | unexpected ec ↦ (m, no_such_entity)
]
