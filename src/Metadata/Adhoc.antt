-- ===== src/Metadata/Adhoc.antt =====
-- `adhoc_storage_metadata`. Each method holds the object's own mutex from its first to its last
-- step, so a call is one step.
use io_scheduler.Prelude.{ℕ, Option, none, some}
use io_scheduler.Types.{Bytes, ErrorCode, success, adhoc_in_use, AdhocStorage, AdhocResources}

pub record AdhocMetadata : Type 0 where
  pub uuid : Bytes
  pub adhoc_storage : AdhocStorage
  pub client_info : Option ℕ

unfoldable pub make : Bytes → AdhocStorage → AdhocMetadata
make uuid storage = record { uuid = uuid; adhoc_storage = storage; client_info = none }

unfoldable pub controller_address : AdhocMetadata → Bytes
controller_address m = m.adhoc_storage.context.controller_address

unfoldable pub data_stager_address : AdhocMetadata → Bytes
data_stager_address m = m.adhoc_storage.context.data_stager_address

unfoldable pub update : AdhocResources → AdhocMetadata → AdhocMetadata
update res m = record m { adhoc_storage = record (m.adhoc_storage) { resources = res } }

unfoldable pub add_client_info : ℕ → AdhocMetadata → AdhocMetadata × ErrorCode
add_client_info job_ptr m = elim m.client_info [
  | some client ↦ (m, adhoc_in_use)
  | none ↦ (record m { client_info = some job_ptr }, success)
]

unfoldable pub remove_client_info : AdhocMetadata → AdhocMetadata
remove_client_info m = record m { client_info = none }
