-- ===== src/Server/Storages.antt =====
-- The handlers `register_pfs_storage`, `update_pfs_storage` and `remove_pfs_storage`.
use io_scheduler.Prelude.{ℕ}
use io_scheduler.Prelude.Bytes.{codes}
use io_scheduler.Types.{Bytes, success, expected, unexpected, PfsType, PfsContext}
use io_scheduler.Network.{GenericResponse, Response}
use io_scheduler.Managers
use io_scheduler.Prelude.{some}
use io_scheduler.Server.{Server, Outcome, responds, start_rpc}

module _ {H F : Type 0} where
  -- On an error the response still holds the number 0 with which `pfs_id` starts.
  unfoldable pub register_pfs_storage :
      Server H F → Bytes → Bytes → PfsType → PfsContext → Server H F × Outcome (Response ℕ)
  unfolding start_rpc
  register_pfs_storage s from name type ctx =
      let (rpc, s1) = start_rpc s (codes "ADM_register_pfs_storage") from in
      let (pfs, created) = Managers.Pfs.create s.pfs_manager type name ctx in
      (
        record s1 { pfs_manager = pfs },
        elim created [
          | expected metadata ↦ responds (record {
            op_id = rpc.id;
            error_code = success;
            value = some metadata.pfs_storage.id;
          })
          | unexpected ec ↦ responds (record { op_id = rpc.id; error_code = ec; value = some 0 })
        ],
      )

  unfoldable pub update_pfs_storage :
      Server H F → Bytes → ℕ → PfsContext → Server H F × Outcome GenericResponse
  unfolding start_rpc
  update_pfs_storage s from pfs_id new_ctx =
      let (rpc, s1) = start_rpc s (codes "ADM_update_pfs_storage") from in
      let (pfs, ec) = Managers.Pfs.update s.pfs_manager pfs_id new_ctx in
      (record s1 { pfs_manager = pfs }, responds (record { op_id = rpc.id; error_code = ec }))

  unfoldable pub remove_pfs_storage : Server H F → Bytes → ℕ → Server H F × Outcome GenericResponse
  unfolding start_rpc
  remove_pfs_storage s from pfs_id =
      let (rpc, s1) = start_rpc s (codes "ADM_remove_pfs_storage") from in
      let (pfs, ec) = Managers.Pfs.remove s.pfs_manager pfs_id in
      (record s1 { pfs_manager = pfs }, responds (record { op_id = rpc.id; error_code = ec }))
