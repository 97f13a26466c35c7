-- ===== src/Server/Transfers.antt =====
-- The handlers `transfer_datasets` and `query_transfer`, and `dataset_process`. The transfer
-- service, cargo, is a parameter: its handles `H`, and what its calls give.
use io_scheduler.Prelude.{
  ℕ, Bool, Option, none, some, List, map, deref, has_value, length, if◌then◌else◌,
}
use io_scheduler.Prelude.Bytes.{codes, find?, drop}
use io_scheduler.Types.{Bytes, no_resources, Expected, expected, unexpected, Dataset, QosLimit}
use io_scheduler.Metadata
use io_scheduler.Metadata.{JobMetadata, AdhocMetadata, TransferMetadata}
use io_scheduler.Network.{Response}
use io_scheduler.Managers
use io_scheduler.Server.{Server, Outcome, responds, faults, null_dereference, start_rpc}
use io_scheduler.Server.Jobs.{answer}

-- `cargo::dataset::type`
pub data DatasetType : Type 0 where
  posix parallel gekkofs hercules expand dataclay untyped : DatasetType

pub record CargoDataset : Type 0 where
  pub path : Bytes
  pub type : DatasetType

-- `id.find(scheme) != npos`, and `id.substr(strlen(scheme))`
unfoldable pub mentions : Bytes → Bytes → Bool
unfolding find?
mentions scheme id = has_value (find? scheme id)

unfoldable pub strip : Bytes → Bytes → DatasetType → CargoDataset
strip scheme id type = record { path = drop (length scheme) id; type = type }

-- The type `none` of cargo is `untyped` here.
unfoldable pub dataset_process : Bytes → CargoDataset
unfolding mentions strip
dataset_process id =
    if mentions (codes "lustre:") id
    then strip (codes "lustre:") id parallel
    else if mentions (codes "gekkofs:") id
    then strip (codes "gekkofs:") id gekkofs
    else if mentions (codes "hercules:") id
    then strip (codes "hercules:") id hercules
    else if mentions (codes "expand:") id
    then strip (codes "expand:") id expand
    else if mentions (codes "dataclay:") id
    then strip (codes "dataclay:") id dataclay
    else if mentions (codes "posix:") id
    then strip (codes "posix:") id posix
    else record { path = id; type = untyped }

-- The stager of a job's adhoc storage, or the error of the first checks of both handlers.
data_stager : Option JobMetadata → (ℕ → Option AdhocMetadata) → Outcome (Expected Bytes)
unfolding Metadata.Adhoc.data_stager_address
data_stager none adhoc_at = faults null_dereference
data_stager (some job) adhoc_at = elim job.adhoc_metadata_ptr [
  | none ↦ responds (unexpected no_resources)
  | some ptr ↦ elim (adhoc_at ptr) [
    | none ↦ faults null_dereference
    | some adhoc ↦ responds (expected (Metadata.Adhoc.data_stager_address adhoc))
  ]
]

module _ {H F : Type 0} where
  -- `m_job_manager.find(job_id)` and those checks.
  unfoldable pub job_stager : Server H F → ℕ → Outcome (Expected Bytes)
  unfolding data_stager
  job_stager s job_id = elim (Managers.Job.find s.job_manager job_id) [
    | unexpected ec ↦ responds (unexpected ec)
    | expected ptr ↦ data_stager (deref s.job_manager.objects ptr) (deref s.adhoc_manager.objects)
  ]

  -- `start` is `cargo::transfer_datasets`, from the stager's address; `unmeasured` is -1.0. The
  -- mapping is only logged.
  unfoldable pub transfer_datasets :
      (Bytes → List CargoDataset → List CargoDataset → H)
      → F
      → Server H F
      → Bytes
      → ℕ
      → List Dataset
      → List Dataset
      → List QosLimit
      → Server H F × Outcome (Response ℕ)
  unfolding start_rpc job_stager answer
  transfer_datasets start unmeasured s from job_id sources targets limits =
      let (rpc, s1) = start_rpc s (codes "ADM_transfer_datasets") from in
      elim (job_stager s job_id) [
        | faults fault ↦ (s1, faults fault)
        | responds (unexpected ec) ↦ (s1, responds (answer rpc.id (unexpected ec)))
        | responds (expected address) ↦
            (let inputs = map (λ (d : Dataset). dataset_process d.id) sources in
              let outputs = map (λ (d : Dataset). dataset_process d.id) targets in
              let (transfers, created) =
                Managers.Transfer.create unmeasured s.transfer_manager
                  (start address inputs outputs) limits in
              (
                record s1 { transfer_manager = transfers },
                elim created [
                  | unexpected ec ↦ responds (answer rpc.id (unexpected ec))
                  | expected metadata ↦ responds (answer rpc.id (expected metadata.id))
                ],
              ))
      ]

  -- `state` is the state that cargo gives for a handle, cast to `transfer_state::type`.
  unfoldable pub query_transfer :
      {S : Type 0} → (H → S) → Server H F → Bytes → ℕ → ℕ → Server H F × Outcome (Response S)
  unfolding start_rpc job_stager answer
  query_transfer state s from job_id tx_id =
      let (rpc, s1) = start_rpc s (codes "ADM_query_transfer") from in
      (
        s1,
        elim (job_stager s job_id) [
          | faults fault ↦ faults fault
          | responds (unexpected ec) ↦ responds (answer rpc.id (unexpected ec))
          | responds (expected address) ↦ elim (Managers.Transfer.find s.transfer_manager tx_id) [
            | unexpected ec ↦ responds (answer rpc.id (unexpected ec))
            | expected metadata ↦ responds (answer rpc.id (expected (state metadata.handle)))
          ]
        ],
      )
