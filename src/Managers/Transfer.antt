-- ===== src/Managers/Transfer.antt =====
-- src/scord/transfer_manager.hpp. A metadata object is reached through its entry alone, also by
-- the scheduler, which holds the manager's lock meanwhile; so the table holds the objects
-- themselves. `unmeasured` is the -1.0 of a new object.
pub mod Invariant
use io_scheduler.Prelude.{ℕ, none, some, List, [], if◌then◌else◌, nat_key}
use io_scheduler.Prelude.Map
use io_scheduler.Prelude.Map.{Map}
use io_scheduler.Types.{
  ErrorCode, success, snafu, entity_exists, no_such_entity, Expected, expected, unexpected,
  QosLimit,
}
use io_scheduler.Metadata
use io_scheduler.Metadata.{TransferMetadata}
use io_scheduler.Managers.Counter.{next}

pub record TransferManager {ℓ κ} (H : Type ℓ) (F : Type κ) : Type (ℓ ⊔ κ) where
  pub current_id : ℕ
  pub transfers : Map ℕ (TransferMetadata H F)

module _ {ℓ κ} {H : Type ℓ} {F : Type κ} where
  unfoldable pub init : TransferManager H F
  init = record { current_id = 0; transfers = [] }

  -- The body of the branch of `create` in which the number is free.
  register :
      TransferManager H F
      → ℕ
      → TransferMetadata H F
      → TransferManager H F × Expected (TransferMetadata H F)
  unfolding Map.emplace Map.find
  register m id metadata =
      let (transfers, inserted) = Map.emplace id metadata m.transfers in
      let m' = record m { transfers = transfers } in
      if inserted then (m', expected metadata) else (m', unexpected snafu)

  unfoldable pub create :
      F
      → TransferManager H F
      → H
      → List QosLimit
      → TransferManager H F × Expected (TransferMetadata H F)
  unfolding register
  create unmeasured m tx limits =
      let id = m.current_id in
      let m' = record m { current_id = next id } in
      elim (Map.find id m.transfers) [
        | none ↦ register m' id (Metadata.Transfer.make unmeasured id tx limits)
        | some metadata ↦ (m', unexpected entity_exists)
      ]

  unfoldable pub update : TransferManager H F → ℕ → F → TransferManager H F × ErrorCode
  unfolding Map.assign
  update m id obtained_bw = elim (Map.find id m.transfers) [
    | some metadata ↦ (
      record m {
        transfers = Map.assign id (Metadata.Transfer.update obtained_bw metadata) m.transfers;
      },
      success,
    )
    | none ↦ (m, no_such_entity)
  ]

  unfoldable pub find : TransferManager H F → ℕ → Expected (TransferMetadata H F)
  find m id = elim (Map.find id m.transfers) [
    | some metadata ↦ expected metadata
    | none ↦ unexpected no_such_entity
  ]

  unfoldable pub remove :
      TransferManager H F → ℕ → TransferManager H F × Expected (TransferMetadata H F)
  remove m id = elim (Map.find id m.transfers) [
    | some metadata ↦ (record m { transfers = Map.erase id m.transfers }, expected metadata)
    | none ↦ (m, unexpected no_such_entity)
  ]
