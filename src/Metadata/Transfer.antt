-- ===== src/Metadata/Transfer.antt =====
-- `transfer_metadata`. The handle's type `H` is the transfer service's; the bandwidth is a float,
-- whose type `F` is a parameter too.
use io_scheduler.Prelude.{ℕ, List}
use io_scheduler.Types.{QosLimit}

pub record TransferMetadata {ℓ κ} (H : Type ℓ) (F : Type κ) : Type (ℓ ⊔ κ) where
  pub id : ℕ
  pub handle : H
  pub qos : List QosLimit
  pub measured_bandwidth : F

module _ {ℓ κ} {H : Type ℓ} {F : Type κ} where
  -- The constructor; `unmeasured` is -1.0.
  unfoldable pub make : F → ℕ → H → List QosLimit → TransferMetadata H F
  make unmeasured id handle qos = record {
    id = id;
    handle = handle;
    qos = qos;
    measured_bandwidth = unmeasured;
  }

  unfoldable pub update : F → TransferMetadata H F → TransferMetadata H F
  update bandwidth m = record m { measured_bandwidth = bandwidth }
