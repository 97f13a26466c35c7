-- ===== src/Server/Scheduler.antt =====
-- `scheduler_update`: one round of its loop, which the program makes every second under the lock of
-- the transfer manager. Bandwidths are floats, whose type `F` and operations are a parameter.
use io_scheduler.Prelude.{ℕ, Bool, Option, none, some, List, [], ◌∷◌, if◌then◌else◌, nat_key}
use io_scheduler.Prelude.Map.{Map}
use io_scheduler.Types.{QosLimit}
use io_scheduler.Metadata
use io_scheduler.Metadata.{TransferMetadata}
use io_scheduler.Managers
use io_scheduler.Managers.{TransferManager}
use io_scheduler.Server.{Server}

-- `cargo::transfer_state`, as far as the scheduler tells states apart.
pub data CargoState : Type 0 where
  pending running completed failed : CargoState

-- The operations on `float` that the scheduler uses; `threshold` is 0.1f, `minus_one` is -1.
pub record FloatOps (F : Type 0) : Type 0 where
  pub threshold : F
  pub minus_one : F
  pub of_uint64 : ℕ → F
  pub add : F → F → F
  pub sub : F → F → F
  pub mul : F → F → F
  pub gt : F → F → Bool
  pub lt : F → F → Bool
  pub eq : F → F → Bool

-- `bw_control(+1)` and `bw_control(-1)`
pub data Signal : Type 0 where
  slow_down speed_up : Signal

-- What the round does with one transfer.
pub data Visit (H F : Type 0) : Type 0 where
  finish : Visit H F
  keep : TransferMetadata H F → Option Signal → Visit H F

module _ {F : Type 0} (ops : FloatOps F) where
  open ops use {threshold, minus_one, of_uint64, add, sub, mul, gt, lt, eq}

  -- The tests of the measured bandwidth against the first limit.
  unfoldable pub signal_for : F → List QosLimit → Option Signal
  signal_for bw [] = none
  signal_for bw (limit ∷ limits) =
      let qos = of_uint64 limit.value in
      if eq bw minus_one
      then none
      else if gt (add bw (mul bw threshold)) qos
      then some slow_down
      else if lt (sub bw (mul bw threshold)) qos
      then some speed_up
      else none

module _ {H F : Type 0} (ops : FloatOps F) where
  unfoldable pub visit : CargoState → F → TransferMetadata H F → Visit H F
  unfolding signal_for Metadata.Transfer.update
  visit completed bw m = finish
  visit failed bw m = finish
  visit pending bw m = keep m none
  visit running bw m = keep (Metadata.Transfer.update bw m) (signal_for ops bw m.qos)

-- What a round has done: the transfers after it, the signals sent and the numbers to remove.
pub record Round (H F : Type 0) : Type 0 where
  pub transfers : Map ℕ (TransferMetadata H F)
  pub signals : List (ℕ × Signal)
  pub finished : List ℕ

module _ {H F : Type 0} where
  unfoldable pub note : ℕ → TransferMetadata H F → Visit H F → Round H F → Round H F
  note id m finish r = record r { transfers = (id, m) ∷ r.transfers; finished = id ∷ r.finished }
  note id m (keep m' none) r = record r { transfers = (id, m') ∷ r.transfers }
  note id m (keep m' (some signal)) r = record r {
    transfers = (id, m') ∷ r.transfers;
    signals = (id, signal) ∷ r.signals;
  }

  unfoldable pub remove_all : TransferManager H F → List ℕ → TransferManager H F
  remove_all m [] = m
  remove_all m (id ∷ ids) = remove_all (Managers.Transfer.remove m id).0 ids

module _ {H F : Type 0} (ops : FloatOps F) (state : H → CargoState) (bw : H → F) where
  -- The loop over the transfers; `state` and `bw` are what cargo's status gives.
  unfoldable pub survey : Map ℕ (TransferMetadata H F) → Round H F
  unfolding note visit
  survey [] = record { transfers = []; signals = []; finished = [] }
  survey ((id, m) ∷ rest) = note id m (visit ops (state m.handle) (bw m.handle) m) (survey rest)

  -- One round: the survey, and then the removal of what has finished.
  unfoldable pub scheduler_update : Server H F → Server H F × List (ℕ × Signal)
  unfolding survey remove_all
  scheduler_update s =
      let r = survey s.transfer_manager.transfers in
      (
        record s {
          transfer_manager =
              remove_all (record (s.transfer_manager) { transfers = r.transfers }) r.finished;
        },
        r.signals,
      )
