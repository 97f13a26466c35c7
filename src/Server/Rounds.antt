-- ===== src/Server/Rounds.antt =====
-- What a round of the scheduler does to each transfer.
use mathlib.Core.Option
use io_scheduler.Prelude.{
  ℕ, ◌≡◌, refl, Bool, true, false, Option, none, some, List, [], ◌∷◌, arith, nat_key, ◌==◌,
  if◌then◌else◌, nat_beq_iff,
}
use io_scheduler.Prelude.Map
use io_scheduler.Prelude.Map.{Map, distinct, find-erase}
use io_scheduler.Types.{QosLimit}
use io_scheduler.Metadata
use io_scheduler.Metadata.{TransferMetadata}
use io_scheduler.Managers
use io_scheduler.Managers.{TransferManager}
use io_scheduler.Server.{Server}
use io_scheduler.Server.Scheduler.{
  CargoState, pending, running, completed, failed, FloatOps, Signal, slow_down, speed_up,
  signal_for, visit, note, remove_all, survey, scheduler_update,
}

abbrev member : ℕ → List ℕ → Bool
member j [] = false
member j (i ∷ is) = if i == j then true else member j is

-- Whether a transfer is over.
pub is_over : CargoState → Bool
is_over completed = true
is_over failed = true
is_over pending = false
is_over running = false

module _ {H F : Type 0} where
  find-remove :
      (m : TransferManager H F) (id j : ℕ)
      → Map.find j (Managers.Transfer.remove m id).0.transfers
        ≡ (if id == j then none else Map.find j m.transfers)
  unfolding Managers.Transfer.remove
  find-remove m id j = ground (arith, find-erase id m.transfers j)

  find-remove_all :
      (m : TransferManager H F) (ids : List ℕ) (j : ℕ)
      → Map.find j (remove_all m ids).transfers
        ≡ (if member j ids then none else Map.find j m.transfers)
  unfolding remove_all
  find-remove_all m [] j = refl
  find-remove_all m (id ∷ ids) j =
      ground (arith, find-remove_all (Managers.Transfer.remove m id).0 ids j, find-remove m id j)

module _ {H F : Type 0} (ops : FloatOps F) (state : H → CargoState) (bw : H → F) where
  -- The metadata after the visit: that of a running transfer has the new bandwidth.
  unfoldable pub measured : TransferMetadata H F → TransferMetadata H F
  measured t = elim (state t.handle) [
    | running ↦ record t { measured_bandwidth = bw t.handle }
    | _ ↦ t
  ]

  -- A transfer that is over is dropped.
  pub survives : TransferMetadata H F → Option (TransferMetadata H F)
  survives t = if is_over (state t.handle) then none else some (measured t)

  -- Whether nothing was measured, and whether the bandwidth with a tenth more is above the limit or with a
  -- tenth less below it.
  abbrev pub advised : Bool → Bool → Bool → Option Signal
  advised false true _ = some slow_down
  advised false false true = some speed_up
  advised _ _ _ = none

  -- The signal that a bandwidth gets from the first of the limits.
  abbrev pub due : F → List QosLimit → Option Signal
  due b [] = none
  due b (limit ∷ limits) =
      let tenth = ops.mul b ops.threshold in
      let most = ops.of_uint64 limit.value in
      advised (ops.eq b ops.minus_one) (ops.gt (ops.add b tenth) most)
        (ops.lt (ops.sub b tenth) most)

  -- The signal for a transfer: only a running one gets any.
  pub signalled : TransferMetadata H F → Option Signal
  signalled t = elim (state t.handle) [ running ↦ due (bw t.handle) t.qos | _ ↦ none ]

  signal_for-due : (b : F) (qos : List QosLimit) → signal_for ops b qos ≡ due b qos
  unfolding signal_for
  signal_for-due b [] = refl
  signal_for-due b (limit ∷ limits) = ground arith

  pub find-survey :
      (ts : Map ℕ (TransferMetadata H F)) (j : ℕ)
      → Map.find j (survey ops state bw ts).transfers ≡ Option.map measured (Map.find j ts)
  unfolding Map.find survey note visit measured Metadata.Transfer.update
  find-survey [] j = refl
  find-survey ((id, t) ∷ ts) j = ground (arith, find-survey ts j)

  member-survey :
      (ts : Map ℕ (TransferMetadata H F)) (j : ℕ)
      → distinct ts ≡ true
      → member j (survey ops state bw ts).finished
        ≡ elim (Map.find j ts) [ none ↦ false | some t ↦ is_over (state t.handle) ]
  unfolding Map.find distinct survey note visit is_over Metadata.Transfer.update
  member-survey [] j d = refl
  member-survey ((id, t) ∷ ts) j d = ground (arith, member-survey ts j, nat_beq_iff id j)

  signals-survey :
      (ts : Map ℕ (TransferMetadata H F)) (j : ℕ)
      → distinct ts ≡ true
      → Map.find j (survey ops state bw ts).signals
        ≡ elim (Map.find j ts) [ none ↦ none | some t ↦ signalled t ]
  unfolding Map.find distinct survey note visit signalled Metadata.Transfer.update
  signals-survey [] j d = refl
  signals-survey ((id, t) ∷ ts) j d =
      ground (arith, signals-survey ts j, nat_beq_iff id j, signal_for-due (bw t.handle) t.qos)

  -- If no number has two entries in the table, a round drops the transfers that the service says
  -- are completed or have failed, sets the bandwidth of each running one to what the service
  -- measures, and leaves pending ones alone; it tells each running transfer to slow down if that
  -- bandwidth and a tenth of it is above the transfer's first limit, else to speed up if the bandwidth
  -- less a tenth of it is below that limit, and sends no signal to any other, nor where there is no
  -- limit or the bandwidth is -1.
  pub scheduler_update_round :
      (s : Server H F) (j : ℕ)
      → distinct s.transfer_manager.transfers ≡ true
      → (let (s', signals) = scheduler_update ops state bw s in
          let before = Map.find j s.transfer_manager.transfers in
          (Map.find j s'.transfer_manager.transfers
            ≡ elim before [ none ↦ none | some t ↦ survives t ])
          × (Map.find j signals ≡ elim before [ none ↦ none | some t ↦ signalled t ]))
  unfolding scheduler_update survives measured is_over
  scheduler_update_round s j d = (
    ground (
      arith,
      find-remove_all
          (record (s.transfer_manager) {
            transfers = (survey ops state bw s.transfer_manager.transfers).transfers;
          })
          (survey ops state bw s.transfer_manager.transfers).finished j,
      find-survey s.transfer_manager.transfers j,
      member-survey s.transfer_manager.transfers j d,
    ),
    signals-survey s.transfer_manager.transfers j d,
  )
