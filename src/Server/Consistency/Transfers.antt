-- ===== src/Server/Consistency/Transfers.antt =====
-- The table of transfers is valid after any history of requests and rounds.
use io_scheduler.Prelude.{
  ℕ, ◌+◌, ◌<◌, ◌≤◌, ◌^◌, ◌≡◌, refl, Option, List, [], ◌∷◌, arith, length, nat_key, true, map, ◌⊎◌,
  inl, inr, Option-cases,
}
use io_scheduler.Prelude.Map
use io_scheduler.Prelude.Map.{Map, distinct}
use io_scheduler.Types.{Bytes, ErrorCode, Expected, expected, unexpected, Dataset, QosLimit}
use io_scheduler.Metadata.{TransferMetadata}
use io_scheduler.Managers
use io_scheduler.Managers.{TransferManager}
use io_scheduler.Managers.Transfer.Invariant.{IsValid, init-IsValid, create-IsValid, remove-IsValid}
use io_scheduler.Server.{Server, RedisCommand, Outcome, Fault, responds, faults, init, ping}
use io_scheduler.Server.Jobs.{query, register_job, update_job, remove_job}
use io_scheduler.Server.Adhocs.{
  register_adhoc_storage, update_adhoc_storage, remove_adhoc_storage, deploy_adhoc_storage,
  terminate_adhoc_storage,
}
use io_scheduler.Server.Storages.{register_pfs_storage, update_pfs_storage, remove_pfs_storage}
use io_scheduler.Server.Transfers.{dataset_process, job_stager, transfer_datasets, query_transfer}
use io_scheduler.Server.Scheduler.{FloatOps, CargoState, note, survey, remove_all, scheduler_update}
use io_scheduler.Server.Consistency.History.{next-le}
use io_scheduler.Server.Rounds.{measured, find-survey}
use io_scheduler.Server.Requests.{Request, transfers_datasets, schedules, World, step, run}

module _ {H F : Type 0} (ops : FloatOps F) (state : H → CargoState) (bw : H → F) where
  distinct-survey :
      (ts : Map ℕ (TransferMetadata H F))
      → distinct ts ≡ true
      → distinct (survey ops state bw ts).transfers ≡ true
  unfolding distinct survey note
  distinct-survey [] d = refl
  distinct-survey ((id, t) ∷ ts) d =
      ground (arith, distinct-survey ts, find-survey ops state bw ts id)

  id-measured : (t : TransferMetadata H F) → (measured ops state bw t).id ≡ t.id
  unfolding measured
  id-measured t = ground arith

  survey-IsValid :
      (m : TransferManager H F)
      → IsValid m
      → IsValid (record m { transfers = (survey ops state bw m.transfers).transfers })
  survey-IsValid m v = record {
    fresh = λ j t e. elim (Option-cases (Map.find j m.transfers)) [
      | inl none_there ↦ absurd (ground (arith, find-survey ops state bw m.transfers j))
      | inr (t', there) ↦
          (let same = find-survey ops state bw m.transfers j in
            ground (arith, same, id-measured t', v.fresh j t' there))
    ];
    single = distinct-survey m.transfers v.single;
  }

remove_all-IsValid :
    {H F : Type 0} (m : TransferManager H F)
    → IsValid m
    → (ids : List ℕ) → IsValid (remove_all m ids)
unfolding remove_all
remove_all-IsValid m v [] = v
remove_all-IsValid m v (id ∷ ids) =
    remove_all-IsValid (Managers.Transfer.remove m id).0 (remove-IsValid m v id) ids

current_id-remove_all :
    {H F : Type 0} (m : TransferManager H F) (ids : List ℕ)
    → (remove_all m ids).current_id ≡ m.current_id
unfolding remove_all Managers.Transfer.remove
current_id-remove_all m [] = refl
current_id-remove_all m (id ∷ ids) =
    ground (arith, current_id-remove_all (Managers.Transfer.remove m id).0 ids)

stager-cases :
    (r : Outcome (Expected Bytes))
    → ((a : Bytes) × (r ≡ responds (expected a)))
      ⊎ (((ec : ErrorCode) × (r ≡ responds (unexpected ec))) ⊎ ((f : Fault) × (r ≡ faults f)))
stager-cases (responds (expected a)) = inl (a, refl)
stager-cases (responds (unexpected ec)) = inr (inl (ec, refl))
stager-cases (faults f) = inr (inr (f, refl))

module _ {H F : Type 0} (w : World H F) (s : Server H F) (v : IsValid s.transfer_manager)
    (room : s.transfer_manager.current_id + 1 < 2 ^ 64) where
  transfer_datasets-TransfersValid :
      (from : Bytes) (id : ℕ) (sources targets : List Dataset) (limits : List QosLimit)
      → (let s' = (transfer_datasets w.start w.ops.minus_one s from id sources targets limits).0 in
          IsValid s'.transfer_manager)
  unfolding transfer_datasets
  transfer_datasets-TransfersValid from id sources targets limits =
      elim (stager-cases (job_stager s id)) [
        | inl (a, e) ↦
            rw (e, transfer_datasets)
              (create-IsValid w.ops.minus_one s.transfer_manager v
                (w.start a (map (λ (d : Dataset). dataset_process d.id) sources)
                  (map (λ (d : Dataset). dataset_process d.id) targets))
                limits room)
        | inr (inl (ec, e)) ↦ rw (e, transfer_datasets) v
        | inr (inr (f, e)) ↦ rw (e, transfer_datasets) v
      ]

  scheduler_update-TransfersValid :
      IsValid (scheduler_update w.ops w.state w.bw s).0.transfer_manager
  unfolding scheduler_update
  scheduler_update-TransfersValid =
      remove_all-IsValid
        (record (s.transfer_manager) {
          transfers = (survey w.ops w.state w.bw s.transfer_manager.transfers).transfers;
        })
        (survey-IsValid w.ops w.state w.bw s.transfer_manager v)
        (survey w.ops w.state w.bw s.transfer_manager.transfers).finished

  -- A handler that leaves the transfers alone.
  TransfersValid-same : (m : TransferManager H F) → m ≡ s.transfer_manager → IsValid m
  TransfersValid-same m e = rw e v

  step-TransfersValid : (r : Request) → IsValid (step w s r).transfer_manager
  unfolding step ping query register_job update_job remove_job register_adhoc_storage
      update_adhoc_storage remove_adhoc_storage deploy_adhoc_storage terminate_adhoc_storage
      register_pfs_storage update_pfs_storage remove_pfs_storage query_transfer
  step-TransfersValid (transfers_datasets from id sources targets limits) =
      transfer_datasets-TransfersValid from id sources targets limits
  step-TransfersValid schedules = scheduler_update-TransfersValid
  step-TransfersValid _ = TransfersValid-same _ (ground arith)

module _ {H F : Type 0} (w : World H F) (s : Server H F) where
  transfer_number-step :
      (r : Request) → (step w s r).transfer_manager.current_id ≤ s.transfer_manager.current_id + 1
  unfolding step ping query register_job update_job remove_job register_adhoc_storage
      update_adhoc_storage remove_adhoc_storage deploy_adhoc_storage terminate_adhoc_storage
      register_pfs_storage update_pfs_storage remove_pfs_storage transfer_datasets query_transfer
      scheduler_update Managers.Transfer.create
  transfer_number-step schedules =
      let r = survey w.ops w.state w.bw s.transfer_manager.transfers in
      omega (
        arith,
        current_id-remove_all (record (s.transfer_manager) { transfers = r.transfers }) r.finished,
      )
  transfer_number-step _ = ground (arith, next-le s.transfer_manager.current_id)

module _ {H F : Type 0} where
  run_keeps_transfers :
      (s : Server H F) (rs : List (World H F × Request))
      → IsValid s.transfer_manager
      → s.transfer_manager.current_id + length rs + 1 < 2 ^ 64
      → IsValid (run s rs).transfer_manager
  unfolding run
  run_keeps_transfers s [] v room = v
  run_keeps_transfers s ((w, r) ∷ rs) v room =
      run_keeps_transfers (step w s r) rs (step-TransfersValid w s v (omega arith) r)
        (omega (arith, transfer_number-step w s r))

  -- After any history of fewer than 2 ^ 64 - 1 requests and scheduler rounds from the start, each
  -- transfer is found under the number that its metadata bears, which is below the next number, and
  -- no number has two entries in the table.
  pub run-TransfersValid :
      (redis : Option (List RedisCommand)) (rs : List (World H F × Request))
      → length rs + 1 < 2 ^ 64
      → IsValid (run (init redis) rs).transfer_manager
  unfolding init Managers.Transfer.init
  run-TransfersValid redis rs room = run_keeps_transfers (init redis) rs init-IsValid (omega arith)
