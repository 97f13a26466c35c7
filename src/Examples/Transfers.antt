-- ===== src/Examples/Transfers.antt =====
-- The theorems on transfers and on the scheduler at concrete inputs.
use io_scheduler.Prelude.{ℕ, ◌≡◌, refl, some, none, [], ◌∷◌, arith, nat_key, deref}
use io_scheduler.Prelude.Map
use io_scheduler.Types.{expected}
use io_scheduler.Metadata.{AdhocMetadata}
use io_scheduler.Managers
use io_scheduler.Managers.Job.View.{created}
use io_scheduler.Server.{Server, responds, init}
use io_scheduler.Server.Jobs.{answer}
use io_scheduler.Server.Requests.{run}
use io_scheduler.Examples.Data.{storage, with_storage}
use io_scheduler.Examples.Served.{history, job_0, served, served-Consistent}
use io_scheduler.Types.{bandwidth}
use io_scheduler.Managers.Job.View
use io_scheduler.Managers.Transfer.Invariant.{IsValid, init-IsValid}
use io_scheduler.Server.Transfers.{transfer_datasets, query_transfer}
use io_scheduler.Server.Scheduler.{running, scheduler_update}
use io_scheduler.Server.Rounds.{survives, signalled, scheduler_update_round}
use io_scheduler.Server.Staging.{transfer_datasets-query_transfer}
use io_scheduler.Server.Consistency.Transfers.{run-TransfersValid}
use io_scheduler.Examples.Data.{world, ops}

run-TransfersValid_example : IsValid (run (init none) history).transfer_manager
run-TransfersValid_example = run-TransfersValid none history (omega arith)

transfer_datasets-query_transfer_example :
    (q : ℕ) × (a : AdhocMetadata) × (job_0.adhoc_metadata_ptr ≡ some q)
    × (deref (served none).adhoc_manager.objects q ≡ some a)
    × (a.adhoc_storage.id ≡ 0)
    × (let (s, outcome) = transfer_datasets world.start 1000 (served none) [] 0 [] [] [] in
        (outcome ≡ responds (answer 3 (expected 0)))
        × ((query_transfer world.state s [] 0 0).1
            ≡ responds (answer s.rpc_counter (expected running))))
unfolding Managers.Job.View.view Map.find deref Managers.Transfer.init
transfer_datasets-query_transfer_example =
    transfer_datasets-query_transfer world.start world.state 1000 (served none)
      (served-Consistent none) [] 0 [] [] [] job_0 with_storage storage init-IsValid refl refl refl

-- A running transfer whose bandwidth 5 is below its limit.
abbrev busy : Server ℕ ℕ
busy = record (served none) {
  transfer_manager = record {
    current_id = 1;
    transfers =
        (
          0,
          record {
            id = 0;
            handle = 42;
            qos = record { subclass = bandwidth; value = 9 } ∷ [];
            measured_bandwidth = 1000;
          },
        )
        ∷ [];
  };
}

scheduler_update_round_example :
    (let (s, signals) = scheduler_update ops world.state world.bw busy in
      let before = Map.find 0 busy.transfer_manager.transfers in
      (Map.find 0 s.transfer_manager.transfers
        ≡ elim before [ none ↦ none | some t ↦ survives ops world.state world.bw t ])
      × (Map.find 0 signals
          ≡ elim before [ none ↦ none | some t ↦ signalled ops world.state world.bw t ]))
unfolding Map.distinct
scheduler_update_round_example = scheduler_update_round ops world.state world.bw busy 0 refl
