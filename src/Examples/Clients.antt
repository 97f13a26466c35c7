-- ===== src/Examples/Clients.antt =====
-- The theorems on the client library at concrete inputs.
use io_scheduler.Prelude.{
  ℕ, zero, suc, inl, inr, deref, Option, ◌-◌, ◌-◌, ◌<◌, ◌≡◌, refl, true, false, some, none, [],
  arith, nat_key,
}
use io_scheduler.Prelude.Map
use io_scheduler.Prelude.Bytes.{codes}
use io_scheduler.Types.{success, no_such_entity, unexpected, Job}
use io_scheduler.Managers
use io_scheduler.Utils.Routes.{ReturnCode}
use io_scheduler.Client
use io_scheduler.Client.{Connection, Ended, terminates, returns, Transfer}
use io_scheduler.Client.Api
use io_scheduler.Client.Api.{gives}
use io_scheduler.Client.Capi
use io_scheduler.Client.Capi.{TransferStatus, running, finished}
use io_scheduler.Client.Capi.Waiting.{
  before_query, answer, IsUnderway, Ends, transfer_datasets_waits,
}
use io_scheduler.Client.Daemon.{daemon}
use io_scheduler.Client.Daemon.RoundTrip.{query_unknown_logged, register_job-query}
use io_scheduler.Server.Jobs.{required_adhoc}
use io_scheduler.Examples.Data.{storage, job_resources, with_storage, world}
use io_scheduler.Examples.Served.{adhoc_0, served, served-Consistent}

query_unknown_logged_example :
    ((Client.query (daemon world [] 0 []) true 9 (served none)).1 ≡ terminates)
    × ((Client.query (daemon world [] 0 []) false 9 (served none)).1
        ≡ returns (unexpected no_such_entity))
unfolding Map.find
query_unknown_logged_example =
    query_unknown_logged world [] 0 [] (served none) (served-Consistent none) 9 refl

register_job-query_example :
    (let d = daemon world [] 0 [] in
      let registered = Api.register_job d true job_resources with_storage 11 (served none) in
      (registered.1 ≡ gives (record { id = 2; slurm_id = 11 }))
      × ((Api.query d true 11 registered.0).1
          ≡ gives (record {
            adhoc_controller_address = codes "ofi://10.0.0.1";
            uuid = adhoc_0.uuid;
            io_procs = 1;
          })))
unfolding required_adhoc Managers.Adhoc.find Map.find Managers.Adhoc.View.view deref
register_job-query_example =
    register_job-query world [] 0 [] (served none) (served-Consistent none) true job_resources
      with_storage 11 storage adhoc_0 (omega arith) refl refl refl refl

-- A daemon whose state is the number of sleeps until its transfer is over.
abbrev pub countdown : ℕ → TransferStatus
countdown zero = finished
countdown (suc n) = running

abbrev pub transferring : Connection ℕ TransferStatus
transferring = record {
  lookup = true;
  ping = λ s. (s, none);
  query = λ id s. (s, none);
  register_job = λ res reqs slurm_id s. (s, none);
  update_job = λ id res s. (s, none);
  remove_job = λ id s. (s, none);
  register_adhoc_storage = λ name type ctx res s. (s, none);
  update_adhoc_storage = λ id res s. (s, none);
  remove_adhoc_storage = λ id s. (s, none);
  register_pfs_storage = λ name type ctx s. (s, none);
  update_pfs_storage = λ id ctx s. (s, none);
  remove_pfs_storage = λ id s. (s, none);
  deploy_adhoc_storage = λ id s. (s, none);
  terminate_adhoc_storage = λ id s. (s, none);
  transfer_datasets = λ id sources targets limits s.
      (s, some (record { op_id = 0; error_code = success; value = some 4 }));
  query_transfer = λ id tx_id s.
      (s, some (record { op_id = 0; error_code = success; value = some (countdown s) }));
}

abbrev job : Job
job = record { id = 0; slurm_id = 7 }

abbrev transfer_4 : Transfer
transfer_4 = record { id = 4 }

first_query :
    (i : ℕ)
    → i < 1
    → IsUnderway transferring false
        (λ t. t)
        (λ n. n - 1)
        job
        transfer_4
        (answer transferring false (λ t. t) (λ n. n - 1) job transfer_4 i 1)
unfolding before_query Client.query_transfer
first_query zero h = (running, refl, inr refl)
first_query (suc i) h = absurd (omega arith)

last_query :
    ¬ IsUnderway transferring false
      (λ t. t)
      (λ n. n - 1)
      job
      transfer_4
      (answer transferring false (λ t. t) (λ n. n - 1) job transfer_4 1 1)
unfolding before_query Client.query_transfer
last_query (state, same, inl q) = cc
last_query (state, same, inr r) = cc

transfer_datasets_waits_example :
    (code : Ended (ReturnCode × Option Transfer)) × Ends transferring false
      (λ t. t)
      (λ n. n - 1)
      job
      transfer_4
      (answer transferring false (λ t. t) (λ n. n - 1) job transfer_4 1 1)
      code
    × (Capi.transfer_datasets transferring false (λ t. t) (λ n. n - 1) 9 true job [] [] [] 1
        ≡ some (0, code))
unfolding before_query Client.query_transfer Client.transfer_datasets
transfer_datasets_waits_example =
    transfer_datasets_waits transferring false (λ t. t) (λ n. n - 1) job transfer_4 1 9 [] [] [] 1 1
      refl (omega arith) first_query last_query
