-- ===== src/Examples/Requests.antt =====
-- The theorems on the daemon's handlers at concrete inputs.
use mathlib.Core.Option
use io_scheduler.Prelude.{◌≡◌, refl, some, none, [], arith, nat_key}
use io_scheduler.Prelude.Map
use io_scheduler.Types.{AdhocStorage, expected}
use io_scheduler.Managers
use io_scheduler.Managers.Job.View.{created}
use io_scheduler.Managers.Adhoc.Clients.{claim}
use io_scheduler.Server.{responds, init}
use io_scheduler.Server.Jobs.{answer, register_job, required_adhoc}
use io_scheduler.Server.Requests.{run}
use io_scheduler.Server.Consistency.Handlers.{Consistent}
use io_scheduler.Server.Consistency.History.{run-Consistent}
use io_scheduler.Server.Registration.{register_job_met}
use io_scheduler.Examples.Data.{storage, job_resources, with_storage}
use io_scheduler.Examples.Served.{history, served, served-Consistent}

run-Consistent_example : Consistent (run (init none) history)
run-Consistent_example = run-Consistent none history (omega arith)

-- The requirements of a job that asks for a storage that is not there.
abbrev storage_9 : AdhocStorage
storage_9 = record storage { id = 9 }

-- A second job asks for the storage that the first one holds.
register_job_met_example :
    (let (s, response) = register_job (served none) [] 0 job_resources with_storage 11 in
      (response ≡ responds (answer 3 (expected 2)))
      × (Managers.Job.View.view s.job_manager 2
          ≡ some (created (served none).job_manager 11 job_resources with_storage (some 0)))
      × (Managers.Adhoc.View.view s.adhoc_manager 0
          ≡ Option.map (claim 2) (Managers.Adhoc.View.view (served none).adhoc_manager 0)))
unfolding required_adhoc Managers.Adhoc.find Map.find
register_job_met_example =
    register_job_met (served none) (served-Consistent none) (omega arith) [] 0 job_resources
      with_storage 11 (some 0) 2 0 refl refl
