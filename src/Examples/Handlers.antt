-- ===== src/Examples/Handlers.antt =====
-- The theorems on `remove_job`, on Redis and on the handlers that call controllers at concrete
-- inputs.
use mathlib.Core.Option
use io_scheduler.Prelude.{◌≡◌, refl, some, none, [], ◌∷◌, arith, nat_key, deref}
use io_scheduler.Prelude.Map
use io_scheduler.Metadata
use io_scheduler.Metadata.{JobMetadata, AdhocMetadata}
use io_scheduler.Managers
use io_scheduler.Managers.Job.View.{created}
use io_scheduler.Server.{responds}
use io_scheduler.Server.Jobs.{register_job}
use io_scheduler.Examples.Data.{storage, job_resources, with_storage}
use io_scheduler.Examples.Served.{adhoc_0, job_0, served, served-Consistent}
use io_scheduler.Types.{AdhocResources, success}
use io_scheduler.Managers.Job.View
use io_scheduler.Managers.Adhoc.View.{view}
use io_scheduler.Server.Jobs.{remove_job}
use io_scheduler.Server.Adhocs.{update_adhoc_storage}
use io_scheduler.Server.Removal.{
  freed, given_back, removal_verdict, remove_job_known, register_job-remove_job,
}
use io_scheduler.Server.Outcomes.{resize_call, resize_outcome, update_adhoc_storage_known}
use io_scheduler.Examples.Data.{remote}

remove_job_known_example :
    (let (s, response) = remove_job (served none) [] 0 in
      (response
        ≡ responds (record {
          op_id = 3;
          error_code = removal_verdict (some storage) (view (served none).adhoc_manager);
        }))
      × (Managers.Job.View.view s.job_manager 0 ≡ none)
      × (view s.adhoc_manager 0 ≡ given_back (some storage) 0 (view (served none).adhoc_manager 0)))
unfolding Managers.Job.View.view Map.find deref
remove_job_known_example =
    remove_job_known (served none) (served-Consistent none) [] 0 job_0 with_storage 0 0 refl refl

-- The storage that job 0 holds is lost to it when another job comes and goes.
register_job-remove_job_example :
    (let s =
        (remove_job (register_job (served none) [] 0 job_resources with_storage 11).0 [] 2).0 in
      (Managers.Job.View.view s.job_manager 0 ≡ Managers.Job.View.view (served none).job_manager 0)
      × (view s.adhoc_manager 0 ≡ some (freed adhoc_0)))
unfolding view Map.find deref
register_job-remove_job_example =
    register_job-remove_job (served none) (served-Consistent none) (omega arith) [] [] 0
      job_resources with_storage 11 storage adhoc_0 0 0 refl refl refl

-- The storage of one node gets none.
abbrev no_nodes : AdhocResources
no_nodes = record { nodes = [] }

update_adhoc_storage_known_example :
    (let (s, outcome) = update_adhoc_storage remote (served none) [] 0 no_nodes in
      (view s.adhoc_manager 0
        ≡ Option.map (Metadata.Adhoc.update no_nodes) (view (served none).adhoc_manager 0))
      × (s.calls ≡ resize_call adhoc_0 no_nodes ∷ [])
      × (outcome ≡ resize_outcome 3 (some (record { op_id = 0; error_code = success }))))
unfolding view Map.find deref
update_adhoc_storage_known_example =
    update_adhoc_storage_known remote (served none) (served-Consistent none) [] 0 no_nodes adhoc_0 0
      refl
