-- ===== src/Server/Consistency/History.antt =====
-- The tables of jobs and adhoc storages are consistent after any history of requests.
use io_scheduler.Prelude.{ℕ, ◌+◌, ◌<◌, ◌≤◌, ◌^◌, ◌≡◌, Option, List, [], ◌∷◌, arith, length, nat_key}
use io_scheduler.Prelude.Map
use io_scheduler.Managers
use io_scheduler.Managers.Job.View.{registered, create_lem}
use io_scheduler.Managers.{JobManager, AdhocManager}
use io_scheduler.Server.{Server, RedisCommand, init, ping}
use io_scheduler.Server.Jobs.{query, register_job, update_job, remove_job}
use io_scheduler.Server.Adhocs.{
  register_adhoc_storage, update_adhoc_storage, remove_adhoc_storage, deploy_adhoc_storage,
  terminate_adhoc_storage,
}
use io_scheduler.Server.Storages.{register_pfs_storage, update_pfs_storage, remove_pfs_storage}
use io_scheduler.Server.Transfers.{transfer_datasets, query_transfer}
use io_scheduler.Server.Scheduler.{scheduler_update}
use io_scheduler.Server.Requests.{
  Request, pings, queries, registers_job, updates_job, removes_job, registers_adhoc, updates_adhoc,
  removes_adhoc, deploys_adhoc, terminates_adhoc, registers_pfs, updates_pfs, removes_pfs,
  transfers_datasets, queries_transfer, schedules, World, step, run,
}
use io_scheduler.Server.Consistency.{IsConsistent}
use io_scheduler.Server.Consistency.Handlers.{
  Consistent, HasRoom, register_job-Consistent, update_job-Consistent, remove_job-Consistent,
  register_adhoc_storage-Consistent, update_adhoc_storage-Consistent,
  remove_adhoc_storage-Consistent, deploy_adhoc_storage-Consistent,
  terminate_adhoc_storage-Consistent,
}

module _ {H F : Type 0} (s : Server H F) (c : Consistent s) where
  -- A handler that leaves both managers alone.
  Consistent-same :
      (s' : Server H F)
      → s'.job_manager ≡ s.job_manager
      → s'.adhoc_manager ≡ s.adhoc_manager
      → Consistent s'
  Consistent-same s' jobs adhocs = rw (jobs, adhocs) c

  pub step-Consistent : HasRoom s → (w : World H F) (r : Request) → Consistent (step w s r)
  unfolding step
  step-Consistent room w (registers_job from now res reqs slurm_id) =
      register_job-Consistent s c room from now res reqs slurm_id
  step-Consistent room w (updates_job from id res) = update_job-Consistent s c from id res
  step-Consistent room w (removes_job from id) = remove_job-Consistent s c from id
  step-Consistent room w (registers_adhoc from random name type ctx res) =
      register_adhoc_storage-Consistent s c room from random name type ctx res
  step-Consistent room w (updates_adhoc from id res) =
      update_adhoc_storage-Consistent s c w.remote from id res
  step-Consistent room w (removes_adhoc from id) = remove_adhoc_storage-Consistent s c from id
  step-Consistent room w (deploys_adhoc from now id) =
      deploy_adhoc_storage-Consistent s c w.remote from now id
  step-Consistent room w (terminates_adhoc from now id) =
      terminate_adhoc_storage-Consistent s c w.remote from now id
  step-Consistent room w (pings from) =
      Consistent-same (ping s from).0 (unfold ping in ground arith) (unfold ping in ground arith)
  step-Consistent room w (queries from slurm_id) =
      Consistent-same (query s from slurm_id).0 (unfold query in ground arith)
        (unfold query in ground arith)
  step-Consistent room w (registers_pfs from name type ctx) =
      Consistent-same (register_pfs_storage s from name type ctx).0
        (unfold register_pfs_storage in ground arith) (unfold register_pfs_storage in ground arith)
  step-Consistent room w (updates_pfs from id ctx) =
      Consistent-same (update_pfs_storage s from id ctx).0
        (unfold update_pfs_storage in ground arith) (unfold update_pfs_storage in ground arith)
  step-Consistent room w (removes_pfs from id) =
      Consistent-same (remove_pfs_storage s from id).0 (unfold remove_pfs_storage in ground arith)
        (unfold remove_pfs_storage in ground arith)
  step-Consistent room w (transfers_datasets from id sources targets limits) =
      Consistent-same (transfer_datasets w.start w.ops.minus_one s from id sources targets limits).0
        (unfold transfer_datasets in ground arith) (unfold transfer_datasets in ground arith)
  step-Consistent room w (queries_transfer from id tx_id) =
      Consistent-same (query_transfer w.state s from id tx_id).0
        (unfold query_transfer in ground arith) (unfold query_transfer in ground arith)
  step-Consistent room w schedules =
      Consistent-same (scheduler_update w.ops w.state w.bw s).0
        (unfold scheduler_update in ground arith) (unfold scheduler_update in ground arith)

-- A call of a manager takes one number at most.
pub next-le : (n : ℕ) → Managers.Counter.next n ≤ n + 1
unfolding Managers.Counter.next
next-le n = omega arith

module _ {H F : Type 0} (w : World H F) (s : Server H F) where
  job_number-step :
      (r : Request) → (step w s r).job_manager.current_id ≤ s.job_manager.current_id + 1
  unfolding step ping query register_job update_job remove_job register_adhoc_storage
      update_adhoc_storage remove_adhoc_storage deploy_adhoc_storage terminate_adhoc_storage
      register_pfs_storage update_pfs_storage remove_pfs_storage transfer_datasets query_transfer
      scheduler_update Managers.Job.create Managers.Job.update Managers.Job.remove
  job_number-step (pings from) = ground (arith, next-le s.job_manager.current_id)
  job_number-step _ = ground (arith, next-le s.job_manager.current_id)

  adhoc_number-step :
      (r : Request) → (step w s r).adhoc_manager.current_id ≤ s.adhoc_manager.current_id + 1
  unfolding step ping query register_job update_job remove_job register_adhoc_storage
      update_adhoc_storage remove_adhoc_storage deploy_adhoc_storage terminate_adhoc_storage
      register_pfs_storage update_pfs_storage remove_pfs_storage transfer_datasets query_transfer
      scheduler_update Managers.Adhoc.create Managers.Adhoc.update Managers.Adhoc.remove
      Managers.Adhoc.add_client_at Managers.Adhoc.remove_client_info
  adhoc_number-step (pings from) = ground (arith, next-le s.adhoc_manager.current_id)
  adhoc_number-step _ = ground (arith, next-le s.adhoc_manager.current_id)

init-IsConsistent : IsConsistent Managers.Job.init Managers.Adhoc.init
unfolding Managers.Job.init Managers.Adhoc.init Managers.Job.View.view Map.find
init-IsConsistent = record {
  jobs_valid = Managers.Job.View.init-IsValid;
  adhocs_valid = Managers.Adhoc.View.init-IsValid;
  links = λ j o e. absurd (cc);
  clients = λ id q p a e d k. absurd (cc);
}

module _ {H F : Type 0} where
  run_keeps :
      (s : Server H F) (rs : List (World H F × Request))
      → Consistent s
      → s.job_manager.current_id + length rs + 1 < 2 ^ 64
      → s.adhoc_manager.current_id + length rs + 1 < 2 ^ 64
      → Consistent (run s rs)
  unfolding run
  run_keeps s [] c jobs adhocs = c
  run_keeps s ((w, r) ∷ rs) c jobs adhocs =
      run_keeps (step w s r) rs (step-Consistent s c (omega arith, omega arith) w r)
        (omega (arith, job_number-step w s r)) (omega (arith, adhoc_number-step w s r))

  -- After any history of fewer than 2 ^ 64 - 1 requests and scheduler rounds from the start, with
  -- or without Redis and whatever the controllers, the transfer service and the clock answer:
  -- numbers lead to the metadata that bears them, the Slurm index to registered jobs, each job's
  -- pointer to the storage that its requirements name, and the client of a registered adhoc storage
  -- is a registered job that uses that storage.
  pub run-Consistent :
      (redis : Option (List RedisCommand)) (rs : List (World H F × Request))
      → length rs + 1 < 2 ^ 64
      → Consistent (run (init redis) rs)
  unfolding init Managers.Job.init Managers.Adhoc.init
  run-Consistent redis rs room =
      run_keeps (init redis) rs init-IsConsistent (omega arith) (omega arith)
