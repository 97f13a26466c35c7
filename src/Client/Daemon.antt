-- ===== src/Client/Daemon.antt =====
-- The daemon of src/scord as a client's connection: its handlers behind the network.
pub mod RoundTrip
use io_scheduler.Prelude.{ℕ, Bool, true, Option, none, some}
use io_scheduler.Types.{Bytes}
use io_scheduler.Client.{Connection}
use io_scheduler.Server
use io_scheduler.Server.{Server, Outcome, responds, faults}
use io_scheduler.Server.Jobs
use io_scheduler.Server.Adhocs
use io_scheduler.Server.Storages
use io_scheduler.Server.Transfers
use io_scheduler.Server.Requests.{World}
use io_scheduler.Server.Scheduler.{CargoState}

-- A handler that faults gives no answer.
abbrev pub reply : {A : Type 0} → Outcome A → Option A
reply (responds a) = some a
reply (faults fault) = none

abbrev pub replied : {S A : Type 0} → S × Outcome A → S × Option A
replied (s, o) = (s, reply o)

-- `from` is the client's address, `now` the clock's time, and `random` the random device's text.
abbrev pub daemon :
    {H F : Type 0} → World H F → Bytes → ℕ → Bytes → Connection (Server H F) CargoState
daemon w from now random = record {
  lookup = true;
  ping = λ s. replied (Server.ping s from);
  query = λ id s. replied (Jobs.query s from id);
  register_job = λ res reqs slurm_id s. replied (Jobs.register_job s from now res reqs slurm_id);
  update_job = λ id res s. replied (Jobs.update_job s from id res);
  remove_job = λ id s. replied (Jobs.remove_job s from id);
  register_adhoc_storage = λ name type ctx res s.
      replied (Adhocs.register_adhoc_storage s from random name type ctx res);
  update_adhoc_storage = λ id res s. replied (Adhocs.update_adhoc_storage w.remote s from id res);
  remove_adhoc_storage = λ id s. replied (Adhocs.remove_adhoc_storage s from id);
  register_pfs_storage =
      λ name type ctx s. replied (Storages.register_pfs_storage s from name type ctx);
  update_pfs_storage = λ id ctx s. replied (Storages.update_pfs_storage s from id ctx);
  remove_pfs_storage = λ id s. replied (Storages.remove_pfs_storage s from id);
  deploy_adhoc_storage = λ id s. replied (Adhocs.deploy_adhoc_storage w.remote s from now id);
  terminate_adhoc_storage = λ id s. replied (Adhocs.terminate_adhoc_storage w.remote s from now id);
  transfer_datasets = λ id sources targets limits s.
      replied
        (Transfers.transfer_datasets w.start w.ops.minus_one s from id sources targets limits);
  query_transfer = λ id tx_id s. replied (Transfers.query_transfer w.state s from id tx_id);
}
