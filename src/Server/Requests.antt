-- ===== src/Server/Requests.antt =====
-- The requests that the daemon serves and the rounds of its scheduler, as one step function, and
-- histories of them. A request carries what its sender gives (and the sender's address) and what
-- the clock and the random device give.
use io_scheduler.Prelude.{ℕ, List, [], ◌∷◌}
use io_scheduler.Types.{
  Bytes, Dataset, JobResources, JobRequirements, AdhocType, AdhocContext, AdhocResources, PfsType,
  PfsContext, QosLimit,
}
use io_scheduler.Server.{Server, Remote, ping}
use io_scheduler.Server.Jobs.{query, register_job, update_job, remove_job}
use io_scheduler.Server.Adhocs.{
  register_adhoc_storage, update_adhoc_storage, remove_adhoc_storage, deploy_adhoc_storage,
  terminate_adhoc_storage,
}
use io_scheduler.Server.Storages.{register_pfs_storage, update_pfs_storage, remove_pfs_storage}
use io_scheduler.Server.Transfers.{CargoDataset, transfer_datasets, query_transfer}
use io_scheduler.Server.Scheduler.{FloatOps, CargoState, scheduler_update}

pub data Request : Type 0 where
  pings : Bytes → Request
  queries : Bytes → ℕ → Request
  registers_job : Bytes → ℕ → JobResources → JobRequirements → ℕ → Request
  updates_job : Bytes → ℕ → JobResources → Request
  removes_job : Bytes → ℕ → Request
  registers_adhoc : Bytes → Bytes → Bytes → AdhocType → AdhocContext → AdhocResources → Request
  updates_adhoc : Bytes → ℕ → AdhocResources → Request
  removes_adhoc : Bytes → ℕ → Request
  deploys_adhoc : Bytes → ℕ → ℕ → Request
  terminates_adhoc : Bytes → ℕ → ℕ → Request
  registers_pfs : Bytes → Bytes → PfsType → PfsContext → Request
  updates_pfs : Bytes → ℕ → PfsContext → Request
  removes_pfs : Bytes → ℕ → Request
  transfers_datasets : Bytes → ℕ → List Dataset → List Dataset → List QosLimit → Request
  queries_transfer : Bytes → ℕ → ℕ → Request
  schedules : Request

-- What is outside the daemon: the controllers and the transfer service.
pub record World (H F : Type 0) : Type 0 where
  pub remote : Remote
  pub start : Bytes → List CargoDataset → List CargoDataset → H
  pub state : H → CargoState
  pub bw : H → F
  pub ops : FloatOps F

module _ {H F : Type 0} where
  -- The state that a request leaves. The world may differ from one request to the next.
  unfoldable pub step : World H F → Server H F → Request → Server H F
  step w s (pings from) = (ping s from).0
  step w s (queries from slurm_id) = (query s from slurm_id).0
  step w s (registers_job from now res reqs slurm_id) =
      (register_job s from now res reqs slurm_id).0
  step w s (updates_job from id res) = (update_job s from id res).0
  step w s (removes_job from id) = (remove_job s from id).0
  step w s (registers_adhoc from random name type ctx res) =
      (register_adhoc_storage s from random name type ctx res).0
  step w s (updates_adhoc from id res) = (update_adhoc_storage w.remote s from id res).0
  step w s (removes_adhoc from id) = (remove_adhoc_storage s from id).0
  step w s (deploys_adhoc from now id) = (deploy_adhoc_storage w.remote s from now id).0
  step w s (terminates_adhoc from now id) = (terminate_adhoc_storage w.remote s from now id).0
  step w s (registers_pfs from name type ctx) = (register_pfs_storage s from name type ctx).0
  step w s (updates_pfs from id ctx) = (update_pfs_storage s from id ctx).0
  step w s (removes_pfs from id) = (remove_pfs_storage s from id).0
  step w s (transfers_datasets from id sources targets limits) =
      (transfer_datasets w.start w.ops.minus_one s from id sources targets limits).0
  step w s (queries_transfer from id tx_id) = (query_transfer w.state s from id tx_id).0
  step w s schedules = (scheduler_update w.ops w.state w.bw s).0

  unfoldable pub run : Server H F → List (World H F × Request) → Server H F
  run s [] = s
  run s ((w, r) ∷ rs) = run (step w s r) rs
