-- ===== src/Server.antt =====
-- src/scord/rpc_server.hpp and src/scord/rpc_server.cpp: the state of the daemon. A child module
-- has the handlers of one kind of request, or proofs about them. Each handler is one step from the
-- state before it to the state after it with what came of it; two handlers do not overlap. Log
-- lines are left out.
pub mod Jobs
pub mod Adhocs
pub mod Storages
pub mod Transfers
pub mod Scheduler
pub mod Requests
pub mod Consistency
pub mod Queries
pub mod Registration
pub mod Removal
pub mod Outcomes
pub mod Rounds
pub mod Staging
pub mod Datasets
pub mod Controllers
use io_scheduler.Prelude.{ℕ, Bool, Option, none, some, List, [], ◌∷◌, ◌++◌}
use io_scheduler.Prelude.Bytes.{codes}
use io_scheduler.Types.{Bytes, ErrorCode, AdhocType, AdhocResources}
use io_scheduler.Network
use io_scheduler.Network.{GenericResponse, Response, RpcInfo}
use io_scheduler.Managers
use io_scheduler.Managers.{JobManager, AdhocManager, PfsManager, TransferManager}

-- A value of a Redis hash, before it is printed.
pub data FieldValue : Type 0 where
  text : Bytes → FieldValue
  number : ℕ → FieldValue
  adhoc_type : AdhocType → FieldValue

-- `hmset(std::to_string(key), fields)`
pub record RedisCommand : Type 0 where
  pub key : ℕ
  pub fields : List (Bytes × FieldValue)

-- A call of a procedure of an adhoc storage's controller.
pub record RemoteCall : Type 0 where
  pub address : Bytes
  pub name : Bytes
  pub uuid : Bytes
  pub type : AdhocType
  pub resources : Option AdhocResources

-- The network and the controllers behind it: whether an address can be looked up, and what a call
-- answers, where `none` is a call that failed.
pub record Remote : Type 0 where
  pub lookup : Bytes → Bool
  pub call : RemoteCall → Option GenericResponse
  pub call_with_value : RemoteCall → Option (Response Bytes)

-- `redis` is `none` if there is no connection, and otherwise holds the commands sent, oldest first;
-- `calls` holds the calls of controllers, oldest first.
pub record Server (H F : Type 0) : Type 0 where
  pub job_manager : JobManager
  pub adhoc_manager : AdhocManager
  pub pfs_manager : PfsManager
  pub transfer_manager : TransferManager H F
  pub redis : Option (List RedisCommand)
  pub calls : List RemoteCall
  pub rpc_counter : ℕ

-- How a handler goes wrong: `value()` of an expected that holds an error, `value()` of an empty
-- optional, or a use of a null pointer or an empty optional through `->`.
pub data Fault : Type 0 where
  bad_expected_access bad_optional_access null_dereference : Fault

pub data Outcome (A : Type 0) : Type 0 where
  responds : A → Outcome A
  faults : Fault → Outcome A

module _ {H F : Type 0} where
  unfoldable pub init : Option (List RedisCommand) → Server H F
  init redis = record {
    job_manager = Managers.Job.init;
    adhoc_manager = Managers.Adhoc.init;
    pfs_manager = Managers.Pfs.init;
    transfer_manager = Managers.Transfer.init;
    redis = redis;
    calls = [];
    rpc_counter = 0;
  }

  -- `rpc_info::create(name, address)`
  unfoldable pub start_rpc : Server H F → Bytes → Bytes → RpcInfo × Server H F
  unfolding Network.create
  start_rpc s name address =
      let (rpc, counter) = Network.create s.rpc_counter name address in
      (rpc, record s { rpc_counter = counter })

  -- `m_redis.value().hmset(…)`, where there is a connection.
  unfoldable pub hmset : Server H F → ℕ → List (Bytes × FieldValue) → Server H F
  hmset s key fields = elim s.redis [
    | none ↦ s
    | some log ↦ record s { redis = some (log ++ record { key = key; fields = fields } ∷ []) }
  ]

  unfoldable pub send : Server H F → RemoteCall → Server H F
  send s c = record s { calls = s.calls ++ c ∷ [] }

  unfoldable pub ping : Server H F → Bytes → Server H F × Outcome GenericResponse
  unfolding start_rpc
  ping s from =
      let (rpc, s1) = start_rpc s (codes "ADM_ping") from in
      (s1, responds (record { op_id = rpc.id; error_code = ErrorCode.success }))
