-- ===== src/Client.antt =====
-- src/lib/detail/impl.cpp: the client library's functions, one for each procedure of the daemon. Each
-- looks up the daemon, calls it and reads the response. The network and the daemon are a
-- `Connection`; log lines are left out but for what they evaluate.
pub mod Api
pub mod Capi
pub mod Daemon
use mathlib.Core.Option
use io_scheduler.Prelude.{ℕ, Bool, Option, none, some, List, if◌then◌else◌}
use io_scheduler.Types.{
  Bytes, ErrorCode, other, is_success, Expected, expected, unexpected, Job, JobInfo, JobResources,
  JobRequirements, AdhocType, AdhocContext, AdhocResources, AdhocStorage, PfsType, PfsContext,
  PfsStorage, Dataset, QosLimit,
}
use io_scheduler.Network.{GenericResponse, Response}

-- `scord::transfer`
pub record Transfer : Type 0 where
  pub id : ℕ  -- uint64_t

-- A daemon with state S as its clients see it, and the states T of transfers: whether its address can be
-- looked up, and its procedures, where an answer `none` is a call that failed.
pub record Connection (S T : Type 0) : Type 0 where
  pub lookup : Bool
  pub ping : S → S × Option GenericResponse
  pub query : ℕ → S → S × Option (Response JobInfo)
  pub register_job : JobResources → JobRequirements → ℕ → S → S × Option (Response ℕ)
  pub update_job : ℕ → JobResources → S → S × Option GenericResponse
  pub remove_job : ℕ → S → S × Option GenericResponse
  pub register_adhoc_storage :
      Bytes → AdhocType → AdhocContext → AdhocResources → S → S × Option (Response ℕ)
  pub update_adhoc_storage : ℕ → AdhocResources → S → S × Option GenericResponse
  pub remove_adhoc_storage : ℕ → S → S × Option GenericResponse
  pub register_pfs_storage : Bytes → PfsType → PfsContext → S → S × Option (Response ℕ)
  pub update_pfs_storage : ℕ → PfsContext → S → S × Option GenericResponse
  pub remove_pfs_storage : ℕ → S → S × Option GenericResponse
  pub deploy_adhoc_storage : ℕ → S → S × Option (Response Bytes)
  pub terminate_adhoc_storage : ℕ → S → S × Option GenericResponse
  pub transfer_datasets :
      ℕ → List Dataset → List Dataset → List QosLimit → S → S × Option (Response ℕ)
  pub query_transfer : ℕ → ℕ → S → S × Option (Response T)

-- How a function of the client ends: it returns, or `value()`, which is `noexcept`, is called on an
-- empty optional, and the process is terminated.
pub data Ended (A : Type 0) : Type 0 where
  returns : A → Ended A
  terminates : Ended A

-- The lookup and the call.
abbrev pub call : {S A : Type 0} → Bool → (S → S × Option A) → S → S × Option A
call found procedure s = if found then procedure s else (s, none)

-- The end of a function that returns an error code.
abbrev pub code_of : Option GenericResponse → ErrorCode
code_of none = other
code_of (some resp) = resp.error_code

abbrev pub then_code : {S : Type 0} → S × Option GenericResponse → S × ErrorCode
then_code (s, reply) = (s, code_of reply)

-- `LOGGER_EVAL` of a response with a value: where there is a default logger it calls `value()`
-- whatever the error code is. `make` is what the function makes of the value.
abbrev pub read_value : {A B : Type 0} → Bool → (A → B) → ErrorCode → Option A → Ended (Expected B)
read_value logging make ec none =
    if logging then terminates else if is_success ec then terminates else returns (unexpected ec)
read_value logging make ec (some v) =
    if is_success ec then returns (expected (make v)) else returns (unexpected ec)

abbrev pub value_of : {A B : Type 0} → Bool → (A → B) → Option (Response A) → Ended (Expected B)
value_of logging make none = returns (unexpected other)
value_of logging make (some resp) = read_value logging make resp.error_code resp.value

abbrev pub then_value :
    {S A B : Type 0} → Bool → (A → B) → S × Option (Response A) → S × Ended (Expected B)
then_value logging make (s, reply) = (s, value_of logging make reply)

-- `logging` says whether there is a default logger.
module _ {S T : Type 0} (c : Connection S T) (logging : Bool) where
  unfoldable pub ping : S → S × ErrorCode
  ping s = then_code (call c.lookup c.ping s)

  unfoldable pub query : ℕ → S → S × Ended (Expected JobInfo)
  query slurm_id s = then_value logging (λ info. info) (call c.lookup (c.query slurm_id) s)

  unfoldable pub register_job : JobResources → JobRequirements → ℕ → S → S × Ended (Expected Job)
  register_job res reqs slurm_id s =
      then_value logging (λ id. record { id = id; slurm_id = slurm_id })
        (call c.lookup (c.register_job res reqs slurm_id) s)

  unfoldable pub update_job : Job → JobResources → S → S × ErrorCode
  update_job job new_resources s = then_code (call c.lookup (c.update_job job.id new_resources) s)

  unfoldable pub remove_job : Job → S → S × ErrorCode
  remove_job job s = then_code (call c.lookup (c.remove_job job.id) s)

  unfoldable pub register_adhoc_storage :
      Bytes → AdhocType → AdhocContext → AdhocResources → S → S × Ended (Expected AdhocStorage)
  register_adhoc_storage name type ctx resources s =
      then_value logging
        (λ id. record { type = type; name = name; id = id; context = ctx; resources = resources })
        (call c.lookup (c.register_adhoc_storage name type ctx resources) s)

  unfoldable pub update_adhoc_storage : AdhocStorage → AdhocResources → S → S × ErrorCode
  update_adhoc_storage storage new_resources s =
      then_code (call c.lookup (c.update_adhoc_storage storage.id new_resources) s)

  unfoldable pub remove_adhoc_storage : AdhocStorage → S → S × ErrorCode
  remove_adhoc_storage storage s = then_code (call c.lookup (c.remove_adhoc_storage storage.id) s)

  unfoldable pub register_pfs_storage :
      Bytes → PfsType → PfsContext → S → S × Ended (Expected PfsStorage)
  register_pfs_storage name type ctx s =
      then_value logging (λ id. record { type = type; name = name; id = id; context = ctx })
        (call c.lookup (c.register_pfs_storage name type ctx) s)

  unfoldable pub update_pfs_storage : PfsStorage → PfsContext → S → S × ErrorCode
  update_pfs_storage storage new_ctx s =
      then_code (call c.lookup (c.update_pfs_storage storage.id new_ctx) s)

  unfoldable pub remove_pfs_storage : PfsStorage → S → S × ErrorCode
  remove_pfs_storage storage s = then_code (call c.lookup (c.remove_pfs_storage storage.id) s)

  unfoldable pub deploy_adhoc_storage : AdhocStorage → S → S × Ended (Expected Bytes)
  deploy_adhoc_storage storage s =
      then_value logging (λ path. path) (call c.lookup (c.deploy_adhoc_storage storage.id) s)

  unfoldable pub terminate_adhoc_storage : AdhocStorage → S → S × ErrorCode
  terminate_adhoc_storage storage s =
      then_code (call c.lookup (c.terminate_adhoc_storage storage.id) s)

  unfoldable pub transfer_datasets :
      Job → List Dataset → List Dataset → List QosLimit → S → S × Ended (Expected Transfer)
  transfer_datasets job sources targets limits s =
      then_value logging (λ id. record { id = id })
        (call c.lookup (c.transfer_datasets job.id sources targets limits) s)

  unfoldable pub query_transfer : Job → Transfer → S → S × Ended (Expected T)
  query_transfer job transfer s =
      then_value logging (λ state. state) (call c.lookup (c.query_transfer job.id transfer.id) s)
