-- ===== src/Client/Capi.antt =====
-- The functions of src/lib/c_wrapper.cpp. What a C structure holds is taken as the C++ value that is made
-- of it. A call gives a return code and what it writes through its output pointer, if anything.
pub mod Waiting
use io_scheduler.Prelude.{
  ℕ, zero, suc, Bool, true, false, Option, none, some, List, [], ◌∷◌, if◌then◌else◌,
}
use io_scheduler.Types.{
  Bytes, ErrorCode, Expected, expected, unexpected, Job, JobResources, JobRequirements, AdhocType,
  AdhocContext, AdhocResources, AdhocStorage, PfsType, PfsContext, PfsStorage, Dataset, QosLimit,
  bandwidth,
}
use io_scheduler.Types
use io_scheduler.Utils.Routes.{ReturnCode}
use io_scheduler.Client
use io_scheduler.Client.{Connection, Ended, returns, terminates, Transfer}

-- `operator ADM_return_t` of `error_code`
abbrev pub return_code : ErrorCode → ReturnCode
return_code ErrorCode.success = ReturnCode.success
return_code ErrorCode.snafu = ReturnCode.snafu
return_code ErrorCode.bad_args = ReturnCode.bad_args
return_code ErrorCode.out_of_memory = ReturnCode.out_of_memory
return_code ErrorCode.entity_exists = ReturnCode.entity_exists
return_code ErrorCode.no_such_entity = ReturnCode.no_such_entity
return_code ErrorCode.adhoc_in_use = ReturnCode.adhoc_busy
return_code ErrorCode.adhoc_type_unsupported = ReturnCode.adhoc_type_unsupported
return_code ErrorCode.adhoc_dir_create_failed = ReturnCode.adhoc_dir_create_failed
return_code ErrorCode.adhoc_dir_exists = ReturnCode.adhoc_dir_exists
return_code ErrorCode.subprocess_error = ReturnCode.subprocess_error
return_code ErrorCode.no_resources = ReturnCode.no_resources
return_code ErrorCode.timeout = ReturnCode.timeout
return_code ErrorCode.other = ReturnCode.other

-- `ADM_transfer_state_t`
pub data TransferStatus : Type 0 where
  queued running finished failed cancelled : TransferStatus

abbrev pub coded : {S : Type 0} → S × ErrorCode → S × ReturnCode
coded (s, ec) = (s, return_code ec)

-- `if(!rv) return rv.error();` and the write through the output pointer.
abbrev pub written : {A : Type 0} → Ended (Expected A) → Ended (ReturnCode × Option A)
written (returns (expected a)) = returns (ReturnCode.success, some a)
written (returns (unexpected ec)) = returns (return_code ec, none)
written terminates = terminates

abbrev pub stored : {S A : Type 0} → S × Ended (Expected A) → S × Ended (ReturnCode × Option A)
stored (s, e) = (s, written e)

-- `ADM_deploy_adhoc_storage` copies the path into memory of its own, which `memory` says there is; on an
-- error the pointer is set to null.
abbrev pub copied : Bool → Ended (Expected Bytes) → Ended (ReturnCode × Option Bytes)
copied memory (returns (expected path)) =
    if memory
    then returns (ReturnCode.success, some path)
    else returns (ReturnCode.out_of_memory, none)
copied memory (returns (unexpected ec)) = returns (return_code ec, none)
copied memory terminates = terminates

abbrev pub copies :
    {S : Type 0} → Bool → S × Ended (Expected Bytes) → S × Ended (ReturnCode × Option Bytes)
copies memory (s, e) = (s, copied memory e)

replicate {ℓ} : {A : Type ℓ} → ℕ → A → List A
replicate zero a = []
replicate (suc n) a = a ∷ replicate n a

-- `convert` of one limit; `unset` is a limit that was only constructed.
unfoldable pub convert_limit : QosLimit → ℕ → ℕ → List QosLimit
unfolding replicate
convert_limit unset limit zero = []
convert_limit unset limit (suc others) =
    record { subclass = bandwidth; value = limit } ∷ replicate others unset

-- What an answer to `query_transfer` means to the loop that waits.
pub data Verdict : Type 0 where
  stop : ReturnCode → Verdict
  again aborted : Verdict

abbrev pub of_status : TransferStatus → Verdict
of_status queued = again
of_status running = again
of_status finished = stop ReturnCode.success
of_status failed = stop ReturnCode.success
of_status cancelled = stop ReturnCode.success

abbrev pub of_error : ErrorCode → Verdict
of_error ErrorCode.no_such_entity = stop ReturnCode.success
of_error ec = stop (return_code ec)

module _ {S T : Type 0} (c : Connection S T) (logging : Bool) where
  unfoldable pub ping : S → S × ReturnCode
  ping s = coded (Client.ping c logging s)

  unfoldable pub register_job :
      JobResources → JobRequirements → ℕ → S → S × Ended (ReturnCode × Option Job)
  register_job res reqs slurm_id s = stored (Client.register_job c logging res reqs slurm_id s)

  unfoldable pub update_job : Job → JobResources → S → S × ReturnCode
  update_job job res s = coded (Client.update_job c logging job res s)

  unfoldable pub remove_job : Job → S → S × ReturnCode
  remove_job job s = coded (Client.remove_job c logging job s)

  unfoldable pub register_adhoc_storage :
      Bytes
      → AdhocType
      → AdhocContext
      → AdhocResources
      → S
      → S × Ended (ReturnCode × Option AdhocStorage)
  register_adhoc_storage name type ctx res s =
      stored (Client.register_adhoc_storage c logging name type ctx res s)

  unfoldable pub update_adhoc_storage : AdhocStorage → AdhocResources → S → S × ReturnCode
  update_adhoc_storage storage res s = coded (Client.update_adhoc_storage c logging storage res s)

  unfoldable pub remove_adhoc_storage : AdhocStorage → S → S × ReturnCode
  remove_adhoc_storage storage s = coded (Client.remove_adhoc_storage c logging storage s)

  unfoldable pub deploy_adhoc_storage :
      Bool → AdhocStorage → S → S × Ended (ReturnCode × Option Bytes)
  deploy_adhoc_storage memory storage s =
      copies memory (Client.deploy_adhoc_storage c logging storage s)

  unfoldable pub terminate_adhoc_storage : AdhocStorage → S → S × ReturnCode
  terminate_adhoc_storage storage s = coded (Client.terminate_adhoc_storage c logging storage s)

  unfoldable pub register_pfs_storage :
      Bytes → PfsType → PfsContext → S → S × Ended (ReturnCode × Option PfsStorage)
  register_pfs_storage name type ctx s =
      stored (Client.register_pfs_storage c logging name type ctx s)

  unfoldable pub update_pfs_storage : PfsStorage → PfsContext → S → S × ReturnCode
  update_pfs_storage storage ctx s = coded (Client.update_pfs_storage c logging storage ctx s)

  unfoldable pub remove_pfs_storage : PfsStorage → S → S × ReturnCode
  remove_pfs_storage storage s = coded (Client.remove_pfs_storage c logging storage s)

  -- The state of a transfer, and what happens to the daemon during `sleep(5)`.
  module _ (status : T → TransferStatus) (sleep : S → S) where
    abbrev pub judge : Ended (Expected T) → Verdict
    judge (returns (expected state)) = of_status (status state)
    judge (returns (unexpected ec)) = of_error ec
    judge terminates = aborted

    abbrev pub poll : Job → Transfer → S → S × Ended (Expected T)
    poll job transfer s = Client.query_transfer c logging job transfer s

    -- The first query and the loop after it, with the number of queries that it may still make.
    pub wait_loop : ℕ → Job → Transfer → S → Option (S × Ended ReturnCode)
    wait_loop zero job transfer s = none
    wait_loop (suc rounds) job transfer s =
        let (s', answer) = poll job transfer s in
        elim (judge answer) [
          | stop code ↦ some (s', returns code)
          | aborted ↦ some (s', terminates)
          | again ↦ wait_loop rounds job transfer (sleep s')
        ]

    -- The transfer is handed to the caller before the wait.
    abbrev pub delivered : Transfer → Ended ReturnCode → Ended (ReturnCode × Option Transfer)
    delivered transfer (returns code) = returns (code, some transfer)
    delivered transfer terminates = terminates

    abbrev pub deliver :
        Transfer → Option (S × Ended ReturnCode) → Option (S × Ended (ReturnCode × Option Transfer))
    deliver transfer none = none
    deliver transfer (some (s, e)) = some (s, delivered transfer e)

    abbrev pub await :
        ℕ
        → Bool
        → Job
        → S × Ended (Expected Transfer)
        → Option (S × Ended (ReturnCode × Option Transfer))
    await rounds wait job (s, terminates) = some (s, terminates)
    await rounds wait job (s, returns (unexpected ec)) = some (s, returns (return_code ec, none))
    await rounds wait job (s, returns (expected transfer)) =
        if wait
        then deliver transfer (wait_loop rounds job transfer s)
        else some (s, returns (ReturnCode.success, some transfer))

    -- `none` means that more than `rounds` queries are needed.
    unfoldable pub transfer_datasets :
        ℕ
        → Bool
        → Job
        → List Dataset
        → List Dataset
        → List QosLimit
        → S
        → Option (S × Ended (ReturnCode × Option Transfer))
    unfolding wait_loop
    transfer_datasets rounds wait job sources targets limits s =
        await rounds wait job (Client.transfer_datasets c logging job sources targets limits s)

    unfoldable pub transfer_datasets_1 :
        ℕ
        → Bool
        → Job
        → List Dataset
        → List Dataset
        → QosLimit
        → ℕ
        → ℕ
        → S
        → Option (S × Ended (ReturnCode × Option Transfer))
    unfolding wait_loop convert_limit
    transfer_datasets_1 rounds wait job sources targets unset limit limits_len s =
        await rounds wait job (
          Client.transfer_datasets c logging job sources targets
            (convert_limit unset limit limits_len) s)
