-- ===== src/Client/Api.antt =====
-- The functions of src/lib/libscord.cpp, which throw on an error.
use io_scheduler.Prelude.{ℕ, Bool, List, if◌then◌else◌}
use io_scheduler.Prelude.Bytes.{codes}
use io_scheduler.Types.{
  Bytes, ErrorCode, is_success, Expected, expected, unexpected, Job, JobInfo, JobResources,
  JobRequirements, AdhocType, AdhocContext, AdhocResources, AdhocStorage, PfsType, PfsContext,
  PfsStorage, Dataset, QosLimit,
}
use io_scheduler.Client
use io_scheduler.Client.{Connection, Ended, returns, terminates, Transfer}

-- What the caller sees: a value, an exception whose message names a procedure and an error, or the end
-- of the process.
pub data Reply (A : Type 0) : Type 0 where
  gives : A → Reply A
  throws : Bytes → ErrorCode → Reply A
  aborts : Reply A

abbrev pub checked : {S : Type 0} → Bytes → S × ErrorCode → S × Reply (Unit {0})
checked name (s, ec) = (s, if is_success ec then gives tt else throws name ec)

abbrev pub given : {A : Type 0} → Bytes → Ended (Expected A) → Reply A
given name (returns (expected a)) = gives a
given name (returns (unexpected ec)) = throws name ec
given name terminates = aborts

abbrev pub unwrapped : {S A : Type 0} → Bytes → S × Ended (Expected A) → S × Reply A
unwrapped name (s, e) = (s, given name e)

module _ {S T : Type 0} (c : Connection S T) (logging : Bool) where
  unfoldable pub ping : S → S × Reply (Unit {0})
  unfolding Client.ping
  ping s = checked (codes "ADM_ping") (Client.ping c logging s)

  unfoldable pub query : ℕ → S → S × Reply JobInfo
  unfolding Client.query
  query id s = unwrapped (codes "ADM_query") (Client.query c logging id s)

  unfoldable pub register_job : JobResources → JobRequirements → ℕ → S → S × Reply Job
  unfolding Client.register_job
  register_job res reqs slurm_id s =
      unwrapped (codes "ADM_register_job") (Client.register_job c logging res reqs slurm_id s)

  unfoldable pub update_job : Job → JobResources → S → S × Reply (Unit {0})
  unfolding Client.update_job
  update_job job res s = checked (codes "ADM_update_job") (Client.update_job c logging job res s)

  unfoldable pub remove_job : Job → S → S × Reply (Unit {0})
  unfolding Client.remove_job
  remove_job job s = checked (codes "ADM_remove_job") (Client.remove_job c logging job s)

  unfoldable pub register_adhoc_storage :
      Bytes → AdhocType → AdhocContext → AdhocResources → S → S × Reply AdhocStorage
  unfolding Client.register_adhoc_storage
  register_adhoc_storage name type ctx res s =
      unwrapped (codes "ADM_register_adhoc_storage")
        (Client.register_adhoc_storage c logging name type ctx res s)

  unfoldable pub update_adhoc_storage : AdhocStorage → AdhocResources → S → S × Reply (Unit {0})
  unfolding Client.update_adhoc_storage
  update_adhoc_storage storage res s =
      checked (codes "ADM_update_adhoc_storage")
        (Client.update_adhoc_storage c logging storage res s)

  unfoldable pub remove_adhoc_storage : AdhocStorage → S → S × Reply (Unit {0})
  unfolding Client.remove_adhoc_storage
  remove_adhoc_storage storage s =
      checked (codes "ADM_remove_adhoc_storage") (Client.remove_adhoc_storage c logging storage s)

  unfoldable pub deploy_adhoc_storage : AdhocStorage → S → S × Reply Bytes
  unfolding Client.deploy_adhoc_storage
  deploy_adhoc_storage storage s =
      unwrapped (codes "ADM_deploy_adhoc_storage") (Client.deploy_adhoc_storage c logging storage s)

  -- The message names the procedure that deploys.
  unfoldable pub terminate_adhoc_storage : AdhocStorage → S → S × Reply (Unit {0})
  unfolding Client.terminate_adhoc_storage
  terminate_adhoc_storage storage s =
      checked (codes "ADM_deploy_adhoc_storage")
        (Client.terminate_adhoc_storage c logging storage s)

  unfoldable pub register_pfs_storage : Bytes → PfsType → PfsContext → S → S × Reply PfsStorage
  unfolding Client.register_pfs_storage
  register_pfs_storage name type ctx s =
      unwrapped (codes "ADM_register_pfs_storage")
        (Client.register_pfs_storage c logging name type ctx s)

  unfoldable pub update_pfs_storage : PfsStorage → PfsContext → S → S × Reply (Unit {0})
  unfolding Client.update_pfs_storage
  update_pfs_storage storage ctx s =
      checked (codes "ADM_update_pfs_storage") (Client.update_pfs_storage c logging storage ctx s)

  unfoldable pub remove_pfs_storage : PfsStorage → S → S × Reply (Unit {0})
  unfolding Client.remove_pfs_storage
  remove_pfs_storage storage s =
      checked (codes "ADM_remove_pfs_storage") (Client.remove_pfs_storage c logging storage s)

  unfoldable pub transfer_datasets :
      Job → List Dataset → List Dataset → List QosLimit → S → S × Reply Transfer
  unfolding Client.transfer_datasets
  transfer_datasets job sources targets limits s =
      unwrapped (codes "ADM_transfer_datasets")
        (Client.transfer_datasets c logging job sources targets limits s)

  unfoldable pub query_transfer : Job → Transfer → S → S × Reply T
  unfolding Client.query_transfer
  query_transfer job transfer s =
      unwrapped (codes "ADM_query_transfer") (Client.query_transfer c logging job transfer s)
