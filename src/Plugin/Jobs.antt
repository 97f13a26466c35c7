-- ===== src/Plugin/Jobs.antt =====
-- `scord_register_job` and `scord_unregister_job` of plugins/slurm/slurmadmcli.c over the C API of the
-- client library. Log lines are left out.
pub mod Steps
pub mod Registration
pub mod Answered
pub mod Told
pub mod Outputs
pub mod Stored
pub mod Removal
use io_scheduler.Prelude.{
  ℕ, zero, suc, ◌+◌, ◌-◌, ◌%◌, ◌^◌, Bool, true, false, Option, none, some, List, [], ◌∷◌, ◌++◌, map,
  length, ltb, if◌then◌else◌,
}
use io_scheduler.Prelude.Bytes.{codes, take}
use io_scheduler.Prelude.Int.{ℤ, pos, negsuc, is_positive}
use io_scheduler.Types.{
  Bytes, ExecutionMode, read_write, AdhocType, gekkofs, dataclay, expand, hercules, Dataset,
  DatasetRoute, Job, QosLimit,
}
use io_scheduler.Conversions.{
  CNode, CResources, CAdhocContext, CAdhocStorage, CRoute, CRequirements, job_resources_of,
  adhoc_resources_of, adhoc_context_of, adhoc_storage_of, adhoc_storage_to, job_requirements_of,
  job_requirements_create, routes_from,
}
use io_scheduler.Utils.Routes.{ReturnCode}
use io_scheduler.Client.{Connection, Ended, returns, terminates, Transfer}
use io_scheduler.Client.Capi
use io_scheduler.Client.Capi.{TransferStatus}
use io_scheduler.Plugin.Settings.{ServerInfo, Config}
use io_scheduler.Plugin.Nodes.{
  NodeList, get_node, hostname_of, Resolver, Address, address, no_address, null_read,
  margo_address_create,
}
use io_scheduler.Plugin.World.{
  Wanted, World, Step, Act, then_step, ◌>>=◌, ◌>>◌, return, used, needed, wanted_address,
  any_address, server_address, ctl_address, cargo_address, adhoc_resources, context_create,
  variables_of, set_environment, unsigned64, expect, expect_waited, continues, fails, crashes,
  no_end,
}

module _ {S T : Type 0} (c : Connection S T) (logging : Bool) (status : T → TransferStatus)
    (sleep : S → S) (unset : QosLimit) where
  -- A transfer of routes of the requirements, waited for.
  unfoldable pub transfer : ℕ → Job → List DatasetRoute → ℤ → Act S (Unit {0})
  transfer rounds job routes limit w =
      expect_waited
        (Capi.transfer_datasets_1 c logging status sleep rounds true job
          (map (λ (r : DatasetRoute). r.source) routes)
          (map (λ (r : DatasetRoute). r.destination) routes) unset (unsigned64 limit)
          (if is_positive limit then 1 else 0) w.daemon)
        w

  -- `sleep(5)`, and the transfer of the inputs, if there are any.
  abbrev pub stage_in : ℕ → Wanted → Job → CRequirements → Act S (Unit {0})
  stage_in rounds wanted job reqs = elim wanted.inputs [
    | [] ↦ return tt
    | route ∷ more ↦ (do
      array ← used reqs.r_inputs
      routes ← used (routes_from array 0 (length wanted.inputs))
      λ w. transfer rounds job routes wanted.limit (record w { daemon = sleep w.daemon }))
  ]

  abbrev pub register_storage : Wanted → CAdhocContext → CResources → Act S CAdhocStorage
  register_storage wanted c_ctx c_res = do
    ctx ← used (adhoc_context_of c_ctx)
    res ← used (adhoc_resources_of c_res)
    storage ← λ w.
        expect
          (Capi.register_adhoc_storage c logging (codes "mystorage") wanted.adhoc_type ctx res
            w.daemon)
          w
    λ w.
        continues (adhoc_storage_to storage)
          (record w { adhoc_storage = some (adhoc_storage_to storage) })

  abbrev pub register_with : CResources → CRequirements → ℕ → Act S Job
  register_with c_res c_reqs jobid = do
    res ← used (job_resources_of c_res)
    reqs ← used (job_requirements_of c_reqs)
    job ← λ w. expect (Capi.register_job c logging res reqs jobid w.daemon) w
    λ w. continues job (record w { scord_job = some job })

  abbrev pub deploy : CAdhocStorage → Act S Bytes
  deploy c_storage = do
    storage ← used (adhoc_storage_of c_storage)
    path ← λ w. expect (Capi.deploy_adhoc_storage c logging true storage w.daemon) w
    λ w. continues path (record w { adhoc_path = some path })

  -- The registration, from its end: once the job is registered, once the storage is, and from the creation
  -- of the context on.
  abbrev pub with_job : ℕ → Wanted → CRequirements → CAdhocStorage → Job → Act S (Unit {0})
  with_job rounds wanted reqs storage job = do
    path ← deploy storage
    set_environment wanted.adhoc_type path
    stage_in rounds wanted job reqs

  abbrev pub requirements : Wanted → CAdhocStorage → CRequirements
  requirements wanted storage =
      job_requirements_create wanted.inputs wanted.outputs wanted.expected_outputs (some storage)

  abbrev pub with_storage : ℕ → Wanted → NodeList → ℕ → CAdhocStorage → Act S (Unit {0})
  with_storage rounds wanted list jobid storage w =
      (do
        job ←
            register_with (record { r_nodes = some list.nodes }) (requirements wanted storage) jobid
        with_job rounds wanted (requirements wanted storage) storage job)
        (record w { scord_reqs = some (requirements wanted storage) })

  abbrev pub with_context :
      ℕ → Wanted → NodeList → ℕ → CResources → CAdhocContext → Act S (Unit {0})
  with_context rounds wanted list jobid adhoc_res ctx = do
    storage ← register_storage wanted ctx adhoc_res
    with_storage rounds wanted list jobid storage

  abbrev pub with_addresses : ℕ → Wanted → NodeList → ℕ → Bytes → Option Bytes → Act S (Unit {0})
  with_addresses rounds wanted list jobid ctl cargo = do
    λ w. continues tt (record w { server = true })
    needed (if ltb 0 list.nnodes then some tt else none)
    adhoc_res ← needed (adhoc_resources wanted.adhoc_nnodes list)
    ctx ← needed (context_create ctl cargo wanted.adhoc_mode)
    with_context rounds wanted list jobid adhoc_res ctx

  unfoldable pub register_job : ℕ → Resolver → Config → Wanted → NodeList → ℕ → Act S (Unit {0})
  unfolding transfer
  register_job rounds r cfg wanted list jobid = do
    ctl ← ctl_address r cfg list
    cargo ← cargo_address r cfg list
    with_addresses rounds wanted list jobid ctl cargo

  -- The transfer of the outputs, if there are any, as many as the option has left.
  abbrev pub stage_out : ℕ → ℕ → ℤ → Act S (Unit {0})
  stage_out rounds zero limit = return tt
  stage_out rounds (suc more) limit = do
    reqs ← λ w. used w.scord_reqs w
    array ← used reqs.r_outputs
    routes ← used (routes_from array 0 (suc more))
    job ← λ w. used w.scord_job w
    transfer rounds job routes limit

  -- The code that this call returns is not looked at.
  abbrev pub terminate_storage : Act S (Unit {0})
  terminate_storage = do
    c_storage ← λ w. used w.adhoc_storage w
    storage ← used (adhoc_storage_of c_storage)
    λ w.
        let (s, code) = Capi.terminate_adhoc_storage c logging storage w.daemon in
        continues tt (record w { daemon = s })

  -- `remove_dir_content` and `rmdir`
  abbrev pub remove_path : Act S (Unit {0})
  remove_path w = elim w.adhoc_path [
    | none ↦ continues tt w
    | some path ↦ continues tt (record w { removed = w.removed ++ (path ∷ []) })
  ]

  abbrev pub remove_registered : Act S (Unit {0})
  remove_registered = do
    job ← λ w. used w.scord_job w
    λ w.
        let (s, code) = Capi.remove_job c logging job w.daemon in
        continues tt (record w { daemon = s })

  -- From the label `end` on. A variable whose object is freed is not usable any more.
  abbrev pub released : World S → World S
  released w = record w {
    server = false;
    adhoc_storage = none;
    scord_reqs = none;
    scord_job = none;
    adhoc_path = none;
  }

  abbrev pub at_end : Step S (Unit {0}) → Step S (Unit {0})
  at_end (continues _ w) = continues tt (released w)
  at_end (fails w) = fails (released w)
  at_end crashes = crashes
  at_end no_end = no_end

  -- After a failed transfer nothing is terminated or removed.
  abbrev pub remove_all : ℕ → ℕ → ℤ → Act S (Unit {0})
  remove_all rounds outputs limit = do
    stage_out rounds outputs limit
    terminate_storage
    remove_path
    remove_registered

  -- The number of outputs and the limit are those of the options.
  unfoldable pub unregister_job : ℕ → Resolver → Config → ℕ → ℤ → NodeList → Act S (Unit {0})
  unfolding transfer
  unregister_job rounds r cfg outputs limit list = do
    ctl ← ctl_address r cfg list
    cargo ← cargo_address r cfg list
    λ w. at_end (remove_all rounds outputs limit w)
