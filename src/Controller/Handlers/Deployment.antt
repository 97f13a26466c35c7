-- ===== src/Controller/Handlers/Deployment.antt =====
-- A storage is deployed once by src/scord-ctl/rpc_server.cpp.
use io_scheduler.Prelude.{◌≡◌, ◌↔◌, refl, true, false, some, List, [], ◌∷◌, ◌++◌, arith}
use io_scheduler.Prelude.Bytes.{codes}
use io_scheduler.Types.{Bytes, ErrorCode, adhoc_dir_exists, is_success, AdhocType, AdhocResources}
use io_scheduler.Network
use io_scheduler.Network.{Response}
use io_scheduler.Controller.Command.{Execution, Ending, exited, execution}
use io_scheduler.Controller.Config.{AdhocConfig}
use io_scheduler.Controller.Handlers.{
  Machine, Controller, append_path, hostnames, use_config, choose, exec, start_in,
  deploy_adhoc_storage, start_rpc, answers,
}
use io_scheduler.Controller.Handlers.Runs.{evaluated, exec_evaluated-eval, exec-is_success}

module _ (m : Machine) where
  open m use {Files, exists, create_directories, run, environ}

  -- What a startup leaves behind in a new directory.
  abbrev pub started :
      Controller m → AdhocConfig → Bytes → Bytes → List Bytes → Controller m × ErrorCode
  started s config uuid directory hosts =
      exec m (record s { files = (create_directories s.files directory).0 })
        (evaluated config.startup_command uuid directory hosts)

  start_in_new :
      (s : Controller m) (config : AdhocConfig) (uuid directory : Bytes) (hosts : List Bytes)
      → exists s.files directory ≡ some false
      → (create_directories s.files directory).1 ≡ true
      → start_in m s config uuid directory hosts ≡ answers (started s config uuid directory hosts)
  unfolding start_in
  start_in_new s config uuid directory hosts fresh made =
      let (files', created) = create_directories s.files directory in
      ground (
        arith,
        fresh,
        made,
        exec_evaluated-eval m (record s { files = files' }) config.startup_command uuid directory
            hosts,
      )

  start_in_old :
      (s : Controller m) (config : AdhocConfig) (uuid directory : Bytes) (hosts : List Bytes)
      → exists s.files directory ≡ some true
      → start_in m s config uuid directory hosts ≡ answers (s, adhoc_dir_exists)
  unfolding start_in
  start_in_old s config uuid directory hosts old = ground (arith, old)

  -- The process that a startup runs.
  abbrev pub startup : AdhocConfig → Bytes → AdhocResources → Execution
  startup config uuid resources = execution environ (
      evaluated config.startup_command uuid (append_path config.working_directory uuid)
        (hostnames resources))

  -- The files after the directory of a storage is created, and after the process has ended.
  abbrev pub after_startup : Controller m → AdhocConfig → Bytes → AdhocResources → Files × Ending
  after_startup s config uuid resources =
      run (create_directories s.files (append_path config.working_directory uuid)).0
        (startup config uuid resources)

  -- For a configured type, where the directory of the storage is new, is created, and is there when
  -- the startup command has ended: the handler runs one process, the startup command with its
  -- keywords replaced, and answers with the directory, and with success if and only if the process
  -- exited with status 0. A second call for the same storage then runs nothing, changes no file and
  -- answers `adhoc_dir_exists`.
  pub deploy_adhoc_storage_once :
      (s : Controller m) (from uuid : Bytes) (type : AdhocType) (resources again : AdhocResources)
      (config : AdhocConfig)
      → choose s.config type ≡ use_config config
      → exists s.files (append_path config.working_directory uuid) ≡ some false
      → (create_directories s.files (append_path config.working_directory uuid)).1 ≡ true
      → exists (after_startup s config uuid resources).0 (append_path config.working_directory uuid)
        ≡ some true
      → (s' : Controller m) × (resp : Response Bytes) × (deploy_adhoc_storage m s from uuid type
            resources
          ≡ answers (s', resp))
        × (resp.value ≡ some (append_path config.working_directory uuid))
        × ((is_success resp.error_code ≡ true)
            ↔ ((after_startup s config uuid resources).1 ≡ exited 0))
        × (s'.executions ≡ s.executions ++ startup config uuid resources ∷ [])
        × (deploy_adhoc_storage m s' from uuid type again
            ≡ answers (
              record s' { rpc_counter = (Network.new_id s'.rpc_counter).1 },
              record {
                op_id = s'.rpc_counter;
                error_code = adhoc_dir_exists;
                value = some (append_path config.working_directory uuid);
              },
            ))
  unfolding deploy_adhoc_storage start_rpc exec
  deploy_adhoc_storage_once s from uuid type resources again config chosen fresh made kept =
      let directory = append_path config.working_directory uuid in
      let (rpc, s1) = start_rpc m s (codes "ADM_deploy_adhoc_storage") from in
      let (s', ec) = started s1 config uuid directory (hostnames resources) in
      let (rpc2, s2) = start_rpc m s' (codes "ADM_deploy_adhoc_storage") from in
      (
        s',
        record { op_id = rpc.id; error_code = ec; value = some directory },
        ground
            (arith, chosen, start_in_new s1 config uuid directory (hostnames resources) fresh made),
        refl,
        exec-is_success m (record s1 { files = (create_directories s.files directory).0 })
            (evaluated config.startup_command uuid directory (hostnames resources)),
        refl,
        ground (arith, chosen, start_in_old s2 config uuid directory (hostnames again) kept),
      )
