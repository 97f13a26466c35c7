-- ===== src/Controller/Handlers/Answers.antt =====
-- What the handlers of src/scord-ctl/rpc_server.cpp do on every branch.
use io_scheduler.Prelude.{
  ◌≡◌, ◌∙◌, ap, refl, Bool-cases, true, false, none, some, List, [], arith, inl, inr, Option-cases,
}
use io_scheduler.Types.{
  Bytes, ErrorCode, adhoc_dir_exists, adhoc_dir_create_failed, AdhocType, AdhocResources,
}
use io_scheduler.Network.{Response, GenericResponse}
use io_scheduler.Controller.Command.{Command, execution}
use io_scheduler.Controller.Config.{AdhocConfig}
use io_scheduler.Controller.Handlers.{
  Machine, Controller, append_path, hostnames, choose, exec, start_in, deploy_adhoc_storage,
  expand_adhoc_storage, shrink_adhoc_storage, terminate_adhoc_storage, start_rpc, Handled, answers,
  map_answer, answer_value, answer, throws,
}
use io_scheduler.Controller.Handlers.Runs.{
  evaluated, evaluated_malleability, Choice-cases, choose-IsRefused, choose-IsConfigured, IsRefused,
  IsConfigured, IsRun, IsIdle, exec-IsRun, exec_evaluated-eval, exec_evaluated-eval_malleability,
}

module _ (m : Machine) where
  open m use {Files, exists, create_directories, run, environ}

  -- What expand, shrink and terminate do, where `command` is the template of the configuration with
  -- its keywords replaced: refuse, or run that command.
  pub data Runs (s : Controller m) (type : AdhocType) (command : AdhocConfig → Command)
      : Handled (Controller m × GenericResponse) → Type 0 where
    refuses :
        (s' : Controller m) (ec : ErrorCode)
        → IsRefused s.config type ec
        → IsIdle m s s.files s'
        → Runs s type command (answers (s', record { op_id = s.rpc_counter; error_code = ec }))
    runs :
        (s' : Controller m) (ec : ErrorCode) (config : AdhocConfig)
        → IsConfigured s.config type config
        → IsRun m s s.files (execution environ (command config)) s' ec
        → Runs s type command (answers (s', record { op_id = s.rpc_counter; error_code = ec }))

  -- What deploy does: refuse, throw, find the directory, fail to create it, or run the startup command
  -- in the new directory.
  pub data Deploys (s : Controller m) (type : AdhocType) (uuid : Bytes) (hosts : List Bytes)
      : Handled (Controller m × Response Bytes) → Type 0 where
    refuses :
        (s' : Controller m) (ec : ErrorCode)
        → IsRefused s.config type ec
        → IsIdle m s s.files s'
        → Deploys s type uuid hosts
            (answers (s', record { op_id = s.rpc_counter; error_code = ec; value = none }))
    cannot_test :
        (config : AdhocConfig)
        → IsConfigured s.config type config
        → exists s.files (append_path config.working_directory uuid) ≡ none
        → Deploys s type uuid hosts throws
    is_there :
        (s' : Controller m) (config : AdhocConfig)
        → IsConfigured s.config type config
        → exists s.files (append_path config.working_directory uuid) ≡ some true
        → IsIdle m s s.files s'
        → Deploys s type uuid hosts (
            answers (
              s',
              record {
                op_id = s.rpc_counter;
                error_code = adhoc_dir_exists;
                value = some (append_path config.working_directory uuid);
              },
            ))
    cannot_create :
        (s' : Controller m) (config : AdhocConfig)
        → IsConfigured s.config type config
        → exists s.files (append_path config.working_directory uuid) ≡ some false
        → (create_directories s.files (append_path config.working_directory uuid)).1 ≡ false
        → IsIdle m s (create_directories s.files (append_path config.working_directory uuid)).0 s'
        → Deploys s type uuid hosts (
            answers (
              s',
              record {
                op_id = s.rpc_counter;
                error_code = adhoc_dir_create_failed;
                value = some (append_path config.working_directory uuid);
              },
            ))
    runs :
        (s' : Controller m) (ec : ErrorCode) (config : AdhocConfig)
        → IsConfigured s.config type config
        → exists s.files (append_path config.working_directory uuid) ≡ some false
        → (create_directories s.files (append_path config.working_directory uuid)).1 ≡ true
        → IsRun m s
            (create_directories s.files (append_path config.working_directory uuid)).0
            (execution environ (
              evaluated config.startup_command uuid
                (append_path config.working_directory uuid)
                hosts))
            s'
            ec
        → Deploys s type uuid hosts (
            answers (
              s',
              record {
                op_id = s.rpc_counter;
                error_code = ec;
                value = some (append_path config.working_directory uuid);
              },
            ))

  -- A handler that began with the number of its call.
  abbrev begun : Controller m → Controller m
  begun s = (start_rpc m s [] []).1

  begun-IsIdle : (s : Controller m) → IsIdle m s s.files (begun s)
  unfolding start_rpc
  begun-IsIdle s = (refl, refl, refl)

  Deploys-along :
      {s : Controller m} {type : AdhocType} {uuid : Bytes} {hosts : List Bytes}
      {h h' : Handled (Controller m × Response Bytes)}
      → h ≡ h'
      → Deploys s type uuid hosts h'
      → Deploys s type uuid hosts h
  Deploys-along e d = rw e d

  Runs-along :
      {s : Controller m} {type : AdhocType} {command : AdhocConfig → Command}
      {h h' : Handled (Controller m × GenericResponse)}
      → h ≡ h'
      → Runs s type command h'
      → Runs s type command h
  Runs-along e r = rw e r

  start_in-Deploys :
      (s : Controller m) (type : AdhocType) (uuid : Bytes) (hosts : List Bytes)
      (config : AdhocConfig)
      → IsConfigured s.config type config
      → Deploys s type uuid hosts (
          map_answer
            (answer_value m s.rpc_counter (some (append_path config.working_directory uuid)))
            (start_in m (begun s) config uuid (append_path config.working_directory uuid) hosts))
  unfolding start_in start_rpc
  start_in-Deploys s type uuid hosts config known =
      let directory = append_path config.working_directory uuid in
      let s1 = begun s in
      let (files', made) = create_directories s.files directory in
      let s2 = record s1 { files = files' } in
      let command = evaluated config.startup_command uuid directory hosts in
      elim (Option-cases (exists s.files directory)) [
        | inl fails ↦ Deploys-along (ground (arith, fails)) (cannot_test config known fails)
        | inr (there, e) ↦ elim (Bool-cases there) [
          | inl old ↦
              Deploys-along (ground (arith, e, old))
                (is_there s1 config known (e ∙ ap some old) (begun-IsIdle s))
          | inr fresh ↦ elim (Bool-cases made) [
            | inl done ↦
                Deploys-along
                  (ground (
                    arith,
                    e,
                    fresh,
                    done,
                    exec_evaluated-eval m s2 config.startup_command uuid directory hosts,
                  ))
                  (runs (exec m s2 command).0 (exec m s2 command).1 config known (e ∙ ap some fresh)
                    done (exec-IsRun m s2 command))
            | inr failed ↦
                Deploys-along (ground (arith, e, fresh, failed))
                  (cannot_create s2 config known (e ∙ ap some fresh) failed (refl, refl, refl))
          ]
        ]
      ]

  ran :
      (s : Controller m) (type : AdhocType) (command : AdhocConfig → Command) (config : AdhocConfig)
      → IsConfigured s.config type config
      → Runs s type command (answers (answer m s.rpc_counter (exec m (begun s) (command config))))
  unfolding start_rpc
  ran s type command config known =
      let (s', ec) = exec m (begun s) (command config) in
      runs s' ec config known (exec-IsRun m (begun s) (command config))

  -- Every handler of the controller ends. Expand, shrink and terminate always answer, with the number
  -- of the call: with `snafu` where no storage is configured or `adhoc_type_unsupported` where the
  -- type is not, and nothing is run; else exactly one process is run, the template of the command
  -- with its keywords replaced, and the answer is `success` where it exited with status 0 and
  -- `subprocess_error` where it ended otherwise. Deploy refuses in the same way; else it throws where
  -- the test for the directory throws, runs nothing where the directory is there
  -- (`adhoc_dir_exists`) or is not created (`adhoc_dir_create_failed`), and otherwise runs the
  -- startup command in the same way. Its answer has the directory, unless it refuses.
  pub handlers_answer :
      (s : Controller m) (from uuid : Bytes) (type : AdhocType) (resources : AdhocResources)
      → Deploys s type uuid
          (hostnames resources)
          (deploy_adhoc_storage m s from uuid type resources)
        × Runs s type
            (λ config. evaluated_malleability config.expand_command uuid (hostnames resources))
            (expand_adhoc_storage m s from uuid type resources)
        × Runs s type
            (λ config. evaluated_malleability config.shrink_command uuid (hostnames resources))
            (shrink_adhoc_storage m s from uuid type resources)
        × Runs s type
            (λ config.
              evaluated config.shutdown_command uuid (append_path config.working_directory uuid) [])
            (terminate_adhoc_storage m s from uuid type)
  unfolding deploy_adhoc_storage expand_adhoc_storage shrink_adhoc_storage terminate_adhoc_storage
      start_rpc
  handlers_answer s from uuid type resources = elim (Choice-cases (choose s.config type)) [
    | inl (ec, r) ↦
        (let refused = choose-IsRefused s.config type r in
          let idle = begun-IsIdle s in
          (
            Deploys-along (ground (arith, r)) (refuses (begun s) ec refused idle),
            Runs-along (ground (arith, r)) (refuses (begun s) ec refused idle),
            Runs-along (ground (arith, r)) (refuses (begun s) ec refused idle),
            Runs-along (ground (arith, r)) (refuses (begun s) ec refused idle),
          ))
    | inr (config, u) ↦
        (let known = choose-IsConfigured s.config type u in
          let hosts = hostnames resources in
          let s1 = begun s in
          (
            Deploys-along (ground (arith, u)) (start_in-Deploys s type uuid hosts config known),
            Runs-along
                (ground (
                  arith,
                  u,
                  exec_evaluated-eval_malleability m s1 config.expand_command uuid hosts,
                ))
                (ran s type (λ config. evaluated_malleability config.expand_command uuid hosts)
                  config known),
            Runs-along
                (ground (
                  arith,
                  u,
                  exec_evaluated-eval_malleability m s1 config.shrink_command uuid hosts,
                ))
                (ran s type (λ config. evaluated_malleability config.shrink_command uuid hosts)
                  config known),
            Runs-along
                (ground (
                  arith,
                  u,
                  exec_evaluated-eval m s1 config.shutdown_command uuid
                      (append_path config.working_directory uuid) [],
                ))
                (ran s type
                  (λ config.
                    evaluated config.shutdown_command uuid
                      (append_path config.working_directory uuid) [])
                  config known),
          ))
  ]
