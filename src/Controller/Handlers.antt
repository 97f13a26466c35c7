-- ===== src/Controller/Handlers.antt =====
-- src/scord-ctl/rpc_server.cpp: the state of the controller and its handlers. The file system and the
-- processes are a parameter, log lines are left out, and `print_configuration`, which only logs, too.
pub mod Answers
pub mod Runs
pub mod Deployment
use io_scheduler.Prelude.{
  ℕ, Bool, true, false, not, Option, none, some, List, [], ◌∷◌, ◌++◌, map, if◌then◌else◌, ◌==◌,
  nat_key,
}
use io_scheduler.Prelude.Map.{find}
use io_scheduler.Prelude.Bytes.{codes, starts_with}
use io_scheduler.Types.{
  Bytes, Node, ErrorCode, success, snafu, adhoc_type_unsupported, adhoc_dir_create_failed,
  adhoc_dir_exists, subprocess_error, AdhocType, AdhocResources,
}
use io_scheduler.Network
use io_scheduler.Network.{GenericResponse, Response, RpcInfo}
use io_scheduler.Controller.Command.{
  Command, Execution, Ending, execution, exec_returns, eval, eval_malleability,
}
use io_scheduler.Controller.Config.{AdhocConfig, ConfigMap, type_key}

-- The operating system: the files, whether one exists (`none` is an exception of `exists`),
-- `create_directories` with what it returns, and what a process does to the files, with how it ends.
-- `environ` is the controller's own environment.
pub record Machine : Type 1 where
  pub Files : Type 0
  pub exists : Files → Bytes → Option Bool
  pub create_directories : Files → Bytes → Files × Bool
  pub run : Files → Execution → Files × Ending
  pub environ : List Bytes

-- How a handler ends: with what it responds, with an exception that no `catch` of it takes, or not.
pub data Handled (A : Type 0) : Type 0 where
  answers : A → Handled A
  throws : Handled A
  no_end : Handled A

abbrev pub map_answer : {A B : Type 0} → (A → B) → Handled A → Handled B
map_answer f (answers a) = answers (f a)
map_answer f throws = throws
map_answer f no_end = no_end

-- Whether a path ends in a name, which `/` sets apart.
abbrev pub has_filename : Bytes → Bool
has_filename [] = false
has_filename (c ∷ []) = not (c == b'/')
has_filename (c ∷ (d ∷ s)) = has_filename (d ∷ s)

-- `path / name` of `std::filesystem`; an absolute name stands for itself.
unfoldable pub append_path : Bytes → Bytes → Bytes
unfolding starts_with
append_path path name =
    if starts_with (codes "/") name
    then name
    else if has_filename path
    then path ++ b'/' ∷ name
    else path ++ name

abbrev pub hostname_of : Node → Bytes
hostname_of node = node.hostname

-- `hostnames`
abbrev pub hostnames : AdhocResources → List Bytes
hostnames resources = map hostname_of resources.nodes

-- What the first checks of a handler come to.
pub data Choice : Type 0 where
  refuse : ErrorCode → Choice
  use_config : AdhocConfig → Choice

unfoldable pub choose : Option ConfigMap → AdhocType → Choice
unfolding find
choose none type = refuse snafu
choose (some []) type = refuse snafu
choose (some (entry ∷ configs)) type = elim (find type (entry ∷ configs)) [
  | none ↦ refuse adhoc_type_unsupported
  | some config ↦ use_config config
]

module _ (m : Machine) where
  open m use {Files, exists, create_directories, run, environ}

  -- `executions` holds what was run, oldest first.
  pub record Controller : Type 0 where
    pub config : Option ConfigMap
    pub files : Files
    pub executions : List Execution
    pub rpc_counter : ℕ

  unfoldable pub start_rpc : Controller → Bytes → Bytes → RpcInfo × Controller
  unfolding Network.create
  start_rpc s name address =
      let (rpc, counter) = Network.create s.rpc_counter name address in
      (rpc, record s { rpc_counter = counter })

  unfoldable pub set_config : Controller → Option ConfigMap → Controller
  set_config s config = record s { config = config }

  unfoldable pub ping : Controller → Bytes → Controller × GenericResponse
  unfolding start_rpc
  ping s from =
      let (rpc, s1) = start_rpc s (codes "ADM_ping") from in
      (s1, record { op_id = rpc.id; error_code = success })

  -- `cmd.exec()` and the `catch` around it.
  unfoldable pub exec : Controller → Command → Controller × ErrorCode
  unfolding execution exec_returns
  exec s cmd =
      let (files', ending) = run s.files (execution environ cmd) in
      (
        record s { files = files'; executions = s.executions ++ execution environ cmd ∷ [] },
        if exec_returns ending then success else subprocess_error,
      )

  -- A template that was evaluated is run; `none` is a loop of `eval` with no end.
  unfoldable pub exec_evaluated : Controller → Option Command → Handled (Controller × ErrorCode)
  unfolding exec
  exec_evaluated s none = no_end
  exec_evaluated s (some cmd) = answers (exec s cmd)

  -- From the test for the directory to the end of the startup command. The test stands before the
  -- `try`, and is the `exists` that throws.
  unfoldable pub start_in :
      Controller → AdhocConfig → Bytes → Bytes → List Bytes → Handled (Controller × ErrorCode)
  unfolding exec_evaluated eval
  start_in s config uuid directory hosts = elim (exists s.files directory) [
    | none ↦ throws
    | some there ↦
        if there
        then answers (s, adhoc_dir_exists)
        else (let (files', created) = create_directories s.files directory in
            let s' = record s { files = files' } in
            if created
            then exec_evaluated s' (eval config.startup_command uuid directory hosts)
            else answers (s', adhoc_dir_create_failed))
  ]

  abbrev pub answer_value : ℕ → Option Bytes → Controller × ErrorCode → Controller × Response Bytes
  answer_value id directory (s, ec) = (s, record { op_id = id; error_code = ec; value = directory })

  abbrev pub answer : ℕ → Controller × ErrorCode → Controller × GenericResponse
  answer id (s, ec) = (s, record { op_id = id; error_code = ec })

  unfoldable pub deploy_adhoc_storage :
      Controller
      → Bytes
      → Bytes
      → AdhocType
      → AdhocResources
      → Handled (Controller × Response Bytes)
  unfolding start_rpc choose append_path start_in
  deploy_adhoc_storage s from uuid type resources =
      let (rpc, s1) = start_rpc s (codes "ADM_deploy_adhoc_storage") from in
      elim (choose s.config type) [
        | refuse ec ↦ answers (answer_value rpc.id none (s1, ec))
        | use_config config ↦
            (let directory = append_path config.working_directory uuid in
              map_answer (answer_value rpc.id (some directory))
                (start_in s1 config uuid directory (hostnames resources)))
      ]

  unfoldable pub expand_adhoc_storage :
      Controller
      → Bytes
      → Bytes
      → AdhocType
      → AdhocResources
      → Handled (Controller × GenericResponse)
  unfolding start_rpc choose exec_evaluated eval_malleability
  expand_adhoc_storage s from uuid type resources =
      let (rpc, s1) = start_rpc s (codes "ADM_expand_adhoc_storage") from in
      elim (choose s.config type) [
        | refuse ec ↦ answers (answer rpc.id (s1, ec))
        | use_config config ↦
            map_answer (answer rpc.id) (
              exec_evaluated s1
                (eval_malleability config.expand_command uuid (hostnames resources)))
      ]

  unfoldable pub shrink_adhoc_storage :
      Controller
      → Bytes
      → Bytes
      → AdhocType
      → AdhocResources
      → Handled (Controller × GenericResponse)
  unfolding start_rpc choose exec_evaluated eval_malleability
  shrink_adhoc_storage s from uuid type resources =
      let (rpc, s1) = start_rpc s (codes "ADM_shrink_adhoc_storage") from in
      elim (choose s.config type) [
        | refuse ec ↦ answers (answer rpc.id (s1, ec))
        | use_config config ↦
            map_answer (answer rpc.id) (
              exec_evaluated s1
                (eval_malleability config.shrink_command uuid (hostnames resources)))
      ]

  unfoldable pub terminate_adhoc_storage :
      Controller → Bytes → Bytes → AdhocType → Handled (Controller × GenericResponse)
  unfolding start_rpc choose append_path exec_evaluated eval
  terminate_adhoc_storage s from uuid type =
      let (rpc, s1) = start_rpc s (codes "ADM_terminate_adhoc_storage") from in
      elim (choose s.config type) [
        | refuse ec ↦ answers (answer rpc.id (s1, ec))
        | use_config config ↦ map_answer (answer rpc.id) (
            exec_evaluated s1
              (eval config.shutdown_command uuid (append_path config.working_directory uuid) []))
      ]
