-- ===== src/Examples/Deployments.antt =====
-- The theorems on the controller of adhoc storages at concrete inputs.
use mathlib.Core.Option
use io_scheduler.Prelude.{
  ℕ, ◌≡◌, ◌≢◌, ◌↔◌, refl, Bool, true, false, some, none, List, [], ◌∷◌, arith, deref, ◌||◌,
  if◌then◌else◌, ◌==◌, nat_key,
}
use io_scheduler.Prelude.Bytes.{codes, starts_with}
use io_scheduler.Prelude.Map
use io_scheduler.Prelude.Map.{Map, distinct, emplace}
use io_scheduler.Prelude.Text.{Every, text_key, text_beq, join}
use io_scheduler.Types.{Bytes, AdhocType, gekkofs}
use io_scheduler.Network
use io_scheduler.Network.{Response}
use io_scheduler.Types.{is_success, adhoc_dir_exists}
use io_scheduler.Controller.Command.{
  Command, exited, as_vector, eval, eval_malleability, with_cmdline, replacements,
  malleability_replacements, key_at,
}
use io_scheduler.Controller.Command.Reference.{substitute, eval-eq-substitute}
use io_scheduler.Controller.Command.Template.{Word, directory, adhoc_id, eval-as_vector}
use io_scheduler.Controller.Config.{AdhocConfig, Yaml, config_file, loaded, type_key}
use io_scheduler.Controller.Config.Soundness.{IsUsable, config_file-IsSound}
use io_scheduler.Controller.Handlers.{
  Machine, Controller, append_path, choose, deploy_adhoc_storage, expand_adhoc_storage,
  shrink_adhoc_storage, terminate_adhoc_storage, hostnames, answers,
}
use io_scheduler.Controller.Handlers.Deployment.{deploy_adhoc_storage_once, startup}
use io_scheduler.Controller.Handlers.Answers.{handlers_answer, Deploys, Runs}
use io_scheduler.Controller.Handlers.Runs.{evaluated, evaluated_malleability}
use io_scheduler.Server.{faults, bad_optional_access}
use io_scheduler.Server.Adhocs
use io_scheduler.Server.Controllers.{network, deploy_adhoc_storage-has_value}
use io_scheduler.Examples.Data.{adhoc_resources}
use io_scheduler.Examples.Served.{served}

abbrev template : Command
template = record { cmdline = codes "/bin/run {ADHOC_ID} -d {ADHOC_DIRECTORY}/x"; env = none }

eval-eq-substitute_example :
    (eval template (codes "g1") (codes "/tmp/g1") (codes "n1" ∷ [])
      ≡ some (with_cmdline template (codes "/bin/run g1 -d /tmp/g1/x")))
    × (eval_malleability template (codes "g1") (codes "n1" ∷ [])
        ≡ some (with_cmdline template (codes "/bin/run g1 -d {ADHOC_DIRECTORY}/x")))
unfolding substitute replacements malleability_replacements key_at starts_with join
eval-eq-substitute_example =
    eval-eq-substitute template (codes "g1") (codes "/tmp/g1") (codes "n1" ∷ [])

abbrev words : List Word
words =
    record { keywords = []; last = codes "/bin/run" }
    ∷ record { keywords = (codes "--id=", adhoc_id) ∷ []; last = [] }
    ∷ record { keywords = (codes "", directory) ∷ []; last = codes "/x" }
    ∷ []

eval-as_vector_example :
    Option.map as_vector (
      eval
        (record { cmdline = codes "/bin/run --id={ADHOC_ID} {ADHOC_DIRECTORY}/x"; env = none })
        (codes "g1")
        (codes "/tmp/g1")
        (codes "n1" ∷ []))
    ≡ some (codes "/bin/run" ∷ codes "--id=g1" ∷ codes "/tmp/g1/x" ∷ [])
unfolding join
eval-as_vector_example =
    eval-as_vector words none (codes "g1") (codes "/tmp/g1") (codes "n1" ∷ []) (omega arith)
      (omega arith) (omega arith) (omega arith) (λ e. cc)

-- A file system that is a list of paths, and processes that exit with status 0.
abbrev member : List Bytes → Bytes → Bool
member [] path = false
member (p ∷ paths) path = text_beq p path || member paths path

abbrev machine : Machine
machine = record {
  Files = List Bytes;
  exists = λ paths path. some (member paths path);
  create_directories = λ paths path. (path ∷ paths, true);
  run = λ paths e. (paths, exited 0);
  environ = codes "HOME=/root" ∷ [];
}

abbrev configuration : AdhocConfig
configuration = record {
  working_directory = codes "/tmp";
  startup_command = template;
  shutdown_command = template;
  expand_command = template;
  shrink_command = template;
}

abbrev controller : Controller machine
controller = record {
  config = some ((gekkofs, configuration) ∷ []);
  files = [];
  executions = [];
  rpc_counter = 0;
}

-- A file with one configuration, as a tree whose nodes are numbers.
abbrev children : ℕ → List ℕ
children n =
    if n == 0
    then 1 ∷ []
    else if n == 1
    then 2 ∷ []
    else if n == 2
    then 3 ∷ []
    else if n == 3
    then 4 ∷ 5 ∷ 6 ∷ 7 ∷ 8 ∷ []
    else if n == 9
    then []
    else 9 ∷ []

abbrev keys : List Bytes
keys =
    codes ""
    ∷ codes "config"
    ∷ codes "adhoc_storage"
    ∷ codes "gekkofs"
    ∷ codes "working_directory"
    ∷ codes "startup"
    ∷ codes "shutdown"
    ∷ codes "expand"
    ∷ codes "shrink"
    ∷ codes "command"
    ∷ []

abbrev yaml : Yaml
yaml = record {
  Node = ℕ;
  children = children;
  key = λ n. deref keys n;
  val = λ n. if n == 4 then codes "/tmp" else template.cmdline;
  val_is_null = λ n. false;
}

read : config_file yaml (λ path. true) (some 0) ≡ loaded ((gekkofs, configuration) ∷ [])
unfolding config_file deref
read = refl

config_file-IsSound_example :
    (distinct ((gekkofs, configuration) ∷ []) ≡ true)
    × Every
        (λ (entry : AdhocType × AdhocConfig). IsUsable yaml (λ path. true) entry.1)
        ((gekkofs, configuration) ∷ [])
config_file-IsSound_example =
    config_file-IsSound yaml (λ path. true) (some 0) ((gekkofs, configuration) ∷ []) read

handlers_answer_example :
    Deploys machine controller gekkofs
      (codes "g1")
      (hostnames adhoc_resources)
      (deploy_adhoc_storage machine controller [] (codes "g1") gekkofs adhoc_resources)
    × Runs machine controller gekkofs
        (λ config.
          evaluated_malleability config.expand_command (codes "g1") (hostnames adhoc_resources))
        (expand_adhoc_storage machine controller [] (codes "g1") gekkofs adhoc_resources)
    × Runs machine controller gekkofs
        (λ config.
          evaluated_malleability config.shrink_command (codes "g1") (hostnames adhoc_resources))
        (shrink_adhoc_storage machine controller [] (codes "g1") gekkofs adhoc_resources)
    × Runs machine controller gekkofs
        (λ config.
          evaluated config.shutdown_command
            (codes "g1")
            (append_path config.working_directory (codes "g1"))
            [])
        (terminate_adhoc_storage machine controller [] (codes "g1") gekkofs)
handlers_answer_example = handlers_answer machine controller [] (codes "g1") gekkofs adhoc_resources

deploy_adhoc_storage_once_example :
    (s' : Controller machine) × (resp : Response Bytes) × (deploy_adhoc_storage machine controller
        []
        (codes "g1")
        gekkofs
        adhoc_resources
      ≡ answers (s', resp))
    × (resp.value ≡ some (codes "/tmp/g1"))
    × ((is_success resp.error_code ≡ true) ↔ (exited 0 ≡ exited 0))
    × (s'.executions ≡ startup machine configuration (codes "g1") adhoc_resources ∷ [])
    × (deploy_adhoc_storage machine s' [] (codes "g1") gekkofs adhoc_resources
        ≡ answers (
          record s' { rpc_counter = (Network.new_id s'.rpc_counter).1 },
          record {
            op_id = s'.rpc_counter;
            error_code = adhoc_dir_exists;
            value = some (codes "/tmp/g1");
          },
        ))
unfolding append_path starts_with choose Map.find
deploy_adhoc_storage_once_example =
    deploy_adhoc_storage_once machine controller [] (codes "g1") gekkofs adhoc_resources
      adhoc_resources configuration refl refl refl refl

deploy_adhoc_storage-has_value_example :
    (Adhocs.deploy_adhoc_storage
      (network machine (λ address. some controller) [])
      (served none)
      []
      0
      0).1
    ≢ faults bad_optional_access
deploy_adhoc_storage-has_value_example =
    deploy_adhoc_storage-has_value machine (λ address. some controller) [] (served none) [] 0 0
