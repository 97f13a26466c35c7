-- ===== src/Controller/Config.antt =====
-- src/scord-ctl/config_file.cpp: the configuration file of the controller. The YAML tree and its
-- library are a parameter, and so is the test whether a file exists.
pub mod Loops
pub mod Soundness
use io_scheduler.Prelude.{
  ℕ, ◌≡◌, ◌↔◌, Bool, true, false, ◌&&◌, not, Option, none, some, List, [], ◌∷◌, arith, Key, ◌==◌,
  nat_key, nat_beq, if◌then◌else◌,
}
use io_scheduler.Prelude.Map.{Map, find, emplace}
use io_scheduler.Prelude.Bytes.{codes, take, find?, starts_with}
use io_scheduler.Prelude.Text.{text_key}
use io_scheduler.Types.{Bytes, AdhocType, gekkofs, dataclay, expand, hercules}
use io_scheduler.Controller.Environment
use io_scheduler.Controller.Environment.{Environment}
use io_scheduler.Controller.Command.{Command}

abbrev pub type_number : AdhocType → ℕ
type_number gekkofs = 0
type_number dataclay = 1
type_number expand = 2
type_number hercules = 3

abbrev pub type_same : AdhocType → AdhocType → Bool
type_same a b = nat_beq (type_number a) (type_number b)

pub type_same_iff : (a b : AdhocType) → (type_same a b ≡ true) ↔ (a ≡ b)
type_same_iff gekkofs gekkofs = ground arith
type_same_iff a b = ground arith

instance abbrev pub type_key : Key AdhocType
type_key = record { same = type_same; same_iff = type_same_iff }

-- `adhoc_storage_config`
pub record AdhocConfig : Type 0 where
  pub working_directory : Bytes
  pub startup_command : Command
  pub shutdown_command : Command
  pub expand_command : Command
  pub shrink_command : Command

-- `adhoc_storage_config_map`
abbrev pub ConfigMap : Type 0
ConfigMap = Map AdhocType AdhocConfig

-- The exceptions that are thrown.
pub data Problem : Type 0 where
  unreadable_file unsupported_type relative_command unknown_command empty_command : Problem
  missing_command empty_directory missing_directory : Problem

-- What a function of the file comes to; `undefined` is a use of an empty optional through `*`.
pub data Loaded {ℓ} (A : Type ℓ) : Type ℓ where
  loaded : A → Loaded A
  throws : Problem → Loaded A
  undefined : Loaded A

infixl 5 ◌>>=◌
abbrev pub ◌>>=◌ {ℓ κ} : {A : Type ℓ} {B : Type κ} → Loaded A → (A → Loaded B) → Loaded B
loaded a >>= f = f a
throws p >>= f = throws p
undefined >>= f = undefined

-- `for(const auto& child : node)`, where a round may throw.
unfoldable pub each {ℓ κ} : {N : Type ℓ} {S : Type κ} → (S → N → Loaded S) → List N → S → Loaded S
each step [] s = loaded s
each step (n ∷ ns) s = step s n >>= each step ns

-- The nodes of `ryml`. `val` is the text of the value, and empty if there is none.
pub record Yaml : Type 1 where
  pub Node : Type 0
  pub children : Node → List Node
  pub key : Node → Option Bytes
  pub val : Node → Bytes
  pub val_is_null : Node → Bool

-- `cmdline.substr(0, cmdline.find(' '))`
unfoldable pub program : Bytes → Bytes
unfolding find?
program cmdline = elim (find? (codes " ") cmdline) [ none ↦ cmdline | some i ↦ take i cmdline ]

unfoldable pub is_absolute : Bytes → Bool
unfolding starts_with
is_absolute path = starts_with (codes "/") path

abbrev pub is_empty : Bytes → Bool
is_empty [] = true
is_empty (c ∷ s) = false

unfoldable pub validate_command : (Bytes → Bool) → Bytes → Loaded (Unit {0})
unfolding program is_absolute
validate_command exists cmdline =
    if is_absolute (program cmdline)
    then (if exists (program cmdline) then loaded tt else throws unknown_command)
    else throws relative_command

abbrev valid_types : Map Bytes AdhocType
valid_types =
    (codes "dataclay", dataclay)
    ∷ (codes "expand", expand)
    ∷ (codes "gekkofs", gekkofs)
    ∷ (codes "hercules", hercules)
    ∷ []

pub to_adhoc_storage_type : Bytes → Loaded AdhocType
unfolding find
to_adhoc_storage_type type = elim (find type valid_types) [
  | none ↦ throws unsupported_type
  | some t ↦ loaded t
]

-- The local variables of `parse_adhoc_config_node`.
pub record Draft : Type 0 where
  pub working_directory : Bytes
  pub startup_command : Option Command
  pub shutdown_command : Option Command
  pub expand_command : Option Command
  pub shrink_command : Option Command

abbrev pub blank : Draft
blank = record {
  working_directory = [];
  startup_command = none;
  shutdown_command = none;
  expand_command = none;
  shrink_command = none;
}

abbrev pub with_startup : Draft → Command → Draft
with_startup d c = record d { startup_command = some c }

abbrev pub with_shutdown : Draft → Command → Draft
with_shutdown d c = record d { shutdown_command = some c }

abbrev pub with_expand : Draft → Command → Draft
with_expand d c = record d { expand_command = some c }

abbrev pub with_shrink : Draft → Command → Draft
with_shrink d c = record d { shrink_command = some c }

-- `*command`
abbrev pub value_of : Option Command → Loaded Command
value_of none = undefined
value_of (some c) = loaded c

finish_config : Draft → Loaded AdhocConfig
finish_config d = if is_empty d.working_directory then throws missing_directory else do
  startup ← value_of d.startup_command
  shutdown ← value_of d.shutdown_command
  grow ← value_of d.expand_command
  shrink ← value_of d.shrink_command
  loaded (record {
    working_directory = d.working_directory;
    startup_command = startup;
    shutdown_command = shutdown;
    expand_command = grow;
    shrink_command = shrink;
  })

module _ (yaml : Yaml) (exists : Bytes → Bool) where
  open yaml use {Node, children, key, val, val_is_null}

  environment_entry : Environment → Node → Environment
  unfolding Environment.set
  environment_entry env child = elim (key child) [
    | none ↦ env
    | some k ↦ Environment.set k (val child) env
  ]

  -- `parse_environment_node`
  parse_environment : Environment → List Node → Environment
  unfolding environment_entry
  parse_environment env [] = env
  parse_environment env (child ∷ rest) = parse_environment (environment_entry env child) rest

  command_entry : Command → Node → Loaded Command
  unfolding parse_environment validate_command
  command_entry c child = elim (key child) [
    | none ↦ loaded c
    | some k ↦
        if k == codes "environment"
        then loaded (record c { env = some (parse_environment [] (children child)) })
        else if k == codes "command"
        then (if val_is_null child
            then throws empty_command
            else (validate_command exists (val child) >>= λ _.
                loaded (record c { cmdline = val child })))
        else loaded c
  ]

  command_given : Command → Loaded Command
  command_given c = if is_empty c.cmdline then throws missing_command else loaded c

  parse_command : Node → Loaded Command
  unfolding command_entry command_given each
  parse_command node =
      each command_entry (children node) (record { cmdline = []; env = none }) >>= command_given

  config_entry : Draft → Node → Loaded Draft
  unfolding parse_command
  config_entry d child = elim (key child) [
    | none ↦ loaded d
    | some k ↦
        if k == codes "working_directory"
        then (if val_is_null child
            then throws empty_directory
            else loaded (record d { working_directory = val child }))
        else if k == codes "startup"
        then (parse_command child >>= λ c. loaded (with_startup d c))
        else if k == codes "shutdown"
        then (parse_command child >>= λ c. loaded (with_shutdown d c))
        else if k == codes "expand"
        then (parse_command child >>= λ c. loaded (with_expand d c))
        else if k == codes "shrink"
        then (parse_command child >>= λ c. loaded (with_shrink d c))
        else loaded d
  ]

  parse_adhoc_config : Node → Loaded AdhocConfig
  unfolding config_entry finish_config each
  parse_adhoc_config node = each config_entry (children node) blank >>= finish_config

  storage_entry : ConfigMap → Node → Loaded ConfigMap
  unfolding to_adhoc_storage_type parse_adhoc_config emplace
  storage_entry configs child = elim (key child) [
    | none ↦ loaded configs
    | some k ↦ do
      type ← to_adhoc_storage_type k
      config ← parse_adhoc_config child
      loaded (emplace type config configs).0
  ]

  parse_adhoc_storage : Node → Loaded ConfigMap
  unfolding storage_entry each
  parse_adhoc_storage node = each storage_entry (children node) []

  config_section : ConfigMap → Node → Loaded ConfigMap
  unfolding parse_adhoc_storage
  config_section configs child = elim (key child) [
    | none ↦ loaded configs
    | some k ↦ if k == codes "adhoc_storage" then parse_adhoc_storage child else loaded configs
  ]

  parse_config : Node → Loaded ConfigMap
  unfolding config_section each
  parse_config node = each config_section (children node) []

  file_section : ConfigMap → Node → Loaded ConfigMap
  unfolding parse_config
  file_section configs child = elim (key child) [
    | none ↦ loaded configs
    | some k ↦ if k == codes "config" then parse_config child else loaded configs
  ]

  -- The constructor of `config_file`, on the root of the tree, or `none` if the file cannot be read.
  unfoldable pub config_file : Option Node → Loaded ConfigMap
  unfolding file_section each
  config_file none = throws unreadable_file
  config_file (some root) = each file_section (children root) []
