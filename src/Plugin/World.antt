-- ===== src/Plugin/World.antt =====
-- What the registration and the removal of a job in plugins/slurm/slurmadmcli.c work on, and the steps that
-- they are made of. A write to a global variable is one to the record `World`. Log lines are left out.
use io_scheduler.Prelude.{
  ℕ, ◌-◌, ◌%◌, ◌^◌, Bool, false, Option, none, some, List, [], ◌∷◌, ◌++◌, ltb, if◌then◌else◌,
}
use io_scheduler.Prelude.Bytes.{codes, take}
use io_scheduler.Prelude.Int.{ℤ, pos, negsuc}
use io_scheduler.Types.{
  Bytes, ExecutionMode, read_write, AdhocType, gekkofs, dataclay, expand, hercules, Job,
}
use io_scheduler.Conversions.{CResources, CAdhocContext, CAdhocStorage, CRoute, CRequirements}
use io_scheduler.Utils.Routes.{ReturnCode}
use io_scheduler.Client.{Ended, returns, terminates}
use io_scheduler.Plugin.Settings.{ServerInfo, Config}
use io_scheduler.Plugin.Nodes.{
  NodeList, get_node, hostname_of, Resolver, Address, address, no_address, null_read,
  margo_address_create,
}

-- What the registration takes from the options: the arrays of routes are those of the C API.
pub record Wanted : Type 0 where
  pub adhoc_nnodes : ℤ
  pub adhoc_mode : ExecutionMode
  pub adhoc_type : AdhocType
  pub inputs : List CRoute
  pub outputs : List CRoute
  pub expected_outputs : List CRoute
  pub limit : ℤ

-- The daemon's state, the global variables that outlive the registration, the environment of the job, and
-- the directories whose contents are removed.
pub record World (S : Type 0) : Type 0 where
  pub daemon : S
  pub server : Bool
  pub adhoc_storage : Option CAdhocStorage
  pub scord_reqs : Option CRequirements
  pub scord_job : Option Job
  pub adhoc_path : Option Bytes
  pub environment : List (Bytes × Bytes)
  pub removed : List Bytes

-- A step goes on, makes the function return -1, uses a null pointer or what is behind an array, or
-- waits for more rounds than it is given.
pub data Step (S A : Type 0) : Type 0 where
  continues : A → World S → Step S A
  fails : World S → Step S A
  crashes no_end : Step S A

abbrev pub Act : Type 0 → Type 0 → Type 0
Act S A = World S → Step S A

abbrev pub then_step : {S A B : Type 0} → Step S A → (A → Act S B) → Step S B
then_step (continues a w) f = f a w
then_step (fails w) f = fails w
then_step crashes f = crashes
then_step no_end f = no_end

infixl 5 ◌>>=◌ ◌>>◌
abbrev pub ◌>>=◌ : {S A B : Type 0} → Act S A → (A → Act S B) → Act S B
◌>>=◌ m f w = then_step (m w) f

abbrev pub ◌>>◌ : {S B : Type 0} → Act S (Unit {0}) → Act S B → Act S B
m >> k = m >>= λ _. k

abbrev pub return : {S A : Type 0} → A → Act S A
return a w = continues a w

-- A null pointer is used, or leads to the end of the function.
abbrev pub used : {S A : Type 0} → Option A → Act S A
used none w = crashes
used (some a) w = continues a w

abbrev pub needed : {S A : Type 0} → Option A → Act S A
needed none w = fails w
needed (some a) w = continues a w

-- The address of the controller, without which the function returns, and that of cargo, which may be null.
abbrev pub wanted_address : {S : Type 0} → Address → Act S Bytes
wanted_address (address a) w = continues a w
wanted_address no_address w = fails w
wanted_address null_read w = crashes

abbrev pub any_address : {S : Type 0} → Address → Act S (Option Bytes)
any_address (address a) w = continues (some a) w
any_address no_address w = continues none w
any_address null_read w = crashes

abbrev pub server_address : Resolver → ServerInfo → NodeList → Address
server_address r info list =
    margo_address_create r info.proto (hostname_of (get_node list (pos 0))) info.port

abbrev pub ctl_address : {S : Type 0} → Resolver → Config → NodeList → Act S Bytes
ctl_address r cfg list = wanted_address (server_address r cfg.scordctl_info list)

abbrev pub cargo_address : {S : Type 0} → Resolver → Config → NodeList → Act S (Option Bytes)
cargo_address r cfg list = any_address (server_address r cfg.cargo_info list)

-- `ADM_adhoc_resources_create(nodes, adhoc_nnodes < nnodes ? adhoc_nnodes : nnodes)`: a negative number of
-- nodes becomes a length for which there is no memory.
abbrev pub adhoc_resources : ℤ → NodeList → Option CResources
adhoc_resources (pos n) list =
    some
      (record { r_nodes = some (take (if ltb n list.nnodes then n else list.nnodes) list.nodes) })
adhoc_resources (negsuc n) list = none

-- `ADM_adhoc_context_create`
abbrev pub context_create : Bytes → Option Bytes → ExecutionMode → Option CAdhocContext
context_create ctl none mode = none
context_create ctl (some stager) mode = some (record {
  c_ctl_address = some ctl;
  c_stager_address = some stager;
  c_mode = mode;
  c_access = read_write;
  c_walltime = 0;
  c_should_bg_flush = false;
})

abbrev pub variables_of : AdhocType → List (Bytes × Bytes)
variables_of gekkofs =
    (codes "ADHOC_TYPE", codes "gekkofs")
    ∷ (codes "LIBGKFS_HOSTS_FILE", codes "/tmp/gekkofs/gkfs_hosts.txt")
    ∷ []
variables_of expand = (codes "ADHOC_TYPE", codes "expand") ∷ []
variables_of dataclay = (codes "ADHOC_TYPE", codes "dataclay") ∷ []
variables_of hercules = (codes "ADHOC_TYPE", codes "hercules") ∷ []

abbrev pub set_environment : {S : Type 0} → AdhocType → Bytes → Act S (Unit {0})
set_environment type path w = continues tt (record w {
  environment = w.environment ++ (variables_of type ++ (codes "ADHOC_PATH", path) ∷ []);
})

-- `uint64_t`
abbrev pub unsigned64 : ℤ → ℕ
unsigned64 (pos n) = n
unsigned64 (negsuc n) = 2 ^ 64 - 1 - n % 2 ^ 64

-- A result of the C API that is expected to be success, with what it writes.
abbrev pub expect : {S A : Type 0} → S × Ended (ReturnCode × Option A) → Act S A
expect (s, returns (ReturnCode.success, some a)) w = continues a (record w { daemon = s })
expect (s, returns (code, a)) w = fails (record w { daemon = s })
expect (s, terminates) w = crashes

abbrev pub expect_waited :
    {S A : Type 0} → Option (S × Ended (ReturnCode × Option A)) → Act S (Unit {0})
expect_waited none w = no_end
expect_waited (some (s, returns (ReturnCode.success, a))) w = continues tt (record w { daemon = s })
expect_waited (some (s, returns (code, a))) w = fails (record w { daemon = s })
expect_waited (some (s, terminates)) w = crashes
