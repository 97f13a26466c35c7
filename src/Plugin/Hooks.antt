-- ===== src/Plugin/Hooks.antt =====
-- The functions that Slurm calls: `slurm_spank_init`, `slurm_spank_user_init` and `slurm_spank_exit` of
-- plugins/slurm/slurmadmcli.c, with `get_slurm_hostlist` of plugins/slurm/utils.c. What Slurm answers is a
-- parameter.
pub mod Prepared
pub mod Outcomes
use io_scheduler.Prelude.{
  ℕ, zero, suc, ◌-◌, Bool, true, false, Option, none, some, List, [], ◌∷◌, map, if◌then◌else◌, ◌==◌,
  nat_key, not,
}
use io_scheduler.Prelude.Bytes.{codes}
use io_scheduler.Types.{Bytes, QosLimit}
use io_scheduler.Conversions.{CRoute}
use io_scheduler.Conversions.RoundTrip.{c_route}
use io_scheduler.Client.{Connection}
use io_scheduler.Client.Capi.{TransferStatus}
use io_scheduler.Plugin.{Context, local, allocator, remote, slurmd, elsewhere, Strtol}
use io_scheduler.Plugin.Options.{
  Tag, nnodes, adhoc_type, adhoc_overlap, adhoc_exclusive, adhoc_dedicated, adhoc_remote,
  dataset_input, dataset_output, dataset_expected_output, dataset_expected_inout, qos_limit, Array,
  null, dangling, holds, Options, handles,
}
use io_scheduler.Plugin.Settings.{Config, Configured, configured, invalid, overrun, process_config}
use io_scheduler.Plugin.Nodes.{HostList, NodeList, Resolver, nodelist_create}
use io_scheduler.Plugin.World.{Wanted, World, Step, continues, fails, crashes, no_end}
use io_scheduler.Plugin.Jobs.{register_job, unregister_job}

-- `struct spank_option`, without its texts for users
pub record SpankOption : Type 0 where
  pub name : Bytes
  pub has_arg : Bool
  pub tag : Tag

abbrev option_of : Tag → Bool → Bytes → SpankOption
option_of tag has_arg name = record { name = name; has_arg = has_arg; tag = tag }

abbrev pub spank_opts : List SpankOption
spank_opts =
    option_of adhoc_type true (codes "adm-adhoc")
    ∷ option_of adhoc_overlap false (codes "adm-adhoc-overlap")
    ∷ option_of adhoc_exclusive false (codes "adm-adhoc-exclusive")
    ∷ option_of adhoc_dedicated false (codes "adm-adhoc-dedicated")
    ∷ option_of adhoc_remote true (codes "adm-adhoc-remote")
    ∷ option_of nnodes true (codes "adm-adhoc-nodes")
    ∷ option_of dataset_input true (codes "adm-input-datasets")
    ∷ option_of dataset_output true (codes "adm-output-datasets")
    ∷ option_of dataset_expected_output true (codes "adm-expected-output-datasets")
    ∷ option_of dataset_expected_inout true (codes "adm-expected-inout-datasets")
    ∷ option_of qos_limit true (codes "adm-qos-limit")
    ∷ []

-- What a function returns to Slurm: 0, -1, or a variable that was never set.
pub data Code : Type 0 where
  zero_code minus_one indeterminate : Code

abbrev code_of : Bool → Code
code_of success = if success then zero_code else minus_one

-- The loop that registers the options; only the last answer is kept.
abbrev pub register_options : (SpankOption → Bool) → List SpankOption → Bool → Bool
register_options register [] rc = rc
register_options register (opt ∷ rest) rc = register_options register rest (register opt)

unfoldable pub spank_init : (SpankOption → Bool) → Context → Code
spank_init register context =
    code_of (if handles context then register_options register spank_opts true else true)

-- What Slurm answers to the plugin in a job with host lists H: the node's number, the job's, the two
-- environments' list of nodes, and the list of hosts that a text is read as.
pub record Slurm (H : Type 0) : Type 0 where
  pub context : Context
  pub nodeid : Option ℕ
  pub jobid : Option ℕ
  pub getenv : Option Bytes
  pub spank_getenv : Option Bytes
  pub hostlist_create : Bytes → Option H
  pub hosts : HostList H

-- What a hook leaves: it returns, uses a null pointer or what is behind an array, or waits on.
pub data Hooked (S : Type 0) : Type 0 where
  hooked : Code → World S → Hooked S
  crashed waiting : Hooked S

abbrev read_with : {H : Type 0} → (Bytes → Option H) → Option Bytes → Option H
read_with create none = none
read_with create (some nodes) = create nodes

unfoldable pub get_slurm_hostlist : {H : Type 0} → Slurm H → Option H
get_slurm_hostlist slurm = elim slurm.context [
  | local ↦ read_with slurm.hostlist_create slurm.getenv
  | allocator ↦ read_with slurm.hostlist_create slurm.getenv
  | remote ↦ read_with slurm.hostlist_create slurm.spank_getenv
  | slurmd ↦ none
  | elsewhere ↦ none
]

-- The arrays that the options have left, as the registration finds them.
abbrev pub routes_at : Array → Option (List CRoute)
routes_at null = some []
routes_at (holds routes) = some (map c_route routes)
routes_at dangling = none

abbrev pub wanted_from :
    Options → Option (List CRoute) → Option (List CRoute) → Option (List CRoute) → Option Wanted
wanted_from o (some inputs) (some outputs) (some expected) = some (record {
  adhoc_nnodes = o.adhoc_nnodes;
  adhoc_mode = o.adhoc_mode;
  adhoc_type = o.adhoc_type;
  inputs = inputs;
  outputs = outputs;
  expected_outputs = expected;
  limit = o.limit;
})
wanted_from o _ _ _ = none

abbrev pub wanted_of : Options → Option Wanted
wanted_of o =
    wanted_from o (routes_at o.inputs.array) (routes_at o.outputs.array)
      (routes_at o.expected_outputs.array)

-- What both hooks read before they act: the configuration, the job's number and its list of nodes. They
-- leave with -1 without one of these.
pub data Ready : Type 0 where
  ready : Config → ℕ → NodeList → Ready
  refused overran : Ready

module _ {H : Type 0} (strtol : Strtol) (slurm : Slurm H) where
  abbrev pub listed : Config → ℕ → Option H → Ready
  listed cfg jobid none = refused
  listed cfg jobid (some h) = elim (nodelist_create slurm.hosts h).0 [
    | none ↦ refused
    | some list ↦ ready cfg jobid list
  ]

  abbrev pub identified : Config → Option ℕ → Ready
  identified cfg none = refused
  identified cfg (some jobid) = listed cfg jobid (get_slurm_hostlist slurm)

  abbrev pub prepared : Configured → Ready
  prepared (configured cfg) = identified cfg slurm.jobid
  prepared invalid = refused
  prepared overrun = overran

  unfoldable pub prepare : List Bytes → Config → Ready
  unfolding process_config get_slurm_hostlist nodelist_create
  prepare args cfg = prepared (process_config strtol args cfg)

module _ {H S T : Type 0} (strtol : Strtol) (slurm : Slurm H) (c : Connection S T) (logging : Bool)
    (status : T → TransferStatus) (sleep : S → S) (unset : QosLimit) (r : Resolver) where
  abbrev pub returned : Code → World S → Step S (Unit {0}) → Hooked S
  returned code w (continues _ w') = hooked code w'
  returned code w (fails w') = hooked minus_one w'
  returned code w crashes = crashed
  returned code w no_end = waiting

  abbrev pub register_ready : ℕ → Option Wanted → Ready → World S → Hooked S
  register_ready rounds wanted refused w = hooked minus_one w
  register_ready rounds wanted overran w = crashed
  register_ready rounds none (ready cfg jobid list) w = crashed
  register_ready rounds (some wanted) (ready cfg jobid list) w =
      returned zero_code w
        (register_job c logging status sleep unset rounds r cfg wanted list jobid w)

  -- The registration is left to the node with number 0.
  abbrev pub on_node : Option ℕ → (World S → Hooked S) → World S → Hooked S
  on_node none act w = hooked minus_one w
  on_node (some zero) act w = act w
  on_node (some (suc n)) act w = hooked zero_code w

  unfoldable pub spank_user_init : ℕ → List Bytes → Config → Options → World S → Hooked S
  unfolding prepare register_job
  spank_user_init rounds args default_cfg o w =
      if not o.scord_flag
      then hooked zero_code w
      else on_node slurm.nodeid
          (λ w. register_ready rounds (wanted_of o) (prepare strtol slurm args default_cfg) w) w

  -- What the removal returns is dropped, and the variable that is returned is not set.
  abbrev pub dropped : Step S (Unit {0}) → Hooked S
  dropped (continues _ w') = hooked indeterminate w'
  dropped (fails w') = hooked indeterminate w'
  dropped crashes = crashed
  dropped no_end = waiting

  abbrev pub unregister_ready : ℕ → Options → Ready → World S → Hooked S
  unregister_ready rounds o refused w = hooked minus_one w
  unregister_ready rounds o overran w = crashed
  unregister_ready rounds o (ready cfg jobid list) w =
      dropped
        (unregister_job c logging status sleep unset rounds r cfg o.outputs.count o.limit list w)

  abbrev pub is_remote : Context → Bool
  is_remote remote = true
  is_remote _ = false

  unfoldable pub spank_exit : ℕ → List Bytes → Config → Options → World S → Hooked S
  unfolding prepare unregister_job
  spank_exit rounds args default_cfg o w =
      if not o.scord_flag
      then hooked zero_code w
      else if not (is_remote slurm.context)
      then hooked zero_code w
      else on_node slurm.nodeid
          (λ w. unregister_ready rounds o (prepare strtol slurm args default_cfg) w) w
