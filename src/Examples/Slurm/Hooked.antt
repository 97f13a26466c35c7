-- ===== src/Examples/Slurm/Hooked.antt =====
-- The theorems on the hooks of the plugin at concrete inputs.
use io_scheduler.Prelude.{◌-◌, ◌≡◌, refl, true, false, some, none, List, [], nat_key}
use io_scheduler.Prelude.Bytes.{codes}
use io_scheduler.Prelude.Int.{pos}
use io_scheduler.Types.{Bytes, expand}
use io_scheduler.Plugin.{remote}
use io_scheduler.Plugin.Options.{Options, defaults}
use io_scheduler.Plugin.Settings.{process_config}
use io_scheduler.Plugin.Hooks.{Slurm, minus_one, prepare, spank_exit}
use io_scheduler.Plugin.Hooks.Outcomes.{spank_exit_known}
use io_scheduler.Examples.Slurm.{decimal, queue, two_hosts, servers}
use io_scheduler.Examples.Slurm.Registered.{willing, no_limit, one_host, new}

abbrev first_node : Slurm (List Bytes)
first_node = record {
  context = remote;
  nodeid = some 0;
  jobid = some 77;
  getenv = none;
  spank_getenv = some (codes "n[0-1]");
  hostlist_create = λ nodes. some two_hosts;
  hosts = queue;
}

-- `--adm-adhoc expand --adm-adhoc-nodes 1`
abbrev given : Options
given = record defaults { scord_flag = true; adhoc_nnodes = pos 1; adhoc_type = expand }

spank_exit_known_example : new ≡ new
unfolding spank_exit prepare process_config
spank_exit_known_example =
    spank_exit_known decimal (record first_node { jobid = none }) willing false (λ t. t)
      (λ n. n - 1) no_limit one_host 5 [] servers given new new minus_one (λ e. absurd (cc e)) refl
