-- ===== src/Plugin/Hooks/Prepared.antt =====
-- What the hooks of plugins/slurm/slurmadmcli.c have read before they act.
use io_scheduler.Prelude.{ℕ, ◌≡◌, Option, none, some, List, inl, inr, Option-cases, arith}
use io_scheduler.Types.{Bytes}
use io_scheduler.Conversions.{CRoute}
use io_scheduler.Plugin.{Strtol}
use io_scheduler.Plugin.Options.{Options}
use io_scheduler.Plugin.Settings.{Config, Configured, configured, invalid, overrun, process_config}
use io_scheduler.Plugin.Nodes.{NodeList, nodelist_create}
use io_scheduler.Plugin.World.{Wanted}
use io_scheduler.Plugin.Hooks.{
  Slurm, wanted_of, wanted_from, routes_at, ready, prepare, prepared, identified, listed,
  get_slurm_hostlist,
}

-- What the registration takes over from the options.
abbrev pub IsOf : Options → Wanted → Type 0
IsOf o wanted =
    (wanted.adhoc_type ≡ o.adhoc_type)
    × (wanted.adhoc_mode ≡ o.adhoc_mode)
    × (wanted.adhoc_nnodes ≡ o.adhoc_nnodes)
    × (wanted.limit ≡ o.limit)

wanted_from-IsOf :
    (o : Options) (inputs outputs expected : Option (List CRoute)) {wanted : Wanted}
    → wanted_from o inputs outputs expected ≡ some wanted
    → IsOf o wanted
wanted_from-IsOf o none outputs expected e = absurd (cc e)
wanted_from-IsOf o (some inputs) none expected e = absurd (cc e)
wanted_from-IsOf o (some inputs) (some outputs) none e = absurd (cc e)
wanted_from-IsOf o (some inputs) (some outputs) (some expected) e = (cc e, cc e, cc e, cc e)

pub wanted_of-IsOf : (o : Options) {wanted : Wanted} → wanted_of o ≡ some wanted → IsOf o wanted
wanted_of-IsOf o e =
    wanted_from-IsOf o (routes_at o.inputs.array) (routes_at o.outputs.array)
      (routes_at o.expected_outputs.array) e

module _ {H : Type 0} (strtol : Strtol) (slurm : Slurm H) where
  listed-jobid :
      (conf cfg : Config) (n jobid : ℕ) (list : NodeList) (hosts : Option H)
      → listed strtol slurm conf n hosts ≡ ready cfg jobid list
      → n ≡ jobid
  listed-jobid conf cfg n jobid list none e = absurd (cc e)
  listed-jobid conf cfg n jobid list (some h) e =
      elim (Option-cases (nodelist_create slurm.hosts h).0) [
        | inl absent ↦ absurd (ground (arith, e, absent))
        | inr (nodes, there) ↦ ground (arith, e, there)
      ]

  identified-jobid :
      (conf cfg : Config) (n : Option ℕ) (jobid : ℕ) (list : NodeList)
      → identified strtol slurm conf n ≡ ready cfg jobid list
      → n ≡ some jobid
  identified-jobid conf cfg none jobid list e = absurd (cc e)
  identified-jobid conf cfg (some n) jobid list e =
      cc (listed-jobid conf cfg n jobid list (get_slurm_hostlist slurm) e)

  prepared-jobid :
      (conf : Configured) {cfg : Config} {jobid : ℕ} {list : NodeList}
      → prepared strtol slurm conf ≡ ready cfg jobid list
      → slurm.jobid ≡ some jobid
  prepared-jobid (configured conf) {cfg} {jobid} {list} e =
      identified-jobid conf cfg slurm.jobid jobid list e
  prepared-jobid invalid e = absurd (cc e)
  prepared-jobid overrun e = absurd (cc e)

  pub ready-jobid :
      (args : List Bytes) (default_cfg : Config) {cfg : Config} {jobid : ℕ} {list : NodeList}
      → prepare strtol slurm args default_cfg ≡ ready cfg jobid list
      → slurm.jobid ≡ some jobid
  unfolding prepare
  ready-jobid args default_cfg e = prepared-jobid (process_config strtol args default_cfg) e
