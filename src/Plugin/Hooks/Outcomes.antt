-- ===== src/Plugin/Hooks/Outcomes.antt =====
-- What the codes say that the hooks return to Slurm.
use mathlib.Core.Path.{subst}
use io_scheduler.Prelude.{
  ℕ, zero, suc, ◌≡◌, ◌≢◌, ◌⊎◌, refl, Bool, false, Option, none, some, List, inl, inr, Bool-cases,
}
use io_scheduler.Types.{Bytes, QosLimit}
use io_scheduler.Client.{Connection}
use io_scheduler.Client.Capi.{TransferStatus}
use io_scheduler.Plugin.{Strtol}
use io_scheduler.Plugin.Options.{Options}
use io_scheduler.Plugin.Settings.{Config}
use io_scheduler.Plugin.Nodes.{Resolver, NodeList}
use io_scheduler.Plugin.World.{Wanted, World, Step, continues, fails, crashes, no_end}
use io_scheduler.Plugin.Jobs.{unregister_job}
use io_scheduler.Plugin.Jobs.Told.{HasTold}
use io_scheduler.Plugin.Hooks.Prepared.{IsOf}
use io_scheduler.Plugin.Hooks.{
  Code, zero_code, indeterminate, Slurm, Hooked, hooked, crashed, waiting, wanted_of, Ready, ready,
  refused, overran, prepare, on_node, dropped, is_remote, unregister_ready, spank_exit,
}

-- What holds of a hook that returns.
abbrev Leaves : {S : Type 0} → (Code → World S → Type 0) → Hooked S → Type 0
Leaves P (hooked code w) = P code w
Leaves P crashed = Unit
Leaves P waiting = Unit

module _ {H S T : Type 0} (strtol : Strtol) (slurm : Slurm H) (c : Connection S T) (logging : Bool)
    (status : T → TransferStatus) (sleep : S → S) (unset : QosLimit) (r : Resolver) where
  -- The plugin has nothing to do here: no option was given, or this is not the first node of the job.
  abbrev pub IsBystander : Options → Type 0
  IsBystander o = (o.scord_flag ≡ false) ⊎ ((n : ℕ) × (slurm.nodeid ≡ some (suc n)))

  -- The daemon has been told what the options say, with the job number and the nodes that Slurm gives.
  abbrev pub HasRegistered : List Bytes → Config → Options → World S → World S → Type 0
  HasRegistered args default_cfg o w w' =
      (wanted : Wanted) × (cfg : Config) × (jobid : ℕ) × (list : NodeList) × (wanted_of o
        ≡ some wanted)
      × IsOf o wanted
      × (prepare strtol slurm args default_cfg ≡ ready cfg jobid list)
      × (slurm.jobid ≡ some jobid)
      × HasTold c logging status sleep unset r cfg wanted list jobid w.daemon w'

  abbrev Reports : List Bytes → Config → Options → World S → Code → World S → Type 0
  Reports args default_cfg o w code w' =
      code ≡ zero_code
      → (IsBystander o × (w' ≡ w))
        ⊎ ((slurm.nodeid ≡ some 0) × HasRegistered args default_cfg o w w')

  abbrev Tells : World S → Code → World S → Type 0
  Tells w code w' = (code ≢ indeterminate) → w' ≡ w

  dropped-Tells :
      (w : World S) (m : Step S (Unit {0}))
      → Leaves (Tells w) (dropped strtol slurm c logging status sleep unset r m)
  dropped-Tells w (continues a w') = λ known. absurd (known refl)
  dropped-Tells w (fails w') = λ known. absurd (known refl)
  dropped-Tells w crashes = tt
  dropped-Tells w no_end = tt

  ready-Tells :
      (rounds : ℕ) (o : Options) (prepared : Ready) (w : World S)
      → Leaves
          (Tells w)
          (unregister_ready strtol slurm c logging status sleep unset r rounds o prepared w)
  ready-Tells rounds o refused w = λ known. refl
  ready-Tells rounds o overran w = tt
  ready-Tells rounds o (ready cfg jobid list) w =
      dropped-Tells w
        (unregister_job c logging status sleep unset rounds r cfg o.outputs.count o.limit list w)

  node-Tells :
      (node : Option ℕ) (act : World S → Hooked S) (w : World S)
      → Leaves (Tells w) (act w)
      → Leaves (Tells w) (on_node strtol slurm c logging status sleep unset r node act w)
  node-Tells none act w h = λ known. refl
  node-Tells (some zero) act w h = h
  node-Tells (some (suc n)) act w h = λ known. refl

  exit-Tells :
      (rounds : ℕ) (args : List Bytes) (cfg : Config) (o : Options) (w : World S)
      → Leaves
          (Tells w)
          (spank_exit strtol slurm c logging status sleep unset r rounds args cfg o w)
  unfolding spank_exit
  exit-Tells rounds args cfg o w = elim (Bool-cases o.scord_flag) [
    | inr off ↦ rw off (λ known. refl)
    | inl on ↦
        rw on
          (elim (Bool-cases (is_remote strtol slurm c logging status sleep unset r slurm.context)) [
            | inr away ↦ rw away (λ known. refl)
            | inl here ↦ rw here (
                node-Tells slurm.nodeid _ w
                  (ready-Tells rounds o (prepare strtol slurm args cfg) w))
          ])
  ]

  -- If the hook at the end of the job returns a code that its variable was set to, 0 or -1, nothing has been done:
  -- whatever the daemon and Slurm answer, a removal that is begun, even one that succeeds, ends in a
  -- return value that was never set.
  pub spank_exit_known :
      (rounds : ℕ) (args : List Bytes) (cfg : Config) (o : Options) (w w' : World S) (code : Code)
      → code ≢ indeterminate
      → spank_exit strtol slurm c logging status sleep unset r rounds args cfg o w ≡ hooked code w'
      → w' ≡ w
  spank_exit_known rounds args cfg o w w' code known h =
      subst (Leaves (Tells w)) h (exit-Tells rounds args cfg o w) known
