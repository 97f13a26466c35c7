-- ===== src/Plugin.antt =====
-- The SPANK plugin of Slurm, plugins/slurm/slurmadmcli.c and plugins/slurm/utils.c: the options that users
-- give (Options), those of the plugin's configuration (Settings), the nodes of a job (Nodes), its
-- registration and removal (World, Jobs), and the functions that Slurm calls (Hooks). No allocation fails here.
pub mod Options
pub mod Settings
pub mod Nodes
pub mod World
pub mod Jobs
pub mod Hooks
use io_scheduler.Prelude.{ℕ}
use io_scheduler.Prelude.Int.{ℤ}
use io_scheduler.Types.{Bytes}

-- `spank_context()`: `srun`, `salloc` or `sbatch`, `slurmstepd`, `slurmd`, or none of these
pub data Context : Type 0 where
  local allocator remote slurmd elsewhere : Context

-- What `strtol` gives: the number, how many bytes of the text it has used, and `errno`.
pub record Number : Type 0 where
  pub value : ℤ
  pub used : ℕ
  pub errno : ℕ

-- `strtol` by the base: the C library's.
abbrev pub Strtol : Type 0
Strtol = ℕ → Bytes → Number
