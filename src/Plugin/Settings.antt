-- ===== src/Plugin/Settings.antt =====
-- The arguments of the plugin in Slurm's plugstack.conf: `process_config` of plugins/slurm/slurmadmcli.c.
pub mod RoundTrip
use io_scheduler.Prelude.{
  ℕ, zero, suc, ◌+◌, Bool, true, false, Option, none, some, List, [], ◌∷◌, length, deref, has_value,
  if◌then◌else◌,
}
use io_scheduler.Prelude.Bytes.{codes, starts_with, drop}
use io_scheduler.Prelude.Int.{ℤ, to_int}
use io_scheduler.Types.{Bytes}
use io_scheduler.Plugin.{Number, Strtol}

-- `scord_server_info_t`
pub record ServerInfo : Type 0 where
  pub addr : Option Bytes
  pub proto : Option Bytes
  pub port : ℤ  -- int
  pub prog : Option Bytes
  pub tmpdir : Option Bytes

-- `scord_plugin_config_t`
pub record Config : Type 0 where
  pub scord_info : ServerInfo
  pub scordctl_info : ServerInfo
  pub cargo_info : ServerInfo

-- The places that the table of settings points to, by the type of what is there.
pub data Text : Type 0 where
  scord_addr scord_proto scordctl_prog scordctl_tmpdir cargo_prog : Text

pub data Port : Type 0 where
  scordctl_port cargo_port : Port

pub data Place : Type 0 where
  text : Text → Place
  int : Port → Place

-- `scord_options`, with their names
abbrev pub settings : List (Bytes × Place)
settings =
    (codes "scord_addr", text scord_addr)
    ∷ (codes "scord_proto", text scord_proto)
    ∷ (codes "scordctl_prog", text scordctl_prog)
    ∷ (codes "scordctl_port", int scordctl_port)
    ∷ (codes "scordctl_tmpdir", text scordctl_tmpdir)
    ∷ (codes "cargo_prog", text cargo_prog)
    ∷ (codes "cargo_port", int cargo_port)
    ∷ []

abbrev pub put_text : Text → Bytes → Config → Config
put_text scord_addr v cfg = record cfg { scord_info = record cfg.scord_info { addr = some v } }
put_text scord_proto v cfg = record cfg { scord_info = record cfg.scord_info { proto = some v } }
put_text scordctl_prog v cfg = record cfg {
  scordctl_info = record cfg.scordctl_info { prog = some v };
}
put_text scordctl_tmpdir v cfg = record cfg {
  scordctl_info = record cfg.scordctl_info { tmpdir = some v };
}
put_text cargo_prog v cfg = record cfg { cargo_info = record cfg.cargo_info { prog = some v } }

abbrev pub put_int : Port → ℤ → Config → Config
put_int scordctl_port n cfg = record cfg { scordctl_info = record cfg.scordctl_info { port = n } }
put_int cargo_port n cfg = record cfg { cargo_info = record cfg.cargo_info { port = n } }

-- The return values 0 and -1, and a pointer to what is behind an argument.
pub data Configured : Type 0 where
  configured : Config → Configured
  invalid overrun : Configured

-- `av[i] + opt_desc.len + 1`; `none` is past the NUL of the argument.
abbrev pub value_of : Bytes → ℕ → Option Bytes
value_of arg zero = some arg
value_of [] (suc n) = none
value_of (c ∷ arg) (suc n) = value_of arg n

abbrev then_all : Configured → (Config → Configured) → Configured
then_all (configured cfg) rest = rest cfg
then_all invalid rest = invalid
then_all overrun rest = overrun

module _ (strtol : Strtol) where
  abbrev pub assign_int : Port → Bytes → Config → Configured
  assign_int place value cfg =
      let n = strtol 10 value in
      if has_value (deref value n.used)
      then invalid
      else configured (put_int place (to_int n.value) cfg)

  abbrev pub assign : Place → Option Bytes → Config → Configured
  assign place none cfg = overrun
  assign (text place) (some value) cfg = configured (put_text place value cfg)
  assign (int place) (some value) cfg = assign_int place value cfg

  -- The inner loop: the first setting whose name the argument begins with.
  unfoldable pub find_setting : List (Bytes × Place) → Bytes → Config → Configured
  unfolding starts_with
  find_setting [] arg cfg = invalid
  find_setting ((name, place) ∷ rest) arg cfg =
      if starts_with name arg
      then assign place (value_of arg (length name + 1)) cfg
      else find_setting rest arg cfg

  unfoldable pub process_config : List Bytes → Config → Configured
  unfolding find_setting
  process_config [] cfg = configured cfg
  process_config (arg ∷ args) cfg =
      then_all (find_setting settings arg cfg) (λ cfg'. process_config args cfg')
