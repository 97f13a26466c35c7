-- ===== src/Examples/Slurm.antt =====
-- The theorems on the plugin of Slurm at concrete inputs.
pub mod Registered
pub mod Hooked
use io_scheduler.Prelude.{
  ℕ, zero, suc, ◌+◌, ◌-◌, ◌*◌, ◌≡◌, ◌≢◌, ◌↔◌, refl, true, false, Option, some, none, List, [], ◌∷◌,
  map, length, if◌then◌else◌, ◌&&◌, leb, nat_key, deref,
}
use mathlib.Core.Option
use io_scheduler.Prelude.Bytes.{codes}
use io_scheduler.Prelude.Int.{ℤ, pos}
use io_scheduler.Prelude.Text.{Every}
use io_scheduler.Types.{Bytes, expand}
use io_scheduler.Plugin.{local, Number, Strtol}
use io_scheduler.Plugin.Options.{
  adhoc_type, adhoc_dedicated, dataset_input, qos_limit, Options, defaults, double_free,
}
use io_scheduler.Plugin.Options.Described.{Given, process_all, described, all_valid, successful}
use io_scheduler.Plugin.Options.Last.{process_all_last}
use io_scheduler.Plugin.Settings.{ServerInfo, Config, configured, process_config}
use io_scheduler.Plugin.Settings.RoundTrip.{Setting, spelled, IsWhole, put_all, process_config_iff}
use io_scheduler.Plugin.Nodes.{HostList, nodelist_create}
use io_scheduler.Plugin.Nodes.Hosts.{list_of, node_at, node_on, nodelist_create_lem}

-- Decimal digits.
abbrev scan : ℕ → ℕ → Bytes → Number
scan value used [] = record { value = pos value; used = used; errno = 0 }
scan value used (c ∷ rest) =
    if leb b'0' c && leb c b'9'
    then scan (value * 10 + (c - b'0')) (used + 1) rest
    else record { value = pos value; used = used; errno = 0 }

abbrev pub decimal : Strtol
decimal base text = scan 0 0 text

abbrev command_line : List Given
command_line =
    (qos_limit, codes "5")
    ∷ (dataset_input, codes "a=b")
    ∷ (adhoc_type, codes "expand")
    ∷ (qos_limit, codes "70")
    ∷ []

process_all_last_example :
    (successful (process_all decimal local command_line defaults) ≡ (
      if all_valid decimal command_line
      then some (described decimal command_line defaults)
      else none))
    × (process_all decimal local command_line defaults ≢ double_free)
process_all_last_example =
    process_all_last decimal local command_line defaults refl (tt, tt, tt, tt)

abbrev no_server : ServerInfo
no_server = record { addr = none; proto = none; port = pos 0; prog = none; tmpdir = none }

abbrev pub servers : Config
servers = record {
  scord_info = no_server;
  scordctl_info = record no_server { proto = some (codes "tcp"); port = pos 52000 };
  cargo_info = record no_server { proto = some (codes "tcp"); port = pos 62000 };
}

abbrev with_port : Config
with_port = record servers {
  scord_info = record no_server { addr = some (codes "node:1") };
  cargo_info = record no_server { proto = some (codes "tcp"); port = pos 80 };
}

process_config_iff_example :
    (process_config decimal (codes "scord_addr=node:1" ∷ codes "cargo_port=80" ∷ []) servers
      ≡ configured with_port)
    ↔ ((given : List Setting) × (codes "scord_addr=node:1" ∷ codes "cargo_port=80" ∷ []
          ≡ map spelled given)
        × Every (IsWhole decimal) given
        × (put_all decimal given servers ≡ with_port))
process_config_iff_example =
    process_config_iff decimal (codes "scord_addr=node:1" ∷ codes "cargo_port=80" ∷ []) servers
      with_port

-- A host list that is the list of its hosts.
abbrev shifted : List Bytes → Option Bytes × List Bytes
shifted [] = (none, [])
shifted (host ∷ rest) = (some host, rest)

abbrev pub queue : HostList (List Bytes)
queue = record { count = λ h. pos (length h); shift = shifted }

abbrev pub two_hosts : List Bytes
two_hosts = codes "n0" ∷ codes "n1" ∷ []

nodelist_create_lem_example :
    ((nodelist_create queue two_hosts).0 ≡ list_of two_hosts)
    × ((nodelist_create queue two_hosts).1 ≡ [])
    × (node_at (nodelist_create queue two_hosts).0 1 ≡ Option.map node_on (deref two_hosts 1))
nodelist_create_lem_example =
    nodelist_create_lem queue (λ h. h)
      (record { counted = λ h. refl; shifted = λ h host rest e. rw e (refl, refl) }) two_hosts 1
