-- ===== src/Plugin/Settings/RoundTrip.antt =====
-- Which arguments of the plugin are taken, and what they set.
use io_scheduler.Prelude.{
  ℕ, suc, ◌+◌, ◌≡◌, ◌↔◌, refl, ap, sym, ◌∙◌, true, false, Option, none, some, List, [], ◌∷◌, ◌++◌,
  map, length, deref, has_value, arith, Bool-cases, inl, inr, nat_beq_iff,
}
use io_scheduler.Prelude.Bytes.{codes, starts_with}
use io_scheduler.Prelude.Text.{Every}
use io_scheduler.Prelude.Int.{ℤ, to_int}
use io_scheduler.Types.{Bytes}
use io_scheduler.Plugin.{Strtol}
use io_scheduler.Plugin.Settings.{
  Text, Port, Config, scord_addr, scord_proto, scordctl_prog, scordctl_tmpdir, cargo_prog,
  scordctl_port, cargo_port, Place, text, int, settings, put_text, put_int, Configured, configured,
  invalid, overrun, value_of, assign, find_setting, then_all, process_config,
}

abbrev pub name_of : Place → Bytes
name_of (text scord_addr) = codes "scord_addr"
name_of (text scord_proto) = codes "scord_proto"
name_of (text scordctl_prog) = codes "scordctl_prog"
name_of (text scordctl_tmpdir) = codes "scordctl_tmpdir"
name_of (text cargo_prog) = codes "cargo_prog"
name_of (int scordctl_port) = codes "scordctl_port"
name_of (int cargo_port) = codes "cargo_port"

-- A setting: where it goes, the byte after its name and the value after that.
pub record Setting : Type 0 where
  pub place : Place
  pub separator : ℕ
  pub value : Bytes

abbrev pub spelled : Setting → Bytes
spelled s = name_of s.place ++ s.separator ∷ s.value

starts_with_inv :
    (name arg : Bytes) (value : Bytes)
    → starts_with name arg ≡ true
    → value_of arg (suc (length name)) ≡ some value
    → (separator : ℕ) × (arg ≡ name ++ separator ∷ value)
unfolding starts_with
starts_with_inv [] [] value h v = absurd (cc v)
starts_with_inv [] (c ∷ arg) value h v = (c, ground (arith, v))
starts_with_inv (c ∷ name) [] value h v = absurd (cc h)
starts_with_inv (c ∷ name) (d ∷ arg) value h v =
    let same : c ≡ d = ground (arith, h, nat_beq_iff c d) in
    let more : starts_with name arg ≡ true = ground (arith, h) in
    let (separator, e) = starts_with_inv name arg value more v in
    (separator, ground (arith, same, e))

then_all_inv :
    (first : Configured) (rest : Config → Configured) {cfg' : Config}
    → then_all first rest ≡ configured cfg'
    → (cfg1 : Config) × (first ≡ configured cfg1) × (rest cfg1 ≡ configured cfg')
then_all_inv (configured cfg1) rest h = (cfg1, refl, h)
then_all_inv invalid rest h = absurd (cc h)
then_all_inv overrun rest h = absurd (cc h)

module _ (strtol : Strtol) where
  -- The value of a port is one that `strtol` reads to its end: a number as a whole, or nothing.
  abbrev pub IsWhole : Setting → Type 0
  IsWhole s = elim s.place [
    | text t ↦ Unit {0}
    | int i ↦ has_value (deref s.value (strtol 10 s.value).used) ≡ false
  ]

  -- The value of a setting as an `int`.
  abbrev number_in : Bytes → ℤ
  number_in value = to_int (strtol 10 value).value

  -- The one field of the configuration that a setting makes, by its name.
  abbrev made : Place → Bytes → Config → Config
  made (text scord_addr) v cfg = record {
    scord_info = record cfg.scord_info { addr = some v };
    scordctl_info = cfg.scordctl_info;
    cargo_info = cfg.cargo_info;
  }
  made (text scord_proto) v cfg = record {
    scord_info = record cfg.scord_info { proto = some v };
    scordctl_info = cfg.scordctl_info;
    cargo_info = cfg.cargo_info;
  }
  made (text scordctl_prog) v cfg = record {
    scordctl_info = record cfg.scordctl_info { prog = some v };
    scord_info = cfg.scord_info;
    cargo_info = cfg.cargo_info;
  }
  made (text scordctl_tmpdir) v cfg = record {
    scordctl_info = record cfg.scordctl_info { tmpdir = some v };
    scord_info = cfg.scord_info;
    cargo_info = cfg.cargo_info;
  }
  made (text cargo_prog) v cfg = record {
    cargo_info = record cfg.cargo_info { prog = some v };
    scord_info = cfg.scord_info;
    scordctl_info = cfg.scordctl_info;
  }
  made (int scordctl_port) v cfg = record {
    scordctl_info = record cfg.scordctl_info { port = number_in v };
    scord_info = cfg.scord_info;
    cargo_info = cfg.cargo_info;
  }
  made (int cargo_port) v cfg = record {
    cargo_info = record cfg.cargo_info { port = number_in v };
    scord_info = cfg.scord_info;
    scordctl_info = cfg.scordctl_info;
  }

  abbrev pub put : Setting → Config → Config
  put s cfg = made s.place s.value cfg

  put_text-made : (t : Text) (v : Bytes) (cfg : Config) → put_text t v cfg ≡ made (text t) v cfg
  put_text-made scord_addr v cfg = refl
  put_text-made scord_proto v cfg = refl
  put_text-made scordctl_prog v cfg = refl
  put_text-made scordctl_tmpdir v cfg = refl
  put_text-made cargo_prog v cfg = refl

  put_int-made :
      (i : Port) (v : Bytes) (cfg : Config)
      → put_int i (to_int (strtol 10 v).value) cfg ≡ made (int i) v cfg
  put_int-made scordctl_port v cfg = refl
  put_int-made cargo_port v cfg = refl

  abbrev pub put_all : List Setting → Config → Config
  put_all [] cfg = cfg
  put_all (s ∷ rest) cfg = put_all rest (put s cfg)

  find_spelled :
      (place : Place) (separator : ℕ) (value : Bytes) (cfg : Config)
      → find_setting strtol settings (name_of place ++ separator ∷ value) cfg
        ≡ assign strtol place (some value) cfg
  unfolding find_setting starts_with
  find_spelled (text scord_addr) separator value cfg = refl
  find_spelled (text scord_proto) separator value cfg = refl
  find_spelled (text scordctl_prog) separator value cfg = refl
  find_spelled (text scordctl_tmpdir) separator value cfg = refl
  find_spelled (text cargo_prog) separator value cfg = refl
  find_spelled (int scordctl_port) separator value cfg = refl
  find_spelled (int cargo_port) separator value cfg = refl

  assign_inv :
      (place : Place) (separator : ℕ) (value : Bytes) (cfg cfg' : Config)
      → assign strtol place (some value) cfg ≡ configured cfg'
      → let s : Setting = record { place = place; separator = separator; value = value } in
        IsWhole s × (put s cfg ≡ cfg')
  assign_inv (text t) separator value cfg cfg' h =
      (tt, sym (put_text-made t value cfg) ∙ ground (arith, h))
  assign_inv (int i) separator value cfg cfg' h =
      elim (Bool-cases (has_value (deref value (strtol 10 value).used))) [
        | inl e ↦ absurd (ground (arith, e, h))
        | inr e ↦ (e, sym (put_int-made i value cfg) ∙ ground (arith, e, h))
      ]

  found :
      (name : Bytes) (place : Place) (arg : Bytes) (cfg cfg' : Config)
      → name ≡ name_of place
      → starts_with name arg ≡ true
      → (v : Option Bytes) → value_of arg (length name + 1) ≡ v
      → assign strtol place v cfg ≡ configured cfg'
      → (s : Setting) × (arg ≡ spelled s) × IsWhole s × (put s cfg ≡ cfg')
  found name place arg cfg cfg' named e none at h = absurd (cc h)
  found name place arg cfg cfg' named e (some value) at h =
      let next : length name + 1 ≡ suc (length name) = omega arith in
      let (separator, spelling) = starts_with_inv name arg value e (rw next at at) in
      let (whole, same) = assign_inv place separator value cfg cfg' h in
      (
        record { place = place; separator = separator; value = value },
        spelling ∙ ap (λ n. n ++ separator ∷ value) named,
        whole,
        same,
      )

  find_inv :
      (table : List (Bytes × Place)) (arg : Bytes) (cfg cfg' : Config)
      → Every (λ p. p.0 ≡ name_of p.1) table
      → find_setting strtol table arg cfg ≡ configured cfg'
      → (s : Setting) × (arg ≡ spelled s) × IsWhole s × (put s cfg ≡ cfg')
  unfolding find_setting
  find_inv [] arg cfg cfg' names h = absurd (cc h)
  find_inv ((name, place) ∷ rest) arg cfg cfg' (named, names) h =
      elim (Bool-cases (starts_with name arg)) [
        | inr e ↦ find_inv rest arg cfg cfg' names (rw e at h)
        | inl e ↦
            found name place arg cfg cfg' named e (value_of arg (length name + 1)) refl (rw e at h)
      ]

  assign_whole :
      (s : Setting) (cfg : Config)
      → IsWhole s
      → assign strtol s.place (some s.value) cfg ≡ configured (put s cfg)
  assign_whole s cfg h =
      elim s.place
          as (λ place.
            let t : Setting = record { place = place; separator = s.separator; value = s.value } in
            IsWhole t → assign strtol place (some s.value) cfg ≡ configured (put t cfg)) [
              | text t ↦ λ h. ap configured (put_text-made t s.value cfg)
              | int i ↦ λ h. rw h (ap configured (put_int-made i s.value cfg))
            ]
        h

  process_spelled :
      (given : List Setting) (cfg : Config)
      → Every IsWhole given
      → process_config strtol (map spelled given) cfg ≡ configured (put_all given cfg)
  unfolding process_config
  process_spelled [] cfg h = refl
  process_spelled (s ∷ rest) cfg (whole, h) =
      rw (find_spelled s.place s.separator s.value cfg, assign_whole s cfg whole)
        (process_spelled rest (put s cfg) h)

  process_inv :
      (args : List Bytes) (cfg cfg' : Config)
      → process_config strtol args cfg ≡ configured cfg'
      → (given : List Setting) × (args ≡ map spelled given)
        × Every IsWhole given
        × (put_all given cfg ≡ cfg')
  unfolding process_config
  process_inv [] cfg cfg' h = ([], refl, tt, cc)
  process_inv (arg ∷ args) cfg cfg' h =
      let (cfg1, at, later) =
        then_all_inv (find_setting strtol settings arg cfg) (λ c. process_config strtol args c) h in
      let names : Every (λ p. p.0 ≡ name_of p.1) settings =
        (refl, (refl, (refl, (refl, (refl, (refl, (refl, tt))))))) in
      let (s, spelling, whole, same) = find_inv settings arg cfg cfg1 names at in
      let (given, spellings, wholes, all) = process_inv args cfg1 cfg' later in
      (s ∷ given, cc, (whole, wholes), ap (put_all given) same ∙ all)

  -- Arguments of the plugin configure it exactly if each of them is the name of a setting, any one byte and a
  -- value, which for a port is one that `strtol` reads to its end, a number as a whole or nothing. Each
  -- setting then makes its own field, in this order.
  pub process_config_iff :
      (args : List Bytes) (cfg cfg' : Config)
      → (process_config strtol args cfg ≡ configured cfg') ↔ (
          (given : List Setting) × (args ≡ map spelled given)
          × Every IsWhole given
          × (put_all given cfg ≡ cfg'))
  process_config_iff args cfg cfg' = (
    process_inv args cfg cfg',
    λ (given, same, whole, e). rw (same, process_spelled given cfg whole, e) refl,
  )
