-- ===== src/Controller/Config/Soundness.antt =====
-- What a configuration says once it is loaded, by one lemma for each function of the file.
use io_scheduler.Prelude.{
  ◌≡◌, ◌⊎◌, inl, inr, refl, Bool, true, false, Option, none, some, [], arith, ◌==◌, Option-cases,
  if◌then◌else◌,
}
use io_scheduler.Prelude.Map.{distinct, emplace, emplace-distinct}
use io_scheduler.Prelude.Bytes.{codes}
use io_scheduler.Prelude.Text.{Every, text_key}
use io_scheduler.Types.{Bytes, AdhocType}
use io_scheduler.Controller.Command.{Command}
use io_scheduler.Controller.Config.{
  Loaded, loaded, throws, ◌>>=◌, Yaml, AdhocConfig, ConfigMap, Draft, blank, program, is_absolute,
  is_empty, validate_command, to_adhoc_storage_type, type_key, command_entry, command_given,
  parse_command, config_entry, finish_config, parse_adhoc_config, storage_entry,
  parse_adhoc_storage, config_section, parse_config, file_section, config_file, empty_directory,
  with_startup, with_shutdown, with_expand, with_shrink,
}
use io_scheduler.Controller.Config.Loops.{
  Ensures, Ensures-loaded, Ensures-bind, Ensures-if, each_inv, emplace-Every,
}

module _ (yaml : Yaml) (exists : Bytes → Bool) where
  open yaml use {Node, children, key, val, val_is_null}

  -- The program of the command line has an absolute path and exists.
  abbrev pub IsRunnable : Command → Type 0
  IsRunnable c = (is_absolute (program c.cmdline) ≡ true) × (exists (program c.cmdline) ≡ true)

  abbrev IsDraft : Command → Type 0
  IsDraft c = (is_empty c.cmdline ≡ true) ⊎ IsRunnable c

  command_entry-IsDraft :
      (c : Command) (child : Node) → IsDraft c → Ensures IsDraft (command_entry yaml exists c child)
  unfolding command_entry validate_command
  command_entry-IsDraft c child h c' e = elim (Option-cases (key child)) [
    | inl no_key ↦ ground (arith, no_key)
    | inr (k, has_key) ↦ ground (arith, has_key)
  ]

  command_given-IsRunnable :
      (c : Command) → IsDraft c → Ensures IsRunnable (command_given yaml exists c)
  unfolding command_given
  command_given-IsRunnable c h c' e = ground arith

  parse_command-IsRunnable : (node : Node) → Ensures IsRunnable (parse_command yaml exists node)
  unfolding parse_command
  parse_command-IsRunnable node =
      Ensures-bind IsDraft IsRunnable _ (command_given yaml exists)
        (each_inv IsDraft (command_entry yaml exists) command_entry-IsDraft (children node)
          (record { cmdline = []; env = none }) (inl refl))
        command_given-IsRunnable

  abbrev Fits : Option Command → Type 0
  Fits none = Unit
  Fits (some c) = IsRunnable c

  abbrev HasRunnable : Draft → Type 0
  HasRunnable d =
      Fits d.startup_command
      × Fits d.shutdown_command
      × Fits d.expand_command
      × Fits d.shrink_command

  -- A command that was parsed goes into the draft.
  filled :
      (b : Bool) (child : Node) (put : Command → Draft) (others : Loaded Draft)
      → ((c : Command) → IsRunnable c → HasRunnable (put c))
      → Ensures HasRunnable others
      → Ensures HasRunnable
          (if b then (parse_command yaml exists child >>= λ c. loaded (put c)) else others)
  filled b child put others k h =
      Ensures-if HasRunnable b _ others
        (Ensures-bind IsRunnable HasRunnable (parse_command yaml exists child) (λ c. loaded (put c))
          (parse_command-IsRunnable child) (λ c r. Ensures-loaded HasRunnable (put c) (k c r)))
        h

  directory_kept :
      (d : Draft) (child : Node)
      → HasRunnable d
      → Ensures HasRunnable (
          if val_is_null child
          then throws empty_directory
          else loaded (record d { working_directory = val child }))
  directory_kept d child h =
      Ensures-if HasRunnable (val_is_null child) (throws empty_directory) _ (λ d' e. absurd (cc e))
        (Ensures-loaded HasRunnable _ h)

  config_entry-HasRunnable :
      (d : Draft) (child : Node)
      → HasRunnable d
      → Ensures HasRunnable (config_entry yaml exists d child)
  unfolding config_entry
  config_entry-HasRunnable d child h = elim (Option-cases (key child)) [
    | inl no_key ↦ rw (no_key, config_entry) (Ensures-loaded HasRunnable _ h)
    | inr (k, has_key) ↦
        rw (has_key, config_entry)
          (Ensures-if HasRunnable (k == codes "working_directory") _ _ (directory_kept d child h) (
            filled (k == codes "startup") child (with_startup d) _ (λ c r. (r, h.1, h.2, h.3))
              (filled (k == codes "shutdown") child (with_shutdown d) _ (λ c r. (h.0, r, h.2, h.3))
                (filled (k == codes "expand") child (with_expand d) _ (λ c r. (h.0, h.1, r, h.3))
                  (filled (k == codes "shrink") child (with_shrink d) _ (λ c r. (h.0, h.1, h.2, r))
                    (Ensures-loaded HasRunnable d h))))))
  ]

  -- There is a working directory, and the four commands are runnable.
  abbrev pub IsUsable : AdhocConfig → Type 0
  IsUsable c =
      (is_empty c.working_directory ≡ false)
      × IsRunnable c.startup_command
      × IsRunnable c.shutdown_command
      × IsRunnable c.expand_command
      × IsRunnable c.shrink_command

  finish_config-IsUsable : (d : Draft) → HasRunnable d → Ensures IsUsable (finish_config d)
  unfolding finish_config
  finish_config-IsUsable d h c e = ground arith

  parse_adhoc_config-IsUsable :
      (node : Node) → Ensures IsUsable (parse_adhoc_config yaml exists node)
  unfolding parse_adhoc_config
  parse_adhoc_config-IsUsable node =
      Ensures-bind HasRunnable IsUsable _ finish_config
        (each_inv HasRunnable (config_entry yaml exists) config_entry-HasRunnable (children node)
          blank (tt, tt, tt, tt))
        finish_config-IsUsable

  -- Each type has one configuration, and each configuration is usable.
  abbrev pub IsSound : ConfigMap → Type 0
  IsSound configs = (distinct configs ≡ true) × Every (λ entry. IsUsable entry.1) configs

  emplace-IsSound :
      (type : AdhocType) (config : AdhocConfig) (configs : ConfigMap)
      → IsUsable config
      → IsSound configs
      → IsSound (emplace type config configs).0
  emplace-IsSound type config configs usable (d, h) = (
    emplace-distinct type config configs d,
    emplace-Every (λ entry. IsUsable entry.1) type config configs usable h,
  )

  storage_entry-IsSound :
      (configs : ConfigMap) (child : Node)
      → IsSound configs
      → Ensures IsSound (storage_entry yaml exists configs child)
  unfolding storage_entry
  storage_entry-IsSound configs child h = elim (Option-cases (key child)) [
    | inl no_key ↦ rw (no_key, storage_entry) (Ensures-loaded IsSound configs h)
    | inr (k, has_key) ↦
        rw (has_key, storage_entry)
          (Ensures-bind (λ type. Unit {0}) IsSound (to_adhoc_storage_type k) _ (λ type e. tt)
            (λ type _.
              Ensures-bind IsUsable IsSound (parse_adhoc_config yaml exists child) _
                (parse_adhoc_config-IsUsable child)
                (λ config usable.
                  Ensures-loaded IsSound _ (emplace-IsSound type config configs usable h))))
  ]

  -- The loops over a section, over the sections and over the file.
  parse_adhoc_storage-IsSound :
      (node : Node) → Ensures IsSound (parse_adhoc_storage yaml exists node)
  unfolding parse_adhoc_storage distinct
  parse_adhoc_storage-IsSound node =
      each_inv IsSound (storage_entry yaml exists) storage_entry-IsSound (children node) []
        (refl, tt)

  section-IsSound :
      (name : Bytes) (configs : ConfigMap) (child : Node) (section : Loaded ConfigMap) (k : Bytes)
      → IsSound configs
      → Ensures IsSound section
      → Ensures IsSound (if k == name then section else loaded configs)
  section-IsSound name configs child section k h inner =
      Ensures-if IsSound (k == name) section (loaded configs) inner
        (Ensures-loaded IsSound configs h)

  config_section-IsSound :
      (configs : ConfigMap) (child : Node)
      → IsSound configs
      → Ensures IsSound (config_section yaml exists configs child)
  unfolding config_section
  config_section-IsSound configs child h = elim (Option-cases (key child)) [
    | inl no_key ↦ rw (no_key, config_section) (Ensures-loaded IsSound configs h)
    | inr (k, has_key) ↦
        rw (has_key, config_section)
          (section-IsSound (codes "adhoc_storage") configs child _ k h
            (parse_adhoc_storage-IsSound child))
  ]

  parse_config-IsSound : (node : Node) → Ensures IsSound (parse_config yaml exists node)
  unfolding parse_config distinct
  parse_config-IsSound node =
      each_inv IsSound (config_section yaml exists) config_section-IsSound (children node) []
        (refl, tt)

  file_section-IsSound :
      (configs : ConfigMap) (child : Node)
      → IsSound configs
      → Ensures IsSound (file_section yaml exists configs child)
  unfolding file_section
  file_section-IsSound configs child h = elim (Option-cases (key child)) [
    | inl no_key ↦ rw (no_key, file_section) (Ensures-loaded IsSound configs h)
    | inr (k, has_key) ↦
        rw (has_key, file_section)
          (section-IsSound (codes "config") configs child _ k h (parse_config-IsSound child))
  ]

  -- A configuration that is loaded has no two entries for a type, and each entry has a working
  -- directory and four commands whose programs have absolute paths and existed when they were read.
  pub config_file-IsSound :
      (root : Option Node) (configs : ConfigMap)
      → config_file yaml exists root ≡ loaded configs
      → (distinct configs ≡ true) × Every (λ entry. IsUsable entry.1) configs
  unfolding config_file distinct
  config_file-IsSound none configs e = absurd (cc e)
  config_file-IsSound (some root) configs e =
      each_inv IsSound (file_section yaml exists) file_section-IsSound (children root) [] (refl, tt)
        configs e
