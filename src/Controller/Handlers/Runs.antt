-- ===== src/Controller/Handlers/Runs.antt =====
-- What a handler of the controller runs: the command that a template becomes, how its process ends,
-- and the configurations that a handler refuses.
use io_scheduler.Prelude.{
  ◌≡◌, ◌≢◌, ◌↔◌, true, refl, zero, suc, none, some, List, [], ◌∷◌, ◌++◌, arith, ◌⊎◌, inl, inr,
  Option, if◌then◌else◌, Option-cases, nat_key,
}
use io_scheduler.Prelude.Map.{find}
use io_scheduler.Types.{
  Bytes, ErrorCode, success, snafu, adhoc_type_unsupported, subprocess_error, is_success, AdhocType,
}
use io_scheduler.Controller.Command.{
  Command, Execution, Ending, fork_failed, wait_failed, killed, exited, execution, exec_returns,
  eval, eval_malleability, with_cmdline, replacements, malleability_replacements,
}
use io_scheduler.Controller.Command.Reference.{substitute, eval-eq-substitute}
use io_scheduler.Controller.Config.{AdhocConfig, ConfigMap, type_key}
use io_scheduler.Controller.Handlers.{
  Machine, Controller, Choice, refuse, use_config, choose, exec, exec_evaluated, answers,
}

-- The command that `eval` makes of a template.
abbrev pub evaluated : Command → Bytes → Bytes → List Bytes → Command
evaluated c uuid directory hosts =
    with_cmdline c (substitute (replacements uuid directory hosts) 0 c.cmdline)

abbrev pub evaluated_malleability : Command → Bytes → List Bytes → Command
evaluated_malleability c uuid hosts =
    with_cmdline c (substitute (malleability_replacements uuid hosts) 0 c.cmdline)

pub Choice-cases :
    (c : Choice)
    → ((ec : ErrorCode) × (c ≡ refuse ec)) ⊎ ((config : AdhocConfig) × (c ≡ use_config config))
Choice-cases (refuse ec) = inl (ec, refl)
Choice-cases (use_config config) = inr (config, refl)

-- No storage of a type is configured, with the code that says so.
abbrev pub IsRefused : Option ConfigMap → AdhocType → ErrorCode → Type 0
IsRefused configs type ec =
    ((configs ≡ none) × (ec ≡ snafu))
    ⊎ ((configs ≡ some []) × (ec ≡ snafu))
    ⊎ ((entry : AdhocType × AdhocConfig) × (rest : ConfigMap) × (configs ≡ some (entry ∷ rest))
        × (find type (entry ∷ rest) ≡ none)
        × (ec ≡ adhoc_type_unsupported))

-- The configuration of a type.
abbrev pub IsConfigured : Option ConfigMap → AdhocType → AdhocConfig → Type 0
IsConfigured configs type config =
    (known : ConfigMap) × (configs ≡ some known) × (find type known ≡ some config)

pub choose-IsRefused :
    (configs : Option ConfigMap) (type : AdhocType) {ec : ErrorCode}
    → choose configs type ≡ refuse ec
    → IsRefused configs type ec
unfolding choose
choose-IsRefused none type e = inl (refl, cc e)
choose-IsRefused (some []) type e = inr (inl (refl, cc e))
choose-IsRefused (some (entry ∷ rest)) type e = elim (Option-cases (find type (entry ∷ rest))) [
  | inl absent ↦ inr (inr (entry, rest, refl, absent, ground (arith, absent, e)))
  | inr (config, there) ↦ absurd (ground (arith, there, e))
]

pub choose-IsConfigured :
    (configs : Option ConfigMap) (type : AdhocType) {config : AdhocConfig}
    → choose configs type ≡ use_config config
    → IsConfigured configs type config
unfolding choose
choose-IsConfigured none type e = absurd (cc e)
choose-IsConfigured (some []) type e = absurd (cc e)
choose-IsConfigured (some (entry ∷ rest)) type e = elim (Option-cases (find type (entry ∷ rest))) [
  | inl absent ↦ absurd (ground (arith, absent, e))
  | inr (config, there) ↦ (entry ∷ rest, refl, ground (arith, there, e))
]

-- What a process that ended makes the answer.
abbrev pub IsOutcome : Ending → ErrorCode → Type 0
IsOutcome ending ec =
    ((ending ≡ exited 0) × (ec ≡ success)) ⊎ ((ending ≢ exited 0) × (ec ≡ subprocess_error))

ending-IsOutcome : (e : Ending) → IsOutcome e (if exec_returns e then success else subprocess_error)
unfolding exec_returns
ending-IsOutcome fork_failed = inr ((λ k. cc k), refl)
ending-IsOutcome wait_failed = inr ((λ k. cc k), refl)
ending-IsOutcome killed = inr ((λ k. cc k), refl)
ending-IsOutcome (exited zero) = inl (refl, refl)
ending-IsOutcome (exited (suc n)) = inr ((λ k. cc k), refl)

module _ (m : Machine) where
  open m use {Files, exists, create_directories, run, environ}

  -- From a state with some files, exactly one process was run, and it ended with the code.
  abbrev pub IsRun : Controller m → Files → Execution → Controller m → ErrorCode → Type 0
  IsRun s files e s' ec =
      (s'.executions ≡ s.executions ++ e ∷ [])
      × (s'.files ≡ (run files e).0)
      × (s'.config ≡ s.config)
      × IsOutcome (run files e).1 ec

  -- Nothing was run, and these are the files.
  abbrev pub IsIdle : Controller m → Files → Controller m → Type 0
  IsIdle s files s' = (s'.executions ≡ s.executions) × (s'.files ≡ files) × (s'.config ≡ s.config)

  pub exec-IsRun :
      (s : Controller m) (c : Command)
      → IsRun s s.files (execution environ c) (exec m s c).0 (exec m s c).1
  unfolding exec
  exec-IsRun s c = (refl, refl, refl, ending-IsOutcome (run s.files (execution environ c)).1)

  -- The answer of `exec` is a success exactly for the exit status 0.
  pub exec-is_success :
      (s : Controller m) (c : Command)
      → (is_success (exec m s c).1 ≡ true) ↔ ((run s.files (execution environ c)).1 ≡ exited 0)
  unfolding exec
  exec-is_success s c = elim (ending-IsOutcome (run s.files (execution environ c)).1) [
    | inl (e, ok) ↦ ((λ k. e), (λ k. ground (arith, ok)))
    | inr (e, bad) ↦ ((λ k. absurd (ground (arith, bad, k))), (λ k. absurd (e k)))
  ]

  pub exec_evaluated-eval :
      (s : Controller m) (c : Command) (uuid directory : Bytes) (hosts : List Bytes)
      → exec_evaluated m s (eval c uuid directory hosts)
        ≡ answers (exec m s (evaluated c uuid directory hosts))
  unfolding exec_evaluated
  exec_evaluated-eval s c uuid directory hosts =
      rw (eval-eq-substitute c uuid directory hosts).0 refl

  pub exec_evaluated-eval_malleability :
      (s : Controller m) (c : Command) (uuid : Bytes) (hosts : List Bytes)
      → exec_evaluated m s (eval_malleability c uuid hosts)
        ≡ answers (exec m s (evaluated_malleability c uuid hosts))
  unfolding exec_evaluated
  exec_evaluated-eval_malleability s c uuid hosts = rw (eval-eq-substitute c uuid [] hosts).1 refl
