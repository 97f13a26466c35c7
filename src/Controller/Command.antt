-- ===== src/Controller/Command.antt =====
-- src/scord-ctl/command.cpp and command.hpp: environments, command lines with keywords, and what is
-- run. Text is scanned by positions, as in the source; `eval` takes a round for each match.
pub mod Reference
pub mod Template
use mathlib.Core.Option
use io_scheduler.Prelude.{
  ℕ, zero, suc, ◌+◌, ◌-◌, Bool, true, false, Option, none, some, List, [], ◌∷◌, ◌++◌, map, length,
  if◌then◌else◌,
}
use io_scheduler.Prelude.Bytes.{codes, take, drop, starts_with}
use io_scheduler.Prelude.Text.{pieces, join}
use io_scheduler.Types.{Bytes}
use io_scheduler.Controller.Environment
use io_scheduler.Controller.Environment.{Environment}

pub record Command : Type 0 where
  pub cmdline : Bytes
  pub env : Option Environment

-- The keywords with what they stand for, in the order of `std::map`.
abbrev pub Replacements : Type 0
Replacements = List (Bytes × Bytes)

-- The text for `{ADHOC_NODES}`.
abbrev pub quoted : List Bytes → Bytes
quoted nodes = b'"' ∷ (join b',' nodes ++ b'"' ∷ [])

unfoldable pub replacements : Bytes → Bytes → List Bytes → Replacements
unfolding join
replacements adhoc_id directory nodes =
    (codes "{ADHOC_DIRECTORY}", directory)
    ∷ (codes "{ADHOC_ID}", adhoc_id)
    ∷ (codes "{ADHOC_NODES}", quoted nodes)
    ∷ []

unfoldable pub malleability_replacements : Bytes → List Bytes → Replacements
unfolding join
malleability_replacements adhoc_id nodes =
    (codes "{ADHOC_ID}", adhoc_id) ∷ (codes "{ADHOC_NODES}", quoted nodes) ∷ []

-- The alternative of the regular expression that matches where the text begins.
unfoldable pub key_at : Replacements → Bytes → Option (Bytes × Bytes)
unfolding starts_with
key_at [] s = none
key_at ((key, value) ∷ others) s = if starts_with key s then some (key, value) else key_at others s

abbrev pub shift : ℕ × Bytes × Bytes → ℕ × Bytes × Bytes
shift (position, key, value) = (suc position, key, value)

-- The leftmost match of a text: its position, the keyword, and the text that replaces it.
unfoldable pub first_match : Replacements → Bytes → Option (ℕ × Bytes × Bytes)
unfolding key_at
first_match table [] = none
first_match table (c ∷ s) = elim (key_at table (c ∷ s)) [
  | some (key, value) ↦ some (0, key, value)
  | none ↦ Option.map shift (first_match table s)
]

-- The loop over the matches, with the number of rounds that it may still make.
pub eval_loop : ℕ → Replacements → Bytes → ℕ → Bytes → Option Bytes
unfolding first_match
eval_loop zero table cmdline last_pos result = none
eval_loop (suc rounds) table cmdline last_pos result =
    elim (first_match table (drop last_pos cmdline)) [
      | none ↦ some (result ++ drop last_pos cmdline)
      | some (offset, key, value) ↦
          eval_loop rounds table cmdline (last_pos + offset + length key)
            (result ++ take offset (drop last_pos cmdline) ++ value)
    ]

abbrev pub with_cmdline : Command → Bytes → Command
with_cmdline c text = record c { cmdline = text }

unfoldable pub eval : Command → Bytes → Bytes → List Bytes → Option Command
unfolding eval_loop replacements
eval c adhoc_id directory nodes =
    Option.map (with_cmdline c)
      (eval_loop (length c.cmdline + 1) (replacements adhoc_id directory nodes) c.cmdline 0 [])

unfoldable pub eval_malleability : Command → Bytes → List Bytes → Option Command
unfolding eval_loop malleability_replacements
eval_malleability c adhoc_id nodes =
    Option.map (with_cmdline c)
      (eval_loop (length c.cmdline + 1) (malleability_replacements adhoc_id nodes) c.cmdline 0 [])

-- The words between spaces; an empty line has none.
abbrev words : Bytes → List Bytes
words [] = []
words (b ∷ s) = pieces b' ' (b ∷ s)

unfoldable pub as_vector : Command → List Bytes
unfolding pieces
as_vector c = words c.cmdline

-- `joinEnvironments`: the child's own variables come first.
unfoldable pub join_environments : List Bytes → List Bytes → List Bytes
join_environments inherited configured = inherited ++ configured

-- What the operating system reports of a child process.
pub data Ending : Type 0 where
  fork_failed wait_failed killed : Ending
  exited : ℕ → Ending

-- What is handed to `execvpe`: arguments and environment.
pub record Execution : Type 0 where
  pub arguments : List Bytes
  pub environment : List Bytes

unfoldable pub execution : List Bytes → Command → Execution
unfolding as_vector join_environments Environment.as_vector
execution inherited c = record {
  arguments = as_vector c;
  environment =
      join_environments inherited (elim c.env [ none ↦ [] | some env ↦ Environment.as_vector env ]);
}

-- Whether `exec` returns; on every other ending it throws.
unfoldable pub exec_returns : Ending → Bool
exec_returns (exited zero) = true
exec_returns _ = false
