-- ===== src/Examples/Locks.antt =====
-- A program with two guards of a mutex.
use io_scheduler.Prelude.{true, arith, none, List, [], ◌∷◌, nat_key}
use io_scheduler.Locks.Scopes.{
  shared, Operation, constructs, others, move_constructs, unlocks, Scope, runs, run,
}
use io_scheduler.Locks.Scopes.Balance.{Keeps, run-Keeps}

-- The first guard locks, the second takes its lock over and is unlocked, which is an error on the first.
abbrev program : List Operation
program = constructs 5 ∷ others ∷ move_constructs ∷ others ∷ unlocks ∷ others ∷ unlocks ∷ []

abbrev before : Scope
before = record { x = none; y = none; handed = []; log = [] }

run-Keeps_example : Keeps (λ log c. true) 0 5 (run (λ log c. true) shared program (runs before))
run-Keeps_example = run-Keeps (λ log c. true) 0 5 shared program (runs before) (omega arith)
