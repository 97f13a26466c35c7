-- ===== src/Locks.antt =====
-- The locks of src/common/abt_cxx/shared_mutex.hpp. A mutex is a number, and the readers-writer lock of
-- Argobots behind it a parameter: whether a call of it succeeds, given the calls that did before, the
-- last one first. A state is where the calls stand and what the guards hold.
pub mod Unique
pub mod Shared
pub mod Scopes
use io_scheduler.Prelude.{ℕ, Bool, true, false, Option, none, some, List, ◌∷◌, if◌then◌else◌}

-- `ABT_rwlock_wrlock`, `ABT_rwlock_rdlock` and `ABT_rwlock_unlock`
pub data Call : Type 0 where
  wrlock rdlock unlock_of : ℕ → Call

abbrev pub Log : Type 0
Log = List Call

-- The end of an operation: it returns, throws one of three exceptions, or uses a null pointer.
pub data Outcome : Type 0 where
  returns not_permitted would_deadlock failed_call faults : Outcome

-- `unique_lock` and `shared_lock`
pub record Guard : Type 0 where
  pub m_device : Option ℕ
  pub m_owns : Bool

abbrev pub empty : Guard
empty = record { m_device = none; m_owns = false }

-- What an operation leaves of its object, with the end of the operation.
pub record After : Type 0 where
  pub object : Guard
  pub log : Log
  pub outcome : Outcome

-- A method of the mutex between two states of the guard that calls it.
abbrev pub attempt : (Log → Call → Bool) → Call → Guard → Guard → Log → After
attempt abt c before after log =
    if abt log c
    then record { object = after; log = c ∷ log; outcome = returns }
    else record { object = before; log = log; outcome = failed_call }

-- `swap`
abbrev pub swap : Guard → Guard → Guard × Guard
swap x y = (y, x)

-- `release`: the mutex goes to the caller, locked or not.
abbrev pub release : Guard → Option ℕ × Guard
release g = (g.m_device, empty)

abbrev pub is_return : Outcome → Bool
is_return returns = true
is_return _ = false
