-- ===== src/Locks/Scopes.antt =====
-- Programs over two guards of one kind, and what they leave of the mutexes.
pub mod Balance
use io_scheduler.Prelude.{
  ℕ, zero, suc, ◌+◌, ◌≡◌, Bool, true, false, Option, none, some, List, [], ◌∷◌, if◌then◌else◌, ◌==◌,
  ◌&&◌, nat_key, arith, refl, Bool-cases, inl, inr,
}
use io_scheduler.Locks.{
  Call, wrlock, rdlock, unlock_of, Log, Outcome, returns, not_permitted, would_deadlock,
  failed_call, faults, Guard, empty, After, swap, release, attempt, is_return,
}
use io_scheduler.Locks.Unique
use io_scheduler.Locks.Shared

pub data Kind : Type 0 where
  unique shared : Kind

-- What a program may do with its first guard; `others` turns to the other one.
pub data Operation : Type 0 where
  constructs : ℕ → Operation
  destroys locks unlocks releases move_constructs move_assigns swaps others : Operation

-- The guards alive, the locked mutexes that `release` gave to the program, and the calls so far.
pub record Scope : Type 0 where
  pub x : Option Guard
  pub y : Option Guard
  pub handed : List ℕ
  pub log : Log

-- A program runs, was ended by an exception in a `noexcept` function, or used a null pointer.
pub data Run : Type 0 where
  runs : Scope → Run
  ended broken : Run

abbrev construct : Kind → (Log → Call → Bool) → ℕ → Log → After
construct unique = Unique.construct
construct shared = Shared.construct

abbrev destroy : Kind → (Log → Call → Bool) → Guard → Log → After
destroy unique = Unique.destroy
destroy shared = Shared.destroy

abbrev lock : Kind → (Log → Call → Bool) → Guard → Log → After
lock unique = Unique.lock
lock shared = Shared.lock

abbrev unlock : Kind → (Log → Call → Bool) → Guard → Log → After
unlock unique = Unique.unlock
unlock shared = Shared.unlock

abbrev move_construct : Kind → Guard → Guard × Guard
move_construct unique = Unique.move_construct
move_construct shared = Shared.move_construct

abbrev move_assign : Kind → (Log → Call → Bool) → Guard → Guard → Log → After
move_assign unique = Unique.move_assign
move_assign shared = Shared.move_assign

-- After a method that may throw: the program catches the exception.
abbrev caught : Outcome → Scope → Run
caught faults s = broken
caught _ s = runs s

-- After a `noexcept` function.
abbrev uncaught : Outcome → Scope → Run
uncaught returns s = runs s
uncaught faults s = broken
uncaught _ s = ended

abbrev if_locked : Bool → Option ℕ → List ℕ → List ℕ
if_locked true (some m) handed = m ∷ handed
if_locked _ _ handed = handed

module _ (abt : Log → Call → Bool) (kind : Kind) where
  -- An operation that does not apply to the guards alive does nothing.
  abbrev act : Operation → Option Guard → Option Guard → List ℕ → Log → Run
  act (constructs m) none y handed log =
      let a = construct kind abt m log in
      let x = if is_return a.outcome then some a.object else none in
      caught a.outcome (record { x = x; y = y; handed = handed; log = a.log })
  act destroys (some g) y handed log =
      let a = destroy kind abt g log in
      uncaught a.outcome (record { x = none; y = y; handed = handed; log = a.log })
  act locks (some g) y handed log =
      let a = lock kind abt g log in
      caught a.outcome (record { x = some a.object; y = y; handed = handed; log = a.log })
  act unlocks (some g) y handed log =
      let a = unlock kind abt g log in
      caught a.outcome (record { x = some a.object; y = y; handed = handed; log = a.log })
  act releases (some g) y handed log =
      let (m, left) = release g in
      runs (record { x = some left; y = y; handed = if_locked g.m_owns m handed; log = log })
  act move_constructs none (some u) handed log =
      let (fresh, left) = move_construct kind u in
      runs (record { x = some fresh; y = some left; handed = handed; log = log })
  act move_assigns (some g) (some u) handed log =
      let a = move_assign kind abt g u log in
      uncaught a.outcome
        (record { x = some a.object; y = some empty; handed = handed; log = a.log })
  act swaps (some g) (some u) handed log =
      let (g, u) = swap g u in runs (record { x = some g; y = some u; handed = handed; log = log })
  act others x y handed log = runs (record { x = y; y = x; handed = handed; log = log })
  act _ x y handed log = runs (record { x = x; y = y; handed = handed; log = log })

  unfoldable pub step : Operation → Run → Run
  unfolding Unique.construct Unique.destroy Unique.lock Unique.unlock Unique.move_assign
      Shared.construct Shared.destroy Shared.lock Shared.unlock Shared.move_assign
  step op (runs s) = act op s.x s.y s.handed s.log
  step op ended = ended
  step op broken = broken

  unfoldable pub run : List Operation → Run → Run
  unfolding step
  run [] r = r
  run (op ∷ ops) r = run ops (step op r)
