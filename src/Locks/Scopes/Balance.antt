-- ===== src/Locks/Scopes/Balance.antt =====
-- Every lock taken through guards is held by a guard or was handed over.
use io_scheduler.Prelude.{
  ℕ, ◌+◌, ◌≡◌, Bool, true, false, Option, none, some, List, [], ◌∷◌, if◌then◌else◌, ◌==◌, nat_key,
  arith, Bool-cases, inl, inr,
}
use io_scheduler.Locks.{Call, wrlock, rdlock, unlock_of, Log, Guard}
use io_scheduler.Locks.Unique
use io_scheduler.Locks.Shared
use io_scheduler.Locks.Scopes.{
  Kind, unique, shared, Operation, constructs, destroys, locks, unlocks, releases, move_constructs,
  move_assigns, swaps, others, Scope, Run, runs, ended, broken, act, step, run,
}

abbrev one_if : Bool → ℕ
one_if b = if b then 1 else 0

abbrev pub acquired : ℕ → Log → ℕ
acquired m [] = 0
acquired m (wrlock n ∷ log) = one_if (n == m) + acquired m log
acquired m (rdlock n ∷ log) = one_if (n == m) + acquired m log
acquired m (unlock_of n ∷ log) = acquired m log

abbrev pub released : ℕ → Log → ℕ
released m [] = 0
released m (wrlock n ∷ log) = released m log
released m (rdlock n ∷ log) = released m log
released m (unlock_of n ∷ log) = one_if (n == m) + released m log

abbrev device_held : ℕ → Option ℕ → Bool → ℕ
device_held m (some n) true = one_if (n == m)
device_held m _ _ = 0

abbrev pub held : ℕ → Option Guard → ℕ
held m none = 0
held m (some g) = device_held m g.m_device g.m_owns

abbrev pub handed_over : ℕ → List ℕ → ℕ
handed_over m [] = 0
handed_over m (n ∷ ns) = one_if (n == m) + handed_over m ns

-- A guard owns a lock only of a mutex that it has.
abbrev DeviceSound : Option ℕ → Bool → Type 0
DeviceSound none true = ⊥
DeviceSound _ _ = Unit

abbrev pub Sound : Option Guard → Type 0
Sound none = Unit
Sound (some g) = DeviceSound g.m_device g.m_owns

-- A guard that owns has a mutex, and the mutex was locked as often as it was unlocked and as
-- the guards, the program and others, `k` times, hold it.
abbrev pub IsBalanced : ℕ → ℕ → Scope → Type 0
IsBalanced k m s =
    Sound s.x
    × Sound s.y
    × (acquired m s.log
        ≡ released m s.log + (k + (held m s.x + (held m s.y + handed_over m s.handed))))

abbrev guard : Option ℕ → Bool → Guard
guard device owns = record { m_device = device; m_owns = owns }

abbrev scope : Option ℕ → Bool → Option Guard → List ℕ → Log → Scope
scope device owns y handed log = record {
  x = some (guard device owns);
  y = y;
  handed = handed;
  log = log;
}

module _ (abt : Log → Call → Bool) (k m : ℕ) where
  -- A program that runs is balanced; one that was ended had an unlock that failed.
  abbrev pub Keeps : Run → Type 0
  Keeps (runs s) = IsBalanced k m s
  Keeps ended = (log : Log) × (n : ℕ) × (abt log (unlock_of n) ≡ false)
  Keeps broken = ⊥

  locks-Keeps :
      (kind : Kind) (device : Option ℕ) (owns : Bool) (y : Option Guard) (handed : List ℕ)
      (log : Log)
      → IsBalanced k m (scope device owns y handed log)
      → Keeps (act abt kind locks (some (guard device owns)) y handed log)
  unfolding Unique.construct Unique.destroy Unique.lock Unique.unlock Unique.move_assign
      Shared.construct Shared.destroy Shared.lock Shared.unlock Shared.move_assign
  locks-Keeps unique none owns y handed log h = h
  locks-Keeps shared none owns y handed log h = h
  locks-Keeps unique (some n) true y handed log h = h
  locks-Keeps shared (some n) true y handed log h = h
  locks-Keeps unique (some n) false y handed log h = ground (arith, Bool-cases (abt log (wrlock n)))
  locks-Keeps shared (some n) false y handed log h = ground (arith, Bool-cases (abt log (rdlock n)))

  unlocks-Keeps :
      (kind : Kind) (device : Option ℕ) (owns : Bool) (y : Option Guard) (handed : List ℕ)
      (log : Log)
      → IsBalanced k m (scope device owns y handed log)
      → Keeps (act abt kind unlocks (some (guard device owns)) y handed log)
  unfolding Unique.construct Unique.destroy Unique.lock Unique.unlock Unique.move_assign
      Shared.construct Shared.destroy Shared.lock Shared.unlock Shared.move_assign
  unlocks-Keeps unique device false y handed log h = h
  unlocks-Keeps shared device false y handed log h = h
  unlocks-Keeps unique none true y handed log h = h
  unlocks-Keeps shared none true y handed log (h, q, e) = elim h [ ]
  unlocks-Keeps unique (some n) true y handed log h =
      ground (arith, Bool-cases (abt log (unlock_of n)))
  unlocks-Keeps shared (some n) true y handed log h =
      ground (arith, Bool-cases (abt log (unlock_of n)))

  destroys-Keeps :
      (kind : Kind) (device : Option ℕ) (owns : Bool) (y : Option Guard) (handed : List ℕ)
      (log : Log)
      → IsBalanced k m (scope device owns y handed log)
      → Keeps (act abt kind destroys (some (guard device owns)) y handed log)
  unfolding Unique.construct Unique.destroy Unique.lock Unique.unlock Unique.move_assign
      Shared.construct Shared.destroy Shared.lock Shared.unlock Shared.move_assign
  destroys-Keeps unique none false y handed log h = h
  destroys-Keeps shared none false y handed log h = h
  destroys-Keeps unique (some n) false y handed log h = h
  destroys-Keeps shared (some n) false y handed log h = h
  destroys-Keeps unique none true y handed log (h, q, e) = elim h [ ]
  destroys-Keeps shared none true y handed log (h, q, e) = elim h [ ]
  destroys-Keeps unique (some n) true y handed log h = elim (Bool-cases (abt log (unlock_of n))) [
    | inl e ↦ rw e (ground (arith, h))
    | inr e ↦ rw e (log, n, e)
  ]
  destroys-Keeps shared (some n) true y handed log h = elim (Bool-cases (abt log (unlock_of n))) [
    | inl e ↦ rw e (ground (arith, h))
    | inr e ↦ rw e (log, n, e)
  ]

  constructs-Keeps :
      (kind : Kind) (n : ℕ) (y : Option Guard) (handed : List ℕ) (log : Log)
      → IsBalanced k m (record { x = none; y = y; handed = handed; log = log })
      → Keeps (act abt kind (constructs n) none y handed log)
  unfolding Unique.construct Unique.destroy Unique.lock Unique.unlock Unique.move_assign
      Shared.construct Shared.destroy Shared.lock Shared.unlock Shared.move_assign
  constructs-Keeps unique n y handed log h = ground (arith, Bool-cases (abt log (wrlock n)))
  constructs-Keeps shared n y handed log h = ground (arith, Bool-cases (abt log (rdlock n)))

  releases-Keeps :
      (kind : Kind) (device : Option ℕ) (owns : Bool) (y : Option Guard) (handed : List ℕ)
      (log : Log)
      → IsBalanced k m (scope device owns y handed log)
      → Keeps (act abt kind releases (some (guard device owns)) y handed log)
  releases-Keeps kind none owns y handed log h = ground (arith, Bool-cases owns)
  releases-Keeps kind (some n) false y handed log h = h
  releases-Keeps kind (some n) true y handed log h = ground (arith, h)

  move_assigns-Keeps :
      (kind : Kind) (device : Option ℕ) (owns : Bool) (u : Guard) (handed : List ℕ) (log : Log)
      → IsBalanced k m (scope device owns (some u) handed log)
      → Keeps (act abt kind move_assigns (some (guard device owns)) (some u) handed log)
  unfolding Unique.construct Unique.destroy Unique.lock Unique.unlock Unique.move_assign
      Shared.construct Shared.destroy Shared.lock Shared.unlock Shared.move_assign
  move_assigns-Keeps unique none false u handed log h = ground arith
  move_assigns-Keeps shared none false u handed log h = ground arith
  move_assigns-Keeps unique (some n) false u handed log h = ground arith
  move_assigns-Keeps shared (some n) false u handed log h = ground arith
  move_assigns-Keeps unique none true u handed log (h, q, e) = elim h [ ]
  move_assigns-Keeps shared none true u handed log (h, q, e) = elim h [ ]
  move_assigns-Keeps unique (some n) true u handed log h =
      elim (Bool-cases (abt log (unlock_of n))) [
        | inl e ↦ rw e (ground (arith, h))
        | inr e ↦ rw e (log, n, e)
      ]
  move_assigns-Keeps shared (some n) true u handed log h =
      elim (Bool-cases (abt log (unlock_of n))) [
        | inl e ↦ rw e (ground (arith, h))
        | inr e ↦ rw e (log, n, e)
      ]

  swapped-IsBalanced :
      (x y : Option Guard) (handed : List ℕ) (log : Log)
      → IsBalanced k m (record { x = x; y = y; handed = handed; log = log })
      → IsBalanced k m (record { x = y; y = x; handed = handed; log = log })
  swapped-IsBalanced x y handed log (hx, hy, e) = (hy, hx, omega (arith, e))

  act-Keeps :
      (kind : Kind) (op : Operation) (x y : Option Guard) (handed : List ℕ) (log : Log)
      → IsBalanced k m (record { x = x; y = y; handed = handed; log = log })
      → Keeps (act abt kind op x y handed log)
  act-Keeps kind (constructs n) none y handed log h = constructs-Keeps kind n y handed log h
  act-Keeps kind (constructs n) (some g) y handed log h = h
  act-Keeps kind destroys none y handed log h = h
  act-Keeps kind destroys (some g) y handed log h =
      destroys-Keeps kind g.m_device g.m_owns y handed log h
  act-Keeps kind locks none y handed log h = h
  act-Keeps kind locks (some g) y handed log h = locks-Keeps kind g.m_device g.m_owns y handed log h
  act-Keeps kind unlocks none y handed log h = h
  act-Keeps kind unlocks (some g) y handed log h =
      unlocks-Keeps kind g.m_device g.m_owns y handed log h
  act-Keeps kind releases none y handed log h = h
  act-Keeps kind releases (some g) y handed log h =
      releases-Keeps kind g.m_device g.m_owns y handed log h
  act-Keeps unique move_constructs none (some u) handed log (hx, hu, e) = (hu, tt, omega (arith, e))
  act-Keeps shared move_constructs none (some u) handed log (hx, hu, e) = (hu, tt, omega (arith, e))
  act-Keeps kind move_constructs none none handed log h = h
  act-Keeps kind move_constructs (some g) y handed log h = h
  act-Keeps kind move_assigns none y handed log h = h
  act-Keeps kind move_assigns (some g) none handed log h = h
  act-Keeps kind move_assigns (some g) (some u) handed log h =
      move_assigns-Keeps kind g.m_device g.m_owns u handed log h
  act-Keeps kind swaps none y handed log h = h
  act-Keeps kind swaps (some g) none handed log h = h
  act-Keeps kind swaps (some g) (some u) handed log h =
      swapped-IsBalanced (some g) (some u) handed log h
  act-Keeps kind others x y handed log h = swapped-IsBalanced x y handed log h

  -- Whatever operations a program applies to its two guards of one kind, the locks of any mutex stay
  -- accounted for, if they are at the start: it was locked exactly as often as it was unlocked and as a
  -- guard owns it, the program got it locked from `release`, or others hold it. No operation uses a null
  -- pointer, and the process is ended by an exception only after a failed unlock.
  pub run-Keeps :
      (kind : Kind) (ops : List Operation) (r : Run) → Keeps r → Keeps (run abt kind ops r)
  unfolding run step
  run-Keeps kind [] r h = h
  run-Keeps kind (op ∷ ops) (runs s) h =
      run-Keeps kind ops (step abt kind op (runs s)) (act-Keeps kind op s.x s.y s.handed s.log h)
  run-Keeps kind (op ∷ ops) ended h = run-Keeps kind ops ended h
  run-Keeps kind (op ∷ ops) broken h = elim h [ ]
