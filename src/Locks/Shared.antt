-- ===== src/Locks/Shared.antt =====
-- `shared_lock` of src/common/abt_cxx/shared_mutex.hpp
use io_scheduler.Prelude.{ℕ, Bool, true, false, Option, none, some, if◌then◌else◌}
use io_scheduler.Locks.{
  Call, rdlock, unlock_of, Log, returns, not_permitted, would_deadlock, faults, Guard, empty, After,
  attempt, swap,
}

-- The move constructor swaps with an empty object.
abbrev pub move_construct : Guard → Guard × Guard
move_construct u = swap empty u

module _ (abt : Log → Call → Bool) where
  -- `lockable`, and the call of the mutex when it finds nothing wrong
  abbrev lock_device : Option ℕ → Bool → Log → After
  lock_device none owns log = record {
    object = record { m_device = none; m_owns = owns };
    log = log;
    outcome = not_permitted;
  }
  lock_device (some m) true log = record {
    object = record { m_device = some m; m_owns = true };
    log = log;
    outcome = would_deadlock;
  }
  lock_device (some m) false log =
      attempt abt (rdlock m) (record { m_device = some m; m_owns = false })
        (record { m_device = some m; m_owns = true }) log

  unfoldable pub lock : Guard → Log → After
  lock g log = lock_device g.m_device g.m_owns log

  -- `m_device->unlock_shared()`
  abbrev unlock_shared : Option ℕ → Bool → Log → After
  unlock_shared none owns log = record {
    object = record { m_device = none; m_owns = owns };
    log = log;
    outcome = faults;
  }
  unlock_shared (some m) owns log =
      attempt abt (unlock_of m) (record { m_device = some m; m_owns = owns })
        (record { m_device = some m; m_owns = false }) log

  unfoldable pub unlock : Guard → Log → After
  unlock g log =
      if g.m_owns
      then unlock_shared g.m_device g.m_owns log
      else record { object = g; log = log; outcome = would_deadlock }

  -- The constructor from a mutex; an object whose constructor throws is none.
  unfoldable pub construct : ℕ → Log → After
  construct m log = attempt abt (rdlock m) empty (record { m_device = some m; m_owns = true }) log

  unfoldable pub destroy : Guard → Log → After
  destroy g log =
      if g.m_owns
      then unlock_shared g.m_device g.m_owns log
      else record { object = g; log = log; outcome = returns }

  -- The move assignment from another object.
  unfoldable pub move_assign : Guard → Guard → Log → After
  unfolding destroy
  move_assign this u log =
      let (fresh, left) = move_construct u in
      let (temporary, moved) = swap fresh this in
      let last = destroy temporary log in
      record { object = moved; log = last.log; outcome = last.outcome }
