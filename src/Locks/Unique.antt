-- ===== src/Locks/Unique.antt =====
-- `unique_lock` of src/common/abt_cxx/shared_mutex.hpp
use io_scheduler.Prelude.{ℕ, Bool, true, false, Option, none, some, if◌then◌else◌}
use io_scheduler.Locks.{
  Call, wrlock, unlock_of, Log, returns, not_permitted, would_deadlock, Guard, empty, After,
  attempt, swap, is_return,
}

-- The move constructor: the new object, and what is left of the old one.
abbrev pub move_construct : Guard → Guard × Guard
move_construct u = (u, empty)

module _ (abt : Log → Call → Bool) where
  abbrev lock_device : Option ℕ → Bool → Log → After
  lock_device none owns log = record {
    object = record { m_device = none; m_owns = owns };
    log = log;
    outcome = not_permitted;
  }
  lock_device (some m) true log = record {
    object = record { m_device = some m; m_owns = true };
    log = log;
    outcome = would_deadlock;
  }
  lock_device (some m) false log =
      attempt abt (wrlock m) (record { m_device = some m; m_owns = false })
        (record { m_device = some m; m_owns = true }) log

  unfoldable pub lock : Guard → Log → After
  lock g log = lock_device g.m_device g.m_owns log

  abbrev unlock_device : Option ℕ → Bool → Log → After
  unlock_device device false log = record {
    object = record { m_device = device; m_owns = false };
    log = log;
    outcome = not_permitted;
  }
  unlock_device none true log = record {
    object = record { m_device = none; m_owns = true };
    log = log;
    outcome = returns;
  }
  unlock_device (some m) true log =
      attempt abt (unlock_of m) (record { m_device = some m; m_owns = true })
        (record { m_device = some m; m_owns = false }) log

  unfoldable pub unlock : Guard → Log → After
  unlock g log = unlock_device g.m_device g.m_owns log

  -- The constructor from a mutex; an object whose constructor throws is none.
  unfoldable pub construct : ℕ → Log → After
  unfolding lock
  construct m log = lock (record { m_device = some m; m_owns = false }) log

  unfoldable pub destroy : Guard → Log → After
  unfolding unlock
  destroy g log =
      if g.m_owns then unlock g log else record { object = g; log = log; outcome = returns }

  -- The move assignment from another object: after an unlock, the new object is swapped in and the
  -- temporary one destroyed.
  unfoldable pub move_assign : Guard → Guard → Log → After
  unfolding unlock destroy
  move_assign this u log =
      let unlocked =
        if this.m_owns
        then unlock this log
        else record { object = this; log = log; outcome = returns } in
      let (fresh, left) = move_construct u in
      let (temporary, moved) = swap fresh unlocked.object in
      let last = destroy temporary unlocked.log in
      if is_return unlocked.outcome
      then record { object = moved; log = last.log; outcome = last.outcome }
      else unlocked
