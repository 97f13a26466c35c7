-- ===== src/Process.antt =====
-- src/common/net/server.cpp with src/common/utils/signal_listener.hpp: how the process of the daemon, or of a
-- controller, starts, waits for a signal and stops. What the system answers is a record of answers.
-- Log lines are left out, and that the engine for remote calls is set up.
pub mod Pidfile
pub mod Daemon
pub mod Started
use io_scheduler.Prelude.{
  ℕ, zero, suc, ◌+◌, ◌-◌, Bool, true, false, Option, none, some, List, [], ◌∷◌, ◌++◌, length,
  has_value, not, if◌then◌else◌, ◌==◌, ◌&&◌, nat_key,
}
use io_scheduler.Prelude.Bytes.{take, drop}
use io_scheduler.Types.{Bytes}

-- A file, and the process that holds its lock.
pub record LockFile : Type 0 where
  pub content : Bytes
  pub holder : Option ℕ  -- pid_t

-- `fork()`
pub data Forked : Type 0 where
  failed child : Forked
  parent : ℕ → Forked

-- What the system answers: whether a call succeeds, and how many bytes `write` takes.
pub record Answers : Type 0 where
  pub pid : ℕ  -- pid_t
  pub pid_text : Bytes  -- std::to_string(getpid())
  pub ppid : ℕ  -- pid_t
  pub fork : Forked
  pub setsid : Bool
  pub open_null : Bool
  pub dup_stdin : Bool
  pub dup_stdout : Bool
  pub dup_stderr : Bool
  pub chdir : Bool
  pub open_pidfile : Bool
  pub written : ℕ  -- ssize_t
  pub remove : Bool

-- `ba::execution_context::fork_event`
pub data ForkEvent : Type 0 where
  fork_prepare fork_parent fork_child : ForkEvent

pub data Signal : Type 0 where
  sigint sigterm sighup : Signal
  another : ℕ → Signal

-- The process: what the calls of the system have changed in it, and the members of `server` that change.
pub record Process : Type 0 where
  pub logger : Bool
  pub notified : List ForkEvent
  pub leader : Bool  -- of a session of its own
  pub discarded : List ℕ  -- file descriptors on /dev/null
  pub any_mode : Bool  -- umask(0)
  pub at_root : Bool
  pub ignores_tty : Bool
  pub listening : Bool
  pub shutting_down : Bool
  pub finalized : Bool
  pub pidfile : Option LockFile  -- the file at `m_pidfile`

-- The members that do not change. The constructor gives a daemon a path of its own.
pub record Settings : Type 0 where
  pub daemonize : Bool
  pub has_pidfile : Bool

abbrev pub server : Bool → Bool → Settings
server daemonize given = record {
  daemonize = daemonize;
  has_pidfile = if daemonize then true else given;
}

-- `O_CREAT`
abbrev pub opened : Option LockFile → LockFile
opened none = record { content = []; holder = none }
opened (some file) = file

-- `F_TLOCK`
abbrev pub lockable : ℕ → Option ℕ → Bool
lockable pid none = true
lockable pid (some other) = other == pid

-- Bytes are written from the start of the file, which is not made shorter.
abbrev pub overwrite : Bytes → Bytes → Bytes
overwrite text old = text ++ drop (length text) old

-- The file when `write_pidfile` returns, or when it throws.
pub data Recorded : Type 0 where
  recorded : LockFile → Recorded
  throws : Option LockFile → Recorded

-- `daemonize` returns 0, returns the child's number, or ends the process.
pub data Daemonized : Type 0 where
  goes_on : Process → Daemonized
  leaves : ℕ → Process → Daemonized
  exits : Process → Daemonized

-- How `run` ends: it returns EXIT_SUCCESS or EXIT_FAILURE, `exit` is called, or it waits on.
pub data Ending : Type 0 where
  succeeds fails exited waits : Process → Ending

module _ (a : Answers) where
  -- `close` lets go of the lock; after an exception the file stays open.
  abbrev pub record_pid : LockFile → Recorded
  record_pid file =
      let content = overwrite (take a.written a.pid_text) file.content in
      if a.written == length a.pid_text
      then recorded (record { content = content; holder = none })
      else throws (some (record { content = content; holder = some a.pid }))

  abbrev pub lock_and_record : LockFile → Recorded
  lock_and_record file = if lockable a.pid file.holder then record_pid file else throws (some file)

  unfoldable pub write_pidfile : Option LockFile → Recorded
  write_pidfile file = if a.open_pidfile then lock_and_record (opened file) else throws file

  abbrev pub shutdown : Process → Process
  shutdown p = record p { shutting_down = true; finalized = true }

  abbrev pub notify_fork : ForkEvent → Process → Process
  notify_fork e p = record p { notified = p.notified ++ (e ∷ []) }

  abbrev checked : Bool → Process → (Process → Daemonized) → Daemonized
  checked success p next = if success then next p else exits p

  abbrev discard : ℕ → Process → Process
  discard fd p = record p { discarded = p.discarded ++ (fd ∷ []) }

  -- The child, from `setsid` on.
  unfoldable pub become_daemon : Process → Daemonized
  become_daemon p = checked a.setsid p (λ p.
      checked a.open_null (record p { leader = true })
        (λ p. checked a.dup_stdin p (λ p. checked a.dup_stdout (discard 0 p) (λ p.
          checked a.dup_stderr (discard 1 p) (λ p.
            checked a.chdir (record (discard 2 p) { any_mode = true })
              (λ p. goes_on (record p { at_root = true; ignores_tty = true })))))))

  abbrev forked : Forked → Process → Daemonized
  forked failed p = exits p
  forked (parent pid) p = leaves pid (notify_fork fork_parent p)
  forked child p = become_daemon (notify_fork fork_child p)

  -- The default logger is destroyed before the call of `fork` and made anew after it.
  unfoldable pub daemonize : Process → Daemonized
  unfolding become_daemon
  daemonize p =
      if a.ppid == 1
      then goes_on p
      else forked a.fork (record (notify_fork fork_prepare p) { logger = true })

  abbrev pub signal_handler : Signal → Process → Process
  signal_handler sigint p = shutdown p
  signal_handler sigterm p = shutdown p
  signal_handler sighup p = p
  signal_handler (another n) p = p

  abbrev pub teardown : Settings → Process → Process
  teardown c p =
      let p1 = record p { listening = false } in
      if not c.daemonize then p1 else if a.remove then record p1 { pidfile = none } else p1

  -- `wait_for_finalize`, while signals arrive; then the rest of `run`.
  unfoldable pub serve : Settings → List Signal → Process → Ending
  serve c [] p = if p.finalized then succeeds (teardown c p) else waits p
  serve c (s ∷ rest) p =
      let later = serve c rest (signal_handler s p) in
      if p.finalized then succeeds (teardown c p) else later

  abbrev pub start : Settings → List Signal → Process → Ending
  start c signals p = serve c signals (record p { listening = true })

  abbrev pub with_pidfile : Settings → List Signal → Recorded → Process → Ending
  with_pidfile c signals (recorded file) p = start c signals (record p { pidfile = some file })
  with_pidfile c signals (throws file) p = fails (record p { pidfile = file })

  abbrev pub run_here : Settings → List Signal → Process → Ending
  run_here c signals p =
      if c.has_pidfile
      then with_pidfile c signals (write_pidfile p.pidfile) p
      else start c signals p

  abbrev pub run_after : Settings → List Signal → Daemonized → Ending
  run_after c signals (goes_on p) = run_here c signals p
  run_after c signals (leaves pid p) =
      if pid == 0 then run_here c signals p else succeeds (shutdown p)
  run_after c signals (exits p) = exited p

  unfoldable pub run : Settings → List Signal → Process → Ending
  unfolding daemonize write_pidfile serve
  run c signals p =
      let p1 = record p { logger = true } in
      if c.daemonize then run_after c signals (daemonize p1) else run_here c signals p1
