-- ===== src/Process/Started.antt =====
-- A process that becomes a daemon without a failure.
use io_scheduler.Prelude.{
  ◌≡◌, refl, ◌∙◌, Bool, true, false, Option, none, some, List, [], ◌∷◌, ◌++◌, length, if◌then◌else◌,
  ◌==◌, nat_key,
}
use io_scheduler.Process.{
  LockFile, child, Answers, fork_prepare, fork_child, Signal, Process, server, opened, lockable,
  overwrite, recorded, write_pidfile, goes_on, become_daemon, daemonize, succeeds, waits, run,
}
use io_scheduler.Process.Pidfile.{take_whole, beq_same}
use io_scheduler.Process.Daemon.{stops, serve_lem}

-- Every call succeeds, in the child of `fork`, and no other process holds the lock of the pidfile.
pub record IsGranted (a : Answers) (file : Option LockFile) : Type 0 where
  pub has_parent : (a.ppid == 1) ≡ false
  pub is_child : a.fork ≡ child
  pub setsid : a.setsid ≡ true
  pub open_null : a.open_null ≡ true
  pub dup_stdin : a.dup_stdin ≡ true
  pub dup_stdout : a.dup_stdout ≡ true
  pub dup_stderr : a.dup_stderr ≡ true
  pub chdir : a.chdir ≡ true
  pub open_pidfile : a.open_pidfile ≡ true
  pub unlocked : lockable a.pid (opened file).holder ≡ true
  pub written : a.written ≡ length a.pid_text
  pub removed : a.remove ≡ true

-- The process once it is a daemon.
abbrev pub daemon_of : Process → Process
daemon_of p = record p {
  logger = true;
  notified = (p.notified ++ (fork_prepare ∷ [])) ++ (fork_child ∷ []);
  leader = true;
  discarded = ((p.discarded ++ (0 ∷ [])) ++ (1 ∷ [])) ++ (2 ∷ []);
  any_mode = true;
  at_root = true;
  ignores_tty = true;
}

abbrev pub pid_file : Answers → Option LockFile → LockFile
pid_file a file = record { content = overwrite a.pid_text (opened file).content; holder = none }

becomes :
    (a : Answers) (p : Process)
    → IsGranted a p.pidfile
    → daemonize a (record p { logger = true }) ≡ goes_on (daemon_of p)
unfolding daemonize become_daemon
becomes a p g =
    simp
      (
        g.has_parent, g.is_child, g.setsid, g.open_null, g.dup_stdin, g.dup_stdout, g.dup_stderr,
        g.chdir,
      )
      refl

writes :
    (a : Answers) (file : Option LockFile)
    → IsGranted a file
    → write_pidfile a file ≡ recorded (pid_file a file)
unfolding write_pidfile
writes a file g =
    rw (g.open_pidfile, g.unlocked, g.written, take_whole a.pid_text, beq_same (length a.pid_text))
      refl

-- If every call succeeds and no other process holds the lock, a process that is to be a daemon leads a session of
-- its own, at the root directory, with the three standard files discarded in order. Until SIGINT
-- or SIGTERM arrives it waits, with its number in the pidfile, over what was there; when one has, it
-- is shut down, and the pidfile is gone.
pub run_daemon :
    (a : Answers) (given : Bool) (signals : List Signal) (p : Process)
    → IsGranted a p.pidfile
    → p.finalized ≡ false
    → run a (server true given) signals p ≡ (
        if stops signals
        then succeeds (record (daemon_of p) {
          listening = false;
          shutting_down = true;
          finalized = true;
          pidfile = none;
        })
        else waits
            (record (daemon_of p) { listening = true; pidfile = some (pid_file a p.pidfile) }))
unfolding run
run_daemon a given signals p g f =
    let q : Process = record (daemon_of p) {
      listening = true;
      pidfile = some (pid_file a p.pidfile);
    } in
    rw (becomes a p g, writes a p.pidfile g)
      (serve_lem a (server true given) signals q f ∙ (simp g.removed refl))
