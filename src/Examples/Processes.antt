-- ===== src/Examples/Processes.antt =====
-- The theorems on the start and the stop of a process at concrete inputs.
use io_scheduler.Prelude.{
  ◌≡◌, ◌↔◌, ◌≤◌, refl, true, false, Option, none, some, [], ◌∷◌, length, nat_key,
}
use io_scheduler.Prelude.Bytes.{codes}
use io_scheduler.Process.{
  LockFile, child, Answers, sighup, sigterm, Process, server, recorded, write_pidfile, succeeds,
  run,
}
use io_scheduler.Process.Pidfile.{write_pidfile_again}
use io_scheduler.Process.Daemon.{Ends, run-Ends}
use io_scheduler.Process.Started.{daemon_of, run_daemon}

abbrev granted : Answers
granted = record {
  pid = 7;
  pid_text = codes "7";
  ppid = 5;
  fork = child;
  setsid = true;
  open_null = true;
  dup_stdin = true;
  dup_stdout = true;
  dup_stderr = true;
  chdir = true;
  open_pidfile = true;
  written = 1;
  remove = true;
}

abbrev other : Answers
other = record granted { pid = 12; pid_text = codes "12"; written = 2 }

-- What a process with a longer number has left.
abbrev left : Option LockFile
left = some (record { content = codes "431"; holder = none })

abbrev fresh : Process
fresh = record {
  logger = false;
  notified = [];
  leader = false;
  discarded = [];
  any_mode = false;
  at_root = false;
  ignores_tty = false;
  listening = false;
  shutting_down = false;
  finalized = false;
  pidfile = left;
}

write_pidfile_again_example :
    (write_pidfile other (some (record { content = codes "731"; holder = none }))
      ≡ recorded (record { content = codes "121"; holder = none }))
    × ((codes "121" ≡ codes "12") ↔ (length (codes "731") ≤ length (codes "12")))
unfolding write_pidfile
write_pidfile_again_example =
    write_pidfile_again granted other left (record { content = codes "731"; holder = none }) refl
      refl refl

run-Ends_example :
    Ends granted
      (server true false)
      (sighup ∷ sigterm ∷ [])
      left
      (run granted (server true false) (sighup ∷ sigterm ∷ []) fresh)
run-Ends_example = run-Ends granted (server true false) (sighup ∷ sigterm ∷ []) fresh refl refl

run_daemon_example :
    run granted (server true false) (sighup ∷ sigterm ∷ []) fresh
    ≡ succeeds (record (daemon_of fresh) {
      listening = false;
      shutting_down = true;
      finalized = true;
      pidfile = none;
    })
run_daemon_example =
    run_daemon granted false (sighup ∷ sigterm ∷ []) fresh
      (record {
        has_parent = refl;
        is_child = refl;
        setsid = refl;
        open_null = refl;
        dup_stdin = refl;
        dup_stdout = refl;
        dup_stderr = refl;
        chdir = refl;
        open_pidfile = refl;
        unlocked = refl;
        written = refl;
        removed = refl;
      })
      refl
