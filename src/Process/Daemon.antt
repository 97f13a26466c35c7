-- ===== src/Process/Daemon.antt =====
-- How `run` ends, and what a process that becomes a daemon has changed by then.
use mathlib.Core.Path.{subst}
use io_scheduler.Prelude.{
  ◌≡◌, refl, ap, sym, Bool, true, false, Option, some, List, [], ◌∷◌, if◌then◌else◌, ◌==◌, nat_key,
  arith, Bool-cases, inl, inr,
}
use io_scheduler.Process.{
  LockFile, Forked, failed, child, parent, Answers, Signal, sigint, sigterm, sighup, another,
  Process, Settings, Recorded, recorded, throws, write_pidfile, shutdown, Daemonized, goes_on,
  leaves, exits, become_daemon, daemonize, Ending, succeeds, fails, exited, waits, teardown, serve,
  start, with_pidfile, run_here, run_after, run, forked,
}

-- A signal that ends the wait has arrived.
abbrev pub stops : List Signal → Bool
stops [] = false
stops (sigint ∷ rest) = true
stops (sigterm ∷ rest) = true
stops (sighup ∷ rest) = stops rest
stops (another n ∷ rest) = stops rest

module _ (a : Answers) (c : Settings) where
  stopped :
      (signals : List Signal) (p : Process)
      → p.finalized ≡ true
      → serve a c signals p ≡ succeeds (teardown a c p)
  unfolding serve
  stopped [] p h = rw h refl
  stopped (s ∷ rest) p h = rw h refl

  -- The wait ends with the first SIGINT or SIGTERM.
  pub serve_lem :
      (signals : List Signal) (p : Process)
      → p.finalized ≡ false
      → serve a c signals p
        ≡ (if stops signals then succeeds (teardown a c (shutdown a p)) else waits p)
  unfolding serve
  serve_lem [] p h = rw h refl
  serve_lem (sigint ∷ rest) p h = rw h (stopped rest (shutdown a p) refl)
  serve_lem (sigterm ∷ rest) p h = rw h (stopped rest (shutdown a p) refl)
  serve_lem (sighup ∷ rest) p h = simp h (serve_lem rest p h)
  serve_lem (another n ∷ rest) p h = simp h (serve_lem rest p h)

  -- What holds when `run` has ended with a pidfile `file` at first.
  abbrev pub Ends : List Signal → Option LockFile → Ending → Type 0
  Ends signals file (succeeds p) =
      (p.finalized ≡ true) × (p.shutting_down ≡ true) × (p.listening ≡ false)
  Ends signals file (fails p) =
      (c.has_pidfile ≡ true) × (write_pidfile a file ≡ throws p.pidfile) × (p.listening ≡ false)
  Ends signals file (exited p) = (c.daemonize ≡ true) × (p.pidfile ≡ file) × (p.listening ≡ false)
  Ends signals file (waits p) =
      (stops signals ≡ false) × (p.finalized ≡ false) × (p.listening ≡ true)

  -- The process before the pidfile is written.
  abbrev IsQuiet : Option LockFile → Process → Type 0
  IsQuiet file p = (p.finalized ≡ false) × (p.listening ≡ false) × (p.pidfile ≡ file)

  torn_down :
      (signals : List Signal) (file : Option LockFile) (p : Process)
      → (p.finalized ≡ true) × (p.shutting_down ≡ true)
      → Ends signals file (succeeds (teardown a c p))
  torn_down signals file p (f, d) = elim (Bool-cases c.daemonize) [
    | inr alone ↦ simp alone (f, d, refl)
    | inl daemon ↦ elim (Bool-cases a.remove) [
      | inl removed ↦ simp (daemon, removed) (f, d, refl)
      | inr kept ↦ simp (daemon, kept) (f, d, refl)
    ]
  ]

  waited-Ends :
      (signals : List Signal) (file : Option LockFile) (over : Bool) (p : Process)
      → stops signals ≡ over
      → p.finalized ≡ false
      → p.listening ≡ true
      → Ends signals file (if over then succeeds (teardown a c (shutdown a p)) else waits p)
  waited-Ends signals file true p e f l = torn_down signals file (shutdown a p) (refl, refl)
  waited-Ends signals file false p e f l = (e, f, l)

  start-Ends :
      (signals : List Signal) (file : Option LockFile) (p : Process)
      → p.finalized ≡ false
      → Ends signals file (start a c signals p)
  start-Ends signals file p h =
      let q : Process = record p { listening = true } in
      subst (Ends signals file) (sym (serve_lem signals q h))
        (waited-Ends signals file (stops signals) q refl h refl)

  with_pidfile-Ends :
      (signals : List Signal) (file : Option LockFile) (written : Recorded) (p : Process)
      → write_pidfile a file ≡ written
      → c.has_pidfile ≡ true
      → IsQuiet file p
      → Ends signals file (with_pidfile a c signals written p)
  with_pidfile-Ends signals file (recorded new) p e has q =
      start-Ends signals file (record p { pidfile = some new }) q.0
  with_pidfile-Ends signals file (throws new) p e has q = (has, e, q.1)

  here-Ends :
      (signals : List Signal) (file : Option LockFile) (p : Process)
      → IsQuiet file p
      → Ends signals file (run_here a c signals p)
  here-Ends signals file p q = elim (Bool-cases c.has_pidfile) [
    | inl has ↦ simp has (
        with_pidfile-Ends signals file (write_pidfile a p.pidfile) p
          (ap (write_pidfile a) (sym q.2)) has q)
    | inr without ↦ simp without (start-Ends signals file p q.0)
  ]

  -- `daemonize` leaves the pidfile and the wait alone.
  abbrev process_of : Daemonized → Process
  process_of (goes_on p) = p
  process_of (leaves pid p) = p
  process_of (exits p) = p

  abbrev Sits : Option LockFile → Daemonized → Type 0
  Sits file d = IsQuiet file (process_of d)

  become_daemon-Sits :
      (file : Option LockFile) (p : Process) → IsQuiet file p → Sits file (become_daemon a p)
  unfolding become_daemon
  become_daemon-Sits file p (f, l, e) = (ground (arith, f), ground (arith, l), ground (arith, e))

  forked-Sits :
      (file : Option LockFile) (f : Forked) (p : Process)
      → IsQuiet file p
      → Sits file (forked a f p)
  forked-Sits file failed p q = q
  forked-Sits file (parent pid) p q = q
  forked-Sits file child p q = become_daemon-Sits file _ q

  daemonize-Sits :
      (file : Option LockFile) (p : Process) → IsQuiet file p → Sits file (daemonize a p)
  unfolding daemonize
  daemonize-Sits file p q = elim (Bool-cases (a.ppid == 1)) [
    | inl already ↦ simp already q
    | inr new ↦ simp new (forked-Sits file a.fork _ q)
  ]

  after-Ends :
      (signals : List Signal) (file : Option LockFile) (d : Daemonized)
      → c.daemonize ≡ true
      → Sits file d
      → Ends signals file (run_after a c signals d)
  after-Ends signals file (goes_on p) on q = here-Ends signals file p q
  after-Ends signals file (leaves pid p) on q = elim (Bool-cases (pid == 0)) [
    | inl here ↦ simp here (here-Ends signals file p q)
    | inr away ↦ simp away (refl, refl, q.1)
  ]
  after-Ends signals file (exits p) on q = (on, q.2, q.1)

  -- Whatever the system answers, a process that is not stopped yet and does not listen for signals ends in
  -- one of these ways. It returns EXIT_SUCCESS, is shut down and listens no more; it returns EXIT_FAILURE
  -- because the pidfile could not be written, and has not listened; it exits from becoming a daemon,
  -- the pidfile untouched; or it waits on, listening, and no SIGINT or SIGTERM has arrived.
  pub run-Ends :
      (signals : List Signal) (p : Process)
      → p.finalized ≡ false
      → p.listening ≡ false
      → Ends signals p.pidfile (run a c signals p)
  unfolding run
  run-Ends signals p f l =
      let p1 : Process = record p { logger = true } in
      elim (Bool-cases c.daemonize) [
        | inl on ↦ simp on (
            after-Ends signals p.pidfile (daemonize a p1) on
              (daemonize-Sits p.pidfile p1 (f, l, refl)))
        | inr off ↦ simp off (here-Ends signals p.pidfile p1 (f, l, refl))
      ]
