-- ===== src/Process/Pidfile.antt =====
-- What the lock of the pidfile keeps from happening.
use io_scheduler.Prelude.{
  ℕ, zero, suc, ◌≡◌, ◌↔◌, ◌≤◌, refl, ap, sym, ◌∙◌, Bool, true, false, Option, none, some, [], ◌∷◌,
  length, if◌then◌else◌, ◌==◌, nat_key, arith, nat_beq_iff,
}
use io_scheduler.Prelude.Bytes.{take, drop}
use io_scheduler.Types.{Bytes}
use io_scheduler.Process.{
  LockFile, Answers, opened, lockable, overwrite, recorded, throws, write_pidfile,
}

drop_nothing : (n : ℕ) → drop {A = ℕ} n [] ≡ []
drop_nothing zero = refl
drop_nothing (suc n) = refl

overwrite_same : (text old : Bytes) → (overwrite text old ≡ text) ↔ (length old ≤ length text)
overwrite_same [] [] = (λ e. ground arith, λ h. refl)
overwrite_same [] (c ∷ old) = (λ e. absurd (cc e), λ h. absurd (omega arith))
overwrite_same (t ∷ text) [] =
    let (there, back) = overwrite_same text [] in
    let all : overwrite text [] ≡ text = back (omega arith) in
    (λ e. omega arith, λ h. ap (λ r. t ∷ r) (rw (← drop_nothing (length text)) all))
overwrite_same (t ∷ text) (c ∷ old) =
    let (there, back) = overwrite_same text old in
    (λ e. omega (arith, there (ground (arith, e))), λ h. ap (λ r. t ∷ r) (back (omega arith)))

pub take_whole : (text : Bytes) → take (length text) text ≡ text
take_whole [] = refl
take_whole (c ∷ text) = ap (λ r. c ∷ r) (take_whole text)

-- The tests of `write_pidfile`, if it returns.
recorded_inv :
    (can_open can_lock whole : Bool) {file1 : LockFile} (f : LockFile) (e1 e2 e3 : Option LockFile)
    → (if can_open
        then (if can_lock then (if whole then recorded f else throws e1) else throws e2)
        else throws e3)
      ≡ recorded file1
    → (whole ≡ true) × (f ≡ file1)
recorded_inv true true true f e1 e2 e3 h = (refl, ground (arith, h))
recorded_inv true true false f e1 e2 e3 h = absurd (cc h)
recorded_inv true false whole f e1 e2 e3 h = absurd (cc h)
recorded_inv false can_lock whole f e1 e2 e3 h = absurd (cc h)

written_file :
    (a : Answers) (file : Option LockFile) (file1 : LockFile)
    → write_pidfile a file ≡ recorded file1
    → file1 ≡ record { content = overwrite a.pid_text (opened file).content; holder = none }
unfolding write_pidfile
written_file a file file1 h =
    let f = opened file in
    let (whole, same) =
      recorded_inv a.open_pidfile (lockable a.pid f.holder) (a.written == length a.pid_text) _ _ _ _
        h in
    let n : a.written ≡ length a.pid_text = (nat_beq_iff a.written (length a.pid_text)).0 whole in
    let text : take a.written a.pid_text ≡ a.pid_text = rw n (take_whole a.pid_text) in
    sym same ∙ ap (λ t. record { content = overwrite t f.content; holder = none }) text

pub beq_same : (n : ℕ) → (n == n) ≡ true
beq_same n = (nat_beq_iff n n).1 refl

-- After a process has written the pidfile, and while it runs on, any process that can open and write the file
-- writes it too: the lock is gone. What it leaves begins with its own number, and is that number
-- alone exactly if what was there is not longer.
pub write_pidfile_again :
    (a b : Answers) (file : Option LockFile) (file1 : LockFile)
    → write_pidfile a file ≡ recorded file1
    → b.open_pidfile ≡ true
    → b.written ≡ length b.pid_text
    → let content = overwrite b.pid_text (overwrite a.pid_text (opened file).content) in
      (write_pidfile b (some file1) ≡ recorded (record { content = content; holder = none }))
      × ((content ≡ b.pid_text)
          ↔ (length (overwrite a.pid_text (opened file).content) ≤ length b.pid_text))
unfolding write_pidfile
write_pidfile_again a b file file1 h o w =
    let same = written_file a file file1 h in
    let first = overwrite a.pid_text (opened file).content in
    (
      rw (same, o, w, take_whole b.pid_text, beq_same (length b.pid_text)) refl,
      overwrite_same b.pid_text first,
    )
