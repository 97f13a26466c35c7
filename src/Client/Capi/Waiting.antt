-- ===== src/Client/Capi/Waiting.antt =====
-- The wait for a transfer in src/lib/c_wrapper.cpp.
use io_scheduler.Prelude.{
  ℕ, zero, suc, inl, inr, ◌⊎◌, Option, refl, ◌<◌, ◌≡◌, ◌≢◌, ◌∙◌, Bool, true, some, List, arith, ap,
}
use io_scheduler.Types.{ErrorCode, Expected, Job, Dataset, QosLimit, expected, unexpected}
use io_scheduler.Utils.Routes.{ReturnCode}
use io_scheduler.Client
use io_scheduler.Client.{Connection, Ended, returns, terminates, Transfer}
use io_scheduler.Client.Capi.{
  TransferStatus, queued, running, finished, failed, cancelled, return_code, delivered, Verdict,
  stop, again, aborted, judge, poll, wait_loop, deliver, transfer_datasets,
}

module _ {S T : Type 0} (c : Connection S T) (logging : Bool) (status : T → TransferStatus)
    (sleep : S → S) (job : Job) (transfer : Transfer) where
  -- The state in which the n-th query is made, counted from 0, if the loop gets there.
  unfoldable pub before_query : ℕ → S → S
  before_query zero s = s
  before_query (suc n) s = before_query n (sleep (poll c logging status sleep job transfer s).0)

  -- What the n-th query means.
  abbrev pub verdict : ℕ → S → Verdict
  verdict n s =
      judge c logging status sleep (poll c logging status sleep job transfer (before_query n s)).1

  -- What the function does on a verdict that ends the wait.
  abbrev pub result : Verdict → Ended ReturnCode
  result (stop code) = returns code
  result again = terminates
  result aborted = terminates

  step_again :
      (rounds : ℕ) (s : S)
      → verdict 0 s ≡ again
      → wait_loop c logging status sleep (suc rounds) job transfer s
        ≡ wait_loop c logging status sleep rounds job transfer
            (sleep (poll c logging status sleep job transfer s).0)
  unfolding wait_loop before_query
  step_again rounds s e = ground (arith, e)

  step_last :
      (rounds : ℕ) (s : S)
      → verdict 0 s ≢ again
      → wait_loop c logging status sleep (suc rounds) job transfer s
        ≡ some ((poll c logging status sleep job transfer s).0, result (verdict 0 s))
  unfolding wait_loop before_query
  step_last rounds s last = ground arith

  wait_loop_lem :
      (n rounds : ℕ) (s : S)
      → n < rounds
      → ((i : ℕ) → i < n → verdict i s ≡ again)
      → verdict n s ≢ again
      → wait_loop c logging status sleep rounds job transfer s
        ≡ some
            ((poll c logging status sleep job transfer (before_query n s)).0, result (verdict n s))
  unfolding before_query
  wait_loop_lem n zero s h before last = absurd (omega arith)
  wait_loop_lem zero (suc rounds) s h before last = step_last rounds s last
  wait_loop_lem (suc n) (suc rounds) s h before last =
      step_again rounds s (before 0 (omega arith))
      ∙ wait_loop_lem n rounds (sleep (poll c logging status sleep job transfer s).0) (omega arith)
          (λ i k. before (suc i) (omega arith)) last

  -- The n-th answer, counted from 0.
  abbrev pub answer : ℕ → S → Ended (Expected T)
  answer n s = (poll c logging status sleep job transfer (before_query n s)).1

  -- An answer that the transfer is queued or running.
  abbrev pub IsUnderway : Ended (Expected T) → Type 0
  IsUnderway e =
      (state : T) × (e ≡ returns (expected state))
      × ((status state ≡ queued) ⊎ (status state ≡ running))

  -- What the caller gets from the last answer: success for a transfer that is over in whatever way, and
  -- for one that the daemon does not know any more; the code of any other error; and the end of the process
  -- where reading the answer ends it.
  pub data Ends : Ended (Expected T) → Ended (ReturnCode × Option Transfer) → Type 0 where
    finishes :
        {state : T}
        → status state ≡ finished
        → Ends (returns (expected state)) (returns (ReturnCode.success, some transfer))
    fails :
        {state : T}
        → status state ≡ failed
        → Ends (returns (expected state)) (returns (ReturnCode.success, some transfer))
    is_cancelled :
        {state : T}
        → status state ≡ cancelled
        → Ends (returns (expected state)) (returns (ReturnCode.success, some transfer))
    is_gone :
        Ends
          (returns (unexpected ErrorCode.no_such_entity))
          (returns (ReturnCode.success, some transfer))
    errs :
        {ec : ErrorCode}
        → ec ≢ ErrorCode.no_such_entity
        → Ends (returns (unexpected ec)) (returns (return_code ec, some transfer))
    dies : Ends terminates terminates

  underway_again : (e : Ended (Expected T)) → IsUnderway e → judge c logging status sleep e ≡ again
  underway_again e (state, same, inl q) = rw (same, q) refl
  underway_again e (state, same, inr r) = rw (same, r) refl

  abbrev Last : Ended (Expected T) → Type 0
  Last e =
      (judge c logging status sleep e ≢ again)
      × Ends e (delivered c logging status sleep transfer (result (judge c logging status sleep e)))

  closing_status :
      (state : T) (st : TransferStatus)
      → status state ≡ st
      → ¬ IsUnderway (returns (expected state))
      → Last (returns (expected state))
  closing_status state queued e over = absurd (over (state, refl, inl e))
  closing_status state running e over = absurd (over (state, refl, inr e))
  closing_status state finished e over = rw e ((λ h. cc), finishes e)
  closing_status state failed e over = rw e ((λ h. cc), fails e)
  closing_status state cancelled e over = rw e ((λ h. cc), is_cancelled e)

  closing_error : (ec : ErrorCode) → Last (returns (unexpected ec))
  closing_error ErrorCode.success = ((λ h. cc), errs (λ h. cc))
  closing_error ErrorCode.snafu = ((λ h. cc), errs (λ h. cc))
  closing_error ErrorCode.bad_args = ((λ h. cc), errs (λ h. cc))
  closing_error ErrorCode.out_of_memory = ((λ h. cc), errs (λ h. cc))
  closing_error ErrorCode.entity_exists = ((λ h. cc), errs (λ h. cc))
  closing_error ErrorCode.no_such_entity = ((λ h. cc), is_gone)
  closing_error ErrorCode.adhoc_in_use = ((λ h. cc), errs (λ h. cc))
  closing_error ErrorCode.adhoc_type_unsupported = ((λ h. cc), errs (λ h. cc))
  closing_error ErrorCode.adhoc_dir_create_failed = ((λ h. cc), errs (λ h. cc))
  closing_error ErrorCode.adhoc_dir_exists = ((λ h. cc), errs (λ h. cc))
  closing_error ErrorCode.subprocess_error = ((λ h. cc), errs (λ h. cc))
  closing_error ErrorCode.no_resources = ((λ h. cc), errs (λ h. cc))
  closing_error ErrorCode.timeout = ((λ h. cc), errs (λ h. cc))
  closing_error ErrorCode.other = ((λ h. cc), errs (λ h. cc))

  closing_answer : (e : Ended (Expected T)) → ¬ IsUnderway e → Last e
  closing_answer (returns (expected state)) over = closing_status state (status state) refl over
  closing_answer (returns (unexpected ec)) over = closing_error ec
  closing_answer terminates over = ((λ h. cc), dies)

  -- A transfer was created, and the caller waits: if the first n answers are that it is queued or
  -- running, and the next one is not, then the wait ends with that one, within any greater number of
  -- queries. The caller then has the transfer with success if the transfer has finished, has failed, was
  -- cancelled or is not known any more, and with the code of that answer if it is another error.
  pub transfer_datasets_waits :
      (n rounds : ℕ) (sources targets : List Dataset) (limits : List QosLimit) (s s1 : S)
      → Client.transfer_datasets c logging job sources targets limits s
        ≡ (s1, returns (expected transfer))
      → n < rounds
      → ((i : ℕ) → i < n → IsUnderway (answer i s1))
      → ¬ IsUnderway (answer n s1)
      → (e : Ended (ReturnCode × Option Transfer)) × Ends (answer n s1) e
        × (transfer_datasets c logging status sleep rounds true job sources targets limits s
            ≡ some ((poll c logging status sleep job transfer (before_query n s1)).0, e))
  unfolding transfer_datasets
  transfer_datasets_waits n rounds sources targets limits s s1 e h before over =
      let (last, ends) = closing_answer (answer n s1) over in
      (
        delivered c logging status sleep transfer (result (verdict n s1)),
        ends,
        rw e (
            ap (deliver c logging status sleep transfer) (
              wait_loop_lem n rounds s1 h (λ i k. underway_again (answer i s1) (before i k)) last)),
      )
