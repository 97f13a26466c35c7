-- ===== src/Examples/Jobs.antt =====
-- The theorems on the job manager at concrete inputs.
use io_scheduler.Prelude.{none, List, [], ◌∷◌, arith}
use io_scheduler.Metadata.{JobMetadata}
use io_scheduler.Managers.Job.{JobManager, init, create}
use io_scheduler.Managers.Job.View.{IsValid, init-IsValid, created}
use io_scheduler.Managers.Job.Invariant.{
  Call, creates, updates, removes, run, run-IsValid, create-IsValid,
}
use io_scheduler.Examples.Data.{job_resources, plain}

abbrev calls : List Call
calls =
    creates 7 job_resources plain none
    ∷ creates 7 job_resources plain none
    ∷ updates 0 job_resources
    ∷ removes 1
    ∷ []

run-IsValid_example : IsValid (run init calls)
run-IsValid_example = run-IsValid calls (omega arith)

-- One job, number 0, with Slurm number 7.
abbrev one_job : JobManager
one_job = (create init 7 job_resources plain none).0

one_job-IsValid : IsValid one_job
unfolding init
one_job-IsValid = create-IsValid init init-IsValid (omega arith) 7 job_resources plain none

abbrev job : JobMetadata
job = created init 7 job_resources plain none
