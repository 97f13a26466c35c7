-- ===== src/Examples/Conversions.antt =====
-- The theorems on the C structures at concrete inputs.
use io_scheduler.Prelude.{◌≡◌, arith, none, some, [], ◌∷◌}
use io_scheduler.Prelude.Bytes.{codes}
use io_scheduler.Types.{administrative, AdhocStorage, lustre, PfsStorage, Job, DatasetRoute}
use io_scheduler.Conversions.{
  adhoc_storage_of, adhoc_storage_to, pfs_storage_of, pfs_storage_to, job_of, job_to,
  job_requirements_of, job_requirements_create,
}
use io_scheduler.Conversions.RoundTrip.{storage_converted, job_requirements_outputs, c_route}
use io_scheduler.Examples.Data.{storage}

-- A storage whose one node is administrative.
abbrev administered : AdhocStorage
administered = record storage {
  resources = record { nodes = record { hostname = codes "node1"; type = administrative } ∷ [] };
}

abbrev pfs : PfsStorage
pfs = record {
  type = lustre;
  name = codes "pfs";
  id = 4;
  context = record { mount_point = codes "/mnt" };
}

abbrev job : Job
job = record { id = 3; slurm_id = 11 }

storage_converted_example :
    (adhoc_storage_of (adhoc_storage_to administered) ≡ some storage)
    × (pfs_storage_of (pfs_storage_to pfs) ≡ some pfs)
    × (job_of (job_to job) ≡ job)
storage_converted_example =
    storage_converted administered pfs job (omega arith) (omega arith) (omega arith) (omega arith)
      (omega arith) (omega arith)

abbrev route : DatasetRoute
route = record { source = record { id = codes "a" }; destination = record { id = codes "b" } }

-- Two outputs and one input.
job_requirements_outputs_example :
    job_requirements_of
      (job_requirements_create (c_route route ∷ []) (c_route route ∷ c_route route ∷ []) [] none)
    ≡ none
job_requirements_outputs_example =
    job_requirements_outputs (route ∷ []) (route ∷ route ∷ []) [] (omega arith) (omega arith)
