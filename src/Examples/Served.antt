-- ===== src/Examples/Served.antt =====
-- A state of the daemon after three requests.
use io_scheduler.Prelude.{
  ℕ, ◌≡◌, refl, some, none, List, [], ◌∷◌, arith, nat_key, deref, alloc, modify, Option,
}
use io_scheduler.Prelude.Bytes.{codes}
use io_scheduler.Prelude.Map
use io_scheduler.Metadata
use io_scheduler.Metadata.{JobMetadata, AdhocMetadata}
use io_scheduler.Managers
use io_scheduler.Server.{Server, init, RedisCommand}
use io_scheduler.Server.Jobs.{register_job}
use io_scheduler.Server.Adhocs.{register_adhoc_storage}
use io_scheduler.Server.Requests.{World, Request, run, step}
use io_scheduler.Server.Consistency.Handlers.{Consistent}
use io_scheduler.Server.Consistency.History.{run-Consistent}
use io_scheduler.Examples.Data.{
  storage, job_resources, plain, with_storage, registers_storage, registers,
}

-- A storage, a job with it and Slurm number 7, and a job without and Slurm number 8.
abbrev pub history : List (World ℕ ℕ × Request)
history = registers_storage ∷ registers with_storage 7 ∷ registers plain 8 ∷ []

abbrev pub adhoc_0 : AdhocMetadata
adhoc_0 = record { uuid = codes "gekkofs-xyz"; adhoc_storage = storage; client_info = some 0 }

abbrev pub job_0 : JobMetadata
job_0 = record {
  job = record { id = 0; slurm_id = 7 };
  resources = some job_resources;
  requirements = some with_storage;
  adhoc_metadata_ptr = some 0;
}

abbrev pub job_1 : JobMetadata
job_1 = record {
  job = record { id = 1; slurm_id = 8 };
  resources = some job_resources;
  requirements = some plain;
  adhoc_metadata_ptr = none;
}

-- The state after `history`.
abbrev pub served : Option (List RedisCommand) → Server ℕ ℕ
served redis = record {
  job_manager = record {
    current_id = 2;
    jobs = (1, 1) ∷ (0, 0) ∷ [];
    slurm_to_scord = (8, 1) ∷ (7, 0) ∷ [];
    objects = job_0 ∷ job_1 ∷ [];
  };
  adhoc_manager = record { current_id = 1; adhoc_storages = (0, 0) ∷ []; objects = adhoc_0 ∷ [] };
  pfs_manager = record { current_id = 0; pfs_storages = [] };
  transfer_manager = record { current_id = 0; transfers = [] };
  redis = redis;
  calls = [];
  rpc_counter = 3;
}

run-history : run (init none) history ≡ served none
unfolding run step init register_adhoc_storage register_job Managers.Job.init Managers.Adhoc.init
    Managers.Pfs.init Managers.Transfer.init Map.find Map.emplace deref alloc modify
    Managers.Job.create Managers.Counter.next Managers.Adhoc.create Managers.Adhoc.find
    Managers.Adhoc.add_client_at Managers.Adhoc.generate_adhoc_uuid Metadata.Adhoc.add_client_info
    Metadata.Job.make Metadata.Adhoc.make
run-history = refl

-- Consistency does not depend on the connection to Redis.
pub served-Consistent : (redis : Option (List RedisCommand)) → Consistent (served redis)
served-Consistent redis =
    let c : Consistent (run (init none) history) = run-Consistent none history (omega arith) in
    rw run-history at c

-- The state after the registration of a storage, with Redis.
abbrev pub unclaimed : Server ℕ ℕ
unclaimed = record {
  job_manager = record { current_id = 0; jobs = []; slurm_to_scord = []; objects = [] };
  adhoc_manager = record {
    current_id = 1;
    adhoc_storages = (0, 0) ∷ [];
    objects = record adhoc_0 { client_info = none } ∷ [];
  };
  pfs_manager = record { current_id = 0; pfs_storages = [] };
  transfer_manager = record { current_id = 0; transfers = [] };
  redis = some [];
  calls = [];
  rpc_counter = 1;
}

run-registers_storage : run (init (some [])) (registers_storage ∷ []) ≡ unclaimed
unfolding run step init register_adhoc_storage Managers.Job.init Managers.Adhoc.init
    Managers.Pfs.init Managers.Transfer.init Map.find Map.emplace deref alloc Managers.Counter.next
    Managers.Adhoc.create Managers.Adhoc.generate_adhoc_uuid Metadata.Adhoc.make
run-registers_storage = refl

pub unclaimed-Consistent : Consistent unclaimed
unclaimed-Consistent =
    let c : Consistent (run (init (some [])) (registers_storage ∷ [])) =
      run-Consistent (some []) (registers_storage ∷ []) (omega arith) in
    rw run-registers_storage at c
