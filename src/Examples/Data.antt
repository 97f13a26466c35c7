-- ===== src/Examples/Data.antt =====
-- The inputs of the examples: a storage, jobs with and without it, and a world outside the daemon.
use io_scheduler.Prelude.{ℕ, true, none, some, List, [], ◌∷◌, ◌+◌, ◌-◌, ◌*◌, ltb, nat_beq}
use io_scheduler.Prelude.Bytes.{codes}
use io_scheduler.Types.{
  Node, regular, gekkofs, AdhocContext, in_job_shared, read_write, AdhocResources, AdhocStorage,
  JobResources, JobRequirements, success,
}
use io_scheduler.Server.{Remote}
use io_scheduler.Server.Scheduler.{FloatOps, running}
use io_scheduler.Server.Requests.{World, Request, registers_adhoc, registers_job}

abbrev pub context : AdhocContext
context = record {
  controller_address = codes "ofi://10.0.0.1";
  data_stager_address = codes "ofi://10.0.0.2";
  exec_mode = in_job_shared;
  access_type = read_write;
  walltime = 3600;
  should_flush = true;
}

abbrev pub one_node : List Node
one_node = record { hostname = codes "node1"; type = regular } ∷ []

abbrev pub adhoc_resources : AdhocResources
adhoc_resources = record { nodes = one_node }

abbrev pub storage : AdhocStorage
storage = record {
  type = gekkofs;
  name = codes "scratch";
  id = 0;
  context = context;
  resources = adhoc_resources;
}

abbrev pub job_resources : JobResources
job_resources = record { nodes = one_node }

abbrev pub plain : JobRequirements
plain = record { inputs = []; outputs = []; expected_outputs = []; adhoc_storage = none }

abbrev pub with_storage : JobRequirements
with_storage = record {
  inputs = [];
  outputs = [];
  expected_outputs = [];
  adhoc_storage = some storage;
}

-- A controller that can be reached and answers that all went well.
abbrev pub remote : Remote
remote = record {
  lookup = λ address. true;
  call = λ c. some (record { op_id = 0; error_code = success });
  call_with_value =
      λ c. some (record { op_id = 0; error_code = success; value = some (codes "/mnt") });
}

-- Numbers in place of floats; 1000 stands for the -1 of an unmeasured bandwidth.
abbrev pub ops : FloatOps ℕ
ops = record {
  threshold = 0;
  minus_one = 1000;
  of_uint64 = λ n. n;
  add = λ a b. a + b;
  sub = λ a b. a - b;
  mul = λ a b. a * b;
  gt = λ a b. ltb b a;
  lt = ltb;
  eq = nat_beq;
}

-- A transfer service whose handles are numbers, all of them running.
abbrev pub world : World ℕ ℕ
world = record {
  remote = remote;
  start = λ address inputs outputs. 0;
  state = λ h. running;
  bw = λ h. 5;
  ops = ops;
}

abbrev pub registers_storage : World ℕ ℕ × Request
registers_storage =
    (world, registers_adhoc [] (codes "xyz") (codes "scratch") gekkofs context adhoc_resources)

abbrev pub registers : JobRequirements → ℕ → World ℕ ℕ × Request
registers reqs slurm_id = (world, registers_job [] 0 job_resources reqs slurm_id)
