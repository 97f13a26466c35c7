-- ===== src/Examples/Slurm/Registered.antt =====
-- The theorems on the registration and the removal of a job by the plugin, at concrete inputs.
use io_scheduler.Prelude.{
  ℕ, ◌-◌, ◌≡◌, ◌≢◌, refl, true, false, some, none, [], ◌∷◌, map, arith, nat_key,
}
use io_scheduler.Prelude.Bytes.{codes}
use io_scheduler.Prelude.Int.{pos}
use io_scheduler.Types.{
  QosLimit, bandwidth, success, AdhocStorage, Job, DatasetRoute, in_job_shared, expand, read_write,
  regular,
}
use io_scheduler.Conversions.{
  adhoc_context_of, adhoc_resources_of, adhoc_storage_to, adhoc_storage_of, job_resources_of,
  node_create, job_requirements_of, job_requirements_create,
}
use io_scheduler.Conversions.RoundTrip.{c_route}
use io_scheduler.Client.{Connection}
use io_scheduler.Client
use io_scheduler.Client.Capi
use io_scheduler.Client.Capi.{TransferStatus}
use io_scheduler.Plugin.Nodes.{
  Resolver, addresses, NodeList, get_node, resolve_host, margo_address_create,
}
use io_scheduler.Plugin.Nodes.Hosts.{node_on}
use io_scheduler.Plugin.World.{Wanted, World, continues, then_step}
use io_scheduler.Plugin.Jobs.{register_job, unregister_job, at_end}
use io_scheduler.Plugin.Jobs.Outputs.{register_job_outputs}
use io_scheduler.Plugin.Jobs.Removal.{staged_out, cleared, register_job-unregister_job}
use io_scheduler.Examples.Clients.{transferring}
use io_scheduler.Examples.Slurm.{servers, two_hosts}

abbrev pub no_limit : QosLimit
no_limit = record { subclass = bandwidth; value = 0 }

-- A daemon that registers everything.
abbrev pub willing : Connection ℕ TransferStatus
willing = record transferring {
  register_adhoc_storage =
      λ name type ctx res s. (s, some (record { op_id = 0; error_code = success; value = some 0 }));
  register_job =
      λ res reqs slurm_id s. (s, some (record { op_id = 1; error_code = success; value = some 0 }));
  deploy_adhoc_storage =
      λ id s. (s, some (record { op_id = 2; error_code = success; value = some (codes "/tmp/x") }));
}

abbrev pub one_host : Resolver
one_host = record {
  getaddrinfo = λ hostname. addresses (some (codes "10.0.0.1") ∷ []);
  print_int = λ n. codes "5";
}

abbrev pub two_nodes : NodeList
two_nodes = record { nodes = map node_on two_hosts; nnodes = 2 }

abbrev pub no_routes : Wanted
no_routes = record {
  adhoc_nnodes = pos 1;
  adhoc_mode = in_job_shared;
  adhoc_type = expand;
  inputs = [];
  outputs = [];
  expected_outputs = [];
  limit = pos 0;
}

abbrev route : DatasetRoute
route = record { source = record { id = codes "out" }; destination = record { id = codes "pfs" } }

abbrev pub new : World ℕ
new = record {
  daemon = 1;
  server = false;
  adhoc_storage = none;
  scord_reqs = none;
  scord_job = none;
  adhoc_path = none;
  environment = [];
  removed = [];
}

register_job_outputs_example :
    register_job willing false
      (λ t. t)
      (λ n. n - 1)
      no_limit
      5
      one_host
      servers
      (record no_routes { outputs = c_route route ∷ [] })
      two_nodes
      77
      new
    ≢ continues tt new
register_job_outputs_example =
    register_job_outputs willing false (λ t. t) (λ n. n - 1) no_limit
      (record no_routes { outputs = c_route route ∷ [] }) [] (route ∷ []) tt refl refl (omega arith)
      5 one_host servers two_nodes 77 new new

abbrev pub registered_storage : AdhocStorage
registered_storage = record {
  type = expand;
  name = codes "mystorage";
  id = 0;
  context = record {
    controller_address = codes "tcp://10.0.0.1:5";
    data_stager_address = codes "tcp://10.0.0.1:5";
    exec_mode = in_job_shared;
    access_type = read_write;
    walltime = 0;
    should_flush = false;
  };
  resources = record { nodes = record { hostname = codes "n0"; type = regular } ∷ [] };
}

-- The world after the registration of a job without routes.
abbrev pub after_registration : World ℕ
after_registration = record {
  daemon = 1;
  server = true;
  adhoc_storage = some (adhoc_storage_to registered_storage);
  scord_reqs = some (job_requirements_create [] [] [] (some (adhoc_storage_to registered_storage)));
  scord_job = some (record { id = 0; slurm_id = 77 });
  adhoc_path = some (codes "/tmp/x");
  environment = (codes "ADHOC_TYPE", codes "expand") ∷ (codes "ADHOC_PATH", codes "/tmp/x") ∷ [];
  removed = [];
}

pub registers :
    register_job willing false
      (λ t. t)
      (λ n. n - 1)
      no_limit
      5
      one_host
      servers
      no_routes
      two_nodes
      77
      new
    ≡ continues tt after_registration
unfolding register_job get_node margo_address_create resolve_host Capi.register_adhoc_storage
    Capi.register_job Capi.deploy_adhoc_storage Client.register_adhoc_storage Client.register_job
    Client.deploy_adhoc_storage job_requirements_of job_requirements_create adhoc_storage_of
    adhoc_storage_to node_create job_resources_of adhoc_resources_of adhoc_context_of
registers = refl

register_job-unregister_job_example :
    let later : World ℕ = record after_registration { daemon = 3 } in
    (storage : AdhocStorage) × (job : Job) × (after_registration.adhoc_storage
      ≡ some (adhoc_storage_to storage))
    × (after_registration.scord_job ≡ some job)
    × (unregister_job willing false
          (λ t. t)
          (λ n. n - 1)
          no_limit
          5
          one_host
          servers
          0
          (pos 0)
          two_nodes
          later
        ≡ at_end willing false
            (λ t. t)
            (λ n. n - 1)
            no_limit
            (then_step
              (staged_out willing false (λ t. t) (λ n. n - 1) no_limit 5 (pos 0) job [] later)
              (λ _ w3.
                continues tt
                  (cleared willing false (λ t. t) (λ n. n - 1) no_limit storage job w3))))
unfolding margo_address_create resolve_host get_node node_create
register_job-unregister_job_example =
    register_job-unregister_job willing false (λ t. t) (λ n. n - 1) no_limit 5 one_host servers
      no_routes two_nodes 77 new after_registration 3 [] (codes "tcp://10.0.0.1:5")
      (codes "tcp://10.0.0.1:5") registers refl tt refl refl
