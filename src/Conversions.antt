-- ===== src/Conversions.antt =====
-- The C structures of src/lib/types_private.h, and the conversions of src/lib/types.cpp between them and
-- the values of the API, with the constructors of src/lib/types.c that these call. A pointer is an
-- option, a list of the C API is its array. No allocation fails here. A result `none` is a read
-- through a null pointer or past the end of an array.
pub mod RoundTrip
use io_scheduler.Prelude.{
  ℕ, zero, suc, Bool, Option, none, some, List, [], ◌∷◌, map, length, deref, if◌then◌else◌, ◌==◌,
  nat_key,
}
use io_scheduler.Types.{
  Bytes, Node, NodeType, regular, AdhocType, ExecutionMode, AccessType, AdhocContext,
  AdhocResources, AdhocStorage, PfsType, PfsContext, PfsStorage, Dataset, DatasetRoute,
  JobResources, JobRequirements, Job,
}

-- A string up to its first NUL, which is what a C function sees of it.
abbrev pub c_str : Bytes → Bytes
c_str [] = []
c_str (c ∷ s) = let rest = c_str s in if c == 0 then [] else c ∷ rest

infixl 5 ◌>>=◌
abbrev pub ◌>>=◌ {ℓ κ} : {A : Type ℓ} {B : Type κ} → Option A → (A → Option B) → Option B
none >>= f = none
some a >>= f = f a

-- `for(size_t i = 0; i < l_length; ++i) emplace_back(…)`
unfoldable pub each_of {ℓ κ} : {A : Type ℓ} {B : Type κ} → (A → Option B) → List A → Option (List B)
each_of f [] = some []
each_of f (a ∷ rest) = do b ← f a; bs ← each_of f rest; some (b ∷ bs)

-- `struct adm_node` and the other structures
pub record CNode : Type 0 where
  pub n_hostname : Option Bytes
  pub n_type : NodeType

pub record CResources : Type 0 where
  pub r_nodes : Option (List CNode)

pub record CAdhocContext : Type 0 where
  pub c_ctl_address : Option Bytes
  pub c_stager_address : Option Bytes
  pub c_mode : ExecutionMode
  pub c_access : AccessType
  pub c_walltime : ℕ  -- uint32_t
  pub c_should_bg_flush : Bool

pub record CAdhocStorage : Type 0 where
  pub s_name : Option Bytes
  pub s_type : AdhocType
  pub s_id : ℕ  -- uint64_t
  pub s_adhoc_ctx : Option CAdhocContext
  pub s_resources : Option CResources

pub record CPfsContext : Type 0 where
  pub c_mount : Option Bytes

pub record CPfsStorage : Type 0 where
  pub s_name : Option Bytes
  pub s_type : PfsType
  pub s_id : ℕ  -- uint64_t
  pub s_pfs_ctx : Option CPfsContext

pub record CDataset : Type 0 where
  pub d_id : Option Bytes

pub record CRoute : Type 0 where
  pub d_src : Option CDataset
  pub d_dst : Option CDataset

pub record CRequirements : Type 0 where
  pub r_inputs : Option (List CRoute)
  pub r_outputs : Option (List CRoute)
  pub r_expected_outputs : Option (List CRoute)
  pub r_adhoc_storage : Option CAdhocStorage

pub record CJob : Type 0 where
  pub j_id : ℕ  -- uint64_t
  pub j_slurm_id : ℕ  -- uint64_t

-- From the C structures. The nodes of an adhoc storage get the default type.
unfoldable pub adhoc_node_of : CNode → Option Node
adhoc_node_of n = do hostname ← n.n_hostname; some (record { hostname = hostname; type = regular })

unfoldable pub job_node_of : CNode → Option Node
job_node_of n = do hostname ← n.n_hostname; some (record { hostname = hostname; type = n.n_type })

unfoldable pub adhoc_resources_of : CResources → Option AdhocResources
unfolding adhoc_node_of each_of
adhoc_resources_of res = do
  list ← res.r_nodes
  nodes ← each_of adhoc_node_of list
  some (record { nodes = nodes })

unfoldable pub job_resources_of : CResources → Option JobResources
unfolding job_node_of each_of
job_resources_of res = do
  list ← res.r_nodes
  nodes ← each_of job_node_of list
  some (record { nodes = nodes })

unfoldable pub adhoc_context_of : CAdhocContext → Option AdhocContext
adhoc_context_of ctx = do
  controller ← ctx.c_ctl_address
  stager ← ctx.c_stager_address
  some (record {
    controller_address = controller;
    data_stager_address = stager;
    exec_mode = ctx.c_mode;
    access_type = ctx.c_access;
    walltime = ctx.c_walltime;
    should_flush = ctx.c_should_bg_flush;
  })

unfoldable pub adhoc_storage_of : CAdhocStorage → Option AdhocStorage
unfolding adhoc_context_of adhoc_resources_of
adhoc_storage_of st = do
  name ← st.s_name
  c_ctx ← st.s_adhoc_ctx
  ctx ← adhoc_context_of c_ctx
  c_res ← st.s_resources
  res ← adhoc_resources_of c_res
  some (record { type = st.s_type; name = name; id = st.s_id; context = ctx; resources = res })

unfoldable pub pfs_storage_of : CPfsStorage → Option PfsStorage
pfs_storage_of st = do
  name ← st.s_name
  ctx ← st.s_pfs_ctx
  mount ← ctx.c_mount
  some (record {
    type = st.s_type;
    name = name;
    id = st.s_id;
    context = record { mount_point = mount };
  })

unfoldable pub dataset_of : Option CDataset → Option Dataset
dataset_of d = do dataset ← d; id ← dataset.d_id; some (record { id = id })

unfoldable pub route_of : CRoute → Option DatasetRoute
unfolding dataset_of
route_of r = do
  source ← dataset_of r.d_src
  destination ← dataset_of r.d_dst
  some (record { source = source; destination = destination })

-- The loop from the i-th route of an array on, for as many rounds as given.
unfoldable pub routes_from : List CRoute → ℕ → ℕ → Option (List DatasetRoute)
unfolding route_of deref
routes_from array i zero = some []
routes_from array i (suc rounds) = do
  c_route ← deref array i
  route ← route_of c_route
  rest ← routes_from array (suc i) rounds
  some (route ∷ rest)

abbrev pub storage_if_any : Option CAdhocStorage → Option (Option AdhocStorage)
storage_if_any none = some none
storage_if_any (some c_storage) = do storage ← adhoc_storage_of c_storage; some (some storage)

-- The loop for the outputs goes by the number of outputs, and reads the array of inputs.
unfoldable pub job_requirements_of : CRequirements → Option JobRequirements
unfolding routes_from adhoc_storage_of
job_requirements_of reqs = do
  c_inputs ← reqs.r_inputs
  inputs ← routes_from c_inputs 0 (length c_inputs)
  c_outputs ← reqs.r_outputs
  outputs ← routes_from c_inputs 0 (length c_outputs)
  c_expected ← reqs.r_expected_outputs
  expected ← routes_from c_expected 0 (length c_expected)
  storage ← storage_if_any reqs.r_adhoc_storage
  some (record {
    inputs = inputs;
    outputs = outputs;
    expected_outputs = expected;
    adhoc_storage = storage;
  })

unfoldable pub job_of : CJob → Job
job_of job = record { id = job.j_id; slurm_id = job.j_slurm_id }

-- To the C structures.
unfoldable pub node_create : Node → CNode
node_create n = record { n_hostname = some (c_str n.hostname); n_type = n.type }

unfoldable pub adhoc_resources_to : AdhocResources → CResources
unfolding node_create
adhoc_resources_to res = record { r_nodes = some (map node_create res.nodes) }

unfoldable pub adhoc_context_to : AdhocContext → CAdhocContext
adhoc_context_to ctx = record {
  c_ctl_address = some (c_str ctx.controller_address);
  c_stager_address = some (c_str ctx.data_stager_address);
  c_mode = ctx.exec_mode;
  c_access = ctx.access_type;
  c_walltime = ctx.walltime;
  c_should_bg_flush = ctx.should_flush;
}

unfoldable pub adhoc_storage_to : AdhocStorage → CAdhocStorage
unfolding adhoc_context_to adhoc_resources_to
adhoc_storage_to st = record {
  s_name = some (c_str st.name);
  s_type = st.type;
  s_id = st.id;
  s_adhoc_ctx = some (adhoc_context_to st.context);
  s_resources = some (adhoc_resources_to st.resources);
}

unfoldable pub pfs_storage_to : PfsStorage → CPfsStorage
pfs_storage_to st = record {
  s_name = some (c_str st.name);
  s_type = st.type;
  s_id = st.id;
  s_pfs_ctx = some (record { c_mount = some (c_str st.context.mount_point) });
}

unfoldable pub job_to : Job → CJob
job_to job = record { j_id = job.id; j_slurm_id = job.slurm_id }

-- `ADM_dataset_create` and `ADM_dataset_route_create`
unfoldable pub dataset_create : Option Bytes → CDataset
dataset_create id = record { d_id = id }

unfoldable pub route_create : CDataset → CDataset → CRoute
unfolding dataset_create
route_create source destination = record {
  d_src = some (dataset_create source.d_id);
  d_dst = some (dataset_create destination.d_id);
}

abbrev pub dataset_copy : Option CDataset → Option CDataset
dataset_copy none = none
dataset_copy (some d) = some (dataset_create d.d_id)

-- `ADM_dataset_route_copy`
unfoldable pub route_copy : CRoute → CRoute
unfolding dataset_create
route_copy r = record { d_src = dataset_copy r.d_src; d_dst = dataset_copy r.d_dst }

-- `ADM_adhoc_storage_create` of the fields of another: null without a name or a context.
unfoldable pub adhoc_storage_create : CAdhocStorage → Option CAdhocStorage
adhoc_storage_create st = do
  name ← st.s_name
  ctx ← st.s_adhoc_ctx
  some (record st { s_name = some name; s_adhoc_ctx = some ctx })

-- `ADM_job_requirements_create`, for the types of storages that there are.
unfoldable pub job_requirements_create :
    List CRoute → List CRoute → List CRoute → Option CAdhocStorage → CRequirements
unfolding route_copy adhoc_storage_create
job_requirements_create inputs outputs expected storage = record {
  r_inputs = some (map route_copy inputs);
  r_outputs = some (map route_copy outputs);
  r_expected_outputs = some (map route_copy expected);
  r_adhoc_storage = storage >>= adhoc_storage_create;
}
