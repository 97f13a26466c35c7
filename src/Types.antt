-- ===== src/Types.antt =====
-- The API types of src/lib/scord/types.hpp and src/lib/types.cpp that the server keeps or answers
-- with. Strings and paths are lists of byte values; what the pimpl classes hold is a plain record.
-- Constructors from the C structs, serialisation and printing are left out.
use io_scheduler.Prelude.{ℕ, Bool, true, false, Option, List}

-- `std::string` and `std::filesystem::path`
abbrev pub Bytes : Type 0
Bytes = List ℕ

pub data ErrorCode : Type 0 where
  success snafu bad_args out_of_memory entity_exists no_such_entity adhoc_in_use : ErrorCode
  adhoc_type_unsupported adhoc_dir_create_failed adhoc_dir_exists : ErrorCode
  subprocess_error no_resources timeout other : ErrorCode

-- `explicit operator bool`
abbrev pub is_success : ErrorCode → Bool
is_success success = true
is_success _ = false

-- `tl::expected<A, error_code>`
pub data Expected {ℓ} (A : Type ℓ) : Type ℓ where
  expected : A → Expected A
  unexpected : ErrorCode → Expected A

pub data NodeType : Type 0 where
  regular administrative : NodeType

pub record Node : Type 0 where
  pub hostname : Bytes
  pub type : NodeType

pub data AdhocType : Type 0 where
  gekkofs dataclay expand hercules : AdhocType

pub data ExecutionMode : Type 0 where
  in_job_shared in_job_dedicated separate_new separate_existing : ExecutionMode

pub data AccessType : Type 0 where
  read_only write_only read_write : AccessType

pub record AdhocContext : Type 0 where
  pub controller_address : Bytes
  pub data_stager_address : Bytes
  pub exec_mode : ExecutionMode
  pub access_type : AccessType
  pub walltime : ℕ  -- uint32_t
  pub should_flush : Bool

pub record AdhocResources : Type 0 where
  pub nodes : List Node

pub record AdhocStorage : Type 0 where
  pub type : AdhocType
  pub name : Bytes
  pub id : ℕ  -- uint64_t
  pub context : AdhocContext
  pub resources : AdhocResources

pub data PfsType : Type 0 where
  lustre gpfs : PfsType

pub record PfsContext : Type 0 where
  pub mount_point : Bytes

pub record PfsStorage : Type 0 where
  pub type : PfsType
  pub name : Bytes
  pub id : ℕ  -- uint64_t
  pub context : PfsContext

pub record Dataset : Type 0 where
  pub id : Bytes

pub record DatasetRoute : Type 0 where
  pub source : Dataset
  pub destination : Dataset

pub record JobResources : Type 0 where
  pub nodes : List Node

pub record JobRequirements : Type 0 where
  pub inputs : List DatasetRoute
  pub outputs : List DatasetRoute
  pub expected_outputs : List DatasetRoute
  pub adhoc_storage : Option AdhocStorage

pub record Job : Type 0 where
  pub id : ℕ  -- uint64_t
  pub slurm_id : ℕ  -- uint64_t

pub record JobInfo : Type 0 where
  pub adhoc_controller_address : Bytes
  pub uuid : Bytes
  pub io_procs : ℕ  -- uint32_t

pub data QosClass : Type 0 where
  bandwidth iops : QosClass

-- The entity that a limit may apply to is not read by the server.
pub record QosLimit : Type 0 where
  pub subclass : QosClass
  pub value : ℕ  -- uint64_t
