-- ===== src/Plugin/Options.antt =====
-- The options that users give to srun, salloc and sbatch: `process_opts` of plugins/slurm/slurmadmcli.c. An
-- option that takes an argument has one, and the lists of routes are read as in Utils.
pub mod Described
pub mod Last
use io_scheduler.Prelude.{
  ℕ, zero, ◌+◌, ◌-◌, Bool, true, false, Option, none, some, List, [], ◌∷◌, length, deref, has_value,
  not, if◌then◌else◌, ◌==◌, ◌&&◌, ◌||◌, nat_key,
}
use io_scheduler.Prelude.Bytes.{codes, starts_with, take}
use io_scheduler.Prelude.Int.{ℤ, pos, is_positive}
use io_scheduler.Types.{
  Bytes, ExecutionMode, in_job_shared, in_job_dedicated, separate_new, separate_existing, AdhocType,
  gekkofs, expand, hercules, dataclay, DatasetRoute,
}
use io_scheduler.Utils.Routes.{Outcome, Parsed, parsed, refused, parse_dataset_routes}
use io_scheduler.Utils.Routes.RoundTrip.{plenty}
use io_scheduler.Plugin.{Context, local, allocator, remote, Number, Strtol}

-- `TAG_NNODES` and the others
pub data Tag : Type 0 where
  nnodes adhoc_type adhoc_overlap adhoc_exclusive adhoc_dedicated adhoc_remote : Tag
  dataset_input dataset_output dataset_expected_output dataset_expected_inout qos_limit : Tag

-- A global array of routes: null, allocated, or freed and still pointed to.
pub data Array : Type 0 where
  null dangling : Array
  holds : List DatasetRoute → Array

pub record Datasets : Type 0 where
  pub array : Array
  pub count : ℕ  -- size_t

-- The global variables.
pub record Options : Type 0 where
  pub scord_flag : Bool
  pub adhoc_nnodes : ℤ  -- long
  pub adhoc_mode : ExecutionMode
  pub adhoc_type : AdhocType
  pub adhoc_id : Bytes
  pub inputs : Datasets
  pub outputs : Datasets
  pub expected_outputs : Datasets
  pub expected_inouts : Datasets
  pub limit : ℤ  -- int64_t

abbrev pub no_datasets : Datasets
no_datasets = record { array = null; count = 0 }

abbrev pub defaults : Options
defaults = record {
  scord_flag = false;
  adhoc_nnodes = pos 0;
  adhoc_mode = in_job_shared;
  adhoc_type = gekkofs;
  adhoc_id = [];
  inputs = no_datasets;
  outputs = no_datasets;
  expected_outputs = no_datasets;
  expected_inouts = no_datasets;
  limit = pos 0;
}

abbrev pub adhoc_id_len : ℕ
adhoc_id_len = 64

-- The return values 0 and -1, and an array that is freed twice.
pub data Processed : Type 0 where
  accepted rejected : Options → Processed
  double_free : Processed

-- The test after `strtol`: no error, some digits, nothing after them, a positive number.
abbrev pub is_count : Number → Bytes → Bool
is_count n text =
    n.errno == 0 && not (n.used == 0) && not (has_value (deref text n.used)) && is_positive n.value

-- `strncmp(optarg, "gekkofs", strlen("gekkofs"))` and the other comparisons
unfoldable pub type_of : Bytes → Option AdhocType
unfolding starts_with
type_of optarg =
    if starts_with (codes "gekkofs") optarg
    then some gekkofs
    else if starts_with (codes "expand") optarg
    then some expand
    else if starts_with (codes "hercules") optarg
    then some hercules
    else if starts_with (codes "dataclay") optarg
    then some dataclay
    else none

-- `free(input_datasets)`, if there is one
pub data Freed : Type 0 where
  freed : Array → Freed
  twice : Freed

abbrev free : Array → Freed
free null = freed null
free (holds routes) = freed dangling
free dangling = twice

-- What the parser leaves in the two variables, and whether it succeeds.
abbrev pub read_outcome : Outcome Parsed → Array → ℕ → Datasets × Bool
read_outcome (Outcome.returns (parsed routes) n) array count =
    (record { array = holds routes; count = length routes }, true)
read_outcome _ array count = (record { array = array; count = count }, false)

unfoldable pub read_routes : Bytes → Array → ℕ → Datasets × Bool
read_routes optarg array count =
    read_outcome (parse_dataset_routes plenty (some optarg) true true) array count

abbrev ended : Bool → Options → Processed
ended success o = if success then accepted o else rejected o

-- The four cases for datasets; `put` writes the variables of one of them.
abbrev replace_after : (Datasets → Options) → Bytes → Array → ℕ → Processed
replace_after put optarg array count =
    let (read, success) = read_routes optarg array count in ended success (put read)

abbrev replace_datasets : (Datasets → Options) → Bytes → Datasets → Processed
replace_datasets put optarg d = elim (free d.array) [
  | freed array ↦ replace_after put optarg array d.count
  | twice ↦ double_free
]

-- The contexts in which the options are looked at.
abbrev pub handles : Context → Bool
handles local = true
handles allocator = true
handles remote = true
handles _ = false

module _ (strtol : Strtol) where
  -- The `switch`. There is no case for `TAG_ADHOC_OVERLAP`.
  unfoldable pub dispatch : Tag → Bytes → Options → Processed
  unfolding read_routes type_of
  dispatch nnodes optarg o =
      let n = strtol 0 optarg in ended (is_count n optarg) (record o { adhoc_nnodes = n.value })
  dispatch adhoc_type optarg o = elim (type_of optarg) [
    | some type ↦ accepted (record o { adhoc_type = type })
    | none ↦ rejected o
  ]
  dispatch adhoc_overlap optarg o = rejected o
  dispatch adhoc_exclusive optarg o = accepted (record o { adhoc_mode = in_job_dedicated })
  dispatch adhoc_dedicated optarg o = accepted (record o { adhoc_mode = separate_new })
  dispatch adhoc_remote optarg o =
      accepted
        (record o { adhoc_mode = separate_existing; adhoc_id = take (adhoc_id_len - 1) optarg })
  dispatch dataset_input optarg o = replace_datasets (λ d. record o { inputs = d }) optarg o.inputs
  dispatch dataset_output optarg o =
      replace_datasets (λ d. record o { outputs = d }) optarg o.outputs
  dispatch dataset_expected_output optarg o =
      replace_datasets (λ d. record o { expected_outputs = d }) optarg o.expected_outputs
  dispatch dataset_expected_inout optarg o =
      replace_datasets (λ d. record o { expected_inouts = d }) optarg o.expected_inouts
  dispatch qos_limit optarg o =
      let n = strtol 0 optarg in ended (is_count n optarg) (record o { limit = n.value })

  unfoldable pub process_opts : Context → Tag → Bytes → Options → Processed
  unfolding dispatch
  process_opts context tag optarg o =
      if handles context then dispatch tag optarg (record o { scord_flag = true }) else accepted o
