-- ===== src/Plugin/Options/Described.antt =====
-- What a whole command line of options leaves in the plugin, read off the command line.
use mathlib.Core.Option
use io_scheduler.Prelude.{
  ℕ, zero, suc, arith, ◌-◌, ◌≡◌, refl, ◌==◌, not, nat_key, deref, Bool, true, false, Option, none,
  some, List, [], ◌∷◌, length, has_value, ◌&&◌, if◌then◌else◌,
}
use io_scheduler.Prelude.Bytes.{codes, starts_with, take}
use io_scheduler.Prelude.Int.{ℤ, pos, negsuc, is_positive}
use io_scheduler.Types.{
  Bytes, ExecutionMode, in_job_dedicated, separate_new, separate_existing, AdhocType, gekkofs,
  expand, hercules, dataclay, DatasetRoute,
}
use io_scheduler.Utils.Routes.{Outcome, Parsed, parsed, parse_dataset_routes}
use io_scheduler.Utils.Routes.RoundTrip.{plenty}
use io_scheduler.Plugin.{Context, Strtol}
use io_scheduler.Plugin.Options.{
  Tag, nnodes, adhoc_type, adhoc_overlap, adhoc_exclusive, adhoc_dedicated, adhoc_remote,
  dataset_input, dataset_output, dataset_expected_output, dataset_expected_inout, qos_limit, Array,
  null, dangling, holds, Datasets, Options, adhoc_id_len, Processed, accepted, rejected,
  double_free, is_count, type_of, process_opts,
}

-- An option of a command line: its tag and its argument.
abbrev pub Given : Type 0
Given = Tag × Bytes

-- Slurm hands the options over one after the other, and stops at the first that is refused.
module _ (strtol : Strtol) (context : Context) where
  unfoldable pub process_all : List Given → Options → Processed
  process_all [] o = accepted o
  process_all ((tag, optarg) ∷ rest) o = elim (process_opts strtol context tag optarg o) [
    | accepted o' ↦ process_all rest o'
    | rejected o' ↦ rejected o'
    | double_free ↦ double_free
  ]

abbrev pub first_of {ℓ} : {A : Type ℓ} → Option A → Option A → Option A
first_of (some a) b = some a
first_of none b = b

-- The value of the last option that has one.
abbrev pub last? {ℓ} : {A : Type ℓ} → (Given → Option A) → List Given → Option A
last? f [] = none
last? f (g ∷ rest) = first_of (last? f rest) (f g)

abbrev pub get_or {ℓ} : {A : Type ℓ} → Option A → A → A
get_or none a = a
get_or (some b) a = b

-- The routes that an argument lists, if it is well formed.
abbrev pub parsed_routes : Outcome Parsed → Option (List DatasetRoute)
parsed_routes (Outcome.returns (parsed routes) n) = some routes
parsed_routes _ = none

abbrev pub routes_of : Bytes → Option (List DatasetRoute)
routes_of optarg = parsed_routes (parse_dataset_routes plenty (some optarg) true true)

abbrev pub datasets : List DatasetRoute → Datasets
datasets routes = record { array = holds routes; count = length routes }

abbrev pub mode_given : Given → Option ExecutionMode
mode_given (adhoc_exclusive, _) = some in_job_dedicated
mode_given (adhoc_dedicated, _) = some separate_new
mode_given (adhoc_remote, _) = some separate_existing
mode_given _ = none

abbrev pub id_given : Given → Option Bytes
id_given (adhoc_remote, optarg) = some (take (adhoc_id_len - 1) optarg)
id_given _ = none

-- The names of the storages; what follows a name does not count.
abbrev names : List (Bytes × AdhocType)
names =
    (codes "gekkofs", gekkofs)
    ∷ (codes "expand", expand)
    ∷ (codes "hercules", hercules)
    ∷ (codes "dataclay", dataclay)
    ∷ []

abbrev pub first_named : List (Bytes × AdhocType) → Bytes → Option AdhocType
first_named [] optarg = none
first_named ((name, type) ∷ rest) optarg =
    if starts_with name optarg then some type else first_named rest optarg

abbrev pub named : Bytes → Option AdhocType
named optarg = first_named names optarg

pub type_of-named : (optarg : Bytes) → type_of optarg ≡ named optarg
unfolding type_of
type_of-named optarg = refl

abbrev pub type_given : Given → Option AdhocType
type_given (adhoc_type, optarg) = named optarg
type_given _ = none

abbrev pub datasets_of : Bytes → Option Datasets
datasets_of optarg = Option.map datasets (routes_of optarg)

abbrev pub inputs_given : Given → Option Datasets
inputs_given (dataset_input, optarg) = datasets_of optarg
inputs_given _ = none

abbrev pub outputs_given : Given → Option Datasets
outputs_given (dataset_output, optarg) = datasets_of optarg
outputs_given _ = none

abbrev pub expected_outputs_given : Given → Option Datasets
expected_outputs_given (dataset_expected_output, optarg) = datasets_of optarg
expected_outputs_given _ = none

abbrev pub expected_inouts_given : Given → Option Datasets
expected_inouts_given (dataset_expected_inout, optarg) = datasets_of optarg
expected_inouts_given _ = none

-- The arrays can be freed.
abbrev pub IsLive : Array → Type 0
IsLive null = Unit
IsLive (holds routes) = Unit
IsLive dangling = ⊥

abbrev pub AllLive : Options → Type 0
AllLive o =
    IsLive o.inputs.array
    × IsLive o.outputs.array
    × IsLive o.expected_outputs.array
    × IsLive o.expected_inouts.array

abbrev pub successful : Processed → Option Options
successful (accepted o) = some o
successful _ = none

abbrev pub is_nil : List Given → Bool
is_nil [] = true
is_nil (g ∷ rest) = false

module _ (strtol : Strtol) where
  -- A positive number.
  abbrev pub above_zero : ℤ → Option ℤ
  above_zero (pos (suc n)) = some (pos (suc n))
  above_zero _ = none

  -- What `strtol` has read without an error, from at least one byte up to the end of the text.
  abbrev pub count_in : ℕ → ℕ → Option ℕ → ℤ → Option ℤ
  count_in zero (suc used) none value = above_zero value
  count_in _ _ _ _ = none

  abbrev pub count_of : Bytes → Option ℤ
  count_of optarg = let n = strtol 0 optarg in count_in n.errno n.used (deref optarg n.used) n.value

  count_in_lem :
      (errno used : ℕ) (rest : Option ℕ) (value : ℤ)
      → count_in errno used rest value ≡ (
          if errno == 0 && not (used == 0) && not (has_value rest) && is_positive value
          then some value
          else none)
  count_in_lem (suc e) used rest value = ground arith
  count_in_lem zero zero rest value = ground arith
  count_in_lem zero (suc used) (some c) value = ground arith
  count_in_lem zero (suc used) none (pos zero) = ground arith
  count_in_lem zero (suc used) none (pos (suc n)) = ground arith
  count_in_lem zero (suc used) none (negsuc n) = ground arith

  pub count_of-is_count :
      (optarg : Bytes)
      → count_of optarg
        ≡ (if is_count (strtol 0 optarg) optarg then some (strtol 0 optarg).value else none)
  count_of-is_count optarg =
      let n = strtol 0 optarg in count_in_lem n.errno n.used (deref optarg n.used) n.value

  abbrev pub nnodes_given : Given → Option ℤ
  nnodes_given (nnodes, optarg) = count_of optarg
  nnodes_given _ = none

  abbrev pub limit_given : Given → Option ℤ
  limit_given (qos_limit, optarg) = count_of optarg
  limit_given _ = none

  -- An option that the plugin takes.
  abbrev pub is_valid : Given → Bool
  is_valid (nnodes, optarg) = has_value (count_of optarg)
  is_valid (adhoc_type, optarg) = has_value (named optarg)
  is_valid (adhoc_overlap, optarg) = false
  is_valid (adhoc_exclusive, optarg) = true
  is_valid (adhoc_dedicated, optarg) = true
  is_valid (adhoc_remote, optarg) = true
  is_valid (dataset_input, optarg) = has_value (routes_of optarg)
  is_valid (dataset_output, optarg) = has_value (routes_of optarg)
  is_valid (dataset_expected_output, optarg) = has_value (routes_of optarg)
  is_valid (dataset_expected_inout, optarg) = has_value (routes_of optarg)
  is_valid (qos_limit, optarg) = has_value (count_of optarg)

  abbrev pub all_valid : List Given → Bool
  all_valid [] = true
  all_valid (g ∷ rest) = is_valid g && all_valid rest

  -- The variables after the options, each by its own last option.
  abbrev pub described : List Given → Options → Options
  described given o = record {
    scord_flag = if is_nil given then o.scord_flag else true;
    adhoc_nnodes = get_or (last? nnodes_given given) o.adhoc_nnodes;
    adhoc_mode = get_or (last? mode_given given) o.adhoc_mode;
    adhoc_type = get_or (last? type_given given) o.adhoc_type;
    adhoc_id = get_or (last? id_given given) o.adhoc_id;
    inputs = get_or (last? inputs_given given) o.inputs;
    outputs = get_or (last? outputs_given given) o.outputs;
    expected_outputs = get_or (last? expected_outputs_given given) o.expected_outputs;
    expected_inouts = get_or (last? expected_inouts_given given) o.expected_inouts;
    limit = get_or (last? limit_given given) o.limit;
  }
