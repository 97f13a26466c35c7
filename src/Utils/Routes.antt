-- ===== src/Utils/Routes.antt =====
-- `scord_utils_parse_dataset_routes` of src/lib/utils.cpp, with the constructors of src/lib/types.c
-- that it calls. Memory is a parameter: `fails n` says whether the n-th allocation returns null.
-- A write or a read through a null pointer is `crash`. A C string is its bytes before the NUL.
pub mod RoundTrip
use io_scheduler.Prelude.{
  ℕ, ◌+◌, ◌≡◌, Bool, Option, none, some, List, [], ◌∷◌, ◌++◌, if◌then◌else◌, ◌&&◌, not, has_value,
}
use io_scheduler.Types.{Bytes, Dataset, DatasetRoute}
use io_scheduler.Utils.Split.{split}

-- `ADM_return_t`
pub data ReturnCode : Type 0 where
  success snafu bad_args out_of_memory entity_exists no_such_entity adhoc_busy : ReturnCode
  adhoc_type_unsupported adhoc_dir_create_failed adhoc_dir_exists : ReturnCode
  subprocess_error no_resources timeout other : ReturnCode

-- What a call does to the caller: it returns, with the number of allocations made so far, reads or
-- writes through a null pointer, or has used up the rounds of a loop.
pub data Outcome {ℓ} (A : Type ℓ) : Type ℓ where
  returns : A → ℕ → Outcome A
  crash no_end : Outcome A

infixl 5 ◌>>=◌
abbrev pub ◌>>=◌ {ℓ κ} :
    {A : Type ℓ} {B : Type κ} → (ℕ → Outcome A) → (A → ℕ → Outcome B) → ℕ → Outcome B
◌>>=◌ m f n = elim (m n) [ returns a n' ↦ f a n' | crash ↦ crash | no_end ↦ no_end ]

abbrev pub return {ℓ} : {A : Type ℓ} → A → ℕ → Outcome A
return a n = returns a n

-- What the function leaves behind its two output pointers, or the code that it returns.
pub data Parsed : Type 0 where
  parsed : List DatasetRoute → Parsed
  refused : ReturnCode → Parsed

-- `calloc` or `malloc`: whether there is an object.
abbrev pub allocate : (ℕ → Bool) → ℕ → Outcome Bool
allocate fails n = returns (not (fails n)) (n + 1)

-- The copy of the identifier is written whether or not its allocation has succeeded.
abbrev pub copy_id : (ℕ → Bool) → Bytes → ℕ → Outcome (Option Dataset)
copy_id fails id = do
  copy ← allocate fails
  if copy then return (some (record { id = id })) else λ n. crash

unfoldable pub dataset_create : (ℕ → Bool) → Bytes → ℕ → Outcome (Option Dataset)
dataset_create fails id = do
  object ← allocate fails
  if object then copy_id fails id else return none

-- `ADM_dataset_create(dataset->d_id)`
abbrev pub copy_of : (ℕ → Bool) → Option Dataset → ℕ → Outcome (Option Dataset)
copy_of fails none = λ n. crash
copy_of fails (some dataset) = dataset_create fails dataset.id

abbrev pub both : Option Dataset → Option Dataset → Option DatasetRoute
both (some s) (some t) = some (record { source = s; destination = t })
both _ t = none

-- The destination is copied only if the copy of the source has succeeded.
abbrev pub copy_both :
    (ℕ → Bool) → Option Dataset → Option Dataset → ℕ → Outcome (Option DatasetRoute)
copy_both fails source destination = do
  s ← copy_of fails source
  t ← if has_value s then copy_of fails destination else return none
  return (both s t)

unfoldable pub route_create :
    (ℕ → Bool) → Option Dataset → Option Dataset → ℕ → Outcome (Option DatasetRoute)
unfolding dataset_create
route_create fails source destination = do
  object ← allocate fails
  if object then copy_both fails source destination else return none

-- What a round of the loop does: it adds a route, or leaves the function.
pub data Round : Type 0 where
  add : DatasetRoute → Round
  leave : ReturnCode → Round

abbrev pub created : Option DatasetRoute → Round
created none = leave out_of_memory
created (some route) = add route

-- The round for a text, from its parts. The source's dataset is created first.
pub create_route : (ℕ → Bool) → Option (List Bytes) → ℕ → Outcome Round
unfolding route_create dataset_create
create_route fails none = λ n. no_end
create_route fails (some (first ∷ (second ∷ []))) = do
  source ← dataset_create fails first
  destination ← dataset_create fails second
  route ← route_create fails source destination
  return (created route)
create_route fails (some _) = return (leave bad_args)

-- The end of the function: the array for the caller.
pub hand_over : (ℕ → Bool) → List DatasetRoute → ℕ → Outcome Parsed
hand_over fails routes = do
  array ← allocate fails
  return (if array then parsed routes else refused out_of_memory)

pub parse_loop : (ℕ → Bool) → List Bytes → List DatasetRoute → ℕ → Outcome Parsed
unfolding create_route hand_over
parse_loop fails [] routes n = hand_over fails routes n
parse_loop fails (text ∷ texts) routes n = elim (create_route fails (split text b'=') n) [
  | returns (add route) n' ↦ parse_loop fails texts (routes ++ route ∷ []) n'
  | returns (leave code) n' ↦ returns (refused code) n'
  | crash ↦ crash
  | no_end ↦ no_end
]

abbrev pub parse_texts : (ℕ → Bool) → Option (List Bytes) → Outcome Parsed
parse_texts fails none = no_end
parse_texts fails (some texts) = parse_loop fails texts [] 0

-- The two flags say whether the output pointers are set.
unfoldable pub parse_dataset_routes : (ℕ → Bool) → Option Bytes → Bool → Bool → Outcome Parsed
unfolding parse_loop split
parse_dataset_routes fails none has_routes has_count = returns (refused bad_args) 0
parse_dataset_routes fails (some []) has_routes has_count = returns (refused bad_args) 0
parse_dataset_routes fails (some (c ∷ text)) has_routes has_count =
    if has_routes && has_count
    then parse_texts fails (split (c ∷ text) b';')
    else returns (refused bad_args) 0
