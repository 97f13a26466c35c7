-- ===== src/Plugin/Options/Last.antt =====
-- What a whole command line of options leaves in the plugin: the last option of each kind decides.
use io_scheduler.Prelude.{
  ℕ, ◌≡◌, ◌≢◌, ◌⊎◌, ◌∙◌, refl, ap, true, false, Option, none, some, List, [], ◌∷◌, if◌then◌else◌,
  inl, inr, Bool-cases, Option-cases,
}
use io_scheduler.Types.{Bytes, DatasetRoute}
use io_scheduler.Utils.Routes.{Outcome, Parsed, parsed, refused, parse_dataset_routes}
use io_scheduler.Utils.Routes.RoundTrip.{plenty}
use io_scheduler.Plugin.{Context, Strtol}
use io_scheduler.Plugin.Options.{
  Tag, nnodes, adhoc_type, adhoc_overlap, adhoc_exclusive, adhoc_dedicated, adhoc_remote,
  dataset_input, dataset_output, dataset_expected_output, dataset_expected_inout, qos_limit, Array,
  null, dangling, holds, Datasets, Options, Processed, accepted, rejected, double_free, is_count,
  read_routes, read_outcome, replace_after, replace_datasets, ended, dispatch, handles,
  process_opts,
}
use io_scheduler.Plugin.Options.Described.{
  type_of-named, named, count_of-is_count, Given, process_all, first_of, last?, get_or,
  parsed_routes, routes_of, datasets, mode_given, id_given, type_given, inputs_given, outputs_given,
  expected_outputs_given, expected_inouts_given, IsLive, AllLive, successful, is_nil, nnodes_given,
  limit_given, is_valid, all_valid, described,
}

abbrev ReadCases : Outcome Parsed → Array → ℕ → Type 0
ReadCases r array count =
    ((routes : List DatasetRoute) × (parsed_routes r ≡ some routes)
      × (read_outcome r array count ≡ (datasets routes, true)))
    ⊎ ((parsed_routes r ≡ none)
        × (read_outcome r array count ≡ (record { array = array; count = count }, false)))

read_cases : (r : Outcome Parsed) (array : Array) (count : ℕ) → ReadCases r array count
read_cases (Outcome.returns (parsed routes) n) array count = inl (routes, refl, refl)
read_cases (Outcome.returns (refused code) n) array count = inr (refl, refl)
read_cases Outcome.crash array count = inr (refl, refl)
read_cases Outcome.no_end array count = inr (refl, refl)

replaced :
    (put : Datasets → Options) (optarg : Bytes) (array : Array) (count : ℕ)
    → ((routes : List DatasetRoute) × (routes_of optarg ≡ some routes)
        × (replace_after put optarg array count ≡ accepted (put (datasets routes))))
      ⊎ ((d' : Datasets) × (routes_of optarg ≡ none)
          × (replace_after put optarg array count ≡ rejected (put d')))
unfolding read_routes
replaced put optarg array count =
    let read = parse_dataset_routes plenty (some optarg) true true in
    elim (read_cases read array count) [
      | inl (routes, e, r) ↦ inl (routes, e, ap (λ r. ended r.1 (put r.0)) r)
      | inr (e, r) ↦
          inr (record { array = array; count = count }, e, ap (λ r. ended r.1 (put r.0)) r)
    ]

replace_cases :
    (put : Datasets → Options) (optarg : Bytes) (d : Datasets)
    → IsLive d.array
    → ((routes : List DatasetRoute) × (routes_of optarg ≡ some routes)
        × (replace_datasets put optarg d ≡ accepted (put (datasets routes))))
      ⊎ ((d' : Datasets) × (routes_of optarg ≡ none)
          × (replace_datasets put optarg d ≡ rejected (put d')))
unfolding read_routes
replace_cases put optarg d h =
    elim d.array
        as (λ a.
          IsLive a
          → ((routes : List DatasetRoute) × (routes_of optarg ≡ some routes)
              × (replace_datasets put optarg (record { array = a; count = d.count })
                  ≡ accepted (put (datasets routes))))
            ⊎ ((d' : Datasets) × (routes_of optarg ≡ none)
                × (replace_datasets put optarg (record { array = a; count = d.count })
                    ≡ rejected (put d')))) [
                      | null ↦ λ h. replaced put optarg null d.count
                      | holds routes ↦ λ h. replaced put optarg dangling d.count
                      | dangling ↦ λ h. elim h [ ]
                    ]
      h

get_or-get_or {ℓ} :
    {A : Type ℓ} (l b : Option A) (a : A) → get_or l (get_or b a) ≡ get_or (first_of l b) a
get_or-get_or (some c) b a = refl
get_or-get_or none b a = refl

flag_set : (rest : List Given) → (if is_nil rest then true else true) ≡ true
flag_set [] = refl
flag_set (g ∷ rest) = refl

module _ (strtol : Strtol) where
  abbrev OneOption : Processed → Given → Options → Type 0
  OneOption (accepted o') g o =
      (is_valid strtol g ≡ true) × (o' ≡ described strtol (g ∷ []) o) × AllLive o'
  OneOption (rejected o') g o = is_valid strtol g ≡ false
  OneOption double_free g o = ⊥

  dispatch_one :
      (tag : Tag) (optarg : Bytes) (o : Options)
      → AllLive o
      → OneOption (dispatch strtol tag optarg (record o { scord_flag = true })) (tag, optarg) o
  unfolding dispatch read_routes
  dispatch_one nnodes optarg o h =
      let same = count_of-is_count strtol optarg in
      elim (Bool-cases (is_count (strtol 0 optarg) optarg)) [
        | inl e ↦ rw e (rw (same, e) refl, rw (same, e) refl, h)
        | inr e ↦ rw e (rw (same, e) refl)
      ]
  dispatch_one adhoc_type optarg o h =
      let same = type_of-named optarg in
      elim (Option-cases (named optarg)) [
        | inl e ↦ rw (same, e) (rw e refl)
        | inr (type, e) ↦ rw (same, e) (rw e refl, rw e refl, h)
      ]
  dispatch_one adhoc_overlap optarg o h = refl
  dispatch_one adhoc_exclusive optarg o h = (refl, refl, h)
  dispatch_one adhoc_dedicated optarg o h = (refl, refl, h)
  dispatch_one adhoc_remote optarg o h = (refl, refl, h)
  dispatch_one dataset_input optarg o h =
      elim (replace_cases (λ d. record o { scord_flag = true; inputs = d }) optarg o.inputs h.0) [
        | inl (routes, e, r) ↦ rw r (rw e refl, rw e refl, (tt, h.1, h.2, h.3))
        | inr (d, e, r) ↦ rw r (rw e refl)
      ]
  dispatch_one dataset_output optarg o h =
      elim (replace_cases (λ d. record o { scord_flag = true; outputs = d }) optarg o.outputs h.1) [
        | inl (routes, e, r) ↦ rw r (rw e refl, rw e refl, (h.0, tt, h.2, h.3))
        | inr (d, e, r) ↦ rw r (rw e refl)
      ]
  dispatch_one dataset_expected_output optarg o h =
      elim (replace_cases (λ d. record o { scord_flag = true; expected_outputs = d }) optarg
        o.expected_outputs h.2) [
          | inl (routes, e, r) ↦ rw r (rw e refl, rw e refl, (h.0, h.1, tt, h.3))
          | inr (d, e, r) ↦ rw r (rw e refl)
        ]
  dispatch_one dataset_expected_inout optarg o h =
      elim (replace_cases (λ d. record o { scord_flag = true; expected_inouts = d }) optarg
        o.expected_inouts h.3) [
          | inl (routes, e, r) ↦ rw r (rw e refl, rw e refl, (h.0, h.1, h.2, tt))
          | inr (d, e, r) ↦ rw r (rw e refl)
        ]
  dispatch_one qos_limit optarg o h =
      let same = count_of-is_count strtol optarg in
      elim (Bool-cases (is_count (strtol 0 optarg) optarg)) [
        | inl e ↦ rw e (rw (same, e) refl, rw (same, e) refl, h)
        | inr e ↦ rw e (rw (same, e) refl)
      ]

  described_step :
      (g : Given) (rest : List Given) (o : Options)
      → described strtol rest (described strtol (g ∷ []) o) ≡ described strtol (g ∷ rest) o
  described_step g rest o = λ i. record {
    scord_flag = flag_set rest i;
    adhoc_nnodes =
        get_or-get_or (last? (nnodes_given strtol) rest) (nnodes_given strtol g) o.adhoc_nnodes i;
    adhoc_mode = get_or-get_or (last? mode_given rest) (mode_given g) o.adhoc_mode i;
    adhoc_type = get_or-get_or (last? type_given rest) (type_given g) o.adhoc_type i;
    adhoc_id = get_or-get_or (last? id_given rest) (id_given g) o.adhoc_id i;
    inputs = get_or-get_or (last? inputs_given rest) (inputs_given g) o.inputs i;
    outputs = get_or-get_or (last? outputs_given rest) (outputs_given g) o.outputs i;
    expected_outputs =
        get_or-get_or (last? expected_outputs_given rest) (expected_outputs_given g)
          o.expected_outputs i;
    expected_inouts =
        get_or-get_or (last? expected_inouts_given rest) (expected_inouts_given g) o.expected_inouts
          i;
    limit = get_or-get_or (last? (limit_given strtol) rest) (limit_given strtol g) o.limit i;
  }

  abbrev AllOptions : Processed → List Given → Options → Type 0
  AllOptions p given o =
      (successful p ≡ (if all_valid strtol given then some (described strtol given o) else none))
      × (p ≢ double_free)

  all_options :
      (p : Processed) (context : Context) (g : Given) (rest : List Given) (o : Options)
      → OneOption p g o
      → ((o' : Options) → AllLive o' → AllOptions (process_all strtol context rest o') rest o')
      → AllOptions
          (elim p [
            | accepted o' ↦ process_all strtol context rest o'
            | rejected o' ↦ rejected o'
            | double_free ↦ double_free
          ])
          (g ∷ rest)
          o
  all_options (accepted o') context g rest o (v, e, live) ih =
      let (same, free) = ih o' live in (same ∙ rw (v, e, described_step g rest o) refl, free)
  all_options (rejected o') context g rest o v ih = (rw v refl, λ e. cc)
  all_options double_free context g rest o v ih = elim v [ ]

  -- A command line of options, in the contexts in which they are options of scord, and while no array has
  -- been freed without a new one: if all its options are valid they are accepted, and each variable of the plugin
  -- has the value of the last option that gives it one, or else keeps its value; otherwise an option is
  -- refused, as `--adm-adhoc-overlap` always is. No array is freed twice.
  pub process_all_last :
      (context : Context) (given : List Given) (o : Options)
      → handles context ≡ true
      → AllLive o
      → (successful (process_all strtol context given o)
          ≡ (if all_valid strtol given then some (described strtol given o) else none))
        × (process_all strtol context given o ≢ double_free)
  unfolding process_all process_opts
  process_all_last context [] o c h = (refl, λ e. cc)
  process_all_last context ((tag, optarg) ∷ rest) o c h =
      let one = dispatch_one tag optarg o h in
      all_options (process_opts strtol context tag optarg o) context (tag, optarg) rest o (rw c one)
        (λ o' h'. process_all_last context rest o' c h')
