-- ===== src/Examples/Texts.antt =====
-- The theorems on texts that users write, at concrete inputs.
use io_scheduler.Prelude.{◌≡◌, ◌≢◌, ◌↔◌, true, some, List, [], ◌∷◌, has_value}
use io_scheduler.Prelude.Bytes.{codes}
use io_scheduler.Prelude.Text.{Every}
use io_scheduler.Types.{DatasetRoute}
use io_scheduler.Utils.Routes.{parsed, parse_dataset_routes}
use io_scheduler.Utils.Routes.RoundTrip.{
  plenty, result, print_routes, IsPlain, parse_dataset_routes_iff,
}

abbrev routes : List DatasetRoute
routes =
    record { source = record { id = codes "in" }; destination = record { id = codes "tmp" } }
    ∷ record { source = record { id = codes "x" }; destination = record { id = codes "" } }
    ∷ []

parse_dataset_routes_iff_example :
    ((result (parse_dataset_routes plenty (some (codes "in=tmp;x=")) true true)
        ≡ some (parsed routes))
      ↔ ((print_routes routes ≡ codes "in=tmp;x=") × (routes ≢ []) × Every IsPlain routes))
    × (has_value (result (parse_dataset_routes plenty (some (codes "in=tmp;x=")) true true)) ≡ true)
parse_dataset_routes_iff_example = parse_dataset_routes_iff (codes "in=tmp;x=") routes
