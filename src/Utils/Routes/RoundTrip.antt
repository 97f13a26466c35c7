-- ===== src/Utils/Routes/RoundTrip.antt =====
-- What `scord_utils_parse_dataset_routes` reads, while no allocation fails: exactly the texts that
-- print lists of routes.
use mathlib.Core.Path.{ap, subst}
use mathlib.Core.List.{append_assoc, append-nil}
use io_scheduler.Prelude.{
  ℕ, ◌+◌, ◌≡◌, ◌≢◌, ◌↔◌, refl, sym, ◌∙◌, Bool, true, false, Option, none, some, List, [], ◌∷◌, ◌++◌,
  map, arith, Option-cases, has_value, inl, inr,
}
use io_scheduler.Prelude.Text.{
  Every, Every-append, Without, pieces, pieces_first, join, pieces-join, join-pieces, pieces-Every,
  pieces-append, pieces_one, Every-of_append,
}
use io_scheduler.Types.{Bytes, DatasetRoute}
use io_scheduler.Utils.Split.{split-eq-pieces}
use io_scheduler.Utils.Routes.{
  Outcome, Parsed, parsed, refused, bad_args, Round, add, leave, Outcome, returns, crash, no_end,
  create_route, parse_loop, parse_dataset_routes,
}

-- Every allocation succeeds.
abbrev pub plenty : ℕ → Bool
plenty n = false

abbrev pub result : Outcome Parsed → Option Parsed
result (returns p n) = some p
result crash = none
result no_end = none

-- A route, and routes, the way that a user writes them.
abbrev pub print_route : DatasetRoute → Bytes
print_route r = r.source.id ++ b'=' ∷ r.destination.id

abbrev pub print_routes : List DatasetRoute → Bytes
print_routes routes = join b';' (map print_route routes)

-- The identifiers have none of the two separators.
abbrev pub IsPlain : DatasetRoute → Type 0
IsPlain r =
    Without b'=' r.source.id
    × Without b';' r.source.id
    × Without b'=' r.destination.id
    × Without b';' r.destination.id

-- What is read from the pieces of one text, and from all.
read_route : List Bytes → Option DatasetRoute
read_route (first ∷ (second ∷ [])) =
    some (record { source = record { id = first }; destination = record { id = second } })
read_route _ = none

read_routes : List Bytes → Option (List DatasetRoute)
unfolding read_route
read_routes [] = some []
read_routes (text ∷ texts) = elim (read_route (pieces b'=' text)) [
  | none ↦ none
  | some route ↦ elim (read_routes texts) [ none ↦ none | some routes ↦ some (route ∷ routes) ]
]

abbrev verdict : List DatasetRoute → Option (List DatasetRoute) → Parsed
verdict before none = refused bad_args
verdict before (some routes) = parsed (before ++ routes)

round_of : Option DatasetRoute → Round
round_of none = leave bad_args
round_of (some route) = add route

-- A text that is read takes nine allocations.
create_route_lem :
    (ps : List Bytes) (n : ℕ)
    → (n' : ℕ) × (create_route plenty (some ps) n ≡ returns (round_of (read_route ps)) n')
unfolding create_route read_route round_of
create_route_lem [] n = (n, refl)
create_route_lem (p ∷ []) n = (n, refl)
create_route_lem (p ∷ (q ∷ [])) n = (n + 1 + 1 + 1 + 1 + 1 + 1 + 1 + 1 + 1, refl)
create_route_lem (p ∷ (q ∷ (r ∷ ps))) n = (n, refl)

parse_loop_lem :
    (texts : List Bytes) (before : List DatasetRoute) (n : ℕ)
    → result (parse_loop plenty texts before n) ≡ some (verdict before (read_routes texts))
unfolding parse_loop read_routes round_of
parse_loop_lem [] before n = ap (λ r. some (parsed r)) (sym (append-nil before))
parse_loop_lem (text ∷ texts) before n =
    let (n', e) = create_route_lem (pieces b'=' text) n in
    let parts = split-eq-pieces text b'=' in
    elim (Option-cases (read_route (pieces b'=' text))) [
      | inl unread ↦ ground (arith, parts, e, unread)
      | inr (route, read) ↦
          (let rest = parse_loop_lem texts (before ++ route ∷ []) n' in
            elim (Option-cases (read_routes texts)) [
              | inl unread ↦ ground (arith, parts, e, read, rest, unread)
              | inr (routes, all) ↦
                  ground (arith, parts, e, read, rest, all, append_assoc before (route ∷ []) routes)
            ])
    ]

read_routes-print :
    (routes : List DatasetRoute)
    → Every IsPlain routes
    → read_routes (map print_route routes) ≡ some routes
unfolding read_routes
read_routes-print [] h = refl
read_routes-print (r ∷ routes) ((s, _, d, _), h) =
    let first = pieces-append b'=' r.source.id r.destination.id s in
    let last = pieces_one b'=' r.destination.id d in
    ground (arith, first, last, read_routes-print routes h)

-- What was read from a text with no semicolon is a plain route, and prints as the text.
print_route-read :
    (ps : List Bytes) (text : Bytes) (route : DatasetRoute)
    → join b'=' ps ≡ text
    → Every (Without b'=') ps
    → Without b';' text
    → read_route ps ≡ some route
    → (print_route route ≡ text) × IsPlain route
unfolding read_route join
print_route-read [] text route e h k read = absurd (cc read)
print_route-read (p ∷ []) text route e h k read = absurd (cc read)
print_route-read (p ∷ (q ∷ [])) text route e (hp, (hq, _)) k read =
    let plain = Every-of_append (λ d. d ≢ b';') p (b'=' ∷ q) (subst (Without b';') (sym e) k) in
    let built : DatasetRoute = record {
      source = record { id = p };
      destination = record { id = q };
    } in
    let same : built ≡ route = cc in
    subst (λ r. (print_route r ≡ text) × IsPlain r) same (e, (hp, plain.0, hq, plain.1.1))
print_route-read (p ∷ (q ∷ (r ∷ ps))) text route e h k read = absurd (cc read)

print_routes-read :
    (texts : List Bytes) (routes : List DatasetRoute)
    → Every (Without b';') texts
    → read_routes texts ≡ some routes
    → (map print_route routes ≡ texts) × Every IsPlain routes
unfolding read_routes
print_routes-read [] [] h read = (refl, tt)
print_routes-read [] (route ∷ routes) h read = absurd (cc read)
print_routes-read (text ∷ texts) routes (h, hs) read =
    elim (Option-cases (read_route (pieces b'=' text))) [
      | inl unread ↦ absurd (ground (arith, unread))
      | inr (first, one) ↦ elim (Option-cases (read_routes texts)) [
        | inl unread ↦ absurd (ground (arith, one, unread))
        | inr (rest, all) ↦
            (let same : first ∷ rest ≡ routes = ground (arith, one, all) in
              let (printed, plain) =
                print_route-read (pieces b'=' text) text first (join-pieces b'=' text)
                  (pieces-Every b'=' text) h one in
              let (others, plain') = print_routes-read texts rest hs all in
              subst (λ rs. (map print_route rs ≡ text ∷ texts) × Every IsPlain rs) same
                (cc, (plain, plain')))
      ]
    ]

verdict_of_text :
    (c : ℕ) (s : Bytes)
    → result (parse_dataset_routes plenty (some (c ∷ s)) true true)
      ≡ some (verdict [] (read_routes (pieces b';' (c ∷ s))))
unfolding parse_dataset_routes
verdict_of_text c s = rw (split-eq-pieces (c ∷ s) b';') (parse_loop_lem (pieces b';' (c ∷ s)) [] 0)

append_cons-ne-nil : (s : Bytes) (c : ℕ) (t : Bytes) → s ++ c ∷ t ≢ []
append_cons-ne-nil [] c t e = cc
append_cons-ne-nil (d ∷ s) c t e = cc

-- No list of routes is printed as the empty text.
print_routes-ne-nil : (routes : List DatasetRoute) → routes ≢ [] → print_routes routes ≢ []
unfolding join
print_routes-ne-nil [] h e = h refl
print_routes-ne-nil (r ∷ []) h e = append_cons-ne-nil r.source.id _ _ e
print_routes-ne-nil (r ∷ (q ∷ routes)) h e = append_cons-ne-nil (print_route r) _ _ e

verdict-eq-parsed :
    (o : Option (List DatasetRoute)) (routes : List DatasetRoute)
    → (verdict [] o ≡ parsed routes) ↔ (o ≡ some routes)
verdict-eq-parsed none routes = (λ e. absurd (cc e), λ e. absurd (cc e))
verdict-eq-parsed (some others) routes = (λ e. cc, λ e. cc)

read_routes_iff :
    (text : Bytes) (routes : List DatasetRoute)
    → (read_routes (pieces b';' text) ≡ some routes)
      ↔ ((map print_route routes ≡ pieces b';' text) × Every IsPlain routes)
read_routes_iff text routes = (
  print_routes-read (pieces b';' text) routes (pieces-Every b';' text),
  λ h. rw (← h.0) (read_routes-print routes h.1),
)

print_route-Without : (r : DatasetRoute) → IsPlain r → Without b';' (print_route r)
print_route-Without r (_, s, _, d) =
    Every-append (λ c. c ≢ b';') r.source.id (b'=' ∷ r.destination.id) s (omega arith, d)

print_routes-Without :
    (routes : List DatasetRoute)
    → Every IsPlain routes
    → Every (Without b';') (map print_route routes)
print_routes-Without [] h = tt
print_routes-Without (r ∷ routes) (plain, h) =
    (print_route-Without r plain, print_routes-Without routes h)

ne_nil_of_pieces :
    (routes : List DatasetRoute) (text : Bytes)
    → map print_route routes ≡ pieces b';' text
    → routes ≢ []
ne_nil_of_pieces routes text printed e =
    let (p, ps, first) = pieces_first b';' text in
    let nothing : map print_route routes ≡ [] = ap (map print_route) e in cc

printed_of :
    (routes : List DatasetRoute) (text : Bytes)
    → (print_routes routes ≡ text) × (routes ≢ []) × Every IsPlain routes
    → map print_route routes ≡ pieces b';' text
printed_of [] text (e, ne, plain) = absurd (ne refl)
printed_of (r ∷ routes) text (e, ne, plain) = rw (← e) (
    sym (
      pieces-join b';' (map print_route (r ∷ routes)) (cc)
        (print_routes-Without (r ∷ routes) plain)))

-- While no allocation fails and both output pointers are set, a text is read as a list of routes if and
-- only if the list is not empty, has no identifier with `=` or `;`, and prints as the text; on every
-- text the function returns.
pub parse_dataset_routes_iff :
    (text : Bytes) (routes : List DatasetRoute)
    → ((result (parse_dataset_routes plenty (some text) true true) ≡ some (parsed routes))
        ↔ ((print_routes routes ≡ text) × (routes ≢ []) × Every IsPlain routes))
      × (has_value (result (parse_dataset_routes plenty (some text) true true)) ≡ true)
parse_dataset_routes_iff [] routes =
    unfold parse_dataset_routes in
    ((λ e. absurd (cc e), λ h. absurd (print_routes-ne-nil routes h.1 h.0)), refl)
parse_dataset_routes_iff (c ∷ s) routes =
    let read = verdict_of_text c s in
    let all = read_routes_iff (c ∷ s) routes in
    let parsed_iff = verdict-eq-parsed (read_routes (pieces b';' (c ∷ s))) routes in
    (
      (
        λ e.
            let (printed, plain) = all.0 (parsed_iff.0 (cc)) in
            (
              ap (join b';') printed ∙ join-pieces b';' (c ∷ s),
              ne_nil_of_pieces routes (c ∷ s) printed,
              plain,
            ),
        λ h. read ∙ ap some (parsed_iff.1 (all.1 (printed_of routes (c ∷ s) h, h.2))),
      ),
      rw read refl,
    )
