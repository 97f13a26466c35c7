-- ===== src/Conversions/RoundTrip.antt =====
-- What is left of a value once it has been a C structure.
use mathlib.Core.List.{append_assoc}
use io_scheduler.Prelude.{
  ℕ, zero, suc, ◌≡◌, refl, ap, ◌∙◌, none, some, List, [], ◌∷◌, ◌++◌, map, length, length-append,
  deref, arith, if◌then◌else◌, leb, nat_beq_iff,
}
use io_scheduler.Prelude.Bytes.{take}
use io_scheduler.Prelude.Text.{Every, Without}
use io_scheduler.Types.{Bytes, Node, regular, AdhocStorage, PfsStorage, DatasetRoute, Job}
use io_scheduler.Conversions.{
  c_str, each_of, adhoc_node_of, adhoc_storage_of, adhoc_storage_to, pfs_storage_of, pfs_storage_to,
  job_of, job_to, node_create, route_of, dataset_create, route_create, route_copy, routes_from,
  CRoute, job_requirements_of, job_requirements_create,
}

c_str-Without : (s : Bytes) → Without 0 s → c_str s ≡ s
c_str-Without [] h = refl
c_str-Without (c ∷ s) (hc, h) = ground (arith, c_str-Without s h, nat_beq_iff c 0)

-- A node whose type is the default one.
abbrev pub as_regular : Node → Node
as_regular n = record n { type = regular }

abbrev pub HasCName : Node → Type 0
HasCName n = Without 0 n.hostname

nodes_kept :
    (ns : List Node)
    → Every HasCName ns
    → each_of adhoc_node_of (map node_create ns) ≡ some (map as_regular ns)
unfolding each_of adhoc_node_of node_create
nodes_kept [] h = refl
nodes_kept (n ∷ ns) (hn, h) = ground (arith, nodes_kept ns h, c_str-Without n.hostname hn)

-- An adhoc storage that has been a C structure is as it was, but all its nodes are regular; a PFS storage
-- and a job are as they were. The strings have no NUL.
pub storage_converted :
    (st : AdhocStorage) (pfs : PfsStorage) (job : Job)
    → Without 0 st.name
    → Without 0 st.context.controller_address
    → Without 0 st.context.data_stager_address
    → Every HasCName st.resources.nodes
    → Without 0 pfs.name
    → Without 0 pfs.context.mount_point
    → (adhoc_storage_of (adhoc_storage_to st)
        ≡ some (record st { resources = record { nodes = map as_regular st.resources.nodes } }))
      × (pfs_storage_of (pfs_storage_to pfs) ≡ some pfs)
      × (job_of (job_to job) ≡ job)
unfolding adhoc_storage_of adhoc_storage_to pfs_storage_of pfs_storage_to job_of job_to
storage_converted st pfs job n c d h pn pm = (
  ground (
    arith,
    c_str-Without st.name n,
    c_str-Without st.context.controller_address c,
    c_str-Without st.context.data_stager_address d,
    nodes_kept st.resources.nodes h,
  ),
  ground (arith, c_str-Without pfs.name pn, c_str-Without pfs.context.mount_point pm),
  refl,
)

-- The route that a client makes of two identifiers.
unfoldable pub c_route : DatasetRoute → CRoute
unfolding route_create dataset_create
c_route r =
    route_create (dataset_create (some (c_str r.source.id)))
      (dataset_create (some (c_str r.destination.id)))

abbrev pub HasCIds : DatasetRoute → Type 0
HasCIds r = Without 0 r.source.id × Without 0 r.destination.id

route_kept : (r : DatasetRoute) → HasCIds r → route_of (c_route r) ≡ some r
unfolding route_of c_route route_create dataset_create
route_kept r (s, d) = ground (arith, c_str-Without r.source.id s, c_str-Without r.destination.id d)

pub copies_kept : (rs : List DatasetRoute) → map route_copy (map c_route rs) ≡ map c_route rs
unfolding route_copy c_route route_create dataset_create
copies_kept [] = refl
copies_kept (r ∷ rs) = ap (λ cs. c_route r ∷ cs) (copies_kept rs)

deref-middle :
    (read : List DatasetRoute) (r : DatasetRoute) (rs : List DatasetRoute)
    → deref (map c_route (read ++ r ∷ rs)) (length read) ≡ some (c_route r)
unfolding deref
deref-middle [] r rs = refl
deref-middle (q ∷ read) r rs = deref-middle read r rs

deref-end : (read : List DatasetRoute) → deref (map c_route (read ++ [])) (length read) ≡ none
unfolding deref
deref-end [] = refl
deref-end (q ∷ read) = deref-end read

pub length-map {ℓ κ} :
    {A : Type ℓ} {B : Type κ} (f : A → B) (xs : List A) → length (map f xs) ≡ length xs
length-map f [] = refl
length-map f (x ∷ xs) = ap suc (length-map f xs)

-- The loop over an array, from a place in it: the routes there, if the array has as many.
pub routes_from_lem :
    (read rs : List DatasetRoute) (rounds : ℕ)
    → Every HasCIds rs
    → routes_from (map c_route (read ++ rs)) (length read) rounds
      ≡ (if leb rounds (length rs) then some (take rounds rs) else none)
unfolding routes_from
routes_from_lem read rs zero h = ground arith
routes_from_lem read [] (suc rounds) h = ground (arith, deref-end read)
routes_from_lem read (r ∷ rs) (suc rounds) (hr, h) =
    let same = append_assoc read (r ∷ []) rs in
    let moved : length (read ++ r ∷ []) ≡ suc (length read) =
      omega (arith, length-append read (r ∷ [])) in
    let later : routes_from (map c_route (read ++ r ∷ rs)) (suc (length read)) rounds
        ≡ (if leb rounds (length rs) then some (take rounds rs) else none) =
      rw (← same, ← moved) (routes_from_lem (read ++ r ∷ []) rs rounds h) in
    ground (arith, deref-middle read r rs, route_kept r hr, later)

take_all {ℓ} : {A : Type ℓ} (xs : List A) → take (length xs) xs ≡ xs
take_all [] = refl
take_all (x ∷ xs) = ap (λ r. x ∷ r) (take_all xs)

pub routes_kept :
    (rs : List DatasetRoute)
    → Every HasCIds rs
    → routes_from (map c_route rs) 0 (length (map c_route rs)) ≡ some rs
routes_kept rs h =
    rw (length-map c_route rs) (routes_from_lem [] rs (length rs) h ∙ ground (arith, take_all rs))

-- The requirements that a client builds from lists of routes with no NUL in their identifiers and no
-- adhoc storage: if there are at most as many outputs as inputs, the job requires the inputs and the
-- expected outputs as given, but for outputs that many of the first inputs; if there are more, the
-- conversion reads past the end of the array of inputs.
pub job_requirements_outputs :
    (inputs outputs expected : List DatasetRoute)
    → Every HasCIds inputs
    → Every HasCIds expected
    → job_requirements_of (
        job_requirements_create
          (map c_route inputs)
          (map c_route outputs)
          (map c_route expected)
          none)
      ≡ (if leb (length outputs) (length inputs)
          then some (record {
            inputs = inputs;
            outputs = take (length outputs) inputs;
            expected_outputs = expected;
            adhoc_storage = none;
          })
          else none)
unfolding job_requirements_of job_requirements_create
job_requirements_outputs inputs outputs expected hi he =
    let read = routes_from_lem [] inputs (length (map c_route outputs)) hi in
    rw (copies_kept inputs, copies_kept outputs, copies_kept expected)
      (ground
        (arith, routes_kept inputs hi, routes_kept expected he, read, length-map c_route outputs))
