-- ===== src/Memory/Requirements.antt =====
-- The memory of job requirements, of src/lib/types.c: three lists of routes and an adhoc storage.
use io_scheduler.Prelude.{ℕ, ◌+◌, ◌≡◌, Option, none, some, List, ◌∷◌, arith, refl, length}
use io_scheduler.Memory.{
  Heap, allocated, allocate, free, Route, RouteList, route_list_create, route_list_destroy,
}
use io_scheduler.Memory.Balance.{taken, returned, list-balanced}

-- The blocks of `struct adm_adhoc_storage`; the addresses of its context and its resources stay with
-- the storage that it copies.
pub record Storage : Type 0 where
  pub block : ℕ
  pub s_name : ℕ
  pub s_adhoc_ctx : ℕ

-- `ADM_adhoc_storage_create`, with a name and a context given
abbrev pub adhoc_storage_create : Heap → Storage × Heap
adhoc_storage_create h =
    let (block, h) = allocate h in
    let (name, h) = allocate h in
    let (ctx, h) = allocate h in (record { block = block; s_name = name; s_adhoc_ctx = ctx }, h)

-- `ADM_adhoc_storage_destroy`
abbrev pub adhoc_storage_destroy : Storage → Heap → Heap
adhoc_storage_destroy st h = free st.block (free st.s_adhoc_ctx (free st.s_name h))

-- `struct adm_job_requirements`
pub record Requirements : Type 0 where
  pub block : ℕ
  pub r_inputs : RouteList
  pub r_outputs : RouteList
  pub r_expected_outputs : RouteList
  pub r_adhoc_storage : Option Storage

abbrev storage_if : Option Storage → Heap → Option Storage × Heap
storage_if none h = (none, h)
storage_if (some given) h = let (copy, h) = adhoc_storage_create h in (some copy, h)

abbrev destroy_storage_if : Option Storage → Heap → Heap
destroy_storage_if none h = h
destroy_storage_if (some st) h = adhoc_storage_destroy st h

-- `ADM_job_requirements_create`
unfoldable pub job_requirements_create :
    List Route → List Route → List Route → Option Storage → Heap → Requirements × Heap
job_requirements_create inputs outputs expected storage h =
    let (block, h) = allocate h in
    let (i, h) = route_list_create inputs h in
    let (o, h) = route_list_create outputs h in
    let (e, h) = route_list_create expected h in
    let (st, h) = storage_if storage h in
    (
      record {
        block = block;
        r_inputs = i;
        r_outputs = o;
        r_expected_outputs = e;
        r_adhoc_storage = st;
      },
      h,
    )

-- `ADM_job_requirements_destroy`
unfoldable pub job_requirements_destroy : Requirements → Heap → Heap
job_requirements_destroy reqs h =
    let h = route_list_destroy reqs.r_inputs h in
    let h = route_list_destroy reqs.r_outputs h in
    let h = route_list_destroy reqs.r_expected_outputs h in
    free reqs.block (destroy_storage_if reqs.r_adhoc_storage h)

storage-balanced :
    (m : ℕ) (st : Option Storage) (h g : Heap)
    → (taken m (destroy_storage_if (storage_if st h).0 g) ≡ taken m g)
      × (taken m (storage_if st h).1 + returned m g
          ≡ taken m h + returned m (destroy_storage_if (storage_if st h).0 g))
      × (returned m (storage_if st h).1 ≡ returned m h)
storage-balanced m none h g = (refl, refl, refl)
storage-balanced m (some st) h g = (refl, omega arith, refl)

-- Job requirements that are made and destroyed give back each block as often as they take it: no block
-- of theirs is left, and none is freed twice.
pub job_requirements_create-job_requirements_destroy :
    (m : ℕ) (inputs outputs expected : List Route) (storage : Option Storage) (h : Heap)
    → (let (reqs, made) = job_requirements_create inputs outputs expected storage h in
        let after = job_requirements_destroy reqs made in
        taken m after + returned m h ≡ returned m after + taken m h)
unfolding job_requirements_create job_requirements_destroy
job_requirements_create-job_requirements_destroy m inputs outputs expected storage h =
    let h0 = allocated (length h) ∷ h in
    let (i, h1) = route_list_create inputs h0 in
    let (o, h2) = route_list_create outputs h1 in
    let (e, h3) = route_list_create expected h2 in
    let (st, h4) = storage_if storage h3 in
    let g1 = route_list_destroy i h4 in
    let g2 = route_list_destroy o g1 in
    let g3 = route_list_destroy e g2 in
    let (a, b, c, d) = list-balanced m inputs h0 h4 in
    let (a1, b1, c1, d1) = list-balanced m outputs h1 g1 in
    let (a2, b2, c2, d2) = list-balanced m expected h2 g2 in
    let (a3, b3, c3) = storage-balanced m storage h3 g3 in
    omega (arith, a, b, c, d, a1, b1, c1, d1, a2, b2, c2, d2, a3, b3, c3)
