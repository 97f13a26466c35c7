-- ===== src/Memory.antt =====
-- The memory that the lists of dataset routes of src/lib/types.c take and give back. A heap is the
-- requests so far, the last one first, and a block is named by the number of requests before it. Of a
-- structure only the blocks that its pointers lead to are kept. No allocation fails here.
pub mod Balance
pub mod Requirements
pub mod Structures
use io_scheduler.Prelude.{
  ℕ, zero, suc, Bool, Option, none, some, List, [], ◌∷◌, length, true, false,
}

pub data Request : Type 0 where
  allocated freed : ℕ → Request

abbrev pub Heap : Type 0
Heap = List Request

-- `malloc` and `calloc`
abbrev pub allocate : Heap → ℕ × Heap
allocate h = (length h, allocated (length h) ∷ h)

abbrev pub free : ℕ → Heap → Heap
free block h = freed block ∷ h

-- `struct adm_dataset` and the pointers of `struct adm_dataset_route`
pub record Dataset : Type 0 where
  pub block : ℕ
  pub d_id : Option ℕ

pub record Route : Type 0 where
  pub d_src : Option Dataset
  pub d_dst : Option Dataset

abbrev is_some : Option ℕ → Bool
is_some none = false
is_some (some block) = true

abbrev pub has_id : Dataset → Bool
has_id d = is_some d.d_id

-- `ADM_dataset_create`, given whether there is an identifier
unfoldable pub dataset_create : Bool → Heap → Dataset × Heap
dataset_create true h =
    let (block, h) = allocate h in
    let (id, h) = allocate h in (record { block = block; d_id = some id }, h)
dataset_create false h = let (block, h) = allocate h in (record { block = block; d_id = none }, h)

abbrev pub free_if : Option ℕ → Heap → Heap
free_if none h = h
free_if (some block) h = free block h

unfoldable pub dataset_destroy : Dataset → Heap → Heap
dataset_destroy d h = free d.block (free_if d.d_id h)

-- `ADM_dataset_route_create`: the block of the route itself, and the route
unfoldable pub route_create : Dataset → Dataset → Heap → (ℕ × Route) × Heap
unfolding dataset_create
route_create source destination h =
    let (block, h) = allocate h in
    let (src, h) = dataset_create (has_id source) h in
    let (dst, h) = dataset_create (has_id destination) h in
    ((block, record { d_src = some src; d_dst = some dst }), h)

abbrev destroy_if : Option Dataset → Heap → Heap
destroy_if none h = h
destroy_if (some d) h = dataset_destroy d h

-- `ADM_dataset_route_destroy`
unfoldable pub route_destroy : Route → Heap → Heap
unfolding dataset_destroy
route_destroy r h = destroy_if r.d_dst (destroy_if r.d_src h)

abbrev copy_if : Option Dataset → Heap → Option Dataset × Heap
copy_if none h = (none, h)
copy_if (some d) h = let (copy, h) = dataset_create (has_id d) h in (some copy, h)

-- `ADM_dataset_route_copy` into an element of an array
unfoldable pub route_copy : Route → Heap → Route × Heap
unfolding dataset_create
route_copy r h =
    let (src, h) = copy_if r.d_src h in
    let (dst, h) = copy_if r.d_dst h in (record { d_src = src; d_dst = dst }, h)

-- `struct adm_dataset_route_list`
pub record RouteList : Type 0 where
  pub block : ℕ
  pub array : ℕ
  pub l_routes : List Route

unfoldable pub copy_routes : List Route → Heap → List Route × Heap
unfolding route_copy
copy_routes [] h = ([], h)
copy_routes (r ∷ rs) h =
    let (copy, h) = route_copy r h in let (copies, h) = copy_routes rs h in (copy ∷ copies, h)

-- `ADM_dataset_route_list_create`
unfoldable pub route_list_create : List Route → Heap → RouteList × Heap
unfolding copy_routes
route_list_create routes h =
    let (block, h) = allocate h in
    let (array, h) = allocate h in
    let (copies, h) = copy_routes routes h in
    (record { block = block; array = array; l_routes = copies }, h)

unfoldable pub destroy_routes : List Route → Heap → Heap
unfolding route_destroy
destroy_routes [] h = h
destroy_routes (r ∷ rs) h = destroy_routes rs (route_destroy r h)

-- `ADM_dataset_route_list_destroy`
unfoldable pub route_list_destroy : RouteList → Heap → Heap
unfolding destroy_routes
route_list_destroy l h = free l.block (free l.array (destroy_routes l.l_routes h))
