-- ===== src/Memory/Balance.antt =====
-- What is given back of the memory that a list of dataset routes takes.
use io_scheduler.Prelude.{
  ℕ, ◌+◌, ◌≡◌, Bool, true, false, Option, none, some, List, [], ◌∷◌, if◌then◌else◌, ◌==◌, nat_key,
  arith, refl, length,
}
use io_scheduler.Memory.{
  allocated, freed, Heap, Dataset, Route, RouteList, dataset_create, dataset_destroy, route_create,
  route_destroy, route_copy, copy_routes, route_list_create, destroy_routes, route_list_destroy,
  copy_if, destroy_if, has_id, free_if,
}

module _ (m : ℕ) where
  abbrev pub one_if : ℕ → ℕ
  one_if n = if n == m then 1 else 0

  -- How often the block was given out, and taken back.
  abbrev pub taken : Heap → ℕ
  taken [] = 0
  taken (allocated n ∷ h) = one_if n + taken h
  taken (freed n ∷ h) = taken h

  abbrev pub returned : Heap → ℕ
  returned [] = 0
  returned (allocated n ∷ h) = returned h
  returned (freed n ∷ h) = one_if n + returned h

  abbrev pub id_blocks : Option ℕ → ℕ
  id_blocks none = 0
  id_blocks (some n) = one_if n

  abbrev dataset_blocks : Option Dataset → ℕ
  dataset_blocks none = 0
  dataset_blocks (some d) = one_if d.block + id_blocks d.d_id

  abbrev blocks : List Route → ℕ
  blocks [] = 0
  blocks (r ∷ rs) = (dataset_blocks r.d_src + dataset_blocks r.d_dst) + blocks rs

  create_taken :
      (has : Bool) (h : Heap)
      → (taken (dataset_create has h).1 ≡ dataset_blocks (some (dataset_create has h).0) + taken h)
        × (returned (dataset_create has h).1 ≡ returned h)
  unfolding dataset_create
  create_taken true h = ground arith
  create_taken false h = ground arith

  copy_if-taken :
      (d : Option Dataset) (h : Heap)
      → (taken (copy_if d h).1 ≡ dataset_blocks (copy_if d h).0 + taken h)
        × (returned (copy_if d h).1 ≡ returned h)
  copy_if-taken none h = (omega arith, refl)
  copy_if-taken (some d) h = create_taken (has_id d) h

  copies_taken :
      (rs : List Route) (h : Heap)
      → (taken (copy_routes rs h).1 ≡ blocks (copy_routes rs h).0 + taken h)
        × (returned (copy_routes rs h).1 ≡ returned h)
  unfolding copy_routes route_copy
  copies_taken [] h = (omega arith, refl)
  copies_taken (r ∷ rs) h =
      let (t, q) = copy_if-taken r.d_src h in
      let h1 = (copy_if r.d_src h).1 in
      let (t1, q1) = copy_if-taken r.d_dst h1 in
      let (ts, qs) = copies_taken rs (route_copy r h).1 in
      (omega (arith, t, t1, ts), omega (arith, q, q1, qs))

  destroy_if-returned :
      (d : Option Dataset) (h : Heap)
      → (returned (destroy_if d h) ≡ dataset_blocks d + returned h)
        × (taken (destroy_if d h) ≡ taken h)
  unfolding dataset_destroy
  destroy_if-returned none h = (omega arith, refl)
  destroy_if-returned (some d) h =
      elim d.d_id
        as (λ id.
          (returned (freed d.block ∷ free_if id h) ≡ (one_if d.block + id_blocks id) + returned h)
          × (taken (free_if id h) ≡ taken h)) [
            | none ↦ (omega arith, refl)
            | some n ↦ (omega arith, refl)
          ]

  routes_returned :
      (rs : List Route) (h : Heap)
      → (returned (destroy_routes rs h) ≡ blocks rs + returned h)
        × (taken (destroy_routes rs h) ≡ taken h)
  unfolding destroy_routes route_destroy
  routes_returned [] h = (omega arith, refl)
  routes_returned (r ∷ rs) h =
      let (q, t) = destroy_if-returned r.d_src h in
      let h1 = destroy_if r.d_src h in
      let (q1, t1) = destroy_if-returned r.d_dst h1 in
      let (qs, ts) = routes_returned rs (route_destroy r h) in
      (omega (arith, q, q1, qs), omega (arith, t, t1, ts))

  abbrev list_blocks : RouteList → ℕ
  list_blocks l = (one_if l.block + one_if l.array) + blocks l.l_routes

  -- What a list takes when it is made, and gives back whenever it is destroyed.
  pub list-balanced :
      (routes : List Route) (h g : Heap)
      → (let (l, made) = route_list_create routes h in
          (taken made ≡ list_blocks l + taken h)
          × (returned made ≡ returned h)
          × (returned (route_list_destroy l g) ≡ list_blocks l + returned g)
          × (taken (route_list_destroy l g) ≡ taken g))
  unfolding route_list_create route_list_destroy
  list-balanced routes h g =
      let list_heap = allocated (length (allocated (length h) ∷ h)) ∷ allocated (length h) ∷ h in
      let (t, q) = copies_taken routes list_heap in
      let (u, v) = routes_returned (copy_routes routes list_heap).0 g in
      (omega (arith, t), q, omega (arith, u), v)

  -- A list of routes that is made and destroyed gives back each block as often as it takes it. A route
  -- that is made by itself and destroyed gives back all that it takes but its own block.
  pub route_list_create-route_list_destroy :
      (routes : List Route) (source destination : Dataset) (h : Heap)
      → (let (l, made) = route_list_create routes h in
          let after = route_list_destroy l made in
          taken after + returned h ≡ returned after + taken h)
        × (let ((block, r), made) = route_create source destination h in
            let after = route_destroy r made in
            taken after + returned h ≡ (if block == m then 1 else 0) + (returned after + taken h))
  unfolding route_list_create route_list_destroy route_create route_destroy
  route_list_create-route_list_destroy routes source destination h =
      let (t, q, u, v) = list-balanced routes h (route_list_create routes h).1 in
      let route_heap = allocated (length h) ∷ h in
      let (src, h1) = dataset_create (has_id source) route_heap in
      let (t1, q1) = create_taken (has_id source) route_heap in
      let (dst, h2) = dataset_create (has_id destination) h1 in
      let (t2, q2) = create_taken (has_id destination) h1 in
      let (u1, v1) = destroy_if-returned (some src) h2 in
      let (u2, v2) = destroy_if-returned (some dst) (destroy_if (some src) h2) in
      (omega (arith, t, q, u, v), omega (arith, t1, q1, t2, q2, u1, v1, u2, v2))
