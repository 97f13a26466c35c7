-- ===== src/Memory/Structures/Limits.antt =====
-- The memory of limits on quality of service and of lists of them, of src/lib/types.c. The elements of a list
-- share the entities of the limits that they are copied from.
use io_scheduler.Prelude.{
  ℕ, zero, suc, ◌+◌, ◌≡◌, Option, none, some, List, [], ◌∷◌, map, arith, refl,
}
use io_scheduler.Memory.{Heap, allocate, free}
use io_scheduler.Memory.Balance.{one_if, id_blocks, taken, returned}

-- `struct adm_qos_limit`, with the block of its entity
pub record Limit : Type 0 where
  pub block : ℕ
  pub l_entity : Option ℕ

abbrev pub qos_entity_create : Heap → ℕ × Heap
qos_entity_create h = allocate h

abbrev pub qos_entity_destroy : ℕ → Heap → Heap
qos_entity_destroy entity h = free entity h

abbrev pub qos_limit_create : Option ℕ → Heap → Limit × Heap
qos_limit_create entity h =
    let (block, h) = allocate h in (record { block = block; l_entity = entity }, h)

abbrev pub qos_limit_destroy : Limit → Heap → Heap
qos_limit_destroy limit h = free limit.block h

abbrev destroy_entity : Option ℕ → Heap → Heap
destroy_entity none h = h
destroy_entity (some entity) h = qos_entity_destroy entity h

abbrev pub qos_limit_destroy_all : Limit → Heap → Heap
qos_limit_destroy_all limit h = free limit.block (destroy_entity limit.l_entity h)

-- `struct adm_qos_limit_list`: the entities of its elements
pub record LimitList : Type 0 where
  pub block : ℕ
  pub array : ℕ
  pub entities : List (Option ℕ)

unfoldable pub qos_limit_list_create : List Limit → Heap → LimitList × Heap
qos_limit_list_create limits h =
    let (block, h) = allocate h in
    let (array, h) = allocate h in
    (record { block = block; array = array; entities = map (λ (l : Limit). l.l_entity) limits }, h)

unfoldable pub destroy_entities : List (Option ℕ) → Heap → Heap
destroy_entities [] h = h
destroy_entities (entity ∷ entities) h = destroy_entities entities (destroy_entity entity h)

unfoldable pub qos_limit_list_destroy : LimitList → Heap → Heap
unfolding destroy_entities
qos_limit_list_destroy l h = free l.block (free l.array (destroy_entities l.entities h))

-- A client's limits, each with an entity of its own.
unfoldable pub make_limits : ℕ → Heap → List Limit × Heap
make_limits zero h = ([], h)
make_limits (suc n) h =
    let (entity, h) = qos_entity_create h in
    let (limit, h) = qos_limit_create (some entity) h in
    let (limits, h) = make_limits n h in (limit ∷ limits, h)

-- The limits are destroyed one by one.
unfoldable pub destroy_each : (Limit → Heap → Heap) → List Limit → Heap → Heap
destroy_each destroy [] h = h
destroy_each destroy (limit ∷ limits) h = destroy_each destroy limits (destroy limit h)

module _ (m : ℕ) where
  abbrev pub entity_blocks : List Limit → ℕ
  entity_blocks [] = 0
  entity_blocks (l ∷ ls) = id_blocks m l.l_entity + entity_blocks ls

  abbrev limit_blocks : List Limit → ℕ
  limit_blocks [] = 0
  limit_blocks (l ∷ ls) = one_if m l.block + limit_blocks ls

  limits_taken :
      (n : ℕ) (h : Heap)
      → (let (ls, made) = make_limits n h in
          (taken m made ≡ (limit_blocks ls + entity_blocks ls) + taken m h)
          × (returned m made ≡ returned m h))
  unfolding make_limits
  limits_taken zero h = (omega arith, refl)
  limits_taken (suc n) h =
      let h1 = (qos_entity_create h).1 in
      let h2 = (qos_limit_create none h1).1 in
      let (t, q) = limits_taken n h2 in (omega (arith, t), omega (arith, q))

  entity_returned :
      (entity : Option ℕ) (h : Heap)
      → (returned m (destroy_entity entity h) ≡ id_blocks m entity + returned m h)
        × (taken m (destroy_entity entity h) ≡ taken m h)
  entity_returned none h = (omega arith, refl)
  entity_returned (some entity) h = (refl, refl)

  entities_returned :
      (ls : List Limit) (h : Heap)
      → (let after = destroy_entities (map (λ (l : Limit). l.l_entity) ls) h in
          (returned m after ≡ entity_blocks ls + returned m h) × (taken m after ≡ taken m h))
  unfolding destroy_entities
  entities_returned [] h = (omega arith, refl)
  entities_returned (l ∷ ls) h =
      let (q, t) = entity_returned l.l_entity h in
      let (qs, ts) = entities_returned ls (destroy_entity l.l_entity h) in
      (omega (arith, q, qs), omega (arith, t, ts))

  each_returned :
      (ls : List Limit) (h : Heap)
      → (let after = destroy_each qos_limit_destroy ls h in
          (returned m after ≡ limit_blocks ls + returned m h) × (taken m after ≡ taken m h))
  unfolding destroy_each
  each_returned [] h = (omega arith, refl)
  each_returned (l ∷ ls) h =
      let (q, t) = each_returned ls (qos_limit_destroy l h) in (omega (arith, q), omega (arith, t))

  all_returned :
      (ls : List Limit) (h : Heap)
      → (let after = destroy_each qos_limit_destroy_all ls h in
          (returned m after ≡ (limit_blocks ls + entity_blocks ls) + returned m h)
          × (taken m after ≡ taken m h))
  unfolding destroy_each
  all_returned [] h = (omega arith, refl)
  all_returned (l ∷ ls) h =
      let (q, t) = entity_returned l.l_entity h in
      let (qs, ts) = all_returned ls (qos_limit_destroy_all l h) in
      (omega (arith, q, qs), omega (arith, t, ts))

  -- A client that makes limits with entities and a list of them, and destroys the list: if it then destroys its
  -- limits with `ADM_qos_limit_destroy`, each block is given back as often as it is taken; with
  -- `ADM_qos_limit_destroy_all`, each entity is given back once more.
  pub qos_limit_list_destroy_shares :
      (n : ℕ) (h : Heap)
      → (let (limits, h1) = make_limits n h in
          let (list, h2) = qos_limit_list_create limits h1 in
          let left = qos_limit_list_destroy list h2 in
          let once = destroy_each qos_limit_destroy limits left in
          let twice = destroy_each qos_limit_destroy_all limits left in
          (taken m once + returned m h ≡ returned m once + taken m h)
          × ((taken m twice + returned m h) + entity_blocks limits ≡ returned m twice + taken m h))
  unfolding qos_limit_list_create qos_limit_list_destroy
  qos_limit_list_destroy_shares n h =
      let (limits, h1) = make_limits n h in
      let (list, h2) = qos_limit_list_create limits h1 in
      let left = qos_limit_list_destroy list h2 in
      let (t, q) = limits_taken n h in
      let (t1, q1) = entities_returned limits h2 in
      let (u, v) = each_returned limits left in
      let (u1, v1) = all_returned limits left in
      (omega (arith, t, q, t1, q1, u, v), omega (arith, t, q, t1, q1, u1, v1))
