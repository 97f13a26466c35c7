-- ===== src/Memory/Structures/Balance.antt =====
-- What is given back of the memory of these structures.
use io_scheduler.Prelude.{
  ℕ, ◌+◌, ◌≡◌, Bool, true, false, Option, none, some, List, [], ◌∷◌, if◌then◌else◌, nat_key, ◌&&◌,
  arith, refl, length,
}
use io_scheduler.Memory.{Heap, allocated, free_if}
use io_scheduler.Memory.Balance.{one_if, taken, returned, id_blocks}
use io_scheduler.Memory.Structures.{
  text_copy, copy_texts, free_texts, list_create, list_destroy, resources_create, resources_destroy,
  adhoc_context_create, adhoc_context_destroy, pfs_context_create, pfs_context_destroy,
  pfs_storage_create, pfs_storage_destroy,
}

module _ (m : ℕ) where
  abbrev text_blocks : List (Option ℕ) → ℕ
  text_blocks [] = 0
  text_blocks (text ∷ texts) = id_blocks m text + text_blocks texts

  text_taken :
      (text : Option ℕ) (h : Heap)
      → (taken m (text_copy text h).1 ≡ id_blocks m (text_copy text h).0 + taken m h)
        × (returned m (text_copy text h).1 ≡ returned m h)
  text_taken none h = (omega arith, refl)
  text_taken (some text) h = (refl, refl)

  texts_taken :
      (texts : List (Option ℕ)) (h : Heap)
      → (taken m (copy_texts texts h).1 ≡ text_blocks (copy_texts texts h).0 + taken m h)
        × (returned m (copy_texts texts h).1 ≡ returned m h)
  unfolding copy_texts
  texts_taken [] h = (omega arith, refl)
  texts_taken (text ∷ texts) h =
      let (t, q) = text_taken text h in
      let (ts, qs) = texts_taken texts (text_copy text h).1 in
      (omega (arith, t, ts), omega (arith, q, qs))

  text_returned :
      (text : Option ℕ) (h : Heap)
      → (returned m (free_if text h) ≡ id_blocks m text + returned m h)
        × (taken m (free_if text h) ≡ taken m h)
  text_returned none h = (omega arith, refl)
  text_returned (some text) h = (refl, refl)

  texts_returned :
      (texts : List (Option ℕ)) (h : Heap)
      → (returned m (free_texts texts h) ≡ text_blocks texts + returned m h)
        × (taken m (free_texts texts h) ≡ taken m h)
  unfolding free_texts
  texts_returned [] h = (omega arith, refl)
  texts_returned (text ∷ texts) h =
      let (q, t) = text_returned text h in
      let (qs, ts) = texts_returned texts (free_if text h) in
      (omega (arith, q, qs), omega (arith, t, ts))

  storage_balanced :
      (name context : Bool) (h : Heap)
      → (let (st, made) = pfs_storage_create name context h in
          let after = pfs_storage_destroy st made in
          taken m after + returned m h
          ≡ (if name && context then 0 else one_if m (length h)) + (returned m after + taken m h))
  storage_balanced true true h = omega arith
  storage_balanced true false h = omega arith
  storage_balanced false context h = omega arith

  -- Resources of nodes that are made and destroyed give back each block as often as they take it. Of an adhoc
  -- context the two addresses stay behind, and of a PFS context the mount point. A PFS storage
  -- gives back all it takes, but without a name or a context, where none is made, a block stays.
  pub resources_create-resources_destroy :
      (nodes : List (Option ℕ)) (name context : Bool) (h : Heap)
      → (let (res, made) = resources_create nodes h in
          let after = resources_destroy res made in
          taken m after + returned m h ≡ returned m after + taken m h)
        × (let (ctx, made) = adhoc_context_create h in
            let after = adhoc_context_destroy ctx made in
            taken m after + returned m h
            ≡ (one_if m ctx.c_ctl_address + one_if m ctx.c_stager_address)
              + (returned m after + taken m h))
        × (let (ctx, made) = pfs_context_create h in
            let after = pfs_context_destroy ctx made in
            taken m after + returned m h ≡ one_if m ctx.c_mount + (returned m after + taken m h))
        × (let (st, made) = pfs_storage_create name context h in
            let after = pfs_storage_destroy st made in
            taken m after + returned m h
            ≡ (if name && context then 0 else one_if m (length h)) + (returned m after + taken m h))
  unfolding resources_create resources_destroy list_create list_destroy
  resources_create-resources_destroy nodes name context h =
      let h0 = allocated (length h) ∷ h in
      let h1 = allocated (length h0) ∷ h0 in
      let h2 = allocated (length h1) ∷ h1 in
      let (t, q) = texts_taken nodes h2 in
      let (u, v) = texts_returned (copy_texts nodes h2).0 (copy_texts nodes h2).1 in
      (omega (arith, t, q, u, v), omega arith, omega arith, storage_balanced name context h)
