-- ===== src/Server/Datasets.antt =====
-- Which datasets `dataset_process` reads as their prefix says, and some that it does not.
use io_scheduler.Prelude.{◌≡◌, refl, Bool, true, false, List, [], ◌∷◌, ◌++◌, ◌||◌, arith}
use io_scheduler.Prelude.Bytes.{codes, find?-middle}
use io_scheduler.Types.{Bytes}
use io_scheduler.Server.Transfers.{
  DatasetType, posix, parallel, gekkofs, hercules, expand, dataclay, untyped, mentions,
  dataset_process,
}

-- The prefix of a type.
abbrev prefix : DatasetType → Bytes
prefix parallel = codes "lustre:"
prefix gekkofs = codes "gekkofs:"
prefix hercules = codes "hercules:"
prefix expand = codes "expand:"
prefix dataclay = codes "dataclay:"
prefix posix = codes "posix:"
prefix untyped = []

-- The prefixes that are looked for before that of a type.
abbrev earlier : DatasetType → List Bytes
earlier parallel = []
earlier gekkofs = prefix parallel ∷ []
earlier hercules = prefix gekkofs ∷ prefix parallel ∷ []
earlier expand = prefix hercules ∷ prefix gekkofs ∷ prefix parallel ∷ []
earlier dataclay = prefix expand ∷ prefix hercules ∷ prefix gekkofs ∷ prefix parallel ∷ []
earlier posix =
    prefix dataclay ∷ prefix expand ∷ prefix hercules ∷ prefix gekkofs ∷ prefix parallel ∷ []
earlier untyped =
    prefix posix
    ∷ prefix dataclay
    ∷ prefix expand
    ∷ prefix hercules
    ∷ prefix gekkofs
    ∷ prefix parallel
    ∷ []

-- Whether a text has one of the prefixes anywhere.
unfoldable pub mentions_any : List Bytes → Bytes → Bool
mentions_any [] id = false
mentions_any (p ∷ ps) id = mentions p id || mentions_any ps id

-- A text that has none of some prefixes has neither the first nor any other.
none_of :
    (p : Bytes) (ps : List Bytes) (id : Bytes)
    → mentions_any (p ∷ ps) id ≡ false
    → (mentions p id ≡ false) × (mentions_any ps id ≡ false)
unfolding mentions_any
none_of p ps id h = (ground arith, ground arith)

mentions-middle : (xs scheme ys : Bytes) → mentions scheme (xs ++ scheme ++ ys) ≡ true
unfolding mentions
mentions-middle xs scheme ys = find?-middle xs scheme ys

-- A dataset whose name begins with a type's prefix, and nowhere has one that is looked for earlier,
-- is of that type, and its path is what follows the prefix; one that has no prefix anywhere is of
-- no type, and its path is its name.
pub dataset_process_prefixed :
    (t : DatasetType) (rest : Bytes)
    → mentions_any (earlier t) (prefix t ++ rest) ≡ false
    → dataset_process (prefix t ++ rest) ≡ record { path = rest; type = t }
unfolding dataset_process mentions_any mentions
dataset_process_prefixed parallel rest h = refl
dataset_process_prefixed gekkofs rest h =
    let (no_parallel, h0) =
      none_of (prefix parallel) (earlier parallel) (prefix gekkofs ++ rest) h in
    rw (no_parallel) refl
dataset_process_prefixed hercules rest h =
    let (no_gekkofs, h1) = none_of (prefix gekkofs) (earlier gekkofs) (prefix hercules ++ rest) h in
    let (no_parallel, h0) =
      none_of (prefix parallel) (earlier parallel) (prefix hercules ++ rest) h1 in
    rw (no_parallel, no_gekkofs) refl
dataset_process_prefixed expand rest h =
    let (no_hercules, h2) =
      none_of (prefix hercules) (earlier hercules) (prefix expand ++ rest) h in
    let (no_gekkofs, h1) = none_of (prefix gekkofs) (earlier gekkofs) (prefix expand ++ rest) h2 in
    let (no_parallel, h0) =
      none_of (prefix parallel) (earlier parallel) (prefix expand ++ rest) h1 in
    rw (no_parallel, no_gekkofs, no_hercules) refl
dataset_process_prefixed dataclay rest h =
    let (no_expand, h3) = none_of (prefix expand) (earlier expand) (prefix dataclay ++ rest) h in
    let (no_hercules, h2) =
      none_of (prefix hercules) (earlier hercules) (prefix dataclay ++ rest) h3 in
    let (no_gekkofs, h1) =
      none_of (prefix gekkofs) (earlier gekkofs) (prefix dataclay ++ rest) h2 in
    let (no_parallel, h0) =
      none_of (prefix parallel) (earlier parallel) (prefix dataclay ++ rest) h1 in
    rw (no_parallel, no_gekkofs, no_hercules, no_expand) refl
dataset_process_prefixed posix rest h =
    let (no_dataclay, h4) = none_of (prefix dataclay) (earlier dataclay) (prefix posix ++ rest) h in
    let (no_expand, h3) = none_of (prefix expand) (earlier expand) (prefix posix ++ rest) h4 in
    let (no_hercules, h2) =
      none_of (prefix hercules) (earlier hercules) (prefix posix ++ rest) h3 in
    let (no_gekkofs, h1) = none_of (prefix gekkofs) (earlier gekkofs) (prefix posix ++ rest) h2 in
    let (no_parallel, h0) =
      none_of (prefix parallel) (earlier parallel) (prefix posix ++ rest) h1 in
    rw (no_parallel, no_gekkofs, no_hercules, no_expand, no_dataclay) refl
dataset_process_prefixed untyped rest h =
    let (no_posix, h5) = none_of (prefix posix) (earlier posix) (prefix untyped ++ rest) h in
    let (no_dataclay, h4) =
      none_of (prefix dataclay) (earlier dataclay) (prefix untyped ++ rest) h5 in
    let (no_expand, h3) = none_of (prefix expand) (earlier expand) (prefix untyped ++ rest) h4 in
    let (no_hercules, h2) =
      none_of (prefix hercules) (earlier hercules) (prefix untyped ++ rest) h3 in
    let (no_gekkofs, h1) = none_of (prefix gekkofs) (earlier gekkofs) (prefix untyped ++ rest) h2 in
    let (no_parallel, h0) =
      none_of (prefix parallel) (earlier parallel) (prefix untyped ++ rest) h1 in
    rw (no_parallel, no_gekkofs, no_hercules, no_expand, no_dataclay, no_posix) refl

-- A GekkoFS dataset whose name has "lustre:" further on is taken for one of a parallel file system,
-- and its path begins with the colon of its own prefix.
pub dataset_process_misread :
    (xs ys : Bytes)
    → dataset_process (codes "gekkofs:" ++ xs ++ codes "lustre:" ++ ys)
      ≡ record { path = codes ":" ++ xs ++ codes "lustre:" ++ ys; type = parallel }
unfolding dataset_process
dataset_process_misread xs ys =
    let found = mentions-middle (codes "gekkofs:" ++ xs) (codes "lustre:") ys in ground arith
