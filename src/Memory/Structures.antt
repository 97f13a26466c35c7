-- ===== src/Memory/Structures.antt =====
-- The memory of the other structures of src/lib/types.c: nodes and lists of them, resources, contexts,
-- lists of datasets, PFS storages, and the limits on quality of service. Texts are given.
pub mod Balance
pub mod Limits
use io_scheduler.Prelude.{ℕ, Bool, true, false, Option, none, some, List, [], ◌∷◌}
use io_scheduler.Memory.{Heap, allocate, free, free_if}

-- `struct adm_node`
pub record Node : Type 0 where
  pub block : ℕ
  pub n_hostname : ℕ

abbrev pub node_create : Heap → Node × Heap
node_create h =
    let (block, h) = allocate h in
    let (hostname, h) = allocate h in (record { block = block; n_hostname = hostname }, h)

abbrev pub node_destroy : Node → Heap → Heap
node_destroy node h = free node.block (free node.n_hostname h)

-- The text of an element of an array of nodes or of datasets: `ADM_node_copy` and `ADM_dataset_copy` give the
-- copy a text of its own, if there is one.
abbrev pub text_copy : Option ℕ → Heap → Option ℕ × Heap
text_copy none h = (none, h)
text_copy (some text) h = let (copy, h) = allocate h in (some copy, h)

unfoldable pub copy_texts : List (Option ℕ) → Heap → List (Option ℕ) × Heap
copy_texts [] h = ([], h)
copy_texts (text ∷ texts) h =
    let (copy, h) = text_copy text h in let (copies, h) = copy_texts texts h in (copy ∷ copies, h)

unfoldable pub free_texts : List (Option ℕ) → Heap → Heap
free_texts [] h = h
free_texts (text ∷ texts) h = free_texts texts (free_if text h)

-- `struct adm_node_list` and `struct adm_dataset_list`: the elements' texts
pub record TextList : Type 0 where
  pub block : ℕ
  pub array : ℕ
  pub texts : List (Option ℕ)

-- `ADM_node_list_create` and `ADM_dataset_list_create`
unfoldable pub list_create : List (Option ℕ) → Heap → TextList × Heap
unfolding copy_texts
list_create given h =
    let (block, h) = allocate h in
    let (array, h) = allocate h in
    let (texts, h) = copy_texts given h in
    (record { block = block; array = array; texts = texts }, h)

-- `ADM_node_list_destroy` and `ADM_dataset_list_destroy`
unfoldable pub list_destroy : TextList → Heap → Heap
unfolding free_texts
list_destroy l h = free l.block (free l.array (free_texts l.texts h))

-- `struct adm_job_resources` and `struct adm_adhoc_resources`
pub record Resources : Type 0 where
  pub block : ℕ
  pub r_nodes : TextList

-- `ADM_job_resources_create` and `ADM_adhoc_resources_create`
unfoldable pub resources_create : List (Option ℕ) → Heap → Resources × Heap
unfolding list_create
resources_create nodes h =
    let (block, h) = allocate h in
    let (list, h) = list_create nodes h in (record { block = block; r_nodes = list }, h)

-- `ADM_job_resources_destroy` and `ADM_adhoc_resources_destroy`
unfoldable pub resources_destroy : Resources → Heap → Heap
unfolding list_destroy
resources_destroy res h = free res.block (list_destroy res.r_nodes h)

-- `struct adm_adhoc_context`
pub record AdhocContext : Type 0 where
  pub block : ℕ
  pub c_ctl_address : ℕ
  pub c_stager_address : ℕ

abbrev pub adhoc_context_create : Heap → AdhocContext × Heap
adhoc_context_create h =
    let (block, h) = allocate h in
    let (ctl, h) = allocate h in
    let (stager, h) = allocate h in
    (record { block = block; c_ctl_address = ctl; c_stager_address = stager }, h)

abbrev pub adhoc_context_destroy : AdhocContext → Heap → Heap
adhoc_context_destroy ctx h = free ctx.block h

-- `struct adm_pfs_context`
pub record PfsContext : Type 0 where
  pub block : ℕ
  pub c_mount : ℕ

abbrev pub pfs_context_create : Heap → PfsContext × Heap
pfs_context_create h =
    let (block, h) = allocate h in
    let (mount, h) = allocate h in (record { block = block; c_mount = mount }, h)

abbrev pub pfs_context_destroy : PfsContext → Heap → Heap
pfs_context_destroy ctx h = free ctx.block h

-- `struct adm_pfs_storage`; the mount point of its context stays with the context that it copies.
pub record PfsStorage : Type 0 where
  pub block : ℕ
  pub s_name : ℕ
  pub s_pfs_ctx : ℕ

-- `ADM_pfs_storage_create`, given whether there are a name and a context
abbrev pub pfs_storage_create : Bool → Bool → Heap → Option PfsStorage × Heap
pfs_storage_create false context h = let (block, h) = allocate h in (none, h)
pfs_storage_create true false h = let (block, h) = allocate h in (none, h)
pfs_storage_create true true h =
    let (block, h) = allocate h in
    let (name, h) = allocate h in
    let (ctx, h) = allocate h in
    (some (record { block = block; s_name = name; s_pfs_ctx = ctx }), h)

-- `ADM_pfs_storage_destroy`, of a null pointer too
abbrev pub pfs_storage_destroy : Option PfsStorage → Heap → Heap
pfs_storage_destroy none h = h
pfs_storage_destroy (some st) h = free st.block (free st.s_pfs_ctx (free st.s_name h))
