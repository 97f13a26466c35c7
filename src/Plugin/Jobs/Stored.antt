-- ===== src/Plugin/Jobs/Stored.antt =====
-- The registered storage, read back from its C structure, and steps that agree on what they are given.
use io_scheduler.Prelude.{◌≡◌, refl, some, List, [], ◌∷◌, map}
use io_scheduler.Types.{Node, regular, AdhocStorage}
use io_scheduler.Conversions.{
  c_str, adhoc_storage_of, adhoc_storage_to, adhoc_node_of, each_of, node_create,
}
use io_scheduler.Plugin.World.{World, Step, continues, fails, crashes, no_end, Act, then_step}
use io_scheduler.Plugin.Jobs.Steps.{After}

nodes_read :
    (ns : List Node) → (ms : List Node) × (each_of adhoc_node_of (map node_create ns) ≡ some ms)
unfolding each_of adhoc_node_of node_create
nodes_read [] = ([], refl)
nodes_read (n ∷ ns) =
    let (ms, e) = nodes_read ns in
    (record { hostname = c_str n.hostname; type = regular } ∷ ms, rw e refl)

-- A storage that is read back from its C structure has its number.
pub storage_read :
    (storage : AdhocStorage)
    → (st : AdhocStorage) × (adhoc_storage_of (adhoc_storage_to storage) ≡ some st)
      × (st.id ≡ storage.id)
unfolding adhoc_storage_of adhoc_storage_to
storage_read storage =
    let (ms, e) = nodes_read storage.resources.nodes in
    let ctx = storage.context in
    (
      record storage {
        name = c_str storage.name;
        context = record ctx {
          controller_address = c_str ctx.controller_address;
          data_stager_address = c_str ctx.data_stager_address;
        };
        resources = record { nodes = ms };
      },
      rw e refl,
      refl,
    )

pub then_same :
    {S A B : Type 0} (P : A → World S → Type 0) (m : Step S A) (f g : A → Act S B)
    → After P m
    → ((a : A) (w : World S) → P a w → f a w ≡ g a w)
    → then_step m f ≡ then_step m g
then_same P (continues a w) f g p h = h a w p
then_same P (fails w) f g p h = refl
then_same P crashes f g p h = refl
then_same P no_end f g p h = refl
