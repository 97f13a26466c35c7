-- ===== src/Examples/Adhocs.antt =====
-- The theorems on the manager of adhoc storages at concrete inputs.
use mathlib.Core.Option
use io_scheduler.Prelude.{◌≡◌, refl, List, [], ◌∷◌, arith, deref, alloc}
use io_scheduler.Prelude.Bytes.{codes}
use io_scheduler.Prelude.Map
use io_scheduler.Types.{gekkofs, success, adhoc_in_use}
use io_scheduler.Metadata
use io_scheduler.Managers
use io_scheduler.Managers.Adhoc.{AdhocManager, init, create, add_client_info, remove_client_info}
use io_scheduler.Managers.Adhoc.View.{IsValid, view, init-IsValid}
use io_scheduler.Managers.Adhoc.Invariant.{
  Call, creates, removes, adds_client, removes_client, replay, replay-IsValid, create-IsValid,
}
use io_scheduler.Managers.Adhoc.Clients.{
  verdict, claim, add_client_info_refines, add_client_info_excludes,
}
use io_scheduler.Examples.Data.{context, adhoc_resources}

abbrev calls : List Call
calls =
    creates (codes "xyz") gekkofs (codes "scratch") context adhoc_resources
    ∷ adds_client 0 3
    ∷ removes_client 0
    ∷ removes 0
    ∷ []

replay-IsValid_example : IsValid (replay init calls)
replay-IsValid_example = replay-IsValid calls (omega arith)

-- One storage, number 0, without a client.
abbrev one_storage : AdhocManager
one_storage = (create init (codes "xyz") gekkofs (codes "scratch") context adhoc_resources).0

one_storage-IsValid : IsValid one_storage
unfolding init
one_storage-IsValid =
    create-IsValid init init-IsValid (omega arith) (codes "xyz") gekkofs (codes "scratch") context
      adhoc_resources

add_client_info_refines_example :
    ((add_client_info one_storage 0 3).1 ≡ verdict (view one_storage 0))
    × (view (add_client_info one_storage 0 3).0 0 ≡ Option.map (claim 3) (view one_storage 0))
add_client_info_refines_example = add_client_info_refines one_storage one_storage-IsValid 0 3 0

add_client_info_excludes_example :
    (let m = (add_client_info one_storage 0 3).0 in
      ((add_client_info m 0 4).1 ≡ adhoc_in_use)
      × (view (add_client_info m 0 4).0 0 ≡ view m 0)
      × ((add_client_info (remove_client_info m 0).0 0 4).1 ≡ success))
unfolding create init add_client_info Map.find Map.emplace deref alloc Metadata.Adhoc.make
    Metadata.Adhoc.add_client_info Managers.Counter.next
add_client_info_excludes_example =
    add_client_info_excludes one_storage one_storage-IsValid 0 3 4 refl
