-- ===== src/Managers/Adhoc/Clients.antt =====
-- The client of an adhoc storage: at most one job at a time, as long as each job gives the storage
-- back itself.
use mathlib.Core.Option
use mathlib.Core.Path.{fun_ext}
use io_scheduler.Prelude.{
  ℕ, ◌≡◌, Option, none, some, arith, nat_key, inl, inr, Option-cases, ◌==◌, if◌then◌else◌,
}
use io_scheduler.Prelude.Map
use io_scheduler.Types.{ErrorCode, success, no_such_entity, adhoc_in_use}
use io_scheduler.Metadata
use io_scheduler.Metadata.{AdhocMetadata}
use io_scheduler.Managers.Adhoc.{AdhocManager, add_client_at, add_client_info, remove_client_info}
use io_scheduler.Managers.Adhoc.View.{
  IsValid, view, view-add_client, view-remove_client_info, with_client,
}
use io_scheduler.Managers.Adhoc.Invariant.{add_client_info-IsValid, remove_client_info-IsValid}

-- The answer that a request for the storage deserves, from its metadata if it is registered.
pub verdict : Option AdhocMetadata → ErrorCode
verdict none = no_such_entity
verdict (some o) = elim o.client_info [ none ↦ success | some client ↦ adhoc_in_use ]

-- The metadata after the request: a storage that has no client gets the caller.
unfoldable pub claim : ℕ → AdhocMetadata → AdhocMetadata
claim job_ptr o = elim o.client_info [
  | none ↦ record o { client_info = some job_ptr }
  | some client ↦ o
]

with_client-claim : (job_ptr : ℕ) → with_client job_ptr ≡ claim job_ptr
unfolding claim Metadata.Adhoc.add_client_info
with_client-claim job_ptr = fun_ext λ o. ground arith

verdict-add_client_info :
    (m : AdhocManager)
    → IsValid m
    → (id job_ptr : ℕ) → (add_client_info m id job_ptr).1 ≡ verdict (view m id)
unfolding add_client_info verdict view Metadata.Adhoc.add_client_info
verdict-add_client_info m v id job_ptr = elim (Option-cases (Map.find id m.adhoc_storages)) [
  | inl e ↦ ground arith
  | inr (p, e) ↦ (let (o, d, n) = v.backed id p e in ground arith)
]

-- A claim through the pointer of a registered storage.
pub view-claim :
    (m : AdhocManager)
    → IsValid m
    → (id p job_ptr j : ℕ) → Map.find id m.adhoc_storages ≡ some p
    → view (add_client_at m p job_ptr).0 j
      ≡ (if id == j then Option.map (claim job_ptr) (view m j) else view m j)
view-claim m v id p job_ptr j e =
    rw (← with_client-claim job_ptr) (view-add_client m v id p job_ptr j e)

view-add_client_info :
    (m : AdhocManager)
    → IsValid m
    → (id job_ptr j : ℕ)
    → view (add_client_info m id job_ptr).0 j
      ≡ (if id == j then Option.map (claim job_ptr) (view m j) else view m j)
unfolding add_client_info
view-add_client_info m v id job_ptr j = elim (Option-cases (Map.find id m.adhoc_storages)) [
  | inl e ↦ unfold view in ground arith
  | inr (p, e) ↦ rw (e, add_client_info) (view-claim m v id p job_ptr j e)
]

-- On a valid manager: `add_client_info` answers `no_such_entity` for an unknown number,
-- `adhoc_in_use` if the storage has a client, and success otherwise; only in the last case does
-- anything change, and then only the client of that storage, which becomes the caller.
pub add_client_info_refines :
    (m : AdhocManager)
    → IsValid m
    → (id job_ptr j : ℕ)
    → ((add_client_info m id job_ptr).1 ≡ verdict (view m id))
      × (view (add_client_info m id job_ptr).0 j
          ≡ (if id == j then Option.map (claim job_ptr) (view m j) else view m j))
add_client_info_refines m v id job_ptr j =
    (verdict-add_client_info m v id job_ptr, view-add_client_info m v id job_ptr j)

-- On a valid manager: after a successful `add_client_info` every further one for that storage
-- answers `adhoc_in_use` and leaves its metadata alone, until `remove_client_info`, after which
-- the next one succeeds.
pub add_client_info_excludes :
    (m : AdhocManager)
    → IsValid m
    → (id job_ptr other : ℕ) → (add_client_info m id job_ptr).1 ≡ success
    → (let m' = (add_client_info m id job_ptr).0 in
        ((add_client_info m' id other).1 ≡ adhoc_in_use)
        × (view (add_client_info m' id other).0 id ≡ view m' id)
        × ((add_client_info (remove_client_info m' id).0 id other).1 ≡ success))
unfolding verdict claim Metadata.Adhoc.remove_client_info
add_client_info_excludes m v id job_ptr other h =
    let m' = (add_client_info m id job_ptr).0 in
    let v' = add_client_info-IsValid m v id job_ptr in
    let was = verdict-add_client_info m v id job_ptr in
    let now = view-add_client_info m v id job_ptr id in
    (
      ground (arith, was, now, verdict-add_client_info m' v' id other),
      ground (arith, was, now, view-add_client_info m' v' id other id),
      ground (
        arith,
        was,
        now,
        view-remove_client_info m' v' id id,
        verdict-add_client_info (remove_client_info m' id).0 (remove_client_info-IsValid m' v' id)
            id other,
      ),
    )
