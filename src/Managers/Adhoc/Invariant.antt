-- ===== src/Managers/Adhoc/Invariant.antt =====
-- Every call of an adhoc storage manager keeps its table consistent.
use io_scheduler.Prelude.{
  ℕ, ◌+◌, ◌<◌, ◌≤◌, ◌^◌, ◌≡◌, refl, List, [], ◌∷◌, arith, deref-alloc, deref-modify, deref-bound,
  length, nat_key, inl, inr, Option-cases, modify, ◌==◌, if◌then◌else◌,
}
use io_scheduler.Prelude.Map
use io_scheduler.Prelude.Map.{find-emplace, find-erase}
use io_scheduler.Types.{Bytes, AdhocType, AdhocContext, AdhocResources}
use io_scheduler.Metadata
use io_scheduler.Metadata.{AdhocMetadata}
use io_scheduler.Managers.Counter.{next}
use io_scheduler.Managers.Adhoc.{
  AdhocManager, init, register, create, update, remove, add_client_at, add_client_info,
  remove_client_info,
}
use io_scheduler.Managers.Adhoc.View.{
  IsValid, HasRoom, init-IsValid, created, registered, create_lem, with_client,
}

module _ (m : AdhocManager) (v : IsValid m) (room : HasRoom m) (random : Bytes) (type : AdhocType)
    (name : Bytes) (ctx : AdhocContext) (res : AdhocResources) where
  registered-IsValid : IsValid (registered m random type name ctx res)
  unfolding next
  registered-IsValid = record {
    fresh = λ j p e.
        ground
          (arith, find-emplace m.current_id (length m.objects) m.adhoc_storages j, v.fresh j p);
    backed = λ j p e. elim (Option-cases (Map.find j m.adhoc_storages)) [
      | inl e' ↦
          (let same = find-emplace m.current_id (length m.objects) m.adhoc_storages j in
            (
              created m random type name ctx res,
              ground (arith, same, deref-alloc m.objects (created m random type name ctx res) p),
              unfold Metadata.Adhoc.make in ground (arith, same),
            ))
      | inr (q, e') ↦
          (let (o, d, n) = v.backed j q e' in
            let same = find-emplace m.current_id (length m.objects) m.adhoc_storages j in
            let grown = deref-alloc m.objects (created m random type name ctx res) p in
            (o, ground (arith, same, grown, deref-bound m.objects q d), n))
    ];
  }

  pub create-IsValid : IsValid (create m random type name ctx res).0
  create-IsValid = rw (create_lem m random type name ctx res v) registered-IsValid

-- The object at `q` after a mutation of the object at `p`.
mutated : (AdhocMetadata → AdhocMetadata) → ℕ → ℕ → AdhocMetadata → AdhocMetadata
mutated f p q o = if p == q then f o else o

-- A mutation through a pointer that keeps the object's number keeps the manager consistent.
pub modify-IsValid :
    (m : AdhocManager)
    → IsValid m
    → (p : ℕ) (f : AdhocMetadata → AdhocMetadata)
    → ((o : AdhocMetadata) → (f o).adhoc_storage.id ≡ o.adhoc_storage.id)
    → IsValid (record m { objects = modify m.objects p f })
unfolding mutated
modify-IsValid m v p f keep = record {
  fresh = v.fresh;
  backed = λ j q e.
      let (o, d, n) = v.backed j q e in
      (mutated f p q o, ground (arith, deref-modify m.objects p f q), ground (arith, keep o));
}

pub update-IsValid :
    (m : AdhocManager) → IsValid m → (id : ℕ) (res : AdhocResources) → IsValid (update m id res).0
unfolding update Metadata.Adhoc.update
update-IsValid m v id res = elim (Option-cases (Map.find id m.adhoc_storages)) [
  | inl e ↦ rw (e, update) v
  | inr (p, e) ↦ rw (e, update) (modify-IsValid m v p (Metadata.Adhoc.update res) (λ o. refl))
]

pub remove-IsValid : (m : AdhocManager) → IsValid m → (id : ℕ) → IsValid (remove m id).0
unfolding remove
remove-IsValid m v id = record {
  fresh = λ j p e. ground (arith, find-erase id m.adhoc_storages j, v.fresh j p);
  backed = λ j p e.
      let (o, d, n) = v.backed j p (ground (arith, find-erase id m.adhoc_storages j)) in
      (o, ground arith, n);
}

pub id-with_client :
    (job_ptr : ℕ) (o : AdhocMetadata)
    → (with_client job_ptr o).adhoc_storage.id ≡ o.adhoc_storage.id
unfolding Metadata.Adhoc.add_client_info
id-with_client job_ptr o = ground arith

pub add_client_at-IsValid :
    (m : AdhocManager) → IsValid m → (p job_ptr : ℕ) → IsValid (add_client_at m p job_ptr).0
unfolding add_client_at
add_client_at-IsValid m v p job_ptr =
    modify-IsValid m v p (with_client job_ptr) (id-with_client job_ptr)

pub add_client_info-IsValid :
    (m : AdhocManager) → IsValid m → (id job_ptr : ℕ) → IsValid (add_client_info m id job_ptr).0
unfolding add_client_info
add_client_info-IsValid m v id job_ptr = elim (Option-cases (Map.find id m.adhoc_storages)) [
  | inl e ↦ rw (e, add_client_info) v
  | inr (p, e) ↦ rw (e, add_client_info) (add_client_at-IsValid m v p job_ptr)
]

pub remove_client_info-IsValid :
    (m : AdhocManager) → IsValid m → (id : ℕ) → IsValid (remove_client_info m id).0
unfolding remove_client_info Metadata.Adhoc.remove_client_info
remove_client_info-IsValid m v id = elim (Option-cases (Map.find id m.adhoc_storages)) [
  | inl e ↦ rw (e, remove_client_info) v
  | inr (p, e) ↦
      rw (e, remove_client_info)
        (modify-IsValid m v p Metadata.Adhoc.remove_client_info (λ o. refl))
]

pub data Call : Type 0 where
  creates : Bytes → AdhocType → Bytes → AdhocContext → AdhocResources → Call
  updates : ℕ → AdhocResources → Call
  removes : ℕ → Call
  adds_client : ℕ → ℕ → Call
  removes_client : ℕ → Call

pub step : AdhocManager → Call → AdhocManager
step m (creates random type name ctx res) = (create m random type name ctx res).0
step m (updates id res) = (update m id res).0
step m (removes id) = (remove m id).0
step m (adds_client id job_ptr) = (add_client_info m id job_ptr).0
step m (removes_client id) = (remove_client_info m id).0

pub replay : AdhocManager → List Call → AdhocManager
replay m [] = m
replay m (c ∷ cs) = replay (step m c) cs

step-IsValid : (m : AdhocManager) → IsValid m → HasRoom m → (c : Call) → IsValid (step m c)
unfolding step
step-IsValid m v room (creates random type name ctx res) =
    create-IsValid m v room random type name ctx res
step-IsValid m v room (updates id res) = update-IsValid m v id res
step-IsValid m v room (removes id) = remove-IsValid m v id
step-IsValid m v room (adds_client id job_ptr) = add_client_info-IsValid m v id job_ptr
step-IsValid m v room (removes_client id) = remove_client_info-IsValid m v id

current_id-step :
    (m : AdhocManager) → HasRoom m → (c : Call) → (step m c).current_id ≤ m.current_id + 1
unfolding step create register update remove add_client_info remove_client_info next
current_id-step m room c = ground arith

replay_keeps :
    (m : AdhocManager) (cs : List Call)
    → IsValid m
    → m.current_id + length cs + 1 < 2 ^ 64
    → IsValid (replay m cs)
unfolding replay
replay_keeps m [] v room = v
replay_keeps m (c ∷ cs) v room =
    replay_keeps (step m c) cs (step-IsValid m v (omega arith) c)
      (omega (arith, current_id-step m (omega arith) c))

-- After any calls on a new manager, fewer than 2 ^ 64 - 1 of them, the table is consistent: the
-- numbers in use are below the next one, and each leads to metadata that bears it.
pub replay-IsValid : (cs : List Call) → length cs + 1 < 2 ^ 64 → IsValid (replay init cs)
unfolding init
replay-IsValid cs room = replay_keeps init cs init-IsValid (omega arith)
