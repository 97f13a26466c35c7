-- ===== src/Server/Consistency/Removal.antt =====
-- The removal of a job, and of its claim to a storage, keeps the tables consistent.
use io_scheduler.Prelude.{
  ℕ, ◌≡◌, refl, Option, none, some, arith, deref, deref-modify, nat_key, ◌==◌, inl, inr,
  Option-cases, Bool-cases,
}
use io_scheduler.Prelude.Map
use io_scheduler.Prelude.Map.{find-emplace, find-erase}
use io_scheduler.Types.{JobRequirements, AdhocStorage}
use io_scheduler.Metadata
use io_scheduler.Metadata.{JobMetadata, AdhocMetadata}
use io_scheduler.Managers
use io_scheduler.Managers.{JobManager, AdhocManager}
use io_scheduler.Managers.Job.{remove}
use io_scheduler.Managers.Job.View.{view, view-remove}
use io_scheduler.Managers.Job.Invariant.{remove-IsValid}
use io_scheduler.Managers.Adhoc.{add_client_at, remove_client_info}
use io_scheduler.Managers.Adhoc.View.{with_client}
use io_scheduler.Managers.Adhoc.Invariant.{remove_client_info-IsValid}
use io_scheduler.Server.Consistency.{IsClient, IsConsistent}
use io_scheduler.Server.Consistency.Links.{Linked-pointer, link_of}
use io_scheduler.Server.Consistency.Adhocs.{
  Persists, Persists-refl, Persists-modify, IsLinked-Persists,
}

-- What `remove_job` does to the storage that the removed job required.
unfoldable pub released : AdhocManager → Option AdhocStorage → AdhocManager
released m none = m
released m (some storage) = (remove_client_info m storage.id).0

adhoc_storages-released :
    (m : AdhocManager) (x : Option AdhocStorage) → (released m x).adhoc_storages ≡ m.adhoc_storages
unfolding released remove_client_info
adhoc_storages-released m x = ground arith

released-IsValid :
    (m : AdhocManager)
    → Managers.Adhoc.View.IsValid m
    → (x : Option AdhocStorage) → Managers.Adhoc.View.IsValid (released m x)
unfolding released
released-IsValid m v none = v
released-IsValid m v (some storage) = remove_client_info-IsValid m v storage.id

Persists-released : (m : AdhocManager) (x : Option AdhocStorage) → Persists m (released m x)
unfolding released remove_client_info Metadata.Adhoc.remove_client_info
Persists-released m none = Persists-refl refl
Persists-released m (some storage) = elim (Option-cases (Map.find storage.id m.adhoc_storages)) [
  | inl e ↦ Persists-refl (ground arith)
  | inr (q, e) ↦
      rw (e, released, remove_client_info)
        (Persists-modify m q Metadata.Adhoc.remove_client_info (λ a. refl))
]

-- An object that has a client after the release is as it was.
released-holder :
    (m : AdhocManager) (x : Option AdhocStorage) (q : ℕ) (a : AdhocMetadata) (p : ℕ)
    → deref (released m x).objects q ≡ some a
    → a.client_info ≡ some p
    → deref m.objects q ≡ some a
unfolding released
released-holder m none q a p d k = d
released-holder m (some storage) q a p d k =
    elim (Option-cases (Map.find storage.id m.adhoc_storages)) [
      | inl e ↦ unfold remove_client_info in ground arith
      | inr (q', e) ↦
          unfold remove_client_info Metadata.Adhoc.remove_client_info in
          ground (arith, deref-modify m.objects q' Metadata.Adhoc.remove_client_info q)
    ]

-- The storage that is released has no client.
released-freed :
    (m : AdhocManager) (x : Option AdhocStorage) (storage : AdhocStorage) (i q : ℕ)
    (a : AdhocMetadata)
    → x ≡ some storage
    → storage.id ≡ i
    → Map.find i m.adhoc_storages ≡ some q
    → deref (released m x).objects q ≡ some a
    → a.client_info ≡ none
unfolding released remove_client_info Metadata.Adhoc.remove_client_info
released-freed m none storage i q a x n e d = absurd (cc)
released-freed m (some st) storage i q a x n e d =
    ground (arith, deref-modify m.objects q Metadata.Adhoc.remove_client_info q)

module _ {jobs : JobManager} {m : AdhocManager} (c : IsConsistent jobs m) (id p : ℕ)
    (o : JobMetadata) (reqs : JobRequirements) (found : Map.find id jobs.jobs ≡ some p)
    (at : deref jobs.objects p ≡ some o) (has_reqs : o.requirements ≡ some reqs) where
  -- A storage that the job uses, and that is registered, is the one that it requires.
  required_of_used :
      (i q : ℕ)
      → Map.find i m.adhoc_storages ≡ some q
      → o.adhoc_metadata_ptr ≡ some q
      → (storage : AdhocStorage) × (reqs.adhoc_storage ≡ some storage) × (storage.id ≡ i)
  unfolding view
  required_of_used i q e u =
      let (storage, a, x, d, n) =
        Linked-pointer q (link_of c id o reqs (ground arith) has_reqs) u in
      let (b, d', n') = c.adhocs_valid.backed i q e in (storage, ground arith, ground arith)

  -- A client of a registered storage after the release is a client that is still registered.
  IsClient-remove :
      (i q p' : ℕ) (a : AdhocMetadata)
      → Map.find i m.adhoc_storages ≡ some q
      → deref (released m reqs.adhoc_storage).objects q ≡ some a
      → a.client_info ≡ some p'
      → IsClient (remove jobs id).0 q p'
  IsClient-remove i q p' a e d k =
      let client = c.clients i q p' a e (released-holder m reqs.adhoc_storage q a p' d k) k in
      elim (Bool-cases (id == client.job.job.id)) [
        | inl same ↦
            (let (storage, x, n) =
                required_of_used i q e
                  (ground (arith, client.registered, client.at, client.uses)) in
              let freed = released-freed m reqs.adhoc_storage storage i q a x n e d in
              absurd (cc (freed, k)))
        | inr other ↦
            unfold remove in
            record {
              job = client.job;
              at = ground (arith, client.at);
              registered =
                  ground (arith, client.registered, find-erase id jobs.jobs client.job.job.id);
              uses = client.uses;
            }
      ]

  -- The removal of the job and the release of the storage that it required.
  pub remove-IsConsistent : IsConsistent (remove jobs id).0 (released m reqs.adhoc_storage)
  remove-IsConsistent = record {
    jobs_valid = remove-IsValid jobs c.jobs_valid id;
    adhocs_valid = released-IsValid m c.adhocs_valid reqs.adhoc_storage;
    links = λ j o' e.
        IsLinked-Persists (Persists-released m reqs.adhoc_storage)
          (c.links j o' (ground (arith, view-remove jobs id j)));
    clients = λ i q p' a e d k. IsClient-remove i q p' a (rw adhoc_storages-released at e) d k;
  }
