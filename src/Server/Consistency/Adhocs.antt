-- ===== src/Server/Consistency/Adhocs.antt =====
-- The operations on adhoc storages keep the tables consistent.
use io_scheduler.Prelude.{
  ℕ, ◌≡◌, refl, ◌∙◌, Option, some, arith, deref, deref-alloc, deref-modify, deref-bound, length,
  nat_key, ◌==◌, if◌then◌else◌, inl, inr, Option-cases, modify, alloc,
}
use io_scheduler.Prelude.Map
use io_scheduler.Prelude.Map.{find-emplace, find-erase}
use io_scheduler.Types.{Bytes, AdhocType, AdhocContext, AdhocResources, AdhocStorage}
use io_scheduler.Metadata
use io_scheduler.Metadata.{JobMetadata, AdhocMetadata}
use io_scheduler.Managers.{JobManager, AdhocManager}
use io_scheduler.Managers.Adhoc.{create, update, remove}
use io_scheduler.Managers.Adhoc.View.{HasRoom, created, registered, create_lem}
use io_scheduler.Managers.Adhoc.Invariant.{create-IsValid, modify-IsValid, remove-IsValid}
use io_scheduler.Server.Consistency.{Linked, unlinked, linked, IsLinked, IsClient, IsConsistent}

-- Every metadata object is still there, with its number.
pub record Persists (m m' : AdhocManager) : Type 0 where
  pub later : ℕ → AdhocMetadata → AdhocMetadata
  pub stays :
      (q : ℕ) (a : AdhocMetadata)
      → deref m.objects q ≡ some a
      → deref m'.objects q ≡ some (later q a)
  pub same_id : (q : ℕ) (a : AdhocMetadata) → (later q a).adhoc_storage.id ≡ a.adhoc_storage.id

pub Persists-refl : {m m' : AdhocManager} → m'.objects ≡ m.objects → Persists m m'
Persists-refl e = record { later = λ q a. a; stays = λ q a h. rw e h; same_id = λ q a. refl }

pub Persists-trans : {m n k : AdhocManager} → Persists m n → Persists n k → Persists m k
Persists-trans p r = record {
  later = λ q a. r.later q (p.later q a);
  stays = λ q a h. r.stays q (p.later q a) (p.stays q a h);
  same_id = λ q a. r.same_id q (p.later q a) ∙ p.same_id q a;
}

-- The object at `q` after a mutation of the object at `p`.
unfoldable pub mutated : (AdhocMetadata → AdhocMetadata) → ℕ → ℕ → AdhocMetadata → AdhocMetadata
mutated f p q a = if p == q then f a else a

pub Persists-modify :
    (m : AdhocManager) (p : ℕ) (f : AdhocMetadata → AdhocMetadata)
    → ((a : AdhocMetadata) → (f a).adhoc_storage.id ≡ a.adhoc_storage.id)
    → Persists m (record m { objects = modify m.objects p f })
unfolding mutated
Persists-modify m p f keep = record {
  later = mutated f p;
  stays = λ q a h. ground (arith, deref-modify m.objects p f q);
  same_id = λ q a. ground (arith, keep a);
}

Persists-alloc :
    (m m' : AdhocManager) (a : AdhocMetadata) → m'.objects ≡ alloc m.objects a → Persists m m'
Persists-alloc m m' a e = record {
  later = λ q b. b;
  stays = λ q b h. rw e (ground (arith, deref-alloc m.objects a q, deref-bound m.objects q h));
  same_id = λ q b. refl;
}

Linked-Persists :
    {m m' : AdhocManager} {x : Option AdhocStorage} {y : Option ℕ}
    → Persists m m'
    → Linked m x y
    → Linked m' x y
Linked-Persists p unlinked = unlinked
Linked-Persists p (linked storage q a d n) =
    linked storage q (p.later q a) (p.stays q a d) (p.same_id q a ∙ n)

pub IsLinked-Persists :
    {m m' : AdhocManager} {o : JobMetadata} → Persists m m' → IsLinked m o → IsLinked m' o
IsLinked-Persists p l = record {
  reqs = l.reqs;
  has_reqs = l.has_reqs;
  link = Linked-Persists p l.link;
}

module _ {jobs : JobManager} (m : AdhocManager) (c : IsConsistent jobs m) where
  clients-registered :
      (random : Bytes) (type : AdhocType) (name : Bytes) (ctx : AdhocContext) (res : AdhocResources)
      (id q p : ℕ) (a : AdhocMetadata)
      → Map.find id (registered m random type name ctx res).adhoc_storages ≡ some q
      → deref (registered m random type name ctx res).objects q ≡ some a
      → a.client_info ≡ some p
      → IsClient jobs q p
  unfolding Metadata.Adhoc.make
  clients-registered random type name ctx res id q p a e d k =
      let same = find-emplace m.current_id (length m.objects) m.adhoc_storages id in
      let grown = deref-alloc m.objects (created m random type name ctx res) q in
      elim (Option-cases (Map.find id m.adhoc_storages)) [
        | inl e' ↦ absurd (ground (arith, same, grown))
        | inr (q', e') ↦
            (let (o, d', n) = c.adhocs_valid.backed id q' e' in
              c.clients id q p a (ground (arith, same))
                (ground (arith, same, grown, deref-bound m.objects q' d')) k)
      ]

  -- A mutation that keeps the number and the client of each object.
  modify-IsConsistent :
      (p : ℕ) (f : AdhocMetadata → AdhocMetadata)
      → ((a : AdhocMetadata) → (f a).adhoc_storage.id ≡ a.adhoc_storage.id)
      → ((a : AdhocMetadata) → (f a).client_info ≡ a.client_info)
      → IsConsistent jobs (record m { objects = modify m.objects p f })
  modify-IsConsistent p f keep_id keep_client = record {
    jobs_valid = c.jobs_valid;
    adhocs_valid = modify-IsValid m c.adhocs_valid p f keep_id;
    links = λ j o e. IsLinked-Persists (Persists-modify m p f keep_id) (c.links j o e);
    clients = λ id q r a e d k.
        let (o, d', n) = c.adhocs_valid.backed id q e in
        c.clients id q r o e d' (ground (arith, deref-modify m.objects p f q, keep_client o));
  }

  pub create-IsConsistent :
      HasRoom m
      → (random : Bytes) (type : AdhocType) (name : Bytes) (ctx : AdhocContext)
        (res : AdhocResources)
      → IsConsistent jobs (create m random type name ctx res).0
  create-IsConsistent room random type name ctx res = record {
    jobs_valid = c.jobs_valid;
    adhocs_valid = create-IsValid m c.adhocs_valid room random type name ctx res;
    links = λ j o e.
        IsLinked-Persists
          (Persists-alloc m _ (created m random type name ctx res)
            (rw (create_lem m random type name ctx res c.adhocs_valid)))
          (c.links j o e);
    clients =
        rw (create_lem m random type name ctx res c.adhocs_valid)
          (clients-registered random type name ctx res);
  }

  pub update-IsConsistent : (id : ℕ) (res : AdhocResources) → IsConsistent jobs (update m id res).0
  unfolding update Metadata.Adhoc.update
  update-IsConsistent id res = elim (Option-cases (Map.find id m.adhoc_storages)) [
    | inl e ↦ rw (e, update) c
    | inr (p, e) ↦
        rw (e, update) (modify-IsConsistent p (Metadata.Adhoc.update res) (λ a. refl) (λ a. refl))
  ]

  pub remove-IsConsistent : (id : ℕ) → IsConsistent jobs (remove m id).0
  unfolding remove
  remove-IsConsistent id = record {
    jobs_valid = c.jobs_valid;
    adhocs_valid = remove-IsValid m c.adhocs_valid id;
    links = λ j o e. IsLinked-Persists (Persists-refl (ground arith)) (c.links j o e);
    clients = λ id' q p a e d k.
        c.clients id' q p a (ground (arith, find-erase id m.adhoc_storages id')) (ground arith) k;
  }
