-- ===== src/Server/Consistency/Links.antt =====
-- What a link between a job's requirements and its pointer tells of either side.
use io_scheduler.Prelude.{ℕ, ◌≡◌, refl, Option, none, some, arith, deref}
use io_scheduler.Types.{AdhocStorage, JobRequirements}
use io_scheduler.Metadata.{JobMetadata, AdhocMetadata}
use io_scheduler.Managers.{JobManager, AdhocManager}
use io_scheduler.Managers.Job.View.{view}
use io_scheduler.Server.Consistency.{Linked, unlinked, linked, IsConsistent}

pub Linked-pointer :
    {m : AdhocManager} {x : Option AdhocStorage} {y : Option ℕ} (q : ℕ)
    → Linked m x y
    → y ≡ some q
    → (st : AdhocStorage) × (a : AdhocMetadata) × (x ≡ some st)
      × (deref m.objects q ≡ some a)
      × (a.adhoc_storage.id ≡ st.id)
Linked-pointer q unlinked e = absurd (cc)
Linked-pointer q (linked storage q' a d n) e = (storage, a, refl, ground arith, n)

pub Linked-required :
    {m : AdhocManager} {x : Option AdhocStorage} {y : Option ℕ} (st : AdhocStorage)
    → Linked m x y
    → x ≡ some st
    → (q : ℕ) × (a : AdhocMetadata) × (y ≡ some q)
      × (deref m.objects q ≡ some a)
      × (a.adhoc_storage.id ≡ st.id)
Linked-required st unlinked e = absurd (cc)
Linked-required st (linked storage q a d n) e = (q, a, refl, d, ground arith)

pub Linked-none :
    {m : AdhocManager} {x : Option AdhocStorage} {y : Option ℕ} → Linked m x y → x ≡ none → y ≡ none
Linked-none unlinked e = refl
Linked-none (linked storage q a d n) e = absurd (cc)

module _ {jobs : JobManager} {m : AdhocManager} (c : IsConsistent jobs m) (j : ℕ) (o : JobMetadata)
    (reqs : JobRequirements) (at : view jobs j ≡ some o)
    (has_reqs : o.requirements ≡ some reqs) where
  -- The link of a registered job, at its requirements.
  pub link_of : Linked m reqs.adhoc_storage o.adhoc_metadata_ptr
  link_of =
      let l = c.links j o at in
      let same : reqs ≡ l.reqs = ground (arith, l.has_reqs) in rw same l.link
