-- ===== src/Managers/Transfer/Invariant.antt =====
-- The transfers of a transfer manager: fresh numbers, and what each call does to the table.
use io_scheduler.Prelude.{
  ℕ, ◌+◌, ◌<◌, ◌^◌, ◌≡◌, refl, none, some, List, arith, true, nat_key, ◌==◌, if◌then◌else◌, inl,
  inr, Option-cases,
}
use io_scheduler.Prelude.Map
use io_scheduler.Prelude.Map.{
  find-emplace, find-erase, find-assign, distinct, emplace-distinct, erase-distinct,
  assign-distinct,
}
use io_scheduler.Types.{expected, QosLimit}
use io_scheduler.Metadata
use io_scheduler.Metadata.{TransferMetadata}
use io_scheduler.Managers.Counter.{next}
use io_scheduler.Managers.Transfer.{TransferManager, init, create, update, find, remove}

module _ {H F : Type 0} where
  -- Numbers in use are below the next one, each leads to metadata that bears it, and none has two
  -- entries.
  pub record IsValid (m : TransferManager H F) : Type 0 where
    pub fresh :
        (j : ℕ) (t : TransferMetadata H F)
        → Map.find j m.transfers ≡ some t
        → (j < m.current_id) × (t.id ≡ j)
    pub single : distinct m.transfers ≡ true

  abbrev pub HasRoom : TransferManager H F → Type 0
  HasRoom m = m.current_id + 1 < 2 ^ 64

  pub init-IsValid : IsValid init
  unfolding init Map.find distinct
  init-IsValid = record { fresh = λ j t e. absurd (cc); single = refl }

  pub find-free : (m : TransferManager H F) → IsValid m → Map.find m.current_id m.transfers ≡ none
  find-free m v = elim (Option-cases (Map.find m.current_id m.transfers)) [
    | inl e ↦ e
    | inr (t, e) ↦ absurd (let (below, n) = v.fresh m.current_id t e in omega arith)
  ]

  module _ (unmeasured : F) (m : TransferManager H F) (v : IsValid m) (tx : H)
      (limits : List QosLimit) where
    -- The metadata that `create` makes.
    abbrev pub created : TransferMetadata H F
    created = Metadata.Transfer.make unmeasured m.current_id tx limits

    -- The manager that `create` leaves when its number is free.
    abbrev pub registered : TransferManager H F
    registered = record {
      current_id = next m.current_id;
      transfers = (Map.emplace m.current_id created m.transfers).0;
    }

    pub create_lem : create unmeasured m tx limits ≡ (registered, expected created)
    unfolding create
    create_lem = ground (arith, find-free m v)

    pub create-IsValid : HasRoom m → IsValid (create unmeasured m tx limits).0
    unfolding next Metadata.Transfer.make
    create-IsValid room = rw create_lem record {
      fresh = λ j t e. ground (arith, find-emplace m.current_id created m.transfers j, v.fresh j t);
      single = emplace-distinct m.current_id created m.transfers v.single;
    }

  pub update-IsValid :
      (m : TransferManager H F) → IsValid m → (id : ℕ) (bw : F) → IsValid (update m id bw).0
  unfolding update
  update-IsValid m v id bw = elim (Option-cases (Map.find id m.transfers)) [
    | inl e ↦ rw (e, update) v
    | inr (t, e) ↦
        rw (e, update)
          record {
            fresh = λ j t' e'.
                unfold Metadata.Transfer.update in
                ground (
                  arith,
                  find-assign id (Metadata.Transfer.update bw t) m.transfers j,
                  v.fresh j t',
                  v.fresh id t e,
                );
            single = assign-distinct id (Metadata.Transfer.update bw t) m.transfers v.single;
          }
  ]

  pub remove-IsValid : (m : TransferManager H F) → IsValid m → (id : ℕ) → IsValid (remove m id).0
  unfolding remove
  remove-IsValid m v id = elim (Option-cases (Map.find id m.transfers)) [
    | inl e ↦ rw (e, remove) v
    | inr (t, e) ↦
        rw (e, remove)
          record {
            fresh = λ j t' e'. ground (arith, find-erase id m.transfers j, v.fresh j t');
            single = erase-distinct id m.transfers v.single;
          }
  ]

  -- A transfer that is created on a valid manager gets the next number, is found under it, and
  -- after its removal, which gives it back, is found no longer; every other transfer is found as
  -- before all along.
  pub create-find-remove :
      (unmeasured : F) (m : TransferManager H F)
      → IsValid m
      → (tx : H) (limits : List QosLimit) (j : ℕ)
      → (let (m', result) = create unmeasured m tx limits in
          let t : TransferMetadata H F = record {
            id = m.current_id;
            handle = tx;
            qos = limits;
            measured_bandwidth = unmeasured;
          } in
          (result ≡ expected t)
          × (find m' j ≡ (if m.current_id == j then expected t else find m j))
          × ((remove m' m.current_id).1 ≡ expected t)
          × (find (remove m' m.current_id).0 j ≡ find m j))
  unfolding find remove Metadata.Transfer.make
  create-find-remove unmeasured m v tx limits j =
      let new = created unmeasured m v tx limits in
      rw (create_lem unmeasured m v tx limits) (
        refl,
        ground (arith, find-emplace m.current_id new m.transfers j, find-free m v),
        ground (arith, find-emplace m.current_id new m.transfers m.current_id, find-free m v),
        ground (
          arith,
          find-emplace m.current_id new m.transfers j,
          find-emplace m.current_id new m.transfers m.current_id,
          find-erase m.current_id (registered unmeasured m v tx limits).transfers j,
          find-free m v,
        ),
      )
