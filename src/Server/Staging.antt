-- ===== src/Server/Staging.antt =====
-- What `transfer_datasets` and `query_transfer` answer.
use io_scheduler.Prelude.{
  ℕ, ◌≡◌, none, some, List, arith, deref, nat_key, inl, inr, Option-cases, map,
}
use io_scheduler.Prelude.Map
use io_scheduler.Prelude.Map.{find-emplace}
use io_scheduler.Types.{
  Bytes, Dataset, QosLimit, JobRequirements, AdhocStorage, expected, unexpected, no_such_entity,
  no_resources,
}
use io_scheduler.Metadata
use io_scheduler.Metadata.{JobMetadata, AdhocMetadata}
use io_scheduler.Network
use io_scheduler.Managers
use io_scheduler.Managers.Job.View.{view, view-pointer}
use io_scheduler.Managers.Transfer.Invariant.{IsValid, created, create_lem, find-free}
use io_scheduler.Server.{Server, responds}
use io_scheduler.Server.Jobs.{answer}
use io_scheduler.Server.Transfers.{CargoDataset, dataset_process, transfer_datasets, query_transfer}
use io_scheduler.Server.Consistency.Links.{Linked-required, Linked-none, link_of}
use io_scheduler.Server.Consistency.Handlers.{Consistent}

module _ {H F S : Type 0} (start : Bytes → List CargoDataset → List CargoDataset → H)
    (state : H → S) (unmeasured : F) (s : Server H F) (c : Consistent s) (from : Bytes) (job_id : ℕ)
    (sources targets : List Dataset) (limits : List QosLimit) where
  -- In a consistent state: for an unknown job both handlers respond `no_such_entity`; nothing but
  -- the counter of calls changes.
  pub transfer_unknown_job :
      (tx_id : ℕ)
      → view s.job_manager job_id ≡ none
      → (let s' = record s { rpc_counter = (Network.new_id s.rpc_counter).1 } in
          (transfer_datasets start unmeasured s from job_id sources targets limits
            ≡ (s', responds (answer s.rpc_counter (unexpected no_such_entity))))
          × (query_transfer state s from job_id tx_id
              ≡ (s', responds (answer s.rpc_counter (unexpected no_such_entity)))))
  unfolding view transfer_datasets query_transfer Managers.Job.find
  transfer_unknown_job tx_id e = elim (Option-cases (Map.find job_id s.job_manager.jobs)) [
    | inl x ↦ (ground arith, ground arith)
    | inr (p, x) ↦ (let (o, d, n) = c.jobs_valid.backed job_id p x in absurd (ground arith))
  ]

  -- In a consistent state: for a job that requires no adhoc storage both handlers respond
  -- `no_resources`; nothing but the counter of calls changes.
  pub transfer_without_adhoc :
      (tx_id : ℕ) (o : JobMetadata) (reqs : JobRequirements)
      → view s.job_manager job_id ≡ some o
      → o.requirements ≡ some reqs
      → reqs.adhoc_storage ≡ none
      → (let s' = record s { rpc_counter = (Network.new_id s.rpc_counter).1 } in
          (transfer_datasets start unmeasured s from job_id sources targets limits
            ≡ (s', responds (answer s.rpc_counter (unexpected no_resources))))
          × (query_transfer state s from job_id tx_id
              ≡ (s', responds (answer s.rpc_counter (unexpected no_resources)))))
  unfolding transfer_datasets query_transfer Managers.Job.find
  transfer_without_adhoc tx_id o reqs e h x =
      let (p, found, d) = view-pointer s.job_manager job_id o e in
      let null = Linked-none (link_of c job_id o reqs e h) x in (ground arith, ground arith)

  -- In a consistent state with a valid table of transfers: the metadata that a job's pointer leads to
  -- is that of the adhoc storage which the job requires. `transfer_datasets` starts a transfer of the
  -- processed datasets at the stager's address in this metadata, and responds with the next transfer
  -- number; a query of that number then responds with the state of that transfer.
  pub transfer_datasets-query_transfer :
      (o : JobMetadata) (reqs : JobRequirements) (st : AdhocStorage)
      → IsValid s.transfer_manager
      → view s.job_manager job_id ≡ some o
      → o.requirements ≡ some reqs
      → reqs.adhoc_storage ≡ some st
      → (q : ℕ) × (a : AdhocMetadata) × (o.adhoc_metadata_ptr ≡ some q)
        × (deref s.adhoc_manager.objects q ≡ some a)
        × (a.adhoc_storage.id ≡ st.id)
        × (let (s', outcome) =
              transfer_datasets start unmeasured s from job_id sources targets limits in
            let tx_id = s.transfer_manager.current_id in
            let handle =
              start a.adhoc_storage.context.data_stager_address
                (map (λ (d : Dataset). dataset_process d.id) sources)
                (map (λ (d : Dataset). dataset_process d.id) targets) in
            (outcome ≡ responds (answer s.rpc_counter (expected tx_id)))
            × ((query_transfer state s' from job_id tx_id).1
                ≡ responds (answer s'.rpc_counter (expected (state handle)))))
  unfolding transfer_datasets query_transfer Managers.Job.find Managers.Transfer.find
      Metadata.Transfer.make
  transfer_datasets-query_transfer o reqs st v e h x =
      let (p, found, d) = view-pointer s.job_manager job_id o e in
      let (q, a, y, at, n) = Linked-required st (link_of c job_id o reqs e h) x in
      let handle =
        start a.adhoc_storage.context.data_stager_address
          (map (λ (d : Dataset). dataset_process d.id) sources)
          (map (λ (d : Dataset). dataset_process d.id) targets) in
      let made = create_lem unmeasured s.transfer_manager v handle limits in
      let new = created unmeasured s.transfer_manager v handle limits in
      let there =
        find-emplace s.transfer_manager.current_id new s.transfer_manager.transfers
          s.transfer_manager.current_id in
      let free = find-free s.transfer_manager v in
      (q, a, y, at, n, (ground (arith, made), ground (arith, made, there, free)))
