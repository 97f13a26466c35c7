-- ===== src/Server/Outcomes.antt =====
-- What the handlers that contact the controller of an adhoc storage do and answer.
use mathlib.Core.Option
use io_scheduler.Prelude.{
  ℕ, ◌≡◌, Option, none, some, List, [], ◌∷◌, ◌++◌, arith, length, nat_key, ◌==◌, if◌then◌else◌,
  true, ltb,
}
use io_scheduler.Prelude.Bytes.{codes}
use io_scheduler.Prelude.Map
use io_scheduler.Types.{Bytes, success, AdhocResources}
use io_scheduler.Metadata
use io_scheduler.Metadata.{JobMetadata, AdhocMetadata}
use io_scheduler.Network.{GenericResponse, Response}
use io_scheduler.Network
use io_scheduler.Managers
use io_scheduler.Managers.Adhoc.View.{view, view-update, view-pointer}
use io_scheduler.Server.{
  Server, Remote, RemoteCall, RedisCommand, Outcome, responds, faults, bad_expected_access,
  null_dereference, text, number,
}
use io_scheduler.Server.Jobs.{adhoc_at}
use io_scheduler.Server.Adhocs.{update_adhoc_storage, deploy_adhoc_storage, terminate_adhoc_storage}
use io_scheduler.Server.Consistency.Handlers.{Consistent}

view-adhoc_at : (m : Managers.AdhocManager) (id : ℕ) → adhoc_at m id ≡ view m id
unfolding adhoc_at view Managers.Adhoc.find
view-adhoc_at m id = ground arith

-- The call that a change of a storage's nodes to `new` deserves: one to grow if there are more
-- nodes than before, and otherwise one to shrink, with the new nodes.
pub resize_call : AdhocMetadata → AdhocResources → RemoteCall
resize_call a new = record {
  address = a.adhoc_storage.context.controller_address;
  name =
      if ltb (length a.adhoc_storage.resources.nodes) (length new.nodes)
      then codes "ADM_expand_adhoc_storage"
      else codes "ADM_shrink_adhoc_storage";
  uuid = a.uuid;
  type = a.adhoc_storage.type;
  resources = some new;
}

-- The outcome of a change of nodes, from what the controller answers.
pub resize_outcome : ℕ → Option GenericResponse → Outcome GenericResponse
resize_outcome op_id none = faults bad_expected_access
resize_outcome op_id (some resp) = responds (record { op_id = op_id; error_code = resp.error_code })

module _ {H F : Type 0} (remote : Remote) (s : Server H F) (c : Consistent s) (from : Bytes)
    (id : ℕ) where
  -- In a consistent state: an update of an unknown adhoc storage throws from `value()`, and so
  -- does a termination; nothing but the counter of calls changes.
  pub unknown_adhoc_throws :
      (new : AdhocResources) (now : ℕ)
      → view s.adhoc_manager id ≡ none
      → (let s' = record s { rpc_counter = (Network.new_id s.rpc_counter).1 } in
          (update_adhoc_storage remote s from id new ≡ (s', faults bad_expected_access))
          × (terminate_adhoc_storage remote s from now id ≡ (s', faults bad_expected_access)))
  unfolding update_adhoc_storage terminate_adhoc_storage
  unknown_adhoc_throws new now e = (
    ground (arith, view-adhoc_at s.adhoc_manager id),
    ground (arith, view-adhoc_at s.adhoc_manager id),
  )

  adhoc_at-update :
      (new : AdhocResources) (a : AdhocMetadata)
      → view s.adhoc_manager id ≡ some a
      → (adhoc_at s.adhoc_manager id ≡ some a)
        × (adhoc_at (Managers.Adhoc.update s.adhoc_manager id new).0 id
            ≡ some (Metadata.Adhoc.update new a))
  adhoc_at-update new a e = (
    ground (arith, view-adhoc_at s.adhoc_manager id),
    ground (
      arith,
      view-adhoc_at (Managers.Adhoc.update s.adhoc_manager id new).0 id,
      view-update s.adhoc_manager c.adhocs_valid id new id,
    ),
  )

  managers-update :
      (new : AdhocResources) (a : AdhocMetadata)
      → view s.adhoc_manager id ≡ some a
      → (update_adhoc_storage remote s from id new).0.adhoc_manager
        ≡ (Managers.Adhoc.update s.adhoc_manager id new).0
  unfolding update_adhoc_storage
  managers-update new a e = let (old, updated) = adhoc_at-update new a e in ground arith

  -- In a consistent state: an update of a registered adhoc storage sets its nodes and changes no
  -- other storage, whatever happens then. If the controller's address can be looked up, one call
  -- is sent, to expand exactly if there are more nodes than before, and the response is what the
  -- controller answers; if the call fails, or the address cannot be looked up, in which case no
  -- call is sent, the handler throws.
  pub update_adhoc_storage_known :
      (new : AdhocResources) (a : AdhocMetadata) (j : ℕ)
      → view s.adhoc_manager id ≡ some a
      → (let (s', outcome) = update_adhoc_storage remote s from id new in
          let call = resize_call a new in
          (view s'.adhoc_manager j ≡ (
            if id == j
            then Option.map (Metadata.Adhoc.update new) (view s.adhoc_manager j)
            else view s.adhoc_manager j))
          × (s'.calls ≡ (if remote.lookup call.address then s.calls ++ call ∷ [] else s.calls))
          × (outcome ≡ (
              if remote.lookup call.address
              then resize_outcome s.rpc_counter (remote.call call)
              else faults bad_expected_access)))
  update_adhoc_storage_known new a j e =
      let (old, updated) = adhoc_at-update new a e in
      (
        rw (managers-update new a e) (view-update s.adhoc_manager c.adhocs_valid id new j),
        unfold update_adhoc_storage resize_call Metadata.Adhoc.update in
            ground (arith, old, updated),
        unfold update_adhoc_storage resize_call Metadata.Adhoc.update resize_outcome in
            ground (arith, old, updated),
      )

-- The call that a deployment of a storage deserves.
unfoldable pub deploy_call : AdhocMetadata → RemoteCall
deploy_call a = record {
  address = a.adhoc_storage.context.controller_address;
  name = codes "ADM_deploy_adhoc_storage";
  uuid = a.uuid;
  type = a.adhoc_storage.type;
  resources = some a.adhoc_storage.resources;
}

-- What Redis is told under a job's key once its storage is deployed.
pub deployed_at : ℕ → ℕ → RedisCommand
deployed_at now job_id = record {
  key = job_id;
  fields =
      (codes "Deployed", text (codes "Yes"))
      ∷ (codes "StartTime", number now)
      ∷ (codes "EndTime", text (codes "Running"))
      ∷ [];
}

module _ {H F : Type 0} (remote : Remote) (s : Server H F) (c : Consistent s) (from : Bytes)
    (now id : ℕ) (a : AdhocMetadata) (path : Bytes) (log : List RedisCommand)
    (connected : s.redis ≡ some log) (known : view s.adhoc_manager id ≡ some a)
    (up : remote.lookup a.adhoc_storage.context.controller_address ≡ true) (op_id : ℕ)
    (deploys : remote.call_with_value (deploy_call a)
      ≡ some (record { op_id = op_id; error_code = success; value = some path })) where
  calls-deploy : (deploy_adhoc_storage remote s from now id).0.calls ≡ s.calls ++ deploy_call a ∷ []
  unfolding deploy_adhoc_storage deploy_call
  calls-deploy =
      let at : adhoc_at s.adhoc_manager id ≡ some a =
        ground (arith, view-adhoc_at s.adhoc_manager id) in
      ground arith

  -- In a consistent state with Redis, if the controller deploys a registered storage that has a
  -- client, then the response is success with the directory that the controller gives, and Redis
  -- is told under the number of a registered job whose pointer leads to that storage.
  pub deploy_adhoc_storage_claimed :
      (p : ℕ)
      → a.client_info ≡ some p
      → (job : JobMetadata) × (Managers.Job.View.view s.job_manager job.job.id ≡ some job)
        × (job.adhoc_metadata_ptr ≡ Map.find id s.adhoc_manager.adhoc_storages)
        × ((deploy_adhoc_storage remote s from now id).0.redis
            ≡ some (log ++ deployed_at now job.job.id ∷ []))
        × ((deploy_adhoc_storage remote s from now id).1
            ≡ responds (record { op_id = s.rpc_counter; error_code = success; value = some path }))
  unfolding deploy_adhoc_storage deploy_call deployed_at
  deploy_adhoc_storage_claimed p held =
      let at : adhoc_at s.adhoc_manager id ≡ some a =
        ground (arith, view-adhoc_at s.adhoc_manager id) in
      let (q, e, d) = view-pointer s.adhoc_manager id a known in
      let client = c.clients id q p a e d held in
      let there = client.at in
      (
        client.job,
        unfold Managers.Job.View.view in ground (arith, client.registered),
        ground (arith, client.uses),
        ground arith,
        ground arith,
      )

  -- In a consistent state with Redis, if the controller deploys a registered storage that has no
  -- client, then the handler uses a null pointer; by then the storage is deployed, and Redis is
  -- told nothing.
  pub deploy_adhoc_storage_unclaimed :
      a.client_info ≡ none
      → ((deploy_adhoc_storage remote s from now id).1 ≡ faults null_dereference)
        × ((deploy_adhoc_storage remote s from now id).0.calls ≡ s.calls ++ deploy_call a ∷ [])
        × ((deploy_adhoc_storage remote s from now id).0.redis ≡ some log)
  unfolding deploy_adhoc_storage deploy_call
  deploy_adhoc_storage_unclaimed free =
      let at : adhoc_at s.adhoc_manager id ≡ some a =
        ground (arith, view-adhoc_at s.adhoc_manager id) in
      (ground arith, calls-deploy, ground arith)
