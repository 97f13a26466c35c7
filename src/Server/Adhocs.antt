-- ===== src/Server/Adhocs.antt =====
-- The handlers `register_adhoc_storage`, `update_adhoc_storage`, `remove_adhoc_storage`,
-- `deploy_adhoc_storage` and `terminate_adhoc_storage`.
use io_scheduler.Prelude.{
  ℕ, Bool, Option, none, some, List, [], ◌∷◌, deref, length, ltb, if◌then◌else◌,
}
use io_scheduler.Prelude.Bytes.{codes}
use io_scheduler.Types.{
  Bytes, ErrorCode, success, snafu, no_such_entity, is_success, Expected, expected, unexpected,
  AdhocType, AdhocContext, AdhocResources,
}
use io_scheduler.Metadata.{AdhocMetadata}
use io_scheduler.Network.{GenericResponse, Response, RpcInfo}
use io_scheduler.Managers
use io_scheduler.Managers.{JobManager, AdhocManager}
use io_scheduler.Server.{
  Server, Remote, RemoteCall, Outcome, responds, faults, bad_expected_access, bad_optional_access,
  null_dereference, FieldValue, text, number, start_rpc, hmset, send,
}
use io_scheduler.Server.Jobs.{answer, adhoc_at}

-- `adhoc_metadata_ptr->adhoc_storage().id()` of what `create` returned.
id_of : Option AdhocMetadata → Outcome ℕ
id_of none = faults null_dereference
id_of (some adhoc) = responds adhoc.adhoc_storage.id

-- The call that a handler sends for a storage.
unfoldable pub remote_call : Bytes → AdhocMetadata → Option AdhocResources → RemoteCall
remote_call name adhoc resources = record {
  address = adhoc.adhoc_storage.context.controller_address;
  name = name;
  uuid = adhoc.uuid;
  type = adhoc.adhoc_storage.type;
  resources = resources;
}

unfoldable pub size_of : AdhocMetadata → ℕ
size_of adhoc = length adhoc.adhoc_storage.resources.nodes

-- The procedure that `update_adhoc_storage` calls.
unfoldable pub resize_name : Bool → Bytes
resize_name expand =
    if expand then codes "ADM_expand_adhoc_storage" else codes "ADM_shrink_adhoc_storage"

-- The job that `client_info().get()->job().id()` names.
unfoldable pub client_job : JobManager → Option AdhocMetadata → Option ℕ
client_job m none = none
client_job m (some adhoc) = elim adhoc.client_info [
  | none ↦ none
  | some ptr ↦ elim (deref m.objects ptr) [ none ↦ none | some job ↦ some job.job.id ]
]

module _ {H F : Type 0} where
  -- `random` is the text that the random device gives.
  unfoldable pub register_adhoc_storage :
      Server H F
      → Bytes
      → Bytes
      → Bytes
      → AdhocType
      → AdhocContext
      → AdhocResources
      → Server H F × Outcome (Response ℕ)
  unfolding start_rpc answer id_of
  register_adhoc_storage s from random name type ctx resources =
      let (rpc, s1) = start_rpc s (codes "ADM_register_adhoc_storage") from in
      let (adhocs, created) =
        Managers.Adhoc.create s.adhoc_manager random type name ctx resources in
      (
        record s1 { adhoc_manager = adhocs },
        elim created [
          | unexpected ec ↦ responds (answer rpc.id (unexpected ec))
          | expected ptr ↦ elim (id_of (deref adhocs.objects ptr)) [
            | faults fault ↦ faults fault
            | responds id ↦ responds (answer rpc.id (expected id))
          ]
        ],
      )

  -- `update_helper`: the state after it, and the error code that the controller answered, or the
  -- error of a call that was not answered; the first clause is the error of `find`.
  unfoldable pub update_helper :
      Remote → Bool → Server H F → Option AdhocMetadata → Server H F × Expected ErrorCode
  unfolding start_rpc remote_call resize_name send
  update_helper remote expand s none = (s, unexpected no_such_entity)
  update_helper remote expand s (some adhoc) =
      let storage = adhoc.adhoc_storage in
      let address = storage.context.controller_address in
      if remote.lookup address
      then (let (child, s1) = start_rpc s (resize_name expand) address in
          let c = remote_call child.name adhoc (some storage.resources) in
          (
            send s1 c,
            elim (remote.call c) [ some resp ↦ expected resp.error_code | none ↦ unexpected snafu ],
          ))
      else (s, unexpected snafu)

  unfoldable pub update_adhoc_storage :
      Remote → Server H F → Bytes → ℕ → AdhocResources → Server H F × Outcome GenericResponse
  unfolding start_rpc adhoc_at size_of update_helper
  update_adhoc_storage remote s from adhoc_id new_resources =
      let (rpc, s1) = start_rpc s (codes "ADM_update_adhoc_storage") from in
      elim (adhoc_at s.adhoc_manager adhoc_id) [
        | none ↦ (s1, faults bad_expected_access)
        | some old ↦
            (let (adhocs, ec) = Managers.Adhoc.update s.adhoc_manager adhoc_id new_resources in
              let expand = ltb (size_of old) (length new_resources.nodes) in
              let (s2, rv) =
                update_helper remote expand (record s1 { adhoc_manager = adhocs })
                  (adhoc_at adhocs adhoc_id) in
              (
                s2,
                elim rv [
                  | expected answered ↦ responds (record { op_id = rpc.id; error_code = answered })
                  | unexpected error ↦ faults bad_expected_access
                ],
              ))
      ]

  unfoldable pub remove_adhoc_storage :
      Server H F → Bytes → ℕ → Server H F × Outcome GenericResponse
  unfolding start_rpc
  remove_adhoc_storage s from adhoc_id =
      let (rpc, s1) = start_rpc s (codes "ADM_remove_adhoc_storage") from in
      let (adhocs, ec) = Managers.Adhoc.remove s.adhoc_manager adhoc_id in
      (record s1 { adhoc_manager = adhocs }, responds (record { op_id = rpc.id; error_code = ec }))

  -- `deploy_helper`; the first clause is the error of `find`.
  unfoldable pub deploy_helper :
      Remote → Server H F → RpcInfo → Option AdhocMetadata → Server H F × Outcome (Expected Bytes)
  unfolding remote_call send
  deploy_helper remote s rpc none = (s, responds (unexpected no_such_entity))
  deploy_helper remote s rpc (some adhoc) =
      let storage = adhoc.adhoc_storage in
      if remote.lookup storage.context.controller_address
      then (let c = remote_call rpc.name adhoc (some storage.resources) in
          (
            send s c,
            elim (remote.call_with_value c) [
              | none ↦ responds (unexpected snafu)
              | some resp ↦
                  if is_success resp.error_code
                  then elim resp.value [
                    | none ↦ faults bad_optional_access
                    | some path ↦ responds (expected path)
                  ]
                  else responds (unexpected resp.error_code)
            ],
          ))
      else (s, responds (unexpected snafu))

  -- The write to Redis at the end of `deploy_adhoc_storage` and `terminate_adhoc_storage`, under
  -- `if(m_redis and resp.error_code() == error_code::success)`.
  unfoldable pub record_client :
      Server H F → ErrorCode → ℕ → List (Bytes × FieldValue) → Outcome (Server H F)
  unfolding hmset client_job adhoc_at
  record_client s ec adhoc_id fields = elim s.redis [
    | none ↦ responds s
    | some log ↦
        if is_success ec
        then elim (client_job s.job_manager (adhoc_at s.adhoc_manager adhoc_id)) [
          | none ↦ faults null_dereference
          | some job_id ↦ responds (hmset s job_id fields)
        ]
        else responds s
  ]

  -- The end of a handler that writes to Redis and then responds.
  unfoldable pub record_then_respond :
      {A : Type 0}
      → Server H F
      → ErrorCode
      → ℕ
      → List (Bytes × FieldValue)
      → A
      → Server H F × Outcome A
  unfolding record_client
  record_then_respond s ec adhoc_id fields resp = elim (record_client s ec adhoc_id fields) [
    | responds s' ↦ (s', responds resp)
    | faults fault ↦ (s, faults fault)
  ]

  unfoldable pub deploy_adhoc_storage :
      Remote → Server H F → Bytes → ℕ → ℕ → Server H F × Outcome (Response Bytes)
  unfolding start_rpc adhoc_at deploy_helper record_then_respond
  deploy_adhoc_storage remote s from now adhoc_id =
      let (rpc, s1) = start_rpc s (codes "ADM_deploy_adhoc_storage") from in
      let (s2, rv) = deploy_helper remote s1 rpc (adhoc_at s.adhoc_manager adhoc_id) in
      let fields =
        (codes "Deployed", text (codes "Yes"))
        ∷ (codes "StartTime", number now)
        ∷ (codes "EndTime", text (codes "Running"))
        ∷ [] in
      elim rv [
        | faults fault ↦ (s2, faults fault)
        | responds (expected path) ↦
            record_then_respond s2 success adhoc_id fields
              (record { op_id = rpc.id; error_code = success; value = some path })
        | responds (unexpected ec) ↦
            record_then_respond s2 ec adhoc_id fields
              (record { op_id = rpc.id; error_code = ec; value = some [] })
      ]

  -- `terminate_helper`
  unfoldable pub terminate_helper :
      Remote → Server H F → RpcInfo → AdhocMetadata → Server H F × ErrorCode
  unfolding remote_call send
  terminate_helper remote s rpc adhoc =
      let storage = adhoc.adhoc_storage in
      if remote.lookup storage.context.controller_address
      then (let c = remote_call rpc.name adhoc none in
          (send s c, elim (remote.call c) [ some resp ↦ resp.error_code | none ↦ snafu ]))
      else (s, snafu)

  unfoldable pub terminate_adhoc_storage :
      Remote → Server H F → Bytes → ℕ → ℕ → Server H F × Outcome GenericResponse
  unfolding start_rpc adhoc_at terminate_helper record_then_respond
  terminate_adhoc_storage remote s from now adhoc_id =
      let (rpc, s1) = start_rpc s (codes "ADM_terminate_adhoc_storage") from in
      elim (adhoc_at s.adhoc_manager adhoc_id) [
        | none ↦ (s1, faults bad_expected_access)
        | some adhoc ↦
            (let (s2, ec) = terminate_helper remote s1 rpc adhoc in
              record_then_respond s2 ec adhoc_id
                ((codes "Deployed", text (codes "Yes")) ∷ (codes "EndTime", number now) ∷ [])
                (record { op_id = rpc.id; error_code = ec }))
      ]
