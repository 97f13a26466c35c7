-- ===== src/Server/Controllers.antt =====
-- The daemon's `deploy_adhoc_storage` of src/scord/rpc_server.cpp with the controller of
-- src/scord-ctl behind the network.
use io_scheduler.Prelude.{
  ℕ, ◌≡◌, ◌≢◌, true, false, Option, none, some, [], ◌∷◌, arith, has_value, Option-cases, inl, inr,
}
use io_scheduler.Prelude.Bytes.{codes}
use io_scheduler.Types.{Bytes, ErrorCode, AdhocType, AdhocResources, is_success}
use io_scheduler.Network.{Response, RpcInfo}
use io_scheduler.Server.{Server, Remote, RemoteCall, faults, bad_optional_access, start_rpc}
use io_scheduler.Metadata.{AdhocMetadata}
use io_scheduler.Server.Jobs.{adhoc_at}
use io_scheduler.Server.Adhocs.{
  deploy_adhoc_storage, deploy_helper, record_then_respond, record_client, remote_call,
}
use io_scheduler.Controller.Handlers
use io_scheduler.Controller.Handlers.{
  Machine, Controller, choose, refuse, Handled, answers, throws, no_end,
}
use io_scheduler.Controller.Handlers.Runs.{Choice-cases}
use io_scheduler.Controller.Config.{ConfigMap}

-- The nodes of a call; a call to deploy always has some.
pub nodes_of : Option AdhocResources → AdhocResources
nodes_of none = record { nodes = [] }
nodes_of (some resources) = resources

choose-refuse :
    (config : Option ConfigMap) (type : AdhocType) {ec : ErrorCode}
    → choose config type ≡ refuse ec
    → is_success ec ≡ false
unfolding choose
choose-refuse none type e = ground arith
choose-refuse (some []) type e = ground arith
choose-refuse (some (entry ∷ configs)) type e = ground arith

-- The controllers by their addresses, and the address of the daemon.
module _ (m : Machine) (route : Bytes → Option (Controller m)) (daemon : Bytes) where
  -- A handler that throws or does not end responds nothing.
  abbrev response : Handled (Controller m × Response Bytes) → Option (Response Bytes)
  response (answers (ctl, resp)) = some resp
  response throws = none
  response no_end = none

  answer_of : RemoteCall → Option (Controller m) → Option (Response Bytes)
  unfolding nodes_of
  answer_of c none = none
  answer_of c (some ctl) =
      response (Handlers.deploy_adhoc_storage m ctl daemon c.uuid c.type (nodes_of c.resources))

  -- The network as the daemon's call to deploy sees it.
  pub network : Remote
  unfolding answer_of
  network = record {
    lookup = λ address. has_value (route address);
    call = λ c. none;
    call_with_value = λ c. answer_of c (route c.address);
  }

  -- The controller's answer has a directory whenever it is a success.
  answer_of-value :
      (c : RemoteCall) (ctl : Option (Controller m)) {resp : Response Bytes}
      → answer_of c ctl ≡ some resp
      → is_success resp.error_code ≡ true
      → has_value resp.value ≡ true
  unfolding answer_of Handlers.deploy_adhoc_storage
  answer_of-value c none h k = absurd (cc h)
  answer_of-value c (some ctl) h k = elim (Choice-cases (choose ctl.config c.type)) [
    | inl (ec, r) ↦ ground (arith, r, choose-refuse ctl.config c.type r)
    | inr (config, u) ↦ ground (arith, u)
  ]

  deploy_helper-ne :
      {H F : Type 0} (s : Server H F) (rpc : RpcInfo) (adhoc : Option AdhocMetadata)
      → (deploy_helper network s rpc adhoc).1 ≢ faults bad_optional_access
  unfolding deploy_helper network
  deploy_helper-ne s rpc none e = cc
  deploy_helper-ne s rpc (some adhoc) e =
      let storage = adhoc.adhoc_storage in
      let c = remote_call rpc.name adhoc (some storage.resources) in
      let route_of = route storage.context.controller_address in
      elim (Option-cases (answer_of c route_of)) [
        | inl silent ↦ ground (arith, silent)
        | inr (resp, answered) ↦ ground (arith, answered, answer_of-value c route_of answered)
      ]

  -- With controllers behind the network, a deployment that the daemon is asked for never calls
  -- `value()` on an empty optional, whatever the controllers' configurations, files and processes.
  pub deploy_adhoc_storage-has_value :
      {H F : Type 0} (s : Server H F) (from : Bytes) (now id : ℕ)
      → (deploy_adhoc_storage network s from now id).1 ≢ faults bad_optional_access
  unfolding deploy_adhoc_storage record_then_respond record_client
  deploy_adhoc_storage-has_value s from now id e =
      let (rpc, s1) = start_rpc s (codes "ADM_deploy_adhoc_storage") from in
      let adhoc = adhoc_at s.adhoc_manager id in
      let (s2, rv) = deploy_helper network s1 rpc adhoc in
      ground (arith, deploy_helper-ne s1 rpc adhoc)
