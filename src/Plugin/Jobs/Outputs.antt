-- ===== src/Plugin/Jobs/Outputs.antt =====
-- Jobs with more outputs than inputs.
use mathlib.Core.Path.{subst}
use io_scheduler.Prelude.{
  ℕ, ◌≡◌, ◌≢◌, ◌<◌, Bool, true, Option, none, some, List, [], map, length, ltb, if◌then◌else◌,
  arith,
}
use io_scheduler.Prelude.Text.{Every}
use io_scheduler.Types.{Bytes, DatasetRoute, QosLimit}
use io_scheduler.Conversions.{
  CRoute, CAdhocStorage, CResources, job_requirements_of, job_requirements_create, job_resources_of,
}
use io_scheduler.Conversions.RoundTrip.{
  c_route, HasCIds, routes_from_lem, routes_kept, copies_kept, length-map,
}
use io_scheduler.Client.{Connection}
use io_scheduler.Client.Capi.{TransferStatus}
use io_scheduler.Plugin.Settings.{Config}
use io_scheduler.Plugin.Nodes.{NodeList, Resolver}
use io_scheduler.Plugin.World.{
  Wanted, World, Step, continues, used, needed, ctl_address, cargo_address, adhoc_resources,
  context_create,
}
use io_scheduler.Plugin.Jobs.{
  register_storage, register_with, with_storage, with_addresses, register_job, requirements,
}
use io_scheduler.Plugin.Jobs.Steps.{After, after_any, after_then}

requirements_overrun :
    (inputs outputs : List DatasetRoute) (expected : List CRoute) (storage : Option CAdhocStorage)
    → Every HasCIds inputs
    → length inputs < length outputs
    → job_requirements_of
        (job_requirements_create (map c_route inputs) (map c_route outputs) expected storage)
      ≡ none
unfolding job_requirements_of job_requirements_create
requirements_overrun inputs outputs expected storage h lt =
    let read = routes_from_lem [] inputs (length (map c_route outputs)) h in
    rw (copies_kept inputs, copies_kept outputs)
      (ground (arith, routes_kept inputs h, read, length-map c_route outputs))

abbrev Never : {A S : Type 0} → A → World S → Type 0
Never a w = ⊥

module _ {S T : Type 0} (c : Connection S T) (logging : Bool) (status : T → TransferStatus)
    (sleep : S → S) (unset : QosLimit) (wanted : Wanted) (inputs outputs : List DatasetRoute)
    (plain : Every HasCIds inputs) (given_inputs : wanted.inputs ≡ map c_route inputs)
    (given_outputs : wanted.outputs ≡ map c_route outputs)
    (more : length inputs < length outputs) where
  with_storage-Never :
      (rounds : ℕ) (list : NodeList) (jobid : ℕ) (storage : CAdhocStorage) (w : World S)
      → After Never (with_storage c logging status sleep unset rounds wanted list jobid storage w)
  with_storage-Never rounds list jobid storage w =
      let reqs = requirements c logging status sleep unset wanted storage in
      let w1 : World S = record w { scord_reqs = some reqs } in
      let c_res : CResources = record { r_nodes = some list.nodes } in
      let overrun : job_requirements_of reqs ≡ none =
        rw (given_inputs, given_outputs)
          (requirements_overrun inputs outputs wanted.expected_outputs (some storage) plain more) in
      after_then Never Never (register_with c logging status sleep unset c_res reqs jobid w1) _
        (after_any Never (used (job_resources_of c_res) w1) _ (λ res w2. rw overrun tt))
        (λ job w2 h. elim h [ ])

  with_addresses-Never :
      (rounds : ℕ) (list : NodeList) (jobid : ℕ) (ctl : Bytes) (cargo : Option Bytes) (w : World S)
      → After Never
          (with_addresses c logging status sleep unset rounds wanted list jobid ctl cargo w)
  with_addresses-Never rounds list jobid ctl cargo w =
      let w0 : World S = record w { server = true } in
      after_any Never (needed (if ltb 0 list.nnodes then some tt else none) w0) _ (λ _ w1.
        after_any Never (needed (adhoc_resources wanted.adhoc_nnodes list) w1) _ (λ res w2.
          after_any Never (needed (context_create ctl cargo wanted.adhoc_mode) w2) _ (λ ctx w3.
            after_any Never (register_storage c logging status sleep unset wanted ctx res w3) _
              (λ storage w4. with_storage-Never rounds list jobid storage w4))))

  continues-Never : (m : Step S (Unit {0})) (w' : World S) → After Never m → m ≢ continues tt w'
  continues-Never m w' h e = subst (After Never) e h

  -- Routes given by the user with more outputs than inputs: whatever the daemon answers, the
  -- registration of the job does not succeed.
  pub register_job_outputs :
      (rounds : ℕ) (r : Resolver) (cfg : Config) (list : NodeList) (jobid : ℕ) (w w' : World S)
      → register_job c logging status sleep unset rounds r cfg wanted list jobid w ≢ continues tt w'
  unfolding register_job
  register_job_outputs rounds r cfg list jobid w w' =
      continues-Never (register_job c logging status sleep unset rounds r cfg wanted list jobid w)
        w'
        (after_any Never (ctl_address r cfg list w) _ (λ ctl w1.
          after_any Never (cargo_address r cfg list w1) _
            (λ cargo w2. with_addresses-Never rounds list jobid ctl cargo w2)))
