-- ===== src/Plugin/Jobs/Registration.antt =====
-- What a registration that succeeds leaves for the removal.
use io_scheduler.Prelude.{
  ℕ, ◌≡◌, refl, ap, ◌∙◌, Bool, true, Option, none, some, List, [], ◌∷◌, ◌++◌, length, ltb,
  if◌then◌else◌,
}
use io_scheduler.Prelude.Bytes.{codes}
use io_scheduler.Prelude.Int.{ℤ}
use io_scheduler.Types.{Bytes, DatasetRoute, Job, QosLimit, AdhocStorage}
use io_scheduler.Conversions.{
  CRequirements, CAdhocStorage, CAdhocContext, CResources, adhoc_storage_to, adhoc_context_of,
  adhoc_resources_of, job_resources_of, adhoc_storage_of, job_requirements_of,
  job_requirements_create, routes_from,
}
use io_scheduler.Client.{Connection}
use io_scheduler.Client.Capi
use io_scheduler.Client.Capi.{TransferStatus}
use io_scheduler.Plugin.Settings.{Config}
use io_scheduler.Plugin.Nodes.{NodeList, Resolver}
use io_scheduler.Plugin.World.{
  Wanted, World, used, needed, ctl_address, cargo_address, adhoc_resources, context_create,
  variables_of, expect,
}
use io_scheduler.Plugin.Jobs.{
  transfer, stage_in, register_storage, register_with, deploy, with_job, requirements, with_storage,
  with_context, with_addresses, register_job,
}
use io_scheduler.Plugin.Jobs.Steps.{
  After, after_any, after_then, Keeps, Keeps-trans, after_weaken, used-Keeps, expect-Keeps,
  expect_waited-Keeps,
}

module _ {S T : Type 0} (c : Connection S T) (logging : Bool) (status : T → TransferStatus)
    (sleep : S → S) (unset : QosLimit) where
  -- The variables that the removal needs have been set.
  abbrev pub IsRegistered : Wanted → World S → Type 0
  IsRegistered wanted w =
      (storage : AdhocStorage) × (job : Job) × (w.adhoc_storage ≡ some (adhoc_storage_to storage))
      × (w.scord_reqs
          ≡ some (
              job_requirements_create wanted.inputs wanted.outputs wanted.expected_outputs
                (some (adhoc_storage_to storage))))
      × (w.scord_job ≡ some job)

  abbrev IsStored : CAdhocStorage → World S → Type 0
  IsStored c_storage w =
      (storage : AdhocStorage) × (c_storage ≡ adhoc_storage_to storage)
      × (w.adhoc_storage ≡ some c_storage)

  register_storage-IsStored :
      (wanted : Wanted) (ctx : CAdhocContext) (res : CResources) (w : World S)
      → After IsStored (register_storage c logging status sleep unset wanted ctx res w)
  register_storage-IsStored wanted ctx res w =
      after_any IsStored (used (adhoc_context_of ctx) w) _ (λ ctx' w1.
        after_any IsStored (used (adhoc_resources_of res) w1) _ (λ res' w2.
          after_any IsStored
            (expect
              (Capi.register_adhoc_storage c logging (codes "mystorage") wanted.adhoc_type ctx' res'
                w2.daemon)
              w2)
            _ (λ storage w3. (storage, refl, refl))))

  pub transfer-Keeps :
      (rounds : ℕ) (job : Job) (routes : List DatasetRoute) (limit : ℤ) (w : World S)
      → After (Keeps w) (transfer c logging status sleep unset rounds job routes limit w)
  unfolding transfer
  transfer-Keeps rounds job routes limit w = expect_waited-Keeps _ w

  stage_in-Keeps :
      (rounds : ℕ) (wanted : Wanted) (job : Job) (reqs : CRequirements) (w : World S)
      → After (Keeps w) (stage_in c logging status sleep unset rounds wanted job reqs w)
  stage_in-Keeps rounds wanted job reqs w =
      elim wanted.inputs
        as (λ inputs. After (Keeps w) (
          stage_in c logging status sleep unset rounds (record wanted { inputs = inputs }) job reqs
            w)) [
              | [] ↦ (refl, refl, refl)
              | route ∷ more ↦
                  after_then (Keeps w) (Keeps w) (used reqs.r_inputs w) _
                    (used-Keeps reqs.r_inputs w)
                    (λ array w1 k1.
                      after_then (Keeps w1) (Keeps w)
                        (used (routes_from array 0 (length (route ∷ more))) w1) _
                        (used-Keeps (routes_from array 0 (length (route ∷ more))) w1)
                        (λ routes w2 k2.
                          let w3 : World S = record w2 { daemon = sleep w2.daemon } in
                          after_weaken (Keeps w3) (Keeps w)
                            (transfer c logging status sleep unset rounds job routes wanted.limit
                              w3)
                            (transfer-Keeps rounds job routes wanted.limit w3)
                            (λ a w4 k4. Keeps-trans w w1 w4 k1 (Keeps-trans w1 w3 w4 k2 k4))))
            ]

  deploy-Keeps :
      (c_storage : CAdhocStorage) (w : World S)
      → After (Keeps w) (deploy c logging status sleep unset c_storage w)
  deploy-Keeps c_storage w =
      after_then (Keeps w) (Keeps w) (used (adhoc_storage_of c_storage) w) _
        (used-Keeps (adhoc_storage_of c_storage) w)
        (λ storage w1 k1.
          let answer = Capi.deploy_adhoc_storage c logging true storage w1.daemon in
          after_then (Keeps w1) (Keeps w) (expect answer w1) _ (expect-Keeps answer w1)
            (λ path w2 k2. Keeps-trans w w1 w2 k1 k2))

  pub with_job-Keeps :
      (rounds : ℕ) (wanted : Wanted) (reqs : CRequirements) (storage : CAdhocStorage) (job : Job)
      (w : World S)
      → After (Keeps w) (with_job c logging status sleep unset rounds wanted reqs storage job w)
  with_job-Keeps rounds wanted reqs storage job w =
      after_then (Keeps w) (Keeps w) (deploy c logging status sleep unset storage w) _
        (deploy-Keeps storage w)
        (λ path w1 k1.
          let variables = variables_of wanted.adhoc_type ++ (codes "ADHOC_PATH", path) ∷ [] in
          let w2 : World S = record w1 { environment = w1.environment ++ variables } in
          after_weaken (Keeps w2) (Keeps w)
            (stage_in c logging status sleep unset rounds wanted job reqs w2)
            (stage_in-Keeps rounds wanted job reqs w2) (λ a w3 k3. Keeps-trans w w1 w3 k1 k3))

  abbrev HasJob : World S → Job → World S → Type 0
  HasJob w job w' =
      (w'.adhoc_storage ≡ w.adhoc_storage)
      × (w'.scord_reqs ≡ w.scord_reqs)
      × (w'.scord_job ≡ some job)

  register_with-HasJob :
      (res : CResources) (reqs : CRequirements) (jobid : ℕ) (w : World S)
      → After (HasJob w) (register_with c logging status sleep unset res reqs jobid w)
  register_with-HasJob c_res c_reqs jobid w =
      after_then (Keeps w) (HasJob w) (used (job_resources_of c_res) w) _
        (used-Keeps (job_resources_of c_res) w)
        (λ res w1 k1.
          after_then (Keeps w1) (HasJob w) (used (job_requirements_of c_reqs) w1) _
            (used-Keeps (job_requirements_of c_reqs) w1)
            (λ reqs w2 k2.
              let answer = Capi.register_job c logging res reqs jobid w2.daemon in
              after_then (Keeps w2) (HasJob w) (expect answer w2) _ (expect-Keeps answer w2)
                (λ job w3 k3.
                  let k = Keeps-trans w w1 w3 k1 (Keeps-trans w1 w2 w3 k2 k3) in (k.0, k.1, refl))))

  with_storage-IsRegistered :
      (rounds : ℕ) (wanted : Wanted) (list : NodeList) (jobid : ℕ) (storage : AdhocStorage)
      (w : World S)
      → w.adhoc_storage ≡ some (adhoc_storage_to storage)
      → After
          (λ _ w'. IsRegistered wanted w')
          (with_storage c logging status sleep unset rounds wanted list jobid
            (adhoc_storage_to storage)
            w)
  with_storage-IsRegistered rounds wanted list jobid storage w stored =
      let Q : Unit {0} → World S → Type 0 = λ _ w'. IsRegistered wanted w' in
      let reqs = requirements c logging status sleep unset wanted (adhoc_storage_to storage) in
      let w1 : World S = record w { scord_reqs = some reqs } in
      let c_res : CResources = record { r_nodes = some list.nodes } in
      after_then (HasJob w1) Q (register_with c logging status sleep unset c_res reqs jobid w1) _
        (register_with-HasJob c_res reqs jobid w1)
        (λ job w2 has.
          after_weaken (Keeps w2) Q
            (with_job c logging status sleep unset rounds wanted reqs (adhoc_storage_to storage) job
              w2)
            (with_job-Keeps rounds wanted reqs (adhoc_storage_to storage) job w2)
            (λ a w3 k. (storage, job, k.0 ∙ has.0 ∙ stored, k.1 ∙ has.1, k.2 ∙ has.2)))

  with_context-IsRegistered :
      (rounds : ℕ) (wanted : Wanted) (list : NodeList) (jobid : ℕ) (res : CResources)
      (ctx : CAdhocContext) (w : World S)
      → After
          (λ _ w'. IsRegistered wanted w')
          (with_context c logging status sleep unset rounds wanted list jobid res ctx w)
  with_context-IsRegistered rounds wanted list jobid res ctx w =
      let Q : Unit {0} → World S → Type 0 = λ _ w'. IsRegistered wanted w' in
      after_then IsStored Q (register_storage c logging status sleep unset wanted ctx res w) _
        (register_storage-IsStored wanted ctx res w)
        (λ c_storage w1 (storage, same, stored).
          rw same
            (with_storage-IsRegistered rounds wanted list jobid storage w1 (stored ∙ ap some same)))

  with_addresses-IsRegistered :
      (rounds : ℕ) (wanted : Wanted) (list : NodeList) (jobid : ℕ) (ctl : Bytes)
      (cargo : Option Bytes) (w : World S)
      → After
          (λ _ w'. IsRegistered wanted w')
          (with_addresses c logging status sleep unset rounds wanted list jobid ctl cargo w)
  with_addresses-IsRegistered rounds wanted list jobid ctl cargo w =
      let Q : Unit {0} → World S → Type 0 = λ _ w'. IsRegistered wanted w' in
      let w0 : World S = record w { server = true } in
      after_any Q (needed (if ltb 0 list.nnodes then some tt else none) w0) _ (λ _ w1.
        after_any Q (needed (adhoc_resources wanted.adhoc_nnodes list) w1) _ (λ res w2.
          after_any Q (needed (context_create ctl cargo wanted.adhoc_mode) w2) _
            (λ ctx w3. with_context-IsRegistered rounds wanted list jobid res ctx w3)))

  pub register_job-IsRegistered :
      (rounds : ℕ) (r : Resolver) (cfg : Config) (wanted : Wanted) (list : NodeList) (jobid : ℕ)
      (w : World S)
      → After
          (λ _ w'. IsRegistered wanted w')
          (register_job c logging status sleep unset rounds r cfg wanted list jobid w)
  unfolding register_job
  register_job-IsRegistered rounds r cfg wanted list jobid w =
      let Q : Unit {0} → World S → Type 0 = λ _ w'. IsRegistered wanted w' in
      after_any Q (ctl_address r cfg list w) _ (λ ctl w1.
        after_any Q (cargo_address r cfg list w1) _
          (λ cargo w2. with_addresses-IsRegistered rounds wanted list jobid ctl cargo w2))
