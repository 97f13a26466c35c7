-- ===== src/Plugin/Jobs/Told.antt =====
-- What the daemon is told, and answers, in a registration of plugins/slurm/slurmadmcli.c that succeeds.
use io_scheduler.Prelude.{ℕ, ◌≡◌, refl, ap, ◌∙◌, Bool, true, false, none, some, ltb, if◌then◌else◌}
use io_scheduler.Prelude.Bytes.{codes}
use io_scheduler.Types.{
  Bytes, read_write, ExecutionMode, AdhocContext, JobResources, JobRequirements, Job, QosLimit,
  AdhocStorage,
}
use io_scheduler.Conversions.{
  CResources, CAdhocContext, CAdhocStorage, adhoc_storage_to, adhoc_context_of, adhoc_resources_of,
  job_resources_of, job_requirements_of, job_requirements_create,
}
use io_scheduler.Client.{Connection, Ended, returns, terminates, call, then_value}
use io_scheduler.Client
use io_scheduler.Client.Capi
use io_scheduler.Client.Capi.{TransferStatus, return_code, written, stored}
use io_scheduler.Plugin.Settings.{Config}
use io_scheduler.Plugin.Nodes.{NodeList, Resolver, address}
use io_scheduler.Plugin.World.{Wanted, World, server_address, adhoc_resources}
use io_scheduler.Plugin.Jobs.{
  register_storage, register_with, with_job, requirements, with_storage, with_context, register_job,
}
use io_scheduler.Plugin.Jobs.Steps.{
  After, after_then, after_weaken, after_used, after_needed, after_wanted_address,
  after_any_address, Keeps,
}
use io_scheduler.Plugin.Jobs.Registration.{with_job-Keeps}
use io_scheduler.Plugin.Jobs.Answered.{IsAnswered, Makes, expect_made}

module _ {S T : Type 0} (c : Connection S T) (logging : Bool) (status : T → TransferStatus)
    (sleep : S → S) (unset : QosLimit) where
  -- The storage is what the options want, at the addresses of the first node, with as many nodes as
  -- there are, and the daemon has registered it under its number.
  abbrev pub IsWantedStorage : Resolver → Config → Wanted → NodeList → AdhocStorage → S → S → Type 0
  IsWantedStorage r cfg wanted list storage s s' =
      (ctl cargo : Bytes) × (c_res : CResources) × (server_address r cfg.scordctl_info list
        ≡ address ctl)
      × (server_address r cfg.cargo_info list ≡ address cargo)
      × (storage.name ≡ codes "mystorage")
      × (storage.type ≡ wanted.adhoc_type)
      × (storage.context ≡ record {
        controller_address = ctl;
        data_stager_address = cargo;
        exec_mode = wanted.adhoc_mode;
        access_type = read_write;
        walltime = 0;
        should_flush = false;
      })
      × (adhoc_resources wanted.adhoc_nnodes list ≡ some c_res)
      × (adhoc_resources_of c_res ≡ some storage.resources)
      × IsAnswered
          (c.register_adhoc_storage storage.name storage.type storage.context storage.resources s)
          s' storage.id

  -- The daemon has registered the job with its Slurm number, all the nodes and the requirements.
  abbrev pub IsWantedJob : Wanted → NodeList → CAdhocStorage → ℕ → Job → S → S → Type 0
  IsWantedJob wanted list storage jobid job s s' =
      (res : JobResources) × (reqs : JobRequirements) × (job_resources_of
          (record { r_nodes = some list.nodes })
        ≡ some res)
      × (job_requirements_of (
            job_requirements_create wanted.inputs wanted.outputs wanted.expected_outputs
              (some storage))
          ≡ some reqs)
      × (job.slurm_id ≡ jobid)
      × IsAnswered (c.register_job res reqs jobid s) s' job.id

  -- The daemon has registered first the storage and then the job, and the variables that the removal
  -- needs hold them.
  abbrev pub HasTold : Resolver → Config → Wanted → NodeList → ℕ → S → World S → Type 0
  HasTold r cfg wanted list jobid s w' =
      (storage : AdhocStorage) × (job : Job) × (s1 s2 : S) × IsWantedStorage r cfg wanted list
        storage s s1
      × IsWantedJob wanted list (adhoc_storage_to storage) jobid job s1 s2
      × (w'.adhoc_storage ≡ some (adhoc_storage_to storage))
      × (w'.scord_reqs
          ≡ some (
              job_requirements_create wanted.inputs wanted.outputs wanted.expected_outputs
                (some (adhoc_storage_to storage))))
      × (w'.scord_job ≡ some job)

  register_with-IsWantedJob :
      (wanted : Wanted) (list : NodeList) (storage : CAdhocStorage) (jobid : ℕ) (w : World S)
      → After
          (λ job w'.
            (s' : S) × IsWantedJob wanted list storage jobid job w.daemon s'
            × (w' ≡ record w { daemon = s'; scord_job = some job }))
          (register_with c logging status sleep unset
            (record { r_nodes = some list.nodes })
            (requirements c logging status sleep unset wanted storage)
            jobid
            w)
  unfolding Capi.register_job Client.register_job
  register_with-IsWantedJob wanted list storage jobid w =
      let Q : Job → World S → Type 0 = λ job w'.
        (s' : S) × IsWantedJob wanted list storage jobid job w.daemon s'
        × (w' ≡ record w { daemon = s'; scord_job = some job }) in
      let make : ℕ → Job = λ id. record { id = id; slurm_id = jobid } in
      after_used Q (job_resources_of (record { r_nodes = some list.nodes })) w _ (λ res e1.
        after_used Q
          (job_requirements_of (requirements c logging status sleep unset wanted storage)) w _
          (λ reqs e2.
            after_then (Makes make w (c.register_job res reqs jobid w.daemon)) Q _ _
              (expect_made make w logging c.lookup (c.register_job res reqs jobid) w.daemon)
              (λ job w1 (s', id, answered, made, same). (
                s',
                (res, reqs, e1, e2, ap (λ (j : Job). j.slurm_id) made, rw made answered),
                rw same refl,
              ))))

  with_storage-HasTold :
      (rounds : ℕ) (r : Resolver) (cfg : Config) (wanted : Wanted) (list : NodeList) (jobid : ℕ)
      (storage : AdhocStorage) (s : S) (w : World S)
      → IsWantedStorage r cfg wanted list storage s w.daemon
      → w.adhoc_storage ≡ some (adhoc_storage_to storage)
      → After
          (λ _ w'. HasTold r cfg wanted list jobid s w')
          (with_storage c logging status sleep unset rounds wanted list jobid
            (adhoc_storage_to storage)
            w)
  with_storage-HasTold rounds r cfg wanted list jobid storage s w told stored =
      let Q : Unit {0} → World S → Type 0 = λ _ w'. HasTold r cfg wanted list jobid s w' in
      let c_storage = adhoc_storage_to storage in
      let reqs = requirements c logging status sleep unset wanted c_storage in
      let w1 : World S = record w { scord_reqs = some reqs } in
      after_then
        (λ job w'.
          (s' : S) × IsWantedJob wanted list c_storage jobid job w.daemon s'
          × (w' ≡ record w1 { daemon = s'; scord_job = some job }))
        Q
        (register_with c logging status sleep unset (record { r_nodes = some list.nodes }) reqs
          jobid w1)
        _ (register_with-IsWantedJob wanted list c_storage jobid w1)
        (λ job w2 (s2, told_job, same).
          after_weaken (Keeps w2) Q
            (with_job c logging status sleep unset rounds wanted reqs c_storage job w2)
            (with_job-Keeps c logging status sleep unset rounds wanted reqs c_storage job w2)
            (λ a w3 k. (
              storage,
              job,
              w.daemon,
              s2,
              told,
              told_job,
              k.0 ∙ ap (λ (v : World S). v.adhoc_storage) same ∙ stored,
              k.1 ∙ ap (λ (v : World S). v.scord_reqs) same,
              k.2 ∙ ap (λ (v : World S). v.scord_job) same,
            )))

  abbrev context_at : Bytes → Bytes → ExecutionMode → CAdhocContext
  context_at ctl cargo mode = record {
    c_ctl_address = some ctl;
    c_stager_address = some cargo;
    c_mode = mode;
    c_access = read_write;
    c_walltime = 0;
    c_should_bg_flush = false;
  }

  with_context-HasTold :
      (rounds : ℕ) (r : Resolver) (cfg : Config) (wanted : Wanted) (list : NodeList) (jobid : ℕ)
      (ctl cargo : Bytes) (c_res : CResources) (w : World S)
      → server_address r cfg.scordctl_info list ≡ address ctl
      → server_address r cfg.cargo_info list ≡ address cargo
      → adhoc_resources wanted.adhoc_nnodes list ≡ some c_res
      → After
          (λ _ w'. HasTold r cfg wanted list jobid w.daemon w')
          (with_context c logging status sleep unset rounds wanted list jobid c_res
            (context_at ctl cargo wanted.adhoc_mode)
            w)
  unfolding Capi.register_adhoc_storage Client.register_adhoc_storage adhoc_context_of
  with_context-HasTold rounds r cfg wanted list jobid ctl cargo c_res w a1 a2 n =
      let Q : Unit {0} → World S → Type 0 = λ _ w'. HasTold r cfg wanted list jobid w.daemon w' in
      let P : CAdhocStorage → World S → Type 0 = λ c_storage w'.
        (storage : AdhocStorage) × (c_storage ≡ adhoc_storage_to storage)
        × IsWantedStorage r cfg wanted list storage w.daemon w'.daemon
        × (w'.adhoc_storage ≡ some c_storage) in
      let c_ctx = context_at ctl cargo wanted.adhoc_mode in
      let ctx : AdhocContext = record {
        controller_address = ctl;
        data_stager_address = cargo;
        exec_mode = wanted.adhoc_mode;
        access_type = read_write;
        walltime = 0;
        should_flush = false;
      } in
      after_then P Q (register_storage c logging status sleep unset wanted c_ctx c_res w) _
        (after_used P (adhoc_resources_of c_res) w _ (λ res e2.
          let make : ℕ → AdhocStorage = λ id. record {
            type = wanted.adhoc_type;
            name = codes "mystorage";
            id = id;
            context = ctx;
            resources = res;
          } in
          let procedure = c.register_adhoc_storage (codes "mystorage") wanted.adhoc_type ctx res in
          after_then (Makes make w (procedure w.daemon)) P _ _
            (expect_made make w logging c.lookup procedure w.daemon)
            (λ storage w1 (s', id, answered, made, same). (
              make id,
              ap adhoc_storage_to made,
              (ctl, cargo, c_res, a1, a2, refl, refl, refl, n, e2, rw same answered),
              refl,
            ))))
        (λ c_storage w1 (storage, same, told, stored). rw same (
          with_storage-HasTold rounds r cfg wanted list jobid storage w.daemon w1 told
            (stored ∙ ap some same)))

  pub register_job-HasTold :
      (rounds : ℕ) (r : Resolver) (cfg : Config) (wanted : Wanted) (list : NodeList) (jobid : ℕ)
      (w : World S)
      → After
          (λ _ w'. HasTold r cfg wanted list jobid w.daemon w')
          (register_job c logging status sleep unset rounds r cfg wanted list jobid w)
  unfolding register_job
  register_job-HasTold rounds r cfg wanted list jobid w =
      let Q : Unit {0} → World S → Type 0 = λ _ w'. HasTold r cfg wanted list jobid w.daemon w' in
      let w0 : World S = record w { server = true } in
      after_wanted_address Q (server_address r cfg.scordctl_info list) w _ (λ ctl a1.
        after_any_address Q (server_address r cfg.cargo_info list) w _
          (λ cargo a2. after_needed Q (if ltb 0 list.nnodes then some tt else none) w0 _ (λ _ e.
            after_needed Q (adhoc_resources wanted.adhoc_nnodes list) w0 _ (λ res n.
              with_context-HasTold rounds r cfg wanted list jobid ctl cargo res w0 a1 a2 n)))
          (after_needed Q (if ltb 0 list.nnodes then some tt else none) w0 _
            (λ _ e. after_needed Q (adhoc_resources wanted.adhoc_nnodes list) w0 _ (λ res n. tt))))
