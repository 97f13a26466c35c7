-- ===== src/Plugin/Jobs/Removal.antt =====
-- What the removal of a registered job does.
use mathlib.Core.Path.{subst}
use io_scheduler.Prelude.{
  ℕ, ◌≡◌, refl, ap, sym, ◌∙◌, Bool, Option, none, some, List, [], ◌∷◌, ◌++◌, map, length,
}
use io_scheduler.Prelude.Text.{Every}
use io_scheduler.Types.{Bytes, DatasetRoute, Job, QosLimit, AdhocStorage}
use io_scheduler.Conversions.{CAdhocStorage, CRoute, adhoc_storage_to, job_requirements_create}
use io_scheduler.Conversions.RoundTrip.{c_route, HasCIds, routes_kept, copies_kept}
use io_scheduler.Client
use io_scheduler.Client.{Connection}
use io_scheduler.Client.Capi
use io_scheduler.Client.Capi.{TransferStatus}
use io_scheduler.Plugin.Settings.{Config}
use io_scheduler.Plugin.Nodes.{NodeList, Resolver, address}
use io_scheduler.Prelude.Int.{ℤ}
use io_scheduler.Plugin.World.{Wanted, World, Step, continues, Act, then_step, server_address}
use io_scheduler.Plugin.Jobs.{
  transfer, terminate_storage, remove_path, remove_registered, stage_out, unregister_job,
  register_job, at_end,
}
use io_scheduler.Plugin.Jobs.Steps.{After, Keeps}
use io_scheduler.Plugin.Jobs.Registration.{IsRegistered, transfer-Keeps, register_job-IsRegistered}
use io_scheduler.Plugin.Jobs.Stored.{storage_read, then_same}

module _ {S T : Type 0} (c : Connection S T) (logging : Bool) (status : T → TransferStatus)
    (sleep : S → S) (unset : QosLimit) where
  -- The directory of the storage, if it is known.
  abbrev pub with_path : List Bytes → Option Bytes → List Bytes
  with_path removed none = removed
  with_path removed (some path) = removed ++ (path ∷ [])

  -- The world once the storage is terminated, its directory removed and then the job.
  abbrev pub cleared : AdhocStorage → Job → World S → World S
  cleared storage job w =
      let s1 = (Capi.terminate_adhoc_storage c logging storage w.daemon).0 in
      record w {
        daemon = (Capi.remove_job c logging job s1).0;
        removed = with_path w.removed w.adhoc_path;
      }

  abbrev clear : Act S (Unit {0})
  clear w = then_step (terminate_storage c logging status sleep unset w) (λ _ w1.
      then_step (remove_path c logging status sleep unset w1)
        (λ _ w2. remove_registered c logging status sleep unset w2))

  -- The storage is terminated by its number.
  terminated :
      (st storage : AdhocStorage) (s : S)
      → st.id ≡ storage.id
      → Capi.terminate_adhoc_storage c logging st s
        ≡ Capi.terminate_adhoc_storage c logging storage s
  unfolding Capi.terminate_adhoc_storage Client.terminate_adhoc_storage
  terminated st storage s e = rw e refl

  clear_set :
      (storage : AdhocStorage) (job : Job) (w : World S)
      → let w0 : World S = record w {
        adhoc_storage = some (adhoc_storage_to storage);
        scord_job = some job;
      } in
        clear w0 ≡ continues tt (cleared storage job w0)
  clear_set storage job w =
      let (st, e, same) = storage_read storage in
      rw (e, ← terminated st storage w.daemon same)
        (elim w.adhoc_path
          as (λ path.
            let w0 : World S = record w {
              adhoc_storage = some (adhoc_storage_to storage);
              scord_job = some job;
              adhoc_path = path;
              daemon = (Capi.terminate_adhoc_storage c logging st w.daemon).0;
            } in
            then_step (remove_path c logging status sleep unset w0)
              (λ _ w2. remove_registered c logging status sleep unset w2)
            ≡ continues tt (record w0 {
              daemon = (Capi.remove_job c logging job w0.daemon).0;
              removed = with_path w.removed path;
            })) [ none ↦ refl | some path ↦ refl ])

  clear_lem :
      (storage : AdhocStorage) (job : Job) (w : World S)
      → w.adhoc_storage ≡ some (adhoc_storage_to storage)
      → w.scord_job ≡ some job
      → clear w ≡ continues tt (cleared storage job w)
  clear_lem storage job w stored known =
      let same : record w { adhoc_storage = some (adhoc_storage_to storage); scord_job = some job }
          ≡ w =
        λ i. record w { adhoc_storage = sym stored i; scord_job = sym known i } in
      subst (λ v. clear v ≡ continues tt (cleared storage job v)) same (clear_set storage job w)

  -- The transfer of the outputs, if there are any.
  abbrev pub staged_out : ℕ → ℤ → Job → List DatasetRoute → World S → Step S (Unit {0})
  staged_out rounds limit job [] w = continues tt w
  staged_out rounds limit job (route ∷ more) w =
      transfer c logging status sleep unset rounds job (route ∷ more) limit w

  staged_out-Keeps :
      (rounds : ℕ) (limit : ℤ) (job : Job) (routes : List DatasetRoute) (w : World S)
      → After (Keeps w) (staged_out rounds limit job routes w)
  staged_out-Keeps rounds limit job [] w = (refl, refl, refl)
  staged_out-Keeps rounds limit job (route ∷ more) w =
      transfer-Keeps c logging status sleep unset rounds job (route ∷ more) limit w

  stage_out_set :
      (rounds : ℕ) (wanted : Wanted) (outputs : List DatasetRoute) (storage : Option CAdhocStorage)
      (job : Job) (w : World S)
      → Every HasCIds outputs
      → let routes = map c_route outputs in
        let reqs = job_requirements_create wanted.inputs routes wanted.expected_outputs storage in
        let w0 : World S = record w { scord_reqs = some reqs; scord_job = some job } in
        stage_out c logging status sleep unset rounds (length routes) wanted.limit w0
        ≡ staged_out rounds wanted.limit job outputs w0
  unfolding job_requirements_create
  stage_out_set rounds wanted [] storage job w plain = refl
  stage_out_set rounds wanted (route ∷ more) storage job w plain =
      rw (copies_kept (route ∷ more), routes_kept (route ∷ more) plain) refl

  stage_out_lem :
      (rounds : ℕ) (wanted : Wanted) (outputs : List DatasetRoute) (storage : Option CAdhocStorage)
      (job : Job) (w : World S)
      → wanted.outputs ≡ map c_route outputs
      → Every HasCIds outputs
      → w.scord_reqs
        ≡ some
            (job_requirements_create wanted.inputs wanted.outputs wanted.expected_outputs storage)
      → w.scord_job ≡ some job
      → stage_out c logging status sleep unset rounds (length wanted.outputs) wanted.limit w
        ≡ staged_out rounds wanted.limit job outputs w
  stage_out_lem rounds wanted outputs storage job w given plain set known =
      let routes = map c_route outputs in
      let requirements = λ (o : List CRoute).
        job_requirements_create wanted.inputs o wanted.expected_outputs storage in
      let set' : w.scord_reqs ≡ some (requirements routes) =
        set ∙ ap (λ o. some (requirements o)) given in
      let same : record w { scord_reqs = some (requirements routes); scord_job = some job } ≡ w =
        λ i. record w { scord_reqs = sym set' i; scord_job = sym known i } in
      let as_given : record wanted { outputs = routes } ≡ wanted =
        λ i. record wanted { outputs = sym given i } in
      subst
        (λ u.
          stage_out c logging status sleep unset rounds (length u.outputs) wanted.limit w
          ≡ staged_out rounds wanted.limit job outputs w)
        as_given
        (subst
          (λ v.
            stage_out c logging status sleep unset rounds (length routes) wanted.limit v
            ≡ staged_out rounds wanted.limit job outputs v)
          same (stage_out_set rounds wanted outputs storage job w plain))

  unregister_registered :
      (rounds : ℕ) (r : Resolver) (cfg : Config) (wanted : Wanted) (list : NodeList) (w : World S)
      (outputs : List DatasetRoute) (ctl cargo : Bytes)
      → IsRegistered c logging status sleep unset wanted w
      → wanted.outputs ≡ map c_route outputs
      → Every HasCIds outputs
      → server_address r cfg.scordctl_info list ≡ address ctl
      → server_address r cfg.cargo_info list ≡ address cargo
      → (storage : AdhocStorage) × (job : Job) × (w.adhoc_storage ≡ some (adhoc_storage_to storage))
        × (w.scord_job ≡ some job)
        × (unregister_job c logging status sleep unset rounds r cfg
              (length wanted.outputs)
              wanted.limit
              list
              w
            ≡ at_end c logging status sleep unset (
                then_step
                  (staged_out rounds wanted.limit job outputs w)
                  (λ _ w1. continues tt (cleared storage job w1))))
  unfolding unregister_job
  unregister_registered rounds r cfg wanted list w outputs ctl cargo
        (storage, job, stored, reqs, known) given plain a1 a2 =
      let staged = stage_out_lem rounds wanted outputs _ job w given plain reqs known in
      (
        storage,
        job,
        stored,
        known,
        rw (a1, a2, staged)
            (ap (at_end c logging status sleep unset) (
              then_same (Keeps w) (staged_out rounds wanted.limit job outputs w) (λ _. clear)
                (λ _ w1. continues tt (cleared storage job w1))
                (staged_out-Keeps rounds wanted.limit job outputs w)
                (λ _ w1 k. clear_lem storage job w1 (k.0 ∙ stored) (k.2 ∙ known)))),
      )

  -- After a registration that has succeeded and whatever has happened to the daemon since, with routes of the
  -- user as outputs and with the same addresses: if there are outputs they are transferred first, and
  -- a failed transfer ends the removal there; else, or after that, the daemon is told to terminate the
  -- registered storage, the directory of the storage is removed, and the daemon is told to remove
  -- the registered job, whatever it answers. In each case the variables are freed at the end.
  pub register_job-unregister_job :
      (rounds : ℕ) (r : Resolver) (cfg : Config) (wanted : Wanted) (list : NodeList) (jobid : ℕ)
      (w w1 : World S) (later : S) (outputs : List DatasetRoute) (ctl cargo : Bytes)
      → register_job c logging status sleep unset rounds r cfg wanted list jobid w ≡ continues tt w1
      → wanted.outputs ≡ map c_route outputs
      → Every HasCIds outputs
      → server_address r cfg.scordctl_info list ≡ address ctl
      → server_address r cfg.cargo_info list ≡ address cargo
      → let w2 : World S = record w1 { daemon = later } in
        (storage : AdhocStorage) × (job : Job) × (w1.adhoc_storage
          ≡ some (adhoc_storage_to storage))
        × (w1.scord_job ≡ some job)
        × (unregister_job c logging status sleep unset rounds r cfg
              (length wanted.outputs)
              wanted.limit
              list
              w2
            ≡ at_end c logging status sleep unset (
                then_step
                  (staged_out rounds wanted.limit job outputs w2)
                  (λ _ w3. continues tt (cleared storage job w3))))
  register_job-unregister_job rounds r cfg wanted list jobid w w1 later outputs ctl cargo done given
        plain a1 a2 =
      let Q : Unit {0} → World S → Type 0 =
        λ _ w'. IsRegistered c logging status sleep unset wanted w' in
      let registered : IsRegistered c logging status sleep unset wanted w1 =
        subst (After Q) done (
          register_job-IsRegistered c logging status sleep unset rounds r cfg wanted list jobid
            w) in
      unregister_registered rounds r cfg wanted list (record w1 { daemon = later }) outputs ctl
        cargo registered given plain a1 a2
