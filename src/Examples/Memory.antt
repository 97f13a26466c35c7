-- ===== src/Examples/Memory.antt =====
-- The memory of a list of two routes, and of a route.
use io_scheduler.Prelude.{◌+◌, ◌≡◌, true, false, none, some, [], ◌∷◌}
use io_scheduler.Memory.{Dataset, Route}
use io_scheduler.Memory.Requirements.{
  Storage, job_requirements_create, job_requirements_destroy,
  job_requirements_create-job_requirements_destroy,
}
use io_scheduler.Memory.Structures.{
  resources_create, resources_destroy, adhoc_context_create, adhoc_context_destroy,
  pfs_context_create, pfs_context_destroy, pfs_storage_create, pfs_storage_destroy,
}
use io_scheduler.Memory.Structures.Balance.{resources_create-resources_destroy}
use io_scheduler.Memory.Structures.Limits.{
  make_limits, qos_limit_list_create, qos_limit_list_destroy, destroy_each, qos_limit_destroy,
  qos_limit_destroy_all, entity_blocks, qos_limit_list_destroy_shares,
}
use io_scheduler.Memory.Balance.{one_if, taken, returned}

-- A dataset with an identifier, one without, and a route between them.
abbrev named : Dataset
named = record { block = 0; d_id = some 1 }

abbrev unnamed : Dataset
unnamed = record { block = 2; d_id = none }

abbrev route : Route
route = record { d_src = some named; d_dst = some unnamed }

abbrev given : Storage
given = record { block = 0; s_name = 1; s_adhoc_ctx = 2 }

job_requirements_create-job_requirements_destroy_example :
    let (reqs, made) = job_requirements_create (route ∷ []) [] (route ∷ []) (some given) [] in
    let after = job_requirements_destroy reqs made in taken 3 after + 0 ≡ returned 3 after + 0
job_requirements_create-job_requirements_destroy_example =
    job_requirements_create-job_requirements_destroy 3 (route ∷ []) [] (route ∷ []) (some given) []

resources_create-resources_destroy_example :
    (let (res, made) = resources_create (some 0 ∷ none ∷ []) [] in
      let after = resources_destroy res made in taken 3 after + 0 ≡ returned 3 after + 0)
    × (let (ctx, made) = adhoc_context_create [] in
        let after = adhoc_context_destroy ctx made in
        taken 3 after + 0
        ≡ (one_if 3 ctx.c_ctl_address + one_if 3 ctx.c_stager_address) + (returned 3 after + 0))
    × (let (ctx, made) = pfs_context_create [] in
        let after = pfs_context_destroy ctx made in
        taken 3 after + 0 ≡ one_if 3 ctx.c_mount + (returned 3 after + 0))
    × (let (st, made) = pfs_storage_create true false [] in
        let after = pfs_storage_destroy st made in
        taken 3 after + 0 ≡ one_if 3 0 + (returned 3 after + 0))
resources_create-resources_destroy_example =
    resources_create-resources_destroy 3 (some 0 ∷ none ∷ []) true false []

qos_limit_list_destroy_shares_example :
    let (limits, h1) = make_limits 2 [] in
    let (list, h2) = qos_limit_list_create limits h1 in
    let left = qos_limit_list_destroy list h2 in
    let once = destroy_each qos_limit_destroy limits left in
    let twice = destroy_each qos_limit_destroy_all limits left in
    (taken 2 once + 0 ≡ returned 2 once + 0)
    × ((taken 2 twice + 0) + entity_blocks 2 limits ≡ returned 2 twice + 0)
qos_limit_list_destroy_shares_example = qos_limit_list_destroy_shares 2 2 []
