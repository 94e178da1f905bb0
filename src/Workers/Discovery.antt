-- ===== src/Workers/Discovery.antt =====
-- `WorkerDiscoveryService`: the pools of the groups, and the match of a job with a worker.
use mesh_ml.Prelude.{
  ℕ, ◌*◌, String, Bool, true, false, ◌&&◌, ◌||◌, not, Option, none, some, List, [], ◌∷◌, ltb, leb,
  ◌==◌, if◌then◌else◌, length, filter_by, sorted,
}
use mesh_ml.Prelude.Dict.{Dict, lookup, insert}
use mesh_ml.Redis.{Redis}
use mesh_ml.JobQueue.{
  JobInfo, JobRequirements, Db, get_job, assign_job_to_worker, release_job_from_worker,
}
use mesh_ml.Workers.Registry.{
  WorkerStatus, WorkerCapabilities, get_compute_score, RegistryWorker, named, list_workers,
  registry_assign,
}
use mesh_ml.Workers.Membership.{WorkerPool, Service}

-- `[WorkerStatus.IDLE, WorkerStatus.ONLINE]`
abbrev pub is_available : WorkerStatus → Bool
is_available WorkerStatus.idle = true
is_available WorkerStatus.online = true
is_available _ = false

-- The status filter is a test; no filter is the test that always holds.
unfoldable pub discover_workers :
    Option String → ℕ → (WorkerStatus → Bool) → Service → List RegistryWorker
unfolding list_workers
discover_workers group_id min_gpu_count status_filter s =
    filter_by (λ w. status_filter w.status) (list_workers group_id min_gpu_count s.registry)

unfoldable pub get_available_workers : Option String → ℕ → Service → List RegistryWorker
unfolding discover_workers
get_available_workers group_id min_gpu_count s =
    discover_workers group_id min_gpu_count is_available s

unfoldable pub meets : JobRequirements → WorkerCapabilities → Bool
meets job_req caps =
    leb job_req.min_gpu_count caps.gpu_count
    && leb job_req.min_gpu_memory_gb caps.gpu_memory_gb
    && leb job_req.min_cpu_count caps.cpu_count
    && leb job_req.min_ram_gb caps.ram_gb
    && (not job_req.requires_cuda || caps.supports_cuda)
    && (not job_req.requires_mps || caps.supports_mps)

-- `key=lambda w: w.capabilities.get_compute_score(), reverse=True`, compared
abbrev pub by_score : RegistryWorker → RegistryWorker → Bool
by_score v w = ltb (get_compute_score w.capabilities) (get_compute_score v.capabilities)

-- The first of a list, if there is one.
abbrev pub first : List RegistryWorker → Option RegistryWorker
first [] = none
first (w ∷ ws) = some w

-- The best of the workers that meet the requirements.
unfoldable pub best_worker : JobRequirements → List RegistryWorker → Option RegistryWorker
unfolding meets
best_worker job_req workers =
    first (sorted by_score (filter_by (λ w. meets job_req w.capabilities) workers))

-- `if not group_id: group_id = job.metadata.group_id`
abbrev pub group_for : Option String → JobInfo → String
group_for group_id job = elim (named group_id) [ none ↦ job.metadata.group_id | some g ↦ g ]

unfoldable pub match_worker_to_job :
    {r : Redis JobInfo} → String → Option String → Service → Db r → Option RegistryWorker
unfolding best_worker get_available_workers
match_worker_to_job job_id group_id s db = elim (get_job job_id db) [
  | none ↦ none
  | some job ↦
      best_worker job.metadata.requirements
        (get_available_workers (some (group_for group_id job)) 0 s)
]

-- `shard_ids[0] if shard_ids else None`
abbrev pub first_shard : Option (List ℕ) → Option ℕ
first_shard none = none
first_shard (some []) = none
first_shard (some (s ∷ ss)) = some s

-- Both assignments, and the release when the second one fails.
unfoldable pub assign_both :
    {r : Redis JobInfo}
    → ℕ
    → String
    → String
    → Option (List ℕ)
    → Service
    → Db r
    → Service × Db r × Bool
assign_both now job_id worker_id shard_ids s db =
    let (db', job_success) = assign_job_to_worker now job_id worker_id shard_ids db in
    if job_success
    then (let (workers, worker_success) =
          registry_assign worker_id job_id (first_shard shard_ids) s.registry in
        if worker_success then (record s { registry = workers }, db', true) else (
          s,
          (release_job_from_worker now job_id worker_id "registry_assignment_failed" db').0,
          false,
        ))
    else (s, db', false)

-- `WorkerDiscoveryService.assign_job_to_worker`
unfoldable pub match_and_assign :
    {r : Redis JobInfo}
    → ℕ
    → String
    → Option String
    → Option (List ℕ)
    → Service
    → Db r
    → Service × Db r × Bool
unfolding match_worker_to_job assign_both
match_and_assign now job_id worker_id shard_ids s db = elim (named worker_id) [
  | some w ↦ assign_both now job_id w shard_ids s db
  | none ↦ elim (match_worker_to_job job_id none s db) [
    | none ↦ (s, db, false)
    | some w ↦ assign_both now job_id w.worker_id shard_ids s db
  ]
]

pub data WorkerPoolStatus : Type 0 where
  healthy degraded critical offline : WorkerPoolStatus

-- The comparisons of the ratio, multiplied out.
unfoldable pub rate : ℕ → ℕ → WorkerPoolStatus
rate healthy_count total =
    if leb (8 * total) (10 * healthy_count)
    then healthy
    else if leb (5 * total) (10 * healthy_count)
    then degraded
    else if leb (2 * total) (10 * healthy_count)
    then critical
    else offline

unfoldable pub get_pool_status : String → Service → WorkerPoolStatus
unfolding discover_workers rate
get_pool_status group_id s = elim (lookup group_id s.pools) [
  | none ↦ offline
  | some pool ↦
      let workers = discover_workers (some group_id) 0 (λ _. true) s in
      let healthy_workers = filter_by (λ w. is_available w.status) workers in
      if length pool.worker_ids == 0
      then offline
      else if length workers == 0
      then offline
      else rate (length healthy_workers) (length workers)
]

abbrev pub is_active : WorkerStatus → Bool
is_active WorkerStatus.idle = true
is_active WorkerStatus.online = true
is_active WorkerStatus.busy = true
is_active _ = false

abbrev pub is_busy : WorkerStatus → Bool
is_busy WorkerStatus.busy = true
is_busy _ = false

pub data ScalingAction : Type 0 where
  scale_up scale_down : ScalingAction

-- One round of the loop of `check_scaling_needs`, whose groups are the keys of the pools.
unfoldable pub scaling_action : String → WorkerPool → Service → Option ScalingAction
unfolding discover_workers
scaling_action group_id pool s =
    let active =
      filter_by (λ w. is_active w.status) (discover_workers (some group_id) 0 (λ _. true) s) in
    let busy = length (filter_by (λ w. is_busy w.status) active) in
    if not pool.auto_scale
    then none
    else if ltb (length active) pool.min_workers
    then some scale_up
    else if ltb (pool.min_workers * 2) (length active) && ltb (2 * busy) (length active)
    then some scale_down
    else none

abbrev pub put_action : String → Option ScalingAction → Dict ScalingAction → Dict ScalingAction
put_action group_id none needs = needs
put_action group_id (some action) needs = insert group_id action needs

unfoldable pub scaling_from : Dict WorkerPool → Service → Dict ScalingAction → Dict ScalingAction
unfolding scaling_action
scaling_from [] s needs = needs
scaling_from ((g, pool) ∷ pools) s needs =
    scaling_from pools s (put_action g (scaling_action g pool s) needs)

unfoldable pub check_scaling_needs : Service → Dict ScalingAction
unfolding scaling_from
check_scaling_needs s = scaling_from s.pools s []
