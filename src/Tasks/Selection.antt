-- ===== src/Tasks/Selection.antt =====
-- The choice of a worker: the constraints, the load, and the strategies.
use mesh_ml.Prelude.{
  ℕ, ◌*◌, ◌-◌, String, Bool, true, false, ◌||◌, not, Option, none, some, List, [], ◌∷◌, ◌++◌, ltb,
  ◌=ˢ◌, if◌then◌else◌, elem, length, map, filter_by, sorted,
}
use mesh_ml.Redis.{Redis}
use mesh_ml.JobQueue.{JobInfo, list_jobs, a_text}
use mesh_ml.Workers.{
  RegistryWorker, get_compute_score, discover_workers, get_available_workers, match_worker_to_job,
  by_score, first,
}
use mesh_ml.Tasks.Records.{
  AssignmentStrategy, greedy, balanced, best_fit, compute_optimized, cost_optimized, affinity,
  anti_affinity, AssignmentConstraints, WorkerLoad, attribute_error, Attempt, raised, returned,
  and_then, attempt_map, Surroundings, TaskAssignmentService,
}

-- `any(x in ys for x in xs)`
abbrev pub any_in : List String → List String → Bool
any_in [] ys = false
any_in (x ∷ xs) ys = elem x ys || any_in xs ys

-- The worker with an id.
unfoldable pub worker_named : String → List RegistryWorker → Option RegistryWorker
worker_named id [] = none
worker_named id (w ∷ ws) =
    let rest = worker_named id ws in if w.worker_id =ˢ id then some w else rest

-- `key=lambda x: x[1].utilization`, compared by the products
abbrev pub less_loaded : RegistryWorker × WorkerLoad → RegistryWorker × WorkerLoad → Bool
less_loaded (v, l) (w, m) =
    ltb (l.assigned_jobs * m.total_capacity) (m.assigned_jobs * l.total_capacity)

-- `[...][0][0] if ... else None`
abbrev pub first_of_pairs : List (RegistryWorker × WorkerLoad) → Option RegistryWorker
first_of_pairs [] = none
first_of_pairs ((w, l) ∷ rest) = some w

module _ {r : Redis JobInfo} {e : Surroundings} where
  -- `list_jobs(worker_id=worker_id, status="running")`
  unfoldable pub worker_jobs : String → TaskAssignmentService r e → Attempt (List JobInfo)
  unfolding list_jobs
  worker_jobs worker_id s =
      elim (list_jobs e.as_set (some (a_text "running")) none (some worker_id) 100 s.queue) [
        | none ↦ raised attribute_error
        | some jobs ↦ returned jobs
      ]

  unfoldable pub get_worker_jobs : String → TaskAssignmentService r e → Attempt (List String)
  unfolding worker_jobs
  get_worker_jobs worker_id s = attempt_map (map (λ job. job.job_id)) (worker_jobs worker_id s)

  unfoldable pub get_worker_assigned_jobs : String → TaskAssignmentService r e → Attempt ℕ
  unfolding worker_jobs
  get_worker_assigned_jobs worker_id s = attempt_map length (worker_jobs worker_id s)

  unfoldable pub below_capacity :
      ℕ → List RegistryWorker → TaskAssignmentService r e → Attempt (List RegistryWorker)
  unfolding get_worker_assigned_jobs
  below_capacity max_jobs [] s = returned []
  below_capacity max_jobs (w ∷ ws) s =
      let rest = below_capacity max_jobs ws s in
      and_then (get_worker_assigned_jobs w.worker_id s)
        λ n. attempt_map (λ kept. if ltb n max_jobs then w ∷ kept else kept) rest

  unfoldable pub apply_constraints :
      List RegistryWorker
      → AssignmentConstraints
      → TaskAssignmentService r e
      → Attempt (List RegistryWorker)
  unfolding below_capacity
  apply_constraints workers c s =
      let allowed = filter_by (λ w. not (elem w.worker_id c.exclude_workers)) workers in
      let preferred = filter_by (λ w. elem w.worker_id c.preferred_workers) allowed in
      let others = filter_by (λ w. not (elem w.worker_id c.preferred_workers)) allowed in
      below_capacity c.max_jobs_per_worker (preferred ++ others) s

  unfoldable pub get_worker_load : String → TaskAssignmentService r e → Attempt WorkerLoad
  unfolding get_worker_assigned_jobs worker_named
  get_worker_load id s = and_then (get_worker_assigned_jobs id s) λ n. returned (record {
    worker_id = id;
    assigned_jobs = n;
    total_capacity = s.config.batch_size;
    compute_score = elim (worker_named id (discover_workers none 0 (λ _. true) s.discovery)) [
      | none ↦ 0
      | some w ↦ get_compute_score w.capabilities
    ];
    available_capacity = s.config.batch_size - n;
  })

  unfoldable pub worker_loads :
      List RegistryWorker → TaskAssignmentService r e → Attempt (List (RegistryWorker × WorkerLoad))
  unfolding get_worker_load
  worker_loads [] s = returned []
  worker_loads (w ∷ ws) s =
      let rest = worker_loads ws s in
      and_then (get_worker_load w.worker_id s) λ load. attempt_map (λ loads. (w, load) ∷ loads) rest

  unfoldable pub select_least_loaded_worker :
      List RegistryWorker → TaskAssignmentService r e → Attempt (Option RegistryWorker)
  unfolding worker_loads
  select_least_loaded_worker workers s =
      attempt_map (λ loads. first_of_pairs (sorted less_loaded loads)) (worker_loads workers s)

  -- The first worker that runs one of the jobs.
  unfoldable pub running_one_of :
      List String
      → List RegistryWorker
      → TaskAssignmentService r e
      → Attempt (Option RegistryWorker)
  unfolding get_worker_jobs
  running_one_of jobs [] s = returned none
  running_one_of jobs (w ∷ ws) s =
      let rest = running_one_of jobs ws s in
      and_then (get_worker_jobs w.worker_id s)
        λ assigned. if any_in assigned jobs then returned (some w) else rest

  unfoldable pub select_affinity_worker :
      RegistryWorker
      → List RegistryWorker
      → AssignmentConstraints
      → TaskAssignmentService r e
      → Attempt (Option RegistryWorker)
  unfolding running_one_of
  select_affinity_worker w ws c s = elim c.affinity_jobs [
    | [] ↦ returned (some w)
    | _ ∷ _ ↦
        attempt_map (λ found. elim found [ none ↦ some w | some v ↦ some v ])
          (running_one_of c.affinity_jobs (w ∷ ws) s)
  ]

  -- The workers that run none of the jobs.
  unfoldable pub running_none_of :
      List String → List RegistryWorker → TaskAssignmentService r e → Attempt (List RegistryWorker)
  unfolding get_worker_jobs
  running_none_of jobs [] s = returned []
  running_none_of jobs (w ∷ ws) s =
      let rest = running_none_of jobs ws s in
      and_then (get_worker_jobs w.worker_id s)
        λ assigned. attempt_map (λ kept. if any_in assigned jobs then kept else w ∷ kept) rest

  unfoldable pub select_anti_affinity_worker :
      RegistryWorker
      → List RegistryWorker
      → AssignmentConstraints
      → TaskAssignmentService r e
      → Attempt (Option RegistryWorker)
  unfolding running_none_of
  select_anti_affinity_worker w ws c s = elim c.anti_affinity_jobs [
    | [] ↦ returned (some w)
    | _ ∷ _ ↦
        attempt_map (λ free. elim free [ [] ↦ some w | v ∷ _ ↦ some v ])
          (running_none_of c.anti_affinity_jobs (w ∷ ws) s)
  ]

  -- The strategies, on a list of workers that is not empty: `w` is its first.
  unfoldable pub apply_strategy :
      AssignmentStrategy
      → String
      → RegistryWorker
      → List RegistryWorker
      → AssignmentConstraints
      → TaskAssignmentService r e
      → Attempt (Option RegistryWorker)
  unfolding select_least_loaded_worker select_affinity_worker select_anti_affinity_worker
      match_worker_to_job
  apply_strategy greedy job_id w ws c s = returned (some w)
  apply_strategy best_fit job_id w ws c s =
      returned (match_worker_to_job job_id c.require_group s.discovery s.queue)
  apply_strategy compute_optimized job_id w ws c s = returned (first (sorted by_score (w ∷ ws)))
  apply_strategy balanced job_id w ws c s = select_least_loaded_worker (w ∷ ws) s
  apply_strategy affinity job_id w ws c s = select_affinity_worker w ws c s
  apply_strategy anti_affinity job_id w ws c s = select_anti_affinity_worker w ws c s
  apply_strategy cost_optimized job_id w ws c s = returned (some w)

  unfoldable pub select_worker :
      String
      → AssignmentStrategy
      → AssignmentConstraints
      → TaskAssignmentService r e
      → Attempt (Option RegistryWorker)
  unfolding apply_constraints apply_strategy
  select_worker job_id strategy c s =
      elim (get_available_workers c.require_group c.min_gpu_count s.discovery) [
        | [] ↦ returned none
        | v ∷ vs ↦ and_then (apply_constraints (v ∷ vs) c s) λ workers. elim workers [
          | [] ↦ returned none
          | w ∷ ws ↦ apply_strategy strategy job_id w ws c s
        ]
      ]
