-- ===== src/Tasks/Batches.antt =====
-- The assignment of a batch of jobs, under each load balancing policy.
use mesh_ml.Prelude.{
  ℕ, ◌+◌, ◌-◌, ◌%◌, String, Bool, true, false, Option, none, some, List, [], ◌∷◌, ltb, ◌==◌,
  if◌then◌else◌, length, get_elem?, map,
}
use mesh_ml.Prelude.Dict.{lookup, insert, contains}
use mesh_ml.Redis.{Redis}
use mesh_ml.JobQueue.{JobInfo, JobPriority, priority_value, get_job, truthy}
use mesh_ml.Workers.{RegistryWorker, get_compute_score, get_available_workers}
use mesh_ml.Tasks.Records.{
  AssignmentStrategy, success, partial_success, failed, no_workers_available,
  insufficient_resources, AssignmentConstraints, AssignmentResult, BatchAssignmentResult,
  zero_division_error, index_error, Attempt, raised, returned, attempt_map, Surroundings,
  TaskAssignmentService,
}
use mesh_ml.Tasks.Selection.{apply_constraints}
use mesh_ml.Tasks.Assigning.{
  without_worker, shards_or_empty, assigned_result, shards_for, discovery_assign, assign_job,
}

-- The result of the weighted and of the prioritised policy: the score and the shards are there in
-- either case.
abbrev pub either_result : ℕ → String → RegistryWorker → Option (List ℕ) → Bool → AssignmentResult
either_result now job_id w shard_ids true = assigned_result now job_id w shard_ids ""
either_result now job_id w shard_ids false = record (without_worker job_id failed "" none) {
  shard_ids = shards_or_empty shard_ids;
  compute_score = get_compute_score w.capabilities;
}

-- `key=lambda x: x[1], reverse=True`, compared
abbrev pub more_urgent : String × JobPriority → String × JobPriority → Bool
more_urgent (i, p) (j, q) = ltb (priority_value q) (priority_value p)

abbrev pub is_success : AssignmentResult → Bool
is_success result = elim result.status [
  | success ↦ true
  | partial_success ↦ false
  | failed ↦ false
  | no_workers_available ↦ false
  | insufficient_resources ↦ false
]

-- `len` of the successes
unfoldable pub count_success : List AssignmentResult → ℕ
count_success [] = 0
count_success (a ∷ rest) = (if is_success a then 1 else 0) + count_success rest

-- What `assign_batch` counts.
unfoldable pub totals : ℕ → List AssignmentResult → BatchAssignmentResult
unfolding count_success
totals total results = record {
  total_jobs = total;
  successful = count_success results;
  failed = length results - count_success results;
  assignments = results;
}

-- `constraints.require_group or "default"`
abbrev pub group_key : AssignmentConstraints → String
group_key c =
    if truthy c.require_group
    then elim c.require_group [ none ↦ "default" | some g ↦ g ]
    else "default"

module _ {r : Redis JobInfo} {e : Surroundings} where
  -- A job for a worker that is chosen: the shards, and whether the job was assigned.
  unfoldable pub assign_to :
      ℕ
      → String
      → RegistryWorker
      → TaskAssignmentService r e
      → TaskAssignmentService r e × Attempt (Option (List ℕ) × Bool)
  unfolding shards_for discovery_assign
  assign_to now job_id w s =
      let (s', ids) : TaskAssignmentService r e × Attempt (Option (List ℕ)) =
        elim (get_job job_id s.queue) [
          | none ↦ (s, returned none)
          | some job ↦ shards_for job w.worker_id none s
        ] in
      elim ids [
        | raised f ↦ (s', raised f)
        | returned found ↦
            let (s'', done) = discovery_assign now job_id w.worker_id found s' in
            (s'', returned (found, done))
      ]

  -- `for job_id in job_ids`, with what the loop carries on. A step is told the jobs that are left.
  unfoldable pub each_job {ℓ} :
      {K : Type ℓ}
      → (K
          → String
          → List String
          → TaskAssignmentService r e
          → TaskAssignmentService r e × Attempt (K × AssignmentResult))
      → K
      → List String
      → TaskAssignmentService r e
      → TaskAssignmentService r e × Attempt (List AssignmentResult)
  each_job step k [] s = (s, returned [])
  each_job step k (id ∷ ids) s =
      let (s', answer) = step k id ids s in
      elim answer [
        | raised f ↦ (s', raised f)
        | returned (k', result) ↦
            let (s'', rest) = each_job step k' ids s' in
            (s'', attempt_map (λ results. result ∷ results) rest)
      ]

  -- `self.round_robin_index[group_id]`
  abbrev pub rotation : String → TaskAssignmentService r e → ℕ
  rotation group_id s = elim (lookup group_id s.round_robin_index) [ none ↦ 0 | some i ↦ i ]

  unfoldable pub round_robin_step :
      ℕ
      → String
      → List RegistryWorker
      → Unit {0}
      → String
      → List String
      → TaskAssignmentService r e
      → TaskAssignmentService r e × Attempt (Unit {0} × AssignmentResult)
  unfolding assign_to
  round_robin_step now group_id workers k job_id rest s =
      if length workers == 0
      then (s, raised zero_division_error)
      else elim (get_elem? workers (rotation group_id s % length workers)) [
        | none ↦ (s, raised index_error)
        | some w ↦
            let turned = record s {
              round_robin_index = insert group_id (rotation group_id s + 1) s.round_robin_index;
            } in
            let (s', answer) = assign_to now job_id w turned in
            (
              s',
              attempt_map
                  (λ pair. (
                    tt,
                    if pair.1
                        then assigned_result now job_id w pair.0 ""
                        else without_worker job_id failed "" (some "Assignment failed"),
                  ))
                  answer,
            )
      ]

  -- `if group_id not in self.round_robin_index: ...`
  abbrev pub with_rotation : String → TaskAssignmentService r e → TaskAssignmentService r e
  with_rotation group_id s =
      if contains group_id s.round_robin_index
      then s
      else record s { round_robin_index = insert group_id 0 s.round_robin_index }

  unfoldable pub assign_batch_round_robin :
      ℕ
      → List String
      → AssignmentConstraints
      → TaskAssignmentService r e
      → TaskAssignmentService r e × Attempt (List AssignmentResult)
  unfolding each_job round_robin_step apply_constraints
  assign_batch_round_robin now job_ids c s =
      elim (get_available_workers c.require_group c.min_gpu_count s.discovery) [
        | [] ↦ (
          s,
          returned (
              map (λ id. without_worker id no_workers_available "No workers available" none)
                job_ids),
        )
        | w ∷ ws ↦ elim (apply_constraints (w ∷ ws) c s) [
          | raised f ↦ (s, raised f)
          | returned workers ↦
              each_job (round_robin_step now (group_key c) workers) tt job_ids
                (with_rotation (group_key c) s)
        ]
      ]

  unfoldable pub turn_step :
      ℕ
      → Option AssignmentStrategy
      → AssignmentConstraints
      → String
      → List String
      → TaskAssignmentService r e
      → TaskAssignmentService r e × Attempt (AssignmentConstraints × AssignmentResult)
  unfolding assign_job
  turn_step now strategy c job_id rest s =
      let (s', c', result) = assign_job now job_id strategy c none s in (s', returned (c', result))

  -- `assign_job` for each, with the one object of constraints.
  unfoldable pub assign_in_turn :
      ℕ
      → Option AssignmentStrategy
      → List String
      → AssignmentConstraints
      → TaskAssignmentService r e
      → TaskAssignmentService r e × Attempt (List AssignmentResult)
  unfolding each_job turn_step
  assign_in_turn now strategy job_ids c s = each_job (turn_step now strategy) c job_ids s
