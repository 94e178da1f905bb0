-- ===== src/Tasks/Policies.antt =====
-- The other load balancing policies, and `assign_batch`.
use mesh_ml.Prelude.{
  ℕ, ◌+◌, ◌%◌, String, ◌||◌, Option, none, some, List, [], ◌∷◌, leb, ◌==◌, if◌then◌else◌, length,
  get_elem?, map, sum, sorted,
}
use mesh_ml.Redis.{Redis}
use mesh_ml.JobQueue.{JobInfo, JobPriority, get_job}
use mesh_ml.Workers.{RegistryWorker, get_compute_score, get_available_workers, by_score}
use mesh_ml.Tasks.Records.{
  AssignmentStrategy, balanced, LoadBalancingPolicy, round_robin, least_loaded,
  weighted_round_robin, random, priority_based, no_workers_available, AssignmentConstraints,
  AssignmentResult, BatchAssignmentResult, zero_division_error, index_error, Attempt, raised,
  returned, attempt_map, Surroundings, TaskAssignmentService,
}
use mesh_ml.Tasks.Selection.{apply_constraints}
use mesh_ml.Tasks.Assigning.{without_worker}
use mesh_ml.Tasks.Batches.{
  either_result, more_urgent, totals, assign_to, each_job, assign_batch_round_robin, assign_in_turn,
}

module _ {r : Redis JobInfo} {e : Surroundings} where
  -- The accumulated weight is kept times the total score. `rest` tells whether this is the last job.
  unfoldable pub weighted_step :
      ℕ
      → ℕ
      → List RegistryWorker
      → ℕ × ℕ
      → String
      → List String
      → TaskAssignmentService r e
      → TaskAssignmentService r e × Attempt ((ℕ × ℕ) × AssignmentResult)
  unfolding assign_to
  weighted_step now total workers (gathered, i) job_id rest s = elim (get_elem? workers i) [
    | none ↦ (s, raised index_error)
    | some v ↦
        let sum' = gathered + get_compute_score v.capabilities in
        let turns = leb total sum' || length rest == 0 in
        let (gathered', i') : ℕ × ℕ = if turns then (0, (i + 1) % length workers) else (sum', i) in
        elim (get_elem? workers i') [
          | none ↦ (s, raised index_error)
          | some w ↦
              let (s', answer) = assign_to now job_id w s in
              (
                s',
                attempt_map (λ pair. ((gathered', i'), either_result now job_id w pair.0 pair.1))
                    answer,
              )
        ]
  ]

  -- The division by the total score comes before the loop.
  unfoldable pub weighted_loop :
      ℕ
      → List RegistryWorker
      → List String
      → TaskAssignmentService r e
      → TaskAssignmentService r e × Attempt (List AssignmentResult)
  unfolding each_job weighted_step
  weighted_loop now workers job_ids s =
      let total = sum (map (λ w. get_compute_score w.capabilities) workers) in
      if total == 0
      then elim workers [
        | [] ↦ each_job (weighted_step now total []) (0, 0) job_ids s
        | w ∷ ws ↦ (s, raised zero_division_error)
      ]
      else each_job (weighted_step now total workers) (0, 0) job_ids s

  unfoldable pub assign_batch_weighted_round_robin :
      ℕ
      → List String
      → AssignmentConstraints
      → TaskAssignmentService r e
      → TaskAssignmentService r e × Attempt (List AssignmentResult)
  unfolding weighted_loop apply_constraints
  assign_batch_weighted_round_robin now job_ids c s =
      elim (get_available_workers c.require_group c.min_gpu_count s.discovery) [
        | [] ↦ (s, returned (map (λ id. without_worker id no_workers_available "" none) job_ids))
        | w ∷ ws ↦ elim (apply_constraints (w ∷ ws) c s) [
          | raised f ↦ (s, raised f)
          | returned workers ↦ weighted_loop now workers job_ids s
        ]
      ]

  -- The jobs that are stored, with their priorities.
  unfoldable pub prioritised : List String → TaskAssignmentService r e → List (String × JobPriority)
  prioritised [] s = []
  prioritised (id ∷ ids) s =
      let rest = prioritised ids s in
      elim (get_job id s.queue) [ none ↦ rest | some job ↦ (id, job.priority) ∷ rest ]

  unfoldable pub priority_step :
      ℕ
      → List RegistryWorker
      → ℕ
      → String
      → List String
      → TaskAssignmentService r e
      → TaskAssignmentService r e × Attempt (ℕ × AssignmentResult)
  unfolding assign_to
  priority_step now workers i job_id rest s =
      if length workers == 0
      then (s, raised zero_division_error)
      else elim (get_elem? workers (i % length workers)) [
        | none ↦ (s, raised index_error)
        | some w ↦
            let (s', answer) = assign_to now job_id w s in
            (s', attempt_map (λ pair. (i + 1, either_result now job_id w pair.0 pair.1)) answer)
      ]

  unfoldable pub assign_batch_priority :
      ℕ
      → List String
      → AssignmentConstraints
      → TaskAssignmentService r e
      → TaskAssignmentService r e × Attempt (List AssignmentResult)
  unfolding each_job priority_step apply_constraints prioritised
  assign_batch_priority now job_ids c s =
      let jobs = map (λ p. p.0) (sorted more_urgent (prioritised job_ids s)) in
      elim (get_available_workers c.require_group c.min_gpu_count s.discovery) [
        | [] ↦ (s, returned (map (λ id. without_worker id no_workers_available "" none) jobs))
        | w ∷ ws ↦ elim (apply_constraints (w ∷ ws) c s) [
          | raised f ↦ (s, raised f)
          | returned workers ↦ each_job (priority_step now (sorted by_score workers)) 0 jobs s
        ]
      ]

  unfoldable pub by_policy :
      LoadBalancingPolicy
      → ℕ
      → Option AssignmentStrategy
      → List String
      → AssignmentConstraints
      → TaskAssignmentService r e
      → TaskAssignmentService r e × Attempt (List AssignmentResult)
  unfolding assign_batch_round_robin assign_in_turn assign_batch_weighted_round_robin
      assign_batch_priority
  by_policy round_robin now strategy job_ids c s = assign_batch_round_robin now job_ids c s
  by_policy least_loaded now strategy job_ids c s = assign_in_turn now (some balanced) job_ids c s
  by_policy weighted_round_robin now strategy job_ids c s =
      assign_batch_weighted_round_robin now job_ids c s
  by_policy priority_based now strategy job_ids c s = assign_batch_priority now job_ids c s
  by_policy random now strategy job_ids c s = assign_in_turn now strategy job_ids c s

  unfoldable pub assign_batch :
      ℕ
      → List String
      → Option AssignmentStrategy
      → Option LoadBalancingPolicy
      → AssignmentConstraints
      → TaskAssignmentService r e
      → TaskAssignmentService r e × Attempt BatchAssignmentResult
  unfolding by_policy totals
  assign_batch now job_ids strategy load_balancing c s =
      let chosen : AssignmentStrategy = elim strategy [
        | none ↦ s.config.default_strategy
        | some t ↦ t
      ] in
      let policy : LoadBalancingPolicy = elim load_balancing [
        | none ↦ s.config.default_load_balancing
        | some p ↦ p
      ] in
      let (s', answer) = by_policy policy now (some chosen) job_ids c s in
      (s', attempt_map (totals (length job_ids)) answer)
