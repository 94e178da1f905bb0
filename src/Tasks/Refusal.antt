-- ===== src/Tasks/Refusal.antt =====
-- What becomes of jobs while the capacity of the workers cannot be counted: the service asks
-- `list_jobs` for the status "running", a text, where it takes a `JobStatus`.
use mesh_ml.Prelude.Dict.{contains}
use mesh_ml.Prelude.{
  List-cases, sorted, ℕ, ◌≡◌, refl, String, false, Option, none, some, List, [], ◌∷◌, ◌⊎◌, inl, inr,
  length, Option-cases, Bool-cases,
}
use mesh_ml.Redis.{Redis}
use mesh_ml.JobQueue.{JobInfo, get_job, list_jobs, filtered_ids}
use mesh_ml.Workers.{RegistryWorker, get_available_workers}
use mesh_ml.Tasks.Records.{
  AssignmentStrategy, balanced, LoadBalancingPolicy, round_robin, least_loaded,
  weighted_round_robin, random, priority_based, attempt_map, BatchAssignmentResult,
  AssignmentConstraints, AssignmentResult, attribute_error, Attempt, raised, returned, Surroundings,
  TaskAssignmentService,
}
use mesh_ml.Tasks.Selection.{below_capacity, apply_constraints, select_worker}
use mesh_ml.Tasks.Assigning.{with_group, assign_selected, assign_job}
use mesh_ml.Tasks.Idle.{IsFruitless, absent-fruitless, IsIdle, idle_step}
use mesh_ml.Tasks.Batches.{
  with_rotation, group_key, is_success, count_success, totals, turn_step, each_job,
  round_robin_step, assign_batch_round_robin, assign_in_turn,
}
use mesh_ml.Tasks.Policies.{
  priority_step, weighted_step, weighted_loop, assign_batch_weighted_round_robin,
  assign_batch_priority, by_policy, assign_batch,
}

abbrev pub CountsNone : Attempt BatchAssignmentResult → Type 0
CountsNone (raised f) = Unit
CountsNone (returned result) = result.successful ≡ 0

totals-CountsNone :
    (n : ℕ) (answer : Attempt (List AssignmentResult))
    → IsFruitless answer
    → CountsNone (attempt_map (totals n) answer)
unfolding totals
totals-CountsNone n (raised f) h = tt
totals-CountsNone n (returned results) h = h

module _ {r : Redis JobInfo} {e : Surroundings} where
  below_capacity_raised :
      (max_jobs : ℕ) (ws : List RegistryWorker) (s : TaskAssignmentService r e)
      → (below_capacity max_jobs ws s ≡ raised attribute_error)
        ⊎ (below_capacity max_jobs ws s ≡ returned [])
  unfolding below_capacity list_jobs filtered_ids
  below_capacity_raised max_jobs [] s = inr refl
  below_capacity_raised max_jobs (w ∷ ws) s = inl refl

  -- The constraints raise, or leave no worker.
  pub apply_constraints_raised :
      (ws : List RegistryWorker) (c : AssignmentConstraints) (s : TaskAssignmentService r e)
      → (apply_constraints ws c s ≡ raised attribute_error)
        ⊎ (apply_constraints ws c s ≡ returned [])
  unfolding apply_constraints
  apply_constraints_raised ws c s = below_capacity_raised c.max_jobs_per_worker _ s

  select_worker_raised :
      (id : String) (strategy : AssignmentStrategy) (c : AssignmentConstraints)
      (s : TaskAssignmentService r e)
      → (select_worker id strategy c s ≡ raised attribute_error)
        ⊎ (select_worker id strategy c s ≡ returned none)
  unfolding select_worker
  select_worker_raised id strategy c s =
      elim (List-cases (get_available_workers c.require_group c.min_gpu_count s.discovery)) [
        | inl none_there ↦ inr (rw (none_there, select_worker) refl)
        | inr (v, vs, there) ↦ elim (apply_constraints_raised (v ∷ vs) c s) [
          | inl failed ↦ inl (rw (there, select_worker, failed) refl)
          | inr empty ↦ inr (rw (there, select_worker, empty) refl)
        ]
      ]

  select_raised-is_success :
      (now : ℕ) (job : JobInfo) (id : String) (shards : Option (List ℕ))
      (a : Attempt (Option RegistryWorker)) (s : TaskAssignmentService r e)
      → (a ≡ raised attribute_error) ⊎ (a ≡ returned none)
      → ((assign_selected now job id shards a s).0 ≡ s)
        × (is_success (assign_selected now job id shards a s).1 ≡ false)
  unfolding assign_selected
  select_raised-is_success now job id shards a s (inl failed) = rw failed (refl, refl)
  select_raised-is_success now job id shards a s (inr empty) = rw empty (refl, refl)

  -- `assign_job` never assigns: whatever the job, the strategy and the constraints, the service is left
  -- as it was, and the result does not have status SUCCESS.
  pub assign_job_refused :
      (now : ℕ) (id : String) (strategy : Option AssignmentStrategy) (c : AssignmentConstraints)
      (shards : Option (List ℕ)) (s : TaskAssignmentService r e)
      → let (s', c', result) = assign_job now id strategy c shards s in
        (s' ≡ s) × (is_success result ≡ false)
  unfolding assign_job
  assign_job_refused now id strategy c shards s = elim (Option-cases (get_job id s.queue)) [
    | inl absent ↦ rw (absent, assign_job) (refl, refl)
    | inr (job, found) ↦
        rw (found, assign_job)
          (select_raised-is_success now job id shards _ s
            (select_worker_raised id _ (with_group job c) s))
  ]

  each_job_idle :
      {K : Type 0}
      (step : K
        → String
        → List String
        → TaskAssignmentService r e
        → TaskAssignmentService r e × Attempt (K × AssignmentResult))
      → ((k : K) (id : String) (rest : List String) (s : TaskAssignmentService r e)
          → IsIdle s (step k id rest s))
      → (ids : List String) (k : K) (s : TaskAssignmentService r e)
      → ((each_job step k ids s).0 ≡ s) × IsFruitless (each_job step k ids s).1
  unfolding each_job count_success
  each_job_idle step idle [] k s = (refl, refl)
  each_job_idle step idle (id ∷ ids) k s =
      idle_step s (step k id ids s) (λ k' s'. each_job step k' ids s') (idle k id ids s)
        (λ k' s'. each_job_idle step idle ids k' s')

  turn_step-IsIdle :
      (now : ℕ) (strategy : Option AssignmentStrategy) (c : AssignmentConstraints) (id : String)
      (rest : List String) (s : TaskAssignmentService r e)
      → IsIdle s (turn_step now strategy c id rest s)
  unfolding turn_step
  turn_step-IsIdle now strategy c id rest s = assign_job_refused now id strategy c none s

  in_turn_idle :
      (now : ℕ) (strategy : Option AssignmentStrategy) (ids : List String)
      (c : AssignmentConstraints) (s : TaskAssignmentService r e)
      → ((assign_in_turn now strategy ids c s).0 ≡ s)
        × IsFruitless (assign_in_turn now strategy ids c s).1
  unfolding assign_in_turn
  in_turn_idle now strategy ids c s =
      each_job_idle (turn_step now strategy) (turn_step-IsIdle now strategy) ids c s

  -- No job of the batch is assigned, and of the service only the round-robin indices may change.
  abbrev pub NoneAssigned :
      TaskAssignmentService r e
      → TaskAssignmentService r e × Attempt (List AssignmentResult)
      → Type 0
  NoneAssigned s (s', answer) =
      (s' ≡ record s { round_robin_index = s'.round_robin_index }) × IsFruitless answer

  NoneAssigned-of_idle :
      (s : TaskAssignmentService r e)
      (x : TaskAssignmentService r e × Attempt (List AssignmentResult))
      → (x.0 ≡ s) × IsFruitless x.1
      → NoneAssigned s x
  NoneAssigned-of_idle s (s', answer) (same, fruitless) = (rw same refl, fruitless)

  round_robin_step-IsIdle :
      (now : ℕ) (group_id : String) (k : Unit {0}) (id : String) (rest : List String)
      (s : TaskAssignmentService r e)
      → IsIdle s (round_robin_step now group_id [] k id rest s)
  unfolding round_robin_step
  round_robin_step-IsIdle now group_id k id rest s = refl

  priority_step-IsIdle :
      (now k : ℕ) (id : String) (rest : List String) (s : TaskAssignmentService r e)
      → IsIdle s (priority_step now [] k id rest s)
  unfolding priority_step
  priority_step-IsIdle now k id rest s = refl

  weighted_step-IsIdle :
      (now : ℕ) (k : ℕ × ℕ) (id : String) (rest : List String) (s : TaskAssignmentService r e)
      → IsIdle s (weighted_step now 0 [] k id rest s)
  unfolding weighted_step
  weighted_step-IsIdle now k id rest s = refl

  with_rotation-eq :
      (group_id : String) (s : TaskAssignmentService r e)
      → with_rotation group_id s
        ≡ record s { round_robin_index = (with_rotation group_id s).round_robin_index }
  with_rotation-eq group_id s = elim (Bool-cases (contains group_id s.round_robin_index)) [
    | inl there ↦ rw there refl
    | inr new ↦ rw new refl
  ]

  NoneAssigned-of_rotated :
      (group_id : String) (s : TaskAssignmentService r e)
      (x : TaskAssignmentService r e × Attempt (List AssignmentResult))
      → x.0 ≡ with_rotation group_id s
      → IsFruitless x.1
      → NoneAssigned s x
  NoneAssigned-of_rotated group_id s (s', answer) same fruitless =
      (rw same (with_rotation-eq group_id s), fruitless)

  rotated-NoneAssigned :
      (now : ℕ) (group_id : String) (ids : List String) (s : TaskAssignmentService r e)
      → NoneAssigned s
          (each_job (round_robin_step now group_id []) tt ids (with_rotation group_id s))
  rotated-NoneAssigned now group_id ids s =
      let (same, fruitless) =
        each_job_idle (round_robin_step now group_id []) (round_robin_step-IsIdle now group_id) ids
          tt (with_rotation group_id s) in
      (NoneAssigned-of_rotated group_id s _ same fruitless)

  round_robin-NoneAssigned :
      (now : ℕ) (ids : List String) (c : AssignmentConstraints) (s : TaskAssignmentService r e)
      → NoneAssigned s (assign_batch_round_robin now ids c s)
  unfolding assign_batch_round_robin
  round_robin-NoneAssigned now ids c s =
      elim (List-cases (get_available_workers c.require_group c.min_gpu_count s.discovery)) [
        | inl none_there ↦
            rw (none_there, assign_batch_round_robin)
              (refl, absent-fruitless "No workers available" ids)
        | inr (w, ws, there) ↦ elim (apply_constraints_raised (w ∷ ws) c s) [
          | inl failed ↦ rw (there, assign_batch_round_robin, failed) (refl, tt)
          | inr empty ↦
              rw (there, assign_batch_round_robin, empty)
                (rotated-NoneAssigned now (group_key c) ids s)
        ]
      ]

  priority-NoneAssigned :
      (now : ℕ) (ids : List String) (c : AssignmentConstraints) (s : TaskAssignmentService r e)
      → NoneAssigned s (assign_batch_priority now ids c s)
  unfolding assign_batch_priority sorted
  priority-NoneAssigned now ids c s =
      elim (List-cases (get_available_workers c.require_group c.min_gpu_count s.discovery)) [
        | inl none_there ↦ rw (none_there, assign_batch_priority) (refl, absent-fruitless "" _)
        | inr (w, ws, there) ↦ elim (apply_constraints_raised (w ∷ ws) c s) [
          | inl failed ↦ rw (there, assign_batch_priority, failed) (refl, tt)
          | inr empty ↦
              rw (there, assign_batch_priority, empty)
                (NoneAssigned-of_idle s _
                  (each_job_idle (priority_step now []) (priority_step-IsIdle now) _ 0 s))
        ]
      ]

  weighted-NoneAssigned :
      (now : ℕ) (ids : List String) (c : AssignmentConstraints) (s : TaskAssignmentService r e)
      → NoneAssigned s (assign_batch_weighted_round_robin now ids c s)
  unfolding assign_batch_weighted_round_robin weighted_loop
  weighted-NoneAssigned now ids c s =
      elim (List-cases (get_available_workers c.require_group c.min_gpu_count s.discovery)) [
        | inl none_there ↦
            rw (none_there, assign_batch_weighted_round_robin) (refl, absent-fruitless "" ids)
        | inr (w, ws, there) ↦ elim (apply_constraints_raised (w ∷ ws) c s) [
          | inl failed ↦ rw (there, assign_batch_weighted_round_robin, failed) (refl, tt)
          | inr empty ↦
              rw (there, assign_batch_weighted_round_robin, empty)
                (NoneAssigned-of_idle s _
                  (each_job_idle (weighted_step now 0 []) (weighted_step-IsIdle now) ids (0, 0) s))
        ]
      ]

  by_policy-NoneAssigned :
      (policy : LoadBalancingPolicy) (now : ℕ) (strategy : Option AssignmentStrategy)
      (ids : List String) (c : AssignmentConstraints) (s : TaskAssignmentService r e)
      → NoneAssigned s (by_policy policy now strategy ids c s)
  unfolding by_policy
  by_policy-NoneAssigned round_robin now strategy ids c s = round_robin-NoneAssigned now ids c s
  by_policy-NoneAssigned least_loaded now strategy ids c s =
      NoneAssigned-of_idle s _ (in_turn_idle now (some balanced) ids c s)
  by_policy-NoneAssigned weighted_round_robin now strategy ids c s =
      weighted-NoneAssigned now ids c s
  by_policy-NoneAssigned priority_based now strategy ids c s = priority-NoneAssigned now ids c s
  by_policy-NoneAssigned random now strategy ids c s =
      NoneAssigned-of_idle s _ (in_turn_idle now strategy ids c s)

  -- `assign_batch` assigns no job either: whatever the jobs, the policy, the strategy and the
  -- constraints, the service is left as it was but for the round-robin indices, and the call raises, or
  -- its result counts no success.
  pub assign_batch_refused :
      (now : ℕ) (ids : List String) (strategy : Option AssignmentStrategy)
      (policy : Option LoadBalancingPolicy) (c : AssignmentConstraints)
      (s : TaskAssignmentService r e)
      → let (s', answer) = assign_batch now ids strategy policy c s in
        (s' ≡ record s { round_robin_index = s'.round_robin_index }) × CountsNone answer
  unfolding assign_batch
  assign_batch_refused now ids strategy policy c s =
      let (same, fruitless) = by_policy-NoneAssigned _ now _ ids c s in
      (same, totals-CountsNone (length ids) _ fruitless)
