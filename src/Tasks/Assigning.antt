-- ===== src/Tasks/Assigning.antt =====
-- The assignment of one job: its dataset is sharded, batches are handed to the worker, and the job is
-- assigned.
use mesh_ml.Prelude.{ℕ, String, Bool, Option, none, some, List, [], ◌∷◌, ◌++◌, if◌then◌else◌, elem}
use Prim.Native.String.{◌++◌ as append}
use mesh_ml.Redis.{Redis}
use mesh_ml.JobQueue.{JobInfo, get_job, truthy}
use mesh_ml.Workers.{RegistryWorker, get_compute_score, match_and_assign, add}
use mesh_ml.Tasks.Records.{
  AssignmentStrategy, AssignmentStatus, success, failed, no_workers_available,
  AssignmentConstraints, AssignmentResult, Failure, Attempt, raised, returned, attempt_map,
  Surroundings, TaskAssignmentService,
}
use mesh_ml.Tasks.Selection.{select_worker}

-- The results that name no worker.
abbrev pub without_worker : String → AssignmentStatus → String → Option String → AssignmentResult
without_worker job_id status message error = record {
  job_id = job_id;
  worker_id = none;
  status = status;
  assigned_at = none;
  shard_ids = [];
  compute_score = 0;
  message = message;
  error = error;
}

-- `shard_ids or []`
abbrev pub shards_or_empty : Option (List ℕ) → List ℕ
shards_or_empty none = []
shards_or_empty (some ids) = ids

abbrev pub assigned_result :
    ℕ → String → RegistryWorker → Option (List ℕ) → String → AssignmentResult
assigned_result now job_id w shard_ids message = record {
  job_id = job_id;
  worker_id = some w.worker_id;
  status = success;
  assigned_at = some now;
  shard_ids = shards_or_empty shard_ids;
  compute_score = get_compute_score w.capabilities;
  message = message;
  error = none;
}

-- `if not constraints.require_group: constraints.require_group = job.metadata.group_id`, in the
-- caller's object
abbrev pub with_group : JobInfo → AssignmentConstraints → AssignmentConstraints
with_group job c =
    if truthy c.require_group then c else record c { require_group = some job.metadata.group_id }

module _ {r : Redis JobInfo} {e : Surroundings} where
  abbrev pub mark_sharded : String → TaskAssignmentService r e → TaskAssignmentService r e
  mark_sharded dataset_id s = record s { sharded_datasets = add dataset_id s.sharded_datasets }

  -- The part under the lock; `some` is what the client raised.
  unfoldable pub ensure_sharded :
      JobInfo → TaskAssignmentService r e → TaskAssignmentService r e × Option Failure
  ensure_sharded job s =
      let dataset_id = job.metadata.dataset_id in
      if elem dataset_id s.sharded_datasets
      then (s, none)
      else if e.has_batches job.job_id s.world
      then (mark_sharded dataset_id s, none)
      else (let (world', failure) = e.shard_dataset job s.world in
          let called = record s { world = world' } in
          elim failure [
            | none ↦ (mark_sharded dataset_id called, none)
            | some f ↦ (called, some f)
          ])

  -- `assign_batches` of the client for one worker.
  unfoldable pub hand_batches :
      String → TaskAssignmentService r e → TaskAssignmentService r e × Attempt (List ℕ)
  hand_batches worker_id s =
      let (world', answer) = e.assign_batches worker_id s.world in
      (
        record s { world = world' },
        attempt_map (λ shard. elim shard [ none ↦ [] | some id ↦ id ∷ [] ]) answer,
      )

  unfoldable pub ensure_shards_and_assign_batches :
      JobInfo → String → TaskAssignmentService r e → TaskAssignmentService r e × Attempt (List ℕ)
  unfolding ensure_sharded hand_batches
  ensure_shards_and_assign_batches job worker_id s =
      let (s', failure) = ensure_sharded job s in
      elim failure [ none ↦ hand_batches worker_id s' | some f ↦ (s', raised f) ]

  -- `worker_discovery.assign_job_to_worker`
  unfoldable pub discovery_assign :
      ℕ
      → String
      → String
      → Option (List ℕ)
      → TaskAssignmentService r e
      → TaskAssignmentService r e × Bool
  discovery_assign now job_id worker_id shard_ids s =
      let (discovery', queue', done) =
        match_and_assign now job_id (some worker_id) shard_ids s.discovery s.queue in
      (record s { discovery = discovery'; queue = queue' }, done)

  -- The shards that are given, or those of `_ensure_shards_and_assign_batches`.
  unfoldable pub shards_for :
      JobInfo
      → String
      → Option (List ℕ)
      → TaskAssignmentService r e
      → TaskAssignmentService r e × Attempt (Option (List ℕ))
  unfolding ensure_shards_and_assign_batches
  shards_for job worker_id (some ids) s = (s, returned (some ids))
  shards_for job worker_id none s =
      let (s', ids) = ensure_shards_and_assign_batches job worker_id s in (s', attempt_map some ids)

  -- The worker is chosen and the shards are known: the assignment, and the result for the history.
  unfoldable pub assign_chosen :
      ℕ
      → String
      → RegistryWorker
      → Option (List ℕ)
      → TaskAssignmentService r e
      → TaskAssignmentService r e × AssignmentResult
  unfolding discovery_assign
  assign_chosen now job_id w shard_ids s =
      let (s', done) = discovery_assign now job_id w.worker_id shard_ids s in
      let result =
        if done
        then assigned_result now job_id w shard_ids (append "Job assigned to " w.worker_id)
        else without_worker job_id failed ""
            (some "Assignment failed in worker discovery service") in
      (record s' { assignment_history = s'.assignment_history ++ result ∷ [] }, result)

  -- An exception becomes a result that is not in the history.
  unfoldable pub assign_selected :
      ℕ
      → JobInfo
      → String
      → Option (List ℕ)
      → Attempt (Option RegistryWorker)
      → TaskAssignmentService r e
      → TaskAssignmentService r e × AssignmentResult
  unfolding shards_for assign_chosen
  assign_selected now job job_id shard_ids (raised f) s =
      (s, without_worker job_id failed "" (some (e.text_of f)))
  assign_selected now job job_id shard_ids (returned none) s =
      (s, without_worker job_id no_workers_available "No suitable worker found" none)
  assign_selected now job job_id shard_ids (returned (some w)) s =
      let (s', ids) = shards_for job w.worker_id shard_ids s in
      elim ids [
        | raised f ↦ (s', without_worker job_id failed "" (some (e.text_of f)))
        | returned found ↦ assign_chosen now job_id w found s'
      ]

  -- The constraints are returned as the call leaves them.
  unfoldable pub assign_job :
      ℕ
      → String
      → Option AssignmentStrategy
      → AssignmentConstraints
      → Option (List ℕ)
      → TaskAssignmentService r e
      → TaskAssignmentService r e × AssignmentConstraints × AssignmentResult
  unfolding select_worker assign_selected
  assign_job now job_id strategy c shard_ids s =
      let chosen : AssignmentStrategy = elim strategy [
        | none ↦ s.config.default_strategy
        | some t ↦ t
      ] in
      elim (get_job job_id s.queue) [
        | none ↦ (
          s,
          c,
          without_worker job_id failed "" (some (append "Job " (append job_id " not found"))),
        )
        | some job ↦
            let c' = with_group job c in
            let (s', result) =
              assign_selected now job job_id shard_ids (select_worker job_id chosen c' s) s in
            (s', c', result)
      ]
