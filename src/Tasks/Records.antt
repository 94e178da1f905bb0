-- ===== src/Tasks/Records.antt =====
-- The records of the task assignment, its exceptions, and what it calls outside the orchestrator.
use mesh_ml.Prelude.{ℕ, String, Bool, Option, List}
use mesh_ml.Prelude.Dict.{Dict}
use mesh_ml.Redis.{Redis}
use mesh_ml.JobQueue.{JobInfo, Db}
use mesh_ml.Workers.{Service}

pub data AssignmentStrategy : Type 0 where
  greedy balanced best_fit compute_optimized cost_optimized affinity anti_affinity :
      AssignmentStrategy

pub data LoadBalancingPolicy : Type 0 where
  round_robin least_loaded weighted_round_robin random priority_based : LoadBalancingPolicy

pub data AssignmentStatus : Type 0 where
  success partial_success failed no_workers_available insufficient_resources : AssignmentStatus

-- The fields that the service reads. A set is a list.
pub record AssignmentConstraints : Type 0 where
  pub require_group : Option String
  pub exclude_workers : List String
  pub min_gpu_count : ℕ
  pub max_jobs_per_worker : ℕ
  pub affinity_jobs : List String
  pub anti_affinity_jobs : List String
  pub preferred_workers : List String

pub record AssignmentResult : Type 0 where
  pub job_id : String
  pub worker_id : Option String
  pub status : AssignmentStatus
  pub assigned_at : Option ℕ
  pub shard_ids : List ℕ
  pub compute_score : ℕ
  pub message : String
  pub error : Option String

-- The times and the duration are left out.
pub record BatchAssignmentResult : Type 0 where
  pub total_jobs : ℕ
  pub successful : ℕ
  pub failed : ℕ
  pub assignments : List AssignmentResult

-- The utilization is the quotient of the first two numbers, 0 where the capacity is 0.
pub record WorkerLoad : Type 0 where
  pub worker_id : String
  pub assigned_jobs : ℕ
  pub total_capacity : ℕ
  pub compute_score : ℕ
  pub available_capacity : ℕ

-- The fields that the service reads on the way of an assignment.
pub record AssignmentConfig : Type 0 where
  pub default_strategy : AssignmentStrategy
  pub default_load_balancing : LoadBalancingPolicy
  pub batch_size : ℕ

-- The exceptions: `AttributeError`, `ZeroDivisionError`, `IndexError`, and what a client raises.
pub data Failure : Type 0 where
  attribute_error zero_division_error index_error : Failure
  client_error : String → Failure

pub data Attempt {ℓ} (A : Type ℓ) : Type ℓ where
  raised : Failure → Attempt A
  returned : A → Attempt A

abbrev pub and_then {ℓ κ} : {A : Type ℓ} {B : Type κ} → Attempt A → (A → Attempt B) → Attempt B
and_then (raised f) k = raised f
and_then (returned x) k = k x

abbrev pub attempt_map {ℓ κ} : {A : Type ℓ} {B : Type κ} → (A → B) → Attempt A → Attempt B
attempt_map g (raised f) = raised f
attempt_map g (returned x) = returned (g x)

-- What is outside: `World` is the state of the dataset sharder and of the table of batches.
pub record Surroundings : Type 1 where
  pub World : Type 0
  -- `list(set(xs))`
  pub as_set : List String → List String
  -- `str(e)`
  pub text_of : Failure → String
  -- `_job_has_persisted_batches`, a query
  pub has_batches : String → World → Bool
  -- `DatasetSharderClient.shard_dataset`, with arguments from the job and the environment
  pub shard_dataset : JobInfo → World → World × Option Failure
  -- `DatasetSharderClient.assign_batches` for one worker; of its answer the worker's `shard_id`
  pub assign_batches : String → World → World × Attempt (Option ℕ)

-- The service, with the discovery service and the queue that it calls.
pub record TaskAssignmentService (r : Redis JobInfo) (e : Surroundings) : Type 0 where
  pub config : AssignmentConfig
  pub discovery : Service
  pub queue : Db r
  pub world : e.World
  pub round_robin_index : Dict ℕ
  pub assignment_history : List AssignmentResult
  pub sharded_datasets : List String
