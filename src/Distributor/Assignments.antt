-- ===== src/Distributor/Assignments.antt =====
-- The records of `DataDistributor`, and the batches that it hands out.
use Prim.Native.String.{◌++◌ as append}
use mesh_ml.Prelude.{ℕ, ℤ, String, Bool, Option, none, List, [], ltb, length, ◌==◌}
use mesh_ml.Prelude.Dict.{Dict}

pub data AssignmentStatus : Type 0 where
  pending downloading completed failed reassigned : AssignmentStatus

pub record BatchAssignment : Type 0 where
  pub assignment_id : String
  pub batch_id : String
  pub worker_id : String
  pub shard_id : ℕ
  pub batch_index : ℕ
  pub status : AssignmentStatus
  pub assigned_at : String
  pub downloaded_at : Option String
  pub failed_at : Option String
  pub failure_reason : Option String
  pub retry_count : ℕ
  pub max_retries : ℕ

unfoldable pub may_retry : BatchAssignment → Bool
may_retry a = ltb a.retry_count a.max_retries

pub record WorkerAssignment : Type 0 where
  pub worker_id : String
  pub shard_id : ℤ
  pub assigned_batches : List String
  pub completed_batches : List String
  pub failed_batches : List String
  pub total_samples : ℕ
  pub assigned_at : String

abbrev pub is_complete : WorkerAssignment → Bool
is_complete a = length a.completed_batches == length a.assigned_batches

-- What the distributor reads of a stored batch.
pub record BatchMetadata : Type 0 where
  pub batch_id : String
  pub shard_id : ℕ
  pub batch_index : ℕ
  pub num_samples : ℕ

pub data DistributionStrategy : Type 0 where
  round_robin load_balanced shard_per_worker locality_aware : DistributionStrategy

pub record DataDistributor : Type 0 where
  pub strategy : DistributionStrategy
  pub assignments : Dict BatchAssignment
  pub worker_assignments : Dict WorkerAssignment
  pub batch_to_worker : Dict String

-- `f"{worker_id}_{batch_id}"`
abbrev pub id_of : String → String → String
id_of worker_id batch_id = append worker_id (append "_" batch_id)

-- `WorkerAssignment(worker_id=worker_id, shard_id=shard_id)`
abbrev pub fresh : String → String → ℤ → WorkerAssignment
fresh now worker_id shard_id = record {
  worker_id = worker_id;
  shard_id = shard_id;
  assigned_batches = [];
  completed_batches = [];
  failed_batches = [];
  total_samples = 0;
  assigned_at = now;
}

-- A new `BatchAssignment`, in the state PENDING.
abbrev pub pending_assignment : String → String → String → ℕ → ℕ → ℕ → BatchAssignment
pending_assignment now worker_id batch_id shard_id batch_index retry_count = record {
  assignment_id = id_of worker_id batch_id;
  batch_id = batch_id;
  worker_id = worker_id;
  shard_id = shard_id;
  batch_index = batch_index;
  status = AssignmentStatus.pending;
  assigned_at = now;
  downloaded_at = none;
  failed_at = none;
  failure_reason = none;
  retry_count = retry_count;
  max_retries = 3;
}
