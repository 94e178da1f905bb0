-- ===== src/JobQueue/Jobs.antt =====
-- The job records and the state machine of their status. Times are microseconds, memory sizes are
-- numbers that are only compared, and the fields that no operation of the queue touches (progress,
-- loss, accuracy, results, tags, optimizer settings) are left out.
use mesh_ml.Prelude.{
  ℕ, String, Bool, true, false, ◌&&◌, ◌||◌, not, Option, none, some, List, leb, ltb, ◌=ˢ◌,
  if◌then◌else◌,
}

pub data JobStatus : Type 0 where
  pending validating waiting running completed failed cancelled timeout : JobStatus

unfoldable pub JobStatus-discrete : Discrete JobStatus
JobStatus-discrete = hlevel

pub data JobPriority : Type 0 where
  low medium high critical : JobPriority

unfoldable pub JobPriority-discrete : Discrete JobPriority
JobPriority-discrete = hlevel

-- The enumeration's values.
abbrev pub priority_value : JobPriority → ℕ
priority_value low = 0
priority_value medium = 1
priority_value high = 2
priority_value critical = 3

pub record JobRequirements : Type 0 where
  pub min_gpu_count : ℕ
  pub min_gpu_memory_gb : ℕ
  pub min_cpu_count : ℕ
  pub min_ram_gb : ℕ
  pub requires_cuda : Bool
  pub requires_mps : Bool
  pub max_execution_time_seconds : ℕ

pub record JobMetadata : Type 0 where
  pub job_id : String
  pub group_id : String
  pub model_id : String
  pub dataset_id : String
  pub user_id : String
  pub batch_size : ℕ
  pub num_epochs : ℕ
  pub requirements : JobRequirements

pub data ValidationStatus : Type 0 where
  pending passed failed : ValidationStatus

pub record JobInfo : Type 0 where
  pub job_id : String
  pub metadata : JobMetadata
  pub status : JobStatus
  pub priority : JobPriority
  pub created_at : ℕ
  pub updated_at : ℕ
  pub started_at : Option ℕ
  pub completed_at : Option ℕ
  pub assigned_worker_id : Option String
  pub assigned_shard_ids : List ℕ
  pub model_validation_status : ValidationStatus
  pub dataset_validation_status : ValidationStatus
  pub validation_errors : List String
  pub error_message : Option String
  pub retry_count : ℕ
  pub max_retries : ℕ

-- `new_status in {COMPLETED, FAILED, CANCELLED, TIMEOUT}`
abbrev pub is_final : JobStatus → Bool
is_final JobStatus.completed = true
is_final JobStatus.failed = true
is_final JobStatus.cancelled = true
is_final JobStatus.timeout = true
is_final _ = false

unfoldable pub is_terminal_state : JobInfo → Bool
is_terminal_state job = is_final job.status

abbrev pub is_failed : JobStatus → Bool
is_failed JobStatus.failed = true
is_failed _ = false

unfoldable pub can_retry : JobInfo → Bool
can_retry job = ltb job.retry_count job.max_retries && is_failed job.status

-- The table `valid_transitions`, row by row.
abbrev pub valid_transitions : JobStatus → JobStatus → Bool
valid_transitions JobStatus.pending JobStatus.validating = true
valid_transitions JobStatus.pending JobStatus.waiting = true
valid_transitions JobStatus.validating JobStatus.waiting = true
valid_transitions JobStatus.validating JobStatus.failed = true
valid_transitions JobStatus.waiting JobStatus.running = true
valid_transitions JobStatus.running JobStatus.completed = true
valid_transitions JobStatus.running JobStatus.timeout = true
valid_transitions JobStatus.failed JobStatus.pending = true
valid_transitions JobStatus.timeout JobStatus.pending = true
valid_transitions _ _ = false

-- `old_status in {COMPLETED, CANCELLED}`
abbrev pub is_closed : JobStatus → Bool
is_closed JobStatus.completed = true
is_closed JobStatus.cancelled = true
is_closed _ = false

-- `new_status in {FAILED, CANCELLED}`
abbrev pub is_abort : JobStatus → Bool
is_abort JobStatus.failed = true
is_abort JobStatus.cancelled = true
is_abort _ = false

unfoldable pub is_valid_transition : JobStatus → JobStatus → Bool
is_valid_transition old new =
    if is_closed old then false else if is_abort new then true else valid_transitions old new

-- The truth value of an `Optional[str]`.
abbrev pub truthy : Option String → Bool
truthy none = false
truthy (some s) = not (s =ˢ "")

unfoldable pub matches_requirements : JobInfo → JobRequirements → Bool
matches_requirements job_info requirements =
    leb job_req.min_gpu_count requirements.min_gpu_count
    && leb job_req.min_gpu_memory_gb requirements.min_gpu_memory_gb
    && leb job_req.min_cpu_count requirements.min_cpu_count
    && leb job_req.min_ram_gb requirements.min_ram_gb
    && (not job_req.requires_cuda || requirements.requires_cuda)
    && (not job_req.requires_mps || requirements.requires_mps)
  where
    open job_info.metadata use {requirements as job_req}
