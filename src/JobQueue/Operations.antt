-- ===== src/JobQueue/Operations.antt =====
-- The methods of `JobQueue`. A method takes the database and returns the new one with its result.
-- The clock is read once in a call, as `now`. No command of Redis raises: the `except RedisError`
-- branches are not modelled.
use Prim.Native.String.{◌++◌ as append}
use mesh_ml.Prelude.{
  ℕ, ◌+◌, String, Bool, true, false, ◌&&◌, not, Option, none, some, List, [], ◌∷◌, ◌=ˢ◌,
  if◌then◌else◌, is_some,
}
use mathlib.Core.Logic.{ite}
use mesh_ml.Redis.{Redis}
use mesh_ml.JobQueue.Jobs.{
  JobStatus, JobStatus-discrete, JobPriority, JobPriority-discrete, JobRequirements, JobMetadata,
  JobInfo, ValidationStatus, is_final, is_terminal_state, can_retry, is_valid_transition, truthy,
  matches_requirements,
}

-- `a + b + c` on texts
abbrev pub text : List String → String
text [] = ""
text (s ∷ ss) = append s (text ss)

-- `", ".join(xs)`
abbrev pub join : List String → String
join [] = ""
join (s ∷ []) = s
join (s ∷ t ∷ ss) = append s (append ", " (join (t ∷ ss)))

-- The new record of `update_job_status`.
unfoldable pub restamp : ℕ → JobStatus → Option String → Option String → JobInfo → JobInfo
restamp now new_status error_message worker_id job =
    let first_run =
      ite (JobStatus-discrete new_status JobStatus.running) (not (is_some job.started_at)) false in
    record job {
      status = new_status;
      updated_at = now;
      error_message = if truthy error_message then error_message else job.error_message;
      started_at = if first_run then some now else job.started_at;
      assigned_worker_id =
          if first_run && truthy worker_id then worker_id else job.assigned_worker_id;
      completed_at = if is_final new_status then some now else job.completed_at;
    }

-- The record that `release_job_from_worker` writes.
unfoldable pub released : String → String → JobInfo → JobInfo
released worker_id reason job = record job {
  retry_count = job.retry_count + 1;
  error_message = some (text ("Released from worker " ∷ worker_id ∷ ": " ∷ reason ∷ []));
  assigned_worker_id = none;
  assigned_shard_ids = [];
}

-- `sorted(JobPriority, reverse=True)`
abbrev pub priorities : List JobPriority
priorities = JobPriority.critical ∷ JobPriority.high ∷ JobPriority.medium ∷ JobPriority.low ∷ []

-- `job_info.assigned_worker_id == worker_id`
abbrev pub is_worker : Option String → String → Bool
is_worker none worker_id = false
is_worker (some w) worker_id = w =ˢ worker_id

-- `not requirements or matches`
abbrev pub suits : Option JobRequirements → JobInfo → Bool
suits none job = true
suits (some requirements) job = matches_requirements job requirements

-- `validation_errors or []`
abbrev pub or_nil : Option (List String) → List String
or_nil none = []
or_nil (some errors) = errors

-- `', '.join(validation_errors or ['Unknown error'])` behind its heading
unfoldable pub failure_text : Option (List String) → String
failure_text errors =
    append "Validation failed: "
      (elim (or_nil errors) [ [] ↦ "Unknown error" | e ∷ es ↦ join (e ∷ es) ])

abbrev pub verdict : Bool → ValidationStatus
verdict ok = if ok then ValidationStatus.passed else ValidationStatus.failed

-- The record that `mark_validation_complete` stores.
unfoldable pub validated : Bool → Bool → Option (List String) → JobInfo → JobInfo
validated model_passed dataset_passed errors job = record job {
  model_validation_status = verdict model_passed;
  dataset_validation_status = verdict dataset_passed;
  validation_errors = or_nil errors;
}

module _ (r : Redis JobInfo) where
  open r use {Strings, get, set, Set, sadd, srem, smembers, ZSet, zadd, zrem, zfirst}

  -- The keys of the queue, grouped by their prefix: `jobs:{job_id}`, `jobs:by_status:{status}` and so on.
  pub record Db : Type 0 where
    pub jobs : Strings
    pub by_status : JobStatus → Set
    pub by_group : String → Set
    pub by_worker : String → Set
    pub queue : JobPriority → ZSet
    pub dead_letter : List String
    pub validation_pending : Set

module _ {r : Redis JobInfo} where
  open r use {get, set, Set, sadd, srem, smembers, ZSet, zadd, zrem, zfirst}

  abbrev pub get_job : String → Db r → Option JobInfo
  get_job job_id db = get job_id db.jobs

  abbrev pub put_job : String → JobInfo → Db r → Db r
  put_job job_id job db = record db { jobs = set job_id job db.jobs }

  abbrev pub at_status : JobStatus → (Set → Set) → Db r → Db r
  at_status s f db = record db {
    by_status = λ t. ite (JobStatus-discrete s t) (f (db.by_status t)) (db.by_status t);
  }

  abbrev pub at_group : String → (Set → Set) → Db r → Db r
  at_group g f db = record db {
    by_group = λ h. if g =ˢ h then f (db.by_group h) else db.by_group h;
  }

  abbrev pub at_worker : String → (Set → Set) → Db r → Db r
  at_worker w f db = record db {
    by_worker = λ v. if w =ˢ v then f (db.by_worker v) else db.by_worker v;
  }

  abbrev pub at_queue : JobPriority → (ZSet → ZSet) → Db r → Db r
  at_queue p f db = record db {
    queue = λ q. ite (JobPriority-discrete p q) (f (db.queue q)) (db.queue q);
  }

  -- `for priority in JobPriority: zrem(queue_key, job_id)`
  abbrev pub leave_queues : String → Db r → Db r
  leave_queues job_id db = record db { queue = λ q. zrem job_id (db.queue q) }

  unfoldable pub submit_job : ℕ → JobMetadata → JobPriority → Db r → Db r × JobInfo
  submit_job now metadata priority db =
      let job_info : JobInfo = record {
        job_id = metadata.job_id;
        metadata = metadata;
        status = JobStatus.pending;
        priority = priority;
        created_at = now;
        updated_at = now;
        started_at = none;
        completed_at = none;
        assigned_worker_id = none;
        assigned_shard_ids = [];
        model_validation_status = ValidationStatus.pending;
        dataset_validation_status = ValidationStatus.pending;
        validation_errors = [];
        error_message = none;
        retry_count = 0;
        max_retries = 3;
      } in
      let id = metadata.job_id in
      let stored = put_job id job_info db in
      let waiting = record stored { validation_pending = sadd id db.validation_pending } in
      let queued = at_queue priority (zadd id now) waiting in
      let indexed = at_status JobStatus.pending (sadd id) queued in
      (at_group metadata.group_id (sadd id) indexed, job_info)

  -- The writes of `update_job_status`, after its guards.
  unfoldable pub write_status : String → JobStatus → JobStatus → JobInfo → Db r → Db r
  write_status job_id old_status new_status job db =
      let stored = put_job job_id job db in
      let indexed =
        at_status new_status (sadd job_id) (at_status old_status (srem job_id) stored) in
      let dead = ite (JobStatus-discrete new_status JobStatus.failed) (not (can_retry job)) false in
      let listed = record indexed {
        dead_letter = if dead then job_id ∷ db.dead_letter else db.dead_letter;
      } in
      record listed {
        validation_pending =
            ite (JobStatus-discrete old_status JobStatus.validating)
              (srem job_id db.validation_pending) db.validation_pending;
      }

  unfoldable pub update_job_status :
      ℕ → String → JobStatus → Option String → Option String → Db r → Db r × Bool
  update_job_status now job_id new_status error_message worker_id db = elim (get_job job_id db) [
    | none ↦ (db, false)
    | some job ↦
        if is_valid_transition job.status new_status
        then (
          write_status job_id job.status new_status
              (restamp now new_status error_message worker_id job) db,
          true,
        )
        else (db, false)
  ]

  -- After the guard that the job is there. The record that the method changes in memory is never
  -- stored: `update_job_status` reads the job again.
  unfoldable pub assign_found : ℕ → String → String → Option (List ℕ) → JobInfo → Db r → Db r × Bool
  assign_found now job_id worker_id shard_ids job db =
      ite (JobStatus-discrete job.status JobStatus.waiting)
        (let (db', moved) =
            update_job_status now job_id JobStatus.running none (some worker_id) db in
          if moved
          then (leave_queues job_id (at_worker worker_id (sadd job_id) db'), true)
          else (db', false))
        (db, false)

  unfoldable pub assign_job_to_worker : ℕ → String → String → Option (List ℕ) → Db r → Db r × Bool
  assign_job_to_worker now job_id worker_id shard_ids db = elim (get_job job_id db) [
    | none ↦ (db, false)
    | some job ↦ assign_found now job_id worker_id shard_ids job db
  ]

  -- The writes of `release_job_from_worker` after its guards; `job` is the record it stores.
  unfoldable pub release_found : ℕ → String → String → JobInfo → Db r → Db r
  release_found now job_id worker_id job db =
      let stored = put_job job_id job (at_worker worker_id (srem job_id) db) in
      if can_retry job
      then at_queue job.priority (zadd job_id now)
          (update_job_status now job_id JobStatus.waiting none none stored).0
      else (update_job_status now job_id JobStatus.failed (some "Max retries exceeded") none
          stored).0

  unfoldable pub release_job_from_worker : ℕ → String → String → String → Db r → Db r × Bool
  release_job_from_worker now job_id worker_id reason db = elim (get_job job_id db) [
    | none ↦ (db, false)
    | some job ↦
        if is_worker job.assigned_worker_id worker_id
        then (release_found now job_id worker_id (released worker_id reason job) db, true)
        else (db, false)
  ]

  -- What one round of the loop of `get_next_job` returns, if it returns: the oldest job of the queue,
  -- if it is waiting and suits.
  unfoldable pub candidate : Option JobRequirements → JobPriority → Db r → Option JobInfo
  candidate requirements p db = elim (zfirst (db.queue p)) [
    | none ↦ none
    | some job_id ↦ elim (get_job job_id db) [
      | none ↦ none
      | some job ↦
          ite (JobStatus-discrete job.status JobStatus.waiting)
            (if suits requirements job then some job else none) none
    ]
  ]

  -- The round's clean-up of an orphaned entry.
  unfoldable pub drop_orphan : JobPriority → Db r → Db r
  drop_orphan p db = elim (zfirst (db.queue p)) [
    | none ↦ db
    | some job_id ↦ elim (get_job job_id db) [ none ↦ at_queue p (zrem job_id) db | some job ↦ db ]
  ]

  unfoldable pub next_from :
      Option JobRequirements → List JobPriority → Db r → Db r × Option JobInfo
  next_from requirements [] db = (db, none)
  next_from requirements (p ∷ ps) db =
      let rest = next_from requirements ps (drop_orphan p db) in
      elim (candidate requirements p db) [ none ↦ rest | some job ↦ (db, some job) ]

  unfoldable pub get_next_job : Option JobRequirements → Db r → Db r × Option JobInfo
  unfolding next_from
  get_next_job requirements db = next_from requirements priorities db

  unfoldable pub mark_found : ℕ → String → Bool → Option (List String) → JobInfo → Db r → Db r
  mark_found now job_id passed validation_errors job db =
      let stored = put_job job_id job db in
      let moved =
        if passed
        then (update_job_status now job_id JobStatus.waiting none none stored).0
        else (update_job_status now job_id JobStatus.failed (some (failure_text validation_errors))
            none stored).0 in
      record moved { validation_pending = srem job_id moved.validation_pending }

  unfoldable pub mark_validation_complete :
      ℕ → String → Bool → Bool → Option (List String) → Db r → Db r × Bool
  mark_validation_complete now job_id model_passed dataset_passed validation_errors db =
      elim (get_job job_id db) [
        | none ↦ (db, false)
        | some job ↦ (
          mark_found now job_id (model_passed && dataset_passed) validation_errors
              (validated model_passed dataset_passed validation_errors job) db,
          true,
        )
      ]

  -- `if job_info.assigned_worker_id: srem(worker_key, job_id)`
  abbrev pub leave_worker : Option String → String → Db r → Db r
  leave_worker none job_id db = db
  leave_worker (some w) job_id db = if w =ˢ "" then db else at_worker w (srem job_id) db

  unfoldable pub cancel_job : ℕ → String → String → Db r → Db r × Bool
  cancel_job now job_id reason db = elim (get_job job_id db) [
    | none ↦ (db, false)
    | some job ↦ if is_terminal_state job then (db, false) else (
      (update_job_status now job_id JobStatus.cancelled (some (append "Cancelled: " reason)) none
          (leave_worker job.assigned_worker_id job_id (leave_queues job_id db))).0,
      true,
    )
  ]
