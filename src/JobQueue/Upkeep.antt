-- ===== src/JobQueue/Upkeep.antt =====
-- The methods of `JobQueue` that go through the sets of job ids: the listing and the clean-up.
use Prim.Native.String.{◌++◌ as append}
use mesh_ml.Prelude.{
  ℕ, ◌+◌, ◌-◌, ◌*◌, String, Bool, Option, none, some, List, [], ◌∷◌, ◌++◌, ltb, ◌=ˢ◌, if◌then◌else◌,
  take, sorted,
}
use mesh_ml.Redis.{Redis}
use mesh_ml.JobQueue.Jobs.{JobStatus, JobInfo, truthy}
use mesh_ml.JobQueue.Operations.{Db, get_job, leave_worker, update_job_status}

-- What callers pass for `status`: a `JobStatus`, or its text.
pub data StatusArgument : Type 0 where
  a_status : JobStatus → StatusArgument
  a_text : String → StatusArgument

-- `for s in JobStatus`
abbrev pub statuses : List JobStatus
statuses =
    JobStatus.pending ∷ JobStatus.validating ∷ JobStatus.waiting ∷ JobStatus.running
    ∷ JobStatus.completed ∷ JobStatus.failed ∷ JobStatus.cancelled ∷ JobStatus.timeout ∷ []

-- `key=lambda j: j.created_at, reverse=True`, compared
abbrev pub created_later : JobInfo → JobInfo → Bool
created_later i j = ltb j.created_at i.created_at

module _ {r : Redis JobInfo} where
  open r use {smembers}

  abbrev pub ids_of : List JobStatus → Db r → List String
  ids_of [] db = []
  ids_of (s ∷ ss) db = smembers (db.by_status s) ++ ids_of ss db

  -- The job ids without a filter on the status, from the first filter that is given.
  unfoldable pub ids_elsewhere : Option String → Option String → Db r → List String
  ids_elsewhere group_id worker_id db =
      if truthy group_id
      then elim group_id [ none ↦ [] | some g ↦ smembers (db.by_group g) ]
      else if truthy worker_id
      then elim worker_id [ none ↦ [] | some w ↦ smembers (db.by_worker w) ]
      else ids_of statuses db

  -- `none` is the `AttributeError` of `status.value` for a text, which is no `RedisError`.
  unfoldable pub filtered_ids :
      Option StatusArgument → Option String → Option String → Db r → Option (List String)
  unfolding ids_elsewhere
  filtered_ids none group_id worker_id db = some (ids_elsewhere group_id worker_id db)
  filtered_ids (some (a_status s)) group_id worker_id db = some (smembers (db.by_status s))
  filtered_ids (some (a_text t)) group_id worker_id db =
      if t =ˢ "" then some (ids_elsewhere group_id worker_id db) else none

  -- The jobs that are stored, of a list of ids.
  unfoldable pub stored_jobs : List String → Db r → List JobInfo
  stored_jobs [] db = []
  stored_jobs (id ∷ ids) db =
      let rest = stored_jobs ids db in elim (get_job id db) [ none ↦ rest | some job ↦ job ∷ rest ]

  -- `as_set xs` is `list(set(xs))`, in whatever order Python has for it.
  unfoldable pub list_jobs :
      (List String → List String)
      → Option StatusArgument
      → Option String
      → Option String
      → ℕ
      → Db r
      → Option (List JobInfo)
  unfolding filtered_ids stored_jobs
  list_jobs as_set status group_id worker_id limit db =
      elim (filtered_ids status group_id worker_id db) [
        | none ↦ none
        | some ids ↦ some (sorted created_later (stored_jobs (take limit (as_set ids)) db))
      ]

  -- One round of each loop of the clean-up. Times are in microseconds.
  unfoldable pub check_validation : ℕ → ℕ → String → Db r → Db r × ℕ
  check_validation now validation_timeout job_id db = elim (get_job job_id db) [
    | none ↦ (db, 0)
    | some job ↦
        if ltb (1000000 * validation_timeout) (now - job.created_at)
        then (
          (update_job_status now job_id JobStatus.failed (some "Validation timeout exceeded") none
              db).0,
          1,
        )
        else (db, 0)
  ]

  -- `decimal` is `str` of a number.
  unfoldable pub check_running : (ℕ → String) → ℕ → String → Db r → Db r × ℕ
  check_running decimal now job_id db = elim (get_job job_id db) [
    | none ↦ (db, 0)
    | some job ↦ elim job.started_at [
      | none ↦ (db, 0)
      | some started ↦
          let max_time = job.metadata.requirements.max_execution_time_seconds in
          let message = append "Execution timeout (" (append (decimal max_time) "s exceeded)") in
          if ltb (1000000 * max_time) (now - started)
          then (
            leave_worker job.assigned_worker_id job_id
                (update_job_status now job_id JobStatus.timeout (some message) none db).0,
            1,
          )
          else (db, 0)
    ]
  ]

  unfoldable pub each_id : (String → Db r → Db r × ℕ) → List String → Db r → Db r × ℕ
  each_id check [] db = (db, 0)
  each_id check (id ∷ ids) db =
      let (db', n) = check id db in let (db'', m) = each_id check ids db' in (db'', n + m)

  -- The set of the running jobs is read after the first loop.
  unfoldable pub cleanup_expired_jobs : (ℕ → String) → ℕ → ℕ → Db r → Db r × ℕ
  unfolding check_validation check_running each_id
  cleanup_expired_jobs decimal now validation_timeout db =
      let (validated, n) =
        each_id (check_validation now validation_timeout) (smembers db.validation_pending) db in
      let (cleaned, m) =
        each_id (check_running decimal now) (smembers (validated.by_status JobStatus.running))
          validated in
      (cleaned, n + m)
