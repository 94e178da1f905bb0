-- ===== src/JobQueue/Calls.antt =====
-- The queue as a whole: the calls that change it, in any order, and the databases they lead to.
use mesh_ml.Prelude.{ℕ, ◌≡◌, String, Bool, Option, none, List}
use mesh_ml.Redis.{Redis}
use mesh_ml.JobQueue.Jobs.{JobStatus, JobPriority, JobMetadata, JobInfo, JobRequirements}
use mesh_ml.JobQueue.Operations.{
  Db, priorities, get_job, update_job_status, submit_job, assign_job_to_worker,
  release_job_from_worker, get_next_job, mark_validation_complete, cancel_job,
}
use mesh_ml.JobQueue.Upkeep.{cleanup_expired_jobs}
use mesh_ml.JobQueue.Sweep.{cleanup_expired_jobs-IsIndexed}
use mesh_ml.JobQueue.Index.{
  IsIndexed, update-IsIndexed, submit-IsIndexed, assign-IsIndexed, release-IsIndexed,
  next_from-IsIndexed, mark-IsIndexed, cancel-IsIndexed,
}

-- `cleanup` has `str` of a number and the time that a validation may take.
pub data Call : Type 0 where
  submit : JobMetadata → JobPriority → Call
  update : String → JobStatus → Option String → Option String → Call
  assign : String → String → Option (List ℕ) → Call
  release : String → String → String → Call
  next : Option JobRequirements → Call
  mark : String → Bool → Bool → Option (List String) → Call
  cancel : String → String → Call
  cleanup : (ℕ → String) → ℕ → Call

module _ {r : Redis JobInfo} where
  unfoldable pub perform : ℕ → Call → Db r → Db r
  perform now (submit metadata priority) db = (submit_job now metadata priority db).0
  perform now (update id new error worker) db = (update_job_status now id new error worker db).0
  perform now (assign id worker shards) db = (assign_job_to_worker now id worker shards db).0
  perform now (release id worker reason) db = (release_job_from_worker now id worker reason db).0
  perform now (next requirements) db = (get_next_job requirements db).0
  perform now (mark id model dataset errors) db =
      (mark_validation_complete now id model dataset errors db).0
  perform now (cancel id reason) db = (cancel_job now id reason db).0
  perform now (cleanup decimal validation_timeout) db =
      (cleanup_expired_jobs decimal now validation_timeout db).0

  -- A submission uses an id that no stored job has.
  abbrev pub IsFresh : Call → Db r → Type 0
  IsFresh (submit metadata priority) db = get_job metadata.job_id db ≡ none
  IsFresh _ db = Unit

  pub data Reach (db : Db r) : Db r → Type 0 where
    here : Reach db db
    after :
        {mid : Db r}
        → Reach db mid
        → (now : ℕ) (call : Call) → IsFresh call mid
        → Reach db (perform now call mid)

  perform-IsIndexed :
      (now : ℕ) (call : Call) (db : Db r)
      → IsFresh call db
      → IsIndexed db
      → IsIndexed (perform now call db)
  unfolding perform get_next_job
  perform-IsIndexed now (submit metadata priority) db fresh =
      submit-IsIndexed now metadata priority db fresh
  perform-IsIndexed now (update id new error worker) db fresh =
      update-IsIndexed now id new error worker db
  perform-IsIndexed now (assign id worker shards) db fresh =
      assign-IsIndexed now id worker shards db
  perform-IsIndexed now (release id worker reason) db fresh =
      release-IsIndexed now id worker reason db
  perform-IsIndexed now (next requirements) db fresh =
      next_from-IsIndexed requirements priorities db
  perform-IsIndexed now (mark id model dataset errors) db fresh =
      mark-IsIndexed now id model dataset errors db
  perform-IsIndexed now (cancel id reason) db fresh = cancel-IsIndexed now id reason db
  perform-IsIndexed now (cleanup decimal limit) db fresh =
      cleanup_expired_jobs-IsIndexed decimal now limit db

  -- From a database whose status sets agree with the stored jobs, every sequence of calls leads to
  -- such a database again: a job id is in the set of a status exactly when the stored job has that
  -- status. Submissions are of ids that no stored job has.
  pub Reach-IsIndexed : {db db' : Db r} → Reach db db' → IsIndexed db → IsIndexed db'
  Reach-IsIndexed here inv = inv
  Reach-IsIndexed (after path now call fresh) inv =
      perform-IsIndexed now call _ fresh (Reach-IsIndexed path inv)
