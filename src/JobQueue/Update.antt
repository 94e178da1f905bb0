-- ===== src/JobQueue/Update.antt =====
-- What `update_job_status` does to the table of jobs, branch by branch.
use mesh_ml.Prelude.{ℕ, ◌≡◌, refl, String, true, false, Option, none, some, ◌=ˢ◌, if◌then◌else◌}
use mesh_ml.Redis.{Redis}
use mesh_ml.JobQueue.Jobs.{JobStatus, JobInfo, is_valid_transition}
use mesh_ml.JobQueue.Operations.{Db, get_job, restamp, write_status, update_job_status}

module _ {r : Redis JobInfo} (now : ℕ) (id : String) (new : JobStatus)
    (error worker : Option String) (db : Db r) where
  pub update_missing :
      get_job id db ≡ none → update_job_status now id new error worker db ≡ (db, false)
  unfolding update_job_status
  update_missing h = rw (h, update_job_status)

  pub update_invalid :
      (job : JobInfo)
      → get_job id db ≡ some job
      → is_valid_transition job.status new ≡ false
      → update_job_status now id new error worker db ≡ (db, false)
  unfolding update_job_status
  update_invalid job h v = rw (h, update_job_status) (rw v)

  pub update_valid :
      (job : JobInfo)
      → get_job id db ≡ some job
      → is_valid_transition job.status new ≡ true
      → update_job_status now id new error worker db
        ≡ (write_status id job.status new (restamp now new error worker job) db, true)
  unfolding update_job_status
  update_valid job h v = rw (h, update_job_status) (rw v)

  pub get_job-write_status :
      (old : JobStatus) (job : JobInfo) (j : String)
      → get_job j (write_status id old new job db) ≡ (if id =ˢ j then some job else get_job j db)
  unfolding write_status
  get_job-write_status old job j = r.get-set id j job db.jobs

pub status-restamp :
    (now : ℕ) (new : JobStatus) (error worker : Option String) (job : JobInfo)
    → (restamp now new error worker job).status ≡ new
unfolding restamp
status-restamp now new error worker job = refl
