-- ===== src/Gateway/Jobs.antt =====
-- routers/jobs.py: the submission of a job, the wait for its dataset, its cancellation, and who may
-- see it. The body of a background task is the wait and its writes; the calls of the dataset
-- sharder and of the orchestrator that follow are left out.
use mesh_ml.Prelude.{
  ℤ, pos, negsuc, String, Bool, true, false, ◌||◌, not, Option, none, some, List, [], ◌∷◌, ◌=ˢ◌,
  ◌==◌, if◌then◌else◌, filter_by, is_some,
}
use mesh_ml.Prelude.Dict.{Dict, lookup, insert, contains}
use mesh_ml.Redis.{Redis}
use mesh_ml.JobQueue.{
  JobStatus, JobInfo, Db, is_final, get_job as queued_job, put_job, at_status, at_queue,
  leave_worker,
}
use mesh_ml.Gateway.Tables.{
  Job, Dataset, Database, Response, ok, raised, forbidden, not_found, unprocessable,
  attribute_error, ◌>>=◌, ◌>>◌, raise_if, or_raise, select_one, add_row, update_rows, is_job,
  is_dataset, membership,
}

-- What the handler uses of JSON and of `int`: values are held as their texts.
pub record Json : Type 0 where
  pub is_null : String → Bool
  pub of_text : String → String
  pub to_int : String → Option ℤ
  pub of_int : ℤ → String

pub record JobCreateRequest : Type 0 where
  pub group_id : String
  pub model_id : Option String
  pub dataset_id : Option String
  pub config : Dict String

-- `int(final_version) <= 0`
abbrev pub is_positive : ℤ → Bool
is_positive (pos n) = not (n == 0)
is_positive (negsuc n) = false

-- The truth value of an optional text.
abbrev pub given : Option String → Bool
given none = false
given (some s) = not (s =ˢ "")

module _ (json : Json) where
  -- `dataset_format` is filled in from the dataset's row.
  unfoldable pub with_format : Option Dataset → Dict String → Dict String
  with_format none config = config
  with_format (some dataset) config =
      if contains "dataset_format" config
      then config
      else insert "dataset_format" (json.of_text dataset.format) config

  unfoldable pub checked_version : Dict String → Response (Dict String)
  checked_version config = elim (lookup "final_version" config) [
    | none ↦ ok config
    | some v ↦ if json.is_null v then ok config else elim (json.to_int v) [
      | none ↦ raised unprocessable
      | some n ↦
          if is_positive n
          then ok (insert "final_version" (json.of_int n) config)
          else raised unprocessable
    ]
  ]

  abbrev pub dataset_of : Option String → Database → Response (Option Dataset)
  dataset_of none db = ok none
  dataset_of (some d) db = if d =ˢ "" then ok none else select_one (is_dataset d) db.datasets

  unfoldable pub create_job :
      (id : String) → JobCreateRequest → (user : String) → Database → Response (Database × Job)
  unfolding with_format checked_version
  create_job id request user db = do
    member ← membership request.group_id user db
    raise_if (not (is_some member)) forbidden
    dataset ← dataset_of request.dataset_id db
    config ← checked_version (with_format dataset request.config)
    let job : Job = record {
      id = id;
      group_id = request.group_id;
      model_id = request.model_id;
      dataset_id = request.dataset_id;
      config = config;
      status = "pending";
      error_message = none;
      created_by = user;
    }
    jobs ← add_row (is_job id) job db.jobs
    ok (record db { jobs = jobs }, job)

-- `current_job and current_job.status in ["cancelled", "failed"]`
abbrev pub is_stopped : Option Job → Bool
is_stopped none = false
is_stopped (some job) = job.status =ˢ "cancelled" || job.status =ˢ "failed"

-- `dataset.status in ["processing", "pending", "uploading"]`
abbrev pub is_coming : Dataset → Bool
is_coming d = d.status =ˢ "processing" || d.status =ˢ "pending" || d.status =ˢ "uploading"

-- How a round of the wait ends: it sleeps and goes on, the task returns, it raises, or it leaves the
-- loop with the dataset's row.
pub data Poll : Type 0 where
  again stopped missing upload_failed lookup_failed : Poll
  proceed : Dataset → Poll

abbrev pub poll_dataset : Response (Option Dataset) → Poll
poll_dataset (raised e) = lookup_failed
poll_dataset (ok none) = missing
poll_dataset (ok (some dataset)) =
    if is_coming dataset
    then again
    else if dataset.status =ˢ "failed"
    then upload_failed
    else proceed dataset

-- One round, on the tables as they are then.
unfoldable pub poll : (job_id dataset_id : String) → Database → Poll
poll job_id dataset_id db = elim (select_one (is_job job_id) db.jobs) [
  | raised e ↦ lookup_failed
  | ok current_job ↦
      if is_stopped current_job
      then stopped
      else poll_dataset (select_one (is_dataset dataset_id) db.datasets)
]

abbrev pub is_again : Poll → Bool
is_again again = true
is_again stopped = false
is_again missing = false
is_again upload_failed = false
is_again lookup_failed = false
is_again (proceed d) = false

-- `while True`, on the tables as the successive rounds find them; other requests write to them
-- between two rounds. `again` is left when the tables run out.
unfoldable pub wait : (job_id dataset_id : String) → List Database → Poll
wait job_id dataset_id [] = again
wait job_id dataset_id (db ∷ later) =
    let rest = wait job_id dataset_id later in
    if is_again (poll job_id dataset_id db) then rest else poll job_id dataset_id db

abbrev pub release_dataset : Dataset → Dataset
release_dataset d = record d {
  status = if d.status =ˢ "sharding" || d.status =ˢ "available" then "uploaded" else d.status;
}

-- `dataset.status = "uploaded"` for the dataset that a job was given, if it is sharding or available
unfoldable pub free_dataset : Option String → Database → Response (List Dataset)
free_dataset none db = ok db.datasets
free_dataset (some d) db =
    if d =ˢ ""
    then ok db.datasets
    else select_one (is_dataset d) db.datasets >>= λ row. ok (elim row [
      | none ↦ db.datasets
      | some dataset ↦ update_rows (is_dataset d) release_dataset db.datasets
    ])

-- The `except` clause of the background task, with the text of the error. An error in it is logged
-- by the framework, and nothing is written.
unfoldable pub fail_job : (job_id message : String) → Database → Response Database
unfolding free_dataset
fail_job job_id message db = do
  found ← select_one (is_job job_id) db.jobs
  elim found [
    | none ↦ ok db
    | some job ↦ do
      datasets ← free_dataset job.dataset_id db
      ok (record db {
        jobs =
            update_rows (is_job job_id)
              (λ j. record j { status = "failed"; error_message = some message }) db.jobs;
        datasets = datasets;
      })
  ]

-- The part of `cancel_job` in the gateway's tables.
unfoldable pub cancel_row : (job_id user : String) → Database → Response Database
unfolding free_dataset
cancel_row job_id user db = do
  found ← select_one (is_job job_id) db.jobs
  job ← or_raise found not_found
  raise_if (not (job.created_by =ˢ user)) forbidden
  datasets ← free_dataset job.dataset_id db
  ok (record db {
    jobs = update_rows (is_job job_id) (λ j. record j { status = "cancelled" }) db.jobs;
    datasets = datasets;
  })

-- The part of `cancel_job` in the orchestrator's queue.
module _ {r : Redis JobInfo} where
  open r use {srem, sadd, zrem}

  unfoldable pub cancel_queued : (job_id : String) → JobInfo → Db r → Db r
  cancel_queued job_id job db =
      let stored = put_job job_id (record job { status = JobStatus.cancelled }) db in
      let left = at_status job.status (srem job_id) stored in
      let cancelled = at_status JobStatus.cancelled (sadd job_id) left in
      leave_worker job.assigned_worker_id job_id (at_queue job.priority (zrem job_id) cancelled)

  unfoldable pub cancel_in_queue : String → Db r → Db r
  unfolding cancel_queued
  cancel_in_queue job_id db = elim (queued_job job_id db) [
    | none ↦ db
    | some job ↦ if is_final job.status then db else cancel_queued job_id job db
  ]

-- `list_jobs`, whose parameter `status` hides the module of the status codes: where it refuses, it
-- reads an attribute of a text or of `None`.
unfoldable pub list_group_jobs :
    (group_id status : Option String) → (user : String) → Database → Response (List Job)
list_group_jobs group_id status user db = do
  let all =
      if given status
      then filter_by (λ j. elim status [ none ↦ false | some s ↦ j.status =ˢ s ]) db.jobs
      else db.jobs
  elim group_id [
    | none ↦ ok all
    | some g ↦ if g =ˢ "" then ok all else do
      member ← membership g user db
      raise_if (not (is_some member)) attribute_error
      ok (filter_by (λ j. j.group_id =ˢ g) all)
  ]

unfoldable pub get_job_row : (job_id user : String) → Database → Response Job
get_job_row job_id user db = do
  found ← select_one (is_job job_id) db.jobs
  job ← or_raise found not_found
  member ← membership job.group_id user db
  raise_if (not (is_some member)) forbidden
  ok job
