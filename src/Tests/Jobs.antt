-- ===== src/Tests/Jobs.antt =====
-- Sample jobs and a queue that holds one waiting, one running and one completed job.
use mesh_ml.Prelude.{
  ℕ, ◌<◌, ◌≡◌, refl, String, true, false, Option, none, some, List, [], ◌∷◌, arith, eq_iff,
}
use mesh_ml.JobQueue.{
  JobStatus, waiting, running, completed, JobPriority, priority_value, medium, JobInfo, JobMetadata,
  ValidationStatus, Db, get_job, assign_job_to_worker, release_job_from_worker, get_next_job,
  cleanup_expired_jobs, update_job_status, is_valid_transition, write_status, list_jobs, a_text,
  candidate, drop_orphan, JobStatus-discrete,
}
use mesh_ml.JobQueue.Calls.{Call, perform, Reach, here, after, Reach-IsIndexed}
use mesh_ml.JobQueue.Index.{IsIndexed}
use mesh_ml.JobQueue.Lifecycle.{Moves, perform-Moves, Reach-closed}
use mesh_ml.JobQueue.Assignment.{IsAssigned, IsReleased, assign_waiting, release_running}
use mesh_ml.JobQueue.Choice.{IsCandidate, get_next_job-IsCandidate}
use mesh_ml.JobQueue.Expiry.{Stored, cleanup_expired_jobs-running}
use mesh_ml.Tests.Server.{server, model}

abbrev train : String → JobMetadata
train id = record {
  job_id = id;
  group_id = "g1";
  model_id = "7";
  dataset_id = "mnist";
  user_id = "ada";
  batch_size = 32;
  num_epochs = 10;
  requirements = record {
    min_gpu_count = 0;
    min_gpu_memory_gb = 0;
    min_cpu_count = 1;
    min_ram_gb = 1;
    requires_cuda = false;
    requires_mps = false;
    max_execution_time_seconds = 3600;
  };
}

abbrev pub job : String → JobStatus → Option String → JobInfo
job id status worker = record {
  job_id = id;
  metadata = train id;
  status = status;
  priority = medium;
  created_at = 10;
  updated_at = 20;
  started_at = none;
  completed_at = none;
  assigned_worker_id = worker;
  assigned_shard_ids = [];
  model_validation_status = ValidationStatus.passed;
  dataset_validation_status = ValidationStatus.passed;
  validation_errors = [];
  error_message = none;
  retry_count = 0;
  max_retries = 3;
}

abbrev by : JobStatus → List String
by JobStatus.waiting = "j1" ∷ []
by JobStatus.running = "j2" ∷ []
by JobStatus.completed = "j3" ∷ []
by _ = []

abbrev queued : JobPriority → List (String × ℕ)
queued JobPriority.medium = ("j1", 10) ∷ []
queued _ = []

abbrev pub three : Db (server JobInfo)
three = record {
  jobs =
      ("j1", job "j1" waiting none)
      ∷ ("j2", job "j2" running (some "w1"))
      ∷ ("j3", job "j3" completed (some "w1"))
      ∷ [];
  by_status = by;
  by_group = λ g. [];
  by_worker = λ w. [];
  queue = queued;
  dead_letter = [];
  validation_pending = [];
}

pub get_job_1 : get_job "j1" three ≡ some (job "j1" waiting none)
unfolding model
get_job_1 = refl

get_job_2 : get_job "j2" three ≡ some (job "j2" running (some "w1"))
unfolding model
get_job_2 = refl

get_job_3 : get_job "j3" three ≡ some (job "j3" completed (some "w1"))
unfolding model
get_job_3 = refl

abbrev assigned : Db (server JobInfo)
assigned = (assign_job_to_worker 30 "j1" "w2" (some (4 ∷ [])) three).0

assign_waiting_example :
    ((assign_job_to_worker 30 "j1" "w2" (some (4 ∷ [])) three).1 ≡ true)
    × IsAssigned "j1" "w2" (job "j1" waiting none) assigned
assign_waiting_example =
    assign_waiting 30 "j1" "w2" (some (4 ∷ [])) three (job "j1" waiting none) get_job_1 refl

release_running_example :
    ((release_job_from_worker 30 "j2" "w1" "lost" three).1 ≡ true)
    × IsReleased 30 "j2" "w1"
        (job "j2" running (some "w1"))
        three
        (release_job_from_worker 30 "j2" "w1" "lost" three).0
release_running_example =
    release_running 30 "j2" "w1" "lost" three (job "j2" running (some "w1")) get_job_2 refl refl

next_of_three : (get_next_job none three).1 ≡ some (job "j1" waiting none)
unfolding model get_next_job candidate drop_orphan JobStatus-discrete
next_of_three = refl

get_next_job-IsCandidate_example :
    (p : JobPriority) × IsCandidate none p (job "j1" waiting none) three
    × ((q : JobPriority) (other : JobInfo)
        → priority_value p < priority_value q
        → ¬ (IsCandidate none q other three))
get_next_job-IsCandidate_example =
    get_next_job-IsCandidate none three (job "j1" waiting none) next_of_three

three-IsIndexed : IsIndexed three
unfolding model
three-IsIndexed = record {
  at = λ s j. ground (
    arith,
    eq_iff "j1" j,
    eq_iff "j2" j,
    eq_iff "j3" j,
    eq_iff "j1" "j2",
    eq_iff "j1" "j3",
    eq_iff "j2" "j3",
  );
}

abbrev release_2 : Call
release_2 = Call.release "j2" "w1" "lost"

abbrev assign_1 : Call
assign_1 = Call.assign "j1" "w2" none

abbrev later : Db (server JobInfo)
later = perform 40 assign_1 (perform 30 release_2 three)

to_later : Reach three later
to_later = after (after here 30 release_2 tt) 40 assign_1 tt

Reach-IsIndexed_example : IsIndexed later
Reach-IsIndexed_example = Reach-IsIndexed to_later three-IsIndexed

Reach-closed_example :
    (job' : JobInfo) × (get_job "j3" later ≡ some job') × (job'.status ≡ completed)
Reach-closed_example = Reach-closed "j3" (job "j3" completed (some "w1")) to_later get_job_3 refl

perform-Moves_example : Moves "j2" (job "j2" running (some "w1")) (perform 30 release_2 three)
perform-Moves_example =
    perform-Moves 30 release_2 three "j2" (job "j2" running (some "w1")) tt get_job_2

-- Job "j2" started at time 0 and may run for an hour.
abbrev job_2 : JobInfo
job_2 = record (job "j2" running (some "w1")) { started_at = some 0 }

abbrev started : Db (server JobInfo)
started = record three {
  jobs =
      ("j1", job "j1" waiting none) ∷ ("j2", job_2) ∷ ("j3", job "j3" completed (some "w1")) ∷ [];
  by_worker = λ w. "j2" ∷ [];
}

started-IsIndexed : IsIndexed started
unfolding model
started-IsIndexed = record {
  at = λ s j. ground (
    arith,
    eq_iff "j1" j,
    eq_iff "j2" j,
    eq_iff "j3" j,
    eq_iff "j1" "j2",
    eq_iff "j1" "j3",
    eq_iff "j2" "j3",
  );
}

get_started : get_job "j2" started ≡ some job_2
unfolding model
get_started = refl

-- One microsecond too long.
cleanup_expired_jobs-running_example :
    Stored "j2" JobStatus.timeout (cleanup_expired_jobs (λ n. "3600") 3600000001 300 started).0
cleanup_expired_jobs-running_example =
    cleanup_expired_jobs-running "j2" (λ n. "3600") 3600000001 300 job_2 0 started started-IsIndexed
      refl get_started refl refl

-- The worker's set loses the job, and both are counted.
cleaned :
    ((cleanup_expired_jobs (λ n. "3600") 3600000001 300 started).1 ≡ 1)
    × ((cleanup_expired_jobs (λ n. "3600") 3600000001 300 started).0.by_worker "w1" ≡ [])
unfolding model cleanup_expired_jobs update_job_status is_valid_transition write_status
cleaned = (refl, refl)

-- A text for the status is refused.
running_text : list_jobs (λ ids. ids) (some (a_text "running")) none (some "w1") 100 started ≡ none
unfolding list_jobs
running_text = refl
