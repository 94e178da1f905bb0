-- ===== src/Tests/Tasks.antt =====
-- The task assignment on two idle workers and a waiting job.
use mesh_ml.Prelude.{ℕ, ◌≡◌, false, none, some, [], ◌∷◌}
use mesh_ml.JobQueue.{JobInfo}
use mesh_ml.Tasks.{
  greedy, best_fit, least_loaded, round_robin, AssignmentConstraints, returned, Surroundings,
  TaskAssignmentService, is_success, assign_job, assign_batch,
}
use mesh_ml.Tasks.Refusal.{CountsNone, assign_job_refused, assign_batch_refused}
use mesh_ml.Tests.Server.{server}
use mesh_ml.Tests.Jobs.{three}
use mesh_ml.Tests.Workers.{two_workers}

-- A sharder that takes everything and hands out shard 0.
abbrev willing : Surroundings
willing = record {
  World = ℕ;
  as_set = λ ids. ids;
  text_of = λ f. "error";
  has_batches = λ job n. false;
  shard_dataset = λ job n. (n, none);
  assign_batches = λ worker n. (n, returned (some 0));
}

abbrev tasks : TaskAssignmentService (server JobInfo) willing
tasks = record {
  config = record {
    default_strategy = best_fit;
    default_load_balancing = least_loaded;
    batch_size = 100;
  };
  discovery = two_workers;
  queue = three;
  world = 0;
  round_robin_index = [];
  assignment_history = [];
  sharded_datasets = [];
}

abbrev anyone : AssignmentConstraints
anyone = record {
  require_group = none;
  exclude_workers = [];
  min_gpu_count = 0;
  max_jobs_per_worker = 10;
  affinity_jobs = [];
  anti_affinity_jobs = [];
  preferred_workers = [];
}

assign_job_refused_example :
    let (s', c', result) = assign_job 30 "j1" (some greedy) anyone none tasks in
    (s' ≡ tasks) × (is_success result ≡ false)
assign_job_refused_example = assign_job_refused 30 "j1" (some greedy) anyone none tasks

assign_batch_refused_example :
    let (s', answer) = assign_batch 30 ("j1" ∷ []) none (some round_robin) anyone tasks in
    (s' ≡ record tasks { round_robin_index = s'.round_robin_index }) × CountsNone answer
assign_batch_refused_example =
    assign_batch_refused 30 ("j1" ∷ []) none (some round_robin) anyone tasks
