-- ===== src/Tests/Workers.antt =====
-- Runs of the worker discovery service on a queue with one waiting job.
use mesh_ml.Prelude.{ℕ, ◌≡◌, refl, String, true, false, none, some, [], ◌∷◌, arith, sorted, place}
use mesh_ml.Prelude.Dict.{lookup}
use mesh_ml.JobQueue.{JobInfo, waiting, failed, get_job}
use mesh_ml.JobQueue.Assignment.{IsAssigned}
use mesh_ml.Workers.{
  WorkerCapabilities, Service, Introduction, new_worker, get_compute_score, match_worker_to_job,
  match_and_assign, best_worker, get_available_workers, discover_workers, list_workers, of_group,
  meets, group_for,
}
use mesh_ml.Workers.Soundness.{IsSound}
use mesh_ml.Workers.Pools.{register, unregister, apply_call, apply_call-IsSound}
use mesh_ml.Workers.Matching.{IsBest, match_worker_to_job-IsBest}
use mesh_ml.Workers.Rollback.{IsBusyWith, match_and_assign-known, match_and_assign-unknown}
use mesh_ml.Tests.Jobs.{job, three, get_job_1}

abbrev capabilities : ℕ → WorkerCapabilities
capabilities gpus = record {
  gpu_count = gpus;
  gpu_memory_gb = 16;
  gpu_type = "A";
  cpu_count = 8;
  ram_gb = 64;
  network_speed_mbps = 100;
  storage_gb = 500;
  supports_cuda = true;
  supports_mps = false;
  pytorch_version = "2";
  python_version = "3";
}

abbrev introduction : String → ℕ → Introduction
introduction id gpus = record {
  worker_id = id;
  hostname = "host";
  ip_address = "10.0.0.1";
  port = 80;
  capabilities = capabilities gpus;
  group_id = some "g";
  version = "1.0.0";
  tags = [];
}

abbrev empty_service : Service
empty_service = record {
  require_group_assignment = true;
  pools = [];
  worker_to_pool = [];
  registry = [];
}

abbrev pub two_workers : Service
two_workers = record empty_service {
  registry =
      ("w1", new_worker "t" (introduction "w1" 1))
      ∷ ("w2", new_worker "t" (introduction "w2" 2))
      ∷ [];
}

empty_service-IsSound : IsSound empty_service
unfolding lookup
empty_service-IsSound = record {
  capacity = λ g pool e. absurd (ground arith);
  member = λ w g e. absurd (ground arith);
  known = λ w g e. absurd (ground arith);
}

apply_call-IsSound_example : IsSound (
    apply_call "u"
      (unregister "w1")
      (apply_call "t" (register (introduction "w1" 1)) empty_service))
apply_call-IsSound_example =
    apply_call-IsSound "u" (unregister "w1")
      (apply_call "t" (register (introduction "w1" 1)) empty_service)
      (apply_call-IsSound "t" (register (introduction "w1" 1)) empty_service empty_service-IsSound)

matched :
    match_worker_to_job "j1" (some "g") two_workers three
    ≡ some (new_worker "t" (introduction "w2" 2))
unfolding match_worker_to_job best_worker get_available_workers discover_workers list_workers
    of_group meets sorted place new_worker get_compute_score lookup
matched = refl

match_worker_to_job-IsBest_example :
    IsBest
      (job "j1" waiting none).metadata.requirements
      (group_for (some "g") (job "j1" waiting none))
      two_workers
      (new_worker "t" (introduction "w2" 2))
match_worker_to_job-IsBest_example =
    match_worker_to_job-IsBest "j1" (some "g") two_workers three (job "j1" waiting none)
      (new_worker "t" (introduction "w2" 2)) get_job_1 matched

w1_known : lookup "w1" two_workers.registry ≡ some (new_worker "t" (introduction "w1" 1))
unfolding lookup
w1_known = refl

w9_unknown : lookup "w9" two_workers.registry ≡ none
unfolding lookup
w9_unknown = refl

match_and_assign-known_example :
    let (s', db', success) = match_and_assign 30 "j1" (some "w1") none two_workers three in
    (success ≡ true)
    × IsAssigned "j1" "w1" (job "j1" waiting none) db'
    × IsBusyWith "w1" "j1" s'.registry
match_and_assign-known_example =
    match_and_assign-known 30 "j1" "w1" none two_workers three (job "j1" waiting none)
      (new_worker "t" (introduction "w1" 1)) get_job_1 refl refl w1_known

match_and_assign-unknown_example :
    let (s', db', success) = match_and_assign 30 "j1" (some "w9") none two_workers three in
    (success ≡ false)
    × (s' ≡ two_workers)
    × ((job' : JobInfo) × (get_job "j1" db' ≡ some job')
        × (job'.status ≡ failed)
        × (job'.assigned_worker_id ≡ none)
        × (job'.retry_count ≡ 1))
match_and_assign-unknown_example =
    match_and_assign-unknown 30 "j1" "w9" none two_workers three (job "j1" waiting none) get_job_1
      refl refl refl w9_unknown
