-- ===== src/Tests/Batches.antt =====
-- Runs of the distributor on two workers and three batches.
use mesh_ml.Prelude.{
  ℕ, ◌≤◌, ◌≡◌, refl, String, Bool, true, false, ◌=ˢ◌, Option, none, some, inl, inr, List, [], ◌∷◌,
  String-discrete, sorted, place, count, arith, eq_iff,
}
use mesh_ml.Prelude.Dict.{Dict, lookup}
use mesh_ml.Distributor.{
  BatchMetadata, BatchAssignment, WorkerAssignment, DistributionStrategy, DataDistributor, id_of,
  pending_assignment, assign_batches_to_workers, assign_load_balanced, worker_of,
  get_batch_assignment, mark_download_failed, reassign_failed_batch,
}
use mesh_ml.Distributor.Balance.{assign_load_balanced-IsEven, IsEven}
use mesh_ml.Distributor.Registering.{IsAssigned, assign_batches_to_workers-IsAssigned}
use mesh_ml.Distributor.Tracking.{IsRecorded, Request, reassign, serve, serve-IsTracked}
use mesh_ml.Distributor.Retries.{fail_retried}

abbrev batch : String → ℕ → ℕ → BatchMetadata
batch id index samples = record {
  batch_id = id;
  shard_id = 0;
  batch_index = index;
  num_samples = samples;
}

abbrev three_batches : List BatchMetadata
three_batches = batch "a" 0 10 ∷ batch "b" 1 30 ∷ batch "c" 2 20 ∷ []

abbrev empty : DistributionStrategy → DataDistributor
empty strategy = record {
  strategy = strategy;
  assignments = [];
  worker_assignments = [];
  batch_to_worker = [];
}

assign_batches_to_workers-IsAssigned_example :
    IsAssigned "t" ("w1" ∷ "w2" ∷ []) three_batches (empty DistributionStrategy.load_balanced) (
      assign_batches_to_workers "t"
        ("w1" ∷ "w2" ∷ [])
        three_batches
        (empty DistributionStrategy.load_balanced))
assign_batches_to_workers-IsAssigned_example =
    assign_batches_to_workers-IsAssigned "t" "w1" ("w2" ∷ []) (batch "a" 0 10)
      (batch "b" 1 30 ∷ batch "c" 2 20 ∷ []) (empty DistributionStrategy.load_balanced) (inr refl)

assign_load_balanced-IsEven_example :
    (d : Dict WorkerAssignment) × (assign_load_balanced "t" ("w1" ∷ "w2" ∷ []) three_batches
      ≡ some d)
    × IsEven 30 ("w1" ∷ "w2" ∷ []) d
assign_load_balanced-IsEven_example =
    assign_load_balanced-IsEven "t" "w1" ("w2" ∷ []) three_batches 30
      (omega arith, (omega arith, (omega arith, tt)))

-- Batch "a" at worker "w1", which has failed `n` times.
abbrev held : ℕ → BatchAssignment
held n = pending_assignment "t" "w1" "a" 0 0 n

abbrev one_held : ℕ → DataDistributor
one_held n = record {
  strategy = DistributionStrategy.round_robin;
  assignments = ("w1_a", held n) ∷ [];
  worker_assignments =
      (
        "w1",
        record {
          worker_id = "w1";
          shard_id = mesh_ml.Prelude.pos 0;
          assigned_batches = "a" ∷ [];
          completed_batches = [];
          failed_batches = [];
          total_samples = 10;
          assigned_at = "t";
        },
      )
      ∷ [];
  batch_to_worker = ("a", "w1") ∷ [];
}

held_by : (n : ℕ) → worker_of "a" (one_held n) ≡ some "w1"
unfolding worker_of lookup
held_by n = refl

held_as : (n : ℕ) → lookup (id_of "w1" "a") (one_held n).assignments ≡ some (held n)
unfolding lookup
held_as n = refl

fail_retried_example :
    let s' = (mark_download_failed "t" "w1" "a" "lost" (one_held 0)).0 in
    let moved = pending_assignment "t" "w2" "a" 0 0 1 in
    ((reassign_failed_batch "t" "a" "w2" s').1 ≡ some moved)
    × (get_batch_assignment "a" (reassign_failed_batch "t" "a" "w2" s').0 ≡ some moved)
fail_retried_example =
    fail_retried "t" "w1" "a" "lost" "w2" (one_held 0) (held 0) (held_by 0) (held_as 0) refl
      (omega arith)

empty-IsRecorded : (strategy : DistributionStrategy) → IsRecorded (empty strategy)
unfolding lookup
empty-IsRecorded strategy = (λ b v h. absurd (ground arith), λ k a h. absurd (ground arith))

abbrev assign_three : Request
assign_three = Request.assign ("w1" ∷ "w2" ∷ []) three_batches

serve-IsTracked_example : IsRecorded (
    serve "u" (reassign "a" "w2") (serve "t" assign_three (empty DistributionStrategy.round_robin)))
serve-IsTracked_example =
    serve-IsTracked "u" (reassign "a" "w2")
      (serve "t" assign_three (empty DistributionStrategy.round_robin))
      (serve-IsTracked "t" assign_three (empty DistributionStrategy.round_robin)
        (empty-IsRecorded DistributionStrategy.round_robin))
