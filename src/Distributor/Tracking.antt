-- ===== src/Distributor/Tracking.antt =====
-- What the distributor has on record of a batch, through every method.
use mesh_ml.Prelude.{
  ◌≡◌, refl, subst, String, true, Option, none, some, inl, inr, List, [], ◌∷◌, arith, Option-cases,
}
use mesh_ml.Prelude.Dict.{Dict, insert, contains}
use mesh_ml.Distributor.Assignments.{
  BatchAssignment, WorkerAssignment, BatchMetadata, DistributionStrategy, DataDistributor, id_of,
  pending_assignment,
}
use mesh_ml.Distributor.Strategies.{
  find, register_batches, register_all, Outcome, assigned, registered, dispatch,
  assign_batches_to_workers, assign_round_robin, assign_load_balanced, assign_shard_per_worker,
}
use mesh_ml.Distributor.Downloads.{
  mark_download_started, mark_download_completed, mark_download_failed, reassign_failed_batch,
  auto_reassign_failed_batches, get_failed_batches,
}
use mesh_ml.Distributor.Records.{
  contains-insert_mono, contains-insert_here, IsTracked, started-IsTracked, completed-IsTracked,
  failed-IsTracked, Tracks, insert-Tracks, reassign-IsTracked, Leaves, reassign_each-IsTracked,
}
use mesh_ml.Distributor.Names.{
  IsNamed, started-IsNamed, completed-IsNamed, failed-IsNamed, reassign-IsNamed,
  reassign_each-IsNamed, register_all-IsNamed,
}

register_batches-Tracks :
    (now : String) (batches : List BatchMetadata) (w : String) (ids : List String)
    (Q : String → Type 0) (s s' : DataDistributor)
    → register_batches now batches w ids s ≡ some s'
    → Q w
    → Tracks Q s.assignments s.batch_to_worker
    → Tracks Q s'.assignments s'.batch_to_worker × (s'.worker_assignments ≡ s.worker_assignments)
unfolding register_batches
register_batches-Tracks now batches w [] Q s s' e q inv =
    subst
      (λ t.
        Tracks Q t.assignments t.batch_to_worker × (t.worker_assignments ≡ s.worker_assignments))
      (let p : s ≡ s' = cc in p) (inv, refl)
register_batches-Tracks now batches w (id ∷ ids) Q s s' e q inv =
    elim (Option-cases (find id batches)) [
      | inl absent ↦ absurd (ground arith)
      | inr (meta, found) ↦
          register_batches-Tracks now batches w ids Q
            (record s {
              assignments =
                  insert (id_of w id) (pending_assignment now w id meta.shard_id meta.batch_index 0)
                    s.assignments;
              batch_to_worker = insert id w s.batch_to_worker;
            })
            s' (ground arith) q
            (insert-Tracks Q id w s.assignments
              (pending_assignment now w id meta.shard_id meta.batch_index 0) s.batch_to_worker q
              inv)
    ]

register_all-IsTracked :
    (now : String) (batches : List BatchMetadata) (d : Dict WorkerAssignment)
    (s s' : DataDistributor)
    → register_all now batches d s ≡ some s'
    → IsTracked s
    → IsTracked s'
unfolding register_all
register_all-IsTracked now batches [] s s' e inv = subst IsTracked (let p : s ≡ s' = cc in p) inv
register_all-IsTracked now batches ((w, a) ∷ d) s s' e inv =
    elim (Option-cases (register_batches now batches w a.assigned_batches s)) [
      | inl broke ↦ absurd (ground arith)
      | inr (mid, went) ↦
          let (inv', same) =
            register_batches-Tracks now batches w a.assigned_batches
              (λ v. contains v (insert w a s.worker_assignments) ≡ true) s mid went
              (contains-insert_here w a s.worker_assignments)
              (λ b v h.
                let (p, q) = inv b v h in (p, contains-insert_mono w v a s.worker_assignments q)) in
          register_all-IsTracked now batches d
            (record mid { worker_assignments = insert w a mid.worker_assignments }) s'
            (ground arith) λ b v h. rw same (inv' b v h)
    ]

-- What is on record agrees with the stored assignments, which agree with their ids.
abbrev pub IsRecorded : DataDistributor → Type 0
IsRecorded s = IsTracked s × IsNamed s.assignments

-- The state after a call of `assign_batches_to_workers`, when it returns or refuses the call.
abbrev pub state_after : DataDistributor → Outcome → DataDistributor
state_after s (assigned d s') = s'
state_after s _ = s

registered-IsTracked :
    (now : String) (batches : List BatchMetadata) (s : DataDistributor)
    (o : Option (Dict WorkerAssignment))
    → IsRecorded s
    → IsRecorded (state_after s (registered now batches s o))
unfolding registered
registered-IsTracked now batches s none inv = inv
registered-IsTracked now batches s (some d) inv =
    elim (Option-cases (register_all now batches d s)) [
      | inl broke ↦ rw (broke, registered) inv
      | inr (s', went) ↦
          rw (went, registered)
            (
              register_all-IsTracked now batches d s s' went inv.0,
              register_all-IsNamed now batches d s s' went inv.1,
            )
    ]

dispatch-IsTracked :
    (now : String) (ws : List String) (bs : List BatchMetadata) (strategy : DistributionStrategy)
    (s : DataDistributor)
    → IsRecorded s
    → IsRecorded (state_after s (dispatch now strategy ws bs s))
unfolding dispatch
dispatch-IsTracked now ws bs DistributionStrategy.round_robin s inv =
    registered-IsTracked now bs s (assign_round_robin now ws bs) inv
dispatch-IsTracked now ws bs DistributionStrategy.load_balanced s inv =
    registered-IsTracked now bs s (assign_load_balanced now ws bs) inv
dispatch-IsTracked now ws bs DistributionStrategy.shard_per_worker s inv =
    registered-IsTracked now bs s (some (assign_shard_per_worker now ws bs)) inv
dispatch-IsTracked now ws bs DistributionStrategy.locality_aware s inv = inv

assign-IsTracked :
    (now : String) (ws : List String) (batches : List BatchMetadata) (s : DataDistributor)
    → IsRecorded s
    → IsRecorded (state_after s (assign_batches_to_workers now ws batches s))
unfolding assign_batches_to_workers
assign-IsTracked now ws [] s inv = inv
assign-IsTracked now [] (b ∷ bs) s inv = inv
assign-IsTracked now (w ∷ ws) (b ∷ bs) s inv =
    dispatch-IsTracked now (w ∷ ws) (b ∷ bs) s.strategy s inv

-- The calls that change a distributor.
pub data Request : Type 0 where
  assign : List String → List BatchMetadata → Request
  start : String → String → Request
  complete : String → String → Request
  fail : String → String → String → Request
  reassign : String → String → Request
  reassign_all : List String → Request

abbrev left_by : DataDistributor → Option (DataDistributor × List BatchAssignment) → DataDistributor
left_by s none = s
left_by s (some (last, made)) = last

unfoldable pub serve : String → Request → DataDistributor → DataDistributor
serve now (assign ws batches) s = state_after s (assign_batches_to_workers now ws batches s)
serve now (start w b) s = (mark_download_started w b s).0
serve now (complete w b) s = (mark_download_completed now w b s).0
serve now (fail w b reason) s = (mark_download_failed now w b reason s).0
serve now (reassign b w) s = (reassign_failed_batch now b w s).0
serve now (reassign_all ws) s = left_by s (auto_reassign_failed_batches now ws s)

left_by-IsRecorded :
    (s : DataDistributor) (o : Option (DataDistributor × List BatchAssignment))
    → IsRecorded s
    → Leaves IsTracked o
    → Leaves (λ t. IsNamed t.assignments) o
    → IsRecorded (left_by s o)
left_by-IsRecorded s none inv h k = inv
left_by-IsRecorded s (some (last, made)) inv h k = (h, k)

-- In a distributor, let each batch on record with a worker have an assignment stored under the id that
-- the two make, and an entry of that worker, and let every stored assignment name a worker and a batch
-- that make the id under which it is stored: so it is the batch's own assignment to that worker, but
-- where the ids of two pairs are equal. Every call of a method leads to such a distributor again.
pub serve-IsTracked :
    (now : String) (request : Request) (s : DataDistributor)
    → IsRecorded s
    → IsRecorded (serve now request s)
unfolding serve auto_reassign_failed_batches
serve-IsTracked now (assign ws batches) s inv = assign-IsTracked now ws batches s inv
serve-IsTracked now (start w b) s (inv, named) =
    (started-IsTracked w b s inv, started-IsNamed w b s named)
serve-IsTracked now (complete w b) s (inv, named) =
    (completed-IsTracked now w b s inv, completed-IsNamed now w b s named)
serve-IsTracked now (fail w b reason) s (inv, named) =
    (failed-IsTracked now w b reason s inv, failed-IsNamed now w b reason s named)
serve-IsTracked now (reassign b w) s (inv, named) =
    (reassign-IsTracked now b w s inv, reassign-IsNamed now b w s named)
serve-IsTracked now (reassign_all ws) s (inv, named) =
    left_by-IsRecorded s (auto_reassign_failed_batches now ws s) (inv, named)
      (reassign_each-IsTracked now ws 0 (get_failed_batches s) s inv)
      (reassign_each-IsNamed now ws 0 (get_failed_batches s) s named)
