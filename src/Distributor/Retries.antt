-- ===== src/Distributor/Retries.antt =====
-- A failed download, and whether its batch may move to another worker.
use mesh_ml.Prelude.{
  ◌+◌, ◌<◌, ◌≤◌, ◌≡◌, refl, ap, ◌∙◌, String, true, false, ◌=ˢ◌, eq_iff, none, some, inl, inr, List,
  arith, Option-cases, Bool-cases, elem,
}
use mesh_ml.Prelude.Dict.{lookup, insert, lookup-insert}
use mesh_ml.Distributor.Assignments.{
  AssignmentStatus, BatchAssignment, WorkerAssignment, DataDistributor, may_retry, id_of,
  pending_assignment,
}
use mesh_ml.Distributor.Downloads.{
  worker_of, get_batch_assignment, set_assignment, note_batch, failed_assignment,
  mark_download_failed, move_batch, reassign_failed_batch,
}

-- `note_batch` writes worker entries only.
note_batch-keeps :
    (add : WorkerAssignment → WorkerAssignment) (listed : WorkerAssignment → List String)
    (w b : String) (s : DataDistributor)
    → ((note_batch add listed w b s).assignments ≡ s.assignments)
      × ((note_batch add listed w b s).batch_to_worker ≡ s.batch_to_worker)
unfolding note_batch
note_batch-keeps add listed w b s = elim (Option-cases (lookup w s.worker_assignments)) [
  | inl absent ↦ rw (absent, note_batch) (refl, refl)
  | inr (a, found) ↦ elim (Bool-cases (elem b (listed a))) [
    | inl there ↦ rw (found, note_batch, there) (refl, refl)
    | inr new ↦ rw (found, note_batch, new) (refl, refl)
  ]
]

module _ (now w b reason : String) (s : DataDistributor) (a : BatchAssignment)
    (found : lookup (id_of w b) s.assignments ≡ some a) where
  failed-writes :
      ((mark_download_failed now w b reason s).0.assignments
        ≡ insert (id_of w b) (failed_assignment now reason a) s.assignments)
      × ((mark_download_failed now w b reason s).0.batch_to_worker ≡ s.batch_to_worker)
  unfolding mark_download_failed
  failed-writes =
      rw (found, mark_download_failed)
        (note_batch-keeps _ _ w b (set_assignment (id_of w b) (failed_assignment now reason a) s))

  failed_lookup :
      lookup (id_of w b) (mark_download_failed now w b reason s).0.assignments
      ≡ some (failed_assignment now reason a)
  failed_lookup =
      ap (lookup (id_of w b)) failed-writes.0
      ∙ ground (
        arith,
        eq_iff (id_of w b) (id_of w b),
        lookup-insert (id_of w b) (id_of w b) (failed_assignment now reason a) s.assignments,
      )

  failed_owner :
      worker_of b s ≡ some w → worker_of b (mark_download_failed now w b reason s).0 ≡ some w
  unfolding worker_of
  failed_owner owned = ground (arith, failed-writes)

module _ (now b new old : String) (s : DataDistributor) (a : BatchAssignment)
    (owned : worker_of b s ≡ some old) (found : lookup (id_of old b) s.assignments ≡ some a) where
  reassign_retry :
      may_retry a ≡ true
      → reassign_failed_batch now b new s
        ≡ ((move_batch now b old new a s).0, some (move_batch now b old new a s).1)
  unfolding reassign_failed_batch
  reassign_retry retry = rw (owned, reassign_failed_batch, found, retry) refl

  reassign_never : may_retry a ≡ false → reassign_failed_batch now b new s ≡ (s, none)
  unfolding reassign_failed_batch
  reassign_never never = rw (owned, reassign_failed_batch, found, never) refl

worker_of-named :
    (b w : String) (s : DataDistributor)
    → lookup b s.batch_to_worker ≡ some w
    → (w =ˢ "") ≡ false
    → worker_of b s ≡ some w
unfolding worker_of
worker_of-named b w s e named = ground arith

get_batch_assignment-owned :
    (b w : String) (s : DataDistributor)
    → worker_of b s ≡ some w
    → get_batch_assignment b s ≡ lookup (id_of w b) s.assignments
unfolding get_batch_assignment
get_batch_assignment-owned b w s e = ground arith

get_batch_assignment-move_batch :
    (now b old new : String) (a : BatchAssignment) (s : DataDistributor)
    → (new =ˢ "") ≡ false
    → get_batch_assignment b (move_batch now b old new a s).0
      ≡ some (move_batch now b old new a s).1
unfolding move_batch
get_batch_assignment-move_batch now b old new a s named =
    let s' = (move_batch now b old new a s).0 in
    get_batch_assignment-owned b new s' (
      worker_of-named b new s' (ground (arith, eq_iff b b, lookup-insert b b new s.batch_to_worker))
        named)
    ∙ ground (
      arith,
      eq_iff (id_of new b) (id_of new b),
      lookup-insert (id_of new b) (id_of new b)
          (pending_assignment now new b a.shard_id a.batch_index a.retry_count)
          (insert (id_of old b) (record a { status = AssignmentStatus.reassigned }) s.assignments),
    )

-- A batch on record with a worker, whose download fails with fewer than `max_retries` failures, this
-- one included: `reassign_failed_batch` to a worker with a name returns a new assignment, PENDING at
-- that worker with the count of failures, which is then the batch's assignment.
pub fail_retried :
    (now w b reason new : String) (s : DataDistributor) (a : BatchAssignment)
    → worker_of b s ≡ some w
    → lookup (id_of w b) s.assignments ≡ some a
    → (new =ˢ "") ≡ false
    → a.retry_count + 1 < a.max_retries
    → let s' = (mark_download_failed now w b reason s).0 in
      let moved = pending_assignment now new b a.shard_id a.batch_index (a.retry_count + 1) in
      ((reassign_failed_batch now b new s').1 ≡ some moved)
      × (get_batch_assignment b (reassign_failed_batch now b new s').0 ≡ some moved)
unfolding move_batch may_retry failed_assignment
fail_retried now w b reason new s a owned found named few =
    let s' = (mark_download_failed now w b reason s).0 in
    let e =
      reassign_retry now b new w s' (failed_assignment now reason a)
        (failed_owner now w b reason s a found owned) (failed_lookup now w b reason s a found)
        (ground arith) in
    (
      ap (λ r. r.1) e,
      ap (λ r. get_batch_assignment b r.0) e
          ∙ get_batch_assignment-move_batch now b w new (failed_assignment now reason a) s' named,
    )

-- A batch on record with a worker, whose download fails for at least the `max_retries`-th time:
-- `reassign_failed_batch` returns nothing and changes nothing.
pub fail_exhausted :
    (now w b reason new : String) (s : DataDistributor) (a : BatchAssignment)
    → worker_of b s ≡ some w
    → lookup (id_of w b) s.assignments ≡ some a
    → a.max_retries ≤ a.retry_count + 1
    → let s' = (mark_download_failed now w b reason s).0 in
      reassign_failed_batch now b new s' ≡ (s', none)
unfolding may_retry failed_assignment
fail_exhausted now w b reason new s a owned found many =
    reassign_never now b new w (mark_download_failed now w b reason s).0
      (failed_assignment now reason a) (failed_owner now w b reason s a found owned)
      (failed_lookup now w b reason s a found) (ground arith)
