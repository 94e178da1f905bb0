-- ===== src/Distributor/Records.antt =====
-- What the distributor has on record of a batch, through each method on an assigned batch.
use mesh_ml.Prelude.{
  ℕ, suc, ◌%◌, ◌≡◌, refl, sym, subst, String, true, ◌=ˢ◌, eq_iff, Option, none, some, inl, inr,
  List, [], ◌∷◌, length, get_elem?, elem, arith, Option-cases, Bool-cases,
}
use mesh_ml.Prelude.Dict.{Dict, lookup, insert, contains, lookup-insert}
use mesh_ml.Distributor.Assignments.{
  AssignmentStatus, BatchAssignment, WorkerAssignment, DataDistributor, id_of, pending_assignment,
  may_retry,
}
use mesh_ml.Distributor.Downloads.{
  is_pending, worker_of, set_assignment, mark_download_started, note_batch, mark_download_completed,
  mark_download_failed, move_batch, reassign_failed_batch, reassign_each, attempt, collect,
}

-- Each batch on record with a worker has a stored assignment to that worker, and the worker has an
-- entry.
abbrev pub IsTracked : DataDistributor → Type 0
IsTracked s =
    (b v : String)
    → lookup b s.batch_to_worker ≡ some v
    → (contains (id_of v b) s.assignments ≡ true) × (contains v s.worker_assignments ≡ true)

module _ {V : Type 0} where
  pub contains-insert_mono :
      (k j : String) (x : V) (d : Dict V) → contains j d ≡ true → contains j (insert k x d) ≡ true
  contains-insert_mono k j x d h = ground (arith, lookup-insert k j x d)

  pub contains-insert_here : (k : String) (x : V) (d : Dict V) → contains k (insert k x d) ≡ true
  contains-insert_here k x d = ground (arith, lookup-insert k k x d, eq_iff k k)

-- Two states that differ in worker entries and assignments which only grew.
pub IsTracked-grown :
    (s s' : DataDistributor)
    → s'.batch_to_worker ≡ s.batch_to_worker
    → ((k : String) → contains k s.assignments ≡ true → contains k s'.assignments ≡ true)
    → ((k : String)
        → contains k s.worker_assignments ≡ true
        → contains k s'.worker_assignments ≡ true)
    → IsTracked s
    → IsTracked s'
IsTracked-grown s s' same grown more inv b v h =
    let (p, q) = inv b v cc in (grown (id_of v b) p, more v q)

pub set_assignment-IsTracked :
    (id : String) (a : BatchAssignment) (s : DataDistributor)
    → IsTracked s
    → IsTracked (set_assignment id a s)
set_assignment-IsTracked id a s =
    IsTracked-grown s (set_assignment id a s) refl (λ k. contains-insert_mono id k a s.assignments)
      (λ k h. h)

pub note_batch-IsTracked :
    (add : WorkerAssignment → WorkerAssignment) (listed : WorkerAssignment → List String)
    (w b : String) (s : DataDistributor)
    → IsTracked s
    → IsTracked (note_batch add listed w b s)
unfolding note_batch
note_batch-IsTracked add listed w b s inv = elim (Option-cases (lookup w s.worker_assignments)) [
  | inl absent ↦ rw (absent, note_batch) inv
  | inr (a, found) ↦ elim (Bool-cases (elem b (listed a))) [
    | inl there ↦ rw (found, note_batch, there) inv
    | inr new ↦
        rw (found, note_batch, new)
          (IsTracked-grown s
            (record s { worker_assignments = insert w (add a) s.worker_assignments }) refl
            (λ k h. h) (λ k. contains-insert_mono w k (add a) s.worker_assignments) inv)
  ]
]

pub started-IsTracked :
    (w b : String) (s : DataDistributor) → IsTracked s → IsTracked (mark_download_started w b s).0
unfolding mark_download_started
started-IsTracked w b s inv = elim (Option-cases (lookup (id_of w b) s.assignments)) [
  | inl absent ↦ rw (absent, mark_download_started) inv
  | inr (a, found) ↦ elim (Bool-cases (is_pending a.status)) [
    | inl yet ↦
        rw (found, mark_download_started, yet)
          (set_assignment-IsTracked (id_of w b) (record a { status = AssignmentStatus.downloading })
            s inv)
    | inr begun ↦ rw (found, mark_download_started, begun) inv
  ]
]

pub completed-IsTracked :
    (now w b : String) (s : DataDistributor)
    → IsTracked s
    → IsTracked (mark_download_completed now w b s).0
unfolding mark_download_completed
completed-IsTracked now w b s inv = elim (Option-cases (lookup (id_of w b) s.assignments)) [
  | inl absent ↦ rw (absent, mark_download_completed) inv
  | inr (a, found) ↦
      rw (found, mark_download_completed)
        (note_batch-IsTracked _ _ w b _ (set_assignment-IsTracked (id_of w b) _ s inv))
]

pub failed-IsTracked :
    (now w b reason : String) (s : DataDistributor)
    → IsTracked s
    → IsTracked (mark_download_failed now w b reason s).0
unfolding mark_download_failed
failed-IsTracked now w b reason s inv = elim (Option-cases (lookup (id_of w b) s.assignments)) [
  | inl absent ↦ rw (absent, mark_download_failed) inv
  | inr (a, found) ↦
      rw (found, mark_download_failed)
        (note_batch-IsTracked _ _ w b _ (set_assignment-IsTracked (id_of w b) _ s inv))
]

-- The same for the two dictionaries and a predicate on the workers.
abbrev pub Tracks : (String → Type 0) → Dict BatchAssignment → Dict String → Type 0
Tracks Q assignments workers =
    (b v : String) → lookup b workers ≡ some v → (contains (id_of v b) assignments ≡ true) × Q v

-- One more batch on record.
pub insert-Tracks :
    (Q : String → Type 0) (b new : String) (assignments : Dict BatchAssignment)
    (a : BatchAssignment) (workers : Dict String)
    → Q new
    → Tracks Q assignments workers
    → Tracks Q (insert (id_of new b) a assignments) (insert b new workers)
insert-Tracks Q b new assignments a workers q inv c v h = elim (Bool-cases (b =ˢ c)) [
  | inl mine ↦
      let v_new : new ≡ v = ground (arith, lookup-insert b c new workers) in
      let b_c : b ≡ c = (eq_iff b c).0 mine in
      (rw (sym v_new, sym b_c) (contains-insert_here (id_of new b) a assignments), subst Q v_new q)
  | inr other ↦
      let (p, r) = inv c v (ground (arith, lookup-insert b c new workers)) in
      (contains-insert_mono (id_of new b) (id_of v c) a assignments p, r)
]

pub move_batch-IsTracked :
    (now b old new : String) (a : BatchAssignment) (s : DataDistributor)
    → IsTracked s
    → IsTracked (move_batch now b old new a s).0
unfolding move_batch
move_batch-IsTracked now b old new a s inv =
    insert-Tracks (λ v. contains v (move_batch now b old new a s).0.worker_assignments ≡ true) b new
      (insert (id_of old b) (record a { status = AssignmentStatus.reassigned }) s.assignments)
      (pending_assignment now new b a.shard_id a.batch_index a.retry_count) s.batch_to_worker
      (contains-insert_here new _ s.worker_assignments)
      λ c v h.
        let (p, q) = inv c v h in
        (
          contains-insert_mono (id_of old b) (id_of v c) _ s.assignments p,
          contains-insert_mono new v _ s.worker_assignments q,
        )

pub reassign-IsTracked :
    (now b new : String) (s : DataDistributor)
    → IsTracked s
    → IsTracked (reassign_failed_batch now b new s).0
unfolding reassign_failed_batch
reassign-IsTracked now b new s inv = elim (Option-cases (worker_of b s)) [
  | inl absent ↦ rw (absent, reassign_failed_batch) inv
  | inr (old, owned) ↦ elim (Option-cases (lookup (id_of old b) s.assignments)) [
    | inl absent ↦ rw (owned, reassign_failed_batch, absent) inv
    | inr (a, found) ↦ elim (Bool-cases (may_retry a)) [
      | inl retry ↦
          rw (owned, reassign_failed_batch, found, retry)
            (move_batch-IsTracked now b old new a s inv)
      | inr never ↦ rw (owned, reassign_failed_batch, found, never) inv
    ]
  ]
]

-- What a loop of reassignments leaves, unless it raises.
abbrev pub Leaves :
    (DataDistributor → Type 0) → Option (DataDistributor × List BatchAssignment) → Type 0
Leaves P none = Unit
Leaves P (some (last, made)) = P last

pub attempt-IsTracked :
    (now new : String) (a : BatchAssignment) (s : DataDistributor)
    → IsTracked s
    → IsTracked (attempt now new a s).0
unfolding attempt
attempt-IsTracked now new a s inv = elim (Bool-cases (new =ˢ a.worker_id)) [
  | inl same ↦ rw (same, attempt) inv
  | inr other ↦ rw (other, attempt) (reassign-IsTracked now a.batch_id new s inv)
]

pub collect-Leaves :
    (P : DataDistributor → Type 0) (made : Option BatchAssignment)
    (o : Option (DataDistributor × List BatchAssignment))
    → Leaves P o
    → Leaves P (collect made o)
collect-Leaves P made none h = tt
collect-Leaves P made (some (last, rest)) h = h

pub reassign_each-IsTracked :
    (now : String) (ws : List String) (i : ℕ) (failed : List BatchAssignment) (s : DataDistributor)
    → IsTracked s
    → Leaves IsTracked (reassign_each now ws i failed s)
unfolding reassign_each
reassign_each-IsTracked now ws i [] s inv = inv
reassign_each-IsTracked now [] i (a ∷ more) s inv = tt
reassign_each-IsTracked now (w ∷ ws) i (a ∷ more) s inv =
    elim (Option-cases (get_elem? (w ∷ ws) (i % length (w ∷ ws)))) [
      | inl absent ↦ rw (absent, reassign_each) tt
      | inr (new, found) ↦
          rw (found, reassign_each)
            (collect-Leaves IsTracked (attempt now new a s).1 _ (
              reassign_each-IsTracked now (w ∷ ws) (suc i) more (attempt now new a s).0
                (attempt-IsTracked now new a s inv)))
    ]
