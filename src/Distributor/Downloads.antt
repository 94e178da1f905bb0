-- ===== src/Distributor/Downloads.antt =====
-- The life of a batch assignment: its download, its failure, its move to another worker.
use mesh_ml.Prelude.{
  ℕ, suc, ◌+◌, ◌%◌, pos, String, Bool, true, false, ◌&&◌, Option, none, some, List, [], ◌∷◌, ◌++◌,
  ◌=ˢ◌, if◌then◌else◌, elem, length, get_elem?,
}
use mesh_ml.Prelude.Dict.{lookup, insert, values}
use mesh_ml.Distributor.Assignments.{
  AssignmentStatus, BatchAssignment, WorkerAssignment, DataDistributor, may_retry, id_of, fresh,
  pending_assignment,
}

abbrev pub is_pending : AssignmentStatus → Bool
is_pending AssignmentStatus.pending = true
is_pending _ = false

abbrev pub has_failed : AssignmentStatus → Bool
has_failed AssignmentStatus.failed = true
has_failed _ = false

-- `self.batch_to_worker.get(batch_id)`, where an empty name counts as missing
unfoldable pub worker_of : String → DataDistributor → Option String
worker_of batch_id s = elim (lookup batch_id s.batch_to_worker) [
  | none ↦ none
  | some w ↦ if w =ˢ "" then none else some w
]

unfoldable pub get_batch_assignment : String → DataDistributor → Option BatchAssignment
unfolding worker_of
get_batch_assignment batch_id s = elim (worker_of batch_id s) [
  | none ↦ none
  | some w ↦ lookup (id_of w batch_id) s.assignments
]

-- The assignment with an id, as the methods change it in place.
abbrev pub set_assignment : String → BatchAssignment → DataDistributor → DataDistributor
set_assignment id a s = record s { assignments = insert id a s.assignments }

unfoldable pub mark_download_started : String → String → DataDistributor → DataDistributor × Bool
mark_download_started worker_id batch_id s =
    let id = id_of worker_id batch_id in
    elim (lookup id s.assignments) [
      | none ↦ (s, false)
      | some a ↦
          if is_pending a.status
          then (set_assignment id (record a { status = AssignmentStatus.downloading }) s, true)
          else (s, false)
    ]

-- `if worker_assignment and batch_id not in ...: ...append(batch_id)`
unfoldable pub note_batch :
    (WorkerAssignment → WorkerAssignment)
    → (WorkerAssignment → List String)
    → String
    → String
    → DataDistributor
    → DataDistributor
note_batch add listed worker_id batch_id s = elim (lookup worker_id s.worker_assignments) [
  | none ↦ s
  | some a ↦
      if elem batch_id (listed a)
      then s
      else record s { worker_assignments = insert worker_id (add a) s.worker_assignments }
]

unfoldable pub mark_download_completed :
    String → String → String → DataDistributor → DataDistributor × Bool
unfolding note_batch
mark_download_completed now worker_id batch_id s =
    let id = id_of worker_id batch_id in
    elim (lookup id s.assignments) [
      | none ↦ (s, false)
      | some a ↦ (
        note_batch (λ w. record w { completed_batches = w.completed_batches ++ batch_id ∷ [] })
            (λ w. w.completed_batches) worker_id batch_id
            (set_assignment id
              (record a { status = AssignmentStatus.completed; downloaded_at = some now }) s),
        true,
      )
    ]

-- A failed download counts as one more try.
unfoldable pub failed_assignment : String → String → BatchAssignment → BatchAssignment
failed_assignment now reason a = record a {
  status = AssignmentStatus.failed;
  failed_at = some now;
  failure_reason = some reason;
  retry_count = a.retry_count + 1;
}

unfoldable pub mark_download_failed :
    String → String → String → String → DataDistributor → DataDistributor × Bool
unfolding note_batch
mark_download_failed now worker_id batch_id reason s =
    let id = id_of worker_id batch_id in
    elim (lookup id s.assignments) [
      | none ↦ (s, false)
      | some a ↦ (
        note_batch (λ w. record w { failed_batches = w.failed_batches ++ batch_id ∷ [] })
            (λ w. w.failed_batches) worker_id batch_id
            (set_assignment id (failed_assignment now reason a) s),
        true,
      )
    ]

-- The worker's entry, or a new one.
unfoldable pub entry_of : String → String → ℕ → DataDistributor → WorkerAssignment
entry_of now worker_id shard_id s = elim (lookup worker_id s.worker_assignments) [
  | none ↦ fresh now worker_id (pos shard_id)
  | some a ↦ a
]

-- The writes of `reassign_failed_batch`, after its guards; `a` is the old assignment.
unfoldable pub move_batch :
    String
    → String
    → String
    → String
    → BatchAssignment
    → DataDistributor
    → DataDistributor × BatchAssignment
unfolding entry_of
move_batch now batch_id old_worker new_worker a s =
    let marked =
      insert (id_of old_worker batch_id) (record a { status = AssignmentStatus.reassigned })
        s.assignments in
    let new = pending_assignment now new_worker batch_id a.shard_id a.batch_index a.retry_count in
    let w = entry_of now new_worker a.shard_id s in
    (
      record s {
        assignments = insert (id_of new_worker batch_id) new marked;
        batch_to_worker = insert batch_id new_worker s.batch_to_worker;
        worker_assignments =
            insert new_worker (record w { assigned_batches = w.assigned_batches ++ batch_id ∷ [] })
              s.worker_assignments;
      },
      new,
    )

unfoldable pub reassign_failed_batch :
    String → String → String → DataDistributor → DataDistributor × Option BatchAssignment
unfolding worker_of
reassign_failed_batch now batch_id new_worker_id s = elim (worker_of batch_id s) [
  | none ↦ (s, none)
  | some old ↦ elim (lookup (id_of old batch_id) s.assignments) [
    | none ↦ (s, none)
    | some a ↦
        if may_retry a
        then (let (s', new) = move_batch now batch_id old new_worker_id a s in (s', some new))
        else (s, none)
  ]
]

-- Whether `get_failed_batches` lists an assignment.
abbrev pub is_retriable : BatchAssignment → Bool
is_retriable a = has_failed a.status && may_retry a

unfoldable pub failed_among : List BatchAssignment → List BatchAssignment
failed_among [] = []
failed_among (a ∷ more) = let rest = failed_among more in if is_retriable a then a ∷ rest else rest

unfoldable pub get_failed_batches : DataDistributor → List BatchAssignment
unfolding failed_among
get_failed_batches s = failed_among (values s.assignments)

abbrev pub maybe_cons : Option BatchAssignment → List BatchAssignment → List BatchAssignment
maybe_cons none made = made
maybe_cons (some a) made = a ∷ made

-- One round of the loop: a batch stays where it is when its turn comes to the same worker.
unfoldable pub attempt :
    String → String → BatchAssignment → DataDistributor → DataDistributor × Option BatchAssignment
unfolding reassign_failed_batch
attempt now new a s =
    if new =ˢ a.worker_id then (s, none) else reassign_failed_batch now a.batch_id new s

-- `new_assignments.append(new_assignment)`, before what the later rounds append
abbrev pub collect :
    Option BatchAssignment
    → Option (DataDistributor × List BatchAssignment)
    → Option (DataDistributor × List BatchAssignment)
collect made none = none
collect made (some (last, rest)) = some (last, maybe_cons made rest)

-- The loop of `auto_reassign_failed_batches`; `none` is the division by zero of an empty list of
-- workers.
unfoldable pub reassign_each :
    String
    → List String
    → ℕ
    → List BatchAssignment
    → DataDistributor
    → Option (DataDistributor × List BatchAssignment)
unfolding attempt
reassign_each now ws i [] s = some (s, [])
reassign_each now [] i (a ∷ more) s = none
reassign_each now (w ∷ ws) i (a ∷ more) s = elim (get_elem? (w ∷ ws) (i % length (w ∷ ws))) [
  | none ↦ none
  | some new ↦
      let (s', made) = attempt now new a s in
      collect made (reassign_each now (w ∷ ws) (suc i) more s')
]

unfoldable pub auto_reassign_failed_batches :
    String → List String → DataDistributor → Option (DataDistributor × List BatchAssignment)
unfolding reassign_each get_failed_batches
auto_reassign_failed_batches now available_workers s =
    reassign_each now available_workers 0 (get_failed_batches s) s
