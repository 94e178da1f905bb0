-- ===== src/Distributor/Names.antt =====
-- Each stored assignment names the worker and the batch that make the id under which it is stored.
use mesh_ml.Prelude.{
  ℕ, suc, ◌%◌, ◌≡◌, refl, sym, ap, ◌∙◌, subst, String, some, inl, inr, List, [], ◌∷◌, ◌=ˢ◌, eq_iff,
  length, get_elem?, arith, Option-cases, Bool-cases,
}
use mesh_ml.Prelude.Dict.{Dict, lookup, insert, lookup-insert}
use mesh_ml.Distributor.Assignments.{
  AssignmentStatus, BatchAssignment, WorkerAssignment, BatchMetadata, DataDistributor, id_of,
  pending_assignment, may_retry,
}
use mesh_ml.Distributor.Strategies.{find, register_batches, register_all}
use mesh_ml.Distributor.Downloads.{
  is_pending, worker_of, mark_download_started, note_batch, mark_download_completed,
  mark_download_failed, failed_assignment, move_batch, reassign_failed_batch, reassign_each,
  attempt,
}
use mesh_ml.Distributor.Records.{Leaves, collect-Leaves}

abbrev pub IsNamed : Dict BatchAssignment → Type 0
IsNamed d =
    (k : String) (a : BatchAssignment) → lookup k d ≡ some a → id_of a.worker_id a.batch_id ≡ k

insert-IsNamed :
    (k : String) (a : BatchAssignment) (d : Dict BatchAssignment)
    → id_of a.worker_id a.batch_id ≡ k
    → IsNamed d
    → IsNamed (insert k a d)
insert-IsNamed k a d named inv j c found = elim (Bool-cases (k =ˢ j)) [
  | inl mine ↦
      let is_new : a ≡ c = ground (arith, lookup-insert k j a d) in
      ap (λ x. id_of x.worker_id x.batch_id) (sym is_new) ∙ named ∙ (eq_iff k j).0 mine
  | inr other ↦ inv j c (ground (arith, lookup-insert k j a d))
]

note_batch-assignments :
    (add : WorkerAssignment → WorkerAssignment) (listed : WorkerAssignment → List String)
    (w b : String) (s : DataDistributor)
    → (note_batch add listed w b s).assignments ≡ s.assignments
unfolding note_batch
note_batch-assignments add listed w b s = ground arith

note_batch-IsNamed :
    (add : WorkerAssignment → WorkerAssignment) (listed : WorkerAssignment → List String)
    (w b : String) (s : DataDistributor)
    → IsNamed s.assignments
    → IsNamed (note_batch add listed w b s).assignments
note_batch-IsNamed add listed w b s inv = rw (note_batch-assignments add listed w b s) inv

pub started-IsNamed :
    (w b : String) (s : DataDistributor)
    → IsNamed s.assignments
    → IsNamed (mark_download_started w b s).0.assignments
unfolding mark_download_started
started-IsNamed w b s inv = elim (Option-cases (lookup (id_of w b) s.assignments)) [
  | inl absent ↦ rw (absent, mark_download_started) inv
  | inr (a, found) ↦ elim (Bool-cases (is_pending a.status)) [
    | inl yet ↦
        rw (found, mark_download_started, yet)
          (insert-IsNamed (id_of w b) _ s.assignments (inv (id_of w b) a found) inv)
    | inr begun ↦ rw (found, mark_download_started, begun) inv
  ]
]

pub completed-IsNamed :
    (now w b : String) (s : DataDistributor)
    → IsNamed s.assignments
    → IsNamed (mark_download_completed now w b s).0.assignments
unfolding mark_download_completed
completed-IsNamed now w b s inv = elim (Option-cases (lookup (id_of w b) s.assignments)) [
  | inl absent ↦ rw (absent, mark_download_completed) inv
  | inr (a, found) ↦
      rw (found, mark_download_completed)
        (note_batch-IsNamed _ _ w b _
          (insert-IsNamed (id_of w b) _ s.assignments (inv (id_of w b) a found) inv))
]

pub failed-IsNamed :
    (now w b reason : String) (s : DataDistributor)
    → IsNamed s.assignments
    → IsNamed (mark_download_failed now w b reason s).0.assignments
unfolding mark_download_failed failed_assignment
failed-IsNamed now w b reason s inv = elim (Option-cases (lookup (id_of w b) s.assignments)) [
  | inl absent ↦ rw (absent, mark_download_failed) inv
  | inr (a, found) ↦
      rw (found, mark_download_failed)
        (note_batch-IsNamed _ _ w b _
          (insert-IsNamed (id_of w b) _ s.assignments (inv (id_of w b) a found) inv))
]

pub reassign-IsNamed :
    (now b new : String) (s : DataDistributor)
    → IsNamed s.assignments
    → IsNamed (reassign_failed_batch now b new s).0.assignments
unfolding reassign_failed_batch move_batch
reassign-IsNamed now b new s inv = elim (Option-cases (worker_of b s)) [
  | inl absent ↦ rw (absent, reassign_failed_batch) inv
  | inr (old, owned) ↦ elim (Option-cases (lookup (id_of old b) s.assignments)) [
    | inl absent ↦ rw (owned, reassign_failed_batch, absent) inv
    | inr (a, found) ↦ elim (Bool-cases (may_retry a)) [
      | inl retry ↦
          rw (owned, reassign_failed_batch, found, retry)
            (insert-IsNamed (id_of new b) _ _ refl (
              insert-IsNamed (id_of old b) (record a { status = AssignmentStatus.reassigned })
                s.assignments (inv (id_of old b) a found) inv))
      | inr never ↦ rw (owned, reassign_failed_batch, found, never) inv
    ]
  ]
]

attempt-IsNamed :
    (now new : String) (a : BatchAssignment) (s : DataDistributor)
    → IsNamed s.assignments
    → IsNamed (attempt now new a s).0.assignments
unfolding attempt
attempt-IsNamed now new a s inv = elim (Bool-cases (new =ˢ a.worker_id)) [
  | inl same ↦ rw (same, attempt) inv
  | inr other ↦ rw (other, attempt) (reassign-IsNamed now a.batch_id new s inv)
]

pub reassign_each-IsNamed :
    (now : String) (ws : List String) (i : ℕ) (failed : List BatchAssignment) (s : DataDistributor)
    → IsNamed s.assignments
    → Leaves (λ t. IsNamed t.assignments) (reassign_each now ws i failed s)
unfolding reassign_each
reassign_each-IsNamed now ws i [] s inv = inv
reassign_each-IsNamed now [] i (a ∷ more) s inv = tt
reassign_each-IsNamed now (w ∷ ws) i (a ∷ more) s inv =
    elim (Option-cases (get_elem? (w ∷ ws) (i % length (w ∷ ws)))) [
      | inl absent ↦ rw (absent, reassign_each) tt
      | inr (new, found) ↦
          rw (found, reassign_each)
            (collect-Leaves (λ t. IsNamed t.assignments) (attempt now new a s).1 _
              (reassign_each-IsNamed now (w ∷ ws) (suc i) more (attempt now new a s).0
                (attempt-IsNamed now new a s inv)))
    ]

register_batches-IsNamed :
    (now : String) (batches : List BatchMetadata) (w : String) (ids : List String)
    (s s' : DataDistributor)
    → register_batches now batches w ids s ≡ some s'
    → IsNamed s.assignments
    → IsNamed s'.assignments
unfolding register_batches
register_batches-IsNamed now batches w [] s s' e inv =
    subst (λ t. IsNamed t.assignments) (let p : s ≡ s' = cc in p) inv
register_batches-IsNamed now batches w (id ∷ ids) s s' e inv =
    elim (Option-cases (find id batches)) [
      | inl absent ↦ absurd (ground arith)
      | inr (meta, found) ↦
          let made = pending_assignment now w id meta.shard_id meta.batch_index 0 in
          register_batches-IsNamed now batches w ids
            (record s {
              assignments = insert (id_of w id) made s.assignments;
              batch_to_worker = insert id w s.batch_to_worker;
            })
            s' (ground arith) (insert-IsNamed (id_of w id) made s.assignments refl inv)
    ]

pub register_all-IsNamed :
    (now : String) (batches : List BatchMetadata) (d : Dict WorkerAssignment)
    (s s' : DataDistributor)
    → register_all now batches d s ≡ some s'
    → IsNamed s.assignments
    → IsNamed s'.assignments
unfolding register_all
register_all-IsNamed now batches [] s s' e inv =
    subst (λ t. IsNamed t.assignments) (let p : s ≡ s' = cc in p) inv
register_all-IsNamed now batches ((w, a) ∷ d) s s' e inv =
    elim (Option-cases (register_batches now batches w a.assigned_batches s)) [
      | inl broke ↦ absurd (ground arith)
      | inr (mid, went) ↦
          register_all-IsNamed now batches d
            (record mid { worker_assignments = insert w a mid.worker_assignments }) s'
            (ground arith)
            (register_batches-IsNamed now batches w a.assigned_batches s mid went inv)
    ]
