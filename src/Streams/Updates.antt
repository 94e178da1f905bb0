-- ===== src/Streams/Updates.antt =====
-- What comes over the streams, and what the updates of rows leave alone.
use mesh_ml.Prelude.{
  ℕ, ◌≡◌, refl, ◌∙◌, String, Bool, false, ◌&&◌, Option, none, some, inl, inr, List, [], ◌∷◌, ◌=ˢ◌,
  eq_iff, if◌then◌else◌, arith, Option-cases,
}
use mesh_ml.Prelude.Dict.{Dict, lookup}
use mesh_ml.Streams.Tables.{
  RowStatus, DataBatch, JobRow, is_assigned, is_active, update_rows, update_row,
}
use mesh_ml.Streams.Manager.{register}
use mesh_ml.Streams.Events.{
  Orchestrator, TaskResult, engine_round, of_job, handle_task_result, handle_disconnect,
}

pub data Event : Type 0 where
  connect : String → ℕ → Event
  round : String → Bool → Event
  result : TaskResult → Event
  disconnect : String → Event

unfoldable pub handle : (String → Bool) → Event → Orchestrator → Orchestrator
unfolding register engine_round handle_task_result handle_disconnect
handle is_critical (connect worker_id queue) s = record s {
  manager = register worker_id queue s.manager;
}
handle is_critical (round picked built) s = engine_round picked built s
handle is_critical (result r) s = handle_task_result is_critical r s
handle is_critical (disconnect worker_id) s = handle_disconnect worker_id s

unfoldable pub handle_all : (String → Bool) → List Event → Orchestrator → Orchestrator
unfolding handle
handle_all is_critical [] s = s
handle_all is_critical (e ∷ es) s = handle_all is_critical es (handle is_critical e s)

abbrev pub status_in : String → Dict JobRow → Option RowStatus
status_in j jobs = elim (lookup j jobs) [ none ↦ none | some row ↦ some row.status ]

-- Batch `b` is a batch of job `j` that is assigned.
abbrev works_on : String → DataBatch → Bool
works_on j batch = of_job j batch && is_assigned batch.status

abbrev pub works_in : String → String → Dict DataBatch → Bool
works_in j b batches = elim (lookup b batches) [ none ↦ false | some batch ↦ works_on j batch ]

abbrev opt_map : {V : Type 0} → (V → V) → Option V → Option V
opt_map f none = none
opt_map f (some v) = some (f v)

module _ {V : Type 0} where
  lookup-update_row :
      (k j : String) (f : V → V) (d : Dict V)
      → lookup j (update_row k f d) ≡ (if k =ˢ j then opt_map f (lookup j d) else lookup j d)
  unfolding update_row lookup
  lookup-update_row k j f [] = ground (arith)
  lookup-update_row k j f ((i, v) ∷ d) =
      ground (arith, eq_iff i j, eq_iff i k, eq_iff k j, lookup-update_row k j f d)

  lookup-update_rows :
      (j : String) (f : V → V) (d : Dict V) → lookup j (update_rows f d) ≡ opt_map f (lookup j d)
  unfolding update_rows lookup
  lookup-update_rows j f [] = refl
  lookup-update_rows j f ((i, v) ∷ d) = ground (arith, lookup-update_rows j f d)

-- An update of jobs that leaves the status of ended ones.
pub status-update_row :
    (k j : String) (f : JobRow → JobRow) (st : RowStatus) (jobs : Dict JobRow)
    → ((row : JobRow) → is_active row.status ≡ false → (f row).status ≡ row.status)
    → is_active st ≡ false
    → status_in j jobs ≡ some st
    → status_in j (update_row k f jobs) ≡ some st
status-update_row k j f st jobs keep over e = elim (Option-cases (lookup j jobs)) [
  | inl absent ↦ absurd (ground (arith))
  | inr (row, found) ↦
      let same : row.status ≡ st = ground (arith) in
      let kept : (f row).status ≡ st = keep row (rw same over) ∙ same in
      ground (arith, lookup-update_row k j f jobs)
]

pub works-update_rows :
    (j b : String) (f : DataBatch → DataBatch) (batches : Dict DataBatch)
    → ((batch : DataBatch) → works_on j batch ≡ false → works_on j (f batch) ≡ false)
    → works_in j b batches ≡ false
    → works_in j b (update_rows f batches) ≡ false
works-update_rows j b f batches keep e = elim (Option-cases (lookup b batches)) [
  | inl absent ↦ ground (arith, lookup-update_rows b f batches)
  | inr (batch, found) ↦
      let kept : works_on j (f batch) ≡ false = keep batch (ground (arith)) in
      ground (arith, lookup-update_rows b f batches)
]
