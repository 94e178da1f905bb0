-- ===== src/Streams/Events.antt =====
-- What changes the tables: a round of the assignment engine, the result of a task, and a stream that
-- closes.
use Prim.Native.String.{◌++◌ as append}
use mesh_ml.Prelude.{
  ℕ, ◌+◌, max, String, Bool, false, ◌&&◌, ◌||◌, not, Option, none, some, ltb, leb, ◌==◌, ◌=ˢ◌,
  if◌then◌else◌, length, filter_by,
}
use mesh_ml.Prelude.Dict.{Dict, lookup, insert, values}
use mesh_ml.Streams.Tables.{
  BatchStatus, RowStatus, DataBatch, JobRow, is_available, is_assigned, is_completed, is_active,
  update_rows, update_row,
}
use mesh_ml.Streams.Manager.{
  StreamManager, unregister, get_idle_worker, assign_batch, clear_assignment,
}

-- The server without Redis: the failures and the epochs are counted in memory.
pub record Orchestrator : Type 0 where
  pub strict_failure : Bool
  pub batches : Dict DataBatch
  pub jobs : Dict JobRow
  pub manager : StreamManager
  pub batch_failures : Dict ℕ
  pub job_epochs : Dict ℕ

pub record TaskResult : Type 0 where
  pub worker_id : String
  pub batch_id : String
  pub success : Bool
  pub error_message : String

abbrev pub put_batch :
    String → DataBatch → BatchStatus → Option String → Orchestrator → Orchestrator
put_batch batch_id batch status worker s = record s {
  batches =
      insert batch_id (record batch { status = status; assigned_worker_id = worker }) s.batches;
}

abbrev pub clear : String → Orchestrator → Orchestrator
clear worker_id s = record s { manager = clear_assignment worker_id s.manager }

-- `UPDATE jobs SET status = 'running' WHERE ... AND status = 'pending'`
abbrev pub started : JobRow → JobRow
started row = elim row.status [
  | RowStatus.pending ↦ record row { status = RowStatus.running }
  | RowStatus.running ↦ row
  | RowStatus.completed ↦ row
  | RowStatus.failed ↦ row
  | RowStatus.cancelled ↦ row
]

-- `EXISTS (SELECT 1 FROM jobs j WHERE ... AND j.status IN ('pending', 'running'))`
abbrev pub has_active_job : DataBatch → Dict JobRow → Bool
has_active_job batch jobs = elim (lookup batch.job_id jobs) [
  | none ↦ false
  | some row ↦ is_active row.status
]

-- The engine's `_assign_batch`, and the stream manager's after the payload was built; `built` is
-- false when that raises.
unfoldable pub dispatch_batch : String → String → DataBatch → Bool → Orchestrator → Orchestrator
unfolding assign_batch
dispatch_batch worker_id batch_id batch built s =
    let written = put_batch batch_id batch BatchStatus.assigned (some worker_id) s in
    let committed = record written { jobs = update_row batch.job_id started s.jobs } in
    if built
    then record committed { manager = assign_batch worker_id batch_id s.manager }
    else committed

-- One round of `run`; `picked` is the row that the database returns, if it may return it.
unfoldable pub engine_round : String → Bool → Orchestrator → Orchestrator
unfolding dispatch_batch get_idle_worker
engine_round picked built s = elim (get_idle_worker s.manager) [
  | none ↦ s
  | some worker_id ↦ elim (lookup picked s.batches) [
    | none ↦ s
    | some batch ↦
        if is_available batch.status && has_active_job batch s.jobs
        then dispatch_batch worker_id picked batch built s
        else s
  ]
]

abbrev pub of_job : String → DataBatch → Bool
of_job job_id batch = batch.job_id =ˢ job_id

-- `UPDATE data_batches SET status = 'AVAILABLE', assigned_worker_id = NULL WHERE job_id = :job_id`
abbrev pub made_available : String → DataBatch → DataBatch
made_available job_id batch =
    if of_job job_id batch
    then record batch { status = BatchStatus.available; assigned_worker_id = none }
    else batch

-- `... SET status = 'FAILED' ... AND status IN ('AVAILABLE', 'ASSIGNED')`
abbrev pub made_failed : String → DataBatch → DataBatch
made_failed job_id batch =
    if of_job job_id batch && (is_available batch.status || is_assigned batch.status)
    then record batch { status = BatchStatus.failed; assigned_worker_id = none }
    else batch

-- `status NOT IN ('cancelled', 'completed', 'failed')` for the next epoch, `('cancelled', 'failed')` at
-- the end, `('cancelled', 'completed')` for a failure
abbrev pub running_again : JobRow → JobRow
running_again row = if is_active row.status then record row { status = RowStatus.running } else row

abbrev pub finished : JobRow → JobRow
finished row = elim row.status [
  | RowStatus.cancelled ↦ row
  | RowStatus.failed ↦ row
  | RowStatus.pending ↦ record row { status = RowStatus.completed }
  | RowStatus.running ↦ record row { status = RowStatus.completed }
  | RowStatus.completed ↦ record row { status = RowStatus.completed }
]

abbrev pub broken : JobRow → JobRow
broken row = elim row.status [
  | RowStatus.cancelled ↦ row
  | RowStatus.completed ↦ row
  | RowStatus.pending ↦ record row { status = RowStatus.failed }
  | RowStatus.running ↦ record row { status = RowStatus.failed }
  | RowStatus.failed ↦ record row { status = RowStatus.failed }
]

unfoldable pub mark_job_failed : String → Orchestrator → Orchestrator
unfolding update_rows update_row
mark_job_failed job_id s = record s {
  jobs = update_row job_id broken s.jobs;
  batches = update_rows (made_failed job_id) s.batches;
}

-- `max(1, int(fv)) if fv is not None else 1`
abbrev pub target_epochs : String → Dict JobRow → ℕ
target_epochs job_id jobs = elim (lookup job_id jobs) [
  | none ↦ 1
  | some row ↦ elim row.final_version [ none ↦ 1 | some fv ↦ max 1 fv ]
]

-- `self._job_epochs.get(job_id, 0)`
abbrev pub count_at : String → Dict ℕ → ℕ
count_at key counts = elim (lookup key counts) [ none ↦ 0 | some n ↦ n ]

-- All batches of the job are completed: the next epoch, or the end of the job.
unfoldable pub roll_over : String → Orchestrator → Orchestrator
unfolding update_rows update_row
roll_over job_id s =
    let epochs_done = count_at job_id s.job_epochs + 1 in
    let advanced = record s { job_epochs = insert job_id epochs_done s.job_epochs } in
    if ltb epochs_done (target_epochs job_id s.jobs)
    then record advanced {
      batches = update_rows (made_available job_id) s.batches;
      jobs = update_row job_id running_again s.jobs;
    }
    else record advanced { jobs = update_row job_id finished s.jobs }

unfoldable pub maybe_complete_job : String → Orchestrator → Orchestrator
unfolding roll_over
maybe_complete_job job_id s =
    let mine = filter_by (of_job job_id) (values s.batches) in
    let completed_batches = length (filter_by (λ b. is_completed b.status) mine) in
    if length mine == 0 || ltb completed_batches (length mine) then s else roll_over job_id s

abbrev pub failure_key : String → String → String
failure_key job_id batch_id = append "batch_failures:" (append job_id (append ":" batch_id))

-- A failure that is not critical: the third one fails the batch and the job.
unfoldable pub count_failure : TaskResult → DataBatch → Orchestrator → Orchestrator
unfolding mark_job_failed
count_failure result batch s =
    let key = failure_key batch.job_id result.batch_id in
    let failure_count = count_at key s.batch_failures + 1 in
    let counted = record s { batch_failures = insert key failure_count s.batch_failures } in
    if leb 3 failure_count
    then mark_job_failed batch.job_id
        (clear result.worker_id (put_batch result.batch_id batch BatchStatus.failed none counted))
    else clear result.worker_id (put_batch result.batch_id batch BatchStatus.available none counted)

-- `is_critical` is `"CRITICAL" in error_message.upper()`.
unfoldable pub handle_task_result : (String → Bool) → TaskResult → Orchestrator → Orchestrator
unfolding maybe_complete_job count_failure
handle_task_result is_critical result s = elim (lookup result.batch_id s.batches) [
  | none ↦ s
  | some batch ↦
      if result.success
      then maybe_complete_job batch.job_id
          (clear result.worker_id (put_batch result.batch_id batch BatchStatus.completed none s))
      else if s.strict_failure
          && not (result.error_message =ˢ "")
          && is_critical result.error_message
      then mark_job_failed batch.job_id
          (clear result.worker_id (put_batch result.batch_id batch BatchStatus.failed none s))
      else count_failure result batch s
]

-- The batch of a worker whose stream closes, if it has one, is available again.
unfoldable pub handle_disconnect : String → Orchestrator → Orchestrator
unfolding unregister
handle_disconnect worker_id s =
    let gone = record s { manager = unregister worker_id s.manager } in
    elim (lookup worker_id s.manager.assigned_batch) [
      | none ↦ gone
      | some batch_id ↦ if batch_id =ˢ "" then gone else elim (lookup batch_id s.batches) [
        | none ↦ gone
        | some batch ↦
            if is_assigned batch.status
            then put_batch batch_id batch BatchStatus.available none gone
            else gone
      ]
    ]
