-- ===== src/Streams/Closed.antt =====
-- Jobs that have ended, under whatever comes over the streams.
use mesh_ml.Prelude.{
  ◌+◌, ◌≡◌, refl, String, Bool, true, false, ◌&&◌, ◌||◌, not, Option, none, some, inl, inr, List,
  [], ◌∷◌, ltb, leb, ◌==◌, ◌=ˢ◌, eq_iff, length, filter_by, arith, Option-cases, Bool-cases,
}
use mesh_ml.Prelude.Dict.{lookup, insert, values, lookup-insert}
use mesh_ml.Streams.Tables.{
  BatchStatus, RowStatus, DataBatch, is_available, is_assigned, is_completed, is_active, update_row,
}
use mesh_ml.Streams.Manager.{unregister, get_idle_worker}
use mesh_ml.Streams.Events.{
  Orchestrator, TaskResult, put_batch, clear, started, has_active_job, dispatch_batch, engine_round,
  of_job, made_available, made_failed, running_again, finished, broken, mark_job_failed,
  target_epochs, count_at, roll_over, maybe_complete_job, failure_key, count_failure,
  handle_task_result, handle_disconnect,
}
use mesh_ml.Streams.Updates.{
  connect, round, result, disconnect, Event, handle, handle_all, status_in, works_in,
  status-update_row, works-update_rows,
}

-- Job `j` has ended with status `st`, and batch `b` is not worked on for it.
pub record IsOver (j b : String) (st : RowStatus) (s : Orchestrator) : Type 0 where
  pub ended : status_in j s.jobs ≡ some st
  pub unassigned : works_in j b s.batches ≡ false

module _ (j b : String) (st : RowStatus) (over : is_active st ≡ false) where
  put-IsOver :
      (id : String) (batch : DataBatch) (status : BatchStatus) (worker : Option String)
      (s : Orchestrator)
      → is_assigned status ≡ false
      → IsOver j b st s
      → IsOver j b st (put_batch id batch status worker s)
  put-IsOver id batch status worker s free h = record {
    ended = h.ended;
    unassigned = ground (
      arith,
      h.unassigned,
      eq_iff id b,
      lookup-insert id b (record batch { status = status; assigned_worker_id = worker }) s.batches,
    );
  }

  failed-IsOver :
      (k : String) (s : Orchestrator) → IsOver j b st s → IsOver j b st (mark_job_failed k s)
  unfolding mark_job_failed
  failed-IsOver k s h = record {
    ended = status-update_row k j broken st s.jobs (λ row e. ground (arith)) over h.ended;
    unassigned =
        works-update_rows j b (made_failed k) s.batches (λ batch e. ground (arith)) h.unassigned;
  }

  roll_over-IsOver :
      (k : String) (s : Orchestrator) → IsOver j b st s → IsOver j b st (roll_over k s)
  unfolding roll_over
  roll_over-IsOver k s h =
      elim (Bool-cases (ltb (count_at k s.job_epochs + 1) (target_epochs k s.jobs))) [
        | inl more ↦
            rw (more, roll_over)
              (record {
                ended =
                    status-update_row k j running_again st s.jobs (λ row e. ground (arith)) over
                      h.ended;
                unassigned =
                    works-update_rows j b (made_available k) s.batches (λ batch e. ground (arith))
                      h.unassigned;
              })
        | inr last ↦
            rw (last, roll_over)
              (record {
                ended =
                    status-update_row k j finished st s.jobs (λ row e. ground (arith)) over h.ended;
                unassigned = h.unassigned;
              })
      ]

  complete-IsOver :
      (k : String) (s : Orchestrator) → IsOver j b st s → IsOver j b st (maybe_complete_job k s)
  unfolding maybe_complete_job
  complete-IsOver k s h =
      let mine = filter_by (of_job k) (values s.batches) in
      elim (Bool-cases (
        length mine == 0
        || ltb (length (filter_by (λ x. is_completed x.status) mine)) (length mine))) [
          | inl unfinished ↦ rw (unfinished, maybe_complete_job) h
          | inr all_done ↦ rw (all_done, maybe_complete_job) (roll_over-IsOver k s h)
        ]

  cleared-IsOver : (w : String) (s : Orchestrator) → IsOver j b st s → IsOver j b st (clear w s)
  cleared-IsOver w s h = record { ended = h.ended; unassigned = h.unassigned }

  freed-IsOver :
      (w id : String) (batch : DataBatch) (status : BatchStatus) (s : Orchestrator)
      → is_assigned status ≡ false
      → IsOver j b st s
      → IsOver j b st (clear w (put_batch id batch status none s))
  freed-IsOver w id batch status s free h =
      cleared-IsOver w _ (put-IsOver id batch status none s free h)

  count-IsOver :
      (r : TaskResult) (batch : DataBatch) (s : Orchestrator)
      → IsOver j b st s
      → IsOver j b st (count_failure r batch s)
  unfolding count_failure
  count-IsOver r batch s h =
      let key = failure_key batch.job_id r.batch_id in
      let counted = record s {
        batch_failures = insert key (count_at key s.batch_failures + 1) s.batch_failures;
      } in
      let h' : IsOver j b st counted = record { ended = h.ended; unassigned = h.unassigned } in
      elim (Bool-cases (leb 3 (count_at key s.batch_failures + 1))) [
        | inl third ↦
            rw (third, count_failure)
              (failed-IsOver batch.job_id _
                (freed-IsOver r.worker_id r.batch_id batch BatchStatus.failed counted refl h'))
        | inr again ↦
            rw (again, count_failure)
              (freed-IsOver r.worker_id r.batch_id batch BatchStatus.available counted refl h')
      ]

  result-IsOver :
      (is_critical : String → Bool) (r : TaskResult) (s : Orchestrator)
      → IsOver j b st s
      → IsOver j b st (handle_task_result is_critical r s)
  unfolding handle_task_result
  result-IsOver is_critical r s h = elim (Option-cases (lookup r.batch_id s.batches)) [
    | inl unknown ↦ rw (unknown, handle_task_result) h
    | inr (batch, found) ↦ elim (Bool-cases r.success) [
      | inl done ↦
          rw (found, handle_task_result, done)
            (complete-IsOver batch.job_id _
              (freed-IsOver r.worker_id r.batch_id batch BatchStatus.completed s refl h))
      | inr not_done ↦
          elim (Bool-cases
            (s.strict_failure && not (r.error_message =ˢ "") && is_critical r.error_message)) [
              | inl critical ↦
                  rw (found, handle_task_result, not_done, critical)
                    (failed-IsOver batch.job_id _
                      (freed-IsOver r.worker_id r.batch_id batch BatchStatus.failed s refl h))
              | inr plain ↦
                  rw (found, handle_task_result, not_done, plain) (count-IsOver r batch s h)
            ]
    ]
  ]

  -- The engine's batch is of another job, since its job is active.
  dispatch-IsOver :
      (w id : String) (batch : DataBatch) (built : Bool) (s : Orchestrator)
      → has_active_job batch s.jobs ≡ true
      → IsOver j b st s
      → IsOver j b st (dispatch_batch w id batch built s)
  unfolding dispatch_batch
  dispatch-IsOver w id batch built s active h =
      let other : of_job j batch ≡ false = ground (arith, eq_iff batch.job_id j, h.ended, over) in
      let put = put_batch id batch BatchStatus.assigned (some w) s in
      let committed : IsOver j b st (record put { jobs = update_row batch.job_id started s.jobs }) =
        record {
          ended =
              status-update_row batch.job_id j started st s.jobs (λ row e. ground (arith)) over
                h.ended;
          unassigned = ground (
            arith,
            other,
            h.unassigned,
            eq_iff id b,
            lookup-insert id b
                (record batch { status = BatchStatus.assigned; assigned_worker_id = some w })
                s.batches,
          );
        } in
      elim (Bool-cases built) [
        | inl e ↦
            rw (e, dispatch_batch)
              (record { ended = committed.ended; unassigned = committed.unassigned })
        | inr e ↦ rw (e, dispatch_batch) committed
      ]

  round-IsOver :
      (picked : String) (built : Bool) (s : Orchestrator)
      → IsOver j b st s
      → IsOver j b st (engine_round picked built s)
  unfolding engine_round
  round-IsOver picked built s h = elim (Option-cases (get_idle_worker s.manager)) [
    | inl nobody ↦ rw (nobody, engine_round) h
    | inr (w, idle) ↦ elim (Option-cases (lookup picked s.batches)) [
      | inl unknown ↦ rw (idle, engine_round, unknown) h
      | inr (batch, found) ↦
          elim (Bool-cases (is_available batch.status && has_active_job batch s.jobs)) [
            | inl may ↦
                rw (idle, engine_round, found, may)
                  (dispatch-IsOver w picked batch built s (ground (arith)) h)
            | inr may_not ↦ rw (idle, engine_round, found, may_not) h
          ]
    ]
  ]

  disconnect-IsOver :
      (w : String) (s : Orchestrator) → IsOver j b st s → IsOver j b st (handle_disconnect w s)
  unfolding handle_disconnect
  disconnect-IsOver w s h =
      let gone = record s { manager = unregister w s.manager } in
      let h' : IsOver j b st gone = record { ended = h.ended; unassigned = h.unassigned } in
      elim (Option-cases (lookup w s.manager.assigned_batch)) [
        | inl nothing ↦ rw (nothing, handle_disconnect) h'
        | inr (id, held) ↦ elim (Bool-cases (id =ˢ "")) [
          | inl empty ↦ rw (held, handle_disconnect, empty) h'
          | inr named ↦ elim (Option-cases (lookup id s.batches)) [
            | inl unknown ↦ rw (held, handle_disconnect, named, unknown) h'
            | inr (batch, found) ↦ elim (Bool-cases (is_assigned batch.status)) [
              | inl at_work ↦
                  rw (held, handle_disconnect, named, found, at_work)
                    (put-IsOver id batch BatchStatus.available none gone refl h')
              | inr not_at_work ↦ rw (held, handle_disconnect, named, found, not_at_work) h'
            ]
          ]
        ]
      ]

  handle-IsOver :
      (is_critical : String → Bool) (e : Event) (s : Orchestrator)
      → IsOver j b st s
      → IsOver j b st (handle is_critical e s)
  unfolding handle
  handle-IsOver is_critical (connect w queue) s h = record {
    ended = h.ended;
    unassigned = h.unassigned;
  }
  handle-IsOver is_critical (round picked built) s h = round-IsOver picked built s h
  handle-IsOver is_critical (result r) s h = result-IsOver is_critical r s h
  handle-IsOver is_critical (disconnect w) s h = disconnect-IsOver w s h

-- A job that is completed, failed or cancelled keeps that status under every sequence of new streams,
-- engine rounds, task results and disconnections, and a batch of it that nobody is assigned to is never
-- assigned again.
pub handle_all-IsOver :
    (is_critical : String → Bool) (events : List Event) (j b : String) (st : RowStatus)
    (s : Orchestrator)
    → is_active st ≡ false
    → IsOver j b st s
    → IsOver j b st (handle_all is_critical events s)
unfolding handle_all
handle_all-IsOver is_critical [] j b st s over h = h
handle_all-IsOver is_critical (e ∷ es) j b st s over h =
    handle_all-IsOver is_critical es j b st (handle is_critical e s) over
      (handle-IsOver j b st over is_critical e s h)
