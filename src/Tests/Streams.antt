-- ===== src/Tests/Streams.antt =====
-- Two workers on the batches of a cancelled and of a running job.
use mesh_ml.Prelude.{◌≡◌, refl, String, true, false, none, some, List, [], ◌∷◌}
use mesh_ml.Prelude.Dict.{lookup, insert, erase}
use mesh_ml.Streams.{
  BatchStatus, RowStatus, DataBatch, JobRow, Orchestrator, TaskResult, idle_among, update_rows,
  update_row, clear_assignment,
}
use mesh_ml.Streams.Closed.{IsOver, handle_all-IsOver}
use mesh_ml.Streams.Updates.{Event, connect, round, result, disconnect, handle_all, status_in}

abbrev batch_of : String → BatchStatus → DataBatch
batch_of job status = record {
  job_id = job;
  model_id = "7";
  status = status;
  assigned_worker_id = none;
}

abbrev row : RowStatus → JobRow
row status = record { status = status; final_version = some 2 }

abbrev two_jobs : Orchestrator
two_jobs = record {
  strict_failure = true;
  batches =
      ("b1", batch_of "j1" BatchStatus.available)
      ∷ ("b2", batch_of "j2" BatchStatus.available)
      ∷ [];
  jobs = ("j1", row RowStatus.cancelled) ∷ ("j2", row RowStatus.pending) ∷ [];
  manager = record { queues = []; status = []; assigned_batch = [] };
  batch_failures = [];
  job_epochs = [];
}

abbrev done : TaskResult
done = record { worker_id = "w1"; batch_id = "b2"; success = true; error_message = "" }

-- The engine asks for each batch; the one of the running job is completed once.
abbrev events : List Event
events = connect "w1" 1 ∷ round "b1" true ∷ round "b2" true ∷ result done ∷ disconnect "w1" ∷ []

two_jobs-IsOver : IsOver "j1" "b1" RowStatus.cancelled two_jobs
unfolding lookup
two_jobs-IsOver = record { ended = refl; unassigned = refl }

handle_all-IsOver_example :
    IsOver "j1" "b1" RowStatus.cancelled (handle_all (λ t. false) events two_jobs)
handle_all-IsOver_example =
    handle_all-IsOver (λ t. false) events "j1" "b1" RowStatus.cancelled two_jobs refl
      two_jobs-IsOver

-- After the first of two epochs the batch of the other job is available again.
second_epoch :
    (lookup "b2" (handle_all (λ t. false) events two_jobs).batches
      ≡ some (batch_of "j2" BatchStatus.available))
    × (status_in "j2" (handle_all (λ t. false) events two_jobs).jobs ≡ some RowStatus.running)
unfolding handle_all lookup insert idle_among update_rows update_row clear_assignment erase
second_epoch = (refl, refl)
