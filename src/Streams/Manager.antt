-- ===== src/Streams/Manager.antt =====
-- `StreamManager`: the streams that are open, and what each worker works on. What `push_assignment`
-- puts on a queue is left out.
use mesh_ml.Prelude.{ℕ, String, Bool, true, false, ◌&&◌, Option, none, some, [], ◌∷◌, if◌then◌else◌}
use mesh_ml.Prelude.Dict.{Dict, insert, erase, contains}

pub data StreamStatus : Type 0 where
  idle busy : StreamStatus

abbrev pub is_idle : StreamStatus → Bool
is_idle idle = true
is_idle busy = false

-- A queue is known by a number.
pub record StreamManager : Type 0 where
  pub queues : Dict ℕ
  pub status : Dict StreamStatus
  pub assigned_batch : Dict String

unfoldable pub register : String → ℕ → StreamManager → StreamManager
register worker_id queue m = record {
  queues = insert worker_id queue m.queues;
  status = if contains worker_id m.status then m.status else insert worker_id idle m.status;
  assigned_batch = m.assigned_batch;
}

unfoldable pub unregister : String → StreamManager → StreamManager
unregister worker_id m = record {
  queues = erase worker_id m.queues;
  status = erase worker_id m.status;
  assigned_batch = erase worker_id m.assigned_batch;
}

-- `for worker_id, status in self._status.items()`
unfoldable pub idle_among : Dict StreamStatus → Dict ℕ → Option String
idle_among [] queues = none
idle_among ((worker_id, status) ∷ rest) queues =
    let later = idle_among rest queues in
    if is_idle status && contains worker_id queues then some worker_id else later

unfoldable pub get_idle_worker : StreamManager → Option String
unfolding idle_among
get_idle_worker m = idle_among m.status m.queues

unfoldable pub assign_batch : String → String → StreamManager → StreamManager
assign_batch worker_id batch_id m = record m {
  status = insert worker_id busy m.status;
  assigned_batch = insert worker_id batch_id m.assigned_batch;
}

unfoldable pub clear_assignment : String → StreamManager → StreamManager
clear_assignment worker_id m = record m {
  status = insert worker_id idle m.status;
  assigned_batch = erase worker_id m.assigned_batch;
}
