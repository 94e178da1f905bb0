-- ===== src/Streams/Tables.antt =====
-- The rows of the tables `data_batches` and `jobs`, by their ids, and the updates of all rows.
use mesh_ml.Prelude.{ℕ, String, Bool, true, false, Option, [], ◌∷◌, ◌=ˢ◌, if◌then◌else◌}
use mesh_ml.Prelude.Dict.{Dict}

-- The texts of `data_batches.status` and of `jobs.status`.
pub data BatchStatus : Type 0 where
  available assigned completed failed : BatchStatus

pub data RowStatus : Type 0 where
  pending running completed failed cancelled : RowStatus

pub record DataBatch : Type 0 where
  pub job_id : String
  pub model_id : String
  pub status : BatchStatus
  pub assigned_worker_id : Option String

-- `final_version` is that of the job's config. Progress, artifact, times and message are left out.
pub record JobRow : Type 0 where
  pub status : RowStatus
  pub final_version : Option ℕ

abbrev pub is_available : BatchStatus → Bool
is_available BatchStatus.available = true
is_available _ = false

abbrev pub is_assigned : BatchStatus → Bool
is_assigned BatchStatus.assigned = true
is_assigned _ = false

abbrev pub is_completed : BatchStatus → Bool
is_completed BatchStatus.completed = true
is_completed _ = false

-- `j.status IN ('pending', 'running')`
abbrev pub is_active : RowStatus → Bool
is_active RowStatus.pending = true
is_active RowStatus.running = true
is_active _ = false

-- An `UPDATE` of every row, which leaves the rows that do not match as they are.
unfoldable pub update_rows : {V : Type 0} → (V → V) → Dict V → Dict V
update_rows f [] = []
update_rows f ((k, v) ∷ d) = (k, f v) ∷ update_rows f d

-- An `UPDATE` of the row with an id.
unfoldable pub update_row : {V : Type 0} → String → (V → V) → Dict V → Dict V
update_row k f [] = []
update_row k f ((j, v) ∷ d) =
    let rest = update_row k f d in if j =ˢ k then (j, f v) ∷ rest else (j, v) ∷ rest
