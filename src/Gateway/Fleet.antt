-- ===== src/Gateway/Fleet.antt =====
-- routers/workers.py: the registration of workers, which needs no account. The token is
-- `create_access_token` on the worker's id.
use mesh_ml.Prelude.{
  ℕ, String, ◌&&◌, Option, none, some, List, [], ◌∷◌, ◌++◌, ◌=ˢ◌, if◌then◌else◌, filter_by,
}
use mesh_ml.Gateway.Tables.{
  GroupMember, Worker, Database, Response, ok, not_found, ◌>>=◌, or_raise, select_one, add_row,
  update_rows, delete_rows, is_text, is_worker_row,
}

pub record WorkerRegisterRequest : Type 0 where
  pub worker_id : String
  pub user_email : Option String
  pub capabilities : String
  pub status : String

-- The row that the request writes, new or over an old one.
abbrev pub registration : ℕ → WorkerRegisterRequest → Worker
registration now request = record {
  worker_id = request.worker_id;
  user_email = request.user_email;
  capabilities = some request.capabilities;
  status = request.status;
  last_heartbeat = some now;
}

abbrev pub reregister : ℕ → WorkerRegisterRequest → Worker → Worker
reregister now request row = record row {
  user_email = request.user_email;
  capabilities = some request.capabilities;
  status = request.status;
  last_heartbeat = some now;
}

unfoldable pub register_worker : ℕ → WorkerRegisterRequest → Database → Response Database
register_worker now request db = do
  existing_worker ← select_one (is_worker_row request.worker_id) db.workers
  elim existing_worker [
    | some row ↦ ok (record db {
      workers = update_rows (is_worker_row request.worker_id) (reregister now request) db.workers;
    })
    | none ↦ do
      workers ← add_row (is_worker_row request.worker_id) (registration now request) db.workers
      ok (record db { workers = workers })
  ]

-- The join with `group_members` gives a worker once for each of its memberships in the group.
abbrev pub joined : String → List GroupMember → Worker → List Worker
joined group_id [] w = []
joined group_id (m ∷ rest) w =
    let more = joined group_id rest w in
    if is_text m.worker_id w.worker_id && m.group_id =ˢ group_id then w ∷ more else more

abbrev pub join_members : String → List GroupMember → List Worker → List Worker
join_members group_id members [] = []
join_members group_id members (w ∷ rest) =
    joined group_id members w ++ join_members group_id members rest

-- `if group_id`, `if status`: an empty text selects nothing.
unfoldable pub list_workers : (status group_id : Option String) → Database → List Worker
list_workers status group_id db =
    let all : List Worker = elim group_id [
      | none ↦ db.workers
      | some g ↦ if g =ˢ "" then db.workers else join_members g db.members db.workers
    ] in
    elim status [
      | none ↦ all
      | some s ↦ if s =ˢ "" then all else filter_by (λ w. w.status =ˢ s) all
    ]

unfoldable pub get_worker : String → Database → Response Worker
get_worker worker_id db = do
  row ← select_one (is_worker_row worker_id) db.workers
  or_raise row not_found

abbrev pub equip : ℕ → String → Worker → Worker
equip now capabilities row = record row {
  capabilities = some capabilities;
  last_heartbeat = some now;
}

unfoldable pub update_worker_capabilities :
    ℕ → (worker_id capabilities : String) → Database → Response Database
update_worker_capabilities now worker_id capabilities db = do
  row ← select_one (is_worker_row worker_id) db.workers
  known ← or_raise row not_found
  ok (record db {
    workers = update_rows (is_worker_row worker_id) (equip now capabilities) db.workers;
  })

unfoldable pub worker_heartbeat : ℕ → String → Database → Response Database
worker_heartbeat now worker_id db = do
  row ← select_one (is_worker_row worker_id) db.workers
  known ← or_raise row not_found
  ok (record db {
    workers =
        update_rows (is_worker_row worker_id) (λ w. record w { last_heartbeat = some now })
          db.workers;
  })

unfoldable pub deregister_worker : String → Database → Response Database
deregister_worker worker_id db = do
  row ← select_one (is_worker_row worker_id) db.workers
  known ← or_raise row not_found
  ok (record db { workers = delete_rows (is_worker_row worker_id) db.workers })
