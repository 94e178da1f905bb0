-- ===== src/Workers/Registry.antt =====
-- `WorkerRegistry`: the workers by their id.
use mesh_ml.Prelude.{
  ℕ, ◌+◌, ◌*◌, String, Bool, true, false, Option, none, some, List, [], ◌∷◌, ltb, leb, ◌=ˢ◌,
  if◌then◌else◌, is_some, filter_by,
}
use mesh_ml.Prelude.Dict.{Dict, lookup, insert, erase, values}

pub data WorkerStatus : Type 0 where
  online idle busy degraded offline unknown : WorkerStatus

pub record WorkerCapabilities : Type 0 where
  pub gpu_count : ℕ
  pub gpu_memory_gb : ℕ
  pub gpu_type : String
  pub cpu_count : ℕ
  pub ram_gb : ℕ
  pub network_speed_mbps : ℕ
  pub storage_gb : ℕ
  pub supports_cuda : Bool
  pub supports_mps : Bool
  pub pytorch_version : String
  pub python_version : String

-- Ten times the score, so that it is a whole number when the sizes are.
unfoldable pub get_compute_score : WorkerCapabilities → ℕ
get_compute_score c = c.gpu_count * c.gpu_memory_gb * 100 + c.cpu_count * 5 + c.ram_gb * 2

pub record RegistryWorker : Type 0 where
  pub worker_id : String
  pub hostname : String
  pub ip_address : String
  pub port : ℕ
  pub capabilities : WorkerCapabilities
  pub group_id : Option String
  pub version : String
  pub tags : Dict String
  pub status : WorkerStatus
  pub assigned_job_id : Option String
  pub assigned_shard_ids : List ℕ
  pub registered_at : String
  pub last_heartbeat : String

abbrev pub Registry : Type 0
Registry = Dict RegistryWorker

-- An optional text that is there and not empty.
abbrev pub named : Option String → Option String
named none = none
named (some s) = if s =ˢ "" then none else some s

-- What a caller says of a worker.
pub record Introduction : Type 0 where
  pub worker_id : String
  pub hostname : String
  pub ip_address : String
  pub port : ℕ
  pub capabilities : WorkerCapabilities
  pub group_id : Option String
  pub version : String
  pub tags : Dict String

-- `RegistryWorker(...)`, with its defaults.
unfoldable pub new_worker : String → Introduction → RegistryWorker
new_worker now i = record {
  worker_id = i.worker_id;
  hostname = i.hostname;
  ip_address = i.ip_address;
  port = i.port;
  capabilities = i.capabilities;
  group_id = i.group_id;
  version = i.version;
  tags = i.tags;
  status = WorkerStatus.idle;
  assigned_job_id = none;
  assigned_shard_ids = [];
  registered_at = now;
  last_heartbeat = now;
}

-- `WorkerRegistry.register_worker`
unfoldable pub registry_register : String → Introduction → Registry → Registry × RegistryWorker
registry_register now i workers = (insert i.worker_id (new_worker now i) workers, new_worker now i)

unfoldable pub remove_worker : String → Registry → Registry × Bool
remove_worker worker_id workers = (erase worker_id workers, is_some (lookup worker_id workers))

abbrev pub in_group : String → RegistryWorker → Bool
in_group g w = elim w.group_id [ none ↦ false | some h ↦ h =ˢ g ]

unfoldable pub of_group : Option String → List RegistryWorker → List RegistryWorker
of_group group_id workers = elim (named group_id) [
  | none ↦ workers
  | some g ↦ filter_by (in_group g) workers
]

unfoldable pub list_workers : Option String → ℕ → Registry → List RegistryWorker
unfolding of_group
list_workers group_id min_gpu_count workers =
    let listed = of_group group_id (values workers) in
    if ltb 0 min_gpu_count
    then filter_by (λ w. leb min_gpu_count w.capabilities.gpu_count) listed
    else listed

abbrev pub listed_shard : Option ℕ → List ℕ
listed_shard none = []
listed_shard (some shard_id) = shard_id ∷ []

-- What `assign_job` writes to a worker.
abbrev pub occupied : String → Option ℕ → RegistryWorker → RegistryWorker
occupied job_id shard_id w = record w {
  assigned_job_id = some job_id;
  assigned_shard_ids = listed_shard shard_id;
  status = WorkerStatus.busy;
}

-- `WorkerRegistry.assign_job`
unfoldable pub registry_assign : String → String → Option ℕ → Registry → Registry × Bool
registry_assign worker_id job_id shard_id workers = elim (lookup worker_id workers) [
  | none ↦ (workers, false)
  | some w ↦ (insert worker_id (occupied job_id shard_id w) workers, true)
]

-- `WorkerStatus(status)`, UNKNOWN for any other text
unfoldable pub parse_status : String → WorkerStatus
parse_status s =
    if s =ˢ "online"
    then WorkerStatus.online
    else if s =ˢ "idle"
    then WorkerStatus.idle
    else if s =ˢ "busy"
    then WorkerStatus.busy
    else if s =ˢ "degraded"
    then WorkerStatus.degraded
    else if s =ˢ "offline"
    then WorkerStatus.offline
    else WorkerStatus.unknown

unfoldable pub update_heartbeat : String → String → Option String → Registry → Registry × Bool
unfolding parse_status
update_heartbeat now worker_id status workers = elim (lookup worker_id workers) [
  | none ↦ (workers, false)
  | some w ↦ (
    insert worker_id
        (record w {
          status = elim (named status) [ none ↦ w.status | some s ↦ parse_status s ];
          last_heartbeat = now;
        })
        workers,
    true,
  )
]
