-- ===== src/Tests/Parameters.antt =====
-- A store of numbers for tensors, and the storage service on it.
use mesh_ml.Prelude.{
  sorted, ℕ, ◌≤◌, ◌≡◌, refl, String, Bool, true, false, Option, none, some, List, [], ◌∷◌,
  if◌then◌else◌, ◌==◌, length, eq_iff, count, String-discrete, arith,
}
use mesh_ml.Prelude.Dict.{Dict, lookup, insert}
use mesh_ml.Parameters.{
  KeyValue, Backend, same_snapshot, same_text, CheckpointType, manual, auto, best, Checkpoint,
  Params, ParameterStorage, listed, create_checkpoint, enforce_checkpoint_retention, get_parameters,
  store_parameters, load_checkpoint, get_latest_parameters, load_from_redis, delete_checkpoint,
  update_parameter, find_checkpoint,
}
use mesh_ml.Prelude.{ltb, ◌+◌, ◌*◌, ◌-◌}
use mesh_ml.Parameters.{Arithmetic, GradientsRequest, ParameterServer, push_gradients, pull_weights}
use mesh_ml.Parameters.Pulls.{pull_weights-Holds}
use mesh_ml.Parameters.Pushes.{next_entry, pushed_log, answered_version, push_gradients-Holds}
use mesh_ml.Parameters.Log.{newest, entry, expected}
use mesh_ml.Parameters.Replay.{Logs, Holds, StorageCall, store, update, restore, delete, latest}
use mesh_ml.Parameters.Histories.{IsComplete}
use mesh_ml.Parameters.Runs.{run_calls, replay_calls, run-Holds, get_parameters-Holds}
use mesh_ml.Parameters.Retention.{ids, protected, others, enforce_checkpoint_retention-kept}
use mesh_ml.Parameters.Keys.{no_checkpoint}
use mesh_ml.Parameters.Restore.{load-create_checkpoint}

-- Stores as functions.
abbrev table : {K : Type 0} → (same : K → K → Bool) → (V : Type 0) → KeyValue same V
table {K} same V = record {
  Store = K → Option V;
  get = λ k s. s k;
  set = λ k v s j. if same k j then some v else s j;
  delete = λ k s j. if same k j then none else s j;
  get-set = λ k j v s. refl;
  get-delete = λ k j s. refl;
}

abbrev numbers : Backend
numbers = record {
  Tensor = ℕ;
  numel = λ t. 1;
  element_size = λ t. 8;
  equal = ◌==◌;
  Bytes = Dict ℕ;
  save = λ p. p;
  load = λ p. p;
  load-save = λ p. refl;
  pack = λ c p. p;
  unpack = λ p. p;
  unpack-pack = λ c p. refl;
  sha256 = λ p. "digest";
  generated_id = λ m v now. "made";
  snapshots = table same_snapshot (Dict ℕ);
  current = table same_text ℕ;
  packages = table same_text (Dict ℕ);
}

abbrev new_service : ParameterStorage numbers
new_service = record {
  enable_redis = true;
  checkpoint_retention = 1;
  param_version_history = 2;
  parameters = [];
  current_versions = [];
  version_history = [];
  checkpoints = [];
  stored_snapshots = λ k. none;
  stored_current = λ k. none;
  stored_packages = λ k. none;
}

abbrev weights : ℕ → Params numbers
weights n = ("w", n) ∷ []

abbrev calls : List (ℕ × StorageCall numbers)
calls =
    (1, store "m" (weights 5) none none)
    ∷ (2, store "m" (weights 6) none (some best))
    ∷ (3, update "m" "w" 7)
    ∷ (4, restore "m" "made" [])
    ∷ (5, delete "m" "made")
    ∷ (6, latest "m")
    ∷ []

abbrev no_logs : Logs numbers
no_logs m = []

empty-Holds : Holds no_logs new_service
unfolding entry load_from_redis lookup
empty-Holds m = record {
  enabled = refl;
  memory = refl;
  counted = refl;
  current = refl;
  kept = λ v. ground arith;
}

empty-IsComplete : IsComplete new_service
unfolding lookup
empty-IsComplete m h = absurd (ground arith)

run-Holds_example :
    Holds (replay_calls calls new_service no_logs) (run_calls calls new_service)
    × IsComplete (run_calls calls new_service)
run-Holds_example = run-Holds calls no_logs new_service empty-Holds empty-IsComplete

get_parameters-Holds_example :
    (get_parameters "m" none (run_calls calls new_service)
      ≡ newest (replay_calls calls new_service no_logs "m"))
    × (get_parameters "m" (some 2) (run_calls calls new_service)
        ≡ expected
            (run_calls calls new_service).param_version_history
            (replay_calls calls new_service no_logs "m")
            2)
get_parameters-Holds_example =
    get_parameters-Holds "m" 2 (replay_calls calls new_service no_logs)
      (run_calls calls new_service)
      (run-Holds calls no_logs new_service empty-Holds empty-IsComplete).0

abbrev versions : List (Option (Params numbers))
versions =
    let s = run_calls calls new_service in
    get_parameters "m" (some 4) s
    ∷ get_parameters "m" (some 3) s
    ∷ get_parameters "m" (some 2) s
    ∷ []

-- Version 4 is the restored one, version 3 is in the window, version 2 is not.
last_versions : versions ≡ some (weights 6) ∷ some (weights 7) ∷ none ∷ []
unfolding run_calls get_parameters lookup get_latest_parameters delete_checkpoint load_checkpoint
    update_parameter insert enforce_checkpoint_retention sorted
last_versions = refl

abbrev made : ℕ → String → CheckpointType → Checkpoint
made now id t = record {
  checkpoint_id = id;
  model_id = "m";
  version_id = 1;
  checkpoint_type = t;
  created_at = now;
  checksum = "digest";
  num_parameters = 1;
  size_bytes = 8;
  metrics = [];
  metadata = [];
  redis_key = none;
}

abbrev three : List Checkpoint
three = made 1 "a" auto ∷ made 2 "b" best ∷ made 3 "c" manual ∷ []

abbrev crowded : ParameterStorage numbers
crowded = record new_service { checkpoints = ("m", three) ∷ [] }

three_unique : (id : String) → count String-discrete id (ids three) ≤ 1
three_unique id = ground (
  arith,
  eq_iff "a" id,
  eq_iff "b" id,
  eq_iff "c" id,
  eq_iff "a" "b",
  eq_iff "a" "c",
  eq_iff "b" "c",
)

three_at : lookup "m" crowded.checkpoints ≡ some three
unfolding lookup
three_at = refl

enforce_checkpoint_retention-kept_example :
    let cs = listed "m" (enforce_checkpoint_retention "m" crowded).checkpoints in
    (protected cs ≡ made 2 "b" best ∷ []) × (length (others cs) ≡ 1)
enforce_checkpoint_retention-kept_example =
    enforce_checkpoint_retention-kept "m" three crowded three_at three_unique

-- The older of the two others is gone.
left :
    listed "m" (enforce_checkpoint_retention "m" crowded).checkpoints
    ≡ made 2 "b" best ∷ made 3 "c" manual ∷ []
unfolding enforce_checkpoint_retention lookup sorted find_checkpoint insert
left = refl

abbrev stored : ParameterStorage numbers
stored = record new_service { parameters = ("m", weights 5) ∷ []; current_versions = ("m", 1) ∷ [] }

stored_parameters : lookup "m" stored.parameters ≡ some (weights 5)
unfolding lookup
stored_parameters = refl

stored_version : lookup "m" stored.current_versions ≡ some 1
unfolding lookup
stored_version = refl

load-create_checkpoint_example :
    (load_checkpoint 9 "m" "x" false []
      (create_checkpoint 8 "m" best (some "x") none none stored).0).1
    ≡ some (some (weights 5))
unfolding lookup find_checkpoint
load-create_checkpoint_example =
    load-create_checkpoint 8 9 "m" "x" best none none [] 1 (weights 5) stored refl stored_parameters
      stored_version no_checkpoint refl refl

-- A model that a push has put in memory has no history: the next store writes half of its version, and
-- raises.
seeded_raises : (store_parameters 9 "m" (weights 6) none none stored).1 ≡ none
unfolding store_parameters lookup insert
seeded_raises = refl

seeded_half :
    get_parameters "m" (some 2) (store_parameters 9 "m" (weights 6) none none stored).0
    ≡ some (weights 6)
unfolding store_parameters get_parameters lookup insert
seeded_half = refl

-- Whole numbers for the floats: the update adds the gradient to the momentum and subtracts it.
abbrev whole : Arithmetic numbers
whole = record {
  Number = ℕ;
  is_zero = λ n. n == 0;
  is_positive = ltb 0;
  times = ◌*◌;
  max_of = λ m n. if ltb m n then n else m;
  power = λ m n. m;
  exp_of_minus = λ m n. 1;
  dim = λ t. 1;
  zeros_like = λ t. 0;
  scale = ◌*◌;
  plus = ◌+◌;
  minus = ◌-◌;
  momenta = table same_text (Dict ℕ);
  rates = table same_text ℕ;
}

abbrev new_server : ParameterServer numbers whole
new_server = record {
  momentum = 1;
  staleness_lambda = 0;
  weight_decay = 0;
  lr_decay_gamma = 1;
  lr_decay_step = 0;
  lr_min = 0;
  storage = new_service;
  stored_momenta = λ k. none;
  stored_rates = λ k. none;
}

abbrev push : ℕ → ℕ → ℕ → GradientsRequest numbers whole
push version rate n = record {
  job_id = "m";
  version = version;
  learning_rate = rate;
  gradients = some (weights n);
}

abbrev seeded : ParameterServer numbers whole
seeded = (push_gradients true (push 0 0 50) new_server).0

abbrev seed_log : Logs numbers
seed_log = pushed_log "m" (next_entry (push 0 0 50) (weights 50) new_server []) no_logs

seeded-Holds : Holds seed_log seeded.storage
seeded-Holds =
    (push_gradients-Holds (push 0 0 50) (weights 50) no_logs new_server empty-Holds refl).0

push_gradients-Holds_example :
    let (s', reply) = push_gradients true (push 1 2 3) seeded in
    let logs' =
      pushed_log "m" (next_entry (push 1 2 3) (weights 3) seeded (seed_log "m")) seed_log in
    Holds logs' s'.storage × (answered_version reply ≡ some (length (logs' "m")))
push_gradients-Holds_example =
    push_gradients-Holds (push 1 2 3) (weights 3) seed_log seeded seeded-Holds refl

-- The parameter 50 becomes 50 - 2 * 3, as version 2.
second_push :
    let (s', reply) = push_gradients true (push 1 2 3) seeded in
    (lookup "m" s'.storage.parameters ≡ some (weights 44)) × (answered_version reply ≡ some 2)
unfolding push_gradients lookup insert
second_push = (refl, refl)

pull_weights-Holds_example :
    let (s', response) = pull_weights "m" 0 seeded.storage in
    Holds seed_log s'
    × (response.model_state_dict ≡ newest (seed_log "m"))
    × (response.version ≡ length (seed_log "m"))
    × (response.is_updated ≡ ltb 0 (length (seed_log "m")))
pull_weights-Holds_example = pull_weights-Holds "m" 0 seed_log seeded.storage seeded-Holds
