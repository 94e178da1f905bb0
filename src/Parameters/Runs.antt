-- ===== src/Parameters/Runs.antt =====
-- Sequences of calls of the storage service, and what is read after them.
use mesh_ml.Prelude.{
  ℕ, ◌≡◌, refl, ◌∙◌, true, String, none, some, inl, inr, List, [], ◌∷◌, ◌==◌, length, arith,
  Bool-cases,
}
use mesh_ml.Parameters.Records.{Backend, Params, ParameterStorage}
use mesh_ml.Parameters.Storage.{get_parameters}
use mesh_ml.Parameters.Log.{newest, expected, IsLogged, initialized-Opened}
use mesh_ml.Parameters.Untouched.{create_checkpoint-SameVersions, delete_checkpoint-SameVersions}
use mesh_ml.Parameters.Histories.{
  IsComplete, SameVersions-IsComplete, store_parameters-IsComplete, update-IsComplete,
  restore-IsComplete, latest-IsComplete,
}
use mesh_ml.Parameters.Replay.{
  Logs, Holds, StorageCall, store, update, restore, checkpoint, delete, latest, perform_call,
  replay_call, perform-Holds,
}

module _ {b : Backend} where
  -- A sequence of calls, each at its time.
  unfoldable pub run_calls : List (ℕ × StorageCall b) → ParameterStorage b → ParameterStorage b
  unfolding perform_call
  run_calls [] s = s
  run_calls ((now, call) ∷ calls) s = run_calls calls (perform_call now call s)

  unfoldable pub replay_calls : List (ℕ × StorageCall b) → ParameterStorage b → Logs b → Logs b
  unfolding perform_call replay_call
  replay_calls [] s logs = logs
  replay_calls ((now, call) ∷ calls) s logs =
      replay_calls calls (perform_call now call s) (replay_call now call s logs)

  perform-IsComplete :
      (now : ℕ) (call : StorageCall b) (s : ParameterStorage b)
      → s.enable_redis ≡ true
      → IsComplete s
      → IsComplete (perform_call now call s)
  unfolding perform_call
  perform-IsComplete now (store k p metadata t) s on inv =
      store_parameters-IsComplete now k p metadata t s ((initialized-Opened k s).enabled ∙ on) inv
  perform-IsComplete now (update k name value) s on inv =
      update-IsComplete now k name value s on inv
  perform-IsComplete now (restore k id note) s on inv = restore-IsComplete now k id note s on inv
  perform-IsComplete now (checkpoint k t id metrics metadata) s on inv =
      SameVersions-IsComplete s _ (create_checkpoint-SameVersions now k t id metrics metadata s) inv
  perform-IsComplete now (delete k id) s on inv =
      SameVersions-IsComplete s _ (delete_checkpoint-SameVersions k id s) inv
  perform-IsComplete now (latest k) s on inv = latest-IsComplete k s inv

  -- A service with Redis that holds given logs, and in which each model in memory has a history, is such
  -- a service after every sequence of stores, updates that make a version, restorations, other calls on
  -- checkpoints and readings of the latest parameters: it holds the logs with what the calls stored,
  -- updated or restored put in front, that is, for each model the newest entry in memory, the count of
  -- entries as its current version, and in Redis the snapshots of the entries in the window, and no
  -- others.
  pub run-Holds :
      (calls : List (ℕ × StorageCall b)) (logs : Logs b) (s : ParameterStorage b)
      → Holds logs s
      → IsComplete s
      → Holds (replay_calls calls s logs) (run_calls calls s) × IsComplete (run_calls calls s)
  unfolding run_calls replay_calls
  run-Holds [] logs s h inv = (h, inv)
  run-Holds ((now, call) ∷ calls) logs s h inv =
      run-Holds calls (replay_call now call s logs) (perform_call now call s)
        (perform-Holds now call logs s h inv) (perform-IsComplete now call s (h "").enabled inv)

  read-IsLogged :
      (m : String) (v : ℕ) (log : List (Params b)) (s : ParameterStorage b)
      → IsLogged m log s
      → (get_parameters m none s ≡ newest log)
        × (get_parameters m (some v) s ≡ expected s.param_version_history log v)
  unfolding get_parameters expected
  read-IsLogged m v [] s i = rw (i.memory, get_parameters) (refl, refl)
  read-IsLogged m v (p ∷ log) s i =
      rw (i.memory, get_parameters)
        (
          refl,
          elim (Bool-cases (v == length (p ∷ log))) [
            | inl top ↦ ground (arith, i.counted)
            | inr older ↦ ground (arith, i.counted, i.enabled, i.kept v)
          ],
        )

  -- In a service with Redis that holds given logs, `get_parameters` returns the newest entry of the
  -- model's log without a version or for the current one, and for any other version the entry with
  -- that version, counted from 1 for the oldest, if it is in the window, and nothing otherwise.
  pub get_parameters-Holds :
      (m : String) (v : ℕ) (logs : Logs b) (s : ParameterStorage b)
      → Holds logs s
      → (get_parameters m none s ≡ newest (logs m))
        × (get_parameters m (some v) s ≡ expected s.param_version_history (logs m) v)
  get_parameters-Holds m v logs s h = read-IsLogged m v (logs m) s (h m)
