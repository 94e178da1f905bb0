-- ===== src/Parameters/Pulls.antt =====
-- What workers pull from the parameter server, on the log of the storage service.
use mesh_ml.Prelude.{
  ℕ, suc, ◌+◌, ◌-◌, ◌≡◌, refl, ◌∙◌, String, Option, none, some, inl, inr, List, [], ◌∷◌, ltb,
  if◌then◌else◌, length, arith, Bool-cases, ◌⊎◌,
}
use mesh_ml.Parameters.Records.{Backend, Params, ParameterStorage}
use mesh_ml.Parameters.Storage.{get_latest_parameters, load_from_redis}
use mesh_ml.Parameters.Server.{pull_weights}
use mesh_ml.Parameters.Log.{newest, entry, IsLogged}
use mesh_ml.Parameters.Replay.{Logs, Holds, latest-Holds}

-- The newest entry with its version.
abbrev pub with_version : {A : Type 0} → List A → Option (A × ℕ)
with_version [] = none
with_version (p ∷ log) = some (p, length (p ∷ log))

module _ {b : Backend} where
  snapshot-logged :
      (m : String) (p : Params b) (log : List (Params b)) (s : ParameterStorage b)
      → IsLogged m (p ∷ log) s
      → (load_from_redis m (suc (length log)) s ≡ none)
        ⊎ (load_from_redis m (suc (length log)) s ≡ some p)
  unfolding entry
  snapshot-logged m p log s h =
      let none_older : suc (length log) - suc (length log) ≡ 0 = omega arith in
      let kept : load_from_redis m (suc (length log)) s ≡ (
          if ltb (suc (length log)) (suc (length log) + s.param_version_history)
          then some p
          else none) =
        h.kept (suc (length log)) ∙ rw none_older (ground (arith)) in
      elim (Bool-cases (ltb (suc (length log)) (suc (length log) + s.param_version_history))) [
        | inl within ↦ inr (kept ∙ rw within refl)
        | inr beyond ↦ inl (kept ∙ rw beyond refl)
      ]

  latest-logged :
      (m : String) (log : List (Params b)) (s : ParameterStorage b)
      → IsLogged m log s
      → (get_latest_parameters m s).1 ≡ with_version log
  unfolding get_latest_parameters
  latest-logged m [] s h = ground (arith, h.enabled, h.current, h.memory)
  latest-logged m (p ∷ log) s h = elim (snapshot-logged m p log s h) [
    | inl gone ↦ ground (arith, h.enabled, h.current, gone, h.memory, h.counted)
    | inr there ↦ ground (arith, h.enabled, h.current, there)
  ]

  response-lem :
      (m : String) (v : ℕ) (log : List (Params b)) (s : ParameterStorage b)
      → (get_latest_parameters m s).1 ≡ with_version log
      → let response = (pull_weights m v s).1 in
        (response.model_state_dict ≡ newest log)
        × (response.version ≡ length log)
        × (response.is_updated ≡ ltb v (length log))
  unfolding pull_weights
  response-lem m v [] s e = rw (e, pull_weights) (refl, refl, ground arith)
  response-lem m v (p ∷ log) s e = rw (e, pull_weights) (refl, refl, refl)

  -- When the storage service holds given logs, a pull leaves it with them, and returns the newest entry
  -- of the model's log with the number of its entries as the version, marked as an update exactly when
  -- that number is greater than the caller's version; for a model with no entry it returns nothing, with
  -- version 0.
  pub pull_weights-Holds :
      (m : String) (v : ℕ) (logs : Logs b) (s : ParameterStorage b)
      → Holds logs s
      → let (s', response) = pull_weights m v s in
        Holds logs s'
        × (response.model_state_dict ≡ newest (logs m))
        × (response.version ≡ length (logs m))
        × (response.is_updated ≡ ltb v (length (logs m)))
  unfolding pull_weights
  pull_weights-Holds m v logs s h =
      let (newest_there, counted, updated) =
        response-lem m v (logs m) s (latest-logged m (logs m) s (h m)) in
      (latest-Holds m logs s h, newest_there, counted, updated)
