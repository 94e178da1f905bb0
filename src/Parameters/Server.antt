-- ===== src/Parameters/Server.antt =====
-- `PullWeights` and `PushGradients` of services/parameter-server/app/grpc_server.py: a worker's
-- gradients make the next version of the parameters, which workers pull.
use mesh_ml.Prelude.{
  ℕ, ◌+◌, ◌-◌, ◌/◌, String, Bool, true, false, ◌&&◌, Option, none, some, [], ◌∷◌, ltb, leb,
  if◌then◌else◌,
}
use mesh_ml.Prelude.Dict.{Dict, lookup, insert}
use mesh_ml.Parameters.Records.{Backend, KeyValue, same_text, Params, ParameterStorage}
use mesh_ml.Parameters.Storage.{
  persist_to_redis, load_from_redis, get_latest_parameters, get_current_version,
}

-- The floats and the tensor operations that an update uses, and two kinds of keys of Redis, held
-- decoded: `momentum:{job_id}` and `lr:{model_id}`.
pub record Arithmetic (b : Backend) : Type 1 where
  pub Number : Type 0
  pub is_zero : Number → Bool
  pub is_positive : Number → Bool
  pub times : Number → Number → Number
  pub max_of : Number → Number → Number
  pub power : Number → ℕ → Number
  -- `math.exp(-a * n)`
  pub exp_of_minus : Number → ℕ → Number
  pub dim : b.Tensor → ℕ
  pub zeros_like : b.Tensor → b.Tensor
  pub scale : Number → b.Tensor → b.Tensor
  pub plus : b.Tensor → b.Tensor → b.Tensor
  pub minus : b.Tensor → b.Tensor → b.Tensor
  pub momenta : KeyValue same_text (Dict b.Tensor)
  pub rates : KeyValue same_text Number

-- The request; `gradients` is `none` when the bytes cannot be decoded.
pub record GradientsRequest (b : Backend) (a : Arithmetic b) : Type 0 where
  pub job_id : String
  pub version : ℕ
  pub learning_rate : a.Number
  pub gradients : Option (Params b)

pub record GradientsAck : Type 0 where
  pub success : Bool
  pub message : String
  pub new_version : ℕ
  pub staleness_accepted : Bool
  pub staleness_threshold : ℕ

pub data PushReply : Type 0 where
  acknowledged : GradientsAck → PushReply
  aborted : PushReply

abbrev pub ack : Bool → String → ℕ → Bool → ℕ → PushReply
ack success message new_version staleness_accepted staleness_threshold = acknowledged (record {
  success = success;
  message = message;
  new_version = new_version;
  staleness_accepted = staleness_accepted;
  staleness_threshold = staleness_threshold;
})

pub record ParameterServer (b : Backend) (a : Arithmetic b) : Type 0 where
  pub momentum : a.Number
  pub staleness_lambda : a.Number
  pub weight_decay : a.Number
  pub lr_decay_gamma : a.Number
  pub lr_decay_step : ℕ
  pub lr_min : a.Number
  pub storage : ParameterStorage b
  pub stored_momenta : a.momenta.Store
  pub stored_rates : a.rates.Store

-- The response without the fields that are constant or copied; the weights before their encoding.
pub record WeightsResponse (b : Backend) : Type 0 where
  pub model_state_dict : Option (Params b)
  pub version : ℕ
  pub is_updated : Bool

module _ {b : Backend} where
  unfoldable pub pull_weights :
      String → ℕ → ParameterStorage b → ParameterStorage b × WeightsResponse b
  unfolding get_latest_parameters
  pull_weights model_id request_version s =
      let (s', found) = get_latest_parameters model_id s in
      (
        s',
        elim found [
          | none ↦ record { model_state_dict = none; version = 0; is_updated = false }
          | some pair ↦ record {
            model_state_dict = some pair.0;
            version = pair.1;
            is_updated = ltb request_version pair.1;
          }
        ],
      )

  -- `storage.get_current_version(request.job_id) or 0`
  unfoldable pub get_model_version : String → ParameterStorage b → ℕ
  unfolding get_current_version
  get_model_version model_id s = elim (get_current_version model_id s) [ none ↦ 0 | some v ↦ v ]

  -- `_get_current_version`, with Redis
  unfoldable pub server_version : String → ParameterStorage b → ℕ
  server_version model_id s = elim (b.current.get model_id s.stored_current) [
    | none ↦ 0
    | some v ↦ v
  ]

  -- `_load_current_weights`, with Redis
  unfoldable pub load_current_weights : String → ℕ → ParameterStorage b → Option (Params b)
  unfolding load_from_redis
  load_current_weights model_id version_id s =
      elim (if ltb 0 version_id then load_from_redis model_id version_id s else none) [
        | some p ↦ some p
        | none ↦ lookup model_id s.parameters
      ]

  -- The three writes of a new version: the history is left out.
  unfoldable pub put_version : String → ℕ → Params b → ParameterStorage b → ParameterStorage b
  unfolding persist_to_redis
  put_version model_id version_id p s =
      let persisted = persist_to_redis model_id version_id p s in
      record persisted {
        parameters = insert model_id p s.parameters;
        current_versions = insert model_id version_id s.current_versions;
      }

module _ {b : Backend} {a : Arithmetic b} where
  open a use {
    times, max_of, power, exp_of_minus, is_zero, is_positive, dim, zeros_like, scale, plus, minus,
    momenta, rates,
  }

  -- `_get_learning_rate`, the schedule and the staleness
  unfoldable pub effective_rate : GradientsRequest b a → ℕ → ParameterServer b a → a.Number
  effective_rate request current_version s =
      let lr : a.Number = elim (rates.get request.job_id s.stored_rates) [
        | none ↦ request.learning_rate
        | some x ↦ x
      ] in
      let scheduled =
        if ltb 0 s.lr_decay_step
        then max_of s.lr_min (times lr (power s.lr_decay_gamma (current_version / s.lr_decay_step)))
        else lr in
      times scheduled (exp_of_minus s.staleness_lambda (current_version - request.version))

  -- `for name, param in params.items()`: the new parameters and the new momenta.
  unfoldable pub descend :
      ParameterServer b a
      → a.Number
      → Params b
      → Params b
      → Dict b.Tensor
      → Params b × Dict b.Tensor
  descend s rate gradients [] state = ([], state)
  descend s rate gradients ((name, param) ∷ params) state = elim (lookup name gradients) [
    | none ↦
        let (rest, state') = descend s rate gradients params state in ((name, param) ∷ rest, state')
    | some grad ↦
        let grad_t =
          if is_positive s.weight_decay && leb 2 (dim param)
          then plus grad (scale s.weight_decay param)
          else grad in
        let old : b.Tensor = elim (lookup name state) [ none ↦ zeros_like grad_t | some t ↦ t ] in
        let buf = plus (scale s.momentum old) grad_t in
        let (rest, state') = descend s rate gradients params (insert name buf state) in
        ((name, minus param (scale rate buf)) ∷ rest, state')
  ]

  -- What the gradients make of the parameters, and of the momenta.
  unfoldable pub applied :
      GradientsRequest b a
      → Params b
      → ℕ
      → Params b
      → ParameterServer b a
      → Params b × Dict b.Tensor
  unfolding effective_rate descend
  applied request gradients current_version params s =
      let state : Dict b.Tensor = elim (momenta.get request.job_id s.stored_momenta) [
        | none ↦ []
        | some d ↦ d
      ] in
      descend s (effective_rate request current_version s) gradients params state

  -- The part under the lock.
  unfoldable pub push_locked :
      GradientsRequest b a → Params b → ParameterServer b a → ParameterServer b a × PushReply
  unfolding server_version load_current_weights put_version applied
  push_locked request gradients s =
      let current_version = server_version request.job_id s.storage in
      elim (load_current_weights request.job_id current_version s.storage) [
        | none ↦
            if is_zero request.learning_rate
            then (
              record s { storage = put_version request.job_id 1 gradients s.storage },
              ack true "Initial weights seeded" 1 false 0,
            )
            else (s, ack false "No parameters available for model" current_version false 0)
        | some params ↦
            let (params', state) = applied request gradients current_version params s in
            (
              record s {
                storage = put_version request.job_id (current_version + 1) params' s.storage;
                stored_momenta = momenta.set request.job_id state s.stored_momenta;
              },
              ack true "accepted" (current_version + 1) (ltb request.version current_version) 10,
            )
      ]

  -- `acquired` says whether the lock was free in time.
  unfoldable pub push_gradients :
      Bool → GradientsRequest b a → ParameterServer b a → ParameterServer b a × PushReply
  unfolding push_locked
  push_gradients acquired request s =
      if s.storage.enable_redis
      then elim request.gradients [
        | none ↦ (s, aborted)
        | some gradients ↦ if acquired then push_locked request gradients s else (s, aborted)
      ]
      else (s, aborted)
