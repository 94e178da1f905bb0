-- ===== src/Parameters/Storage.antt =====
-- The parameters of a model and their versions.
use mesh_ml.Prelude.{
  ℕ, zero, suc, ◌+◌, ◌-◌, ◌*◌, String, Bool, true, false, not, Option, none, some, List, [], ◌∷◌,
  ◌++◌, ltb, ◌==◌, if◌then◌else◌, take, sorted,
}
use mesh_ml.Prelude.Dict.{Dict, lookup, insert, contains, keys}
use mesh_ml.Parameters.Records.{
  Backend, CheckpointType, ParameterVersion, or_empty, Params, count_parameters, count_bytes,
  calculate_checksum, ParameterStorage,
}
use mesh_ml.Parameters.Checkpoints.{create_checkpoint, find_checkpoint, listed, saved_key}

-- The record of a version.
unfoldable pub new_version_record :
    (b : Backend) → ℕ → String → ℕ → Option (Dict String) → Params b → ParameterVersion
new_version_record b now model_id version_id metadata p = record {
  version_id = version_id;
  model_id = model_id;
  created_at = now;
  checksum = calculate_checksum b p;
  num_parameters = count_parameters b p;
  total_size_bytes = count_bytes b p;
  metadata = or_empty metadata;
}

-- `self.version_history[model_id]`
abbrev pub history_of : String → Dict (List ParameterVersion) → List ParameterVersion
history_of model_id d = elim (lookup model_id d) [ none ↦ [] | some vs ↦ vs ]

-- `self.current_versions[model_id]`
abbrev pub version_of : String → Dict ℕ → ℕ
version_of model_id d = elim (lookup model_id d) [ none ↦ 0 | some v ↦ v ]

abbrev pub is_empty {ℓ} : {V : Type ℓ} → Dict V → Bool
is_empty [] = true
is_empty (e ∷ d) = false

-- `key=lambda v: v.version_id, reverse=True`, compared
abbrev pub later : ParameterVersion → ParameterVersion → Bool
later v w = ltb w.version_id v.version_id

-- `if limit: versions = versions[:limit]`
abbrev pub limited : Option ℕ → List ParameterVersion → List ParameterVersion
limited none vs = vs
limited (some zero) vs = vs
limited (some (suc n)) vs = take (suc n) vs

-- Whether the parameter `key` of the second version counts as changed.
unfoldable pub is_changed : (b : Backend) → Params b → String → b.Tensor → Bool
is_changed b p key t = elim (lookup key p) [ none ↦ true | some u ↦ not (b.equal u t) ]

-- `changed_keys` and `delta_size` over the items of the second version
unfoldable pub changes : (b : Backend) → Params b → Params b → List String × ℕ
unfolding is_changed
changes b p [] = ([], 0)
changes b p ((key, t) ∷ q) =
    let (rest, size) = changes b p q in
    if is_changed b p key t then (key ∷ rest, b.element_size t * b.numel t + size) else (rest, size)

module _ {b : Backend} where
  open b use {Tensor, element_size, numel, equal, load, save, snapshots, current, packages}

  -- `_persist_to_redis`, with the snapshot that falls out of the window deleted
  unfoldable pub persist_to_redis : String → ℕ → Params b → ParameterStorage b → ParameterStorage b
  persist_to_redis model_id version_id p s =
      let set_snapshots = snapshots.set (model_id, version_id) (save p) s.stored_snapshots in
      record s {
        stored_snapshots =
            if ltb s.param_version_history version_id
            then snapshots.delete (model_id, version_id - s.param_version_history) set_snapshots
            else set_snapshots;
        stored_current = current.set model_id version_id s.stored_current;
      }

  -- `_load_from_redis`
  unfoldable pub load_from_redis : String → ℕ → ParameterStorage b → Option (Params b)
  load_from_redis model_id version_id s =
      elim (snapshots.get (model_id, version_id) s.stored_snapshots) [
        | none ↦ none
        | some bytes ↦ some (load bytes)
      ]

  -- `if model_id not in self.parameters: ...`
  unfoldable pub initialized : String → ParameterStorage b → ParameterStorage b
  initialized model_id s = if contains model_id s.parameters then s else record s {
    parameters = insert model_id [] s.parameters;
    current_versions = insert model_id 0 s.current_versions;
    version_history = insert model_id [] s.version_history;
    checkpoints = insert model_id [] s.checkpoints;
  }

  -- The new version in memory, where the model has a history.
  unfoldable pub in_memory :
      ℕ → String → Params b → Option (Dict String) → ParameterStorage b → ParameterStorage b
  unfolding new_version_record
  in_memory now model_id p metadata s =
      let version_id = version_of model_id s.current_versions + 1 in
      record s {
        current_versions = insert model_id version_id s.current_versions;
        parameters = insert model_id p s.parameters;
        version_history =
            insert model_id
              (history_of model_id s.version_history
                ++ new_version_record b now model_id version_id metadata p ∷ [])
              s.version_history;
      }

  -- What is written before `self.version_history[model_id]` raises `KeyError`.
  abbrev pub half_written : String → Params b → ParameterStorage b → ParameterStorage b
  half_written model_id p s = record s {
    current_versions =
        insert model_id (version_of model_id s.current_versions + 1) s.current_versions;
    parameters = insert model_id p s.parameters;
  }

  -- The version is counted up and written, in memory and in Redis. `none` is the `KeyError` of a model
  -- that is in memory without a history.
  unfoldable pub write_version :
      ℕ
      → String
      → Params b
      → Option (Dict String)
      → ParameterStorage b
      → ParameterStorage b × Option ParameterVersion
  unfolding persist_to_redis in_memory
  write_version now model_id p metadata s =
      let version_id = version_of model_id s.current_versions + 1 in
      let written = in_memory now model_id p metadata s in
      if contains model_id s.version_history
      then (
        if s.enable_redis then persist_to_redis model_id version_id p written else written,
        some (new_version_record b now model_id version_id metadata p),
      )
      else (half_written model_id p s, none)

  -- `if create_checkpoint: ...`, unless the write has raised
  abbrev pub with_checkpoint :
      ℕ
      → String
      → Option (Dict String)
      → Option CheckpointType
      → ParameterStorage b × Option ParameterVersion
      → ParameterStorage b × Option ParameterVersion
  with_checkpoint now model_id metadata checkpoint (stored, none) = (stored, none)
  with_checkpoint now model_id metadata none (stored, some version) = (stored, some version)
  with_checkpoint now model_id metadata (some t) (stored, some version) =
      ((create_checkpoint now model_id t none none metadata stored).0, some version)

  -- A call that returns `a` when the store in it has not raised.
  abbrev pub returning :
      {A : Type 0}
      → A
      → ParameterStorage b × Option ParameterVersion
      → ParameterStorage b × Option A
  returning a (stored, none) = (stored, none)
  returning a (stored, some version) = (stored, some a)

  -- The last argument but one says whether, and as what, a checkpoint is made.
  unfoldable pub store_parameters :
      ℕ
      → String
      → Params b
      → Option (Dict String)
      → Option CheckpointType
      → ParameterStorage b
      → ParameterStorage b × Option ParameterVersion
  unfolding initialized write_version create_checkpoint
  store_parameters now model_id p metadata checkpoint s =
      with_checkpoint now model_id metadata checkpoint
        (write_version now model_id p metadata (initialized model_id s))

  unfoldable pub get_parameters : String → Option ℕ → ParameterStorage b → Option (Params b)
  unfolding load_from_redis
  get_parameters model_id version_id s = elim (lookup model_id s.parameters) [
    | none ↦ none
    | some p ↦ elim version_id [
      | none ↦ some p
      | some v ↦
          if v == version_of model_id s.current_versions
          then some p
          else if s.enable_redis
          then load_from_redis model_id v s
          else none
    ]
  ]

  unfoldable pub get_parameter_names : String → ParameterStorage b → Option (List String)
  get_parameter_names model_id s = elim (lookup model_id s.parameters) [
    | none ↦ none
    | some p ↦ some (keys p)
  ]

  unfoldable pub get_parameter : String → String → Option ℕ → ParameterStorage b → Option Tensor
  unfolding get_parameters
  get_parameter model_id name version_id s = elim (get_parameters model_id version_id s) [
    | none ↦ none
    | some p ↦ lookup name p
  ]

  -- `none` is the `KeyError` of `store_parameters`.
  unfoldable pub update_parameter :
      ℕ → String → String → Tensor → Bool → ParameterStorage b → ParameterStorage b × Option Bool
  unfolding store_parameters
  update_parameter now model_id name value create_version s = elim (lookup model_id s.parameters) [
    | none ↦ (s, some false)
    | some p ↦
        if contains name p
        then (let updated = record s {
          parameters = insert model_id (insert name value p) s.parameters;
        } in
            if create_version
            then returning true
                (store_parameters now model_id (insert name value p) none none updated)
            else (updated, some true))
        else (s, some false)
  ]

  -- What is restored and returned: nothing is restored that is missing or empty. `note` is the
  -- metadata that names the checkpoint.
  unfoldable pub restored :
      ℕ
      → String
      → Bool
      → Dict String
      → Params b
      → ParameterStorage b
      → ParameterStorage b × Option (Option (Params b))
  unfolding store_parameters
  restored now model_id restore note p s =
      if is_empty p
      then (s, some (some p))
      else if restore
      then returning (some p) (store_parameters now model_id p (some note) none s)
      else (s, some (some p))

  -- `none` is the `KeyError` of `store_parameters`.
  unfoldable pub load_checkpoint :
      ℕ
      → String
      → String
      → Bool
      → Dict String
      → ParameterStorage b
      → ParameterStorage b × Option (Option (Params b))
  unfolding restored find_checkpoint
  load_checkpoint now model_id checkpoint_id restore note s =
      elim (find_checkpoint checkpoint_id (listed model_id s.checkpoints)) [
        | none ↦ (s, some none)
        | some c ↦ elim (saved_key c) [
          | none ↦ (s, some none)
          | some key ↦
              if s.enable_redis
              then elim (packages.get key s.stored_packages) [
                | none ↦ (s, some none)
                | some bytes ↦ restored now model_id restore note (b.unpack bytes) s
              ]
              else (s, some none)
        ]
      ]

  unfoldable pub get_version_history :
      String → Option ℕ → ParameterStorage b → List ParameterVersion
  get_version_history model_id limit s =
      limited limit (sorted later (history_of model_id s.version_history))

  unfoldable pub get_current_version : String → ParameterStorage b → Option ℕ
  get_current_version model_id s = lookup model_id s.current_versions

  -- The version that `get_latest_parameters` finds in Redis becomes the current one.
  unfoldable pub get_latest_parameters :
      String → ParameterStorage b → ParameterStorage b × Option (Params b × ℕ)
  unfolding load_from_redis
  get_latest_parameters model_id s =
      let held : Option (Params b × ℕ) = elim (lookup model_id s.parameters) [
        | none ↦ none
        | some p ↦ some (p, version_of model_id s.current_versions)
      ] in
      if s.enable_redis
      then elim (current.get model_id s.stored_current) [
        | none ↦ (s, held)
        | some v ↦ elim (load_from_redis model_id v s) [
          | none ↦ (s, held)
          | some p ↦
              (record s { current_versions = insert model_id v s.current_versions }, some (p, v))
        ]
      ]
      else (s, held)

  -- The sizes whose ratio is the compression ratio are kept apart.
  unfoldable pub calculate_delta :
      String → ℕ → ℕ → ParameterStorage b → Option (List String × ℕ × ℕ)
  unfolding get_parameters changes count_bytes
  calculate_delta model_id from_version to_version s =
      elim (get_parameters model_id (some from_version) s) [
        | none ↦ none
        | some p ↦ elim (get_parameters model_id (some to_version) s) [
          | none ↦ none
          | some q ↦ let (changed, size) = changes b p q in some (changed, size, count_bytes b q)
        ]
      ]
