-- ===== src/Parameters/Checkpoints.antt =====
-- The checkpoints of a model: they are made, listed, found and deleted, and old ones are pruned.
use Prim.Native.String.{◌++◌ as append}
use mesh_ml.Prelude.{
  ℕ, String, Bool, true, false, not, Option, none, some, List, [], ◌∷◌, ◌++◌, ltb, ◌=ˢ◌,
  if◌then◌else◌, drop, filter_by, sorted,
}
use mesh_ml.Prelude.Dict.{Dict, lookup, insert}
use mesh_ml.Parameters.Records.{
  Backend, CheckpointType, manual, auto, best, final, Checkpoint, or_empty, Params,
  count_parameters, count_bytes, calculate_checksum, ParameterStorage,
}

-- `in {CheckpointType.BEST, CheckpointType.FINAL}`
abbrev pub is_kept : CheckpointType → Bool
is_kept manual = false
is_kept auto = false
is_kept best = true
is_kept final = true

abbrev pub is_protected : Checkpoint → Bool
is_protected c = is_kept c.checkpoint_type

-- The first checkpoint with an id.
unfoldable pub find_checkpoint : String → List Checkpoint → Option Checkpoint
find_checkpoint id [] = none
find_checkpoint id (c ∷ cs) =
    let rest = find_checkpoint id cs in if c.checkpoint_id =ˢ id then some c else rest

-- The list without it: `pop(i)`.
unfoldable pub pop_checkpoint : String → List Checkpoint → List Checkpoint
pop_checkpoint id [] = []
pop_checkpoint id (c ∷ cs) =
    let rest = pop_checkpoint id cs in if c.checkpoint_id =ˢ id then cs else c ∷ rest

-- `key=lambda c: c.created_at, reverse=True`, compared
abbrev pub newer : Checkpoint → Checkpoint → Bool
newer c d = ltb d.created_at c.created_at

-- `others`, newest first, beyond the retention
unfoldable pub expired : ℕ → List Checkpoint → List Checkpoint
expired retention cs = drop retention (sorted newer (filter_by (λ c. not (is_protected c)) cs))

-- `self.checkpoints.get(model_id, [])`: a model with no list has no checkpoint.
abbrev pub listed : String → Dict (List Checkpoint) → List Checkpoint
listed model_id d = elim (lookup model_id d) [ none ↦ [] | some cs ↦ cs ]

abbrev pub checkpoint_key : String → String → String
checkpoint_key model_id checkpoint_id =
    append "checkpoint:" (append model_id (append ":" checkpoint_id))

-- A key that is there and not empty.
unfoldable pub saved_key : Checkpoint → Option String
saved_key c = elim c.redis_key [ none ↦ none | some key ↦ if key =ˢ "" then none else some key ]

abbrev pub type_is : CheckpointType → Checkpoint → Bool
type_is manual c = elim c.checkpoint_type [
  | manual ↦ true
  | auto ↦ false
  | best ↦ false
  | final ↦ false
]
type_is auto c = elim c.checkpoint_type [
  | manual ↦ false
  | auto ↦ true
  | best ↦ false
  | final ↦ false
]
type_is best c = elim c.checkpoint_type [
  | manual ↦ false
  | auto ↦ false
  | best ↦ true
  | final ↦ false
]
type_is final c = elim c.checkpoint_type [
  | manual ↦ false
  | auto ↦ false
  | best ↦ false
  | final ↦ true
]

-- The record of a checkpoint, before it is saved.
unfoldable pub new_checkpoint :
    (b : Backend)
    → ℕ
    → String
    → String
    → ℕ
    → CheckpointType
    → Option (Dict String)
    → Option (Dict String)
    → Params b
    → Checkpoint
new_checkpoint b now model_id checkpoint_id version_id checkpoint_type metrics metadata p = record {
  checkpoint_id = checkpoint_id;
  model_id = model_id;
  version_id = version_id;
  checkpoint_type = checkpoint_type;
  created_at = now;
  checksum = calculate_checksum b p;
  num_parameters = count_parameters b p;
  size_bytes = count_bytes b p;
  metrics = or_empty metrics;
  metadata = or_empty metadata;
  redis_key = none;
}

module _ {b : Backend} where
  open b use {snapshots, current, packages}

  unfoldable pub list_checkpoints :
      String → Option CheckpointType → ParameterStorage b → List Checkpoint
  list_checkpoints model_id none s = sorted newer (listed model_id s.checkpoints)
  list_checkpoints model_id (some t) s =
      sorted newer (filter_by (type_is t) (listed model_id s.checkpoints))

  -- `self.redis_client.delete(checkpoint.redis_key)`, where there is one
  unfoldable pub forget_package : Checkpoint → ParameterStorage b → ParameterStorage b
  unfolding saved_key
  forget_package c s = elim (saved_key c) [
    | none ↦ s
    | some key ↦ record s { stored_packages = packages.delete key s.stored_packages }
  ]

  unfoldable pub delete_checkpoint :
      String → String → ParameterStorage b → ParameterStorage b × Bool
  unfolding forget_package pop_checkpoint
  delete_checkpoint model_id checkpoint_id s = elim (lookup model_id s.checkpoints) [
    | none ↦ (s, false)
    | some cs ↦ elim (find_checkpoint checkpoint_id cs) [
      | none ↦ (s, false)
      | some c ↦
          let popped = record s {
            checkpoints = insert model_id (pop_checkpoint checkpoint_id cs) s.checkpoints;
          } in
          (if s.enable_redis then forget_package c popped else popped, true)
    ]
  ]

  -- `for checkpoint in to_delete`
  unfoldable pub delete_each : String → List Checkpoint → ParameterStorage b → ParameterStorage b
  unfolding delete_checkpoint
  delete_each model_id [] s = s
  delete_each model_id (c ∷ cs) s =
      delete_each model_id cs (delete_checkpoint model_id c.checkpoint_id s).0

  unfoldable pub enforce_checkpoint_retention : String → ParameterStorage b → ParameterStorage b
  unfolding delete_each expired
  enforce_checkpoint_retention model_id s = elim (lookup model_id s.checkpoints) [
    | none ↦ s
    | some cs ↦ delete_each model_id (expired s.checkpoint_retention cs) s
  ]

  -- `_save_checkpoint_to_redis`, and the key noted in the record
  unfoldable pub save_package :
      Checkpoint → Params b → ParameterStorage b → ParameterStorage b × Checkpoint
  save_package c p s =
      let key = checkpoint_key c.model_id c.checkpoint_id in
      if s.enable_redis
      then (
        record s { stored_packages = packages.set key (b.pack c p) s.stored_packages },
        record c { redis_key = some key },
      )
      else (s, c)

  -- `self.checkpoints[model_id].append(checkpoint)`, to a new list where there is none
  unfoldable pub append_checkpoint : String → Checkpoint → ParameterStorage b → ParameterStorage b
  append_checkpoint model_id c s = record s {
    checkpoints = insert model_id (listed model_id s.checkpoints ++ c ∷ []) s.checkpoints;
  }

  -- After the guard that the model is there; `generated_id` is the id made of model, version and time.
  unfoldable pub checkpoint_found :
      ℕ
      → String
      → String
      → CheckpointType
      → Option (Dict String)
      → Option (Dict String)
      → ℕ
      → Params b
      → ParameterStorage b
      → ParameterStorage b × Checkpoint
  unfolding save_package append_checkpoint new_checkpoint
  checkpoint_found now model_id checkpoint_id checkpoint_type metrics metadata version_id p s =
      let (saved, c) =
        save_package
          (new_checkpoint b now model_id checkpoint_id version_id checkpoint_type metrics metadata
            p)
          p s in
      (enforce_checkpoint_retention model_id (append_checkpoint model_id c saved), c)

  -- `generated_id` is the id made of the model, the version and the time. `none` is the `ValueError` of a
  -- model that is not there.
  unfoldable pub create_checkpoint :
      ℕ
      → String
      → CheckpointType
      → Option String
      → Option (Dict String)
      → Option (Dict String)
      → ParameterStorage b
      → ParameterStorage b × Option Checkpoint
  unfolding checkpoint_found
  create_checkpoint now model_id checkpoint_type checkpoint_id metrics metadata s =
      elim (lookup model_id s.parameters) [
        | none ↦ (s, none)
        | some p ↦ elim (lookup model_id s.current_versions) [
          | none ↦ (s, none)
          | some version_id ↦
              let id : String = elim checkpoint_id [
                | none ↦ b.generated_id model_id version_id now
                | some id ↦ id
              ] in
              let (s', c) =
                checkpoint_found now model_id id checkpoint_type metrics metadata version_id p s in
              (s', some c)
        ]
      ]
