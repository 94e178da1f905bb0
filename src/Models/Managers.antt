-- ===== src/Models/Managers.antt =====
-- `LifecycleManager.transition_state` and `VersionManager.create_version`.
use mesh_ml.Prelude.{
  ℕ, String, Bool, true, false, Option, none, some, List, [], ◌∷◌, ◌++◌, ◌=ˢ◌, if◌then◌else◌,
}
use mesh_ml.Models.Table.{
  ModelState, uploading, validating, ready, failed, deprecated, Model, Models, model_of, write,
  has_version,
}

-- `STATE_TRANSITIONS`, row by row
unfoldable pub state_transitions : ModelState → ModelState → Bool
state_transitions uploading validating = true
state_transitions uploading failed = true
state_transitions validating ready = true
state_transitions validating failed = true
state_transitions ready deprecated = true
state_transitions failed uploading = true
state_transitions _ _ = false

abbrev pub is_deprecated : ModelState → Bool
is_deprecated deprecated = true
is_deprecated _ = false

abbrev pub is_ready : ModelState → Bool
is_ready ready = true
is_ready _ = false

-- A call's result: the row it returns, or a `ValueError`.
pub data Reply : Type 0 where
  returned : Model → Reply
  not_found invalid_transition parent_not_ready version_exists : Reply

-- The row that `transition_state` writes.
unfoldable pub moved : ℕ → ModelState → Option String → Model → Model
moved now new_state validation_message model = record model {
  state = new_state;
  validation_message = validation_message;
  updated_at = now;
  deprecated_at = if is_deprecated new_state then some now else model.deprecated_at;
}

unfoldable pub transition_state : ℕ → ℕ → ModelState → Option String → Models → Models × Reply
transition_state now model_id new_state validation_message models =
    elim (model_of model_id models) [
      | none ↦ (models, not_found)
      | some model ↦
          if state_transitions model.state new_state
          then (
            write (moved now new_state validation_message model) models,
            returned (moved now new_state validation_message model),
          )
          else (models, invalid_transition)
    ]

unfoldable pub start_upload : ℕ → ℕ → Models → Models × Reply
start_upload now model_id models = transition_state now model_id uploading none models

unfoldable pub start_validation : ℕ → ℕ → Models → Models × Reply
start_validation now model_id models = transition_state now model_id validating none models

unfoldable pub mark_ready : ℕ → ℕ → Models → Models × Reply
mark_ready now model_id models = transition_state now model_id ready none models

unfoldable pub mark_failed : ℕ → ℕ → String → Models → Models × Reply
mark_failed now model_id error_message models =
    transition_state now model_id failed (some error_message) models

unfoldable pub deprecate : ℕ → ℕ → Option String → Models → Models × Reply
deprecate now model_id reason models = transition_state now model_id deprecated reason models

-- `description or parent.description`
abbrev pub text_or : Option String → Option String → Option String
text_or none d = d
text_or (some s) d = if s =ˢ "" then d else some s

-- `metadata or parent.model_metadata`
abbrev pub metadata_or :
    Option (List (String × String)) → List (String × String) → List (String × String)
metadata_or none d = d
metadata_or (some []) d = d
metadata_or (some (e ∷ es)) d = e ∷ es

-- The arguments of `create_version`.
pub record VersionRequest : Type 0 where
  pub parent_model_id : ℕ
  pub name : String
  pub version : String
  pub created_by_user_id : String
  pub description : Option String
  pub metadata : Option (List (String × String))

-- The new row; `id` is the one that the database gives it.
unfoldable pub new_version : ℕ → ℕ → VersionRequest → Model → Model
new_version now id request parent = record {
  id = id;
  name = request.name;
  description = text_or request.description parent.description;
  group_id = parent.group_id;
  created_by_user_id = request.created_by_user_id;
  architecture_type = parent.architecture_type;
  dataset_type = parent.dataset_type;
  framework = parent.framework;
  model_metadata = metadata_or request.metadata parent.model_metadata;
  state = uploading;
  validation_message = none;
  version = request.version;
  parent_model_id = some request.parent_model_id;
  created_at = now;
  updated_at = now;
  deprecated_at = none;
}

unfoldable pub create_version : ℕ → ℕ → VersionRequest → Models → Models × Reply
create_version now id request models = elim (model_of request.parent_model_id models) [
  | none ↦ (models, not_found)
  | some parent ↦
      if is_ready parent.state
      then (if has_version request.parent_model_id request.version models
          then (models, version_exists)
          else (
            models ++ new_version now id request parent ∷ [],
            returned (new_version now id request parent),
          ))
      else (models, parent_not_ready)
]
