-- ===== src/Models/Queries.antt =====
-- The queries of `LifecycleManager` and `VersionManager`. Rows of one time keep their order in the table.
use mesh_ml.Prelude.{
  ℕ, Bool, true, false, Option, none, some, [], ◌∷◌, ◌&&◌, ◌||◌, ◌==◌, not, ltb, length, take, drop,
  filter_by, sorted, if◌then◌else◌,
}
use mesh_ml.Models.Table.{
  ModelState, uploading, validating, ready, failed, deprecated, Model, Models, model_of, is_child,
}
use mesh_ml.Models.Managers.{state_transitions, is_ready, is_deprecated}

-- `order_by(Model.created_at.desc())`: whether a row comes first.
abbrev pub created_after : Model → Model → Bool
created_after m n = ltb n.created_at m.created_at

-- `order_by(Model.created_at.asc())`
abbrev pub created_before : Model → Model → Bool
created_before m n = ltb m.created_at n.created_at

-- `order_by(Model.updated_at.desc())`
abbrev pub updated_after : Model → Model → Bool
updated_after m n = ltb n.updated_at m.updated_at

abbrev pub has_state : ModelState → ModelState → Bool
has_state uploading uploading = true
has_state validating validating = true
has_state ready ready = true
has_state failed failed = true
has_state deprecated deprecated = true
has_state _ _ = false

-- No row is a `ValueError` in `get_state`, and so in `can_transition`.
unfoldable pub get_state : ℕ → Models → Option ModelState
get_state model_id models = elim (model_of model_id models) [ none ↦ none | some m ↦ some m.state ]

unfoldable pub can_transition : ℕ → ModelState → Models → Option Bool
can_transition model_id target_state models = elim (get_state model_id models) [
  | none ↦ none
  | some current_state ↦ some (state_transitions current_state target_state)
]

unfoldable pub get_models_by_state : ModelState → ℕ → ℕ → Models → Models
get_models_by_state state limit offset models =
    take limit
      (drop offset (sorted updated_after (filter_by (λ m. has_state state m.state) models)))

unfoldable pub get_versions : ℕ → Bool → Models → Models
get_versions parent include_deprecated models = sorted created_after (
    filter_by (λ m. is_child parent m && (include_deprecated || not (is_deprecated m.state)))
      models)

abbrev pub is_ready_child : ℕ → Model → Bool
is_ready_child parent m = is_child parent m && is_ready m.state

-- `limit(1)` and `scalar_one_or_none`
abbrev pub first_row : Models → Option Model
first_row [] = none
first_row (m ∷ ms) = some m

unfoldable pub get_latest_version : ℕ → Models → Option Model
get_latest_version parent models =
    first_row (sorted created_after (filter_by (is_ready_child parent) models))

-- `model.parent_model_id or model.id`: the id 0 counts as none.
abbrev pub root_id : Model → ℕ
root_id m = elim m.parent_model_id [ none ↦ m.id | some p ↦ if p == 0 then m.id else p ]

abbrev pub is_related : ℕ → Model → Bool
is_related root m = m.id == root || is_child root m

-- No row is a `ValueError`.
unfoldable pub get_version_history : ℕ → Models → Option Models
get_version_history model_id models = elim (model_of model_id models) [
  | none ↦ none
  | some m ↦ some (sorted created_before (filter_by (is_related (root_id m)) models))
]

unfoldable pub get_version_count : ℕ → Models → ℕ
get_version_count parent models = length (filter_by (is_child parent) models)
