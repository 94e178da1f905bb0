-- ===== src/Tests/Models.antt =====
-- Runs of the model managers on a table with one ready model.
use mesh_ml.Prelude.{ℕ, ◌≡◌, refl, true, false, none, some, [], ◌∷◌, map, sorted, place, arith}
use mesh_ml.Models.{
  start_upload, start_validation, mark_ready, mark_failed, deprecate, transition_state, moved,
  write, returned, invalid_transition, ModelState, uploading, Models, state_transitions, ready,
  deprecated, Model, VersionRequest, model_of, create_version, new_version, has_version,
}
use mesh_ml.Models.Queries.{
  get_versions, get_latest_version, get_version_history, get_version_count, get_models_by_state,
  get_state, can_transition,
}
use mesh_ml.Models.Latest.{IsLatest, get_latest_version-IsLatest}
use mesh_ml.Models.Family.{IsFamily, transition, create, call_manager, call_manager-IsFamily}
use mesh_ml.Models.States.{Follows, call_manager-Follows}

abbrev root : Model
root = record {
  id = 1;
  name = "net";
  description = none;
  group_id = "g";
  created_by_user_id = "u";
  architecture_type = some "CNN";
  dataset_type = none;
  framework = some "PyTorch";
  model_metadata = [];
  state = ready;
  validation_message = none;
  version = "1.0.0";
  parent_model_id = none;
  created_at = 5;
  updated_at = 5;
  deprecated_at = none;
}

abbrev request : VersionRequest
request = record {
  parent_model_id = 1;
  name = "net";
  version = "1.1.0";
  created_by_user_id = "u";
  description = none;
  metadata = none;
}

root-IsFamily : IsFamily (root ∷ [])
unfolding model_of
root-IsFamily = record {
  lineage = λ id p m e child. absurd (ground arith);
  unique = λ i j p m n e f cm cn v. absurd (ground arith);
}

abbrev child : ℕ → ModelState → ℕ → Model
child id state time = record root {
  id = id;
  state = state;
  created_at = time;
  version = "1.1.0";
  parent_model_id = some 1;
}

-- One version that is being uploaded, one that is deprecated and two that are ready.
abbrev family : Models
family = root ∷ child 2 ready 6 ∷ child 3 ready 8 ∷ child 4 deprecated 9 ∷ child 5 uploading 7 ∷ []

get_latest_version-IsLatest_example : IsLatest 1 family (get_latest_version 1 family)
get_latest_version-IsLatest_example = get_latest_version-IsLatest 1 family

latest_third : get_latest_version 1 family ≡ some (child 3 ready 8)
unfolding get_latest_version sorted place
latest_third = refl

versions_by_age : map (λ m. m.id) (get_versions 1 false family) ≡ 3 ∷ 5 ∷ 2 ∷ []
unfolding get_versions sorted place
versions_by_age = refl

all_versions : get_version_count 1 family ≡ 4
unfolding get_version_count
all_versions = refl

history_of_version :
    get_version_history 3 family
    ≡ some
        (root ∷ child 2 ready 6 ∷ child 5 uploading 7 ∷ child 3 ready 8 ∷ child 4 deprecated 9 ∷ [])
unfolding get_version_history model_of sorted place
history_of_version = refl

second_ready : map (λ m. m.id) (get_models_by_state ready 1 1 family) ≡ 2 ∷ []
unfolding get_models_by_state sorted place
second_ready = refl

may_deprecate : can_transition 2 deprecated family ≡ some true
unfolding can_transition get_state model_of state_transitions
may_deprecate = refl

-- A version goes through its life, and the last word on it is the reason.
lived :
    (deprecate 9 5 (some "old") (mark_ready 8 5 (start_validation 7 5 family).0).0).1
    ≡ returned (record (child 5 deprecated 7) {
      validation_message = some "old";
      updated_at = 9;
      deprecated_at = some 9;
    })
unfolding deprecate mark_ready start_validation transition_state moved model_of write
    state_transitions
lived = refl

-- A failed version is uploaded again, and a ready one is not.
uploaded_again :
    ((start_upload 9 5 (mark_failed 8 5 "bad" family).0).1
      ≡ returned (record (child 5 uploading 7) { updated_at = 9 }))
    × ((start_upload 9 3 family).1 ≡ invalid_transition)
unfolding mark_failed start_upload transition_state moved model_of write state_transitions
uploaded_again = (refl, refl)

two_is_new : model_of 2 (root ∷ []) ≡ none
unfolding model_of
two_is_new = refl

call_manager-IsFamily_example : IsFamily (call_manager 8 (create 2 request) (root ∷ []))
call_manager-IsFamily_example =
    call_manager-IsFamily 8 (create 2 request) (root ∷ []) two_is_new root-IsFamily

one_is_root : model_of 1 (root ∷ []) ≡ some root
unfolding model_of
one_is_root = refl

call_manager-Follows_example :
    Follows 1 root (call_manager 8 (transition 1 deprecated none) (root ∷ []))
call_manager-Follows_example =
    call_manager-Follows 8 (transition 1 deprecated none) (root ∷ []) 1 root tt one_is_root

-- The version is the second row, and is being uploaded.
created_second :
    model_of 2 (call_manager 8 (create 2 request) (root ∷ [])) ≡ some (new_version 8 2 request root)
unfolding model_of call_manager create_version has_version new_version
created_second = refl
