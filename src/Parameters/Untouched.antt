-- ===== src/Parameters/Untouched.antt =====
-- Checkpoints and versions are kept apart.
use mesh_ml.Prelude.{
  ℕ, ◌≡◌, refl, sym, ◌∙◌, String, Bool, true, false, Option, inl, inr, List, [], ◌∷◌, if◌then◌else◌,
  Option-cases, Bool-cases,
}
use mesh_ml.Prelude.Dict.{Dict, lookup}
use mesh_ml.Parameters.Records.{Backend, CheckpointType, Checkpoint, Params, ParameterStorage}
use mesh_ml.Parameters.Checkpoints.{
  find_checkpoint, expired, forget_package, saved_key, delete_checkpoint, delete_each,
  enforce_checkpoint_retention, new_checkpoint, save_package, append_checkpoint, checkpoint_found,
  create_checkpoint,
}

-- What the versions of the models are made of is the same.
pub record SameVersions {b : Backend} (s s' : ParameterStorage b) : Type 0 where
  pub enabled : s'.enable_redis ≡ s.enable_redis
  pub window : s'.param_version_history ≡ s.param_version_history
  pub memory : s'.parameters ≡ s.parameters
  pub versions : s'.current_versions ≡ s.current_versions
  pub snapshots : s'.stored_snapshots ≡ s.stored_snapshots
  pub current : s'.stored_current ≡ s.stored_current
  pub history : s'.version_history ≡ s.version_history

module _ {b : Backend} where
  pub same_versions : (s : ParameterStorage b) → SameVersions s s
  same_versions s = record {
    enabled = refl;
    window = refl;
    memory = refl;
    versions = refl;
    snapshots = refl;
    current = refl;
    history = refl;
  }

  SameVersions-trans :
      (s t u : ParameterStorage b) → SameVersions s t → SameVersions t u → SameVersions s u
  SameVersions-trans s t u p q = record {
    enabled = q.enabled ∙ p.enabled;
    window = q.window ∙ p.window;
    memory = q.memory ∙ p.memory;
    versions = q.versions ∙ p.versions;
    snapshots = q.snapshots ∙ p.snapshots;
    current = q.current ∙ p.current;
    history = q.history ∙ p.history;
  }

  forget_package-SameVersions :
      (c : Checkpoint) (s : ParameterStorage b) → SameVersions s (forget_package c s)
  unfolding forget_package
  forget_package-SameVersions c s = elim (Option-cases (saved_key c)) [
    | inl unsaved ↦ rw (unsaved, forget_package) (same_versions s)
    | inr (key, saved) ↦
        rw (saved, forget_package)
          (record {
            enabled = refl;
            window = refl;
            memory = refl;
            versions = refl;
            snapshots = refl;
            current = refl;
            history = refl;
          })
  ]

  popped-SameVersions :
      (enabled : Bool) (c : Checkpoint) (s s' : ParameterStorage b)
      → SameVersions s s'
      → SameVersions s (if enabled then forget_package c s' else s')
  popped-SameVersions true c s s' same =
      SameVersions-trans s s' (forget_package c s') same (forget_package-SameVersions c s')
  popped-SameVersions false c s s' same = same

  pub delete_checkpoint-SameVersions :
      (m id : String) (s : ParameterStorage b) → SameVersions s (delete_checkpoint m id s).0
  unfolding delete_checkpoint
  delete_checkpoint-SameVersions m id s = elim (Option-cases (lookup m s.checkpoints)) [
    | inl absent ↦ rw (absent, delete_checkpoint) (same_versions s)
    | inr (cs, listed) ↦ elim (Option-cases (find_checkpoint id cs)) [
      | inl absent ↦ rw (listed, delete_checkpoint, absent) (same_versions s)
      | inr (c, found) ↦
          rw (listed, delete_checkpoint, found)
            (popped-SameVersions s.enable_redis c s _ (record {
              enabled = refl;
              window = refl;
              memory = refl;
              versions = refl;
              snapshots = refl;
              current = refl;
              history = refl;
            }))
    ]
  ]

  delete_each-SameVersions :
      (m : String) (cs : List Checkpoint) (s : ParameterStorage b)
      → SameVersions s (delete_each m cs s)
  unfolding delete_each
  delete_each-SameVersions m [] s = same_versions s
  delete_each-SameVersions m (c ∷ cs) s =
      SameVersions-trans s (delete_checkpoint m c.checkpoint_id s).0 _
        (delete_checkpoint-SameVersions m c.checkpoint_id s)
        (delete_each-SameVersions m cs (delete_checkpoint m c.checkpoint_id s).0)

  enforce-SameVersions :
      (m : String) (s : ParameterStorage b) → SameVersions s (enforce_checkpoint_retention m s)
  unfolding enforce_checkpoint_retention
  enforce-SameVersions m s = elim (Option-cases (lookup m s.checkpoints)) [
    | inl absent ↦ rw (absent, enforce_checkpoint_retention) (same_versions s)
    | inr (cs, listed) ↦
        rw (listed, enforce_checkpoint_retention)
          (delete_each-SameVersions m (expired s.checkpoint_retention cs) s)
  ]

  save_package-SameVersions :
      (c : Checkpoint) (p : Params b) (s : ParameterStorage b)
      → SameVersions s (save_package c p s).0
  unfolding save_package
  save_package-SameVersions c p s = elim (Bool-cases s.enable_redis) [
    | inl on ↦ simp on (record {
      enabled = sym on;
      window = refl;
      memory = refl;
      versions = refl;
      snapshots = refl;
      current = refl;
      history = refl;
    })
    | inr off ↦ simp off (same_versions s)
  ]

  checkpoint_found-SameVersions :
      (now : ℕ) (m id : String) (t : CheckpointType) (metrics metadata : Option (Dict String))
      (v : ℕ) (p : Params b) (s : ParameterStorage b)
      → SameVersions s (checkpoint_found now m id t metrics metadata v p s).0
  unfolding checkpoint_found append_checkpoint
  checkpoint_found-SameVersions now m id t metrics metadata v p s =
      let saved = save_package (new_checkpoint b now m id v t metrics metadata p) p s in
      SameVersions-trans s saved.0 _
        (save_package-SameVersions (new_checkpoint b now m id v t metrics metadata p) p s)
        (SameVersions-trans saved.0 (append_checkpoint m saved.1 saved.0) _
          (record {
            enabled = refl;
            window = refl;
            memory = refl;
            versions = refl;
            snapshots = refl;
            current = refl;
            history = refl;
          })
          (enforce-SameVersions m (append_checkpoint m saved.1 saved.0)))

  pub create_checkpoint-SameVersions :
      (now : ℕ) (m : String) (t : CheckpointType) (id : Option String)
      (metrics metadata : Option (Dict String)) (s : ParameterStorage b)
      → SameVersions s (create_checkpoint now m t id metrics metadata s).0
  unfolding create_checkpoint
  create_checkpoint-SameVersions now m t id metrics metadata s =
      elim (Option-cases (lookup m s.parameters)) [
        | inl absent ↦ rw (absent, create_checkpoint) (same_versions s)
        | inr (p, found) ↦ elim (Option-cases (lookup m s.current_versions)) [
          | inl absent ↦ rw (found, create_checkpoint, absent) (same_versions s)
          | inr (v, at) ↦
              rw (found, create_checkpoint, at)
                (checkpoint_found-SameVersions now m _ t metrics metadata v p s)
        ]
      ]
