-- ===== src/Parameters/Histories.antt =====
-- The histories of the versions: which models have one, so that storing their parameters does not raise.
use mesh_ml.Prelude.{
  ℕ, ◌+◌, ◌≡◌, refl, sym, ap, ◌∙◌, subst, String, true, Option, none, some, [], ◌∷◌, ◌++◌, ◌=ˢ◌,
  if◌then◌else◌, eq_iff, arith, Bool-cases, Option-cases, inl, inr,
}
use mesh_ml.Prelude.Dict.{Dict, lookup, insert, contains, lookup-insert}
use mesh_ml.Parameters.Records.{Backend, Params, ParameterStorage, ParameterVersion, CheckpointType}
use mesh_ml.Parameters.Checkpoints.{find_checkpoint, saved_key, listed}
use mesh_ml.Parameters.Storage.{
  new_version_record, version_of, persist_to_redis, in_memory, initialized, store_parameters,
  with_checkpoint, returning, history_of, update_parameter, restored, load_checkpoint,
  get_latest_parameters,
}
use mesh_ml.Parameters.Untouched.{SameVersions, same_versions, create_checkpoint-SameVersions}
use mesh_ml.Parameters.Log.{write_version-eq, initialized-Opened}

contains-insert :
    {V : Type 0} (k m : String) (x : V) (d : Dict V)
    → contains m (insert k x d) ≡ (if k =ˢ m then true else contains m d)
contains-insert k m x d = ground (arith, lookup-insert k m x d)

module _ {b : Backend} where
  -- Each model in memory has a history.
  abbrev pub IsComplete : ParameterStorage b → Type 0
  IsComplete s = (m : String) → contains m s.parameters ≡ true → contains m s.version_history ≡ true

  pub initialized-has :
      (k : String) (s : ParameterStorage b)
      → IsComplete s
      → contains k (initialized k s).version_history ≡ true
  unfolding initialized
  initialized-has k s inv = elim (Bool-cases (contains k s.parameters)) [
    | inl old ↦ rw (old, initialized) (inv k old)
    | inr new ↦
        rw (new, initialized) (ground (arith, eq_iff k k, lookup-insert k k [] s.version_history))
  ]

  initialized-IsComplete :
      (k : String) (s : ParameterStorage b) → IsComplete s → IsComplete (initialized k s)
  unfolding initialized
  initialized-IsComplete k s inv m = elim (Bool-cases (contains k s.parameters)) [
    | inl old ↦ rw (old, initialized) (inv m)
    | inr new ↦
        rw (new, initialized)
          λ h. ground (
            arith,
            inv m,
            lookup-insert k m [] s.parameters,
            lookup-insert k m [] s.version_history,
          )
  ]

  pub SameVersions-IsComplete :
      (s s' : ParameterStorage b) → SameVersions s s' → IsComplete s → IsComplete s'
  SameVersions-IsComplete s s' same inv m h =
      ap (contains m) same.history ∙ inv m (ap (contains m) (sym same.memory) ∙ h)

  -- A model with a history is stored, and then a checkpoint is made if one is asked for.
  pub store_parameters-eq :
      (now : ℕ) (k : String) (p : Params b) (metadata : Option (Dict String))
      (t : Option CheckpointType) (s : ParameterStorage b)
      → (initialized k s).enable_redis ≡ true
      → contains k (initialized k s).version_history ≡ true
      → let s1 = initialized k s in
        let n = version_of k s1.current_versions + 1 in
        store_parameters now k p metadata t s
        ≡ with_checkpoint now k metadata t (
          persist_to_redis k n p (in_memory now k p metadata s1),
          some (new_version_record b now k n metadata p),
        )
  unfolding store_parameters
  store_parameters-eq now k p metadata t s on has =
      ap (with_checkpoint now k metadata t)
        (write_version-eq now k p metadata (initialized k s) on has)

  pub with_checkpoint-SameVersions :
      (now : ℕ) (k : String) (metadata : Option (Dict String)) (t : Option CheckpointType)
      (stored : ParameterStorage b) (version : ParameterVersion)
      → SameVersions stored (with_checkpoint now k metadata t (stored, some version)).0
  with_checkpoint-SameVersions now k metadata none stored version = same_versions stored
  with_checkpoint-SameVersions now k metadata (some t) stored version =
      create_checkpoint-SameVersions now k t none none metadata stored

  with_checkpoint-version :
      (now : ℕ) (k : String) (metadata : Option (Dict String)) (t : Option CheckpointType)
      (stored : ParameterStorage b) (version : ParameterVersion)
      → (with_checkpoint now k metadata t (stored, some version)).1 ≡ some version
  with_checkpoint-version now k metadata none stored version = refl
  with_checkpoint-version now k metadata (some t) stored version = refl

  -- A model that is written with its history.
  written-IsComplete :
      (now : ℕ) (k : String) (p : Params b) (metadata : Option (Dict String)) (n : ℕ)
      (s : ParameterStorage b)
      → IsComplete s
      → IsComplete (persist_to_redis k n p (in_memory now k p metadata s))
  unfolding persist_to_redis in_memory
  written-IsComplete now k p metadata n s inv m h =
      let versions =
        history_of k s.version_history
        ++ new_version_record b now k (version_of k s.current_versions + 1) metadata p ∷ [] in
      contains-insert k m versions s.version_history ∙ elim (Bool-cases (k =ˢ m)) [
        | inl mine ↦ rw mine refl
        | inr other ↦ rw other (inv m (ground (arith, contains-insert k m p s.parameters)))
      ]

  initialized-enabled :
      (k : String) (s : ParameterStorage b) → (initialized k s).enable_redis ≡ s.enable_redis
  initialized-enabled k s = (initialized-Opened k s).enabled

  -- Where each model in memory has a history, a store keeps it so: every model in memory has a
  -- history after it.
  pub store_parameters-IsComplete :
      (now : ℕ) (k : String) (p : Params b) (metadata : Option (Dict String))
      (t : Option CheckpointType) (s : ParameterStorage b)
      → (initialized k s).enable_redis ≡ true
      → IsComplete s
      → IsComplete (store_parameters now k p metadata t s).0
  store_parameters-IsComplete now k p metadata t s on inv =
      let s1 = initialized k s in
      let n = version_of k s1.current_versions + 1 in
      let written = persist_to_redis k n p (in_memory now k p metadata s1) in
      rw (store_parameters-eq now k p metadata t s on (initialized-has k s inv)) (
        SameVersions-IsComplete written _ (with_checkpoint-SameVersions now k metadata t written _)
          (written-IsComplete now k p metadata n s1 (initialized-IsComplete k s inv)))

  -- A store into a model with a history returns a version.
  pub store_parameters-some :
      (now : ℕ) (k : String) (p : Params b) (metadata : Option (Dict String))
      (t : Option CheckpointType) (s : ParameterStorage b)
      → (initialized k s).enable_redis ≡ true
      → IsComplete s
      → (version : ParameterVersion) × ((store_parameters now k p metadata t s).1 ≡ some version)
  store_parameters-some now k p metadata t s on inv =
      let s1 = initialized k s in
      let n = version_of k s1.current_versions + 1 in
      let written = persist_to_redis k n p (in_memory now k p metadata s1) in
      let version = new_version_record b now k n metadata p in
      (
        version,
        ap (λ o. o.1) (store_parameters-eq now k p metadata t s on (initialized-has k s inv))
            ∙ with_checkpoint-version now k metadata t written version,
      )

  pub returning-state :
      {A : Type 0} (a : A) (stored : ParameterStorage b × Option ParameterVersion)
      → (returning a stored).0 ≡ stored.0
  returning-state a (s, none) = refl
  returning-state a (s, some version) = refl

  pub returning-some :
      {A : Type 0} (a : A) (stored : ParameterStorage b × Option ParameterVersion)
      {version : ParameterVersion}
      → stored.1 ≡ some version
      → (returning a stored).1 ≡ some a
  returning-some a (s, none) h = absurd (cc)
  returning-some a (s, some version) h = refl

  -- The parameters of a model that is there are replaced.
  pub replaced-IsComplete :
      (k : String) (p q : Params b) (s : ParameterStorage b)
      → lookup k s.parameters ≡ some p
      → IsComplete s
      → IsComplete (record s { parameters = insert k q s.parameters })
  replaced-IsComplete k p q s found inv m h = elim (Bool-cases (k =ˢ m)) [
    | inl mine ↦
        subst (λ j. contains j s.version_history ≡ true) ((eq_iff k m).0 mine)
          (inv k (rw found refl))
    | inr other ↦ inv m (ground (arith, contains-insert k m q s.parameters))
  ]

  -- The other call that stores nothing: it may write a current version only.
  pub latest-IsComplete :
      (k : String) (s : ParameterStorage b)
      → IsComplete s
      → IsComplete (get_latest_parameters k s).0
  unfolding get_latest_parameters
  latest-IsComplete k s inv m h =
      let memory : (get_latest_parameters k s).0.parameters ≡ s.parameters = ground arith in
      let history : (get_latest_parameters k s).0.version_history ≡ s.version_history =
        ground arith in
      ap (contains m) history ∙ inv m (ap (contains m) (sym memory) ∙ h)

  pub update-IsComplete :
      (now : ℕ) (k name : String) (value : b.Tensor) (s : ParameterStorage b)
      → s.enable_redis ≡ true
      → IsComplete s
      → IsComplete (update_parameter now k name value true s).0
  unfolding update_parameter
  update-IsComplete now k name value s on inv = elim (Option-cases (lookup k s.parameters)) [
    | inl absent ↦ rw (absent, update_parameter) inv
    | inr (p, found) ↦ elim (Bool-cases (contains name p)) [
      | inr hasnt ↦ rw (found, update_parameter, hasnt) inv
      | inl has ↦
          let s' = record s { parameters = insert k (insert name value p) s.parameters } in
          rw
            (
              found,
              update_parameter,
              has,
              returning-state true (store_parameters now k (insert name value p) none none s'),
            )
            (store_parameters-IsComplete now k (insert name value p) none none s'
              (initialized-enabled k s' ∙ on)
              (replaced-IsComplete k p (insert name value p) s found inv))
    ]
  ]

  restored-IsComplete :
      (now : ℕ) (k : String) (note : Dict String) (p : Params b) (s : ParameterStorage b)
      → s.enable_redis ≡ true
      → IsComplete s
      → IsComplete (restored now k true note p s).0
  unfolding restored
  restored-IsComplete now k note [] s on inv = inv
  restored-IsComplete now k note (e ∷ p) s on inv =
      rw (returning-state (some (e ∷ p)) (store_parameters now k (e ∷ p) (some note) none s)) (
        store_parameters-IsComplete now k (e ∷ p) (some note) none s (initialized-enabled k s ∙ on)
          inv)

  pub restore-IsComplete :
      (now : ℕ) (k id : String) (note : Dict String) (s : ParameterStorage b)
      → s.enable_redis ≡ true
      → IsComplete s
      → IsComplete (load_checkpoint now k id true note s).0
  unfolding load_checkpoint
  restore-IsComplete now k id note s on inv =
      elim (Option-cases (find_checkpoint id (listed k s.checkpoints))) [
        | inl absent ↦ rw (absent, load_checkpoint) inv
        | inr (c, found) ↦ elim (Option-cases (saved_key c)) [
          | inl unsaved ↦ rw (found, load_checkpoint, unsaved) inv
          | inr (key, saved) ↦ elim (Option-cases (b.packages.get key s.stored_packages)) [
            | inl gone ↦
                let e : load_checkpoint now k id true note s ≡ (s, some none) =
                  rw (found, load_checkpoint, saved) (simp (on, gone)) in
                rw e inv
            | inr (bytes, there) ↦
                let e : load_checkpoint now k id true note s
                    ≡ restored now k true note (b.unpack bytes) s =
                  rw (found, load_checkpoint, saved) (simp (on, there)) in
                rw e (restored-IsComplete now k note (b.unpack bytes) s on inv)
          ]
        ]
      ]
