-- ===== src/Parameters/Replay.antt =====
-- The storage service under any sequence of calls, and the logs that the calls amount to.
use mesh_ml.Prelude.{
  ℕ, ◌+◌, ◌≡◌, refl, sym, ◌∙◌, subst, String, true, Option, none, some, inl, inr, List, [], ◌∷◌,
  if◌then◌else◌, ◌=ˢ◌, eq_iff, length, arith, Option-cases, Bool-cases,
}
use mesh_ml.Prelude.Dict.{Dict, lookup, insert, contains, lookup-insert}
use mesh_ml.Parameters.Records.{Backend, Params, Checkpoint, ParameterStorage, CheckpointType}
use mesh_ml.Parameters.Checkpoints.{
  create_checkpoint, delete_checkpoint, find_checkpoint, saved_key, listed,
}
use mesh_ml.Parameters.Storage.{
  persist_to_redis, load_from_redis, initialized, in_memory, version_of, store_parameters,
  update_parameter, is_empty, restored, load_checkpoint, get_latest_parameters,
}
use mesh_ml.Parameters.Histories.{
  IsComplete, initialized-has, store_parameters-eq, with_checkpoint-SameVersions,
  store_parameters-some, returning-state, returning-some, replaced-IsComplete,
}
use mesh_ml.Parameters.Untouched.{create_checkpoint-SameVersions, delete_checkpoint-SameVersions}
use mesh_ml.Parameters.Log.{
  newest, load-cong, version_in, IsLogged, Opened, initialized-Opened, initialized-version,
  persist-mine, persist-other, SameVersions-IsLogged,
}

-- For each model the parameters ever stored, the newest first.
abbrev pub Logs : Backend → Type 0
Logs b = String → List (Params b)

abbrev pub recorded : {A : Type 0} → String → A → (String → List A) → String → List A
recorded k p logs m = if k =ˢ m then p ∷ logs m else logs m

-- A parameter that is there is replaced in the newest entry.
abbrev pub updated_log :
    {V : Type 0}
    → String
    → String
    → V
    → Option (Dict V)
    → (String → List (Dict V))
    → String
    → List (Dict V)
updated_log k name value none logs = logs
updated_log k name value (some p) logs =
    if contains name p then recorded k (insert name value p) logs else logs

-- Nothing is restored from an empty checkpoint. A call that raises, `none`, is left out of account.
abbrev pub restored_log :
    {V : Type 0}
    → String
    → Option (Option (Dict V))
    → (String → List (Dict V))
    → String
    → List (Dict V)
restored_log k none logs = logs
restored_log k (some none) logs = logs
restored_log k (some (some p)) logs = if is_empty p then logs else recorded k p logs

abbrev pub Holds : {b : Backend} → Logs b → ParameterStorage b → Type 0
Holds logs s = (m : String) → IsLogged m (logs m) s

pub data StorageCall (b : Backend) : Type 0 where
  store : String → Params b → Option (Dict String) → Option CheckpointType → StorageCall b
  update : String → String → b.Tensor → StorageCall b
  restore : String → String → Dict String → StorageCall b
  checkpoint :
      String
      → CheckpointType
      → Option String
      → Option (Dict String)
      → Option (Dict String)
      → StorageCall b
  delete : String → String → StorageCall b
  latest : String → StorageCall b

module _ {b : Backend} where
  -- The calls that may change the service. `update` makes a new version.
  unfoldable pub perform_call : ℕ → StorageCall b → ParameterStorage b → ParameterStorage b
  perform_call now (store k p metadata t) s = (store_parameters now k p metadata t s).0
  perform_call now (update k name value) s = (update_parameter now k name value true s).0
  perform_call now (restore k id note) s = (load_checkpoint now k id true note s).0
  perform_call now (checkpoint k t id metrics metadata) s =
      (create_checkpoint now k t id metrics metadata s).0
  perform_call now (delete k id) s = (delete_checkpoint k id s).0
  perform_call now (latest k) s = (get_latest_parameters k s).0

  -- What a call does to the logs. A restored checkpoint is what the call returns.
  unfoldable pub replay_call : ℕ → StorageCall b → ParameterStorage b → Logs b → Logs b
  replay_call now (store k p metadata t) s logs = recorded k p logs
  replay_call now (update k name value) s logs = updated_log k name value (newest (logs k)) logs
  replay_call now (restore k id note) s logs =
      restored_log k (load_checkpoint now k id true note s).1 logs
  replay_call now (checkpoint k t id metrics metadata) s logs = logs
  replay_call now (delete k id) s logs = logs
  replay_call now (latest k) s logs = logs

  -- A version that is written, in memory and in Redis.
  pub written-Holds :
      (now : ℕ) (k : String) (p : Params b) (metadata : Option (Dict String)) (logs : Logs b)
      (s s1 : ParameterStorage b)
      → Holds logs s
      → Opened k s s1
      → version_of k s1.current_versions ≡ length (logs k)
      → Holds (recorded k p logs) (
          persist_to_redis k
            (version_of k s1.current_versions + 1)
            p
            (in_memory now k p metadata s1))
  written-Holds now k p metadata logs s s1 h o e m = elim (Bool-cases (k =ˢ m)) [
    | inl mine ↦
        subst (λ j. IsLogged j (recorded k p logs j) written) ((eq_iff k m).0 mine)
          (rw ((eq_iff k k).1 refl) (persist-mine now k p metadata (logs k) s s1 (h k) o e))
    | inr other ↦ rw other (persist-other now k m p metadata (logs m) s s1 other (h m) o)
  ]
    where
      written : ParameterStorage b
      written =
          persist_to_redis k (version_of k s1.current_versions + 1) p
            (in_memory now k p metadata s1)

  -- The same with the checkpoint that a store may make, for a model that has a history.
  store-Holds :
      (now : ℕ) (k : String) (p : Params b) (metadata : Option (Dict String))
      (t : Option CheckpointType) (logs : Logs b) (s s' : ParameterStorage b)
      → Holds logs s
      → Opened k s (initialized k s')
      → version_of k (initialized k s').current_versions ≡ length (logs k)
      → IsComplete s'
      → Holds (recorded k p logs) (store_parameters now k p metadata t s').0
  store-Holds now k p metadata t logs s s' h o e inv m =
      let s1 = initialized k s' in
      let written =
        persist_to_redis k (version_of k s1.current_versions + 1) p
          (in_memory now k p metadata s1) in
      rw
        (store_parameters-eq now k p metadata t s' (o.enabled ∙ (h k).enabled)
          (initialized-has k s' inv))
        (SameVersions-IsLogged m (recorded k p logs m) written _
          (with_checkpoint-SameVersions now k metadata t written _)
          (written-Holds now k p metadata logs s s1 h o e m))

  plain_store-Holds :
      (now : ℕ) (k : String) (p : Params b) (metadata : Option (Dict String))
      (t : Option CheckpointType) (logs : Logs b) (s : ParameterStorage b)
      → Holds logs s
      → IsComplete s
      → Holds (recorded k p logs) (store_parameters now k p metadata t s).0
  plain_store-Holds now k p metadata t logs s h =
      store-Holds now k p metadata t logs s s h (initialized-Opened k s)
        (initialized-version k (logs k) s (h k))

  -- A change in memory of a model that is there.
  updated-initialized :
      (k : String) (p q : Params b) (s : ParameterStorage b)
      → initialized k (record s { parameters = insert k q s.parameters })
        ≡ record s { parameters = insert k q s.parameters }
  unfolding initialized
  updated-initialized k p q s =
      let there : contains k (insert k q s.parameters) ≡ true =
        ground (arith, eq_iff k k, lookup-insert k k q s.parameters) in
      rw (there, initialized) refl

  updated-Opened :
      (k : String) (p q : Params b) (s : ParameterStorage b)
      → lookup k s.parameters ≡ some p
      → Opened k s (initialized k (record s { parameters = insert k q s.parameters }))
  updated-Opened k p q s found = rw (updated-initialized k p q s) (record {
    enabled = refl;
    window = refl;
    snapshots = refl;
    current = refl;
    others = λ m other. (ground (arith, lookup-insert k m q s.parameters), refl);
  })

  updated-version :
      (k : String) (q : Params b) (log : List (Params b)) (s : ParameterStorage b) (p : Params b)
      → lookup k s.parameters ≡ some p
      → IsLogged k log s
      → version_of k
          (initialized k (record s { parameters = insert k q s.parameters })).current_versions
        ≡ length log
  updated-version k q [] s p found h = ground (arith, h.memory)
  updated-version k q (r ∷ log) s p found h =
      rw (updated-initialized k p q s) (ground (arith, h.counted))

  update-Holds :
      (now : ℕ) (k name : String) (value : b.Tensor) (logs : Logs b) (s : ParameterStorage b)
      → Holds logs s
      → IsComplete s
      → Holds
          (updated_log k name value (newest (logs k)) logs)
          (update_parameter now k name value true s).0
  unfolding update_parameter
  update-Holds now k name value logs s h inv = elim (Option-cases (lookup k s.parameters)) [
    | inl absent ↦
        let e : newest (logs k) ≡ none = sym (h k).memory ∙ absent in
        rw (absent, update_parameter, e) h
    | inr (p, found) ↦
        let e : newest (logs k) ≡ some p = sym (h k).memory ∙ found in
        elim (Bool-cases (contains name p)) [
          | inl has ↦
              rw
                (
                  found,
                  update_parameter,
                  has,
                  returning-state true (
                      store_parameters now k (insert name value p) none none
                        (record s { parameters = insert k (insert name value p) s.parameters })),
                  e,
                  has,
                )
                (store-Holds now k (insert name value p) none none logs s
                  (record s { parameters = insert k (insert name value p) s.parameters }) h
                  (updated-Opened k p (insert name value p) s found)
                  (updated-version k (insert name value p) (logs k) s p found (h k))
                  (replaced-IsComplete k p (insert name value p) s found inv))
          | inr hasnt ↦ rw (found, update_parameter, hasnt, e, hasnt) h
        ]
  ]

  restored-Holds :
      (now : ℕ) (k : String) (note : Dict String) (p : Params b) (logs : Logs b)
      (s : ParameterStorage b)
      → Holds logs s
      → IsComplete s
      → Holds
          (restored_log k (restored now k true note p s).1 logs)
          (restored now k true note p s).0
  unfolding restored
  restored-Holds now k note [] logs s h inv = h
  restored-Holds now k note (e ∷ p) logs s h inv =
      let (version, stored) =
        store_parameters-some now k (e ∷ p) (some note) none s
          ((initialized-Opened k s).enabled ∙ (h k).enabled) inv in
      rw
        (
          returning-state (some (e ∷ p)) (store_parameters now k (e ∷ p) (some note) none s),
          returning-some (some (e ∷ p)) (store_parameters now k (e ∷ p) (some note) none s) stored,
        )
        (plain_store-Holds now k (e ∷ p) (some note) none logs s h inv)

  module _ (now : ℕ) (k id key : String) (note : Dict String) (s : ParameterStorage b)
      (c : Checkpoint) (found : find_checkpoint id (listed k s.checkpoints) ≡ some c)
      (saved : saved_key c ≡ some key) (on : s.enable_redis ≡ true) where
    load_checkpoint-gone :
        b.packages.get key s.stored_packages ≡ none
        → load_checkpoint now k id true note s ≡ (s, some none)
    unfolding load_checkpoint
    load_checkpoint-gone gone = rw (found, load_checkpoint, saved) (simp (on, gone))

    load_checkpoint-there :
        (bytes : b.Bytes)
        → b.packages.get key s.stored_packages ≡ some bytes
        → load_checkpoint now k id true note s ≡ restored now k true note (b.unpack bytes) s
    unfolding load_checkpoint
    load_checkpoint-there bytes there = rw (found, load_checkpoint, saved) (simp (on, there))

  restore-Holds :
      (now : ℕ) (k id : String) (note : Dict String) (logs : Logs b) (s : ParameterStorage b)
      → Holds logs s
      → IsComplete s
      → Holds
          (restored_log k (load_checkpoint now k id true note s).1 logs)
          (load_checkpoint now k id true note s).0
  unfolding load_checkpoint
  restore-Holds now k id note logs s h inv =
      elim (Option-cases (find_checkpoint id (listed k s.checkpoints))) [
        | inl absent ↦ rw (absent, load_checkpoint) h
        | inr (c, found) ↦ elim (Option-cases (saved_key c)) [
          | inl unsaved ↦ rw (found, load_checkpoint, unsaved) h
          | inr (key, saved) ↦ elim (Option-cases (b.packages.get key s.stored_packages)) [
            | inl gone ↦
                rw (load_checkpoint-gone now k id key note s c found saved (h k).enabled gone) h
            | inr (bytes, there) ↦
                rw
                  (load_checkpoint-there now k id key note s c found saved (h k).enabled bytes
                    there)
                  (restored-Holds now k note (b.unpack bytes) logs s h inv)
          ]
        ]
      ]

  -- The current version is written again.
  rewritten-IsLogged :
      (k m : String) (v : ℕ) (logs : Logs b) (s : ParameterStorage b)
      → version_in (logs k) ≡ some v
      → Holds logs s
      → IsLogged m (logs m) (record s { current_versions = insert k v s.current_versions })
  rewritten-IsLogged k m v logs s e h = record {
    enabled = (h m).enabled;
    memory = (h m).memory;
    counted = elim (Bool-cases (k =ˢ m)) [
      | inl mine ↦
          subst (λ j. lookup j (insert k v s.current_versions) ≡ version_in (logs j))
            ((eq_iff k m).0 mine)
            (ground (arith, eq_iff k k, lookup-insert k k v s.current_versions))
      | inr other ↦ ground (arith, lookup-insert k m v s.current_versions, (h m).counted)
    ];
    current = (h m).current;
    kept = λ w. load-cong m w s _ refl ∙ (h m).kept w;
  }

  pub latest-Holds :
      (k : String) (logs : Logs b) (s : ParameterStorage b)
      → Holds logs s
      → Holds logs (get_latest_parameters k s).0
  unfolding get_latest_parameters
  latest-Holds k logs s h = elim (Option-cases (b.current.get k s.stored_current)) [
    | inl unknown ↦
        let e : (get_latest_parameters k s).0 ≡ s = simp ((h k).enabled, unknown) in rw e h
    | inr (v, at) ↦ elim (Option-cases (load_from_redis k v s)) [
      | inl gone ↦
          let e : (get_latest_parameters k s).0 ≡ s = simp ((h k).enabled, at, gone) in rw e h
      | inr (p, there) ↦
          let e : (get_latest_parameters k s).0
              ≡ record s { current_versions = insert k v s.current_versions } =
            simp ((h k).enabled, at, there) in
          rw e λ m. rewritten-IsLogged k m v logs s (sym (h k).current ∙ at) h
    ]
  ]

  pub perform-Holds :
      (now : ℕ) (call : StorageCall b) (logs : Logs b) (s : ParameterStorage b)
      → Holds logs s
      → IsComplete s
      → Holds (replay_call now call s logs) (perform_call now call s)
  unfolding perform_call replay_call
  perform-Holds now (store k p metadata t) logs s h inv =
      plain_store-Holds now k p metadata t logs s h inv
  perform-Holds now (update k name value) logs s h inv = update-Holds now k name value logs s h inv
  perform-Holds now (restore k id note) logs s h inv = restore-Holds now k id note logs s h inv
  perform-Holds now (checkpoint k t id metrics metadata) logs s h inv = λ m.
      SameVersions-IsLogged m (logs m) s _
        (create_checkpoint-SameVersions now k t id metrics metadata s) (h m)
  perform-Holds now (delete k id) logs s h inv =
      λ m. SameVersions-IsLogged m (logs m) s _ (delete_checkpoint-SameVersions k id s) (h m)
  perform-Holds now (latest k) logs s h inv = latest-Holds k logs s h
