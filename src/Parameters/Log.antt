-- ===== src/Parameters/Log.antt =====
-- The storage service read as a log: for each model the parameters ever stored, the newest first.
use mesh_ml.Prelude.{
  ℕ, suc, ◌+◌, ◌-◌, ◌≡◌, refl, sym, ap, ◌∙◌, String, true, false, ◌&&◌, Option, none, some, inl,
  inr, List, [], ◌∷◌, if◌then◌else◌, ◌=ˢ◌, eq_iff, ◌==◌, ltb, length, get_elem?, arith, Bool-cases,
}
use mesh_ml.Prelude.Dict.{Dict, lookup, contains, lookup-insert}
use mesh_ml.Parameters.Records.{Backend, Params, ParameterStorage, ParameterVersion}
use mesh_ml.Parameters.Storage.{
  new_version_record, persist_to_redis, load_from_redis, initialized, write_version, in_memory,
  version_of,
}
use mesh_ml.Parameters.Untouched.{SameVersions}

module _ {A : Type 0} where
  abbrev pub newest : List A → Option A
  newest [] = none
  newest (p ∷ log) = some p

  -- The version of the newest entry; the oldest has version 1.
  abbrev pub version_in : List A → Option ℕ
  version_in [] = none
  version_in (p ∷ log) = some (length (p ∷ log))

  -- The entry with version `v`, which is kept while fewer than `window` newer ones were stored.
  unfoldable pub entry : ℕ → List A → ℕ → Option A
  entry window log v =
      if v == 0
      then none
      else if ltb (length log) v
      then none
      else if ltb (length log) (v + window)
      then get_elem? log (length log - v)
      else none

  -- What a reader of version `v` should see: the newest entry, or one in the window.
  unfoldable pub expected : ℕ → List A → ℕ → Option A
  unfolding entry
  expected window [] v = none
  expected window (p ∷ log) v = if v == length (p ∷ log) then some p else entry window (p ∷ log) v

  -- One more entry pushes at most one out of the window.
  entry-cons :
      (window : ℕ) (p : A) (log : List A) (v : ℕ)
      → entry window (p ∷ log) v ≡ (
          if ltb window (length log + 1) && v == length log + 1 - window
          then none
          else if v == length log + 1
          then some p
          else entry window log v)
  unfolding entry
  entry-cons window p log v = elim (Bool-cases (ltb (length log) v)) [
    | inl new ↦ elim (Bool-cases (v == suc (length log))) [
      | inl top ↦ let e : suc (length log) - v ≡ 0 = ground arith in rw e (ground arith)
      | inr beyond ↦ ground arith
    ]
    | inr old ↦
        let e : suc (length log) - v ≡ suc (length log - v) = ground arith in rw e (ground arith)
  ]

  -- The same, for what is read in place of the older entries.
  entry-step :
      (window : ℕ) (p : A) (log : List A) (v n : ℕ) (x : Option A)
      → n ≡ length log + 1
      → x ≡ entry window log v
      → (if ltb window n && v == n - window then none else if v == n then some p else x)
        ≡ entry window (p ∷ log) v
  entry-step window p log v n x e f = rw (e, f) (sym (entry-cons window p log v))

module _ {b : Backend} where
  open b use {snapshots, current, load, save, load-save}

  load-persist :
      (m k : String) (n v : ℕ) (p : Params b) (s : ParameterStorage b)
      → load_from_redis k v (persist_to_redis m n p s) ≡ (
          if m =ˢ k
          then (if ltb s.param_version_history n && v == n - s.param_version_history
              then none
              else if v == n
              then some p
              else load_from_redis m v s)
          else load_from_redis k v s)
  unfolding load_from_redis persist_to_redis
  load-persist m k n v p s =
      let set_snapshots = snapshots.set (m, n) (save p) s.stored_snapshots in
      ground (
        arith,
        eq_iff m k,
        snapshots.get-set (m, n) (k, v) (save p) s.stored_snapshots,
        snapshots.get-delete (m, n - s.param_version_history) (k, v) set_snapshots,
        load-save p,
      )

pub load-cong :
    {b : Backend} (m : String) (v : ℕ) (s s' : ParameterStorage b)
    → s'.stored_snapshots ≡ s.stored_snapshots
    → load_from_redis m v s' ≡ load_from_redis m v s
unfolding load_from_redis
load-cong m v s s' e = ground (arith)

-- The service holds the log of model `m`, in memory and in the window of Redis.
pub record IsLogged {b : Backend} (m : String) (log : List (Params b)) (s : ParameterStorage b)
    : Type 0 where
  pub enabled : s.enable_redis ≡ true
  pub memory : lookup m s.parameters ≡ newest log
  pub counted : lookup m s.current_versions ≡ version_in log
  pub current : b.current.get m s.stored_current ≡ version_in log
  pub kept : (v : ℕ) → load_from_redis m v s ≡ entry s.param_version_history log v

module _ {b : Backend} where
  -- What `initialized` leaves alone.
  pub record Opened (k : String) (s s' : ParameterStorage b) : Type 0 where
    pub enabled : s'.enable_redis ≡ s.enable_redis
    pub window : s'.param_version_history ≡ s.param_version_history
    pub snapshots : s'.stored_snapshots ≡ s.stored_snapshots
    pub current : s'.stored_current ≡ s.stored_current
    pub others :
        (m : String)
        → (k =ˢ m) ≡ false
        → (lookup m s'.parameters ≡ lookup m s.parameters)
          × (lookup m s'.current_versions ≡ lookup m s.current_versions)

  pub initialized-Opened : (k : String) (s : ParameterStorage b) → Opened k s (initialized k s)
  unfolding initialized
  initialized-Opened k s = elim (Bool-cases (contains k s.parameters)) [
    | inl old ↦
        rw (old, initialized)
          (record {
            enabled = refl;
            window = refl;
            snapshots = refl;
            current = refl;
            others = λ m other. (refl, refl);
          })
    | inr new ↦
        rw (new, initialized)
          (record {
            enabled = refl;
            window = refl;
            snapshots = refl;
            current = refl;
            others = λ m other. (
              ground (arith, lookup-insert k m [] s.parameters),
              ground (arith, lookup-insert k m 0 s.current_versions),
            );
          })
  ]

  pub initialized-version :
      (k : String) (log : List (Params b)) (s : ParameterStorage b)
      → IsLogged k log s
      → version_of k (initialized k s).current_versions ≡ length log
  unfolding initialized
  initialized-version k [] s h =
      ground (arith, h.memory, eq_iff k k, lookup-insert k k 0 s.current_versions)
  initialized-version k (p ∷ log) s h = ground (arith, h.memory, h.counted)

  pub write_version-eq :
      (now : ℕ) (k : String) (p : Params b) (metadata : Option (Dict String))
      (s : ParameterStorage b)
      → s.enable_redis ≡ true
      → contains k s.version_history ≡ true
      → write_version now k p metadata s ≡ (
        persist_to_redis k (version_of k s.current_versions + 1) p (in_memory now k p metadata s),
        some (new_version_record b now k (version_of k s.current_versions + 1) metadata p),
      )
  unfolding write_version
  write_version-eq now k p metadata s on has = simp (on, has)

  pub persist-mine :
      (now : ℕ) (k : String) (p : Params b) (metadata : Option (Dict String))
      (log : List (Params b)) (s s1 : ParameterStorage b)
      → IsLogged k log s
      → Opened k s s1
      → version_of k s1.current_versions ≡ length log
      → IsLogged k (p ∷ log) (
          persist_to_redis k
            (version_of k s1.current_versions + 1)
            p
            (in_memory now k p metadata s1))
  unfolding persist_to_redis in_memory
  persist-mine now k p metadata log s s1 h o e = record {
    enabled = o.enabled ∙ h.enabled;
    memory = ground (arith, eq_iff k k, lookup-insert k k p s1.parameters);
    counted = ground (
      arith,
      eq_iff k k,
      lookup-insert k k (version_of k s1.current_versions + 1) s1.current_versions,
    );
    current = ground (
      arith,
      eq_iff k k,
      b.current.get-set k k (version_of k s1.current_versions + 1) s1.stored_current,
    );
    kept = λ v.
        let written = in_memory now k p metadata s1 in
        let n = version_of k s1.current_versions + 1 in
        load-persist k k n v p written
        ∙ ground (
          arith,
          eq_iff k k,
          entry-step s1.param_version_history p log v n (load_from_redis k v written)
              (omega (arith, e))
              (load-cong k v s written o.snapshots
                ∙ h.kept v
                ∙ ap (λ w. entry w log v) (sym o.window)),
        );
  }

  pub persist-other :
      (now : ℕ) (k m : String) (p : Params b) (metadata : Option (Dict String))
      (log : List (Params b)) (s s1 : ParameterStorage b)
      → (k =ˢ m) ≡ false
      → IsLogged m log s
      → Opened k s s1
      → IsLogged m log (
          persist_to_redis k
            (version_of k s1.current_versions + 1)
            p
            (in_memory now k p metadata s1))
  unfolding persist_to_redis in_memory
  persist-other now k m p metadata log s s1 other h o =
      let (same, versions) = o.others m other in
      record {
        enabled = o.enabled ∙ h.enabled;
        memory = ground (arith, lookup-insert k m p s1.parameters, h.memory);
        counted = ground (
          arith,
          lookup-insert k m (version_of k s1.current_versions + 1) s1.current_versions,
          h.counted,
        );
        current = ground (
          arith,
          b.current.get-set k m (version_of k s1.current_versions + 1) s1.stored_current,
          h.current,
          o.current,
        );
        kept = λ v.
            let written = in_memory now k p metadata s1 in
            load-persist k m (version_of k s1.current_versions + 1) v p written
            ∙ ground (arith, load-cong m v s written o.snapshots, h.kept v, o.window);
      }

  pub SameVersions-IsLogged :
      (m : String) (log : List (Params b)) (s s' : ParameterStorage b)
      → SameVersions s s'
      → IsLogged m log s
      → IsLogged m log s'
  SameVersions-IsLogged m log s s' same h = record {
    enabled = same.enabled ∙ h.enabled;
    memory = ap (lookup m) same.memory ∙ h.memory;
    counted = ap (lookup m) same.versions ∙ h.counted;
    current = ap (b.current.get m) same.current ∙ h.current;
    kept = λ v.
        load-cong m v s s' same.snapshots ∙ h.kept v ∙ ap (λ w. entry w log v) (sym same.window);
  }

  -- The histories have no part in the log.
  pub forgotten-IsLogged :
      (m : String) (log : List (Params b)) (history : Dict (List ParameterVersion))
      (s : ParameterStorage b)
      → IsLogged m log s
      → IsLogged m log (record s { version_history = history })
  forgotten-IsLogged m log history s h = record {
    enabled = h.enabled;
    memory = h.memory;
    counted = h.counted;
    current = h.current;
    kept = λ v. load-cong m v s _ refl ∙ h.kept v;
  }
