-- ===== src/Parameters/Restore.antt =====
-- The way of a checkpoint to Redis and back.
use mesh_ml.Prelude.{
  ℕ, ◌≡◌, refl, ap, ◌∙◌, String, true, false, Option, none, some, inl, inr, List, [], ◌∷◌, ◌++◌,
  ◌=ˢ◌, eq_iff, arith, Option-cases,
}
use mesh_ml.Prelude.Dict.{Dict, lookup, insert, lookup-insert}
use mesh_ml.Parameters.Records.{Backend, Params, CheckpointType, Checkpoint, ParameterStorage}
use mesh_ml.Parameters.Checkpoints.{
  is_kept, is_protected, find_checkpoint, saved_key, pop_checkpoint, expired, listed,
  checkpoint_key, new_checkpoint, forget_package, delete_checkpoint, delete_each,
  enforce_checkpoint_retention, save_package, append_checkpoint, checkpoint_found,
  create_checkpoint,
}
use mesh_ml.Parameters.Storage.{load_checkpoint, restored}
use mesh_ml.Parameters.Retention.{times, others, times-expired}
use mesh_ml.Parameters.Keys.{
  IsKeyed, key_apart, when_on, pop-IsKeyed, find-pop, found-key, append-IsKeyed, find-append,
  others-append, times-absent,
}

-- Checkpoint `id` of the model is listed, and its package has the parameters.
record IsSaved {b : Backend} (m id : String) (p : Params b) (s : ParameterStorage b) : Type 0 where
  enabled : s.enable_redis ≡ true
  checkpoint : Checkpoint
  list : List Checkpoint
  at : lookup m s.checkpoints ≡ some list
  found : find_checkpoint id list ≡ some checkpoint
  keyed : IsKeyed m list
  bytes : b.Bytes
  saved : b.packages.get (checkpoint_key m id) s.stored_packages ≡ some bytes
  content : b.unpack bytes ≡ p

module _ {b : Backend} where
  forget_package-eq :
      (key : String) (c : Checkpoint) (s : ParameterStorage b)
      → saved_key c ≡ some key
      → forget_package c s ≡ record s { stored_packages = b.packages.delete key s.stored_packages }
  unfolding forget_package
  forget_package-eq key c s e = rw (e, forget_package) refl

  -- Another checkpoint of the model is deleted.
  delete-IsSaved :
      (m id j : String) (p : Params b) (s : ParameterStorage b)
      → (j =ˢ id) ≡ false
      → IsSaved m id p s
      → IsSaved m id p (delete_checkpoint m j s).0
  unfolding delete_checkpoint
  delete-IsSaved m id j p s other h = elim (Option-cases (find_checkpoint j h.list)) [
    | inl absent ↦ rw (h.at, delete_checkpoint, absent) h
    | inr (d, found) ↦
        let e : (delete_checkpoint m j s).0 ≡ record s {
          checkpoints = insert m (pop_checkpoint j h.list) s.checkpoints;
          stored_packages = b.packages.delete (checkpoint_key m j) s.stored_packages;
        } =
          rw (h.at, delete_checkpoint, found)
            (when_on s.enable_redis _ h.enabled (
              forget_package-eq (checkpoint_key m j) d
                (record s { checkpoints = insert m (pop_checkpoint j h.list) s.checkpoints })
                (found-key m j h.list d h.keyed found))) in
        rw e (record {
          enabled = h.enabled;
          checkpoint = h.checkpoint;
          list = pop_checkpoint j h.list;
          at =
              ground (arith, eq_iff m m, lookup-insert m m (pop_checkpoint j h.list) s.checkpoints);
          found = find-pop id j h.list other ∙ h.found;
          keyed = pop-IsKeyed m j h.list h.keyed;
          bytes = h.bytes;
          saved = ground (
            arith,
            h.saved,
            key_apart m id j other,
            b.packages.get-delete (checkpoint_key m j) (checkpoint_key m id) s.stored_packages,
          );
          content = h.content;
        })
  ]

  delete_each-IsSaved :
      (m id : String) (p : Params b) (ds : List Checkpoint) (s : ParameterStorage b)
      → times id ds ≡ 0
      → IsSaved m id p s
      → IsSaved m id p (delete_each m ds s)
  unfolding delete_each
  delete_each-IsSaved m id p [] s apart h = h
  delete_each-IsSaved m id p (d ∷ ds) s apart h =
      delete_each-IsSaved m id p ds (delete_checkpoint m d.checkpoint_id s).0 (ground arith)
        (delete-IsSaved m id d.checkpoint_id p s (ground (arith, eq_iff d.checkpoint_id id)) h)

  retention-IsSaved :
      (m id : String) (p : Params b) (cs : List Checkpoint) (s : ParameterStorage b)
      → lookup m s.checkpoints ≡ some cs
      → times id (others cs) ≡ 0
      → IsSaved m id p s
      → IsSaved m id p (enforce_checkpoint_retention m s)
  unfolding enforce_checkpoint_retention
  retention-IsSaved m id p cs s at apart h =
      rw (at, enforce_checkpoint_retention)
        (delete_each-IsSaved m id p (expired s.checkpoint_retention cs) s
          (omega (arith, apart, times-expired id s.checkpoint_retention cs)) h)

  save_package-eq :
      (c : Checkpoint) (p : Params b) (s : ParameterStorage b)
      → s.enable_redis ≡ true
      → save_package c p s ≡ (
        record s {
          stored_packages =
              b.packages.set
                (checkpoint_key c.model_id c.checkpoint_id)
                (b.pack c p)
                s.stored_packages;
        },
        record c { redis_key = some (checkpoint_key c.model_id c.checkpoint_id) },
      )
  unfolding save_package
  save_package-eq c p s on = when_on s.enable_redis _ on refl

  append-IsSaved :
      (m : String) (p : Params b) (c : Checkpoint) (s : ParameterStorage b)
      → s.enable_redis ≡ true
      → times c.checkpoint_id (listed m s.checkpoints) ≡ 0
      → IsKeyed m (listed m s.checkpoints)
      → c.model_id ≡ m
      → let saved = save_package c p s in
        IsSaved m c.checkpoint_id p (append_checkpoint m saved.1 saved.0)
  unfolding append_checkpoint
  append-IsSaved m p c s on fresh keyed mine =
      let key = checkpoint_key m c.checkpoint_id in
      let c' : Checkpoint = record c {
        redis_key = some (checkpoint_key c.model_id c.checkpoint_id);
      } in
      let cs = listed m s.checkpoints in
      rw (save_package-eq c p s on) (record {
        enabled = on;
        checkpoint = c';
        list = cs ++ c' ∷ [];
        at = ground (arith, eq_iff m m, lookup-insert m m (cs ++ c' ∷ []) s.checkpoints);
        found = find-append cs c' fresh;
        keyed =
            append-IsKeyed m cs c' keyed (ap (λ k. some (checkpoint_key k c.checkpoint_id)) mine);
        bytes = b.pack c p;
        saved = rw mine (
            ground
              (arith, eq_iff key key, b.packages.get-set key key (b.pack c p) s.stored_packages));
        content = b.unpack-pack c p;
      })

  append-listed :
      (m : String) (p : Params b) (c : Checkpoint) (s : ParameterStorage b)
      → s.enable_redis ≡ true
      → lookup m (append_checkpoint m (save_package c p s).1 (save_package c p s).0).checkpoints
        ≡ some (
            listed m s.checkpoints
            ++ (record c { redis_key = some (checkpoint_key c.model_id c.checkpoint_id) }) ∷ [])
  unfolding append_checkpoint
  append-listed m p c s on = rw (save_package-eq c p s on) (
      ground (
        arith,
        eq_iff m m,
        lookup-insert m m
            (listed m s.checkpoints
              ++ (record c { redis_key = some (checkpoint_key c.model_id c.checkpoint_id) }) ∷ [])
            s.checkpoints,
      ))

  -- The checkpoint is made, and no checkpoint had its id.
  found-IsSaved :
      (now : ℕ) (m id : String) (t : CheckpointType) (metrics metadata : Option (Dict String))
      (v : ℕ) (p : Params b) (s : ParameterStorage b)
      → s.enable_redis ≡ true
      → times id (listed m s.checkpoints) ≡ 0
      → IsKeyed m (listed m s.checkpoints)
      → is_protected (new_checkpoint b now m id v t metrics metadata p) ≡ true
      → IsSaved m id p (checkpoint_found now m id t metrics metadata v p s).0
  unfolding checkpoint_found new_checkpoint
  found-IsSaved now m id t metrics metadata v p s on fresh keyed protected =
      let c = new_checkpoint b now m id v t metrics metadata p in
      let h = append-IsSaved m p c s on fresh keyed refl in
      let c' : Checkpoint = record c { redis_key = some (checkpoint_key m id) } in
      let cs = listed m s.checkpoints in
      retention-IsSaved m id p (cs ++ c' ∷ [])
        (append_checkpoint m (save_package c p s).1 (save_package c p s).0)
        (append-listed m p c s on) (others-append id cs c' protected fresh) h

  restored-nothing :
      (now : ℕ) (m : String) (note : Dict String) (p : Params b) (s : ParameterStorage b)
      → (restored now m false note p s).1 ≡ some (some p)
  unfolding restored
  restored-nothing now m note [] s = refl
  restored-nothing now m note (e ∷ p) s = refl

  load-IsSaved :
      (now : ℕ) (m id : String) (note : Dict String) (p : Params b) (s : ParameterStorage b)
      → IsSaved m id p s
      → (load_checkpoint now m id false note s).1 ≡ some (some p)
  unfolding load_checkpoint
  load-IsSaved now m id note p s h =
      let found : find_checkpoint id (listed m s.checkpoints) ≡ some h.checkpoint =
        ground (arith, h.at, h.found) in
      rw (found, load_checkpoint, found-key m id h.list h.checkpoint h.keyed h.found)
        (simp (h.enabled, h.saved, h.content, restored-nothing now m note p s))

  -- With Redis, a checkpoint of type BEST or FINAL that is made under an id that no listed checkpoint
  -- of the model has, while each listed one is saved under its own key, can be loaded afterwards, and
  -- what is loaded are the parameters that the model had, whatever older checkpoints the retention
  -- deleted meanwhile.
  pub load-create_checkpoint :
      (now later : ℕ) (m id : String) (t : CheckpointType) (metrics metadata : Option (Dict String))
      (note : Dict String) (v : ℕ) (p : Params b) (s : ParameterStorage b)
      → s.enable_redis ≡ true
      → lookup m s.parameters ≡ some p
      → lookup m s.current_versions ≡ some v
      → IsKeyed m (listed m s.checkpoints)
      → find_checkpoint id (listed m s.checkpoints) ≡ none
      → is_kept t ≡ true
      → (load_checkpoint later m id false note
          (create_checkpoint now m t (some id) metrics metadata s).0).1
        ≡ some (some p)
  unfolding create_checkpoint new_checkpoint
  load-create_checkpoint now later m id t metrics metadata note v p s on has counted keyed fresh
        kept =
      rw (has, create_checkpoint, counted)
        (load-IsSaved later m id note p (checkpoint_found now m id t metrics metadata v p s).0 (
          found-IsSaved now m id t metrics metadata v p s on
            (times-absent id (listed m s.checkpoints) fresh) keyed kept))
