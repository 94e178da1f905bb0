-- ===== src/Parameters/Pushes.antt =====
-- The parameter server on the log of the storage service.
use mesh_ml.Prelude.{
  List-cases, ℕ, suc, ◌+◌, ◌-◌, ◌≡◌, refl, sym, ap, ◌∙◌, subst, String, true, false, Option, none,
  some, inl, inr, List, [], ◌∷◌, ltb, eq_iff, if◌then◌else◌, length, arith, Bool-cases,
}
use mesh_ml.Parameters.Records.{Backend, Params, ParameterStorage}
use mesh_ml.Parameters.Storage.{persist_to_redis, load_from_redis, in_memory, version_of}
use mesh_ml.Parameters.Server.{
  Arithmetic, GradientsRequest, PushReply, acknowledged, aborted, ack, ParameterServer,
  server_version, load_current_weights, put_version, applied, push_locked, push_gradients,
}
use mesh_ml.Parameters.Untouched.{SameVersions}
use mesh_ml.Parameters.Log.{
  newest, entry, IsLogged, Opened, forgotten-IsLogged, SameVersions-IsLogged,
}
use mesh_ml.Parameters.Replay.{Logs, recorded, Holds, written-Holds}

-- The entry that a request adds to the model's log, if it adds one: the first gradients, at learning
-- rate 0, are the parameters; later ones are applied to the newest entry.
unfoldable pub next_entry :
    {b : Backend} {a : Arithmetic b}
    → GradientsRequest b a
    → Params b
    → ParameterServer b a
    → List (Params b)
    → Option (Params b)
next_entry {b} {a} request gradients s [] =
    if a.is_zero request.learning_rate then some gradients else none
next_entry request gradients s (p ∷ log) = some (applied request gradients (length (p ∷ log)) p s).0

abbrev pub pushed_log : {A : Type 0} → String → Option A → (String → List A) → String → List A
pushed_log k none logs = logs
pushed_log k (some p) logs = recorded k p logs

-- The version that the reply names.
abbrev pub answered_version : PushReply → Option ℕ
answered_version (acknowledged r) = some r.new_version
answered_version aborted = none

module _ {b : Backend} where
  version_of-logged :
      (m : String) (log : List (Params b)) (s : ParameterStorage b)
      → IsLogged m log s
      → version_of m s.current_versions ≡ length log
  version_of-logged m [] s h = ground (arith, h.counted)
  version_of-logged m (p ∷ log) s h = ground (arith, h.counted)

  server_version-logged :
      (m : String) (log : List (Params b)) (s : ParameterStorage b)
      → IsLogged m log s
      → server_version m s ≡ length log
  unfolding server_version
  server_version-logged m [] s h = ground (arith, h.current)
  server_version-logged m (p ∷ log) s h = ground (arith, h.current)

  -- In the window or out of it, the current weights are the newest entry.
  weights-logged :
      (m : String) (log : List (Params b)) (s : ParameterStorage b)
      → IsLogged m log s
      → load_current_weights m (length log) s ≡ newest log
  unfolding load_current_weights entry
  weights-logged m [] s h = ground (arith, h.memory)
  weights-logged m (p ∷ log) s h =
      let none_older : suc (length log) - suc (length log) ≡ 0 = omega arith in
      let kept : load_from_redis m (suc (length log)) s ≡ (
          if ltb (suc (length log)) (suc (length log) + s.param_version_history)
          then some p
          else none) =
        h.kept (suc (length log)) ∙ rw none_older (ground (arith)) in
      ground (arith, kept, h.memory)

  put_version-Holds :
      (k : String) (p : Params b) (logs : Logs b) (s : ParameterStorage b)
      → Holds logs s
      → Holds (recorded k p logs) (put_version k (length (logs k) + 1) p s)
  unfolding put_version in_memory persist_to_redis
  put_version-Holds k p logs s h =
      let counted = version_of-logged k (logs k) s (h k) in
      let opened : Opened k s s = record {
        enabled = refl;
        window = refl;
        snapshots = refl;
        current = refl;
        others = λ m other. (refl, refl);
      } in
      let written =
        persist_to_redis k (version_of k s.current_versions + 1) p (in_memory 0 k p none s) in
      let held : Holds (recorded k p logs) written =
        written-Holds 0 k p none logs s s h opened counted in
      let bare = record written { version_history = s.version_history } in
      let same : SameVersions bare (put_version k (length (logs k) + 1) p s) =
        rw⁻¹ counted (record {
          enabled = refl;
          window = refl;
          memory = refl;
          versions = refl;
          snapshots = refl;
          current = refl;
          history = refl;
        }) in
      λ m.
        SameVersions-IsLogged m (recorded k p logs m) bare (put_version k (length (logs k) + 1) p s)
          same (forgotten-IsLogged m (recorded k p logs m) s.version_history written (held m))

  first-Holds :
      (k : String) (p : Params b) (logs : Logs b) (s : ParameterStorage b)
      → logs k ≡ []
      → Holds logs s
      → Holds (recorded k p logs) (put_version k 1 p s)
  first-Holds k p logs s empty h =
      let one : length (logs k) + 1 ≡ 1 = ap (λ l. length l + 1) empty in
      subst (λ n. Holds (recorded k p logs) (put_version k n p s)) one
        (put_version-Holds k p logs s h)

recorded-length :
    {A : Type 0} (k : String) (p : A) (logs : String → List A)
    → length (recorded k p logs k) ≡ length (logs k) + 1
recorded-length k p logs = ground (arith, eq_iff k k)

module _ {b : Backend} {a : Arithmetic b} where
  entry_first :
      (request : GradientsRequest b a) (gradients : Params b) (s : ParameterServer b a)
      (log : List (Params b))
      → log ≡ []
      → a.is_zero request.learning_rate ≡ true
      → next_entry request gradients s log ≡ some gradients
  unfolding next_entry
  entry_first request gradients s log e f = rw (e, f) refl

  entry_refused :
      (request : GradientsRequest b a) (gradients : Params b) (s : ParameterServer b a)
      (log : List (Params b))
      → log ≡ []
      → a.is_zero request.learning_rate ≡ false
      → next_entry request gradients s log ≡ none
  unfolding next_entry
  entry_refused request gradients s log e f = rw (e, f) refl

  entry_later :
      (request : GradientsRequest b a) (gradients : Params b) (s : ParameterServer b a)
      (p : Params b) (rest log : List (Params b))
      → log ≡ p ∷ rest
      → next_entry request gradients s log ≡ some (applied request gradients (length log) p s).0
  unfolding next_entry
  entry_later request gradients s p rest log e = rw e refl

  push_gradients-locked :
      (request : GradientsRequest b a) (gradients : Params b) (s : ParameterServer b a)
      → s.storage.enable_redis ≡ true
      → request.gradients ≡ some gradients
      → push_gradients true request s ≡ push_locked request gradients s
  unfolding push_gradients
  push_gradients-locked request gradients s on decoded = simp (on, decoded)

  module _ (request : GradientsRequest b a) (gradients : Params b) (s : ParameterServer b a) where
    locked_first :
        load_current_weights request.job_id (server_version request.job_id s.storage) s.storage
          ≡ none
        → push_locked request gradients s ≡ (
            if a.is_zero request.learning_rate
            then (
              record s { storage = put_version request.job_id 1 gradients s.storage },
              ack true "Initial weights seeded" 1 false 0,
            )
            else (
              s,
              ack false "No parameters available for model"
                  (server_version request.job_id s.storage)
                  false
                  0,
            ))
    unfolding push_locked
    locked_first e = rw (e, push_locked) refl

    locked_later :
        (p : Params b)
        → load_current_weights request.job_id (server_version request.job_id s.storage) s.storage
          ≡ some p
        → push_locked request gradients s ≡ (
            let version = server_version request.job_id s.storage in
            let (params', state) = applied request gradients version p s in
            (
              record s {
                storage = put_version request.job_id (version + 1) params' s.storage;
                stored_momenta = a.momenta.set request.job_id state s.stored_momenta;
              },
              ack true "accepted" (version + 1) (ltb request.version version) 10,
            ))
    unfolding push_locked
    locked_later p e = rw (e, push_locked) refl

  -- When the storage service holds given logs, a push with decodable gradients and a free lock leaves
  -- it with the logs that the push amounts to: a first push at learning rate 0 starts the model's log
  -- with the gradients, one at another rate changes nothing, and each later push puts the updated
  -- parameters in front. The reply names the number of the model's entries as its version.
  pub push_gradients-Holds :
      (request : GradientsRequest b a) (gradients : Params b) (logs : Logs b)
      (s : ParameterServer b a)
      → Holds logs s.storage
      → request.gradients ≡ some gradients
      → let (s', reply) = push_gradients true request s in
        let logs' =
          pushed_log request.job_id (next_entry request gradients s (logs request.job_id)) logs in
        Holds logs' s'.storage × (answered_version reply ≡ some (length (logs' request.job_id)))
  push_gradients-Holds request gradients logs s h decoded =
      let k = request.job_id in
      let at_end = server_version-logged k (logs k) s.storage (h k) in
      let weights : load_current_weights k (server_version k s.storage) s.storage
          ≡ newest (logs k) =
        rw at_end (weights-logged k (logs k) s.storage (h k)) in
      rw (push_gradients-locked request gradients s (h k).enabled decoded)
        (elim (List-cases (logs k)) [
          | inl empty ↦
              rw (locked_first request gradients s (weights ∙ ap newest empty))
                (elim (Bool-cases (a.is_zero request.learning_rate)) [
                  | inl zero_rate ↦
                      rw (zero_rate, entry_first request gradients s (logs k) empty zero_rate)
                        (
                          first-Holds k gradients logs s.storage empty h,
                          ap some (
                              sym
                                (recorded-length k gradients logs ∙ ap (λ l. length l + 1) empty)),
                        )
                  | inr other ↦
                      rw (other, entry_refused request gradients s (logs k) empty other)
                        (h, ap some at_end)
                ])
          | inr (p, log, there) ↦
              rw
                (
                  locked_later request gradients s p (weights ∙ ap newest there),
                  entry_later request gradients s p log (logs k) there,
                  at_end,
                )
                (
                  put_version-Holds k (applied request gradients (length (logs k)) p s).0 logs
                      s.storage h,
                  ap some (
                      sym (
                        recorded-length k (applied request gradients (length (logs k)) p s).0
                          logs)),
                )
        ])
