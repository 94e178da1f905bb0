-- ===== src/JobQueue/Sweep.antt =====
-- The clean-up of the queue and the status sets.
use mesh_ml.Prelude.{
  ℕ, ◌-◌, ◌*◌, String, Option, none, some, List, [], ◌∷◌, ltb, ◌=ˢ◌, inl, inr, Option-cases,
  Bool-cases,
}
use mesh_ml.Redis.{Redis}
use mesh_ml.JobQueue.Jobs.{JobStatus, JobInfo}
use mesh_ml.JobQueue.Operations.{Db, get_job, leave_worker}
use mesh_ml.JobQueue.Upkeep.{check_validation, check_running, each_id, cleanup_expired_jobs}
use mesh_ml.JobQueue.Index.{IsIndexed, update-IsIndexed}

module _ {r : Redis JobInfo} where
  pub each_id-keep :
      (P : Db r → Type 0) (check : String → Db r → Db r × ℕ)
      → ((id : String) (db : Db r) → P db → P (check id db).0)
      → (ids : List String) (db : Db r) → P db
      → P (each_id check ids db).0
  unfolding each_id
  each_id-keep P check step [] db p = p
  each_id-keep P check step (id ∷ ids) db p =
      each_id-keep P check step ids (check id db).0 (step id db p)

  leave_worker-IsIndexed :
      (worker : Option String) (id : String) (db : Db r)
      → IsIndexed db
      → IsIndexed (leave_worker worker id db)
  leave_worker-IsIndexed none id db inv = inv
  leave_worker-IsIndexed (some w) id db inv = elim (Bool-cases (w =ˢ "")) [
    | inl e ↦ rw e inv
    | inr e ↦ rw e (record { at = inv.at })
  ]

  pub check_validation-IsIndexed :
      (now limit : ℕ) (id : String) (db : Db r)
      → IsIndexed db
      → IsIndexed (check_validation now limit id db).0
  unfolding check_validation
  check_validation-IsIndexed now limit id db inv = elim (Option-cases (get_job id db)) [
    | inl absent ↦ rw (absent, check_validation) inv
    | inr (job, found) ↦ elim (Bool-cases (ltb (1000000 * limit) (now - job.created_at))) [
      | inl late ↦
          rw (found, check_validation, late)
            (update-IsIndexed now id JobStatus.failed _ none db inv)
      | inr timely ↦ rw (found, check_validation, timely) inv
    ]
  ]

  check_running-IsIndexed :
      (decimal : ℕ → String) (now : ℕ) (id : String) (db : Db r)
      → IsIndexed db
      → IsIndexed (check_running decimal now id db).0
  unfolding check_running
  check_running-IsIndexed decimal now id db inv = elim (Option-cases (get_job id db)) [
    | inl absent ↦ rw (absent, check_running) inv
    | inr (job, found) ↦ elim (Option-cases job.started_at) [
      | inl idle ↦ rw (found, check_running, idle) inv
      | inr (t, started) ↦
          elim (Bool-cases
            (ltb (1000000 * job.metadata.requirements.max_execution_time_seconds) (now - t))) [
              | inl late ↦
                  rw (found, check_running, started, late)
                    (leave_worker-IsIndexed job.assigned_worker_id id _
                      (update-IsIndexed now id JobStatus.timeout _ none db inv))
              | inr timely ↦ rw (found, check_running, started, timely) inv
            ]
    ]
  ]

  pub cleanup_expired_jobs-IsIndexed :
      (decimal : ℕ → String) (now limit : ℕ) (db : Db r)
      → IsIndexed db
      → IsIndexed (cleanup_expired_jobs decimal now limit db).0
  unfolding cleanup_expired_jobs
  cleanup_expired_jobs-IsIndexed decimal now limit db inv =
      let validated =
        (each_id (check_validation now limit) (r.smembers db.validation_pending) db).0 in
      each_id-keep IsIndexed (check_running decimal now) (check_running-IsIndexed decimal now)
        (r.smembers (validated.by_status JobStatus.running)) validated
        (each_id-keep IsIndexed (check_validation now limit) (check_validation-IsIndexed now limit)
          (r.smembers db.validation_pending) db inv)
