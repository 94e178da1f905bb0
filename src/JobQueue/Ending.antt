-- ===== src/JobQueue/Ending.antt =====
-- The clean-up on one job: each loop of it moves the job's status only as `_is_valid_transition` allows.
use mesh_ml.Prelude.{
  ℕ, ◌-◌, ◌*◌, ◌≡◌, refl, sym, ap, String, Bool, true, false, Option, none, some, ltb, ◌=ˢ◌, eq_iff,
  Option-cases, Bool-cases, ◌⊎◌, inl, inr, arith,
}
use mesh_ml.Redis.{Redis}
use mesh_ml.JobQueue.Jobs.{JobStatus, JobInfo, is_failed, is_valid_transition}
use mesh_ml.JobQueue.Operations.{Db, get_job, leave_worker, restamp, update_job_status}
use mesh_ml.JobQueue.Upkeep.{check_validation, check_running, cleanup_expired_jobs, each_id}
use mesh_ml.JobQueue.Update.{update_missing, update_invalid, update_valid, get_job-write_status}
use mesh_ml.JobQueue.Sweep.{each_id-keep}

-- The statuses that the clean-up gives. The first loop gives FAILED only.
abbrev pub is_end : JobStatus → Bool
is_end JobStatus.failed = true
is_end JobStatus.timeout = true
is_end _ = false

module _ {r : Redis JobInfo} (j : String) (job : JobInfo) where
  -- The job is stored with its status, or with one that ends it and that it may move to.
  abbrev Stays : (JobStatus → Bool) → Db r → Type 0
  Stays ends db =
      (job' : JobInfo) × (get_job j db ≡ some job')
      × ((job'.status ≡ job.status)
          ⊎ ((is_valid_transition job.status job'.status ≡ true) × (ends job'.status ≡ true)))

  -- One update to a status that ends a job, to which a job that has ended does not move.
  update-Stays :
      (ends : JobStatus → Bool) (now : ℕ) (id : String) (new : JobStatus) (error : Option String)
      (db : Db r)
      → ends new ≡ true
      → ((s : JobStatus) → ends s ≡ true → is_valid_transition s new ≡ true → s ≡ new)
      → Stays ends db
      → Stays ends (update_job_status now id new error none db).0
  unfolding restamp
  update-Stays ends now id new error db end stuck (job', e, so) =
      elim (Option-cases (get_job id db)) [
        | inl absent ↦ rw (update_missing now id new error none db absent) (job', e, so)
        | inr (old, found) ↦ elim (Bool-cases (is_valid_transition old.status new)) [
          | inr invalid ↦
              rw (update_invalid now id new error none db old found invalid) (job', e, so)
          | inl valid ↦
              let stored = restamp now new error none old in
              let read = get_job-write_status now id new error none db old.status stored j in
              rw (update_valid now id new error none db old found valid)
                (elim (Bool-cases (id =ˢ j)) [
                  | inr other ↦ (job', ground (arith, read), so)
                  | inl mine ↦
                      let is_old : old ≡ job' = ground (arith, eq_iff id j) in
                      (
                        stored,
                        ground (arith, read),
                        elim so [
                          | inl same ↦ inr (ground (arith, ap (λ o. o.status) is_old), end)
                          | inr (allowed, ended) ↦
                              let at : old.status ≡ job'.status = ap (λ o. o.status) is_old in
                              let is_new : old.status ≡ new =
                                stuck old.status (rw at ended) valid in
                              inr (rw (sym is_new, at) allowed, end)
                        ],
                      )
                ])
        ]
      ]

  leave_worker-Stays :
      (ends : JobStatus → Bool) (worker : Option String) (id : String) (db : Db r)
      → Stays ends db
      → Stays ends (leave_worker worker id db)
  leave_worker-Stays ends none id db so = so
  leave_worker-Stays ends (some w) id db so = elim (Bool-cases (w =ˢ "")) [
    | inl e ↦ rw e so
    | inr e ↦ rw e so
  ]

  check_validation-Stays :
      (now limit : ℕ) (id : String) (db : Db r)
      → Stays is_failed db
      → Stays is_failed (check_validation now limit id db).0
  unfolding check_validation
  check_validation-Stays now limit id db so = elim (Option-cases (get_job id db)) [
    | inl absent ↦ rw (absent, check_validation) so
    | inr (old, found) ↦ elim (Bool-cases (ltb (1000000 * limit) (now - old.created_at))) [
      | inl late ↦
          rw (found, check_validation, late)
            (update-Stays is_failed now id JobStatus.failed _ db refl
              (λ s ended valid. ground arith) so)
      | inr timely ↦ rw (found, check_validation, timely) so
    ]
  ]

  check_running-Stays :
      (decimal : ℕ → String) (now : ℕ) (id : String) (db : Db r)
      → Stays is_end db
      → Stays is_end (check_running decimal now id db).0
  unfolding check_running is_valid_transition
  check_running-Stays decimal now id db so = elim (Option-cases (get_job id db)) [
    | inl absent ↦ rw (absent, check_running) so
    | inr (old, found) ↦ elim (Option-cases old.started_at) [
      | inl idle ↦ rw (found, check_running, idle) so
      | inr (t, started) ↦
          elim (Bool-cases
            (ltb (1000000 * old.metadata.requirements.max_execution_time_seconds) (now - t))) [
              | inl late ↦
                  rw (found, check_running, started, late)
                    (leave_worker-Stays is_end old.assigned_worker_id id _ (
                      update-Stays is_end now id JobStatus.timeout _ db refl
                        (λ s ended valid. ground arith) so))
              | inr timely ↦ rw (found, check_running, started, timely) so
            ]
    ]
  ]

  -- After the clean-up the job has the status that it had, or one that `_is_valid_transition` allows.
  pub cleanup_expired_jobs-Stays :
      (decimal : ℕ → String) (now limit : ℕ) (db : Db r)
      → get_job j db ≡ some job
      → (job' : JobInfo) × (get_job j (cleanup_expired_jobs decimal now limit db).0 ≡ some job')
        × ((job'.status ≡ job.status) ⊎ (is_valid_transition job.status job'.status ≡ true))
  unfolding cleanup_expired_jobs
  cleanup_expired_jobs-Stays decimal now limit db found =
      let first = (each_id (check_validation now limit) (r.smembers db.validation_pending) db).0 in
      let (job1, e1, so1) =
        each_id-keep (Stays is_failed) (check_validation now limit)
          (check_validation-Stays now limit) (r.smembers db.validation_pending) db
          (job, found, inl refl) in
      let (job2, e2, so2) =
        each_id-keep (Stays is_end) (check_running decimal now) (check_running-Stays decimal now)
          (r.smembers (first.by_status JobStatus.running)) first
          (
            job1,
            e1,
            elim so1 [ inl same ↦ inl same | inr (valid, ended) ↦ inr (valid, ground arith) ],
          ) in
      (job2, e2, elim so2 [ inl same ↦ inl same | inr (valid, ended) ↦ inr valid ])
