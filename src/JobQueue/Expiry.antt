-- ===== src/JobQueue/Expiry.antt =====
-- What the clean-up of the queue does to the jobs.
use mesh_ml.Prelude.{
  ℕ, ◌-◌, ◌*◌, ◌≡◌, refl, sym, ◌∙◌, subst, String, true, false, Option, none, some, List, [], ◌∷◌,
  ltb, ◌=ˢ◌, eq_iff, if◌then◌else◌, elem, inl, inr, arith, Option-cases, Bool-cases, ◌⊎◌,
}
use mesh_ml.Redis.{Redis}
use mesh_ml.JobQueue.Jobs.{JobStatus, JobInfo, is_valid_transition}
use mesh_ml.JobQueue.Operations.{Db, get_job, leave_worker, update_job_status, restamp}
use mesh_ml.JobQueue.Upkeep.{check_validation, check_running, each_id, cleanup_expired_jobs}
use mesh_ml.JobQueue.Update.{update_missing, update_invalid, update_valid, get_job-write_status}
use mesh_ml.JobQueue.Index.{IsIndexed}
use mesh_ml.JobQueue.Sweep.{each_id-keep, check_validation-IsIndexed}

module _ {r : Redis JobInfo} (j : String) where
  update-other :
      (now : ℕ) (id : String) (new : JobStatus) (error worker : Option String) (db : Db r)
      → (id =ˢ j) ≡ false
      → get_job j (update_job_status now id new error worker db).0 ≡ get_job j db
  update-other now id new error worker db other = elim (Option-cases (get_job id db)) [
    | inl absent ↦ rw (update_missing now id new error worker db absent) refl
    | inr (job, found) ↦ elim (Bool-cases (is_valid_transition job.status new)) [
      | inl valid ↦ rw (update_valid now id new error worker db job found valid) (
          ground (
            arith,
            get_job-write_status now id new error worker db job.status
                (restamp now new error worker job) j,
          ))
      | inr invalid ↦ rw (update_invalid now id new error worker db job found invalid) refl
    ]
  ]

  leave_worker-job :
      (worker : Option String) (id : String) (db : Db r)
      → get_job j (leave_worker worker id db) ≡ get_job j db
  leave_worker-job none id db = refl
  leave_worker-job (some w) id db = elim (Bool-cases (w =ˢ "")) [
    | inl e ↦ rw e refl
    | inr e ↦ rw e refl
  ]

  check_validation-other :
      (now limit : ℕ) (id : String) (db : Db r)
      → (id =ˢ j) ≡ false
      → get_job j (check_validation now limit id db).0 ≡ get_job j db
  unfolding check_validation
  check_validation-other now limit id db other = elim (Option-cases (get_job id db)) [
    | inl absent ↦ rw (absent, check_validation) refl
    | inr (job, found) ↦ elim (Bool-cases (ltb (1000000 * limit) (now - job.created_at))) [
      | inl late ↦
          rw (found, check_validation, late) (update-other now id JobStatus.failed _ none db other)
      | inr timely ↦ rw (found, check_validation, timely) refl
    ]
  ]

  check_running-other :
      (decimal : ℕ → String) (now : ℕ) (id : String) (db : Db r)
      → (id =ˢ j) ≡ false
      → get_job j (check_running decimal now id db).0 ≡ get_job j db
  unfolding check_running
  check_running-other decimal now id db other = elim (Option-cases (get_job id db)) [
    | inl absent ↦ rw (absent, check_running) refl
    | inr (job, found) ↦ elim (Option-cases job.started_at) [
      | inl idle ↦ rw (found, check_running, idle) refl
      | inr (t, started) ↦
          elim (Bool-cases
            (ltb (1000000 * job.metadata.requirements.max_execution_time_seconds) (now - t))) [
              | inl late ↦
                  rw (found, check_running, started, late)
                    (leave_worker-job job.assigned_worker_id id _
                      ∙ update-other now id JobStatus.timeout _ none db other)
              | inr timely ↦ rw (found, check_running, started, timely) refl
            ]
    ]
  ]

  -- A loop over ids that are not `j`.
  each_id-other :
      (check : String → Db r → Db r × ℕ)
      → ((id : String) (db : Db r) → (id =ˢ j) ≡ false → get_job j (check id db).0 ≡ get_job j db)
      → (ids : List String) (db : Db r) → elem j ids ≡ false
      → get_job j (each_id check ids db).0 ≡ get_job j db
  unfolding each_id
  each_id-other check other [] db absent = refl
  each_id-other check other (id ∷ ids) db absent =
      each_id-other check other ids (check id db).0 (ground (arith, eq_iff id j))
      ∙ other id db (ground (arith, eq_iff id j))

  -- A loop over ids among which `j` is: what a round for `j` brings about and no round undoes.
  each_id-once :
      (P Q : Db r → Type 0) (check : String → Db r → Db r × ℕ)
      → ((id : String) (db : Db r) → (id =ˢ j) ≡ false → P db → P (check id db).0)
      → ((db : Db r) → P db → Q (check j db).0)
      → ((id : String) (db : Db r) → Q db → Q (check id db).0)
      → (ids : List String) (db : Db r) → elem j ids ≡ true
      → P db
      → Q (each_id check ids db).0
  unfolding each_id
  each_id-once P Q check other mine kept [] db here p = absurd (ground arith)
  each_id-once P Q check other mine kept (id ∷ ids) db here p = elim (Bool-cases (id =ˢ j)) [
    | inl hit ↦
        each_id-keep Q check kept ids (check id db).0
          (subst (λ k. Q (check k db).0) (sym ((eq_iff id j).0 hit)) (mine db p))
    | inr miss ↦
        each_id-once P Q check other mine kept ids (check id db).0 (ground (arith, eq_iff id j))
          (other id db miss p)
  ]

  -- The record of `j` has status `s`.
  abbrev pub Stored : JobStatus → Db r → Type 0
  Stored s db = (job : JobInfo) × (get_job j db ≡ some job) × (job.status ≡ s)

  leave-Stored :
      (s : JobStatus) (worker : Option String) (id : String) (db : Db r)
      → Stored s db
      → Stored s (leave_worker worker id db)
  leave-Stored s worker id db (job, found, at) = (job, leave_worker-job worker id db ∙ found, at)

  timeout-Stored :
      (now : ℕ) (error : Option String) (job : JobInfo) (db : Db r)
      → get_job j db ≡ some job
      → (job.status ≡ JobStatus.running) ⊎ (job.status ≡ JobStatus.timeout)
      → Stored JobStatus.timeout (update_job_status now j JobStatus.timeout error none db).0
  unfolding is_valid_transition restamp
  timeout-Stored now error job db found (inl runs) =
      let new = restamp now JobStatus.timeout error none job in
      rw (update_valid now j JobStatus.timeout error none db job found (rw runs refl)) (
        new,
        ground (
          arith,
          eq_iff j j,
          get_job-write_status now j JobStatus.timeout error none db job.status new j,
        ),
        refl,
      )
  timeout-Stored now error job db found (inr over) =
      rw (update_invalid now j JobStatus.timeout error none db job found (rw over refl))
        (job, found, over)

  timed_out-mine :
      (decimal : ℕ → String) (now : ℕ) (job : JobInfo) (t : ℕ) (db : Db r)
      → job.status ≡ JobStatus.running
      → job.started_at ≡ some t
      → ltb (1000000 * job.metadata.requirements.max_execution_time_seconds) (now - t) ≡ true
      → get_job j db ≡ some job
      → Stored JobStatus.timeout (check_running decimal now j db).0
  unfolding check_running
  timed_out-mine decimal now job t db runs started late found =
      rw (found, check_running, started, late)
        (leave-Stored JobStatus.timeout job.assigned_worker_id j _
          (timeout-Stored now _ job db found (inl runs)))

  timed_out-kept :
      (decimal : ℕ → String) (now : ℕ) (id : String) (db : Db r)
      → Stored JobStatus.timeout db
      → Stored JobStatus.timeout (check_running decimal now id db).0
  unfolding check_running
  timed_out-kept decimal now id db (job, found, ended) = elim (Bool-cases (id =ˢ j)) [
    | inr other ↦ (job, check_running-other decimal now id db other ∙ found, ended)
    | inl hit ↦
        subst (λ k. Stored JobStatus.timeout (check_running decimal now k db).0)
          (sym ((eq_iff id j).0 hit))
          (elim (Option-cases job.started_at) [
            | inl idle ↦ rw (found, check_running, idle) (job, found, ended)
            | inr (t, started) ↦
                elim (Bool-cases (
                  ltb (1000000 * job.metadata.requirements.max_execution_time_seconds) (now - t))) [
                    | inl late ↦
                        rw (found, check_running, started, late)
                          (leave-Stored JobStatus.timeout job.assigned_worker_id j _
                            (timeout-Stored now _ job db found (inr ended)))
                    | inr timely ↦ rw (found, check_running, started, timely) (job, found, ended)
                  ]
          ])
  ]

  timely-mine :
      (decimal : ℕ → String) (now : ℕ) (id : String) (job : JobInfo) (t : ℕ) (db : Db r)
      → job.started_at ≡ some t
      → ltb (1000000 * job.metadata.requirements.max_execution_time_seconds) (now - t) ≡ false
      → get_job j db ≡ some job
      → get_job j (check_running decimal now id db).0 ≡ some job
  unfolding check_running
  timely-mine decimal now id job t db started timely found = elim (Bool-cases (id =ˢ j)) [
    | inr other ↦ check_running-other decimal now id db other ∙ found
    | inl hit ↦
        subst (λ k. get_job j (check_running decimal now k db).0 ≡ some job)
          (sym ((eq_iff id j).0 hit))
          (let e : check_running decimal now j db ≡ (db, 0) =
              rw (found, check_running, started, timely) refl in
            rw e found)
  ]

  -- In a database whose status sets agree with the stored jobs, the clean-up ends a running job that
  -- does not await validation with TIMEOUT when it has run for longer than its limit, and leaves the
  -- job's status at RUNNING otherwise.
  pub cleanup_expired_jobs-running :
      (decimal : ℕ → String) (now limit : ℕ) (job : JobInfo) (t : ℕ) (db : Db r)
      → IsIndexed db
      → r.member j db.validation_pending ≡ false
      → get_job j db ≡ some job
      → job.status ≡ JobStatus.running
      → job.started_at ≡ some t
      → Stored
          (if ltb (1000000 * job.metadata.requirements.max_execution_time_seconds) (now - t)
            then JobStatus.timeout
            else JobStatus.running)
          (cleanup_expired_jobs decimal now limit db).0
  unfolding cleanup_expired_jobs
  cleanup_expired_jobs-running decimal now limit job t db inv validated found runs started =
      let mid = (each_id (check_validation now limit) (r.smembers db.validation_pending) db).0 in
      let kept : get_job j mid ≡ some job =
        each_id-other (check_validation now limit) (check_validation-other now limit)
          (r.smembers db.validation_pending) db
          (r.elem-smembers j db.validation_pending ∙ validated)
        ∙ found in
      let inv' =
        each_id-keep IsIndexed (check_validation now limit) (check_validation-IsIndexed now limit)
          (r.smembers db.validation_pending) db inv in
      let listed : elem j (r.smembers (mid.by_status JobStatus.running)) ≡ true =
        ground (
          arith,
          r.elem-smembers j (mid.by_status JobStatus.running),
          inv'.at JobStatus.running j,
        ) in
      elim (Bool-cases
        (ltb (1000000 * job.metadata.requirements.max_execution_time_seconds) (now - t))) [
          | inl late ↦ rw late (
              each_id-once (λ d. get_job j d ≡ some job) (Stored JobStatus.timeout)
                (check_running decimal now)
                (λ id d other e. check_running-other decimal now id d other ∙ e)
                (λ d. timed_out-mine decimal now job t d runs started late)
                (timed_out-kept decimal now) (r.smembers (mid.by_status JobStatus.running)) mid
                listed kept)
          | inr timely ↦ rw timely (
            job,
            each_id-keep (λ d. get_job j d ≡ some job) (check_running decimal now)
                (λ id d. timely-mine decimal now id job t d started timely)
                (r.smembers (mid.by_status JobStatus.running)) mid kept,
            runs,
          )
        ]
