-- ===== src/JobQueue/Lifecycle.antt =====
-- The life of one job: which statuses follow one another, whatever calls are made.
use mesh_ml.Prelude.{
  ℕ, ◌≡◌, refl, ◌∙◌, ap, String, Bool, true, ◌&&◌, Option, none, some, List, [], ◌∷◌, ◌=ˢ◌, eq_iff,
  Option-cases, Bool-cases, ◌⊎◌, inl, inr, arith,
}
use mesh_ml.Redis.{Redis}
use mesh_ml.JobQueue.Jobs.{
  JobStatus, JobPriority, JobMetadata, JobInfo, JobRequirements, can_retry, is_terminal_state,
  is_valid_transition, is_closed,
}
use mesh_ml.JobQueue.Operations.{
  Db, at_worker, is_worker, drop_orphan, leave_worker, leave_queues, mark_found, validated,
  failure_text, assign_found, release_found, get_job, put_job, restamp, write_status,
  update_job_status, submit_job, assign_job_to_worker, released, release_job_from_worker, next_from,
  get_next_job, mark_validation_complete, cancel_job, priorities,
}
use mesh_ml.JobQueue.Update.{update_missing, update_invalid, update_valid}
use mesh_ml.JobQueue.Ending.{cleanup_expired_jobs-Stays}
use mesh_ml.JobQueue.Calls.{
  Call, submit, update, assign, release, next, mark, cancel, cleanup, perform, IsFresh, Reach, here,
  after,
}

-- The job with id `j`, which is stored as `job` before a call, is stored after it with the same
-- status, or one that `_is_valid_transition` allows.
abbrev pub Moves : {r : Redis JobInfo} → String → JobInfo → Db r → Type 0
Moves j job db =
    (job' : JobInfo) × (get_job j db ≡ some job')
    × ((job'.status ≡ job.status) ⊎ (is_valid_transition job.status job'.status ≡ true))

module _ {r : Redis JobInfo} (j : String) (job : JobInfo) where
  -- The record of `j` keeps its status.
  abbrev Keeps : Db r → Type 0
  Keeps db = (job' : JobInfo) × (get_job j db ≡ some job') × (job'.status ≡ job.status)

  Moves-of_Keeps : (db : Db r) → Keeps db → Moves j job db
  Moves-of_Keeps db (job', e, same) = (job', e, inl same)

  put_job-Keeps :
      (id : String) (old new : JobInfo) (db : Db r)
      → get_job id db ≡ some old
      → new.status ≡ old.status
      → Keeps db
      → Keeps (put_job id new db)
  put_job-Keeps id old new db h same (job', e, kept) = elim (Bool-cases (id =ˢ j)) [
    | inl mine ↦ (new, ground (arith, r.get-set id j new db.jobs), ground (arith, eq_iff id j))
    | inr other ↦ (job', ground (arith, r.get-set id j new db.jobs), kept)
  ]

  write_status-Moves :
      (id : String) (old new : JobInfo) (db : Db r)
      → get_job id db ≡ some old
      → is_valid_transition old.status new.status ≡ true
      → Keeps db
      → Moves j job (write_status id old.status new.status new db)
  unfolding write_status
  write_status-Moves id old new db h valid (job', e, kept) = elim (Bool-cases (id =ˢ j)) [
    | inl mine ↦
        (new, ground (arith, r.get-set id j new db.jobs), inr (ground (arith, eq_iff id j)))
    | inr other ↦ (job', ground (arith, r.get-set id j new db.jobs), inl kept)
  ]

  update-Moves :
      (now : ℕ) (id : String) (new : JobStatus) (error worker : Option String) (db : Db r)
      → Keeps db
      → Moves j job (update_job_status now id new error worker db).0
  unfolding restamp
  update-Moves now id new error worker db keeps = elim (Option-cases (get_job id db)) [
    | inl absent ↦ rw (update_missing now id new error worker db absent) (Moves-of_Keeps db keeps)
    | inr (old, found) ↦ elim (Bool-cases (is_valid_transition old.status new)) [
      | inl valid ↦
          rw (update_valid now id new error worker db old found valid)
            (write_status-Moves id old (restamp now new error worker old) db found valid keeps)
      | inr invalid ↦
          rw (update_invalid now id new error worker db old found invalid) (Moves-of_Keeps db keeps)
    ]
  ]

  Moves-of_jobs : (db db' : Db r) → db'.jobs ≡ db.jobs → Moves j job db → Moves j job db'
  Moves-of_jobs db db' same (job', e, kept) = (job', cc, kept)

  submit-Moves :
      (now : ℕ) (metadata : JobMetadata) (priority : JobPriority) (db : Db r)
      → get_job metadata.job_id db ≡ none
      → Keeps db
      → Moves j job (submit_job now metadata priority db).0
  unfolding submit_job
  submit-Moves now metadata priority db fresh (job', e, kept) = (
    job',
    ground (
      arith,
      eq_iff metadata.job_id j,
      r.get-set metadata.job_id j (submit_job now metadata priority db).1 db.jobs,
    ),
    inl kept,
  )

  assign-jobs :
      (now : ℕ) (id worker : String) (shards : Option (List ℕ)) (db : Db r)
      → ((assign_job_to_worker now id worker shards db).0.jobs
          ≡ (update_job_status now id JobStatus.running none (some worker) db).0.jobs)
        ⊎ ((assign_job_to_worker now id worker shards db).0.jobs ≡ db.jobs)
  unfolding assign_job_to_worker assign_found
  assign-jobs now id worker shards db = ground arith

  assign-Moves :
      (now : ℕ) (id worker : String) (shards : Option (List ℕ)) (db : Db r)
      → Keeps db
      → Moves j job (assign_job_to_worker now id worker shards db).0
  assign-Moves now id worker shards db keeps =
      let result = (assign_job_to_worker now id worker shards db).0 in
      let updated = (update_job_status now id JobStatus.running none (some worker) db).0 in
      elim (assign-jobs now id worker shards db) [
        | inl moved ↦
            Moves-of_jobs updated result moved
              (update-Moves now id JobStatus.running none (some worker) db keeps)
        | inr same ↦ Moves-of_jobs db result same (Moves-of_Keeps db keeps)
      ]

  release_found-Moves :
      (now : ℕ) (id worker : String) (old new : JobInfo) (db : Db r)
      → get_job id db ≡ some old
      → new.status ≡ old.status
      → Keeps db
      → Moves j job (release_found now id worker new db)
  unfolding release_found
  release_found-Moves now id worker old new db found same keeps =
      let kept : Keeps (put_job id new (at_worker worker (r.srem id) db)) =
        put_job-Keeps id old new db found same keeps in
      elim (Bool-cases (can_retry new)) [
        | inl again ↦ rw again (update-Moves now id JobStatus.waiting none none _ kept)
        | inr never ↦
            rw never
              (update-Moves now id JobStatus.failed (some "Max retries exceeded") none _ kept)
      ]

  release-Moves :
      (now : ℕ) (id worker reason : String) (db : Db r)
      → Keeps db
      → Moves j job (release_job_from_worker now id worker reason db).0
  unfolding release_job_from_worker released
  release-Moves now id worker reason db keeps = elim (Option-cases (get_job id db)) [
    | inl absent ↦ rw (absent, release_job_from_worker) (Moves-of_Keeps db keeps)
    | inr (old, found) ↦
        rw (found, release_job_from_worker)
          (elim (Bool-cases (is_worker old.assigned_worker_id worker)) [
            | inl mine ↦ rw mine (
                release_found-Moves now id worker old (released worker reason old) db found refl
                  keeps)
            | inr other ↦ rw other (Moves-of_Keeps db keeps)
          ])
  ]

  next_from-jobs :
      (requirements : Option JobRequirements) (ps : List JobPriority) (db : Db r)
      → (next_from requirements ps db).0.jobs ≡ db.jobs
  unfolding next_from drop_orphan
  next_from-jobs requirements [] db = refl
  next_from-jobs requirements (p ∷ ps) db =
      ground (arith, next_from-jobs requirements ps (drop_orphan p db))

  mark-Moves :
      (now : ℕ) (id : String) (model dataset : Bool) (errors : Option (List String)) (db : Db r)
      → Keeps db
      → Moves j job (mark_validation_complete now id model dataset errors db).0
  unfolding mark_validation_complete mark_found validated
  mark-Moves now id model dataset errors db keeps = elim (Option-cases (get_job id db)) [
    | inl absent ↦ rw (absent, mark_validation_complete) (Moves-of_Keeps db keeps)
    | inr (old, found) ↦
        let kept = put_job-Keeps id old (validated model dataset errors old) db found refl keeps in
        rw (found, mark_validation_complete)
          (elim (Bool-cases (model && dataset)) [
            | inl passed ↦ rw passed (update-Moves now id JobStatus.waiting none none _ kept)
            | inr failed ↦
                rw failed
                  (update-Moves now id JobStatus.failed (some (failure_text errors)) none _ kept)
          ])
  ]

  leave-Keeps :
      (worker : Option String) (id : String) (db : Db r)
      → Keeps db
      → Keeps (leave_worker worker id (leave_queues id db))
  leave-Keeps none id db keeps = keeps
  leave-Keeps (some w) id db keeps = elim (Bool-cases (w =ˢ "")) [
    | inl e ↦ rw e keeps
    | inr e ↦ rw e keeps
  ]

  cancel-Moves :
      (now : ℕ) (id reason : String) (db : Db r)
      → Keeps db
      → Moves j job (cancel_job now id reason db).0
  unfolding cancel_job
  cancel-Moves now id reason db keeps = elim (Option-cases (get_job id db)) [
    | inl absent ↦ rw (absent, cancel_job) (Moves-of_Keeps db keeps)
    | inr (old, found) ↦
        rw (found, cancel_job)
          (elim (Bool-cases (is_terminal_state old)) [
            | inl closed ↦ rw closed (Moves-of_Keeps db keeps)
            | inr live ↦ rw live (
                update-Moves now id JobStatus.cancelled _ none _
                  (leave-Keeps old.assigned_worker_id id db keeps))
          ])
  ]

-- Whatever call is made, the clean-up included, the job stored under an id is still stored after
-- it, with the status it had or one that `_is_valid_transition` allows from there. A submission is
-- of a fresh id.
pub perform-Moves :
    {r : Redis JobInfo} (now : ℕ) (call : Call) (db : Db r) (j : String) (job : JobInfo)
    → IsFresh call db
    → get_job j db ≡ some job
    → Moves j job (perform now call db)
unfolding perform get_next_job
perform-Moves now (submit metadata priority) db j job fresh e =
    submit-Moves j job now metadata priority db fresh (job, e, refl)
perform-Moves now (update id new error worker) db j job fresh e =
    update-Moves j job now id new error worker db (job, e, refl)
perform-Moves now (assign id worker shards) db j job fresh e =
    assign-Moves j job now id worker shards db (job, e, refl)
perform-Moves now (release id worker reason) db j job fresh e =
    release-Moves j job now id worker reason db (job, e, refl)
perform-Moves now (next requirements) db j job fresh e =
    Moves-of_jobs j job db (next_from requirements priorities db).0
      (next_from-jobs j job requirements priorities db) (job, e, inl refl)
perform-Moves now (mark id model dataset errors) db j job fresh e =
    mark-Moves j job now id model dataset errors db (job, e, refl)
perform-Moves now (cancel id reason) db j job fresh e =
    cancel-Moves j job now id reason db (job, e, refl)
perform-Moves now (cleanup decimal limit) db j job fresh e =
    cleanup_expired_jobs-Stays j job decimal now limit db e

closed_stays :
    (old new : JobStatus)
    → is_closed old ≡ true
    → (new ≡ old) ⊎ (is_valid_transition old new ≡ true)
    → new ≡ old
unfolding is_valid_transition
closed_stays old new closed moves = ground arith

-- COMPLETED and CANCELLED are final: from the moment a job has such a status it keeps it, whatever
-- calls and clean-ups follow. Submissions are of ids that no stored job has.
pub Reach-closed :
    {r : Redis JobInfo} {db db' : Db r} (j : String) (job : JobInfo)
    → Reach db db'
    → get_job j db ≡ some job
    → is_closed job.status ≡ true
    → (job' : JobInfo) × (get_job j db' ≡ some job') × (job'.status ≡ job.status)
Reach-closed j job here e closed = (job, e, refl)
Reach-closed j job (after {mid} path now call fresh) e closed =
    let (job1, e1, same1) = Reach-closed j job path e closed in
    let (job2, e2, moves) = perform-Moves now call mid j job1 fresh e1 in
    (job2, e2, closed_stays job1.status job2.status (ap is_closed same1 ∙ closed) moves ∙ same1)
