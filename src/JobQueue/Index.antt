-- ===== src/JobQueue/Index.antt =====
-- The sets `jobs:by_status:{status}` and the stored jobs.
use mathlib.Core.Logic.{ite}
use mesh_ml.Prelude.{
  ℕ, ◌≡◌, refl, String, Bool, true, false, ◌&&◌, Option, none, some, List, [], ◌∷◌, eq_iff,
  Option-cases, Bool-cases, inl, inr, arith,
}
use mesh_ml.Redis.{Redis}
use mesh_ml.JobQueue.Jobs.{
  JobStatus, JobStatus-discrete, JobPriority, JobMetadata, JobInfo, can_retry, is_terminal_state,
  is_valid_transition, JobRequirements,
}
use mesh_ml.JobQueue.Operations.{
  Db, at_worker, is_worker, candidate, drop_orphan, leave_worker, leave_queues, mark_found,
  validated, failure_text, assign_found, release_found, get_job, put_job, restamp, write_status,
  update_job_status, submit_job, assign_job_to_worker, released, release_job_from_worker, next_from,
  mark_validation_complete, cancel_job,
}
use mesh_ml.JobQueue.Update.{update_missing, update_invalid, update_valid}

abbrev pub has_status : JobStatus → Option JobInfo → Bool
has_status s none = false
has_status s (some job) = ite (JobStatus-discrete job.status s) true false

pub record IsIndexed {r : Redis JobInfo} (db : Db r) : Type 0 where
  pub at :
      (s : JobStatus) (j : String) → r.member j (db.by_status s) ≡ has_status s (r.get j db.jobs)

module _ {r : Redis JobInfo} where
  put_job-IsIndexed :
      (id : String) (old new : JobInfo) (db : Db r)
      → get_job id db ≡ some old
      → new.status ≡ old.status
      → IsIndexed db
      → IsIndexed (put_job id new db)
  put_job-IsIndexed id old new db h same inv = record {
    at = λ s j. ground (arith, inv.at s j, inv.at s id, eq_iff id j, r.get-set id j new db.jobs);
  }

  write_status-IsIndexed :
      (id : String) (old new : JobInfo) (db : Db r)
      → get_job id db ≡ some old
      → IsIndexed db
      → IsIndexed (write_status id old.status new.status new db)
  unfolding write_status
  write_status-IsIndexed id old new db h inv = record {
    at = λ s j.
        let set = db.by_status s in
        ground (
          arith,
          inv.at s j,
          inv.at s id,
          eq_iff id j,
          r.get-set id j new db.jobs,
          r.member-sadd id j set,
          r.member-sadd id j (r.srem id set),
          r.member-srem id j set,
        );
  }

  pub update-IsIndexed :
      (now : ℕ) (id : String) (new : JobStatus) (error worker : Option String) (db : Db r)
      → IsIndexed db
      → IsIndexed (update_job_status now id new error worker db).0
  unfolding restamp
  update-IsIndexed now id new error worker db inv = elim (Option-cases (get_job id db)) [
    | inl absent ↦ rw (update_missing now id new error worker db absent) inv
    | inr (job, found) ↦ elim (Bool-cases (is_valid_transition job.status new)) [
      | inl valid ↦
          rw (update_valid now id new error worker db job found valid)
            (write_status-IsIndexed id job (restamp now new error worker job) db found inv)
      | inr invalid ↦ rw (update_invalid now id new error worker db job found invalid) inv
    ]
  ]

  pub submit-IsIndexed :
      (now : ℕ) (metadata : JobMetadata) (priority : JobPriority) (db : Db r)
      → get_job metadata.job_id db ≡ none
      → IsIndexed db
      → IsIndexed (submit_job now metadata priority db).0
  unfolding submit_job
  submit-IsIndexed now metadata priority db fresh inv = record {
    at = λ s j.
        let id = metadata.job_id in
        let set = db.by_status s in
        ground (
          arith,
          inv.at s j,
          inv.at s id,
          eq_iff id j,
          r.get-set id j (submit_job now metadata priority db).1 db.jobs,
          r.member-sadd id j set,
        );
  }

  pub assign-IsIndexed :
      (now : ℕ) (id worker : String) (shards : Option (List ℕ)) (db : Db r)
      → IsIndexed db
      → IsIndexed (assign_job_to_worker now id worker shards db).0
  unfolding assign_job_to_worker assign_found
  assign-IsIndexed now id worker shards db inv = record {
    at = λ s j. ground (
      arith,
      inv.at s j,
      (update-IsIndexed now id JobStatus.running none (some worker) db inv).at s j,
    );
  }

  -- The common step of `release_job_from_worker`, `mark_validation_complete` and `cancel_job`: some
  -- writes to other keys and to the record, with its status kept, then an update of the status.
  kept-IsIndexed :
      (id : String) (old new : JobInfo) (db : Db r)
      → get_job id db ≡ some old
      → new.status ≡ old.status
      → IsIndexed db
      → (db' : Db r) → db'.jobs ≡ (put_job id new db).jobs
      → db'.by_status ≡ db.by_status
      → IsIndexed db'
  kept-IsIndexed id old new db h same inv db' e f = record {
    at = λ s j. rw (e, f) ((put_job-IsIndexed id old new db h same inv).at s j);
  }

  release_found-IsIndexed :
      (now : ℕ) (id worker : String) (old new : JobInfo) (db : Db r)
      → get_job id db ≡ some old
      → new.status ≡ old.status
      → IsIndexed db
      → IsIndexed (release_found now id worker new db)
  unfolding release_found
  release_found-IsIndexed now id worker old new db h same inv =
      let kept =
        kept-IsIndexed id old new db h same inv (put_job id new (at_worker worker (r.srem id) db))
          refl refl in
      elim (Bool-cases (can_retry new)) [
        | inl again ↦
            rw again
              (record { at = (update-IsIndexed now id JobStatus.waiting none none _ kept).at })
        | inr never ↦
            rw never
              (update-IsIndexed now id JobStatus.failed (some "Max retries exceeded") none _ kept)
      ]

  pub release-IsIndexed :
      (now : ℕ) (id worker reason : String) (db : Db r)
      → IsIndexed db
      → IsIndexed (release_job_from_worker now id worker reason db).0
  unfolding release_job_from_worker released
  release-IsIndexed now id worker reason db inv = elim (Option-cases (get_job id db)) [
    | inl absent ↦ rw (absent, release_job_from_worker) inv
    | inr (job, found) ↦
        rw (found, release_job_from_worker)
          (elim (Bool-cases (is_worker job.assigned_worker_id worker)) [
            | inl mine ↦ rw mine (
                release_found-IsIndexed now id worker job (released worker reason job) db found refl
                  inv)
            | inr other ↦ rw other inv
          ])
  ]

  pub drop_orphan-IsIndexed :
      (p : JobPriority) (db : Db r) → IsIndexed db → IsIndexed (drop_orphan p db)
  unfolding drop_orphan
  drop_orphan-IsIndexed p db inv = record { at = λ s j. ground (arith, inv.at s j) }

  pub next_from-IsIndexed :
      (requirements : Option JobRequirements) (ps : List JobPriority) (db : Db r)
      → IsIndexed db
      → IsIndexed (next_from requirements ps db).0
  unfolding next_from
  next_from-IsIndexed requirements [] db inv = inv
  next_from-IsIndexed requirements (p ∷ ps) db inv =
      elim (Option-cases (candidate requirements p db)) [
        | inl absent ↦
            rw (absent, next_from)
              (next_from-IsIndexed requirements ps (drop_orphan p db)
                (drop_orphan-IsIndexed p db inv))
        | inr (job, found) ↦ rw (found, next_from) inv
      ]

  pub mark-IsIndexed :
      (now : ℕ) (id : String) (model dataset : Bool) (errors : Option (List String)) (db : Db r)
      → IsIndexed db
      → IsIndexed (mark_validation_complete now id model dataset errors db).0
  unfolding mark_validation_complete mark_found validated
  mark-IsIndexed now id model dataset errors db inv = elim (Option-cases (get_job id db)) [
    | inl absent ↦ rw (absent, mark_validation_complete) inv
    | inr (job, found) ↦
        let kept =
          put_job-IsIndexed id job (validated model dataset errors job) db found refl inv in
        rw (found, mark_validation_complete)
          (elim (Bool-cases (model && dataset)) [
            | inl passed ↦
                rw passed
                  (record { at = (update-IsIndexed now id JobStatus.waiting none none _ kept).at })
            | inr failed ↦ rw failed (record {
              at =
                  (update-IsIndexed now id JobStatus.failed (some (failure_text errors)) none _
                    kept).at;
            })
          ])
  ]

  leave-IsIndexed :
      (worker : Option String) (id : String) (db : Db r)
      → IsIndexed db
      → IsIndexed (leave_worker worker id (leave_queues id db))
  leave-IsIndexed none id db inv = record { at = inv.at }
  leave-IsIndexed (some w) id db inv = record { at = λ s j. ground (arith, inv.at s j) }

  pub cancel-IsIndexed :
      (now : ℕ) (id reason : String) (db : Db r)
      → IsIndexed db
      → IsIndexed (cancel_job now id reason db).0
  unfolding cancel_job
  cancel-IsIndexed now id reason db inv = elim (Option-cases (get_job id db)) [
    | inl absent ↦ rw (absent, cancel_job) inv
    | inr (job, found) ↦
        rw (found, cancel_job)
          (elim (Bool-cases (is_terminal_state job)) [
            | inl closed ↦ rw closed inv
            | inr live ↦ rw live (
                update-IsIndexed now id JobStatus.cancelled _ none _
                  (leave-IsIndexed job.assigned_worker_id id db inv))
          ])
  ]
