-- ===== src/Gateway/Cancelling.antt =====
-- The gateway's cancellation in the orchestrator's queue, beside the queue's own `cancel_job`.
use Prim.Native.String.{◌++◌ as append}
use mesh_ml.Prelude.{
  ℕ, ◌≡◌, refl, String, true, false, Bool, none, some, eq_iff, arith, Bool-cases, Option-cases, inl,
  inr, sym, ◌∙◌, ap,
}
use mesh_ml.Redis.{Redis}
use mesh_ml.JobQueue.{
  JobStatus, JobInfo, Db, is_final, is_terminal_state, is_valid_transition, get_job, leave_worker,
  leave_queues, restamp, write_status, cancel_job,
}
use mesh_ml.JobQueue.Index.{IsIndexed, has_status, cancel-IsIndexed}
use mesh_ml.JobQueue.Update.{update_valid}
use mesh_ml.Gateway.Jobs.{cancel_queued, cancel_in_queue}

-- Two queues that the workers and the orchestrator cannot tell apart by a job's status: the same jobs
-- with the same status, the same sets of the statuses, and the same sets of the workers.
pub record Alike {r : Redis JobInfo} (a b : Db r) : Type 0 where
  pub statuses :
      (s : JobStatus) (j : String) → has_status s (r.get j a.jobs) ≡ has_status s (r.get j b.jobs)
  pub index : (s : JobStatus) (j : String) → r.member j (a.by_status s) ≡ r.member j (b.by_status s)
  pub workers : (w j : String) → r.member j (a.by_worker w) ≡ r.member j (b.by_worker w)

-- The record that the queue's own cancellation stores.
abbrev stamped : ℕ → String → JobInfo → JobInfo
stamped now reason job =
    restamp now JobStatus.cancelled (some (append "Cancelled: " reason)) none job

module _ {r : Redis JobInfo} where
  Alike-refl : {db : Db r} → Alike db db
  Alike-refl = record { statuses = λ s j. refl; index = λ s j. refl; workers = λ w j. refl }

  cancel_in_queue-live :
      (id : String) (job : JobInfo) (db : Db r)
      → get_job id db ≡ some job
      → is_final job.status ≡ false
      → cancel_in_queue id db ≡ cancel_queued id job db
  unfolding cancel_in_queue
  cancel_in_queue-live id job db found live = rw (found, cancel_in_queue) (rw live refl)

  cancel_job-live :
      (now : ℕ) (id reason : String) (job : JobInfo) (db : Db r)
      → get_job id db ≡ some job
      → is_final job.status ≡ false
      → (cancel_job now id reason db).0
        ≡ write_status id job.status JobStatus.cancelled
            (stamped now reason job)
            (leave_worker job.assigned_worker_id id (leave_queues id db))
  unfolding cancel_job is_terminal_state is_valid_transition
  cancel_job-live now id reason job db found live =
      let left = leave_worker job.assigned_worker_id id (leave_queues id db) in
      let got : get_job id left ≡ some job = ground arith in
      let valid : is_valid_transition job.status JobStatus.cancelled ≡ true = ground arith in
      let message = some (append "Cancelled: " reason) in
      rw (found, cancel_job)
        (rw live
          (ap (λ u. u.0) (update_valid now id JobStatus.cancelled message none left job got valid)))

  pub cancel_in_queue-Alike :
      (now : ℕ) (id reason : String) (job : JobInfo) (db : Db r)
      → get_job id db ≡ some job
      → is_final job.status ≡ false
      → Alike (cancel_in_queue id db) (cancel_job now id reason db).0
  unfolding cancel_queued write_status restamp
  cancel_in_queue-Alike now id reason job db found live =
      rw
        (cancel_in_queue-live id job db found live, cancel_job-live now id reason job db found live)
        record {
          statuses = λ s j. ground (
            arith,
            eq_iff id j,
            r.get-set id j (record job { status = JobStatus.cancelled }) db.jobs,
            r.get-set id j (stamped now reason job) db.jobs,
          );
          index = λ s j. ground arith;
          workers = λ w j. ground arith;
        }

  cancel_in_queue-both :
      (now : ℕ) (id reason : String) (db : Db r)
      → Alike (cancel_in_queue id db) (cancel_job now id reason db).0
  unfolding cancel_job is_terminal_state cancel_in_queue
  cancel_in_queue-both now id reason db = elim (Option-cases (get_job id db)) [
    | inl absent ↦ rw (absent, cancel_in_queue, cancel_job) Alike-refl
    | inr (job, found) ↦ elim (Bool-cases (is_final job.status)) [
      | inl final ↦ rw (found, cancel_in_queue, cancel_job) (rw final Alike-refl)
      | inr live ↦ cancel_in_queue-Alike now id reason job db found live
    ]
  ]

  -- Whether the job is missing or in a final state.
  abbrev pub is_out : String → Db r → Bool
  is_out id db = elim (get_job id db) [ none ↦ true | some job ↦ is_final job.status ]

  -- The job with the id is stored as CANCELLED.
  abbrev pub IsCancelledIn : String → Db r → Type 0
  IsCancelledIn id db =
      (job : JobInfo) × (get_job id db ≡ some job) × (job.status ≡ JobStatus.cancelled)

  -- What a cancellation leaves: the database as it was, where the job is out, or the job as CANCELLED.
  abbrev pub EndsAs : Bool → String → Db r → Db r → Type 0
  EndsAs true id db after = after ≡ db
  EndsAs false id db after = IsCancelledIn id after

  cancel_in_queue-out :
      (now : ℕ) (id reason : String) (db : Db r)
      → is_out id db ≡ true
      → (cancel_in_queue id db ≡ db) × ((cancel_job now id reason db).0 ≡ db)
  unfolding cancel_job is_terminal_state cancel_in_queue
  cancel_in_queue-out now id reason db out = elim (Option-cases (get_job id db)) [
    | inl absent ↦ rw (absent, cancel_in_queue, cancel_job) (refl, refl)
    | inr (job, found) ↦
        let final : is_final job.status ≡ true = ground arith in
        rw (found, cancel_in_queue, cancel_job) (rw final (refl, refl))
  ]

  cancel_in_queue-in :
      (now : ℕ) (id reason : String) (db : Db r)
      → is_out id db ≡ false
      → IsCancelledIn id (cancel_in_queue id db) × IsCancelledIn id (cancel_job now id reason db).0
  unfolding cancel_queued write_status restamp
  cancel_in_queue-in now id reason db live = elim (Option-cases (get_job id db)) [
    | inl absent ↦ absurd (ground arith)
    | inr (job, found) ↦
        let going : is_final job.status ≡ false = ground arith in
        rw
          (
            cancel_in_queue-live id job db found going,
            cancel_job-live now id reason job db found going,
          )
          (
            (
              record job { status = JobStatus.cancelled },
              ground (
                arith,
                eq_iff id id,
                r.get-set id id (record job { status = JobStatus.cancelled }) db.jobs,
              ),
              refl,
            ),
            (
              stamped now reason job,
              ground (arith, eq_iff id id, r.get-set id id (stamped now reason job) db.jobs),
              refl,
            ),
          )
  ]

  -- The gateway's cancellation does what the queue's does: every job has the same status in both, and
  -- is in the same sets of the statuses and of the workers. A job that is missing or in a final state
  -- is left alone by both, with the whole database; any other job is CANCELLED after both.
  pub cancel_in_queue-cancel_job :
      (now : ℕ) (id reason : String) (db : Db r)
      → Alike (cancel_in_queue id db) (cancel_job now id reason db).0
        × (EndsAs (is_out id db) id db (cancel_in_queue id db)
            × EndsAs (is_out id db) id db (cancel_job now id reason db).0)
  cancel_in_queue-cancel_job now id reason db = (
    cancel_in_queue-both now id reason db,
    elim (Bool-cases (is_out id db)) [
      | inl out ↦ rw out (cancel_in_queue-out now id reason db out)
      | inr live ↦ rw live (cancel_in_queue-in now id reason db live)
    ],
  )

  -- So it keeps the sets of the statuses in step with the stored jobs.
  pub cancel_in_queue-IsIndexed :
      (id : String) (db : Db r) → IsIndexed db → IsIndexed (cancel_in_queue id db)
  cancel_in_queue-IsIndexed id db inv =
      let alike = cancel_in_queue-both 0 id "" db in
      let kept = cancel-IsIndexed 0 id "" db inv in
      record { at = λ s j. alike.index s j ∙ kept.at s j ∙ sym (alike.statuses s j) }
