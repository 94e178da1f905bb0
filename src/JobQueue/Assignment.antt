-- ===== src/JobQueue/Assignment.antt =====
-- Assignment of a job to a worker, its release, and cancellation.
use Prim.Native.String.{◌++◌ as append}
use mesh_ml.Prelude.{
  ℕ, ◌+◌, ◌≡◌, ◌≢◌, refl, String, true, false, ◌&&◌, not, Option, none, some, List, [], ◌∷◌, ◌=ˢ◌,
  ltb, eq_iff, if◌then◌else◌, Option-cases, is_some, inl, inr, arith,
}
use mesh_ml.Redis.{Redis}
use mesh_ml.JobQueue.Jobs.{
  JobStatus-discrete, waiting, running, failed, cancelled, JobPriority, JobInfo, can_retry,
  is_terminal_state, is_valid_transition,
}
use mesh_ml.JobQueue.Operations.{
  Db, at_worker, is_worker, leave_worker, leave_queues, assign_found, release_found, get_job,
  put_job, restamp, write_status, assign_job_to_worker, released, release_job_from_worker,
  cancel_job,
}
use mesh_ml.JobQueue.Update.{update_valid}

-- What a database says of job `id` after its assignment to `worker`, when it was stored as `job`.
pub record IsAssigned {r : Redis JobInfo} (id worker : String) (job : JobInfo) (db : Db r)
    : Type 0 where
  pub stored : JobInfo
  pub found : get_job id db ≡ some stored
  pub runs : stored.status ≡ running
  pub indexed : r.member id (db.by_worker worker) ≡ true
  pub unqueued : (p : JobPriority) → r.score id (db.queue p) ≡ none
  pub worker_recorded : stored.assigned_worker_id ≡ (
      if not (is_some job.started_at) && not (worker =ˢ "")
      then some worker
      else job.assigned_worker_id)
  pub shards_kept : stored.assigned_shard_ids ≡ job.assigned_shard_ids
  pub retries_kept : stored.retry_count ≡ job.retry_count

module _ {r : Redis JobInfo} (now : ℕ) (id worker : String) (shards : Option (List ℕ))
    (db : Db r) where
  abbrev assigned : JobInfo → Db r
  assigned job = leave_queues id (
      at_worker worker (r.sadd id)
        (write_status id job.status running (restamp now running none (some worker) job) db))

  assign-eq-assigned :
      (job : JobInfo)
      → get_job id db ≡ some job
      → job.status ≡ waiting
      → assign_job_to_worker now id worker shards db ≡ (assigned job, true)
  unfolding assign_job_to_worker assign_found is_valid_transition
  assign-eq-assigned job found waits =
      let valid : is_valid_transition job.status running ≡ true = rw waits in
      rw (found, assign_job_to_worker)
        (ground (arith, update_valid now id running none (some worker) db job found valid))

  assigned-IsAssigned : (job : JobInfo) → IsAssigned id worker job (assigned job)
  unfolding restamp write_status
  assigned-IsAssigned job = record {
    stored = restamp now running none (some worker) job;
    found =
        ground (
          arith,
          eq_iff id id,
          r.get-set id id (restamp now running none (some worker) job) db.jobs,
        );
    runs = refl;
    indexed =
        ground
          (arith, eq_iff worker worker, eq_iff id id, r.member-sadd id id (db.by_worker worker));
    unqueued = λ p. ground (arith, eq_iff id id, r.score-zrem id id (db.queue p));
    worker_recorded = ground arith;
    shards_kept = refl;
    retries_kept = refl;
  }

  -- A waiting job is assigned: the call succeeds, the stored job runs, it is indexed under the
  -- worker and in no queue any more, with as many retries counted. Two fields are not what the call
  -- asked for: the stored shard ids are those from before, whatever shard ids are given, and the
  -- stored worker is the new one only if the job had never been started and the worker id is not
  -- empty.
  pub assign_waiting :
      (job : JobInfo)
      → get_job id db ≡ some job
      → job.status ≡ waiting
      → ((assign_job_to_worker now id worker shards db).1 ≡ true)
        × IsAssigned id worker job (assign_job_to_worker now id worker shards db).0
  assign_waiting job found waits =
      rw (assign-eq-assigned job found waits) (refl, assigned-IsAssigned job)

  -- Any other job is refused, and nothing changes.
  pub assign_refused :
      ((job : JobInfo) → get_job id db ≡ some job → job.status ≢ waiting)
      → assign_job_to_worker now id worker shards db ≡ (db, false)
  unfolding assign_job_to_worker assign_found
  assign_refused other = elim (Option-cases (get_job id db)) [
    | inl absent ↦ rw (absent, assign_job_to_worker)
    | inr (job, found) ↦ rw (found, assign_job_to_worker) (ground (arith, other job found))
  ]

not_worker : (w : Option String) {worker : String} → w ≢ some worker → is_worker w worker ≡ false
not_worker none h = refl
not_worker (some w) {worker} h = ground (arith, eq_iff w worker)

-- The record of a job after its release.
pub record IsReleased {r : Redis JobInfo} (now : ℕ) (id worker : String) (job : JobInfo)
    (before after : Db r) : Type 0 where
  pub stored : JobInfo
  pub found : get_job id after ≡ some stored
  pub ends : stored.status ≡ failed
  pub unassigned : stored.assigned_worker_id ≡ none
  pub shards_cleared : stored.assigned_shard_ids ≡ []
  pub retries : stored.retry_count ≡ job.retry_count + 1
  pub unindexed : r.member id (after.by_worker worker) ≡ false
  pub queue_kept : after.queue ≡ before.queue
  pub dead_letter : after.dead_letter ≡ (
      if ltb (job.retry_count + 1) job.max_retries
      then before.dead_letter
      else id ∷ before.dead_letter)

module _ {r : Redis JobInfo} (now : ℕ) (id worker reason : String) (db : Db r) where
  failing : JobInfo → Db r
  failing job =
      write_status id job.status failed
        (restamp now failed (some "Max retries exceeded") none (released worker reason job))
        (put_job id (released worker reason job) (at_worker worker (r.srem id) db))

  release-eq-failing :
      (job : JobInfo)
      → get_job id db ≡ some job
      → job.status ≡ running
      → job.assigned_worker_id ≡ some worker
      → release_job_from_worker now id worker reason db ≡ (failing job, true)
  unfolding release_job_from_worker release_found failing is_valid_transition can_retry released
  release-eq-failing job found runs mine =
      let new = released worker reason job in
      let stored = put_job id new (at_worker worker (r.srem id) db) in
      let got : get_job id stored ≡ some new =
        ground (arith, eq_iff id id, r.get-set id id new db.jobs) in
      let valid : is_valid_transition new.status failed ≡ true = rw runs in
      let never : can_retry new ≡ false = ground arith in
      let mine' : is_worker job.assigned_worker_id worker ≡ true =
        ground (arith, eq_iff worker worker) in
      let updated =
        update_valid now id failed (some "Max retries exceeded") none stored new got valid in
      rw (found, release_job_from_worker) (rw mine' (rw never (rw updated)))

  failing-IsReleased : (job : JobInfo) → IsReleased now id worker job db (failing job)
  unfolding failing restamp write_status released can_retry JobStatus-discrete
  failing-IsReleased job = record {
    stored = restamp now failed (some "Max retries exceeded") none (released worker reason job);
    found = ground (
      arith,
      eq_iff id id,
      r.get-set id id
          (restamp now failed (some "Max retries exceeded") none (released worker reason job))
          (r.set id (released worker reason job) db.jobs),
    );
    ends = refl;
    unassigned = refl;
    shards_cleared = refl;
    retries = refl;
    unindexed =
        ground
          (arith, eq_iff worker worker, eq_iff id id, r.member-srem id id (db.by_worker worker));
    queue_kept = refl;
    dead_letter = ground arith;
  }

  -- A running job that is released from its worker ends in FAILED, with one more retry counted, no
  -- worker and no shards; it is put in no queue again, whatever retries are left, and is listed as a
  -- dead letter only when the retries are used up.
  pub release_running :
      (job : JobInfo)
      → get_job id db ≡ some job
      → job.status ≡ running
      → job.assigned_worker_id ≡ some worker
      → ((release_job_from_worker now id worker reason db).1 ≡ true)
        × IsReleased now id worker job db (release_job_from_worker now id worker reason db).0
  release_running job found runs mine =
      rw (release-eq-failing job found runs mine) (refl, failing-IsReleased job)

  -- Releasing fails and changes nothing when no job is stored under the id, or the stored job is
  -- not assigned to the worker.
  pub release_refused :
      ((job : JobInfo) → get_job id db ≡ some job → job.assigned_worker_id ≢ some worker)
      → release_job_from_worker now id worker reason db ≡ (db, false)
  unfolding release_job_from_worker
  release_refused other = elim (Option-cases (get_job id db)) [
    | inl absent ↦ rw (absent, release_job_from_worker)
    | inr (job, found) ↦
        let no_worker : is_worker job.assigned_worker_id worker ≡ false =
          not_worker job.assigned_worker_id (other job found) in
        rw (found, release_job_from_worker) (rw no_worker)
  ]

module _ {r : Redis JobInfo} (worker : Option String) (id : String) (db : Db r) where
  leave_unqueued :
      (p : JobPriority) → r.score id ((leave_worker worker id (leave_queues id db)).queue p) ≡ none
  leave_unqueued p = ground (arith, eq_iff id id, r.score-zrem id id (db.queue p))

  leave_unindexed :
      (w : String)
      → worker ≡ some w
      → w ≢ ""
      → r.member id ((leave_worker worker id (leave_queues id db)).by_worker w) ≡ false
  leave_unindexed w e h =
      ground (arith, eq_iff w "", eq_iff w w, eq_iff id id, r.member-srem id id (db.by_worker w))

-- What holds after a job is cancelled.
pub record IsCancelled {r : Redis JobInfo} (id : String) (job : JobInfo) (db : Db r) : Type 0 where
  pub stored : JobInfo
  pub found : get_job id db ≡ some stored
  pub ends : stored.status ≡ cancelled
  pub unqueued : (p : JobPriority) → r.score id (db.queue p) ≡ none
  pub unindexed :
      (w : String) → job.assigned_worker_id ≡ some w → w ≢ "" → r.member id (db.by_worker w) ≡ false

module _ {r : Redis JobInfo} (now : ℕ) (id reason : String) (db : Db r) where
  -- Cancelling a job that is in no terminal state succeeds: the job is stored as cancelled, is in no
  -- queue, and its worker, if it has one, no longer lists it.
  pub cancel_live :
      (job : JobInfo)
      → get_job id db ≡ some job
      → is_terminal_state job ≡ false
      → ((cancel_job now id reason db).1 ≡ true)
        × IsCancelled id job (cancel_job now id reason db).0
  unfolding cancel_job is_terminal_state is_valid_transition restamp write_status
  cancel_live job found live =
      let left = leave_worker job.assigned_worker_id id (leave_queues id db) in
      let got : get_job id left ≡ some job = ground arith in
      let valid : is_valid_transition job.status cancelled ≡ true = ground arith in
      let message = some (append "Cancelled: " reason) in
      let new = restamp now cancelled message none job in
      let updated = update_valid now id cancelled message none left job got valid in
      rw (found, cancel_job)
        (rw live (
          rw updated (
            refl,
            record {
              stored = new;
              found = ground (arith, eq_iff id id, r.get-set id id new left.jobs);
              ends = refl;
              unqueued = leave_unqueued job.assigned_worker_id id db;
              unindexed = leave_unindexed job.assigned_worker_id id db;
            },
          )))

  -- Cancelling is refused, and nothing changes, when the job is missing or in a terminal state.
  pub cancel_refused :
      ((job : JobInfo) → get_job id db ≡ some job → is_terminal_state job ≡ true)
      → cancel_job now id reason db ≡ (db, false)
  unfolding cancel_job
  cancel_refused other = elim (Option-cases (get_job id db)) [
    | inl absent ↦ rw (absent, cancel_job)
    | inr (job, found) ↦ rw (found, cancel_job) (rw (other job found))
  ]
