-- ===== src/Workers/Rollback.antt =====
-- The two assignments of a job, in the queue and in the registry.
use mesh_ml.Prelude.{
  ℕ, ◌+◌, ◌≡◌, refl, ap, ◌∙◌, String, true, false, Option, none, some, List, ◌=ˢ◌, arith, eq_iff,
}
use mesh_ml.Prelude.Dict.{lookup, lookup-insert}
use mesh_ml.Redis.{Redis}
use mesh_ml.JobQueue.{
  JobInfo, waiting, failed, Db, get_job, assign_job_to_worker, release_job_from_worker,
}
use mesh_ml.JobQueue.Assignment.{IsAssigned, assign_waiting, release_running}
use mesh_ml.Workers.Registry.{WorkerStatus, RegistryWorker, Registry, occupied, registry_assign}
use mesh_ml.Workers.Membership.{Service}
use mesh_ml.Workers.Discovery.{first_shard, assign_both, match_and_assign}

-- What `registry_assign` leaves of a worker.
abbrev pub IsBusyWith : String → String → Registry → Type 0
IsBusyWith worker job_id workers =
    (w : RegistryWorker) × (lookup worker workers ≡ some w)
    × (w.status ≡ WorkerStatus.busy)
    × (w.assigned_job_id ≡ some job_id)

module _ (worker job_id : String) (shard : Option ℕ) (workers : Registry) where
  registry_assign-absent :
      lookup worker workers ≡ none → registry_assign worker job_id shard workers ≡ (workers, false)
  unfolding registry_assign
  registry_assign-absent absent = rw (absent, registry_assign) refl

  registry_assign-found :
      (w : RegistryWorker)
      → lookup worker workers ≡ some w
      → ((registry_assign worker job_id shard workers).1 ≡ true)
        × IsBusyWith worker job_id (registry_assign worker job_id shard workers).0
  unfolding registry_assign
  registry_assign-found w found =
      rw (found, registry_assign)
        (
          refl,
          (
            occupied job_id shard w,
            ground (
              arith,
              eq_iff worker worker,
              lookup-insert worker worker (occupied job_id shard w) workers,
            ),
            refl,
            refl,
          ),
        )

module _ {r : Redis JobInfo} (now : ℕ) (job_id worker : String) (shards : Option (List ℕ))
    (s : Service) (db : Db r) where
  abbrev queued : Db r
  queued = (assign_job_to_worker now job_id worker shards db).0

  match_and_assign-named :
      (worker =ˢ "") ≡ false
      → match_and_assign now job_id (some worker) shards s db
        ≡ assign_both now job_id worker shards s db
  unfolding match_and_assign
  match_and_assign-named given = rw (given, match_and_assign) refl

  assign_both-absent :
      (assign_job_to_worker now job_id worker shards db).1 ≡ true
      → lookup worker s.registry ≡ none
      → assign_both now job_id worker shards s db ≡ (
        s,
        (release_job_from_worker now job_id worker "registry_assignment_failed" queued).0,
        false,
      )
  unfolding assign_both
  assign_both-absent ok absent =
      rw
        (
          ok,
          assign_both,
          registry_assign-absent worker job_id (first_shard shards) s.registry absent,
        )
        refl

  assign_both-found :
      (w : RegistryWorker)
      → (assign_job_to_worker now job_id worker shards db).1 ≡ true
      → lookup worker s.registry ≡ some w
      → assign_both now job_id worker shards s db ≡ (
        record s { registry = (registry_assign worker job_id (first_shard shards) s.registry).0 },
        queued,
        true,
      )
  unfolding assign_both
  assign_both-found w ok found =
      rw
        (
          ok,
          assign_both,
          (registry_assign-found worker job_id (first_shard shards) s.registry w found).0,
        )
        refl

  -- A waiting job and a worker with a name that the registry knows: the call succeeds, the job runs
  -- and is indexed under the worker, and the registry has the worker busy with the job.
  pub match_and_assign-known :
      (job : JobInfo) (w : RegistryWorker)
      → get_job job_id db ≡ some job
      → job.status ≡ waiting
      → (worker =ˢ "") ≡ false
      → lookup worker s.registry ≡ some w
      → let (s', db', success) = match_and_assign now job_id (some worker) shards s db in
        (success ≡ true) × IsAssigned job_id worker job db' × IsBusyWith worker job_id s'.registry
  match_and_assign-known job w stored waits given found =
      let (ok, assigned) = assign_waiting now job_id worker shards db job stored waits in
      rw (match_and_assign-named given, assign_both-found w ok found)
        (
          refl,
          assigned,
          (registry_assign-found worker job_id (first_shard shards) s.registry w found).1,
        )

  -- A waiting job that was never started, and a worker with a name that the registry does not know:
  -- the call fails and leaves the registry as it was, but the job is not waiting again: it is stored
  -- as FAILED, without a worker, with one retry more.
  pub match_and_assign-unknown :
      (job : JobInfo)
      → get_job job_id db ≡ some job
      → job.status ≡ waiting
      → job.started_at ≡ none
      → (worker =ˢ "") ≡ false
      → lookup worker s.registry ≡ none
      → let (s', db', success) = match_and_assign now job_id (some worker) shards s db in
        (success ≡ false)
        × (s' ≡ s)
        × ((job' : JobInfo) × (get_job job_id db' ≡ some job')
            × (job'.status ≡ failed)
            × (job'.assigned_worker_id ≡ none)
            × (job'.retry_count ≡ job.retry_count + 1))
  match_and_assign-unknown job stored waits new given absent =
      let (ok, assigned) = assign_waiting now job_id worker shards db job stored waits in
      let mine : assigned.stored.assigned_worker_id ≡ some worker =
        ground (arith, assigned.worker_recorded) in
      let (_, ended) =
        release_running now job_id worker "registry_assignment_failed" queued assigned.stored
          assigned.found assigned.runs mine in
      let counted = ended.retries ∙ ap (λ n. n + 1) assigned.retries_kept in
      rw (match_and_assign-named given, assign_both-absent ok absent)
        (refl, refl, (ended.stored, ended.found, ended.ends, ended.unassigned, counted))
