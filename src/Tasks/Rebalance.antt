-- ===== src/Tasks/Rebalance.antt =====
-- `rebalance_load`: jobs move from overloaded workers to underutilised ones. The threshold is a
-- percentage.
use mesh_ml.Prelude.{
  List-cases, ℕ, ◌+◌, ◌-◌, ◌*◌, ◌/◌, ◌≡◌, refl, String, Bool, true, ◌&&◌, ◌||◌, Option, none, inl,
  inr, List, [], ◌∷◌, ltb, leb, ◌==◌, if◌then◌else◌, length, take, map, filter_by,
}
use mesh_ml.Redis.{Redis}
use mesh_ml.JobQueue.{JobInfo, release_job_from_worker, list_jobs, filtered_ids}
use mesh_ml.Workers.{discover_workers}
use mesh_ml.Tasks.Records.{
  WorkerLoad, attribute_error, zero_division_error, Attempt, raised, returned, Surroundings,
  TaskAssignmentService, attempt_map,
}
use mesh_ml.Tasks.Selection.{get_worker_jobs, worker_loads}
use mesh_ml.Tasks.Assigning.{discovery_assign}

pub record RebalanceStats : Type 0 where
  pub reassigned_jobs : ℕ
  pub overloaded_workers : ℕ
  pub underutilized_workers : ℕ

-- `load.utilization > threshold`, `load.utilization < 0.5` and
-- `int((load.utilization - threshold) * load.total_capacity)`
abbrev pub is_overloaded : ℕ → WorkerLoad → Bool
is_overloaded threshold l =
    ltb 0 l.total_capacity && ltb (threshold * l.total_capacity) (100 * l.assigned_jobs)

abbrev pub is_underutilized : WorkerLoad → Bool
is_underutilized l = l.total_capacity == 0 || ltb (2 * l.assigned_jobs) l.total_capacity

abbrev pub jobs_to_move : ℕ → WorkerLoad → ℕ
jobs_to_move threshold l = (100 * l.assigned_jobs - threshold * l.total_capacity) / 100

-- The first underutilised worker has one job more, and goes when it is balanced.
unfoldable pub loaded : WorkerLoad → List WorkerLoad → List WorkerLoad
loaded target others =
    let more = record target { assigned_jobs = target.assigned_jobs + 1 } in
    if leb target.total_capacity (2 * more.assigned_jobs) then others else more ∷ others

module _ {r : Redis JobInfo} {e : Surroundings} where
  -- A job is released and assigned again: the underutilised workers that are left, and the number of
  -- jobs moved so far.
  unfoldable pub move_job :
      ℕ
      → String
      → String
      → WorkerLoad
      → List WorkerLoad
      → ℕ
      → TaskAssignmentService r e
      → TaskAssignmentService r e × Attempt (List WorkerLoad × ℕ)
  unfolding discovery_assign loaded
  move_job now job_id from target others moved s =
      let released = record s {
        queue = (release_job_from_worker now job_id from "Load rebalancing" s.queue).0;
      } in
      let (s', done) = discovery_assign now job_id target.worker_id none released in
      (
        s',
        if done
            then (if target.total_capacity == 0
                then raised zero_division_error
                else returned (loaded target others, moved + 1))
            else returned (target ∷ others, moved),
      )

  -- The inner loop stops when no underutilised worker is left.
  unfoldable pub move_jobs :
      ℕ
      → String
      → List String
      → List WorkerLoad
      → ℕ
      → TaskAssignmentService r e
      → TaskAssignmentService r e × Attempt (List WorkerLoad × ℕ)
  unfolding move_job
  move_jobs now from [] free moved s = (s, returned (free, moved))
  move_jobs now from (id ∷ ids) [] moved s = (s, returned ([], moved))
  move_jobs now from (id ∷ ids) (target ∷ others) moved s =
      let (s', answer) = move_job now id from target others moved s in
      elim answer [
        | raised f ↦ (s', raised f)
        | returned (free, n) ↦ move_jobs now from ids free n s'
      ]

  -- The outer loop stops there too.
  unfoldable pub relieve :
      ℕ
      → ℕ
      → List WorkerLoad
      → List WorkerLoad
      → ℕ
      → TaskAssignmentService r e
      → TaskAssignmentService r e × Attempt (List WorkerLoad × ℕ)
  unfolding move_jobs get_worker_jobs
  relieve now threshold [] free moved s = (s, returned (free, moved))
  relieve now threshold (l ∷ ls) [] moved s = (s, returned ([], moved))
  relieve now threshold (l ∷ ls) (target ∷ others) moved s = elim (get_worker_jobs l.worker_id s) [
    | raised f ↦ (s, raised f)
    | returned jobs ↦
        let (s', answer) =
          move_jobs now l.worker_id (take (jobs_to_move threshold l) jobs) (target ∷ others) moved
            s in
        elim answer [
          | raised f ↦ (s', raised f)
          | returned (free, n) ↦ relieve now threshold ls free n s'
        ]
  ]

  unfoldable pub rebalance_load :
      ℕ
      → Option String
      → ℕ
      → TaskAssignmentService r e
      → TaskAssignmentService r e × Attempt RebalanceStats
  unfolding relieve worker_loads
  rebalance_load now group_id threshold s =
      let workers = discover_workers group_id 0 (λ _. true) s.discovery in
      elim (worker_loads workers s) [
        | raised f ↦ (s, raised f)
        | returned pairs ↦
            let loads = map (λ p. p.1) pairs in
            let overloaded = filter_by (is_overloaded threshold) loads in
            let (s', answer) =
              relieve now threshold overloaded (filter_by is_underutilized loads) 0 s in
            (
              s',
              attempt_map
                  (λ end. record {
                    reassigned_jobs = end.1;
                    overloaded_workers = length overloaded;
                    underutilized_workers = length end.0;
                  })
                  answer,
            )
      ]

  -- `rebalance_load` moves no job: while the discovery service knows no worker there is nothing to do,
  -- and as soon as it knows one the call raises. The service is left as it was.
  pub rebalance_load_refused :
      (now threshold : ℕ) (group_id : Option String) (s : TaskAssignmentService r e)
      → rebalance_load now group_id threshold s ≡ (
        s,
        elim (discover_workers group_id 0 (λ _. true) s.discovery) [
          | [] ↦
              returned
                (record { reassigned_jobs = 0; overloaded_workers = 0; underutilized_workers = 0 })
          | _ ∷ _ ↦ raised attribute_error
        ],
      )
  unfolding rebalance_load list_jobs filtered_ids
  rebalance_load_refused now threshold group_id s =
      elim (List-cases (discover_workers group_id 0 (λ _. true) s.discovery)) [
        | inl nobody ↦ rw (nobody, rebalance_load) refl
        | inr (w, ws, there) ↦ rw (there, rebalance_load) refl
      ]
