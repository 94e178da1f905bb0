-- ===== src/JobQueue/Choice.antt =====
-- Which job `get_next_job` returns.
use mesh_ml.Prelude.{
  ℕ, ◌≤◌, ◌<◌, ◌≡◌, ◌≢◌, ◌↔◌, ◌∙◌, refl, sym, String, true, Option, none, some, List, [], ◌∷◌,
  Option-cases, inl, inr, arith, All,
}
use mesh_ml.Redis.{Redis}
use mesh_ml.JobQueue.Jobs.{
  waiting, JobPriority, priority_value, JobInfo, JobRequirements, low, medium, high, critical,
}
use mesh_ml.JobQueue.Operations.{
  Db, get_job, candidate, drop_orphan, next_from, get_next_job, suits, priorities,
}

-- `job` is stored under an id that stands first in the queue of priority `p`, waits and suits.
pub record IsCandidate {r : Redis JobInfo} (requirements : Option JobRequirements) (p : JobPriority)
    (job : JobInfo) (db : Db r) : Type 0 where
  pub id : String
  pub stored : get_job id db ≡ some job
  pub waits : job.status ≡ waiting
  pub suitable : suits requirements job ≡ true
  pub time : ℕ
  pub first : r.zfirst (db.queue p) ≡ some id
  pub queued : r.score id (db.queue p) ≡ some time
  pub oldest : (j : String) (t : ℕ) → r.score j (db.queue p) ≡ some t → time ≤ t

abbrev Distinct : List JobPriority → Type 0
Distinct [] = Unit
Distinct (p ∷ ps) = All (λ q. p ≢ q) ps × Distinct ps

distinct : Distinct priorities
distinct = ground arith

module _ {r : Redis JobInfo} (requirements : Option JobRequirements) where
  candidate-IsCandidate :
      (p : JobPriority) (db : Db r) (job : JobInfo)
      → candidate requirements p db ≡ some job
      → IsCandidate requirements p job db
  unfolding candidate
  candidate-IsCandidate p db job h = elim (Option-cases (r.zfirst (db.queue p))) [
    | inl empty ↦ absurd (ground arith)
    | inr (id, first) ↦
        let (time, queued, oldest) = r.zfirst_some (db.queue p) first in
        record {
          id = id;
          stored = ground arith;
          waits = ground arith;
          suitable = ground arith;
          time = time;
          first = first;
          queued = queued;
          oldest = oldest;
        }
  ]

  -- Dropping an orphan of one queue leaves the other queues alone.
  candidate-drop_orphan :
      (p q : JobPriority) (db : Db r)
      → p ≢ q
      → candidate requirements q (drop_orphan p db) ≡ candidate requirements q db
  unfolding candidate drop_orphan
  candidate-drop_orphan p q db other = ground arith

  first_candidate : List JobPriority → Db r → Option JobInfo
  first_candidate [] db = none
  first_candidate (p ∷ ps) db = elim (candidate requirements p db) [
    | none ↦ first_candidate ps db
    | some job ↦ some job
  ]

  first_candidate-drop_orphan :
      (p : JobPriority) (ps : List JobPriority) (db : Db r)
      → All (λ q. p ≢ q) ps
      → first_candidate ps (drop_orphan p db) ≡ first_candidate ps db
  unfolding first_candidate
  first_candidate-drop_orphan p [] db h = refl
  first_candidate-drop_orphan p (q ∷ ps) db h =
      ground (arith, candidate-drop_orphan p q db h.0, first_candidate-drop_orphan p ps db h.1)

  next_from-eq-first_candidate :
      (ps : List JobPriority) (db : Db r)
      → Distinct ps
      → (next_from requirements ps db).1 ≡ first_candidate ps db
  unfolding next_from first_candidate
  next_from-eq-first_candidate [] db h = refl
  next_from-eq-first_candidate (p ∷ ps) db h = ground (
    arith,
    next_from-eq-first_candidate ps (drop_orphan p db) h.1,
    first_candidate-drop_orphan p ps db h.0,
  )

  not-IsCandidate :
      (p : JobPriority) (db : Db r) (job : JobInfo)
      → candidate requirements p db ≡ none
      → ¬ (IsCandidate requirements p job db)
  unfolding candidate
  not-IsCandidate p db job h c = ground (arith, c.first, c.stored, c.waits, c.suitable)

  none_above :
      (db : Db r) (p q : JobPriority)
      → (priority_value p < 3 → candidate requirements critical db ≡ none)
      → (priority_value p < 2 → candidate requirements high db ≡ none)
      → (priority_value p < 1 → candidate requirements medium db ≡ none)
      → priority_value p < priority_value q
      → candidate requirements q db ≡ none
  none_above db p critical c h m lt = c lt
  none_above db p high c h m lt = h lt
  none_above db p medium c h m lt = m lt
  none_above db p low c h m lt = absurd (omega arith)

  first_candidate-some :
      (db : Db r) (job : JobInfo)
      → first_candidate priorities db ≡ some job
      → (p : JobPriority) × (candidate requirements p db ≡ some job)
        × ((q : JobPriority)
            → priority_value p < priority_value q
            → candidate requirements q db ≡ none)
  unfolding first_candidate
  first_candidate-some db job e = elim (Option-cases (candidate requirements critical db)) [
    | inr (_, c) ↦ (
      critical,
      ground arith,
      λ q.
          none_above db critical q (λ lt. absurd (omega arith)) (λ lt. absurd (omega arith))
            (λ lt. absurd (omega arith)),
    )
    | inl c ↦ elim (Option-cases (candidate requirements high db)) [
      | inr (_, h) ↦ (
        high,
        ground arith,
        λ q.
            none_above db high q (λ lt. c) (λ lt. absurd (omega arith))
              (λ lt. absurd (omega arith)),
      )
      | inl h ↦ elim (Option-cases (candidate requirements medium db)) [
        | inr (_, m) ↦ (
          medium,
          ground arith,
          λ q. none_above db medium q (λ lt. c) (λ lt. h) (λ lt. absurd (omega arith)),
        )
        | inl m ↦ (low, ground arith, λ q. none_above db low q (λ lt. c) (λ lt. h) (λ lt. m))
      ]
    ]
  ]

  first_candidate-none :
      (db : Db r) (q : JobPriority)
      → first_candidate priorities db ≡ none
      → candidate requirements q db ≡ none
  unfolding first_candidate
  first_candidate-none db critical e = ground arith
  first_candidate-none db high e = ground arith
  first_candidate-none db medium e = ground arith
  first_candidate-none db low e = ground arith

  next-eq-first_candidate :
      (db : Db r) → (get_next_job requirements db).1 ≡ first_candidate priorities db
  unfolding get_next_job
  next-eq-first_candidate db = next_from-eq-first_candidate priorities db distinct

  -- The job that `get_next_job` returns waits, suits the requirements and stands first, as an oldest
  -- entry, in the queue of some priority, and no queue of a higher priority has such a job in front.
  pub get_next_job-IsCandidate :
      (db : Db r) (job : JobInfo)
      → (get_next_job requirements db).1 ≡ some job
      → (p : JobPriority) × IsCandidate requirements p job db
        × ((q : JobPriority) (other : JobInfo)
            → priority_value p < priority_value q
            → ¬ (IsCandidate requirements q other db))
  get_next_job-IsCandidate db job h =
      let (p, found, above) = first_candidate-some db job (sym (next-eq-first_candidate db) ∙ h) in
      (
        p,
        candidate-IsCandidate p db job found,
        λ q other lt. not-IsCandidate q db other (above q lt),
      )

  -- It returns nothing exactly when no queue has such a job in front.
  pub get_next_job-eq-none_iff :
      (db : Db r)
      → ((get_next_job requirements db).1 ≡ none)
        ↔ ((q : JobPriority) (job : JobInfo) → ¬ (IsCandidate requirements q job db))
  get_next_job-eq-none_iff db = (
    λ e q job.
        not-IsCandidate q db job (first_candidate-none db q (sym (next-eq-first_candidate db) ∙ e)),
    λ h. elim (Option-cases (get_next_job requirements db).1) [
      | inl e ↦ e
      | inr (job, e) ↦ let (p, c, _) = get_next_job-IsCandidate db job e in absurd (h p job c)
    ],
  )
