-- ===== src/Gateway/Waiting.antt =====
-- The wait of a job for its dataset: when it ends, and how a cancellation ends it.
use mesh_ml.Prelude.{
  ◌≡◌, refl, String, Bool, true, false, Option, none, some, List, [], ◌∷◌, ◌++◌, map, ap, ◌∙◌,
  arith, filter_by, if◌then◌else◌, Bool-cases, Option-cases, inl, inr, subst, sym, elem, ◌=ˢ◌,
  eq_iff,
}
use mesh_ml.Gateway.Tables.{
  Job, Dataset, Database, Response, ok, raised, one_or_none, select_one, update_rows, any_row,
  is_job, is_dataset,
}
use mesh_ml.Gateway.Jobs.{
  stopped, is_again, is_stopped, is_coming, poll_dataset, poll, wait, cancel_row, free_dataset,
}
use mesh_ml.Gateway.Endings.{Response-cases}

-- The statuses that the routes on datasets write when an upload or an extraction is over, and the one
-- of a dataset that is ready.
abbrev pub is_final_status : String → Bool
is_final_status status = elem status ("uploaded" ∷ "failed" ∷ "available" ∷ [])

-- The dataset's upload is over, or its row cannot be read.
abbrev pub is_settled : String → Database → Bool
is_settled dataset_id db = elim (select_one (is_dataset dataset_id) db.datasets) [
  | raised e ↦ true
  | ok row ↦ elim row [ none ↦ true | some dataset ↦ is_final_status dataset.status ]
]

not_coming : (d : Dataset) → is_final_status d.status ≡ true → is_coming d ≡ false
not_coming d final = elim (Bool-cases ("uploaded" =ˢ d.status)) [
  | inl e ↦ rw (sym ((eq_iff "uploaded" d.status).0 e)) refl
  | inr not_uploaded ↦ elim (Bool-cases ("failed" =ˢ d.status)) [
    | inl e ↦ rw (sym ((eq_iff "failed" d.status).0 e)) refl
    | inr not_failed ↦
        let e : ("available" =ˢ d.status) ≡ true = ground arith in
        rw (sym ((eq_iff "available" d.status).0 e)) refl
  ]
]

poll_dataset-settled :
    (row : Response (Option Dataset))
    → (elim row as (λ r. Bool) [
      | raised e ↦ true
      | ok o ↦ elim o [ none ↦ true | some dataset ↦ is_final_status dataset.status ]
    ])
      ≡ true
    → is_again (poll_dataset row) ≡ false
poll_dataset-settled (raised e) h = refl
poll_dataset-settled (ok none) h = refl
poll_dataset-settled (ok (some dataset)) h = ground (arith, not_coming dataset h)

poll_settled :
    (job_id dataset_id : String) (db : Database)
    → is_settled dataset_id db ≡ true
    → is_again (poll job_id dataset_id db) ≡ false
unfolding poll
poll_settled job_id dataset_id db h = elim (Response-cases (select_one (is_job job_id) db.jobs)) [
  | inr (e, r) ↦ rw (r, poll) refl
  | inl (job, r) ↦ elim (Bool-cases (is_stopped job)) [
    | inl stop ↦ rw (r, poll) (rw stop refl)
    | inr going ↦
        rw (r, poll)
          (rw going (poll_dataset-settled (select_one (is_dataset dataset_id) db.datasets) h))
  ]
]

-- The wait for a dataset ends by the first round whose tables have it as "uploaded", "failed" or
-- "available", or cannot give its row, whatever the rounds before it and after it find.
pub wait_ends :
    (job_id dataset_id : String) (rounds : List Database)
    → any_row (is_settled dataset_id) rounds ≡ true
    → is_again (wait job_id dataset_id rounds) ≡ false
unfolding wait
wait_ends job_id dataset_id [] h = absurd (cc)
wait_ends job_id dataset_id (db ∷ later) h =
    elim (Bool-cases (is_again (poll job_id dataset_id db))) [
      | inr done ↦ rw done done
      | inl more ↦ rw more (
          wait_ends job_id dataset_id later (elim (Bool-cases (is_settled dataset_id db)) [
            | inl settled ↦ absurd (ground (arith, poll_settled job_id dataset_id db settled))
            | inr open_still ↦ ground arith
          ]))
    ]

module _ {A : Type 0} (p : A → Bool) (f : A → A) (same : (x : A) → p (f x) ≡ p x) where
  filter_by-update_rows :
      (rows : List A) → filter_by p (update_rows p f rows) ≡ map f (filter_by p rows)
  unfolding update_rows
  filter_by-update_rows [] = refl
  filter_by-update_rows (x ∷ xs) = ground (arith, same x, filter_by-update_rows xs)

  one_or_none-map :
      (rows : List A) {x : A}
      → one_or_none rows ≡ ok (some x)
      → one_or_none (map f rows) ≡ ok (some (f x))
  unfolding one_or_none
  one_or_none-map [] h = absurd (cc)
  one_or_none-map (x ∷ []) {x = y} h = ap (λ y. ok (some (f y))) (let e : x ≡ y = cc in e)
  one_or_none-map (x ∷ y ∷ rest) h = absurd (cc)

  -- The row that a key selects, after a write to it.
  select_one-update_rows :
      (rows : List A) {x : A}
      → select_one p rows ≡ ok (some x)
      → select_one p (update_rows p f rows) ≡ ok (some (f x))
  unfolding select_one
  select_one-update_rows rows {x = x} h =
      rw (filter_by-update_rows rows) (one_or_none-map (filter_by p rows) {x = x} h)

abbrev cancelled : Job → Job
cancelled j = record j { status = "cancelled" }

cancel_row-ok :
    (job_id user : String) (db : Database) {db' : Database}
    → cancel_row job_id user db ≡ ok db'
    → (job : Job) × (select_one (is_job job_id) db.jobs ≡ ok (some job))
      × (db'.jobs ≡ update_rows (is_job job_id) cancelled db.jobs)
unfolding cancel_row
cancel_row-ok job_id user db {db' = db'} h =
    elim (Response-cases (select_one (is_job job_id) db.jobs)) [
      | inr (e, r) ↦ absurd (ground arith)
      | inl (o, r) ↦ elim (Option-cases o) [
        | inl absent ↦ absurd (ground arith)
        | inr (job, there) ↦ (
          job,
          r ∙ ap ok there,
          elim (Response-cases (free_dataset job.dataset_id db)) [
            | inl (d, fd) ↦ ground arith
            | inr (e, fd) ↦ ground arith
          ],
        )
      ]
    ]

cancel_row-stopped :
    (job_id dataset_id user : String) (db : Database) {db' : Database}
    → cancel_row job_id user db ≡ ok db'
    → poll job_id dataset_id db' ≡ stopped
unfolding poll
cancel_row-stopped job_id dataset_id user db {db' = db'} h =
    let (job, found, jobs_are) = cancel_row-ok job_id user db h in
    let now : select_one (is_job job_id) db'.jobs ≡ ok (some (cancelled job)) =
      subst (λ rows. select_one (is_job job_id) rows ≡ ok (some (cancelled job))) (sym jobs_are)
        (select_one-update_rows (is_job job_id) cancelled (λ j. refl) db.jobs found) in
    rw (now, poll) refl

-- A wait that has not ended when its job is cancelled ends in the next round, and the task returns
-- without reading the dataset.
pub wait-cancel_row :
    (job_id dataset_id user : String) (earlier later : List Database) (db : Database)
    {db' : Database}
    → is_again (wait job_id dataset_id earlier) ≡ true
    → cancel_row job_id user db ≡ ok db'
    → wait job_id dataset_id (earlier ++ db' ∷ later) ≡ stopped
unfolding wait
wait-cancel_row job_id dataset_id user [] later db h done =
    rw (cancel_row-stopped job_id dataset_id user db done) refl
wait-cancel_row job_id dataset_id user (x ∷ xs) later db h done =
    elim (Bool-cases (is_again (poll job_id dataset_id x))) [
      | inl more ↦ rw more (
          wait-cancel_row job_id dataset_id user xs later db
            (subst
              (λ b.
                is_again (if b then wait job_id dataset_id xs else poll job_id dataset_id x) ≡ true)
              more h)
            done)
      | inr ended ↦ absurd (ground arith)
    ]
