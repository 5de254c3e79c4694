-- ===== src/Jobs/Enqueue.antt =====
-- `enqueue` of execution-job-store.ts: idempotency keys and the single active job.
use web_app_qa_tests_main.Base.{
  ℕ, String, true, false, none, some, List, [], ◌∷◌, ◌++◌, ◌≡◌, sym, ◌∙◌, ◌⊎◌, inl, inr, arith,
  eq_refl, find, find-append, Option-cases,
}
use web_app_qa_tests_main.Jobs.{
  ExecutionJob, EnqueueInput, Enqueued, Result, ok, err, active_execution_job, active_job, has_key,
  new_job, enqueue,
}
use web_app_qa_tests_main.Jobs.Recover.{get_active, get_by_idempotency_key}

module _ (input : EnqueueInput) (now : ℕ) (uuid : String) (jobs : List ExecutionJob) where
  -- The three outcomes, by what the two searches find.
  abbrev pub Enqueues : Result (Enqueued × List ExecutionJob) → Type 0
  Enqueues r =
      ((j : ExecutionJob) × (find (has_key input.idempotency_key) jobs ≡ some j)
        × (r ≡ ok (record { created = false; job = j }, jobs)))
      ⊎ ((j : ExecutionJob) × (find (has_key input.idempotency_key) jobs ≡ none)
          × (find active_job jobs ≡ some j)
          × (r ≡ err (active_execution_job j.run_id)))
      ⊎ ((find (has_key input.idempotency_key) jobs ≡ none)
          × (find active_job jobs ≡ none)
          × (r
              ≡ ok (
                record { created = true; job = new_job input now uuid },
                jobs ++ new_job input now uuid ∷ [],
              )))

  pub enqueue-Enqueues : Enqueues (enqueue input now uuid jobs)
  unfolding enqueue
  enqueue-Enqueues = elim (Option-cases (find (has_key input.idempotency_key) jobs)) [
    | inr (j, e) ↦ inl (j, e, rw (e, enqueue))
    | inl e ↦ elim (Option-cases (find active_job jobs)) [
      | inr (j, a) ↦ inr (inl (j, e, a, rw (e, a, enqueue)))
      | inl a ↦ inr (inr (e, a, rw (e, a, enqueue)))
    ]
  ]

-- A request that was accepted is found again by its key, and a new one is also the active job.
abbrev pub Holds : EnqueueInput → Enqueued → List ExecutionJob → Type 0
Holds input r jobs =
    (get_by_idempotency_key input.idempotency_key jobs ≡ some r.job)
    × ((r.created ≡ false) ⊎ (get_active jobs ≡ some r.job))

-- The job with which an accepted enqueue answers is found again by the idempotency key, and if it
-- is new it is also the active job of the store.
pub enqueue-Holds :
    (input : EnqueueInput) (now : ℕ) (uuid : String) (jobs jobs' : List ExecutionJob) (r : Enqueued)
    → enqueue input now uuid jobs ≡ ok (r, jobs')
    → Holds input r jobs'
unfolding get_by_idempotency_key get_active
enqueue-Holds input now uuid jobs jobs' r e = elim (enqueue-Enqueues input now uuid jobs) [
  | inl (j, found, same) ↦
      let (p, q) = parts (sym same ∙ e) in (rw (← p, ← q) found, inl (rw (← p)))
  | inr (inl (j, _, _, same)) ↦ cc
  | inr (inr (missing, idle, same)) ↦
      let (p, q) = parts (sym same ∙ e) in
      (
        rw (
          ← p,
          ← q,
          find-append (has_key input.idempotency_key) jobs (new_job input now uuid ∷ []) missing,
          find,
          eq_refl input.idempotency_key,
        ),
        inr (rw (← p, ← q, find-append active_job jobs (new_job input now uuid ∷ []) idle, find)),
      )
]
  where
    parts :
        {a b : Enqueued} {xs ys : List ExecutionJob}
        → ◌≡◌ {A = Result (Enqueued × List ExecutionJob)} (ok (a, xs)) (ok (b, ys))
        → (a ≡ b) × (xs ≡ ys)
    parts h = ground arith

-- After an accepted enqueue, another with the same idempotency key changes nothing and answers
-- with the job of the first, whatever else it asks for.
pub enqueue_idempotent :
    (input again : EnqueueInput) (now later : ℕ) (uuid fresh : String)
    (jobs jobs' : List ExecutionJob) (r : Enqueued)
    → enqueue input now uuid jobs ≡ ok (r, jobs')
    → again.idempotency_key ≡ input.idempotency_key
    → enqueue again later fresh jobs' ≡ ok (record { created = false; job = r.job }, jobs')
unfolding enqueue get_by_idempotency_key
enqueue_idempotent input again now later uuid fresh jobs jobs' r e same =
    let (found, _) = enqueue-Holds input now uuid jobs jobs' r e in rw (same, found, enqueue)
