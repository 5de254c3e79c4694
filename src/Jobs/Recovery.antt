-- ===== src/Jobs/Recovery.antt =====
-- What the recovery of expired leases in execution-job-store.ts does to a store.
use web_app_qa_tests_main.Base.{
  ℕ, ◌+◌, String, Bool, true, false, ◌&&◌, none, some, List, [], ◌∷◌, ◌≡◌, ◌≢◌, refl, sym, ◌∙◌, inl,
  inr, arith, find, All, All₂, count-All₂, find-All₂, All-All₂, count, length, Bool-cases,
  eq_of_some,
}
use web_app_qa_tests_main.Jobs.{
  queued, abandoned, ExecutionJob, ClaimInput, lease_ownership, err, is_held, active_job, has_key,
  has_id, update_owned,
}
use web_app_qa_tests_main.Jobs.Recover.{
  retry_reason, blocked_reason, is_expired, may_retry, recovered_job, recover_from,
  recover_abandoned, poll,
}
use web_app_qa_tests_main.Jobs.Invariant.{JobOk, IsValid}
use web_app_qa_tests_main.Jobs.Claim.{claim_next-IsValid}
use web_app_qa_tests_main.Jobs.Ownership.{update_owned-Updates}

-- What one job becomes: itself, or free of its worker and either queued again or abandoned.
pub record Recovers (now : ℕ) (j k : ExecutionJob) : Type 0 where
  pub same_id : k.id ≡ j.id
  pub same_key : k.idempotency_key ≡ j.idempotency_key
  pub same_attempt : (k.attempt ≡ j.attempt) × (k.max_attempts ≡ j.max_attempts)
  pub untouched : is_expired now j ≡ false → k ≡ j
  pub freed : is_expired now j ≡ true → (k.claimed_by ≡ none) × (k.lease_expires_at ≡ none)
  pub retried :
      is_expired now j ≡ true
      → may_retry j ≡ true
      → (k.status ≡ queued) × (k.completed_at ≡ none) × (k.last_error ≡ some retry_reason)
  pub blocked :
      is_expired now j ≡ true
      → may_retry j ≡ false
      → (k.status ≡ abandoned) × (k.completed_at ≢ none) × (k.last_error ≡ some blocked_reason)

recovered_job-Recovers :
    (now ended updated : ℕ) (j : ExecutionJob)
    → is_expired now j ≡ true
    → Recovers now j (recovered_job ended updated j)
recovered_job-Recovers now ended updated j e = record {
  same_id = refl;
  same_key = refl;
  same_attempt = (refl, refl);
  untouched = λ n. cc;
  freed = λ _. (refl, refl);
  retried = λ _ r. ground arith;
  blocked = λ _ r. (ground arith, rw r (λ n. cc), ground arith);
}

unexpired-Recovers : (now : ℕ) (j : ExecutionJob) → is_expired now j ≡ false → Recovers now j j
unexpired-Recovers now j e = record {
  same_id = refl;
  same_key = refl;
  same_attempt = (refl, refl);
  untouched = λ _. refl;
  freed = λ t. cc;
  retried = λ t. cc;
  blocked = λ t. cc;
}

recover_from-Recovers :
    (now : ℕ) (clock : ℕ → ℕ) (round : ℕ) (jobs : List ExecutionJob)
    → All₂ (Recovers now) jobs (recover_from now clock round jobs).1
unfolding recover_from
recover_from-Recovers now clock round [] = tt
recover_from-Recovers now clock round (j ∷ jobs) = elim (Bool-cases (is_expired now j)) [
  | inl t ↦ rw t (
    recovered_job-Recovers now (clock round) (clock (round + 1)) j t,
    recover_from-Recovers now clock (round + 2) jobs,
  )
  | inr n ↦ rw n (unexpired-Recovers now j n, recover_from-Recovers now clock (round + 2) jobs)
]

-- Recovery leaves every job whose lease has not run out as it was, and frees every other from its
-- worker: a claimed one with attempts left is queued again with the retry reason, any other, in
-- particular a running one, is abandoned with a completion date and the blocking reason; ids,
-- keys and attempts stay.
pub recover_abandoned-Recovers :
    (now : ℕ) (clock : ℕ → ℕ) (jobs : List ExecutionJob)
    → All₂ (Recovers now) jobs (recover_abandoned now clock jobs).1
unfolding recover_abandoned
recover_abandoned-Recovers now clock jobs = recover_from-Recovers now clock 0 jobs

pub length-recover_from :
    (now : ℕ) (clock : ℕ → ℕ) (round : ℕ) (jobs : List ExecutionJob)
    → length (recover_from now clock round jobs).0 ≡ count (is_expired now) jobs
unfolding recover_from
length-recover_from now clock round [] = refl
length-recover_from now clock round (j ∷ jobs) = elim (Bool-cases (is_expired now j)) [
  | inl t ↦ ground (arith, length-recover_from now clock (round + 2) jobs)
  | inr n ↦ ground (arith, length-recover_from now clock (round + 2) jobs)
]

Recovers-unexpired :
    (now : ℕ) (j k : ExecutionJob) → Recovers now j k → Unit {0} → is_expired now k ≡ false
Recovers-unexpired now j k r _ = elim (Bool-cases (is_expired now j)) [
  | inl t ↦ rw ((r.freed t).1) (false_right (is_held k.status))
  | inr n ↦ rw (r.untouched n) n
]
  where
    false_right : (b : Bool) → (b && false) ≡ false
    false_right true = refl
    false_right false = refl

All-unit : (jobs : List ExecutionJob) → All (λ _. Unit {0}) jobs
All-unit [] = tt
All-unit (j ∷ jobs) = (tt, All-unit jobs)

-- After one pass of recovery no job is left whose lease had run out by then, and the pass reports
-- as many jobs as had one.
pub recover_abandoned_complete :
    (now : ℕ) (clock : ℕ → ℕ) (jobs : List ExecutionJob)
    → All (λ k. is_expired now k ≡ false) (recover_abandoned now clock jobs).1
      × (length (recover_abandoned now clock jobs).0 ≡ count (is_expired now) jobs)
unfolding recover_abandoned
recover_abandoned_complete now clock jobs = (
  All-All₂ (Recovers now) (λ _. Unit {0}) (λ k. is_expired now k ≡ false) jobs
      (recover_from now clock 0 jobs).1 (Recovers-unexpired now)
      (recover_from-Recovers now clock 0 jobs) (All-unit jobs),
  length-recover_from now clock 0 jobs,
)

Recovers-JobOk : (now : ℕ) (j k : ExecutionJob) → Recovers now j k → JobOk j → JobOk k
Recovers-JobOk now j k r h = elim (Bool-cases (is_expired now j)) [
  | inr n ↦ rw (r.untouched n) h
  | inl t ↦ elim (Bool-cases (may_retry j)) [
    | inl retry ↦
        let (q, c, _) = r.retried t retry in
        let (w, l) = r.freed t in let (a, m) = r.same_attempt in ground arith
    | inr stop ↦
        let (q, c, _) = r.blocked t stop in
        let (w, l) = r.freed t in let (a, m) = r.same_attempt in ground arith
  ]
]

Recovers-active :
    (now : ℕ) (j k : ExecutionJob) → Recovers now j k → active_job k ≡ true → active_job j ≡ true
Recovers-active now j k r a = elim (Bool-cases (is_expired now j)) [
  | inr n ↦ rw (r.untouched n) at a
  | inl t ↦ ground arith
]

-- Recovery keeps a store well formed.
pub recover_abandoned-IsValid :
    (now : ℕ) (clock : ℕ → ℕ) (jobs : List ExecutionJob)
    → IsValid jobs
    → IsValid (recover_abandoned now clock jobs).1
recover_abandoned-IsValid now clock jobs v = record {
  single_active = omega (
    arith,
    count-All₂ (Recovers now) active_job jobs after (Recovers-active now) table,
    v.single_active,
  );
  unique_keys = λ key. omega (
    arith,
    count-All₂ (Recovers now) (has_key key) jobs after (λ j k r h. rw r.same_key at h) table,
    v.unique_keys key,
  );
  unique_ids = λ id. omega (
    arith,
    count-All₂ (Recovers now) (has_id id) jobs after (λ j k r h. rw r.same_id at h) table,
    v.unique_ids id,
  );
  jobs_ok = All-All₂ (Recovers now) JobOk JobOk jobs after (Recovers-JobOk now) table v.jobs_ok;
}
  where
    after : List ExecutionJob
    after = (recover_abandoned now clock jobs).1

    table : All₂ (Recovers now) jobs after
    table = recover_abandoned-Recovers now clock jobs

-- After a recovery that finds the lease of a job run out, every owned operation on that job by
-- any worker is refused with the ownership error.
pub recovered_is_locked :
    (now : ℕ) (clock : ℕ → ℕ) (jobs : List ExecutionJob) (id worker : String)
    (operation : ExecutionJob → ExecutionJob) (at : ℕ) (j : ExecutionJob)
    → find (has_id id) jobs ≡ some j
    → is_expired now j ≡ true
    → update_owned id worker operation at (recover_abandoned now clock jobs).1
      ≡ err (lease_ownership id worker)
recovered_is_locked now clock jobs id worker operation at j e t =
    let (k, found, r) =
      find-All₂ (Recovers now) (has_id id) jobs (recover_abandoned now clock jobs).1 j
        (λ a b r. rw r.same_id) (recover_abandoned-Recovers now clock jobs) e in
    let free : k.claimed_by ≡ none = (r.freed t).0 in
    elim (update_owned-Updates id worker operation at (recover_abandoned now clock jobs).1) [
      | inl (missing, _) ↦ cc
      | inr (inl (_, _, _, refused)) ↦ refused
      | inr (inr (k', found', owner, _)) ↦ let same : k ≡ k' = eq_of_some (sym found ∙ found') in cc
    ]

-- The worker's poll keeps a store well formed.
pub poll-IsValid :
    (input : ClaimInput) (now : ℕ) (clock : ℕ → ℕ) (claim_at : ℕ) (jobs : List ExecutionJob)
    → IsValid jobs
    → IsValid (poll input now clock claim_at jobs).1
unfolding poll
poll-IsValid input now clock claim_at jobs v =
    claim_next-IsValid input claim_at (recover_abandoned now clock jobs).1
      (recover_abandoned-IsValid now clock jobs v)
