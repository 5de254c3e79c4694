-- ===== src/Jobs/Invariant.antt =====
-- Well-formed stores of execution-job-store.ts, and what each operation keeps.
use web_app_qa_tests_main.Base.{
  ℕ, ◌≤◌, ◌<◌, String, Bool, true, false, none, List, [], ◌∷◌, ◌++◌, ◌≡◌, refl, ◌⊎◌, inl, inr,
  arith, or_else, is_some, str_eq, eq_iff, find, All, All-append, count, count-append, Bool-cases,
  Option-cases, find-eq-none,
}
use web_app_qa_tests_main.Jobs.{
  queued, claimed, running, abandoned, ExecutionJob, EnqueueInput, Result, ok, err, is_active,
  is_terminal, active_job, has_key, has_id, enqueue, new_job,
}

-- What holds of every job between two operations.
pub record JobOk (j : ExecutionJob) : Type 0 where
  pub attempts : j.attempt ≤ j.max_attempts
  pub queued_free :
      j.status ≡ queued
      → (j.claimed_by ≡ none) × (j.lease_expires_at ≡ none) × (j.attempt < j.max_attempts)
  pub held :
      (j.status ≡ claimed) ⊎ (j.status ≡ running)
      → (is_some j.claimed_by ≡ true) × (is_some j.lease_expires_at ≡ true) × (0 < j.attempt)
  pub terminal_dated : is_terminal j.status ≡ true → is_some j.completed_at ≡ true
  pub open_undated : is_active j.status ≡ true → j.completed_at ≡ none
  pub abandoned_free : j.status ≡ abandoned → j.claimed_by ≡ none

-- At most one job is queued, claimed or running; keys and ids name one job each.
pub record IsValid (jobs : List ExecutionJob) : Type 0 where
  pub single_active : count active_job jobs ≤ 1
  pub unique_keys : (key : String) → count (has_key key) jobs ≤ 1
  pub unique_ids : (id : String) → count (has_id id) jobs ≤ 1
  pub jobs_ok : All JobOk jobs

pub IsValid-nil : IsValid []
IsValid-nil = record {
  single_active = omega arith;
  unique_keys = λ key. omega arith;
  unique_ids = λ id. omega arith;
  jobs_ok = tt;
}

count_of_none {ℓ} :
    {A : Type ℓ} (p : A → Bool) (xs : List A) → All (λ x. p x ≡ false) xs → count p xs ≡ 0
count_of_none p [] h = refl
count_of_none p (x ∷ xs) h = ground (arith, count_of_none p xs)

find-none-count {ℓ} : {A : Type ℓ} (p : A → Bool) (xs : List A) → find p xs ≡ none → count p xs ≡ 0
find-none-count p xs e = count_of_none p xs (find-eq-none p xs e)

-- Appending an entry that a test which found nothing may accept.
count_append_fresh {ℓ} :
    {A : Type ℓ} (p : A → Bool) (xs : List A) (x : A)
    → find p xs ≡ none
    → count p (xs ++ x ∷ []) ≤ 1
count_append_fresh p xs x e = ground (arith, count-append p xs (x ∷ []), find-none-count p xs e)

count_append_other {ℓ} :
    {A : Type ℓ} (p : A → Bool) (xs : List A) (x : A)
    → p x ≡ false
    → count p xs ≤ 1
    → count p (xs ++ x ∷ []) ≤ 1
count_append_other p xs x n h = ground (arith, count-append p xs (x ∷ []))

-- A fresh text is the only one of its kind.
count_append_named :
    (field : ExecutionJob → String) (jobs : List ExecutionJob) (j : ExecutionJob)
    → find (λ k. str_eq (field k) (field j)) jobs ≡ none
    → ((key : String) → count (λ k. str_eq (field k) key) jobs ≤ 1)
    → (key : String) → count (λ k. str_eq (field k) key) (jobs ++ j ∷ []) ≤ 1
count_append_named field jobs j fresh h key = elim (Bool-cases (str_eq (field j) key)) [
  | inl t ↦
      count_append_fresh (λ k. str_eq (field k) key) jobs j
        (rw ((eq_iff (field j) key).0 t) at fresh)
  | inr n ↦ count_append_other (λ k. str_eq (field k) key) jobs j n (h key)
]

new_job-JobOk :
    (input : EnqueueInput) (now : ℕ) (uuid : String)
    → 0 < or_else input.max_attempts 2
    → JobOk (new_job input now uuid)
new_job-JobOk input now uuid h = ground arith

-- The state after a call: a refused one leaves the store as it was.
abbrev pub after {ℓ} :
    {A : Type ℓ} → List ExecutionJob → Result (A × List ExecutionJob) → List ExecutionJob
after jobs (ok (_, jobs')) = jobs'
after jobs (err _) = jobs

pub enqueue-IsValid :
    (input : EnqueueInput) (now : ℕ) (uuid : String) (jobs : List ExecutionJob)
    → find (has_id uuid) jobs ≡ none
    → 0 < or_else input.max_attempts 2
    → IsValid jobs
    → IsValid (after jobs (enqueue input now uuid jobs))
unfolding enqueue
enqueue-IsValid input now uuid jobs fresh pos v =
    elim (Option-cases (find (has_key input.idempotency_key) jobs)) [
      | inr (j, e) ↦ rw (e, enqueue) v
      | inl e ↦ elim (Option-cases (find active_job jobs)) [
        | inr (j, a) ↦ rw (e, a, enqueue) v
        | inl a ↦
            rw (e, a, enqueue)
              (record {
                single_active = count_append_fresh active_job jobs (new_job input now uuid) a;
                unique_keys =
                    count_append_named (λ j. j.idempotency_key) jobs (new_job input now uuid) e
                      v.unique_keys;
                unique_ids =
                    count_append_named (λ j. j.id) jobs (new_job input now uuid) fresh v.unique_ids;
                jobs_ok =
                    All-append JobOk jobs (new_job input now uuid ∷ []) v.jobs_ok
                      (new_job-JobOk input now uuid pos, tt);
              })
      ]
    ]
