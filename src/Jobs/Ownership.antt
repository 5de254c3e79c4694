-- ===== src/Jobs/Ownership.antt =====
-- `updateOwned` of execution-job-store.ts and the three operations that go through it.
use web_app_qa_tests_main.Base.{
  ℕ, ◌≤◌, String, Bool, true, false, Option, none, some, List, [], ◌∷◌, ◌≡◌, ◌≢◌, refl, sym, ap,
  subst, ◌∙◌, ◌⊎◌, inl, inr, arith, is_some, eq_iff, eq_refl, find, find-eq-some, find-update_first,
  find-All, update_first, count-update_first_le, All, count, Bool-cases, Option-cases, eq_of_some,
}
use web_app_qa_tests_main.Jobs.{
  ExecutionJob, job_not_found, lease_ownership, Result, ok, err, is_owner, is_active, active_job,
  has_key, has_id, update_owned, running_job, beating_job, Outcome, completed_job,
}
use web_app_qa_tests_main.Jobs.Invariant.{JobOk, IsValid}

-- The job that the store holds under an id is open: queued, claimed or running.
abbrev pub IsOpen : String → List ExecutionJob → Type 0
IsOpen id jobs = (j : ExecutionJob) × (find (has_id id) jobs ≡ some j) × (is_active j.status ≡ true)

is_owner-eq-true :
    (o : Option String) (worker : String) → is_owner o worker ≡ true → o ≡ some worker
is_owner-eq-true none worker h = cc
is_owner-eq-true (some w) worker h = ap some ((eq_iff w worker).0 h)

not_owner : (o : Option String) (worker : String) → is_owner o worker ≡ false → o ≢ some worker
not_owner none worker h e = cc
not_owner (some w) worker h e = cc (eq_refl worker, eq_of_some e, h)

-- Every outcome of an operation on an owned job: the id finds no job, the job it finds has another
-- owner or none, or the first job with the id, and no other, is changed and dated.
abbrev pub Updates :
    (id worker : String)
    → (ExecutionJob → ExecutionJob)
    → (at : ℕ) → List ExecutionJob
    → Result (List ExecutionJob)
    → Type 0
Updates id worker operation at jobs r =
    ((find (has_id id) jobs ≡ none) × (r ≡ err (job_not_found id)))
    ⊎ ((j : ExecutionJob) × (find (has_id id) jobs ≡ some j)
        × (j.claimed_by ≢ some worker)
        × (r ≡ err (lease_ownership id worker)))
    ⊎ ((j : ExecutionJob) × (find (has_id id) jobs ≡ some j)
        × (j.claimed_by ≡ some worker)
        × (r ≡ ok (update_first (has_id id) (λ k. record (operation k) { updated_at = at }) jobs)))

-- An owned operation is refused with not-found when the id finds no job and with the ownership
-- error when the found job has another owner or none; otherwise it changes and dates the first
-- job with the id and nothing else.
pub update_owned-Updates :
    (id worker : String) (operation : ExecutionJob → ExecutionJob) (at : ℕ)
    (jobs : List ExecutionJob)
    → Updates id worker operation at jobs (update_owned id worker operation at jobs)
unfolding update_owned
update_owned-Updates id worker operation at jobs = elim (Option-cases (find (has_id id) jobs)) [
  | inl missing ↦ inl (missing, rw (missing, update_owned))
  | inr (j, found) ↦ elim (Bool-cases (is_owner j.claimed_by worker)) [
    | inl owns ↦
        inr (
          inr (j, found, is_owner-eq-true j.claimed_by worker owns, rw (found, owns, update_owned)))
    | inr foreign ↦
        inr
          (inl (j, found, not_owner j.claimed_by worker foreign, rw (found, foreign, update_owned)))
  ]
]

-- Nothing but the owner of an existing job gets past `updateOwned`.
pub update_owned-eq-ok :
    (id worker : String) (operation : ExecutionJob → ExecutionJob) (at : ℕ)
    (jobs jobs' : List ExecutionJob)
    → update_owned id worker operation at jobs ≡ ok jobs'
    → (j : ExecutionJob) × (find (has_id id) jobs ≡ some j)
      × (j.claimed_by ≡ some worker)
      × (jobs' ≡ update_first (has_id id) (λ k. record (operation k) { updated_at = at }) jobs)
update_owned-eq-ok id worker operation at jobs jobs' e =
    elim (update_owned-Updates id worker operation at jobs) [
      | inl (_, r) ↦ cc
      | inr (inl (_, _, _, r)) ↦ cc
      | inr (inr (j, found, owner, r)) ↦ (j, found, owner, cc)
    ]

-- The owner of a job is never refused, and the store then holds the changed job under its id.
pub update_owned_accepts :
    (id worker : String) (operation : ExecutionJob → ExecutionJob) (at : ℕ)
    (jobs : List ExecutionJob) (j : ExecutionJob)
    → find (has_id id) jobs ≡ some j
    → j.claimed_by ≡ some worker
    → (operation j).id ≡ j.id
    → (jobs' : List ExecutionJob) × (update_owned id worker operation at jobs ≡ ok jobs')
      × (find (has_id id) jobs' ≡ some (record (operation j) { updated_at = at }))
unfolding update_owned
update_owned_accepts id worker operation at jobs j found owner same_id = (
  update_first (has_id id) changed jobs,
  rw (found, owner, eq_refl worker, update_owned),
  find-update_first (has_id id) changed jobs j found
      (rw same_id (find-eq-some (has_id id) jobs j found)),
)
  where
    changed : ExecutionJob → ExecutionJob
    changed k = record (operation k) { updated_at = at }

-- What an operation must respect for a store to stay well formed.
abbrev pub Keeps : (ExecutionJob → ExecutionJob) → Type 0
Keeps f =
    (j : ExecutionJob)
    → ((f j).id ≡ j.id)
      × ((f j).idempotency_key ≡ j.idempotency_key)
      × (JobOk j → is_some j.claimed_by ≡ true → is_active j.status ≡ true → JobOk (f j))

pub running_job-Keeps :
    (now lease_ms at : ℕ) → Keeps (λ j. record (running_job now lease_ms j) { updated_at = at })
running_job-Keeps now lease_ms at j = (refl, refl, λ h owned open_job. ground arith)

pub beating_job-Keeps :
    (now lease_ms at : ℕ) → Keeps (λ j. record (beating_job now lease_ms j) { updated_at = at })
beating_job-Keeps now lease_ms at j = (refl, refl, λ h owned open_job. ground arith)

pub completed_job-Keeps :
    (outcome : Outcome) (error : Option String) (now at : ℕ)
    → Keeps (λ j. record (completed_job outcome error now j) { updated_at = at })
completed_job-Keeps outcome error now at j = (refl, refl, λ h owned open_job. ground arith)

-- The job that is changed is the one that was found, so its facts are those of the found one.
update_first_found-All {κ} :
    (P : ExecutionJob → Type κ) (p : ExecutionJob → Bool) (f : ExecutionJob → ExecutionJob)
    (jobs : List ExecutionJob) (j : ExecutionJob)
    → find p jobs ≡ some j
    → P (f j)
    → All P jobs
    → All P (update_first p f jobs)
unfolding find update_first
update_first_found-All P p f [] j e h k = tt
update_first_found-All P p f (x ∷ xs) j e h k = elim (Bool-cases (p x)) [
  | inl t ↦ rw t (subst (λ y. P (f y)) (sym (some_value (rw (t, find) at e))) h, k.1)
  | inr n ↦ rw n (k.0, update_first_found-All P p f xs j (rw (n, find) at e) h k.1)
]
  where
    some_value : {a b : ExecutionJob} → some a ≡ some b → a ≡ b
    some_value q = cc

count_found :
    (q p : ExecutionJob → Bool) (f : ExecutionJob → ExecutionJob) (jobs : List ExecutionJob)
    (j : ExecutionJob)
    → find p jobs ≡ some j
    → (q (f j) ≡ true → q j ≡ true)
    → count q (update_first p f jobs) ≤ count q jobs
unfolding find update_first
count_found q p f [] j e h = omega arith
count_found q p f (x ∷ xs) j e h = ground (arith, count_found q p f xs j)

-- Every operation of the owner on an open job keeps the store well formed.
pub update_owned-IsValid :
    (id worker : String) (operation : ExecutionJob → ExecutionJob) (at : ℕ)
    (jobs jobs' : List ExecutionJob)
    → Keeps (λ j. record (operation j) { updated_at = at })
    → IsOpen id jobs
    → IsValid jobs
    → update_owned id worker operation at jobs ≡ ok jobs'
    → IsValid jobs'
update_owned-IsValid id worker operation at jobs jobs' keeps open_job v e =
    let (j, found, owner, same) = update_owned-eq-ok id worker operation at jobs jobs' e in
    let active : is_active j.status ≡ true = is_open j found open_job in
    rw same (record {
      single_active = ground (
        arith,
        count_found active_job (has_id id) changed jobs j found (λ _. active),
        v.single_active,
      );
      unique_keys = λ key. omega (
        arith,
        count-update_first_le (has_key key) (has_id id) changed jobs
            (λ x _ h. rw ((keeps x).1) at h),
        v.unique_keys key,
      );
      unique_ids = λ k. omega (
        arith,
        count-update_first_le (has_id k) (has_id id) changed jobs (λ x _ h. rw ((keeps x).0) at h),
        v.unique_ids k,
      );
      jobs_ok =
          update_first_found-All JobOk (has_id id) changed jobs j found
            ((keeps j).2 (find-All JobOk (has_id id) jobs j v.jobs_ok found) (rw owner) active)
            v.jobs_ok;
    })
  where
    changed : ExecutionJob → ExecutionJob
    changed k = record (operation k) { updated_at = at }

    is_open :
        (j : ExecutionJob)
        → find (has_id id) jobs ≡ some j
        → IsOpen id jobs
        → is_active j.status ≡ true
    is_open j found (k, held, active) =
        subst (λ l. is_active l.status ≡ true) (eq_of_some (sym held ∙ found)) active
