-- ===== src/Jobs/Claim.antt =====
-- The choice that `claimLocalJob` of execution-job-store.ts makes.
use web_app_qa_tests_main.Base.{
  ℕ, ◌≤◌, Bool, true, Option, none, some, List, ◌≡◌, refl, ap, ◌⊎◌, inl, inr, arith, find, find-All,
  find-eq-some, filter, filter-All, filter-All_back, filter-passes, sort_by-All, head?-sort_by,
  head?-sort_by-none, with_index, with_index-All, with_index-All_back, set, get_elem?, head?, All,
  All-head?, All-zip, All-set, All-get_elem?, count-set, Option-cases,
}
use web_app_qa_tests_main.Jobs.{
  queued, ExecutionJob, ClaimInput, is_queued, is_claimable, active_job, has_key, has_id,
  claimed_job, candidates, claim_next,
}
use web_app_qa_tests_main.Jobs.Invariant.{JobOk, IsValid}

-- The entry at `i` is claimable, and no claimable entry is older.
pub record IsOldest (jobs : List ExecutionJob) (i : ℕ) (j : ExecutionJob) : Type 0 where
  pub stands : get_elem? jobs i ≡ some j
  pub claimable : is_claimable j ≡ true
  pub oldest : All (λ k. is_claimable k ≡ true → j.created_at ≤ k.created_at) jobs

head?-candidates :
    (jobs : List ExecutionJob) (i : ℕ) (j : ExecutionJob)
    → head? (candidates jobs) ≡ some (i, j)
    → IsOldest jobs i j
head?-candidates jobs i j e = record {
  stands =
      All-head? (λ (c : ℕ × ExecutionJob). get_elem? jobs c.0 ≡ some c.1) (candidates jobs) (i, j)
        (sort_by-All key (λ (c : ℕ × ExecutionJob). get_elem? jobs c.0 ≡ some c.1) fitting
          (filter-All (λ (c : ℕ × ExecutionJob). get_elem? jobs c.0 ≡ some c.1) passes
            (with_index jobs) (with_index-All jobs)))
        e;
  claimable =
      All-head? (λ c. passes c ≡ true) (candidates jobs) (i, j)
        (sort_by-All key (λ c. passes c ≡ true) fitting (filter-passes passes (with_index jobs))) e;
  oldest =
      with_index-All_back (λ k. is_claimable k ≡ true → j.created_at ≤ k.created_at) jobs
        (filter-All_back (λ c. j.created_at ≤ key c) passes (with_index jobs)
          (head?-sort_by key fitting (i, j) e));
}
  where
    key : ℕ × ExecutionJob → ℕ
    key c = c.1.created_at

    passes : ℕ × ExecutionJob → Bool
    passes c = is_claimable c.1

    fitting : List (ℕ × ExecutionJob)
    fitting = filter passes (with_index jobs)

no_candidates :
    (jobs : List ExecutionJob)
    → head? (candidates jobs) ≡ none
    → All (λ k. is_claimable k ≡ true → ⊥) jobs
no_candidates jobs e =
    with_index-All_back (λ k. is_claimable k ≡ true → ⊥) jobs
      (filter-All_back (λ _. ⊥) (λ (c : ℕ × ExecutionJob). is_claimable c.1) (with_index jobs)
        (head?-sort_by-none (λ (c : ℕ × ExecutionJob). c.1.created_at) _ e))

-- What a claim does: nothing when no job is claimable, or the change of one oldest job.
abbrev pub Claims :
    ClaimInput → ℕ → List ExecutionJob → Option ExecutionJob × List ExecutionJob → Type 0
Claims input now jobs r =
    ((r ≡ (none, jobs)) × All (λ k. is_claimable k ≡ true → ⊥) jobs)
    ⊎ ((i : ℕ) × (j : ExecutionJob) × IsOldest jobs i j
        × (r ≡ (some (claimed_job input now j), set jobs i (claimed_job input now j))))

-- A claim changes nothing when no job is claimable; otherwise it takes a claimable job than which
-- no claimable job is older, and replaces exactly that entry by its claimed form.
pub claim_next-Claims :
    (input : ClaimInput) (now : ℕ) (jobs : List ExecutionJob)
    → Claims input now jobs (claim_next input now jobs)
unfolding claim_next
claim_next-Claims input now jobs = elim (Option-cases (head? (candidates jobs))) [
  | inl e ↦ inl (rw (e, claim_next), no_candidates jobs e)
  | inr (c, e) ↦ inr (c.0, c.1, head?-candidates jobs c.0 c.1 e, rw (e, claim_next))
]

claimed_job-JobOk :
    (input : ClaimInput) (now : ℕ) (j : ExecutionJob)
    → JobOk j
    → is_claimable j ≡ true
    → JobOk (claimed_job input now j)
claimed_job-JobOk input now j h c = ground arith

pub claim_next-IsValid :
    (input : ClaimInput) (now : ℕ) (jobs : List ExecutionJob)
    → IsValid jobs
    → IsValid (claim_next input now jobs).1
claim_next-IsValid input now jobs v = elim (claim_next-Claims input now jobs) [
  | inl (e, _) ↦ rw e v
  | inr (i, j, old, e) ↦ rw e (record {
    single_active =
        rw
          (count-set active_job jobs i j (claimed_job input now j) old.stands
            (ground (arith, old.claimable)))
          v.single_active;
    unique_keys = λ key.
        rw (count-set (has_key key) jobs i j (claimed_job input now j) old.stands refl)
          (v.unique_keys key);
    unique_ids = λ id.
        rw (count-set (has_id id) jobs i j (claimed_job input now j) old.stands refl)
          (v.unique_ids id);
    jobs_ok = All-set JobOk jobs i (claimed_job input now j) v.jobs_ok (
        claimed_job-JobOk input now j (All-get_elem? JobOk jobs i j v.jobs_ok old.stands)
          old.claimable);
  })
]

queued_is_claimable :
    (j : ExecutionJob) → JobOk j → is_queued j.status ≡ true → is_claimable j ≡ true
queued_is_claimable j h q =
    let status : j.status ≡ queued = ground arith in
    let (_, _, below) = h.queued_free status in ground arith

-- In a well formed store with a queued job a claim always gets a job.
pub claim_next_progress :
    (input : ClaimInput) (now : ℕ) (jobs : List ExecutionJob) (q : ExecutionJob)
    → IsValid jobs
    → find (λ j. is_queued j.status) jobs ≡ some q
    → (job : ExecutionJob) × ((claim_next input now jobs).0 ≡ some job)
claim_next_progress input now jobs q v e = elim (claim_next-Claims input now jobs) [
  | inl (_, stuck) ↦
      let (fine, never) =
        find-All (λ k. JobOk k × (is_claimable k ≡ true → ⊥)) (λ j. is_queued j.status) jobs q
          (All-zip JobOk (λ k. is_claimable k ≡ true → ⊥) jobs v.jobs_ok stuck) e in
      absurd (never (queued_is_claimable q fine (find-eq-some (λ j. is_queued j.status) jobs q e)))
  | inr (i, j, _, same) ↦ (claimed_job input now j, ap (λ r. r.0) same)
]
