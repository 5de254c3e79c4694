-- ===== src/Jobs/Recover.antt =====
-- Recovery of expired leases, the worker's poll and the queries of
-- dashboard/lib/inssa-ops/execution-job-store.ts.
use web_app_qa_tests_main.Base.{
  ℕ, ◌+◌, String, Bool, false, ◌&&◌, Option, none, some, List, [], ◌∷◌, ltb, leb, if◌then◌else◌,
  str_eq, find, filter,
}
use web_app_qa_tests_main.Jobs.{
  queued, abandoned, ExecutionJob, ClaimInput, is_held, is_claimed, is_terminal, active_job,
  has_key, claim_next,
}

abbrev pub retry_reason : String
retry_reason =
    "Pre-execution worker lease expired; the claim may be retried without overlapping a campaign process."

abbrev pub blocked_reason : String
blocked_reason =
    "Execution recovery blocked: a running campaign lease expired and automatic retry is unsafe."

abbrev lease_passed : Option ℕ → ℕ → Bool
lease_passed none now = false
lease_passed (some lease) now = leb lease now

-- The two `continue` tests of the loop, negated.
abbrev pub is_expired : ℕ → ExecutionJob → Bool
is_expired now j = is_held j.status && lease_passed j.lease_expires_at now

abbrev pub may_retry : ExecutionJob → Bool
may_retry j = is_claimed j.status && ltb j.attempt j.max_attempts

-- `completed` and `updated` are the readings of the clock in one round of the loop.
abbrev pub recovered_job : (completed updated : ℕ) → ExecutionJob → ExecutionJob
recovered_job completed updated j = record j {
  claimed_by = none;
  lease_expires_at = none;
  completed_at = if may_retry j then none else some completed;
  last_error = some (if may_retry j then retry_reason else blocked_reason);
  status = if may_retry j then queued else abandoned;
  updated_at = updated;
}

-- The loop of `recoverExpiredJobs`: the copies of the recovered jobs, and the store. The n-th round
-- reads the clock at 2 n and 2 n + 1.
unfoldable pub recover_from :
    (now : ℕ)
    → (clock : ℕ → ℕ) → (round : ℕ) → List ExecutionJob
    → List ExecutionJob × List ExecutionJob
recover_from now clock round [] = ([], [])
recover_from now clock round (j ∷ jobs) =
    let (recovered, rest) = recover_from now clock (round + 2) jobs in
    let job = recovered_job (clock round) (clock (round + 1)) j in
    if is_expired now j then (job ∷ recovered, job ∷ rest) else (recovered, j ∷ rest)

unfoldable pub recover_abandoned :
    (now : ℕ) → (clock : ℕ → ℕ) → List ExecutionJob → List ExecutionJob × List ExecutionJob
unfolding recover_from
recover_abandoned now clock jobs = recover_from now clock 0 jobs

pub record Polled : Type 0 where
  pub recovered : List ExecutionJob
  pub job : Option ExecutionJob

-- Recovery and claim in one write; `claim_at` is the clock of the claim.
unfoldable pub poll :
    ClaimInput
    → (now : ℕ) → (clock : ℕ → ℕ) → (claim_at : ℕ) → List ExecutionJob
    → Polled × List ExecutionJob
unfolding recover_abandoned claim_next
poll input now clock claim_at jobs =
    let (recovered, rest) = recover_abandoned now clock jobs in
    let (job, store) = claim_next input claim_at rest in
    (record { recovered = recovered; job = job }, store)

unfoldable pub get_by_idempotency_key : String → List ExecutionJob → Option ExecutionJob
unfolding find
get_by_idempotency_key key jobs = find (has_key key) jobs

unfoldable pub get_by_run_id : String → List ExecutionJob → Option ExecutionJob
unfolding find
get_by_run_id run_id jobs = find (λ j. str_eq j.run_id run_id) jobs

unfoldable pub get_active : List ExecutionJob → Option ExecutionJob
unfolding find
get_active jobs = find active_job jobs

unfoldable pub list_terminal : List ExecutionJob → List ExecutionJob
unfolding filter
list_terminal jobs = filter (λ j. is_terminal j.status) jobs
