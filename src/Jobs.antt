-- ===== src/Jobs.antt =====
-- dashboard/lib/inssa-ops/execution-job-store.ts: the records of execution jobs and the operations
-- of `LocalExecutionJobStore`. A store is the list of jobs in its file, which every operation reads
-- and writes under one lock. Instants are milliseconds since the epoch, and each reading of the
-- clock is an argument.
pub mod Recover
pub mod Invariant
pub mod Claim
pub mod Ownership
pub mod Recovery
pub mod Enqueue
mod Tests
pub mod Lifecycle
use web_app_qa_tests_main.Base.{
  ℕ, suc, ◌+◌, String, Bool, true, false, ◌&&◌, ◌||◌, not, Option, none, some, List, [], ◌∷◌, ◌++◌,
  ltb, leb, if◌then◌else◌, or_else, str_eq, find, filter, update_first, sort_by, with_index, set,
  head?,
}

pub data JobStatus : Type 0 where
  queued claimed running completed failed abandoned : JobStatus

-- The execution context and the artifact selection are kept as the JSON that the store copies.
pub record ExecutionJob : Type 0 where
  pub attempt : ℕ
  pub campaign_key : String
  pub claimed_at : Option ℕ
  pub claimed_by : Option String
  pub completed_at : Option ℕ
  pub created_at : ℕ
  pub execution_context : Option String
  pub heartbeat_at : Option ℕ
  pub id : String
  pub idempotency_key : String
  pub last_error : Option String
  pub lease_expires_at : Option ℕ
  pub lifecycle_artifact : Option String
  pub max_attempts : ℕ
  pub run_id : String
  pub status : JobStatus
  pub updated_at : ℕ

pub record EnqueueInput : Type 0 where
  pub campaign_key : String
  pub idempotency_key : String
  pub lifecycle_artifact : Option String
  pub execution_context : Option String
  pub max_attempts : Option ℕ
  pub run_id : String

pub record ClaimInput : Type 0 where
  pub lease_ms : ℕ
  pub worker_id : String

pub data JobError : Type 0 where
  active_execution_job : (active_run_id : String) → JobError
  job_not_found : (job_id : String) → JobError
  lease_ownership : (job_id worker_id : String) → JobError

pub data Result {ℓ} (A : Type ℓ) : Type ℓ where
  ok : A → Result A
  err : JobError → Result A

abbrev pub is_active : JobStatus → Bool
is_active queued = true
is_active claimed = true
is_active running = true
is_active _ = false

abbrev pub is_terminal : JobStatus → Bool
is_terminal completed = true
is_terminal failed = true
is_terminal abandoned = true
is_terminal _ = false

abbrev pub is_queued : JobStatus → Bool
is_queued queued = true
is_queued _ = false

abbrev pub is_claimed : JobStatus → Bool
is_claimed claimed = true
is_claimed _ = false

-- `["claimed", "running"].includes(status)`
abbrev pub is_held : JobStatus → Bool
is_held claimed = true
is_held running = true
is_held _ = false

abbrev pub active_job : ExecutionJob → Bool
active_job j = is_active j.status

abbrev pub has_key : String → ExecutionJob → Bool
has_key key j = str_eq j.idempotency_key key

abbrev pub has_id : String → ExecutionJob → Bool
has_id id j = str_eq j.id id

pub record Enqueued : Type 0 where
  pub created : Bool
  pub job : ExecutionJob

abbrev new_job : EnqueueInput → (now : ℕ) → (uuid : String) → ExecutionJob
new_job input now uuid = record {
  attempt = 0;
  campaign_key = input.campaign_key;
  claimed_at = none;
  claimed_by = none;
  completed_at = none;
  created_at = now;
  execution_context = input.execution_context;
  heartbeat_at = none;
  id = uuid;
  idempotency_key = input.idempotency_key;
  last_error = none;
  lease_expires_at = none;
  lifecycle_artifact = input.lifecycle_artifact;
  max_attempts = or_else input.max_attempts 2;
  run_id = input.run_id;
  status = queued;
  updated_at = now;
}

-- The operation with what the two searches of the store returned.
enqueue_found :
    EnqueueInput
    → ℕ
    → String
    → List ExecutionJob
    → Option ExecutionJob
    → Option ExecutionJob
    → Result (Enqueued × List ExecutionJob)
enqueue_found input now uuid jobs (some existing) _ =
    ok (record { created = false; job = existing }, jobs)
enqueue_found input now uuid jobs none (some active) = err (active_execution_job active.run_id)
enqueue_found input now uuid jobs none none =
    let job = new_job input now uuid in ok (record { created = true; job = job }, jobs ++ job ∷ [])

unfoldable pub enqueue :
    EnqueueInput
    → (now : ℕ) → (uuid : String) → List ExecutionJob
    → Result (Enqueued × List ExecutionJob)
unfolding enqueue_found find
enqueue input now uuid jobs =
    enqueue_found input now uuid jobs (find (has_key input.idempotency_key) jobs)
      (find active_job jobs)

abbrev pub is_claimable : ExecutionJob → Bool
is_claimable j = is_queued j.status && ltb j.attempt j.max_attempts

abbrev pub claimed_job : ClaimInput → ℕ → ExecutionJob → ExecutionJob
claimed_job input now j = record j {
  attempt = j.attempt + 1;
  claimed_at = some now;
  claimed_by = some input.worker_id;
  heartbeat_at = some now;
  lease_expires_at = some (now + input.lease_ms);
  status = claimed;
  updated_at = now;
}

-- The claimable jobs with their positions, the oldest first.
abbrev pub candidates : List ExecutionJob → List (ℕ × ExecutionJob)
candidates jobs =
    sort_by (λ e. e.1.created_at)
      (filter (λ (e : ℕ × ExecutionJob). is_claimable e.1) (with_index jobs))

claim_candidate :
    ClaimInput
    → ℕ
    → List ExecutionJob
    → Option (ℕ × ExecutionJob)
    → Option ExecutionJob × List ExecutionJob
claim_candidate input now jobs none = (none, jobs)
claim_candidate input now jobs (some (i, j)) =
    let job = claimed_job input now j in (some job, set jobs i job)

-- `claimLocalJob`, which is the whole of `claimNext`.
unfoldable pub claim_next :
    ClaimInput → (now : ℕ) → List ExecutionJob → Option ExecutionJob × List ExecutionJob
unfolding claim_candidate sort_by filter with_index
claim_next input now jobs = claim_candidate input now jobs (head? (candidates jobs))

abbrev pub is_owner : Option String → String → Bool
is_owner none worker = false
is_owner (some w) worker = str_eq w worker

owned_found :
    (job_id worker : String) → Option ExecutionJob → List ExecutionJob → Result (List ExecutionJob)
owned_found job_id worker none jobs = err (job_not_found job_id)
owned_found job_id worker (some j) jobs =
    if is_owner j.claimed_by worker then ok jobs else err (lease_ownership job_id worker)

-- `at` is the reading of the clock that follows the operation.
unfoldable pub update_owned :
    (job_id worker : String)
    → (ExecutionJob → ExecutionJob)
    → (at : ℕ) → List ExecutionJob
    → Result (List ExecutionJob)
unfolding owned_found find update_first
update_owned job_id worker operation at jobs =
    owned_found job_id worker (find (has_id job_id) jobs)
      (update_first (has_id job_id) (λ j. record (operation j) { updated_at = at }) jobs)

abbrev pub running_job : (now lease_ms : ℕ) → ExecutionJob → ExecutionJob
running_job now lease_ms j = record j {
  status = running;
  heartbeat_at = some now;
  lease_expires_at = some (now + lease_ms);
}

unfoldable pub mark_running :
    (job_id worker : String)
    → (lease_ms now at : ℕ) → List ExecutionJob
    → Result (List ExecutionJob)
unfolding update_owned
mark_running job_id worker lease_ms now at jobs =
    update_owned job_id worker (running_job now lease_ms) at jobs

abbrev pub beating_job : (now lease_ms : ℕ) → ExecutionJob → ExecutionJob
beating_job now lease_ms j = record j {
  heartbeat_at = some now;
  lease_expires_at = some (now + lease_ms);
}

unfoldable pub heartbeat :
    (job_id worker : String)
    → (lease_ms now at : ℕ) → List ExecutionJob
    → Result (List ExecutionJob)
unfolding update_owned
heartbeat job_id worker lease_ms now at jobs =
    update_owned job_id worker (beating_job now lease_ms) at jobs

-- The two statuses that `complete` takes.
pub data Outcome : Type 0 where
  completes fails : Outcome

abbrev pub outcome_status : Outcome → JobStatus
outcome_status completes = completed
outcome_status fails = failed

abbrev pub completed_job : Outcome → Option String → ℕ → ExecutionJob → ExecutionJob
completed_job outcome error now j = record j {
  completed_at = some now;
  heartbeat_at = some now;
  last_error = error;
  lease_expires_at = none;
  status = outcome_status outcome;
}

unfoldable pub complete :
    (job_id worker : String)
    → Outcome
    → Option String
    → (now at : ℕ) → List ExecutionJob
    → Result (List ExecutionJob)
unfolding update_owned
complete job_id worker outcome error now at jobs =
    update_owned job_id worker (completed_job outcome error now) at jobs
