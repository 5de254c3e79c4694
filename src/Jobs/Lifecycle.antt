-- ===== src/Jobs/Lifecycle.antt =====
-- Whole lives of a store of execution-job-store.ts: the operations in any order, by any workers.
use web_app_qa_tests_main.Base.{
  ℕ, ◌<◌, String, Option, none, some, List, [], ◌≡◌, refl, sym, ap, subst, ◌∙◌, or_else, find,
}
use web_app_qa_tests_main.Jobs.{
  running, ExecutionJob, EnqueueInput, ClaimInput, Enqueued, Outcome, ok, has_id, enqueue,
  claim_next, mark_running, heartbeat, complete, running_job, beating_job, completed_job,
}
use web_app_qa_tests_main.Jobs.Recover.{recover_abandoned, poll}
use web_app_qa_tests_main.Jobs.Invariant.{IsValid, IsValid-nil, after, enqueue-IsValid}
use web_app_qa_tests_main.Jobs.Claim.{claim_next-IsValid}
use web_app_qa_tests_main.Jobs.Ownership.{
  IsOpen, update_owned-eq-ok, update_owned_accepts, update_owned-IsValid, running_job-Keeps,
  beating_job-Keeps, completed_job-Keeps,
}
use web_app_qa_tests_main.Jobs.Recovery.{recover_abandoned-IsValid, poll-IsValid}

-- One successful operation. A new id is fresh, an attempt is allowed, and a worker asks for a change
-- of a job only while that job is open; which worker asks, and when, is arbitrary.
pub data Step (jobs jobs' : List ExecutionJob) : Type 0 where
  enqueues :
      (input : EnqueueInput) (now : ℕ) (uuid : String) (r : Enqueued)
      → find (has_id uuid) jobs ≡ none
      → 0 < or_else input.max_attempts 2
      → enqueue input now uuid jobs ≡ ok (r, jobs')
      → Step jobs jobs'
  claims : (input : ClaimInput) (now : ℕ) → (claim_next input now jobs).1 ≡ jobs' → Step jobs jobs'
  recovers :
      (now : ℕ) (clock : ℕ → ℕ) → (recover_abandoned now clock jobs).1 ≡ jobs' → Step jobs jobs'
  polls :
      (input : ClaimInput) (now : ℕ) (clock : ℕ → ℕ) (claim_at : ℕ)
      → (poll input now clock claim_at jobs).1 ≡ jobs'
      → Step jobs jobs'
  runs :
      (id worker : String) (lease_ms now at : ℕ)
      → IsOpen id jobs
      → mark_running id worker lease_ms now at jobs ≡ ok jobs'
      → Step jobs jobs'
  beats :
      (id worker : String) (lease_ms now at : ℕ)
      → IsOpen id jobs
      → heartbeat id worker lease_ms now at jobs ≡ ok jobs'
      → Step jobs jobs'
  ends :
      (id worker : String) (outcome : Outcome) (error : Option String) (now at : ℕ)
      → IsOpen id jobs
      → complete id worker outcome error now at jobs ≡ ok jobs'
      → Step jobs jobs'

pub data Reach : List ExecutionJob → Type 0 where
  empty : Reach []
  next : {jobs jobs' : List ExecutionJob} → Reach jobs → Step jobs jobs' → Reach jobs'

Step-IsValid : {jobs jobs' : List ExecutionJob} → Step jobs jobs' → IsValid jobs → IsValid jobs'
unfolding mark_running heartbeat complete
Step-IsValid {jobs} (enqueues input now uuid r fresh pos e) v =
    rw (ap (after jobs) e) at (enqueue-IsValid input now uuid jobs fresh pos v)
Step-IsValid {jobs} (claims input now e) v = rw e at (claim_next-IsValid input now jobs v)
Step-IsValid {jobs} (recovers now clock e) v = rw e at (recover_abandoned-IsValid now clock jobs v)
Step-IsValid {jobs} (polls input now clock claim_at e) v =
    rw e at (poll-IsValid input now clock claim_at jobs v)
Step-IsValid {jobs} {jobs'} (runs id worker lease_ms now at open_job e) v =
    update_owned-IsValid id worker (running_job now lease_ms) at jobs jobs'
      (running_job-Keeps now lease_ms at) open_job v e
Step-IsValid {jobs} {jobs'} (beats id worker lease_ms now at open_job e) v =
    update_owned-IsValid id worker (beating_job now lease_ms) at jobs jobs'
      (beating_job-Keeps now lease_ms at) open_job v e
Step-IsValid {jobs} {jobs'} (ends id worker outcome error now at open_job e) v =
    update_owned-IsValid id worker (completed_job outcome error now) at jobs jobs'
      (completed_job-Keeps outcome error now at) open_job v e

-- Whatever sequence of enqueue, claim, poll, recovery, mark-running, heartbeat and complete the
-- workers make from the empty store, with fresh ids, a positive attempt limit and workers that
-- ask only about open jobs, the store holds at most one queued, claimed or running job, one job
-- per idempotency key and per id, and every job is well formed: attempts within the limit, an
-- owner and a lease while held, a completion date exactly when terminal.
pub Reach-IsValid : {jobs : List ExecutionJob} → Reach jobs → IsValid jobs
Reach-IsValid empty = IsValid-nil
Reach-IsValid (next r s) = Step-IsValid s (Reach-IsValid r)

ok-injective : {xs ys : List ExecutionJob} → ok xs ≡ ok ys → xs ≡ ys
ok-injective h = cc

-- After a successful complete, the same worker can mark the job running: the call succeeds, and
-- the job is then running with the completion date it had.
pub complete-mark_running_revives :
    (id worker : String) (outcome : Outcome) (error : Option String) (now at lease_ms now' at' : ℕ)
    (jobs jobs' : List ExecutionJob)
    → complete id worker outcome error now at jobs ≡ ok jobs'
    → (jobs'' : List ExecutionJob) × (mark_running id worker lease_ms now' at' jobs' ≡ ok jobs'')
      × (k : ExecutionJob) × (find (has_id id) jobs'' ≡ some k)
      × (k.status ≡ running)
      × (k.completed_at ≡ some now)
unfolding complete mark_running
complete-mark_running_revives id worker outcome error now at lease_ms now' at' jobs jobs' e =
    let (j, found, owner, same) =
      update_owned-eq-ok id worker (completed_job outcome error now) at jobs jobs' e in
    let (done, accepted, stored) =
      update_owned_accepts id worker (completed_job outcome error now) at jobs j found owner refl in
    let same_store : done ≡ jobs' = ok-injective (sym accepted ∙ e) in
    let (jobs'', again, held) =
      update_owned_accepts id worker (running_job now' lease_ms) at' jobs'
        (record (completed_job outcome error now j) { updated_at = at })
        (subst
          (λ s.
            find (has_id id) s
            ≡ some (record (completed_job outcome error now j) { updated_at = at }))
          same_store stored)
        owner refl in
    (jobs'', again, _, held, refl, refl)
