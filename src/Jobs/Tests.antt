-- ===== src/Jobs/Tests.antt =====
-- Runs of the job store on small inputs, and the theorems at inputs that meet their conditions.
use web_app_qa_tests_main.Base.{
  true, false, none, some, List, [], ◌∷◌, ◌≡◌, refl, arith, find, All₂,
}
use web_app_qa_tests_main.Jobs.{
  running, completed, completes, ExecutionJob, EnqueueInput, ClaimInput, ok, err, lease_ownership,
  has_id, enqueue, claim_next, mark_running, complete, update_owned, running_job, new_job,
  claimed_job,
}
use web_app_qa_tests_main.Jobs.Recover.{recover_abandoned, poll, get_active, list_terminal}
use web_app_qa_tests_main.Jobs.Invariant.{IsValid}
use web_app_qa_tests_main.Jobs.Claim.{Claims, claim_next-Claims, claim_next_progress}
use web_app_qa_tests_main.Jobs.Recovery.{Recovers, recover_abandoned-Recovers, recovered_is_locked}
use web_app_qa_tests_main.Jobs.Enqueue.{Enqueues, enqueue-Enqueues, enqueue_idempotent}
use web_app_qa_tests_main.Jobs.Lifecycle.{
  enqueues, claims, Reach, empty, next, Reach-IsValid, complete-mark_running_revives,
}

job_store : Unit {0}
unfolding enqueue claim_next mark_running complete recover_abandoned poll get_active list_terminal
job_store = tt

abbrev request : EnqueueInput
request = record {
  campaign_key = "lifecycle";
  idempotency_key = "k1";
  lifecycle_artifact = none;
  execution_context = none;
  max_attempts = none;
  run_id = "run-1";
}

abbrev worker_a : ClaimInput
worker_a = record { lease_ms = 100; worker_id = "a" }

abbrev first : ExecutionJob
first = new_job request 10 "job-1"

abbrev held : ExecutionJob
held = claimed_job worker_a 20 first

-- A claim that expires before the campaign starts is given to the next worker.
retried_claim :
    (poll (record { lease_ms = 100; worker_id = "b" }) 120 (λ n. 121) 122 (held ∷ [])).0.job
    ≡ some (
        claimed_job
          (record { lease_ms = 100; worker_id = "b" })
          122
          (record first {
            attempt = 1;
            claimed_at = some 20;
            heartbeat_at = some 20;
            last_error =
                some
                  "Pre-execution worker lease expired; the claim may be retried without overlapping a campaign process.";
            updated_at = 121;
          }))
unfolding job_store
retried_claim = refl

-- A running campaign is not started a second time.
blocked_retry : (poll worker_a 200 (λ n. 201) 202 (running_job 30 100 held ∷ [])).0.job ≡ none
unfolding job_store
blocked_retry = refl

claim_next-Claims_example : Claims worker_a 20 (first ∷ []) (claim_next worker_a 20 (first ∷ []))
claim_next-Claims_example = claim_next-Claims worker_a 20 (first ∷ [])

first-Reach : Reach (first ∷ [])
unfolding job_store
first-Reach =
    next empty
      (enqueues request 10 "job-1" (record { created = true; job = first }) refl (omega arith) refl)

held-Reach : Reach (held ∷ [])
unfolding job_store
held-Reach = next first-Reach (claims worker_a 20 refl)

Reach-IsValid_example : IsValid (held ∷ [])
Reach-IsValid_example = Reach-IsValid held-Reach

claim_next_progress_example :
    (job : ExecutionJob) × ((claim_next worker_a 20 (first ∷ [])).0 ≡ some job)
unfolding job_store
claim_next_progress_example =
    claim_next_progress worker_a 20 (first ∷ []) first (Reach-IsValid first-Reach) refl

recover_abandoned-Recovers_example :
    All₂ (Recovers 120) (held ∷ []) (recover_abandoned 120 (λ n. 121) (held ∷ [])).1
recover_abandoned-Recovers_example = recover_abandoned-Recovers 120 (λ n. 121) (held ∷ [])

recovered_is_locked_example :
    update_owned "job-1" "a"
      (running_job 130 100)
      131
      (recover_abandoned 120 (λ n. 121) (held ∷ [])).1
    ≡ err (lease_ownership "job-1" "a")
unfolding job_store
recovered_is_locked_example =
    recovered_is_locked 120 (λ n. 121) (held ∷ []) "job-1" "a" (running_job 130 100) 131 held refl
      refl

enqueue_idempotent_example :
    enqueue request 50 "job-2" (first ∷ [])
    ≡ ok (record { created = false; job = first }, first ∷ [])
unfolding job_store
enqueue_idempotent_example =
    enqueue_idempotent request request 10 50 "job-1" "job-2" [] (first ∷ [])
      (record { created = true; job = first }) refl refl

enqueue-Enqueues_example : Enqueues request 10 "job-1" [] (enqueue request 10 "job-1" [])
enqueue-Enqueues_example = enqueue-Enqueues request 10 "job-1" []

abbrev finished : List ExecutionJob
finished =
    record held {
      completed_at = some 40;
      heartbeat_at = some 40;
      last_error = none;
      lease_expires_at = none;
      status = completed;
      updated_at = 41;
    }
    ∷ []

complete-mark_running_revives_example :
    (jobs : List ExecutionJob) × (mark_running "job-1" "a" 100 50 51 finished ≡ ok jobs)
    × (k : ExecutionJob) × (find (has_id "job-1") jobs ≡ some k)
    × (k.status ≡ running)
    × (k.completed_at ≡ some 40)
unfolding job_store
complete-mark_running_revives_example =
    complete-mark_running_revives "job-1" "a" completes none 40 41 100 50 51 (held ∷ []) finished
      refl
