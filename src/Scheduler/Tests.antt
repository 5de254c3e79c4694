-- ===== src/Scheduler/Tests.antt =====
-- The scheduler's store and cycle on small inputs.
use web_app_qa_tests_main.Base.{String, true, false, none, some, [], ◌∷◌, ◌≡◌, refl, arith}
use web_app_qa_tests_main.Schedule.Examples.{utc, sign_in_check}
use web_app_qa_tests_main.Schedule.Evaluate.{local_occurrence_key}
use web_app_qa_tests_main.Scheduler.{
  Occurrence, Snapshot, empty_status, ClaimRequest, claim_occurrence, get_occurrence, mark_queued,
  mark_failed, get_status, start_scheduler, new_occurrence, queued_occurrence,
}
use web_app_qa_tests_main.Scheduler.Claims.{IsClaimed}
use web_app_qa_tests_main.Scheduler.Operations.{
  claim, fail, after_all, grants, claim_excludes, late_failure_reopens,
}
use web_app_qa_tests_main.Scheduler.Enqueue.{
  Command, started_run, enqueue_scheduled_run, IsStarted, enqueue_scheduled_run-IsStarted,
}
use web_app_qa_tests_main.Scheduler.Round.{run_queued, Pass, Draw, evaluate_definition}
use web_app_qa_tests_main.Scheduler.Cycle.{EvaluationCache, pass_from}
use web_app_qa_tests_main.Scheduler.Trace.{Traces, evaluate_definition-Traces}
use web_app_qa_tests_main.Scheduler.Once.{StandsSettled, settled_not_started}

abbrev key : String
key = "monitor-1:1970-01-01T01:30[UTC]"

abbrev ask : ClaimRequest
ask = record {
  campaign_id = "sign-in";
  claimed_by = "scheduler-1";
  definition_id = "monitor-1";
  occurrence_key = key;
  scheduled_for = 5400000;
}

abbrev empty : Snapshot
empty = record { occurrences = []; status = empty_status }

abbrev held : Occurrence
held = new_occurrence ask 7200200 "id-1"

abbrev holding : Snapshot
holding = record { occurrences = held ∷ []; status = empty_status }

abbrev settled : Occurrence
settled = record (queued_occurrence "run-1" held) { updated_at = 7200300 }

abbrev settled_store : Snapshot
settled_store = record { occurrences = settled ∷ []; status = empty_status }

first_claim :
    claim_occurrence ask 7200200 "id-1" empty
    ≡ (record { created = true; occurrence = held }, holding)
unfolding claim_occurrence
first_claim = refl

abbrev rival : ClaimRequest
rival = record ask { claimed_by = "scheduler-2" }

claim_excludes_example :
    (grants key (claim rival 7320199 "id-2" ∷ fail "another" "lost" 7200400 ∷ []) holding ≡ 0)
    × (get_occurrence key
          (after_all (claim rival 7320199 "id-2" ∷ fail "another" "lost" 7200400 ∷ []) holding)
        ≡ some held)
    × IsClaimed ask 7200200 held
claim_excludes_example =
    claim_excludes ask 7200200 "id-1" empty holding (record { created = true; occurrence = held })
      (claim rival 7320199 "id-2" ∷ fail "another" "lost" 7200400 ∷ []) first_claim refl
      ((tt, omega arith), ((tt, refl), tt))

late_failure_reopens_example :
    (s : Snapshot) × (mark_failed key "timed out" 7400000 settled_store ≡ some s)
    × ((claim_occurrence ask 7400001 "id-3" s).0.created ≡ true)
unfolding mark_queued
late_failure_reopens_example =
    late_failure_reopens ask "run-1" "timed out" "id-3" 7200300 7400000 7400001 holding
      settled_store refl

abbrev draw : Draw
draw = record { claim_at = 7200200; mark_at = 7200300; uuid = "id-1" }

abbrev no_pass : Pass
no_pass = record {
  cache_valid = true;
  terminal = [];
  snapshot = empty;
  states = [];
  errors = [];
  jobs_queued = 0;
  jobs_started = [];
}

queues_one :
    (evaluate_definition utc
      (λ id. some sign_in_check)
      (λ d. d.id)
      (λ d k. run_queued "run-1")
      7200123
      "scheduler-1"
      []
      sign_in_check
      draw
      no_pass).snapshot
    ≡ settled_store
unfolding evaluate_definition local_occurrence_key
queues_one = refl

evaluate_definition-Traces_example :
    Traces utc
      (λ id. some sign_in_check)
      (λ d. d.id)
      (λ d k. run_queued "run-1")
      7200123
      "scheduler-1"
      []
      sign_in_check
      draw
      no_pass
      (evaluate_definition utc
        (λ id. some sign_in_check)
        (λ d. d.id)
        (λ d k. run_queued "run-1")
        7200123
        "scheduler-1"
        []
        sign_in_check
        draw
        no_pass)
evaluate_definition-Traces_example =
    evaluate_definition-Traces utc (λ id. some sign_in_check) (λ d. d.id)
      (λ d k. run_queued "run-1") 7200123 "scheduler-1" [] sign_in_check draw no_pass

abbrev no_cache : EvaluationCache
no_cache = record {
  definitions = none;
  loaded_at = 0;
  cached_states = none;
  terminals = [];
  written_at = 0;
  written_state = "";
}

settled_not_started_example : StandsSettled key settled 0 (
    pass_from utc
      (λ id. some sign_in_check)
      (λ d. d.id)
      (λ states errors n. "")
      (λ d k. run_queued "run-2")
      (λ n. draw)
      "scheduler-1"
      7260000
      (sign_in_check ∷ [])
      no_cache
      settled_store)
unfolding get_occurrence
settled_not_started_example =
    settled_not_started utc (λ id. some sign_in_check) (λ d. d.id) (λ states errors n. "")
      (λ d k. run_queued "run-2") (λ n. draw) "scheduler-1" 7260000 (sign_in_check ∷ []) no_cache
      settled_store key settled refl refl

stale_after :
    (get_status 60000 7300000 (start_scheduler "scheduler-1" 7200000 empty)).running ≡ false
unfolding get_status start_scheduler
stale_after = refl

abbrev production_command : Command
production_command = record { target_environment = some "production" }

enqueue_scheduled_run-IsStarted_example :
    IsStarted
      (λ campaign. some production_command)
      []
      (λ input. started_run "run-9")
      sign_in_check
      key
      "run-9"
unfolding enqueue_scheduled_run
enqueue_scheduled_run-IsStarted_example =
    enqueue_scheduled_run-IsStarted (λ campaign. some production_command) []
      (λ input. started_run "run-9") sign_in_check key "run-9" refl
