-- ===== src/Reconcile/Tests.antt =====
-- A run that a restart left behind.
use web_app_qa_tests_main.Base.{false, none, some, [], ◌∷◌, ◌≡◌, refl}
use web_app_qa_tests_main.Jobs.{ExecutionJob, abandoned}
use web_app_qa_tests_main.Reconcile.{
  Run, run_running, run_failed, World, reconcile_terminal_execution_job_run,
}
use web_app_qa_tests_main.Reconcile.Ended.{Reconciles, reconcile-Reconciles, reconcile_idempotent}

abbrev lost_job : ExecutionJob
lost_job = record {
  attempt = 1;
  campaign_key = "safe";
  claimed_at = some 10;
  claimed_by = none;
  completed_at = some 900;
  created_at = 5;
  execution_context = none;
  heartbeat_at = some 20;
  id = "job-1";
  idempotency_key = "key-1";
  last_error = some "lease expired";
  lease_expires_at = none;
  lifecycle_artifact = none;
  max_attempts = 2;
  run_id = "run-1";
  status = abandoned;
  updated_at = 900;
}

abbrev live_run : Run
live_run = record {
  campaign_key = "safe";
  completed_at = none;
  created_at = 5;
  duration_ms = none;
  exit_code = none;
  id = "run-1";
  started_at = some 100;
  status = run_running;
  updated_at = 100;
}

abbrev before : World
before = record { runs = live_run ∷ []; logs = []; audits = []; outcomes = [] }

ends_the_run :
    (reconcile_terminal_execution_job_run lost_job 950 960 before).1.runs
    ≡ record live_run {
      completed_at = some 900;
      duration_ms = some 800;
      status = run_failed;
      updated_at = 960;
    }
      ∷ []
unfolding reconcile_terminal_execution_job_run
ends_the_run = refl

reconcile-Reconciles_example :
    Reconciles lost_job 950 960 before
      (reconcile_terminal_execution_job_run lost_job 950 960 before)
reconcile-Reconciles_example = reconcile-Reconciles lost_job 950 960 before

reconcile_idempotent_example :
    reconcile_terminal_execution_job_run lost_job 1000 1010
      (reconcile_terminal_execution_job_run lost_job 950 960 before).1
    ≡ (false, (reconcile_terminal_execution_job_run lost_job 950 960 before).1)
reconcile_idempotent_example = reconcile_idempotent lost_job 950 960 1000 1010 before
