-- ===== src/Reconcile.antt =====
-- dashboard/lib/inssa-ops/execution-recovery.ts: a run whose execution job is over is ended as well.
-- The run store, the log, the audit trail and the outcomes that are recorded are one state. Each
-- reading of the clock is an argument, and dates are readable.
pub mod Ended
mod Tests
use web_app_qa_tests_main.Base.{
  ℕ, ◌-◌, String, str_eq, ◌<>◌, show, Bool, true, false, Option, none, some, is_some, List, [], ◌∷◌,
  ◌++◌, or_else, if◌then◌else◌, find, update_first,
}
use web_app_qa_tests_main.Jobs.{
  JobStatus, queued, claimed, running, completed, failed, abandoned, ExecutionJob, is_terminal,
}

pub data RunStatus : Type 0 where
  run_queued run_starting run_running run_indexing : RunStatus
  run_passed run_warned run_failed run_failed_startup run_cancelled run_timed_out : RunStatus

pub record Run : Type 0 where
  pub campaign_key : String
  pub completed_at : Option ℕ
  pub created_at : ℕ
  pub duration_ms : Option ℕ
  pub exit_code : Option ℕ
  pub id : String
  pub started_at : Option ℕ
  pub status : RunStatus
  pub updated_at : ℕ

pub record AuditEvent : Type 0 where
  pub attempt : ℕ
  pub execution_job_id : String
  pub reason : String
  pub run_id : String
  pub status : RunStatus

pub record RecordedOutcome : Type 0 where
  pub run : Run
  pub status : RunStatus
  pub duration_ms : ℕ

pub record World : Type 0 where
  pub runs : List Run
  pub logs : List (String × String)
  pub audits : List AuditEvent
  pub outcomes : List RecordedOutcome

abbrev pub is_terminal_status : RunStatus → Bool
is_terminal_status run_passed = true
is_terminal_status run_warned = true
is_terminal_status run_failed = true
is_terminal_status run_failed_startup = true
is_terminal_status run_cancelled = true
is_terminal_status run_timed_out = true
is_terminal_status _ = false

abbrev pub job_status_name : JobStatus → String
job_status_name queued = "queued"
job_status_name claimed = "claimed"
job_status_name running = "running"
job_status_name completed = "completed"
job_status_name failed = "failed"
job_status_name abandoned = "abandoned"

abbrev pub is_run : String → Run → Bool
is_run id r = str_eq r.id id

abbrev pub ended_status : Run → RunStatus
ended_status run = if is_some run.started_at then run_failed else run_failed_startup

abbrev pub reason_of : ExecutionJob → String
reason_of job = or_else job.last_error (
    "Execution job reached "
    <> job_status_name job.status
    <> " without a terminal campaign run state.")

abbrev pub duration_of : (completed_at : ℕ) → Run → ℕ
duration_of completed_at run = completed_at - or_else run.started_at run.created_at

-- The patch of `updateRun`, which dates the run.
abbrev pub ended_run : (completed_at updated : ℕ) → Run → Run
ended_run completed_at updated run = record run {
  completed_at = some completed_at;
  duration_ms = some (duration_of completed_at run);
  status = ended_status run;
  updated_at = updated;
}

abbrev pub log_line : ExecutionJob → String
log_line job =
    "Execution recovery reconciled terminal job status="
    <> job_status_name job.status
    <> ", attempt="
    <> show job.attempt
    <> ": "
    <> reason_of job

abbrev pub reconciled : ExecutionJob → (completed_at updated : ℕ) → Run → World → World
reconciled job completed_at updated run w =
    let after = ended_run completed_at updated run in
    record {
      runs = update_first (is_run run.id) (λ r. after) w.runs;
      logs = w.logs ++ (run.id, log_line job) ∷ [];
      audits =
          w.audits
          ++ record {
            attempt = job.attempt;
            execution_job_id = job.id;
            reason = reason_of job;
            run_id = run.id;
            status = after.status;
          }
            ∷ [];
      outcomes =
          w.outcomes
          ++ record {
            run = after;
            status = after.status;
            duration_ms = duration_of completed_at run;
          }
            ∷ [];
    }

abbrev pub reconcile_found : ExecutionJob → (now updated : ℕ) → Option Run → World → Bool × World
reconcile_found job now updated none w = (false, w)
reconcile_found job now updated (some run) w =
    if is_terminal_status run.status
    then (false, w)
    else (true, reconciled job (or_else job.completed_at now) updated run w)

unfoldable pub reconcile_terminal_execution_job_run :
    ExecutionJob → (now updated : ℕ) → World → Bool × World
unfolding update_first find show
reconcile_terminal_execution_job_run job now updated w =
    if is_terminal job.status
    then reconcile_found job now updated (find (is_run job.run_id) w.runs) w
    else (false, w)
