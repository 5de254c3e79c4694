-- ===== src/Outbox/Events.antt =====
-- dashboard/lib/inssa-ops/notification-events.ts: what is recorded in the outbox, and under which
-- deduplication key. The outbox cannot be written at times; the line on stderr is left out.
use web_app_qa_tests_main.Base.{
  ℕ, String, ◌<>◌, show, Bool, true, false, Option, none, some, List, [], ◌∷◌, or_else,
  if◌then◌else◌,
}
use web_app_qa_tests_main.Jobs.{JobStatus, abandoned, ExecutionJob}
use web_app_qa_tests_main.Reconcile.{
  RunStatus, run_queued, run_starting, run_running, run_indexing, run_passed, run_warned,
  run_failed, run_failed_startup, run_cancelled, run_timed_out, job_status_name,
}
use web_app_qa_tests_main.Outbox.{
  OutboxRecord, CreateInput, EventType, NotificationSeverity, informational, low, medium, high,
  critical,
}
use web_app_qa_tests_main.Outbox.Payload.{Value, absent, number, text, Fields, no_field, field}
use web_app_qa_tests_main.Outbox.Store.{Created, create_notification}

-- What the events read of a run.
pub record EventRun : Type 0 where
  pub id : String
  pub campaign_key : String
  pub display_name : String
  pub target_environment : Option String
  pub requested_by : String

abbrev status_name : RunStatus → String
status_name run_queued = "queued"
status_name run_starting = "starting"
status_name run_running = "running"
status_name run_indexing = "indexing_artifacts"
status_name run_passed = "passed"
status_name run_warned = "passed_with_warnings"
status_name run_failed = "failed"
status_name run_failed_startup = "failed_startup"
status_name run_cancelled = "cancelled"
status_name run_timed_out = "timed_out"

abbrev run_key : EventRun → String → String
run_key run name = "run:" <> (run.id <> (":" <> name))

-- `runContext` with what an event adds.
abbrev run_event :
    EventRun
    → (name : String) → EventType
    → NotificationSeverity
    → (title message : String) → Fields
    → CreateInput
run_event run name event_type severity title message payload = record {
  campaign_id = some run.campaign_key;
  correlation_id = run.id;
  deduplication_key = run_key run name;
  environment = or_else run.target_environment "staging";
  event_type = event_type;
  message = message;
  payload = payload;
  product = "INSSA";
  run_id = some run.id;
  severity = severity;
  title = title;
}

abbrev pub run_queued_event : EventRun → CreateInput
run_queued_event run =
    run_event run "run_queued" EventType.run_queued informational "Run queued"
      (run.display_name <> " was queued for execution.")
      (field "requestedBy" (text run.requested_by) (field "status" (text "queued") no_field))

abbrev pub run_started_event : EventRun → (attempt : ℕ) → (worker_id : String) → CreateInput
run_started_event run attempt worker_id =
    run_event run ("run_started:" <> show attempt) EventType.run_started informational "Run started"
      (run.display_name <> " started on the execution worker.")
      (field "attempt" (number attempt) (field "workerId" (text worker_id) no_field))

abbrev is_completed : RunStatus → Bool
is_completed run_passed = true
is_completed run_warned = true
is_completed _ = false

abbrev outcome_severity : RunStatus → NotificationSeverity
outcome_severity run_passed = informational
outcome_severity run_warned = low
outcome_severity _ = high

abbrev exit_value : Option ℕ → Value
exit_value none = absent
exit_value (some n) = number n

abbrev pub run_outcome_event :
    EventRun → RunStatus → (duration_ms : ℕ) → (exit_code : Option ℕ) → CreateInput
run_outcome_event run status duration_ms exit_code =
    let name = if is_completed status then "run_completed" else "run_failed" in
    let kind = if is_completed status then EventType.run_completed else EventType.run_failed in
    run_event run name kind (outcome_severity status)
      (if is_completed status then "Run completed" else "Run failed")
      (run.display_name <> (" finished with status " <> (status_name status <> ".")))
      (field "durationMs" (number duration_ms) (
        field "exitCode" (exit_value exit_code)
          (field "status" (text (status_name status)) no_field)))

abbrev pub execution_failure_event : EventRun → (message : String) → CreateInput
execution_failure_event run message =
    run_event run "execution_failed" EventType.execution_failed high "Execution failure"
      ("The execution worker failed while processing " <> (run.display_name <> (": " <> message)))
      (field "status" (text "failed_startup") no_field)

abbrev pub evidence_upload_failure_event : EventRun → (bundle_id message : String) → CreateInput
evidence_upload_failure_event run bundle_id message =
    run_event run ("evidence_upload_failed:" <> bundle_id) EventType.evidence_upload_failed high
      "Evidence upload failed"
      ("Durable evidence upload failed for " <> (run.display_name <> (": " <> message)))
      (field "bundleId" (text bundle_id) no_field)

abbrev pub worker_restarted_event : (worker_id : String) → CreateInput
worker_restarted_event worker_id = record {
  campaign_id = none;
  correlation_id = worker_id;
  deduplication_key = "worker:" <> (worker_id <> ":worker_restarted");
  environment = "staging";
  event_type = EventType.worker_restarted;
  message = "The INSSA execution worker started and is ready to claim jobs.";
  payload = field "workerId" (text worker_id) no_field;
  product = "INSSA";
  run_id = none;
  severity = informational;
  title = "Worker restarted";
}

abbrev job_event :
    ExecutionJob
    → (name : String) → EventType
    → NotificationSeverity
    → (title message : String) → Fields
    → CreateInput
job_event job name event_type severity title message payload = record {
  campaign_id = some job.campaign_key;
  correlation_id = job.run_id;
  deduplication_key = "job:" <> (job.id <> (":" <> (name <> (":" <> show job.attempt))));
  environment = "staging";
  event_type = event_type;
  message = message;
  payload = payload;
  product = "INSSA";
  run_id = some job.run_id;
  severity = severity;
  title = title;
}

abbrev pub lease_expired_event : ExecutionJob → CreateInput
lease_expired_event job =
    job_event job "worker_lease_expired" EventType.worker_lease_expired high "Worker lease expired"
      ("The worker lease expired for execution attempt " <> (show job.attempt <> "."))
      (field "attempt" (number job.attempt) (
        field "jobId" (text job.id)
          (field "recoveredStatus" (text (job_status_name job.status)) no_field)))

abbrev is_abandoned : JobStatus → Bool
is_abandoned abandoned = true
is_abandoned _ = false

abbrev reason_value : Option String → Value
reason_value none = absent
reason_value (some t) = text t

abbrev retry_blocked : String
retry_blocked =
    "Automatic execution retry was blocked because the expired attempt had already entered campaign execution."

abbrev pub job_recovery_event : ExecutionJob → CreateInput
job_recovery_event job =
    let blocked = is_abandoned job.status in
    job_event job "job_recovery" EventType.job_recovery (if blocked then critical else medium)
      (if blocked then "Execution recovery blocked" else "Job recovery triggered")
      (if blocked
        then retry_blocked
        else "Execution job recovery set the job status to " <> (job_status_name job.status <> "."))
      (field "attempt" (number job.attempt) (
        field "jobId" (text job.id) (
          field "reason" (reason_value job.last_error)
            (field "recoveredStatus" (text (job_status_name job.status)) no_field))))

-- The functions of the module as data: what is recorded.
pub data Event : Type 0 where
  queued_event : EventRun → Event
  started_event : EventRun → (attempt : ℕ) → (worker_id : String) → Event
  outcome_event : EventRun → RunStatus → (duration_ms : ℕ) → (exit_code : Option ℕ) → Event
  failure_event : EventRun → (message : String) → Event
  upload_event : EventRun → (bundle_id message : String) → Event
  restart_event : (worker_id : String) → Event
  recovery_event : ExecutionJob → Event

abbrev pub inputs_of : Event → List CreateInput
inputs_of (queued_event run) = run_queued_event run ∷ []
inputs_of (started_event run attempt worker_id) = run_started_event run attempt worker_id ∷ []
inputs_of (outcome_event run status duration_ms exit_code) =
    run_outcome_event run status duration_ms exit_code ∷ []
inputs_of (failure_event run message) = execution_failure_event run message ∷ []
inputs_of (upload_event run bundle_id message) =
    evidence_upload_failure_event run bundle_id message ∷ []
inputs_of (restart_event worker_id) = worker_restarted_event worker_id ∷ []
inputs_of (recovery_event job) = lease_expired_event job ∷ job_recovery_event job ∷ []

-- One attempt to write, at its time, with its identifier.
pub record Attempt : Type 0 where
  pub now : ℕ
  pub uuid : String
  pub is_writable : Bool

module _ (redact : String → String) (is_sensitive : String → Bool) where
  abbrev pub emit : CreateInput → Attempt → List OutboxRecord → Option Created × List OutboxRecord
  emit input a ns =
      if a.is_writable
      then (
        some (create_notification redact is_sensitive input a.now a.uuid ns).0,
        (create_notification redact is_sensitive input a.now a.uuid ns).1,
      )
      else (none, ns)

  -- An event writes one notification or two, each in its own attempt.
  abbrev pub emit_all :
      List CreateInput → (first second : Attempt) → List OutboxRecord → List OutboxRecord
  emit_all [] a b ns = ns
  emit_all (i ∷ is) a b ns = emit_all is b b (emit i a ns).1

  -- Events as they come.
  unfoldable pub record_events :
      List (Event × Attempt × Attempt) → List OutboxRecord → List OutboxRecord
  unfolding create_notification
  record_events [] ns = ns
  record_events ((e, a, b) ∷ es) ns = record_events es (emit_all (inputs_of e) a b ns)
