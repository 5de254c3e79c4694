-- ===== src/Outbox/Keys.antt =====
-- The deduplication keys of the notifications of one event of
-- dashboard/lib/inssa-ops/notification-events.ts.
use text.Mathlib.TextLemmas.{append_assoc, append_cancel_left, append_inj}
use web_app_qa_tests_main.Base.{
  String, ◌<>◌, show, str_eq, eq_iff, true, false, List, [], ◌∷◌, ◌≡◌, inl, inr, refl, sym, ◌∙◌,
  map, All, Bool-cases,
}
use web_app_qa_tests_main.Jobs.{ExecutionJob}
use web_app_qa_tests_main.Outbox.{
  CreateInput, EventType, run_queued, run_started, run_completed, run_failed, execution_failed,
  evidence_upload_failed, worker_restarted, worker_lease_expired, job_recovery,
}
use web_app_qa_tests_main.Reconcile.{
  RunStatus, run_queued as run_waits, run_starting, run_running, run_indexing, run_passed,
  run_warned, run_failed as run_fails, run_failed_startup, run_cancelled, run_timed_out,
}
use web_app_qa_tests_main.Outbox.Events.{
  Event, queued_event, started_event, outcome_event, failure_event, upload_event, restart_event,
  recovery_event, inputs_of, lease_expired_event, job_recovery_event,
}

-- No two notifications have the same key.
abbrev pub AreApart : List CreateInput → Type 0
AreApart [] = Unit
AreApart (i ∷ is) =
    All (λ j. str_eq j.deduplication_key i.deduplication_key ≡ false) is × AreApart is

names_differ : (x y : String) → "job_recovery" <> x ≡ "worker_lease_expired" <> y → ⊥
names_differ x y h =
    let split =
      sym (append_assoc "j" "ob_recovery" x) ∙ h ∙ append_assoc "w" "orker_lease_expired" y in
    let first : ◌≡◌ {A = String} "j" "w" = (append_inj split refl).0 in
    let same : str_eq "j" "w" ≡ true = (eq_iff "j" "w").1 first in cc

recovery_apart :
    (job : ExecutionJob)
    → str_eq (job_recovery_event job).deduplication_key (lease_expired_event job).deduplication_key
      ≡ false
recovery_apart job =
    let recovery = (job_recovery_event job).deduplication_key in
    let expired = (lease_expired_event job).deduplication_key in
    elim (Bool-cases (str_eq recovery expired)) [
      | inr f ↦ f
      | inl t ↦
          let rest = ":" <> show job.attempt in
          let in_job =
            append_cancel_left "job:" (job.id <> (":" <> ("job_recovery" <> rest)))
              (job.id <> (":" <> ("worker_lease_expired" <> rest)))
              ((eq_iff recovery expired).0 t) in
          let named =
            append_cancel_left job.id (":" <> ("job_recovery" <> rest))
              (":" <> ("worker_lease_expired" <> rest)) in_job in
          absurd (
            names_differ rest rest (
              append_cancel_left ":" ("job_recovery" <> rest) ("worker_lease_expired" <> rest)
                named))
    ]

inputs_of-AreApart : (e : Event) → AreApart (inputs_of e)
inputs_of-AreApart (queued_event run) = (tt, tt)
inputs_of-AreApart (started_event run attempt worker_id) = (tt, tt)
inputs_of-AreApart (outcome_event run status duration_ms exit_code) = (tt, tt)
inputs_of-AreApart (failure_event run message) = (tt, tt)
inputs_of-AreApart (upload_event run bundle_id message) = (tt, tt)
inputs_of-AreApart (restart_event worker_id) = (tt, tt)
inputs_of-AreApart (recovery_event job) = ((recovery_apart job, tt), (tt, tt))

abbrev ended_type : RunStatus → EventType
ended_type run_passed = run_completed
ended_type run_warned = run_completed
ended_type _ = run_failed

-- Which notifications an event is told by, and whom they are about.
abbrev pub types_of : Event → List EventType
types_of (queued_event run) = run_queued ∷ []
types_of (started_event run attempt worker_id) = run_started ∷ []
types_of (outcome_event run status duration_ms exit_code) = ended_type status ∷ []
types_of (failure_event run message) = execution_failed ∷ []
types_of (upload_event run bundle_id message) = evidence_upload_failed ∷ []
types_of (restart_event worker_id) = worker_restarted ∷ []
types_of (recovery_event job) = worker_lease_expired ∷ job_recovery ∷ []

abbrev pub subject_of : Event → String
subject_of (queued_event run) = run.id
subject_of (started_event run attempt worker_id) = run.id
subject_of (outcome_event run status duration_ms exit_code) = run.id
subject_of (failure_event run message) = run.id
subject_of (upload_event run bundle_id message) = run.id
subject_of (restart_event worker_id) = worker_id
subject_of (recovery_event job) = job.run_id

-- The notifications of an event are those that it is told by, about its subject, under keys that
-- differ.
abbrev pub Announces : Event → Type 0
Announces e =
    AreApart (inputs_of e)
    × (map (λ i. i.event_type) (inputs_of e) ≡ types_of e)
    × All (λ i. i.correlation_id ≡ subject_of e) (inputs_of e)

inputs_of-types_of : (e : Event) → map (λ i. i.event_type) (inputs_of e) ≡ types_of e
inputs_of-types_of (queued_event run) = refl
inputs_of-types_of (started_event run attempt worker_id) = refl
inputs_of-types_of (outcome_event run run_waits duration_ms exit_code) = refl
inputs_of-types_of (outcome_event run run_starting duration_ms exit_code) = refl
inputs_of-types_of (outcome_event run run_running duration_ms exit_code) = refl
inputs_of-types_of (outcome_event run run_indexing duration_ms exit_code) = refl
inputs_of-types_of (outcome_event run run_passed duration_ms exit_code) = refl
inputs_of-types_of (outcome_event run run_warned duration_ms exit_code) = refl
inputs_of-types_of (outcome_event run run_fails duration_ms exit_code) = refl
inputs_of-types_of (outcome_event run run_failed_startup duration_ms exit_code) = refl
inputs_of-types_of (outcome_event run run_cancelled duration_ms exit_code) = refl
inputs_of-types_of (outcome_event run run_timed_out duration_ms exit_code) = refl
inputs_of-types_of (failure_event run message) = refl
inputs_of-types_of (upload_event run bundle_id message) = refl
inputs_of-types_of (restart_event worker_id) = refl
inputs_of-types_of (recovery_event job) = refl

inputs_of-subject_of : (e : Event) → All (λ i. i.correlation_id ≡ subject_of e) (inputs_of e)
inputs_of-subject_of (queued_event run) = (refl, tt)
inputs_of-subject_of (started_event run attempt worker_id) = (refl, tt)
inputs_of-subject_of (outcome_event run status duration_ms exit_code) = (refl, tt)
inputs_of-subject_of (failure_event run message) = (refl, tt)
inputs_of-subject_of (upload_event run bundle_id message) = (refl, tt)
inputs_of-subject_of (restart_event worker_id) = (refl, tt)
inputs_of-subject_of (recovery_event job) = (refl, (refl, tt))

pub inputs_of-Announces : (e : Event) → Announces e
inputs_of-Announces e = (inputs_of-AreApart e, inputs_of-types_of e, inputs_of-subject_of e)
