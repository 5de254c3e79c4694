-- ===== src/Scheduler/Enqueue.antt =====
-- `enqueueScheduledRun` of dashboard/lib/monitoring/scheduler.ts: what the scheduler does to start the
-- run of a due occurrence. The table of commands and the start of a run are parameters.
use web_app_qa_tests_main.Base.{
  ℕ, String, str_eq, ◌<>◌, Bool, true, false, ◌&&◌, not, Option, none, some, List, ◌≡◌, inl, inr,
  or_else, if◌then◌else◌, find, All, find-eq-none, Bool-cases, Option-cases, ◌==◌,
}
use web_app_qa_tests_main.Schedule.{MonitoringDefinition}
use web_app_qa_tests_main.Scheduler.Round.{JobResult, run_queued, run_deferred, run_failed}
use web_app_qa_tests_main.Reconcile.{Run, RunStatus, run_starting, run_running, run_indexing}
use web_app_qa_tests_main.Reconcile

-- What of a registered command counts: the environment it targets, if any.
pub record Command : Type 0 where
  pub target_environment : Option String

pub record StartInput : Type 0 where
  pub campaign_key : String
  pub idempotency_key : String
  pub requested_by : String

-- The answer of `startInssaPhase1Run`: a run, an error with its status, or an exception.
pub data StartResult : Type 0 where
  started_run : (run_id : String) → StartResult
  refused : (reason : Option String) → (http_status : ℕ) → StartResult
  start_threw : (message : String) → StartResult

abbrev pub is_active_status : RunStatus → Bool
is_active_status Reconcile.run_queued = true
is_active_status run_starting = true
is_active_status run_running = true
is_active_status run_indexing = true
is_active_status _ = false

abbrev pub is_active_run : Run → Bool
is_active_run r = is_active_status r.status

-- An empty text is no target.
abbrev pub targets_other : Command → MonitoringDefinition → Bool
targets_other c d = elim c.target_environment [
  | none ↦ false
  | some e ↦ not (str_eq e "") && not (str_eq e d.environment)
]

abbrev pub job_result : MonitoringDefinition → StartResult → JobResult
job_result d (started_run run_id) = run_queued run_id
job_result d (refused reason http_status) =
    let text = or_else reason ("Unable to enqueue scheduled campaign " <> d.campaign_id <> ".") in
    if http_status == 409 then run_deferred text else run_failed text
job_result d (start_threw message) = run_failed message

abbrev pub start_input : MonitoringDefinition → (occurrence_key : String) → StartInput
start_input d occurrence_key = record {
  campaign_key = d.campaign_id;
  idempotency_key = "monitor:" <> occurrence_key;
  requested_by = "scheduler:" <> d.id;
}

module _ (get_command : String → Option Command) (runs : List Run)
    (start_run : StartInput → StartResult) where
  abbrev enqueue_idle :
      MonitoringDefinition → (occurrence_key : String) → (active : Option Run) → JobResult
  enqueue_idle d occurrence_key none = job_result d (start_run (start_input d occurrence_key))
  enqueue_idle d occurrence_key (some r) =
      run_deferred ("Active run " <> r.id <> " prevents scheduling this occurrence.")

  abbrev enqueue_command :
      MonitoringDefinition → (occurrence_key : String) → Option Command → JobResult
  enqueue_command d occurrence_key none =
      run_failed ("Unknown scheduled campaign: " <> d.campaign_id)
  enqueue_command d occurrence_key (some c) =
      if targets_other c d
      then run_failed (
          "Monitoring environment "
          <> d.environment
          <> " does not match command target "
          <> or_else c.target_environment ""
          <> ".")
      else enqueue_idle d occurrence_key (find is_active_run runs)

  unfoldable pub enqueue_scheduled_run :
      MonitoringDefinition → (occurrence_key : String) → JobResult
  unfolding find
  enqueue_scheduled_run d occurrence_key =
      enqueue_command d occurrence_key (get_command d.campaign_id)

  -- What a queued answer means.
  abbrev pub IsStarted : MonitoringDefinition → (occurrence_key run_id : String) → Type 0
  IsStarted d occurrence_key run_id =
      ((c : Command) × (get_command d.campaign_id ≡ some c) × (targets_other c d ≡ false))
      × All (λ r. is_active_run r ≡ false) runs
      × (start_run (start_input d occurrence_key) ≡ started_run run_id)

  started_only :
      (d : MonitoringDefinition) (s : StartResult) (run_id : String)
      → job_result d s ≡ run_queued run_id
      → s ≡ started_run run_id
  started_only d (started_run other) run_id e = cc
  started_only d (refused reason http_status) run_id e = elim (Bool-cases (http_status == 409)) [
    | inl t ↦ let none_queued = rw t at e in cc
    | inr f ↦ let none_queued = rw f at e in cc
  ]
  started_only d (start_threw message) run_id e = cc

  -- If the scheduler reports a run as queued, then its campaign is a known command that targets
  -- no other environment, no run is active, and the run is the one that was started with the key
  -- of the occurrence as idempotency key.
  pub enqueue_scheduled_run-IsStarted :
      (d : MonitoringDefinition) (occurrence_key run_id : String)
      → enqueue_scheduled_run d occurrence_key ≡ run_queued run_id
      → IsStarted d occurrence_key run_id
  unfolding enqueue_scheduled_run
  enqueue_scheduled_run-IsStarted d occurrence_key run_id e =
      elim (Option-cases (get_command d.campaign_id)) [
        | inl n ↦ let failed = rw n at e in cc
        | inr (c, known) ↦ elim (Bool-cases (targets_other c d)) [
          | inl t ↦ let failed = rw (known, t) at e in cc
          | inr own ↦ elim (Option-cases (find is_active_run runs)) [
            | inr (r, busy) ↦ let deferred = rw (known, own, busy) at e in cc
            | inl idle ↦ (
              (c, known, own),
              find-eq-none is_active_run runs idle,
              started_only d (start_run (start_input d occurrence_key)) run_id
                  (rw (known, own, idle) at e),
            )
          ]
        ]
      ]
