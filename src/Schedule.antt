-- ===== src/Schedule.antt =====
-- dashboard/lib/monitoring/types.ts and schedule-evaluator.ts: which occurrence of a schedule is due.
-- Instants are milliseconds since the epoch. What `Intl` says of a timezone is a parameter: which
-- zones it knows, and the local date and time of an instant.
pub mod Evaluate
pub mod Scan
pub mod Windows
pub mod Next
pub mod Examples
mod Tests
use web_app_qa_tests_main.Base.{ℕ, String, Bool, Option}

pub data TriggerType : Type 0 where
  manual schedule api deployment webhook future : TriggerType

pub data RunPolicy : Type 0 where
  one_active_run allow_parallel queue skip retry : RunPolicy

pub data EvidencePolicy : Type 0 where
  always on_failure never : EvidencePolicy

pub data NotificationPolicy : Type 0 where
  critical_only warning info silent : NotificationPolicy

pub data Severity : Type 0 where
  informational low medium high critical : Severity

pub record RetryPolicy : Type 0 where
  pub backoff_ms : ℕ
  pub max_attempts : ℕ

pub data Frequency : Type 0 where
  hourly daily weekly : Frequency

-- Fields that may be absent are optional; the numbers are natural numbers.
pub record MonitoringSchedule : Type 0 where
  pub day_of_week : Option ℕ
  pub frequency : Frequency
  pub hour : Option ℕ
  pub minute : ℕ
  pub timezone : String

-- `schedule_not_before` is absent, or a text that is an instant or no date at all.
pub record MonitoringDefinition : Type 0 where
  pub campaign_id : String
  pub created_at : ℕ
  pub enabled : Bool
  pub environment : String
  pub evidence_policy : EvidencePolicy
  pub id : String
  pub name : String
  pub notification_policy : NotificationPolicy
  pub product : String
  pub retry_policy : RetryPolicy
  pub run_policy : RunPolicy
  pub schedule_of : Option MonitoringSchedule
  pub schedule_not_before : Option (Option ℕ)
  pub severity : Severity
  pub timeout : ℕ
  pub trigger_type : TriggerType
  pub updated_at : ℕ

pub record ScheduleWindow : Type 0 where
  pub next_run_at : ℕ
  pub occurrence_key : String
  pub scheduled_for : ℕ

pub record LocalParts : Type 0 where
  pub day : ℕ
  pub day_of_week : ℕ
  pub hour : ℕ
  pub minute : ℕ
  pub month : ℕ
  pub year : ℕ

-- What the code takes from `Intl.DateTimeFormat`.
pub record Zones : Type 0 where
  pub known : String → Bool
  pub local_parts : ℕ → String → LocalParts
