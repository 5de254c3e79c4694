-- ===== src/Outbox.antt =====
-- The `LocalNotificationOutboxStore` of dashboard/lib/inssa-ops/notification-outbox.ts: which
-- notifications are created, found and listed. The store is the list in its file. The redaction of
-- a text (dashboard/lib/inssa-ops/redaction.ts) and the test of a payload key are arguments.
pub mod Payload
pub mod Store
pub mod Promises
pub mod Events
pub mod Recorded
pub mod Keys
mod Tests
use web_app_qa_tests_main.Base.{ℕ, String, Option}
use web_app_qa_tests_main.Outbox.Payload.{Fields}

pub data OutboxStatus : Type 0 where
  pending processing delivered failed dead_letter : OutboxStatus

pub data NotificationSeverity : Type 0 where
  informational low medium high critical : NotificationSeverity

pub data EventType : Type 0 where
  run_queued run_started run_completed run_failed worker_restarted worker_lease_expired job_recovery
        evidence_upload_failed execution_failed production_auth_failed production_auth_recovered
        production_auth_test production_auth_observation :
      EventType

pub record OutboxRecord : Type 0 where
  pub attempt_count : ℕ
  pub campaign_id : Option String
  pub correlation_id : String
  pub created_at : ℕ
  pub deduplication_key : String
  pub delivered_at : Option ℕ
  pub environment : String
  pub error_message : Option String
  pub event_type : EventType
  pub id : String
  pub last_attempt_at : Option ℕ
  pub message : String
  pub payload : Fields
  pub product : String
  pub provider : Option String
  pub provider_message_id : Option String
  pub run_id : Option String
  pub severity : NotificationSeverity
  pub status : OutboxStatus
  pub title : String

pub record CreateInput : Type 0 where
  pub campaign_id : Option String
  pub correlation_id : String
  pub deduplication_key : String
  pub environment : String
  pub event_type : EventType
  pub message : String
  pub payload : Fields
  pub product : String
  pub run_id : Option String
  pub severity : NotificationSeverity
  pub title : String

-- An absent filter lets every notification pass, as does an empty text.
pub record OutboxFilters : Type 0 where
  pub campaign : Option String
  pub environment : Option String
  pub product : Option String
  pub run_id : Option String
  pub severity : Option NotificationSeverity
  pub status : Option OutboxStatus
