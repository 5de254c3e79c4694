-- ===== src/Retention.antt =====
-- dashboard/lib/inssa-ops/retention-types.ts, and what retention.ts reads of the runs, the cleanup
-- ledger and the migrations: what the retention of evidence works on. A run that lacks a field, or
-- has one of another kind, has it as absent.
pub mod Policy
pub mod Review
pub mod Checks
pub mod Protect
pub mod Evaluate
pub mod Plan
pub mod Clear
pub mod Sound
pub mod Eligible
pub mod Account
pub mod Executor
pub mod Slices
pub mod Execute
pub mod Safe
pub mod Removals
pub mod Taken
pub mod Rounds
pub mod Ends
pub mod Confirmation
pub mod Tokens
mod Tests
mod TokenTests
use web_app_qa_tests_main.Base.{ℕ, String, Bool, true, false, Option, none, some, List}
use web_app_qa_tests_main.Cleanup.{CleanupStatus, LedgerStatus, ObjectType}
use web_app_qa_tests_main.Reconcile.{RunStatus}
use web_app_qa_tests_main.Evidence.{Stamp, no_date, unreadable, date, Bundle, Item}

pub record RetentionPolicy : Type 0 where
  pub id : String
  pub mode : String
  pub effective_at : Stamp
  pub routine_days : ℕ
  pub warning_days : Option ℕ
  pub failure_days : ℕ
  pub security_days : ℕ
  pub post_cleanup_days : ℕ

pub data HoldScope : Type 0 where
  global_scope run_scope bundle_scope item_scope cleanup_scope other_scope : HoldScope

-- A type that the code does not know is given by its name in upper case.
pub data HoldType : Type 0 where
  manual security_review incident cleanup compliance : HoldType
  other_type : (upper : String) → HoldType

pub data HoldStatus : Type 0 where
  active_hold released_hold other_status : HoldStatus

pub record RetentionHold : Type 0 where
  pub id : String
  pub scope : HoldScope
  pub run_id : Option String
  pub bundle_id : Option String
  pub item_id : Option String
  pub cleanup_ledger_id : Option String
  pub reason : String
  pub hold_type : HoldType
  pub created_by : String
  pub created_at : Stamp
  pub released_at : Stamp
  pub released_by : Option String
  pub status : HoldStatus

pub record RetentionObject : Type 0 where
  pub provider : Option String
  pub bucket : Option String
  pub etag : Option String
  pub sha256 : Option String
  pub id : String
  pub name : String
  pub size_bytes : Option ℕ
  pub created_at : Stamp
  pub updated_at : Stamp

pub data DeletionStatus : Type 0 where
  deleting partial_failure deleted : DeletionStatus

pub record RetentionDeletion : Type 0 where
  pub id : String
  pub bundle_id : String
  pub source_signature : String
  pub expected_objects : List RetentionObject
  pub policy_version : String
  pub status : DeletionStatus
  pub original_object_count : ℕ
  pub original_byte_count : ℕ

pub record CommandSnapshot : Type 0 where
  pub key : String
  pub npm_script : String
  pub risk_level : String
  pub mutates_staging : Bool
  pub cleanup_required : Bool
  pub requires_secondary_account : Bool

-- The lists of ids are absent if they are no arrays.
pub record RunManifest : Type 0 where
  pub run_id : String
  pub status : CleanupStatus
  pub created_capsule_ids : Option (List String)
  pub created_media_ids : Option (List String)
  pub retention_until : Stamp
  pub cleanup_timestamp : Stamp
  pub confirmed_at : Stamp
  pub verified_at : Stamp

pub record RetentionRun : Type 0 where
  pub id : String
  pub campaign_key : String
  pub status : RunStatus
  pub created_at : Stamp
  pub completed_at : Stamp
  pub command : Option CommandSnapshot
  pub manifest : Option RunManifest

pub record CleanupRow : Type 0 where
  pub id : String
  pub object_id : String
  pub object_type : ObjectType
  pub originating_run_id : String
  pub status : LedgerStatus
  pub retention_until : Stamp
  pub resolved_at : Stamp
  pub security_sensitive : Bool
  pub unexpected_data : Bool

-- The keys of the source items of a migration, with their buckets.
pub record Migration : Type 0 where
  pub bundle_id : String
  pub state : String
  pub destination_bucket : String
  pub source_items : List (Option String × String)

pub record RetentionSnapshot : Type 0 where
  pub migrations : List Migration
  pub revision : String
  pub consistent : Bool
  pub policies : List RetentionPolicy
  pub holds : List RetentionHold
  pub runs : List RetentionRun
  pub bundles : List Bundle
  pub items : List Item
  pub cleanup : List CleanupRow
  pub objects : List RetentionObject
  pub deletions : List RetentionDeletion

pub data Eligibility : Type 0 where
  eligible protected review_required : Eligibility

pub record RetentionDecision : Type 0 where
  pub provider : String
  pub bucket : Option String
  pub bundle_id : String
  pub run_id : String
  pub campaign : String
  pub run_status : Option RunStatus
  pub retention_classes : List String
  pub created_at : Stamp
  pub completed_at : Stamp
  pub expiry_at : Option ℕ
  pub object_count : ℕ
  pub bytes : ℕ
  pub protection_reasons : List String
  pub eligibility_reason : Eligibility

-- `timestamp`
abbrev pub timestamp : Stamp → Option ℕ
timestamp no_date = none
timestamp unreadable = none
timestamp (date n) = some n
