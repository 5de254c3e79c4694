-- ===== src/Cleanup.antt =====
-- dashboard/lib/inssa-ops/cleanup-ledger.ts: what staging objects still await cleanup, and the gate
-- that lets a mutating campaign start. Instants are milliseconds since the epoch, and a date that
-- cannot be read is absent. The files of manifests and of configured records are arguments.
pub mod Ledger
pub mod Gate
pub mod Checks
pub mod Accounting
pub mod Safety
pub mod Manual
mod Tests
use web_app_qa_tests_main.Base.{
  ℕ, ◌+◌, ◌*◌, String, str_eq, ◌<>◌, Bool, true, false, ◌&&◌, ◌||◌, not, Option, none, some, List,
  [], ◌∷◌, or_else, ltb, if◌then◌else◌,
}

pub data CleanupStatus : Type 0 where
  cleanup_unavailable completed deferred failed manually_confirmed not_required pending :
      CleanupStatus

pub data LedgerStatus : Type 0 where
  unavailable done put_off lost waiting : LedgerStatus

pub data ObjectType : Type 0 where
  media time_capsule : ObjectType

pub record PolicySnapshot : Type 0 where
  pub manual_mode_enabled : Bool
  pub dedicated_qa_accounts_confirmed : Bool
  pub deferred_mode_enabled : Bool
  pub max_mutation_runs_per_day : ℕ
  pub max_unresolved_age_days : ℕ
  pub max_unresolved_objects : ℕ
  pub retention_days : ℕ

-- The fields that the ledger and the gate read.
pub record CleanupManifest : Type 0 where
  pub affected_users : List String
  pub created_capsule_ids : List String
  pub created_media_ids : List String
  pub dedicated_qa_account : Bool
  pub evidence_paths : List String
  pub instructions : List String
  pub lifecycle_state : Option String
  pub media_type : Option String
  pub owner_account : Option String
  pub reason_code : Option String
  pub recorded_at : Option ℕ
  pub retention_until : Option ℕ
  pub run_id : String
  pub safely_accounted : Bool
  pub sensitive_values_excluded : Bool
  pub selected_recipient : Option String
  pub status : CleanupStatus
  pub unexpected_data : Bool
  pub verification_methods : List String

pub record LedgerRecord : Type 0 where
  pub affected_users : List String
  pub campaign_key : String
  pub created_at : Option ℕ
  pub dedicated_qa_account : Bool
  pub deferred_at : Option ℕ
  pub evidence_paths : List String
  pub id : String
  pub media_type : Option String
  pub notes : Option String
  pub object_id : String
  pub object_path : String
  pub object_type : ObjectType
  pub originating_run_id : String
  pub owner_account : Option String
  pub reason_code : Option String
  pub resulting_state : Option String
  pub resolved_at : Option ℕ
  pub retention_until : ℕ
  pub safely_accounted : Bool
  pub security_sensitive : Bool
  pub sensitive_values_excluded : Bool
  pub selected_recipient : Option String
  pub status : LedgerStatus
  pub unexpected_data : Bool
  pub updated_at : ℕ
  pub verification_methods : List String

pub record RunRecord : Type 0 where
  pub campaign_key : String
  pub created_at : ℕ
  pub cleanup : Option CleanupManifest
  pub id : String
  pub mutates_staging : Bool
  pub requires_secondary_account : Bool

-- `environment.NAME === text`
abbrev is_text : Option String → String → Bool
is_text none text = false
is_text (some t) text = str_eq t text

-- The only addresses that match /^https:\/\/staging\.inssa\.us\/?$/.
abbrev is_staging_url : Option String → Bool
is_staging_url u = is_text u "https://staging.inssa.us" || is_text u "https://staging.inssa.us/"

-- `number_of` is `Number` of a text, if that is a natural number.
abbrev positive_integer :
    (number_of : Option String → Option ℕ) → Option String → (fallback : ℕ) → ℕ
positive_integer number_of value fallback = elim (number_of value) [
  | none ↦ fallback
  | some n ↦ if ltb 0 n then n else fallback
]

unfoldable pub resolve_cleanup_policy :
    (number_of : Option String → Option ℕ)
    → (environment : String → Option String) → (requires_secondary_account governed_staging : Bool)
    → PolicySnapshot
resolve_cleanup_policy number_of environment requires_secondary_account governed_staging =
    let primary_dedicated = is_text (environment "INSSA_TEST_ACCOUNT_IS_DEDICATED_QA") "1" in
    let secondary_dedicated =
      not requires_secondary_account
      || is_text (environment "INSSA_SECONDARY_TEST_ACCOUNT_IS_DEDICATED_QA") "1" in
    record {
      manual_mode_enabled =
          governed_staging
          && is_text (environment "INSSA_MANUAL_CLEANUP_MODE") "1"
          && is_staging_url (environment "INSSA_URL");
      dedicated_qa_accounts_confirmed = primary_dedicated && secondary_dedicated;
      deferred_mode_enabled = is_text (environment "INSSA_DEFERRED_CLEANUP_MODE") "1";
      max_mutation_runs_per_day =
          positive_integer number_of (environment "INSSA_MAX_MUTATION_RUNS_PER_DAY") 10;
      max_unresolved_age_days =
          positive_integer number_of (environment "INSSA_MAX_UNRESOLVED_AGE_DAYS") 90;
      max_unresolved_objects =
          positive_integer number_of (environment "INSSA_MAX_UNRESOLVED_OBJECTS") 10;
      retention_days =
          positive_integer number_of (environment "INSSA_UNRESOLVED_RETENTION_DAYS") 90;
    }
