-- ===== src/Evidence.antt =====
-- The records of evidence in dashboard/lib/inssa-ops/types.ts: a run's evidence is a bundle, its
-- manifest, and the items that the manifest lists. A date is missing, unreadable or an instant.
-- Sums of bytes are exact.
pub mod Location
pub mod Integrity
pub mod Immutable
pub mod Manifest
pub mod Publish
pub mod Replaced
pub mod Durable
pub mod Samples
mod Tests
use web_app_qa_tests_main.Base.{ℕ, String, str_eq, Bool, true, false, Option, none, some, List}
use web_app_qa_tests_main.Outbox.Payload.{Fields}

pub data Stamp : Type 0 where
  no_date unreadable : Stamp
  date : ℕ → Stamp

pub data UploadStatus : Type 0 where
  local_only uploaded upload_failed : UploadStatus

pub data BundleStatus : Type 0 where
  indexed expired : BundleStatus

pub record Bundle : Type 0 where
  pub bundle_type : String
  pub campaign_key : String
  pub checksum_manifest : List (String × String)
  pub created_at : Stamp
  pub id : String
  pub indexed_at : Stamp
  pub item_count : ℕ
  pub retention_class : String
  pub run_id : String
  pub status : BundleStatus
  pub storage_backend : String
  pub storage_bucket : Option String
  pub storage_prefix : Option String
  pub total_bytes : ℕ
  pub upload_error : Option String
  pub upload_status : UploadStatus
  pub uploaded_at : Stamp

pub record Item : Type 0 where
  pub artifact_id : String
  pub bundle_id : String
  pub campaign_key : String
  pub created_at : Stamp
  pub id : String
  pub metadata : Fields
  pub relative_path : String
  pub retention_class : String
  pub run_id : String
  pub sha256 : String
  pub size_bytes : ℕ
  pub storage_backend : String
  pub storage_bucket : Option String
  pub storage_key : String
  pub upload_error : Option String
  pub upload_status : UploadStatus
  pub uploaded_at : Stamp

-- `!value`, for a text that may be null.
abbrev pub is_blank : Option String → Bool
is_blank none = true
is_blank (some t) = str_eq t ""

abbrev pub has_date : Stamp → Bool
has_date no_date = false
has_date unreadable = true
has_date (date n) = true

abbrev pub is_uploaded : UploadStatus → Bool
is_uploaded uploaded = true
is_uploaded _ = false

-- `a === b`, for texts that may be null.
abbrev pub same_text : Option String → Option String → Bool
same_text none none = true
same_text (some a) (some b) = str_eq a b
same_text _ _ = false

abbrev pub same_upload : UploadStatus → UploadStatus → Bool
same_upload local_only local_only = true
same_upload uploaded uploaded = true
same_upload upload_failed upload_failed = true
same_upload _ _ = false
