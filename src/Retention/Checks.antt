-- ===== src/Retention/Checks.antt =====
-- dashboard/lib/inssa-ops/retention.ts: the checks of a bundle that put it under review.
use web_app_qa_tests_main.Base.{
  ℕ, String, str_eq, Bool, true, false, ◌&&◌, ◌||◌, not, Option, none, some, List, [], ◌∷◌, ◌++◌,
  ltb, ◌==◌, if◌then◌else◌, any, count, find, chars, ends_with, is_answered,
}
use web_app_qa_tests_main.Outbox.Payload.{Value, absent, flag, number, text, array, object}
use web_app_qa_tests_main.Evidence.{
  Item, Bundle, BundleStatus, indexed, expired, is_blank, is_uploaded,
}
use web_app_qa_tests_main.Evidence.Location.{is_durable_backend}
use web_app_qa_tests_main.Evidence.Integrity.{contains, is_safe_integer, validate_evidence_manifest}
use web_app_qa_tests_main.Retention.{
  RetentionObject, RetentionDeletion, CommandSnapshot, RunManifest, RetentionRun, RetentionSnapshot,
}
use web_app_qa_tests_main.Retention.Policy.{
  ordered, reasons_of, same_identity, item_identity, policy_known, holds_known,
}
use web_app_qa_tests_main.Retention.Review.{
  is_success, is_failure, run_classes, items_of_bundle, run_of, object_at, pending_of,
  is_intent_inconsistent, bundle_objects, object_reasons, metadata_value,
}

abbrev item_classes : List Item → List String
item_classes [] = []
item_classes (i ∷ is) = i.retention_class ∷ item_classes is

unfoldable pub classes_of : RetentionSnapshot → Bundle → List String
unfolding items_of_bundle
classes_of s b = ordered (b.retention_class ∷ item_classes (items_of_bundle s b))

abbrev pub general_reasons : (now routine_days : ℕ) → RetentionSnapshot → List String
general_reasons now routine_days s = reasons_of (
    (not s.consistent, "SNAPSHOT_CHANGED")
    ∷ (not (policy_known now routine_days s), "POLICY_UNKNOWN")
    ∷ (not (holds_known s), "HOLD_STATE_UNKNOWN")
    ∷ [])

abbrev pub is_indexed : BundleStatus → Bool
is_indexed indexed = true
is_indexed expired = false

abbrev pub is_finished : RetentionRun → Bool
is_finished r = is_success r.status || is_failure r.status

abbrev pub run_reasons : Bundle → Option RetentionRun → List String
run_reasons b none = "RUN_MISSING" ∷ []
run_reasons b (some r) = reasons_of (
    (not (is_finished r), "ACTIVE_OR_UNKNOWN_RUN")
    ∷ (
      not (str_eq r.campaign_key b.campaign_key) || not (str_eq r.id b.run_id),
      "RUN_ASSOCIATION_AMBIGUOUS",
    )
    ∷ [])

abbrev pub is_upload_incomplete : Bundle → List Item → Bool
is_upload_incomplete b items =
    (not (is_uploaded b.upload_status) || not (is_durable_backend b.storage_backend))
    || (not (is_blank b.upload_error)
        || any (λ i. not (is_uploaded i.upload_status) || not (is_blank i.upload_error)) items)

abbrev pub is_size : ℕ → Option ℕ → Bool
is_size n none = false
is_size n (some k) = is_safe_integer k && k == n

abbrev pub has_size : ℕ → Option RetentionObject → Bool
has_size n none = false
has_size n (some o) = is_size n o.size_bytes

-- The object is there with the size of the item, and no other item claims it.
unfoldable pub is_stored : (all_items : List Item) → List RetentionObject → Item → Bool
unfolding item_identity object_at
is_stored all_items objects i =
    has_size i.size_bytes (object_at (item_identity i) objects)
    && count (λ j. same_identity (item_identity j) (item_identity i)) all_items == 1

abbrev pub is_empty_list : List Item → Bool
is_empty_list [] = true
is_empty_list (i ∷ is) = false

abbrev pub is_truthy : Value → Bool
is_truthy absent = false
is_truthy (flag b) = b
is_truthy (number n) = ltb 0 n
is_truthy (text t) = not (str_eq t "")
is_truthy (array vs) = true
is_truthy (object fs) = true

abbrev pub has_truthy : Option Value → Bool
has_truthy none = false
has_truthy (some v) = is_truthy v

abbrev pub auth_result : Item → Option Value
auth_result i = metadata_value "authenticationMonitoringResult" i.metadata

abbrev pub result_of_item : Option Item → Option Value
result_of_item none = none
result_of_item (some i) = auth_result i

pub record AuthSummary : Type 0 where
  pub run_id : String
  pub environment : String

unfoldable pub expected_environment : String → String
unfolding chars
expected_environment campaign =
    if ends_with (chars "_production") (chars campaign) then "production" else "staging"

abbrev pub is_of_bundle : Bundle → Option AuthSummary → Bool
is_of_bundle b none = false
is_of_bundle b (some r) =
    str_eq r.run_id b.run_id && str_eq r.environment (expected_environment b.campaign_key)

abbrev same_bool : Bool → Bool → Bool
same_bool true b = b
same_bool false b = not b

abbrev pub is_command_known : Bundle → CommandSnapshot → Option CommandSnapshot → Bool
is_command_known b c none = false
is_command_known b c (some k) =
    (str_eq c.key b.campaign_key && str_eq c.npm_script k.npm_script)
    && ((str_eq c.risk_level k.risk_level && same_bool c.mutates_staging k.mutates_staging)
        && (same_bool c.cleanup_required k.cleanup_required
            && same_bool c.requires_secondary_account k.requires_secondary_account))

abbrev pub command_of : Option RetentionRun → Option CommandSnapshot
command_of none = none
command_of (some r) = r.command

abbrev pub manifest_of : Option RetentionRun → Option RunManifest
manifest_of none = none
manifest_of (some r) = r.manifest

abbrev pub manifest_other_run : Bundle → Option RunManifest → Bool
manifest_other_run b none = false
manifest_other_run b (some m) = not (str_eq m.run_id b.run_id)

abbrev has_flag : Option Value → Bool
has_flag (some (flag b)) = true
has_flag _ = false

abbrev is_one : Option Value → Bool
is_one (some (number n)) = n == 1
is_one _ = false

abbrev is_available : Option Value → Bool
is_available (some (text t)) = str_eq t "available"
is_available _ = false

-- The diagnostics of an execution are absent or complete.
abbrev pub is_diagnosed : Option Value → Bool
is_diagnosed none = true
is_diagnosed (some (object d)) =
    (is_one (metadata_value "schemaVersion" d) && is_available (metadata_value "state" d))
    && (has_flag (metadata_value "retryUsed" d) && has_flag (metadata_value "flaky" d))
is_diagnosed (some _) = false

abbrev pub diagnostics_of : Item → Option Value
diagnostics_of i = metadata_value "executionDiagnostics" i.metadata

-- The functions of the platform and of the repository that the evaluation calls.
pub record Services : Type 0 where
  pub signature : Bundle → List Item → String
  pub normalize : String → String
  pub is_absolute : String → Bool
  pub phase1_command : String → Option CommandSnapshot
  pub is_monitoring : String → Bool
  pub parse_summary : Option Value → Option AuthSummary

module _ (services : Services) where
  abbrev pub command_known : Bundle → Option CommandSnapshot → Bool
  command_known b none = false
  command_known b (some c) = is_command_known b c (services.phase1_command c.key)

  abbrev pub pending_reasons : RetentionSnapshot → Bundle → Option RetentionDeletion → List String
  pending_reasons s b none = []
  pending_reasons s b (some d) =
      if is_intent_inconsistent services.signature b (items_of_bundle s b) d
      then "DELETION_INTENT_INCONSISTENT" ∷ []
      else object_reasons d.expected_objects s.objects

  unfoldable pub judged_objects : RetentionSnapshot → Bundle → List RetentionObject
  unfolding bundle_objects pending_of
  judged_objects s b = bundle_objects services.signature s b (pending_of s b)

  abbrev pub result_uncertain : Bundle → List Item → Bool
  result_uncertain b items =
      services.is_monitoring b.campaign_key
      && not (
          is_of_bundle b (
            services.parse_summary (result_of_item (find (λ i. has_truthy (auth_result i)) items))))

  -- The tests that do not depend on dates.
  unfoldable pub check_tests : RetentionSnapshot → Bundle → List (Bool × String)
  unfolding items_of_bundle run_of classes_of judged_objects is_stored validate_evidence_manifest
  check_tests s b =
      let items = items_of_bundle s b in
      let run = run_of s b in
      (any (λ c. not (contains run_classes c)) (classes_of s b), "RETENTION_CLASS_UNKNOWN")
      ∷ (
        not (
            is_answered (
              validate_evidence_manifest services.normalize services.is_absolute b.run_id (some b)
                items)),
        "BUNDLE_INCONSISTENT",
      )
      ∷ (not (is_indexed b.status) || is_empty_list items, "BUNDLE_INCONSISTENT")
      ∷ (is_upload_incomplete b items, "UPLOAD_INCOMPLETE")
      ∷ (
        any (λ i. not (is_stored s.items (judged_objects s b) i)) items,
        "STORAGE_INVENTORY_INCONSISTENT",
      )
      ∷ (result_uncertain b items, "PROVIDER_RESULT_PRESERVATION_UNCERTAIN")
      ∷ (not (command_known b (command_of run)), "SECURITY_CLASSIFICATION_UNCERTAIN")
      ∷ (manifest_other_run b (manifest_of run), "CLEANUP_ASSOCIATION_AMBIGUOUS")
      ∷ (any (λ i. not (is_diagnosed (diagnostics_of i))) items, "EXECUTION_DIAGNOSTICS_UNKNOWN")
      ∷ []

  unfoldable pub check_reasons : RetentionSnapshot → Bundle → List String
  unfolding run_of pending_of check_tests
  check_reasons s b =
      pending_reasons s b (pending_of s b)
      ++ (run_reasons b (run_of s b) ++ reasons_of (check_tests s b))
