-- ===== src/Retention/Evaluate.antt =====
-- dashboard/lib/inssa-ops/retention.ts: the windows of security and cleanup, the holds, and the
-- decision on a bundle.
use web_app_qa_tests_main.Base.{
  ℕ, ◌+◌, ◌*◌, String, str_eq, ◌<>◌, Bool, true, false, ◌||◌, not, Option, none, some, List, [],
  ◌∷◌, ◌++◌, ltb, if◌then◌else◌, any, is_some,
}
use web_app_qa_tests_main.Cleanup.{
  CleanupStatus, completed, manually_confirmed, LedgerStatus, done, ObjectType, media, time_capsule,
}
use web_app_qa_tests_main.Evidence.{Item, Bundle, has_date, same_text}
use web_app_qa_tests_main.Evidence.Integrity.{contains}
use web_app_qa_tests_main.Retention.{
  HoldScope, global_scope, HoldType, manual, security_review, incident, cleanup, compliance,
  other_type, RetentionHold, RunManifest, CleanupRow, RetentionSnapshot, Eligibility, eligible,
  protected, review_required, timestamp,
}
use web_app_qa_tests_main.Retention.Policy.{
  reason_if, reasons_of, is_after, not_after, active_holds,
}
use web_app_qa_tests_main.Retention.Review.{items_of_bundle, run_of}
use web_app_qa_tests_main.Retention.Checks.{
  Services, classes_of, general_reasons, manifest_of, judged_objects, check_reasons,
}
use web_app_qa_tests_main.Retention.Protect.{
  day, Protection, later, latest, is_migrating, capsule_ids, media_ids, associated_rows,
  is_mutation, is_security, anchor_times, has_warning, status_window, is_empty,
}

abbrev pub add_review : List String → Protection → Protection
add_review reasons p = record p { review = p.review ++ reasons }

-- Protected until a date.
abbrev pub until : (now : ℕ) → (deadline : ℕ) → String → Protection → Protection
until now deadline reason p = record p {
  protect = p.protect ++ reason_if (ltb now deadline) reason;
  expiry = later p.expiry deadline;
}

abbrev pub until_retention : (now : ℕ) → Option ℕ → Protection → Protection
until_retention now none p = add_review ("CLEANUP_DATES_UNKNOWN" ∷ []) p
until_retention now (some t) p = until now t "CLEANUP_RETENTION_UNTIL" p

-- 30 days from a resolution, which must be readable and past.
abbrev pub after_resolution : (now : ℕ) → Option ℕ → Protection → Protection
after_resolution now none p = add_review ("CLEANUP_RESOLUTION_UNKNOWN" ∷ []) p
after_resolution now (some t) p =
    if ltb now t
    then add_review ("CLEANUP_RESOLUTION_UNKNOWN" ∷ []) p
    else until now (t + 30 * day) "POST_CLEANUP_WINDOW" p

abbrev pub security_window : (now : ℕ) → (security : Bool) → Option ℕ → Protection → Protection
security_window now true (some anchor) p = until now (anchor + 90 * day) "SECURITY_WINDOW" p
security_window now _ _ p = p

abbrev pub is_done : LedgerStatus → Bool
is_done done = true
is_done _ = false

abbrev pub is_resolved : CleanupStatus → Bool
is_resolved completed = true
is_resolved manually_confirmed = true
is_resolved _ = false

abbrev is_object : ObjectType → String → CleanupRow → Bool
is_object time_capsule id row = elim row.object_type [
  | time_capsule ↦ str_eq row.object_id id
  | media ↦ false
]
is_object media id row = elim row.object_type [
  | media ↦ str_eq row.object_id id
  | time_capsule ↦ false
]

abbrev is_missing : ObjectType → List CleanupRow → String → Bool
is_missing type rows id = not (any (is_object type id) rows)

abbrev manifest_unusable : Bundle → Option RunManifest → Bool
manifest_unusable b none = true
manifest_unusable b (some m) =
    not (str_eq m.run_id b.run_id)
    || (not (is_some m.created_capsule_ids) || not (is_some m.created_media_ids))

abbrev pub association_ambiguous : Bundle → Option RunManifest → List CleanupRow → Bool
association_ambiguous b m rows =
    (manifest_unusable b m || is_empty rows)
    || (any (is_missing time_capsule rows) (capsule_ids m)
        || any (is_missing media rows) (media_ids m))

abbrev manifest_unresolved : Option RunManifest → Bool
manifest_unresolved none = false
manifest_unresolved (some m) = not (is_resolved m.status)

abbrev pub is_unresolved : Option RunManifest → List CleanupRow → Bool
is_unresolved m rows = any (λ row. not (is_done row.status)) rows || manifest_unresolved m

abbrev pub protect_indefinitely : Bool → String → Protection → Protection
protect_indefinitely true reason p = record p {
  protect = p.protect ++ reason ∷ [];
  indefinite = true;
}
protect_indefinitely false reason p = p

abbrev pub row_window : (now : ℕ) → CleanupRow → Protection → Protection
row_window now row p =
    let kept = until_retention now (timestamp row.retention_until) p in
    if is_done row.status then after_resolution now (timestamp row.resolved_at) kept else kept

abbrev pub row_windows : (now : ℕ) → List CleanupRow → Protection → Protection
row_windows now [] p = p
row_windows now (row ∷ rows) p = row_windows now rows (row_window now row p)

abbrev pub resolution_of : RunManifest → Option ℕ
resolution_of m =
    latest (timestamp m.cleanup_timestamp ∷ timestamp m.confirmed_at ∷ timestamp m.verified_at ∷ [])

abbrev pub manifest_deadline : (now : ℕ) → RunManifest → Protection → Protection
manifest_deadline now m p =
    if has_date m.retention_until then until_retention now (timestamp m.retention_until) p else p

abbrev pub manifest_window : (now : ℕ) → Option RunManifest → Protection → Protection
manifest_window now none p = p
manifest_window now (some m) p =
    let kept = manifest_deadline now m p in
    if is_resolved m.status then after_resolution now (resolution_of m) kept else kept

abbrev pub cleanup_window :
    (now : ℕ)
    → (mutation : Bool) → Bundle
    → Option RunManifest
    → List CleanupRow
    → Protection
    → Protection
cleanup_window now false b m rows p = p
cleanup_window now true b m rows p = manifest_window now m (
    row_windows now rows (
      protect_indefinitely (is_unresolved m rows) "UNRESOLVED_CLEANUP" (
        add_review (reason_if (association_ambiguous b m rows) "CLEANUP_ASSOCIATION_AMBIGUOUS") p)))

abbrev pub hold_name : HoldType → String
hold_name manual = "MANUAL"
hold_name security_review = "SECURITY_REVIEW"
hold_name incident = "INCIDENT"
hold_name cleanup = "CLEANUP"
hold_name compliance = "COMPLIANCE"
hold_name (other_type upper) = upper

abbrev is_global : HoldScope → Bool
is_global global_scope = true
is_global _ = false

abbrev pub covers : Bundle → List Item → List CleanupRow → RetentionHold → Bool
covers b items rows h =
    (is_global h.scope || same_text h.run_id (some b.run_id))
    || (same_text h.bundle_id (some b.id)
        || (any (λ i. same_text h.item_id (some i.id)) items
            || any (λ row. same_text h.cleanup_ledger_id (some row.id)) rows))

abbrev pub hold_all :
    Bundle → List Item → List CleanupRow → List RetentionHold → Protection → Protection
hold_all b items rows [] p = p
hold_all b items rows (h ∷ hs) p = hold_all b items rows hs (
    protect_indefinitely (covers b items rows h)
      ("HOLD_" <> (hold_name h.hold_type <> (":" <> h.id))) p)

abbrev pub dates_inconsistent : (now : ℕ) → List (Option ℕ) → Bool
dates_inconsistent now times = any (λ t. not (not_after t now)) times

module _ (services : Services) (now routine_days warning_days : ℕ) (s : RetentionSnapshot) where
  -- All protection of a bundle, in the order of the source.
  unfoldable pub protection_of : Bundle → Protection
  unfolding is_migrating classes_of items_of_bundle run_of associated_rows anchor_times
      judged_objects check_reasons active_holds
  protection_of b =
      let items = items_of_bundle s b in
      let run = run_of s b in
      let classes = classes_of s b in
      let m = manifest_of run in
      let rows = associated_rows s b m in
      let times = anchor_times b items run (judged_objects services s b) in
      let anchor = latest times in
      let start = status_window now routine_days warning_days (has_warning items run) run anchor in
      let checked =
        add_review
          (general_reasons now routine_days s
            ++ (check_reasons services s b
                ++ reasons_of ((dates_inconsistent now times, "DATES_INCONSISTENT") ∷ [])))
          start in
      let migrating = protect_indefinitely (is_migrating s b) "MIGRATION_ACTIVE" checked in
      let siem =
        protect_indefinitely (contains classes "siem-metadata") "SIEM_METADATA_PRESERVED"
          migrating in
      let secured = security_window now (is_security classes b run rows) anchor siem in
      let cleaned = cleanup_window now (is_mutation classes run rows) b m rows secured in
      hold_all b items rows (active_holds now s) cleaned

abbrev pub eligibility_from : (review : List String) → (protects : Bool) → Eligibility
eligibility_from (r ∷ rs) protects = review_required
eligibility_from [] true = protected
eligibility_from [] false = eligible

abbrev pub eligibility_of : (now : ℕ) → Protection → Eligibility
eligibility_of now p = eligibility_from p.review (p.indefinite || is_after p.expiry now)
