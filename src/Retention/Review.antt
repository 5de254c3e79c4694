-- ===== src/Retention/Review.antt =====
-- dashboard/lib/inssa-ops/retention.ts: the reasons for which the evidence of a bundle must be
-- reviewed. Arguments are the digest of a bundle and its items, the table of commands
-- (dashboard/lib/inssa-ops/command-registry.ts) and what dashboard/lib/monitoring/authentication-
-- result.ts says of a campaign and of a saved result.
use web_app_qa_tests_main.Base.{
  ℕ, String, str_eq, Bool, true, false, ◌&&◌, ◌||◌, not, Option, none, some, is_some, List, [], ◌∷◌,
  ◌++◌, ◌==◌, if◌then◌else◌, any, length, find, find_last, filter,
}
use web_app_qa_tests_main.Outbox.Payload.{Value, Fields, no_field, field}
use web_app_qa_tests_main.Reconcile.{
  RunStatus, run_passed, run_warned, run_failed, run_failed_startup, run_cancelled, run_timed_out,
}
use web_app_qa_tests_main.Evidence.{Item, Bundle, same_text, Stamp, no_date, unreadable, date}
use web_app_qa_tests_main.Retention.{
  RetentionObject, RetentionDeletion, DeletionStatus, deleted, RetentionRun, RetentionSnapshot,
}
use web_app_qa_tests_main.Retention.Policy.{
  policy_version, reason_if, Identity, same_identity, object_identity, item_identity,
}

abbrev pub is_success : RunStatus → Bool
is_success run_passed = true
is_success run_warned = true
is_success _ = false

abbrev pub is_failure : RunStatus → Bool
is_failure run_failed = true
is_failure run_failed_startup = true
is_failure run_timed_out = true
is_failure run_cancelled = true
is_failure _ = false

abbrev pub run_classes : List String
run_classes =
    "short-lived" ∷ "default" ∷ "security-evidence" ∷ "cleanup-evidence" ∷ "siem-metadata" ∷ []

unfoldable pub items_of_bundle : RetentionSnapshot → Bundle → List Item
unfolding filter
items_of_bundle s b = filter (λ i. str_eq i.bundle_id b.id) s.items

unfoldable pub run_of : RetentionSnapshot → Bundle → Option RetentionRun
unfolding find_last
run_of s b = find_last (λ r. str_eq r.id b.run_id) s.runs

unfoldable pub object_at : Identity → List RetentionObject → Option RetentionObject
unfolding find_last
object_at identity os = find_last (λ o. same_identity (object_identity o) identity) os

abbrev is_pending : Bundle → RetentionDeletion → DeletionStatus → Bool
is_pending b d deleted = false
is_pending b d _ = str_eq d.bundle_id b.id

-- The deletion of the bundle that is under way.
unfoldable pub pending_of : RetentionSnapshot → Bundle → Option RetentionDeletion
unfolding find
pending_of s b = find (λ d. is_pending b d d.status) s.deletions

abbrev same_size : Option ℕ → Option ℕ → Bool
same_size none none = true
same_size (some a) (some b) = a == b
same_size _ _ = false

abbrev pub distinct_identities : List Identity → Bool
distinct_identities [] = true
distinct_identities (x ∷ xs) = not (any (same_identity x) xs) && distinct_identities xs

abbrev identities : List RetentionObject → List Identity
identities [] = []
identities (o ∷ os) = object_identity o ∷ identities os

module _ (signature : Bundle → List Item → String) where
  unfoldable pub is_intent_inconsistent : Bundle → List Item → RetentionDeletion → Bool
  unfolding item_identity
  is_intent_inconsistent b items d =
      (not (str_eq d.policy_version policy_version)
        || not (str_eq d.source_signature (signature b items)))
      || ((not (d.original_object_count == length items)
            || not (d.original_byte_count == b.total_bytes))
          || (not (length d.expected_objects == length items)
              || (not (distinct_identities (identities d.expected_objects))
                  || any
                      (λ o. not (
                        any
                          (λ i.
                            same_identity (item_identity i) (object_identity o)
                            && same_size (some i.size_bytes) o.size_bytes)
                          items))
                      d.expected_objects)))

  -- The expected objects that Storage no longer has.
  unfoldable pub missing_expected :
      List RetentionObject → List RetentionObject → List RetentionObject
  unfolding object_at filter
  missing_expected objects expected =
      filter (λ e. not (is_some (object_at (object_identity e) objects))) expected

  -- The objects by which the bundle is judged: those of Storage, and those that its deletion, if
  -- that is consistent, has removed.
  unfoldable pub bundle_objects :
      RetentionSnapshot → Bundle → Option RetentionDeletion → List RetentionObject
  unfolding is_intent_inconsistent missing_expected items_of_bundle
  bundle_objects s b none = s.objects
  bundle_objects s b (some d) =
      if is_intent_inconsistent b (items_of_bundle s b) d
      then s.objects
      else s.objects ++ missing_expected s.objects d.expected_objects

-- Dates are compared as texts, for which an instant stands.
abbrev same_stamp : Stamp → Stamp → Bool
same_stamp no_date no_date = true
same_stamp unreadable unreadable = true
same_stamp (date a) (date b) = a == b
same_stamp _ _ = false

abbrev is_changed : (expected : RetentionObject) → Option RetentionObject → Bool
is_changed e none = false
is_changed e (some o) =
    (not (str_eq o.id e.id) || not (same_size o.size_bytes e.size_bytes))
    || ((not (same_stamp o.created_at e.created_at) || not (same_stamp o.updated_at e.updated_at))
        || (not (same_text o.etag e.etag) || not (same_text o.sha256 e.sha256)))

abbrev pub object_reasons : (expected objects : List RetentionObject) → List String
object_reasons [] objects = []
object_reasons (e ∷ es) objects =
    reason_if (is_changed e (object_at (object_identity e) objects)) "DELETION_OBJECT_CHANGED"
    ++ object_reasons es objects

abbrev pub metadata_value : String → Fields → Option Value
metadata_value key no_field = none
metadata_value key (field k v fs) =
    let rest = metadata_value key fs in if str_eq k key then some v else rest
