-- ===== src/Retention/Plan.antt =====
-- dashboard/lib/inssa-ops/retention.ts: the plan of an evaluation, which decides on every bundle and
-- sums up. The plan's id, a digest of the plan, is left out. `in_order` is `localeCompare <= 0`.
use web_app_qa_tests_main.Base.{
  ℕ, ◌+◌, String, str_eq, Bool, true, false, ◌&&◌, ◌||◌, not, Option, none, some, is_some, or_else,
  List, [], ◌∷◌, ◌++◌, ◌==◌, if◌then◌else◌, any, all, count, length, filter, chars, Char, code,
  Answer, answered, or_refuse, and_then,
}
use web_app_qa_tests_main.Reconcile.{RunStatus}
use web_app_qa_tests_main.Evidence.{Item, Bundle, Stamp}
use web_app_qa_tests_main.Evidence.Location.{Provider, provider_of}
use web_app_qa_tests_main.Evidence.Integrity.{is_safe_integer}
use web_app_qa_tests_main.Retention.{
  RetentionObject, RetentionRun, RetentionSnapshot, Eligibility, eligible, protected,
  review_required, RetentionDecision, timestamp,
}
use web_app_qa_tests_main.Retention.Policy.{
  policy_version, ordered, policy_of, active_holds, RetentionOptions, routine_days_of,
  warning_days_of, provider_name,
}
use web_app_qa_tests_main.Retention.Review.{items_of_bundle, run_of}
use web_app_qa_tests_main.Retention.Checks.{Services, classes_of, general_reasons}
use web_app_qa_tests_main.Retention.Protect.{Protection, run_completed_at}
use web_app_qa_tests_main.Retention.Evaluate.{protection_of, eligibility_of}

abbrev provider_or_unknown : Option Provider → String
provider_or_unknown none = "unknown"
provider_or_unknown (some p) = provider_name p

abbrev bucket_of : Bundle → Option String
bucket_of b = elim b.storage_bucket [
  | some bucket ↦ some bucket
  | none ↦ if str_eq b.storage_backend "supabase-storage" then some "inssa-evidence" else none
]

abbrev status_of : Option RetentionRun → Option RunStatus
status_of none = none
status_of (some r) = some r.status

abbrev expiry_of : Protection → Option ℕ
expiry_of p = if p.indefinite then none else p.expiry

module _ (services : Services) (now routine_days warning_days : ℕ) (s : RetentionSnapshot) where
  unfoldable pub decide : Bundle → RetentionDecision
  unfolding protection_of run_of items_of_bundle classes_of
  decide b =
      let p = protection_of services now routine_days warning_days s b in
      record {
        provider = provider_or_unknown (provider_of b.storage_backend);
        bucket = bucket_of b;
        bundle_id = b.id;
        run_id = b.run_id;
        campaign = b.campaign_key;
        run_status = status_of (run_of s b);
        retention_classes = classes_of s b;
        created_at = b.created_at;
        completed_at = run_completed_at (run_of s b);
        expiry_at = expiry_of p;
        object_count = length (items_of_bundle s b);
        bytes = b.total_bytes;
        protection_reasons = ordered (p.protect ++ p.review);
        eligibility_reason = eligibility_of now p;
      }

  unfoldable pub decide_all : List Bundle → List RetentionDecision
  unfolding decide
  decide_all [] = []
  decide_all (b ∷ bs) = decide b ∷ decide_all bs

abbrev pub is_eligible : Eligibility → Bool
is_eligible eligible = true
is_eligible _ = false

abbrev pub is_protected : Eligibility → Bool
is_protected protected = true
is_protected _ = false

abbrev pub is_review : Eligibility → Bool
is_review review_required = true
is_review _ = false

abbrev pub with_reason : (Eligibility → Bool) → RetentionDecision → Bool
with_reason test d = test d.eligibility_reason

abbrev pub sum_of : List RetentionDecision → ℕ
sum_of [] = 0
sum_of (d ∷ ds) = d.bytes + sum_of ds

abbrev pub sizes_of : List RetentionObject → ℕ
sizes_of [] = 0
sizes_of (o ∷ os) = or_else o.size_bytes 0 + sizes_of os

abbrev has_safe_size : RetentionObject → Bool
has_safe_size o = elim o.size_bytes [ none ↦ false | some n ↦ is_safe_integer n ]

abbrev is_hold_prefix : List Char → Bool
is_hold_prefix (h ∷ o ∷ l ∷ d ∷ u ∷ cs) =
    code h == 72 && (code o == 79 && (code l == 76 && (code d == 68 && code u == 95)))
is_hold_prefix _ = false

-- `/^HOLD_/`
unfoldable pub is_hold_reason : String → Bool
unfolding chars
is_hold_reason r = is_hold_prefix (chars r)

abbrev pub is_one_of : List String → String → Bool
is_one_of names r = any (λ n. str_eq n r) names

abbrev cleanup_reason_names : List String
cleanup_reason_names = "UNRESOLVED_CLEANUP" ∷ "POST_CLEANUP_WINDOW" ∷ "CLEANUP_RETENTION_UNTIL" ∷ []

abbrev failure_or_security : List String
failure_or_security = "FAILURE_WINDOW" ∷ "SECURITY_WINDOW" ∷ []

abbrev has_reason : (String → Bool) → RetentionDecision → Bool
has_reason test d = any test d.protection_reasons

module _ (in_order : String → String → Bool) where
  abbrev pub insert_decision : RetentionDecision → List RetentionDecision → List RetentionDecision
  insert_decision d [] = d ∷ []
  insert_decision d (x ∷ xs) =
      let rest = insert_decision d xs in
      if in_order d.bundle_id x.bundle_id then d ∷ x ∷ xs else x ∷ rest

  unfoldable pub sort_decisions : List RetentionDecision → List RetentionDecision
  sort_decisions [] = []
  sort_decisions (d ∷ ds) = insert_decision d (sort_decisions ds)

pub record RetentionSummary : Type 0 where
  pub bundles_scanned : ℕ
  pub eligible_bundles : ℕ
  pub protected_bundles : ℕ
  pub review_required_bundles : ℕ
  pub eligible_bytes : ℕ
  pub protected_bytes : ℕ
  pub review_required_bytes : ℕ
  pub total_evidence_storage_bytes : ℕ
  pub storage_size_complete : Bool
  pub protected_by_holds : ℕ
  pub protected_failed_evidence : ℕ
  pub protected_security_evidence : ℕ
  pub protected_failure_or_security : ℕ
  pub protected_cleanup_evidence : ℕ
  pub protected_warning_evidence : ℕ
  pub active_holds : ℕ
  pub orphan_items : ℕ

pub record RetentionPlan : Type 0 where
  pub routine_days : ℕ
  pub warning_days : ℕ
  pub comparison_only : Bool
  pub policy_version : String
  pub as_of : ℕ
  pub snapshot_revision : String
  pub review_reasons : List String
  pub summary : RetentionSummary
  pub bundles : List RetentionDecision

abbrev is_orphan : RetentionSnapshot → Item → Bool
is_orphan s i = not (any (λ b. str_eq b.id i.bundle_id) s.bundles)

unfoldable pub summarize : (now : ℕ) → RetentionSnapshot → List RetentionDecision → RetentionSummary
unfolding filter active_holds is_hold_reason
summarize now s ds =
    let retained = filter (λ d. not (with_reason is_eligible d)) ds in
    record {
      bundles_scanned = length ds;
      eligible_bundles = length (filter (with_reason is_eligible) ds);
      protected_bundles = length (filter (with_reason is_protected) ds);
      review_required_bundles = length (filter (with_reason is_review) ds);
      eligible_bytes = sum_of (filter (with_reason is_eligible) ds);
      protected_bytes = sum_of (filter (with_reason is_protected) ds);
      review_required_bytes = sum_of (filter (with_reason is_review) ds);
      total_evidence_storage_bytes = sizes_of s.objects;
      storage_size_complete = all has_safe_size s.objects;
      protected_by_holds = count (has_reason is_hold_reason) retained;
      protected_failed_evidence = count (has_reason (is_one_of ("FAILURE_WINDOW" ∷ []))) retained;
      protected_security_evidence =
          count (has_reason (is_one_of ("SECURITY_WINDOW" ∷ []))) retained;
      protected_failure_or_security = count (has_reason (is_one_of failure_or_security)) retained;
      protected_cleanup_evidence = count (has_reason (is_one_of cleanup_reason_names)) retained;
      protected_warning_evidence =
          count (has_reason (is_one_of ("WARNING_RETRY_WINDOW" ∷ []))) retained;
      active_holds = length (active_holds now s);
      orphan_items = count (is_orphan s) s.items;
    }

abbrev version_or : Option String → String
version_or v = or_else v policy_version

abbrev id_of_policy : RetentionSnapshot → Option String
id_of_policy s = elim (policy_of s) [ none ↦ none | some p ↦ some p.id ]

module _ (services : Services) (in_order : String → String → Bool) where
  unfoldable pub plan_at : RetentionOptions → (now : ℕ) → RetentionSnapshot → RetentionPlan
  unfolding routine_days_of warning_days_of decide_all sort_decisions summarize policy_of
  plan_at options now s =
      let routine_days = routine_days_of options s in
      let warning_days = warning_days_of options s in
      let decisions =
        sort_decisions in_order (decide_all services now routine_days warning_days s s.bundles) in
      record {
        routine_days = routine_days;
        warning_days = warning_days;
        comparison_only = is_some options.routine_days || options.legacy_v2;
        policy_version = version_or (id_of_policy s);
        as_of = now;
        snapshot_revision = s.revision;
        review_reasons = ordered (general_reasons now routine_days s);
        summary = summarize now s decisions;
        bundles = decisions;
      }

  unfoldable pub evaluate_retention :
      RetentionSnapshot → (as_of : Stamp) → RetentionOptions → Answer RetentionPlan
  unfolding plan_at
  evaluate_retention s as_of options =
      and_then (or_refuse (timestamp as_of) "A valid asOf timestamp is required.")
        λ now. answered (plan_at options now s)
