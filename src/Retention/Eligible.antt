-- ===== src/Retention/Eligible.antt =====
-- Which evidence dashboard/lib/inssa-ops/retention.ts releases for deletion.
use web_app_qa_tests_main.Base.{
  filter-All_back, ℕ, ◌+◌, ◌*◌, ◌≤◌, max, true, false, Option, none, some, List, [], ◌∷◌, ◌++◌, ◌≡◌,
  inl, inr, refl, arith, if◌then◌else◌, All, Option-cases,
}
use web_app_qa_tests_main.Evidence.{Item, Bundle, is_uploaded}
use web_app_qa_tests_main.Evidence.Integrity.{contains}
use web_app_qa_tests_main.Evidence.Manifest.{IsManifest}
use web_app_qa_tests_main.Retention.{RetentionRun, RetentionSnapshot, eligible}
use web_app_qa_tests_main.Retention.Policy.{
  reasons_of, is_after, is_hold_active, active_holds, policy_known, holds_known,
}
use web_app_qa_tests_main.Retention.Review.{is_failure, items_of_bundle, run_of}
use web_app_qa_tests_main.Retention.Checks.{
  Services, classes_of, general_reasons, manifest_of, judged_objects, check_reasons, is_stored,
}
use web_app_qa_tests_main.Retention.Protect.{
  day, latest, plus, is_migrating, associated_rows, is_mutation, is_security, anchor_times,
  has_warning, run_is, status_window,
}
use web_app_qa_tests_main.Retention.Evaluate.{
  add_review, security_window, protect_indefinitely, cleanup_window, covers, hold_all,
  dates_inconsistent, protection_of,
}
use web_app_qa_tests_main.Retention.Plan.{decide}
use web_app_qa_tests_main.Retention.Sound.{HasRun, unreasoned-IsSound}
use web_app_qa_tests_main.Retention.Clear.{
  IsClear, IsAged, IsCleanupOver, eligible-IsClear, add_review-IsClear,
  protect_indefinitely-IsClear, security_window-IsClear, cleanup_window-IsClear, hold_all-IsClear,
}

-- The days that evidence of such a run is kept.
abbrev pub kept_days : (routine_days warning_days : ℕ) → List Item → Option RetentionRun → ℕ
kept_days routine_days warning_days items run =
    if run_is is_failure run
    then 90
    else if has_warning items run
    then warning_days
    else routine_days

status_window-IsClear :
    (now routine_days warning_days : ℕ) (items : List Item) (run : Option RetentionRun)
    (anchor : Option ℕ)
    → IsClear now (status_window now routine_days warning_days (has_warning items run) run anchor)
    → (a : ℕ) → anchor ≡ some a
    → a + kept_days routine_days warning_days items run * day ≤ now
status_window-IsClear now routine_days warning_days items run anchor h a e =
    let over : is_after (plus (some a) (kept_days routine_days warning_days items run * day)) now
        ≡ false =
      rw e at h.2 in
    ground arith

-- All dates are known and past, so the latest of them speaks for all.
latest-IsAged :
    (now time : ℕ) (times : List (Option ℕ))
    → dates_inconsistent now times ≡ false
    → ((a : ℕ) → latest times ≡ some a → a + time ≤ now)
    → All (IsAged now time) times
latest-IsAged now time [] h k = tt
latest-IsAged now time (none ∷ ts) h k = cc
latest-IsAged now time (some t ∷ ts) h k = elim (Option-cases (latest ts)) [
  | inl e ↦
      let here : t + time ≤ now = k t (rw e refl) in
      ((t, refl, here), latest-IsAged now time ts (ground arith) (λ a e'. cc))
  | inr (b, e) ↦
      let top : max b t + time ≤ now = k (max b t) (rw e refl) in
      (
        (t, refl, omega arith),
        latest-IsAged now time ts (ground arith) (λ a e'. let same : b ≡ a = cc in omega arith),
      )
]

-- What must be so before the evidence of a bundle may be deleted: the snapshot, the policies and
-- the holds are sound; the run is over; the manifest is intact, uploaded and in Storage, item by
-- item; no migration, no hold; every window is over.
module _ (services : Services) (now routine_days warning_days : ℕ) (s : RetentionSnapshot) where
  abbrev pub IsDeletable : Bundle → Type 0
  IsDeletable b =
      let items = items_of_bundle s b in
      let run = run_of s b in
      let m = manifest_of run in
      let rows = associated_rows s b m in
      let times = anchor_times b items run (judged_objects services s b) in
      (s.consistent ≡ true)
      × (policy_known now routine_days s ≡ true)
      × (holds_known s ≡ true)
      × HasRun s b
      × IsManifest b.run_id b items
      × (is_uploaded b.upload_status ≡ true)
      × All (λ i. is_stored s.items (judged_objects services s b) i ≡ true) items
      × (is_migrating s b ≡ false)
      × (contains (classes_of s b) "siem-metadata" ≡ false)
      × All (λ h. is_hold_active now h h.status ≡ true → covers b items rows h ≡ false) s.holds
      × All (IsAged now (kept_days routine_days warning_days items run * day)) times
      × (is_security (classes_of s b) b run rows ≡ true → All (IsAged now (90 * day)) times)
      × (is_mutation (classes_of s b) run rows ≡ true → IsCleanupOver now b m rows)

  -- If the evaluation calls a bundle eligible, then the snapshot is consistent and its policies
  -- and holds are valid; the run is found, is of the same campaign and is over; the manifest is
  -- intact and uploaded and each item is in the inventory, or in a deletion that is under way,
  -- with its size and no other claim to it; no migration, no SIEM class and no active hold
  -- protects it; every date is known and the window of the run's status has passed since; so have
  -- 90 days for security evidence; and the cleanup of a mutation is resolved, past its retention
  -- and 30 days over.
  pub eligible-IsDeletable :
      (b : Bundle)
      → (decide services now routine_days warning_days s b).eligibility_reason ≡ eligible
      → IsDeletable b
  unfolding decide protection_of active_holds
  eligible-IsDeletable b h =
      let items = items_of_bundle s b in
      let run = run_of s b in
      let m = manifest_of run in
      let rows = associated_rows s b m in
      let objects = judged_objects services s b in
      let times = anchor_times b items run objects in
      let classes = classes_of s b in
      let start =
        status_window now routine_days warning_days (has_warning items run) run (latest times) in
      let dates = reasons_of ((dates_inconsistent now times, "DATES_INCONSISTENT") ∷ []) in
      let reasons = general_reasons now routine_days s ++ (check_reasons services s b ++ dates) in
      let checked = add_review reasons start in
      let migrating = protect_indefinitely (is_migrating s b) "MIGRATION_ACTIVE" checked in
      let siem =
        protect_indefinitely (contains classes "siem-metadata") "SIEM_METADATA_PRESERVED"
          migrating in
      let secured = security_window now (is_security classes b run rows) (latest times) siem in
      let cleaned = cleanup_window now (is_mutation classes run rows) b m rows secured in
      let all_clear = eligible-IsClear now (hold_all b items rows (active_holds now s) cleaned) h in
      let (c1, no_hold) =
        hold_all-IsClear now b items rows (active_holds now s) cleaned all_clear in
      let (c2, cleanup_over) =
        cleanup_window-IsClear now (is_mutation classes run rows) b m rows secured c1 in
      let (c3, security_over) =
        security_window-IsClear now (is_security classes b run rows) (latest times) siem c2 in
      let (c4, no_siem) =
        protect_indefinitely-IsClear now (contains classes "siem-metadata")
          "SIEM_METADATA_PRESERVED" migrating c3 in
      let (c5, no_migration) =
        protect_indefinitely-IsClear now (is_migrating s b) "MIGRATION_ACTIVE" checked c4 in
      let (c6, no_reason) = add_review-IsClear now reasons start c5 in
      let ((consistent, policies, holds, has_run, manifest, uploaded, stored), dated) =
        unreasoned-IsSound services now routine_days s b times no_reason in
      (
        consistent,
        policies,
        holds,
        has_run,
        manifest,
        uploaded,
        stored,
        no_migration,
        no_siem,
        filter-All_back (λ h. covers b items rows h ≡ false) (λ h. is_hold_active now h h.status)
            s.holds no_hold,
        latest-IsAged now (kept_days routine_days warning_days items run * day) times dated
            (status_window-IsClear now routine_days warning_days items run (latest times) c6),
        λ y. latest-IsAged now (90 * day) times dated (security_over y),
        cleanup_over,
      )
