-- ===== src/Retention/Sound.antt =====
-- What the checks of dashboard/lib/inssa-ops/retention.ts have passed when they give no reason.
use web_app_qa_tests_main.Base.{
  ℕ, String, str_eq, eq_iff, Bool, true, false, ◌||◌, not, Option, none, some, List, [], ◌∷◌, ◌++◌,
  ◌≡◌, inl, inr, refl, arith, any-false, All, All-map, Bool-cases, Option-cases, Answer,
  Answer-cases, is_answered, refused, Done, done,
}
use web_app_qa_tests_main.Evidence.{Item, Bundle, is_uploaded}
use web_app_qa_tests_main.Evidence.Integrity.{validate_evidence_manifest}
use web_app_qa_tests_main.Evidence.Manifest.{IsManifest, validate-IsManifest}
use web_app_qa_tests_main.Retention.{RetentionRun, RetentionSnapshot}
use web_app_qa_tests_main.Retention.Policy.{reasons_of, policy_known, holds_known}
use web_app_qa_tests_main.Retention.Review.{items_of_bundle, run_of, pending_of}
use web_app_qa_tests_main.Retention.Checks.{
  Services, general_reasons, judged_objects, check_tests, check_reasons, run_reasons,
  pending_reasons, is_stored, is_finished,
}
use web_app_qa_tests_main.Retention.Evaluate.{dates_inconsistent}
use web_app_qa_tests_main.Retention.Clear.{append-empty}

reasons_of-none : (ts : List (Bool × String)) → reasons_of ts ≡ [] → All (λ t. t.0 ≡ false) ts
reasons_of-none [] h = tt
reasons_of-none (t ∷ ts) h = elim (Bool-cases t.0) [
  | inl y ↦ let bad : t.1 ∷ reasons_of ts ≡ [] = rw y at h in cc
  | inr n ↦ (n, reasons_of-none ts (rw n at h))
]

-- The run is found, of the bundle's campaign, and over.
abbrev pub HasRun : RetentionSnapshot → Bundle → Type 0
HasRun s b =
    (r : RetentionRun) × (run_of s b ≡ some r)
    × (is_finished r ≡ true)
    × (r.id ≡ b.run_id)
    × (r.campaign_key ≡ b.campaign_key)

run_reasons-none :
    (s : RetentionSnapshot) (b : Bundle) → run_reasons b (run_of s b) ≡ [] → HasRun s b
run_reasons-none s b h = elim (Option-cases (run_of s b)) [
  | inl e ↦ let bad : run_reasons b none ≡ [] = rw e at h in cc
  | inr (r, e) ↦
      let (finished, (associated, _)) =
        reasons_of-none
          ((not (is_finished r), "ACTIVE_OR_UNKNOWN_RUN")
            ∷ (
              not (str_eq r.campaign_key b.campaign_key) || not (str_eq r.id b.run_id),
              "RUN_ASSOCIATION_AMBIGUOUS",
            )
            ∷ [])
          (rw e at h) in
      (
        r,
        e,
        ground arith,
        (eq_iff r.id b.run_id).0 (ground arith),
        (eq_iff r.campaign_key b.campaign_key).0 (ground arith),
      )
]

abbrev no_answer : String → Answer Done
no_answer m = refused m

answered-validated :
    (normalize : String → String) (is_absolute : String → Bool) (b : Bundle) (items : List Item)
    → not (is_answered (validate_evidence_manifest normalize is_absolute b.run_id (some b) items))
      ≡ false
    → IsManifest b.run_id b items
answered-validated normalize is_absolute b items h =
    elim (Answer-cases (validate_evidence_manifest normalize is_absolute b.run_id (some b) items)) [
      | inl (done, e) ↦ validate-IsManifest normalize is_absolute b.run_id b items e
      | inr (m, e) ↦ let bad : not (is_answered (no_answer m)) ≡ false = rw e at h in cc
    ]

-- What the reasons of a review ask of a snapshot and a bundle.
module _ (services : Services) (now routine_days : ℕ) (s : RetentionSnapshot) where
  true_of_negation : (x : Bool) → not x ≡ false → x ≡ true
  true_of_negation true h = refl
  true_of_negation false h = cc

  abbrev pub IsSound : Bundle → Type 0
  IsSound b =
      (s.consistent ≡ true)
      × (policy_known now routine_days s ≡ true)
      × (holds_known s ≡ true)
      × HasRun s b
      × IsManifest b.run_id b (items_of_bundle s b)
      × (is_uploaded b.upload_status ≡ true)
      × All (λ i. is_stored s.items (judged_objects services s b) i ≡ true) (items_of_bundle s b)

  checks-IsSound :
      (b : Bundle)
      → general_reasons now routine_days s ≡ []
      → check_reasons services s b ≡ []
      → IsSound b
  unfolding check_reasons check_tests
  checks-IsSound b general checks =
      let items = items_of_bundle s b in
      let run = run_of s b in
      let objects = judged_objects services s b in
      let (_, run_and_tests) =
        append-empty (pending_reasons services s b (pending_of s b))
          (run_reasons b run ++ reasons_of (check_tests services s b)) checks in
      let (run_checked, tested) =
        append-empty (run_reasons b run) (reasons_of (check_tests services s b)) run_and_tests in
      let sound =
        reasons_of-none
          ((not s.consistent, "SNAPSHOT_CHANGED")
            ∷ (not (policy_known now routine_days s), "POLICY_UNKNOWN")
            ∷ (not (holds_known s), "HOLD_STATE_UNKNOWN")
            ∷ [])
          general in
      let passed = reasons_of-none (check_tests services s b) tested in
      (
        true_of_negation s.consistent sound.0,
        true_of_negation (policy_known now routine_days s) sound.1.0,
        true_of_negation (holds_known s) sound.1.1.0,
        run_reasons-none s b run_checked,
        answered-validated services.normalize services.is_absolute b items passed.1.0,
        ground arith,
        All-map (λ i. not (is_stored s.items objects i) ≡ false)
            (λ i. is_stored s.items objects i ≡ true) items
            (λ i. true_of_negation (is_stored s.items objects i))
            (any-false (λ i. not (is_stored s.items objects i)) items passed.1.1.1.1.0),
      )

  -- Nothing to review: all checks are passed, and the dates given are in order.
  pub unreasoned-IsSound :
      (b : Bundle) (times : List (Option ℕ))
      → (general_reasons now routine_days s
            ++ (check_reasons services s b
                ++ reasons_of ((dates_inconsistent now times, "DATES_INCONSISTENT") ∷ []))
          ≡ [])
      → IsSound b × (dates_inconsistent now times ≡ false)
  unreasoned-IsSound b times h =
      let dates = reasons_of ((dates_inconsistent now times, "DATES_INCONSISTENT") ∷ []) in
      let (general, special) =
        append-empty (general_reasons now routine_days s) (check_reasons services s b ++ dates) h in
      let (checks, in_time) = append-empty (check_reasons services s b) dates special in
      let dated =
        reasons_of-none ((dates_inconsistent now times, "DATES_INCONSISTENT") ∷ []) in_time in
      (checks-IsSound b general checks, dated.0)
