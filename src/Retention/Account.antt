-- ===== src/Retention/Account.antt =====
-- The sums of a plan of dashboard/lib/inssa-ops/retention.ts.
use web_app_qa_tests_main.Base.{
  ℕ, ◌+◌, String, str_eq, Bool, true, false, List, [], ◌∷◌, ◌≡◌, ◌⊎◌, inl, inr, refl, ◌∙◌, arith,
  count, length, filter, Bool-cases,
}
use web_app_qa_tests_main.Evidence.{Bundle}
use web_app_qa_tests_main.Retention.{
  RetentionSnapshot, Eligibility, eligible, protected, review_required, RetentionDecision,
}
use web_app_qa_tests_main.Retention.Policy.{RetentionOptions, routine_days_of, warning_days_of}
use web_app_qa_tests_main.Retention.Checks.{Services}
use web_app_qa_tests_main.Retention.Plan.{
  decide, decide_all, is_eligible, is_protected, is_review, with_reason, sum_of, insert_decision,
  sort_decisions, RetentionPlan, summarize, plan_at,
}

abbrev pub total_of : List Bundle → ℕ
total_of [] = 0
total_of (b ∷ bs) = b.total_bytes + total_of bs

-- Every bundle is decided once, and each decision is counted, with its bytes, under one heading.
abbrev pub Accounts : RetentionSnapshot → RetentionPlan → Type 0
Accounts s plan =
    ((id : String)
      → count (λ d. str_eq d.bundle_id id) plan.bundles ≡ count (λ b. str_eq b.id id) s.bundles)
    × (plan.summary.bundles_scanned ≡ length s.bundles)
    × (plan.summary.eligible_bundles + plan.summary.protected_bundles
          + plan.summary.review_required_bundles
        ≡ plan.summary.bundles_scanned)
    × (plan.summary.eligible_bytes + plan.summary.protected_bytes
          + plan.summary.review_required_bytes
        ≡ total_of s.bundles)

with_reason-cases :
    (d : RetentionDecision)
    → ((with_reason is_eligible d ≡ true)
        × (with_reason is_protected d ≡ false)
        × (with_reason is_review d ≡ false))
      ⊎ (((with_reason is_eligible d ≡ false)
            × (with_reason is_protected d ≡ true)
            × (with_reason is_review d ≡ false))
          ⊎ ((with_reason is_eligible d ≡ false)
              × (with_reason is_protected d ≡ false)
              × (with_reason is_review d ≡ true)))
with_reason-cases d = one d.eligibility_reason
  where
    one :
        (e : Eligibility)
        → ((is_eligible e ≡ true) × (is_protected e ≡ false) × (is_review e ≡ false))
          ⊎ (((is_eligible e ≡ false) × (is_protected e ≡ true) × (is_review e ≡ false))
              ⊎ ((is_eligible e ≡ false) × (is_protected e ≡ false) × (is_review e ≡ true)))
    one eligible = inl (refl, refl, refl)
    one protected = inr (inl (refl, refl, refl))
    one review_required = inr (inr (refl, refl, refl))

-- One heading for each decision, whatever is summed up.
headings :
    (ds : List RetentionDecision)
    → (length (filter (with_reason is_eligible) ds)
          + length (filter (with_reason is_protected) ds)
          + length (filter (with_reason is_review) ds)
        ≡ length ds)
      × (sum_of (filter (with_reason is_eligible) ds)
            + sum_of (filter (with_reason is_protected) ds)
            + sum_of (filter (with_reason is_review) ds)
          ≡ sum_of ds)
unfolding filter
headings [] = (refl, refl)
headings (d ∷ ds) =
    let (lengths, sums) = headings ds in
    elim (with_reason-cases d) [
      | inl (e, p, r) ↦ rw (e, p, r) (omega arith, omega arith)
      | inr (inl (e, p, r)) ↦ rw (e, p, r) (omega arith, omega arith)
      | inr (inr (e, p, r)) ↦ rw (e, p, r) (omega arith, omega arith)
    ]

module _ (in_order : String → String → Bool) where
  insert_decision-Accounts :
      (d : RetentionDecision) (ds : List RetentionDecision)
      → (length (insert_decision in_order d ds) ≡ length (d ∷ ds))
        × (sum_of (insert_decision in_order d ds) ≡ sum_of (d ∷ ds))
        × ((q : RetentionDecision → Bool)
            → count q (insert_decision in_order d ds) ≡ count q (d ∷ ds))
  insert_decision-Accounts d [] = (refl, refl, λ q. refl)
  insert_decision-Accounts d (x ∷ xs) =
      let (l, s, c) = insert_decision-Accounts d xs in
      elim (Bool-cases (in_order d.bundle_id x.bundle_id)) [
        | inl t ↦ rw t (refl, refl, λ q. refl)
        | inr f ↦ rw f (omega arith, omega arith, λ q. ground (arith, c q))
      ]

  sort_decisions-Accounts :
      (ds : List RetentionDecision)
      → (length (sort_decisions in_order ds) ≡ length ds)
        × (sum_of (sort_decisions in_order ds) ≡ sum_of ds)
        × ((q : RetentionDecision → Bool) → count q (sort_decisions in_order ds) ≡ count q ds)
  unfolding sort_decisions
  sort_decisions-Accounts [] = (refl, refl, λ q. refl)
  sort_decisions-Accounts (d ∷ ds) =
      let (l, s, c) = sort_decisions-Accounts ds in
      let (l', s', c') = insert_decision-Accounts d (sort_decisions in_order ds) in
      (l' ∙ omega arith, s' ∙ omega arith, λ q. c' q ∙ ground (arith, c q))

module _ (services : Services) (now routine_days warning_days : ℕ) (s : RetentionSnapshot) where
  decide_all-Accounts :
      (bs : List Bundle)
      → let ds = decide_all services now routine_days warning_days s bs in
        (length ds ≡ length bs)
        × (sum_of ds ≡ total_of bs)
        × ((id : String) → count (λ d. str_eq d.bundle_id id) ds ≡ count (λ b. str_eq b.id id) bs)
  unfolding decide_all decide
  decide_all-Accounts [] = (refl, refl, λ id. refl)
  decide_all-Accounts (b ∷ bs) =
      let (l, t, c) = decide_all-Accounts bs in
      (omega arith, omega arith, λ id. ground (arith, c id))

-- A plan has a decision for each bundle, counted by id, its headings eligible, protected and
-- review required add up to the bundles scanned, and their bytes to the bytes of all bundles,
-- whatever the order of ids.
pub plan_at-Accounts :
    (services : Services) (in_order : String → String → Bool) (options : RetentionOptions) (now : ℕ)
    (s : RetentionSnapshot)
    → Accounts s (plan_at services in_order options now s)
unfolding plan_at summarize
plan_at-Accounts services in_order options now s =
    let routine_days = routine_days_of options s in
    let warning_days = warning_days_of options s in
    let decided = decide_all services now routine_days warning_days s s.bundles in
    let (l, t, c) = decide_all-Accounts services now routine_days warning_days s s.bundles in
    let (l', t', c') = sort_decisions-Accounts in_order decided in
    let (lengths, sums) = headings (sort_decisions in_order decided) in
    (λ id. c' (λ d. str_eq d.bundle_id id) ∙ c id, l' ∙ l, lengths, sums ∙ t' ∙ t)
