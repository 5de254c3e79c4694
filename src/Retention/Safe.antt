-- ===== src/Retention/Safe.antt =====
-- What the executor of dashboard/lib/inssa-ops/retention-executor.ts removes, whatever the calls do.
use web_app_qa_tests_main.Base.{
  ℕ, String, Bool, List, [], ◌∷◌, ◌≡◌, inl, inr, refl, sym, ◌∙◌, subst, arith, All, Mem, All-Mem,
  Bool-cases, done, answered, refuse_if-passes, and_then, and_then-answers, or_refuse,
}
use web_app_qa_tests_main.Evidence.{Bundle, Stamp}
use web_app_qa_tests_main.Retention.{RetentionSnapshot, RetentionDecision, eligible, timestamp}
use web_app_qa_tests_main.Retention.Policy.{routine_days_of, warning_days_of}
use web_app_qa_tests_main.Retention.Checks.{Services}
use web_app_qa_tests_main.Retention.Plan.{
  RetentionPlan, decide, decide_all, insert_decision, sort_decisions, plan_at, evaluate_retention,
}
use web_app_qa_tests_main.Retention.Eligible.{IsDeletable, eligible-IsDeletable}
use web_app_qa_tests_main.Retention.Executor.{is_uncertified, certify_execution_plan, no_options}

insert_decision-All {κ} :
    (in_order : String → String → Bool) (P : RetentionDecision → Type κ) (d : RetentionDecision)
    (ds : List RetentionDecision)
    → P d
    → All P ds
    → All P (insert_decision in_order d ds)
insert_decision-All in_order P d [] p h = (p, tt)
insert_decision-All in_order P d (x ∷ xs) p h =
    elim (Bool-cases (in_order d.bundle_id x.bundle_id)) [
      | inl t ↦ rw t (p, h)
      | inr f ↦ rw f (h.0, insert_decision-All in_order P d xs p h.1)
    ]

sort_decisions-All {κ} :
    (in_order : String → String → Bool) (P : RetentionDecision → Type κ)
    (ds : List RetentionDecision)
    → All P ds
    → All P (sort_decisions in_order ds)
unfolding sort_decisions
sort_decisions-All in_order P [] h = tt
sort_decisions-All in_order P (d ∷ ds) h =
    insert_decision-All in_order P d (sort_decisions in_order ds) h.0
      (sort_decisions-All in_order P ds h.1)

module _ (services : Services) (now routine_days warning_days : ℕ) (s : RetentionSnapshot) where
  -- A decision on a bundle of the snapshot, which, if it is eligible, is deletable.
  abbrev pub IsSound : RetentionDecision → Type 0
  IsSound d =
      d.eligibility_reason ≡ eligible
      → (b : Bundle) × Mem b s.bundles
        × (b.id ≡ d.bundle_id)
        × IsDeletable services now routine_days warning_days s b

  decide_all-IsSound :
      (bs : List Bundle)
      → All (λ b. Mem b s.bundles) bs
      → All IsSound (decide_all services now routine_days warning_days s bs)
  unfolding decide_all decide
  decide_all-IsSound [] h = tt
  decide_all-IsSound (b ∷ bs) h = (
    λ e. (b, h.0, refl, eligible-IsDeletable services now routine_days warning_days s b e),
    decide_all-IsSound bs h.1,
  )

module _ (services : Services) (in_order : String → String → Bool) where
  plan_at-IsSound :
      (now : ℕ) (s : RetentionSnapshot)
      → (plan_at services in_order no_options now s).routine_days ≡ 30
      → (plan_at services in_order no_options now s).warning_days ≡ 60
      → All (IsSound services now 30 60 s) (plan_at services in_order no_options now s).bundles
  unfolding plan_at
  plan_at-IsSound now s routine warning =
      let days = routine_days_of no_options s in
      let warned = warning_days_of no_options s in
      let sound =
        sort_decisions-All in_order (IsSound services now days warned s)
          (decide_all services now days warned s s.bundles)
          (decide_all-IsSound services now days warned s s.bundles (All-Mem s.bundles)) in
      subst
        (λ r.
          All (IsSound services now r 60 s)
            (sort_decisions in_order (decide_all services now days warned s s.bundles)))
        routine
        (subst
          (λ w.
            All (IsSound services now days w s)
              (sort_decisions in_order (decide_all services now days warned s s.bundles)))
          warning sound)

  -- A certified plan without options decides soundly at its time.
  pub certified-IsSound :
      (s : RetentionSnapshot) (as_of : Stamp) (plan : RetentionPlan)
      → and_then
          (evaluate_retention services in_order s as_of no_options)
          (λ p. and_then (certify_execution_plan p) (λ d. answered p))
        ≡ answered plan
      → (now : ℕ) × All (IsSound services now 30 60 s) plan.bundles
  unfolding evaluate_retention
  certified-IsSound s as_of plan h =
      let (p, evaluated, rest) =
        and_then-answers (evaluate_retention services in_order s as_of no_options)
          (λ p. and_then (certify_execution_plan p) (λ d. answered p)) plan h in
      let (now, _, made) =
        and_then-answers (or_refuse (timestamp as_of) "A valid asOf timestamp is required.")
          (λ now. answered (plan_at services in_order no_options now s)) p evaluated in
      let is_plan : plan_at services in_order no_options now s ≡ p = cc in
      let (d, certified, same) =
        and_then-answers (certify_execution_plan p) (λ d. answered p) plan rest in
      let is_same : p ≡ plan = cc in
      let (checks, _) =
        refuse_if-passes (is_uncertified p)
          "Retention v3 execution certification failed; no deletion authorized by this plan."
          (answered done) d certified in
      let routine : p.routine_days ≡ 30 = ground arith in
      let warning : p.warning_days ≡ 60 = ground arith in
      (
        now,
        subst (λ q. All (IsSound services now 30 60 s) q.bundles) (is_plan ∙ is_same)
            (plan_at-IsSound now s (subst (λ q. q.routine_days ≡ 30) (sym is_plan) routine)
              (subst (λ q. q.warning_days ≡ 60) (sym is_plan) warning)),
      )
