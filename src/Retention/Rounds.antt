-- ===== src/Retention/Rounds.antt =====
-- The rounds of executeRetention in dashboard/lib/inssa-ops/retention-executor.ts keep within the
-- limits, remove only what is justified, and stop.
use web_app_qa_tests_main.Base.{
  ℕ, zero, suc, String, Bool, true, Option, none, some, or_else, List, ◌≡◌, inl, inr, sym, ◌∙◌,
  arith, All, find-All, find-eq-some, Answer-cases, answered, and_then,
}
use web_app_qa_tests_main.Retention.{RetentionSnapshot}
use web_app_qa_tests_main.Retention.Checks.{Services}
use web_app_qa_tests_main.Retention.Plan.{RetentionPlan, evaluate_retention}
use web_app_qa_tests_main.Retention.Executor.{
  certify_execution_plan, no_options, ExecutorIo, ExecState, call, approves, candidates_of, go_on,
  stop,
}
use web_app_qa_tests_main.Retention.Execute.{
  is_candidate, take_candidate, planned, candidate_of, round, rounds,
}
use web_app_qa_tests_main.Retention.Safe.{IsSound, certified-IsSound}
use web_app_qa_tests_main.Retention.Removals.{AreApproved, IsSafe}
use web_app_qa_tests_main.Retention.Taken.{
  pass-Leads, take_candidate-IsSafe, candidates_of-approved, contains-All, is_eligible-eligible,
}

module _ (services : Services) (in_order : String → String → Bool) (approved : Option (List String))
    {W : Type 0} (io : ExecutorIo W) where
  abbrev initial_of : RetentionPlan → ExecState W → List String
  initial_of plan st = or_else st.initial (candidates_of approved plan.bundles)

  initial-approved :
      (plan : RetentionPlan) (o : Option (List String))
      → AreApproved services approved o
      → All (λ id. approves approved id ≡ true) (or_else o (candidates_of approved plan.bundles))
  initial-approved plan none h = candidates_of-approved services approved plan.bundles
  initial-approved plan (some ids) h = h

  planned-IsSafe :
      (s : RetentionSnapshot) (plan : RetentionPlan) (now : ℕ) (st : ExecState W)
      → All (IsSound services now 30 60 s) plan.bundles
      → IsSafe services approved st
      → IsSafe services approved
          (take_candidate services io s plan
            (candidate_of approved plan st)
            (planned approved plan st)).1
  planned-IsSafe s plan now st sound safe =
      let (tries, counts, bundles, objects, bytes, distinct, justified, approvals) = safe in
      let initial = initial-approved plan st.initial approvals in
      take_candidate-IsSafe services approved io s plan (candidate_of approved plan st)
        (planned approved plan st)
        (λ x e b same plan' keys.
          let passed : is_candidate (initial_of plan st) st.attempted x ≡ true =
            find-eq-some (is_candidate (initial_of plan st) st.attempted) plan.bundles x e in
          let found =
            find-All (IsSound services now 30 60 s) (is_candidate (initial_of plan st) st.attempted)
              plan.bundles x sound e in
          let (b', member, id, deletable) =
            found (is_eligible-eligible x.eligibility_reason (ground arith)) in
          (
            rw same (
                contains-All (λ id. approves approved id ≡ true) (initial_of plan st) x.bundle_id
                  initial (ground arith)),
            (now, b', member, id ∙ sym same, deletable),
          ))
        (λ x e.
          let passed : is_candidate (initial_of plan st) st.attempted x ≡ true =
            find-eq-some (is_candidate (initial_of plan st) st.attempted) plan.bundles x e in
          ground arith)
        (tries, counts, bundles, objects, bytes, distinct, justified, initial)

  round-IsSafe :
      (st : ExecState W)
      → IsSafe services approved st
      → IsSafe services approved (round services in_order io approved st).1
  unfolding round
  round-IsSafe st safe =
      let P : ExecState W → Type 0 = λ st. IsSafe services approved st in
      pass-Leads P P (call io.assert_owned st) _ safe (λ st h. h)
        λ owned st1 h1.
          pass-Leads P P (call io.snapshot st1) _ h1 (λ st h. h)
            λ s st2 h2.
              elim (Answer-cases (
                and_then (evaluate_retention services in_order s (io.now st2.world) no_options)
                  (λ plan. and_then (certify_execution_plan plan) (λ d. answered plan)))) [
                    | inr (m, e) ↦ rw e h2
                    | inl (plan, e) ↦ rw e (
                        let (now, sound) =
                          certified-IsSound services in_order s (io.now st2.world) plan e in
                        planned-IsSafe s plan now st2 sound h2)
                  ]

  -- However the calls answer, from a safe state the rounds end in a safe state.
  pub rounds-IsSafe :
      (fuel : ℕ) (st : ExecState W)
      → IsSafe services approved st
      → IsSafe services approved (rounds services in_order io approved fuel st).1
  unfolding rounds
  rounds-IsSafe zero st safe = safe
  rounds-IsSafe (suc fuel) st safe =
      let out = round services in_order io approved st in
      let next = round-IsSafe st safe in
      elim (Answer-cases out.0) [
        | inr (m, e) ↦ rw (e, rounds) next
        | inl (stop, e) ↦ rw (e, rounds) next
        | inl (go_on, e) ↦ rw (e, rounds) (rounds-IsSafe fuel out.1 next)
      ]
