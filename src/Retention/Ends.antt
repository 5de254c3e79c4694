-- ===== src/Retention/Ends.antt =====
-- The loop of executeRetention in dashboard/lib/inssa-ops/retention-executor.ts stops.
use web_app_qa_tests_main.Base.{
  ℕ, zero, suc, ◌+◌, ◌≤◌, ◌<◌, String, str_eq, Bool, Option, none, some, List, ◌≡◌, inl, inr, refl,
  arith, leb, find, Bool-cases, Option-cases, Answer, Answer-cases, Done, done, answered, refused,
  and_then,
}
use web_app_qa_tests_main.Evidence.{Bundle}
use web_app_qa_tests_main.Retention.{RetentionObject, RetentionSnapshot, RetentionDecision}
use web_app_qa_tests_main.Retention.Review.{items_of_bundle}
use web_app_qa_tests_main.Retention.Checks.{Services}
use web_app_qa_tests_main.Retention.Plan.{RetentionPlan, evaluate_retention}
use web_app_qa_tests_main.Retention.Executor.{
  bundle_limit, certify_execution_plan, no_options, Reservation, ExecutorIo, ExecState, Step, pass,
  call, exact_objects, still_stored, Outcome, go_on, stop,
}
use web_app_qa_tests_main.Retention.Execute.{
  budget_reached, reserved_objects, begun, within_limits, reserve_bundle, take_bundle,
  take_candidate, planned, candidate_of, round, rounds,
}
use web_app_qa_tests_main.Retention.Removals.{delete_reserved-Keeps}

module _ {W : Type 0} (n : ℕ) where
  -- A round that goes on has begun one bundle more.
  abbrev Counts : Answer Outcome × ExecState W → Type 0
  Counts out = out.0 ≡ answered go_on → (out.1.bundles ≡ n + 1) × (n < bundle_limit)

  pass-Counts :
      {A : Type 0} (out : Answer A × ExecState W) (next : A → Step W Outcome)
      → out.1.bundles ≡ n
      → ((a : A) (st : ExecState W) → st.bundles ≡ n → Counts (next a st))
      → Counts (pass out next)
  pass-Counts (answered a, st) next h k = k a st h
  pass-Counts (refused m, st) next h k = λ e. cc

  module _ (services : Services) (io : ExecutorIo W) where
    reserve_bundle-Counts :
        (s : RetentionSnapshot) (plan : RetentionPlan) (b : Bundle)
        (exact stored : List RetentionObject) (st : ExecState W)
        → st.bundles ≡ n
        → n < bundle_limit
        → Counts (reserve_bundle services io s plan b exact stored st)
    reserve_bundle-Counts s plan b exact stored st same room =
        pass-Counts (call io.assert_owned st) _ same λ owned st1 same1.
          let asked : Reservation = record {
            bundle_id = b.id;
            signature = services.signature b (items_of_bundle s b);
            objects = exact;
          } in
          pass-Counts (call (io.reserve asked) st1) _ same1 λ reserved st2 same2.
            elim (Bool-cases (budget_reached reserved)) [
              | inl t ↦ rw t (λ e. cc)
              | inr f ↦ rw f (elim (Answer-cases (reserved_objects reserved)) [
                | inr (m, e) ↦ rw e (λ e. cc)
                | inl (remaining, e) ↦ rw e (λ g. (
                  delete_reserved-Keeps (λ st. st.bundles ≡ n + 1) io (λ w st h. h) (λ st h. h) s
                      plan b exact remaining (begun b stored st2) (λ keys st h. h) (omega arith),
                  room,
                ))
              ])
            ]

    take_bundle-Counts :
        (s : RetentionSnapshot) (plan : RetentionPlan) (o : Option Bundle) (st : ExecState W)
        → st.bundles ≡ n
        → n < bundle_limit
        → Counts (take_bundle services io s plan o st)
    take_bundle-Counts s plan none st same room = λ e. cc
    take_bundle-Counts s plan (some b) st same room = elim (Option-cases (exact_objects s b)) [
      | inl e ↦ rw (e, take_bundle) (λ g. cc)
      | inr (exact, e) ↦
          rw (e, take_bundle)
            (elim (Bool-cases (within_limits st (still_stored s exact))) [
              | inr f ↦ rw f (λ g. cc)
              | inl t ↦
                  rw t (reserve_bundle-Counts s plan b exact (still_stored s exact) st same room)
            ])
    ]

    take_candidate-Counts :
        (s : RetentionSnapshot) (plan : RetentionPlan) (d : Option RetentionDecision)
        (st : ExecState W)
        → st.bundles ≡ n
        → Counts (take_candidate services io s plan d st)
    take_candidate-Counts s plan none st same = λ g. cc
    take_candidate-Counts s plan (some d) st same =
        elim (Bool-cases (leb bundle_limit st.bundles)) [
          | inl t ↦ rw t (λ g. cc)
          | inr f ↦ rw f (
              take_bundle-Counts s plan (find (λ b. str_eq b.id d.bundle_id) s.bundles) st same
                (ground arith))
        ]

module _ (services : Services) (in_order : String → String → Bool) (approved : Option (List String))
    {W : Type 0} (io : ExecutorIo W) where
  round-Counts : (st : ExecState W) → Counts st.bundles (round services in_order io approved st)
  unfolding round
  round-Counts st = pass-Counts st.bundles (call io.assert_owned st) _ refl λ owned st1 same1.
      pass-Counts st.bundles (call io.snapshot st1) _ same1 λ s st2 same2.
        elim (Answer-cases (
          and_then (evaluate_retention services in_order s (io.now st2.world) no_options)
            (λ plan. and_then (certify_execution_plan plan) (λ d. answered plan)))) [
              | inr (m, e) ↦ rw e (λ g. cc)
              | inl (plan, e) ↦ rw e (
                  take_candidate-Counts st.bundles services io s plan
                    (candidate_of approved plan st2) (planned approved plan st2) same2)
            ]

  -- However the calls answer, from a state with at most 100 bundles the rounds end within 101
  -- less the bundles begun: with that many rounds of fuel or more they end with an answer.
  pub rounds_end :
      (fuel : ℕ) (st : ExecState W)
      → bundle_limit < fuel + st.bundles
      → st.bundles ≤ bundle_limit
      → (r : Answer Done) × ((rounds services in_order io approved fuel st).0 ≡ some r)
  unfolding rounds
  rounds_end zero st enough limit = absurd (omega arith)
  rounds_end (suc fuel) st enough limit =
      let out = round services in_order io approved st in
      elim (Answer-cases out.0) [
        | inr (m, e) ↦ rw (e, rounds) (refused m, refl)
        | inl (stop, e) ↦ rw (e, rounds) (answered done, refl)
        | inl (go_on, e) ↦
            let (begun_one, room) = round-Counts st e in
            rw (e, rounds) (rounds_end fuel out.1 (omega arith) (omega arith))
      ]
