-- ===== src/Retention/Execute.antt =====
-- The loop of executeRetention in dashboard/lib/inssa-ops/retention-executor.ts: one round for a
-- bundle, and the rounds until it stops.
use web_app_qa_tests_main.Base.{
  ℕ, zero, suc, ◌+◌, String, str_eq, Bool, true, false, ◌&&◌, not, Option, none, some, or_else,
  List, [], ◌∷◌, ◌++◌, leb, if◌then◌else◌, length, find, Answer, Done, done, answered, refused,
  or_refuse, and_then,
}
use web_app_qa_tests_main.Evidence.{Bundle}
use web_app_qa_tests_main.Evidence.Integrity.{contains}
use web_app_qa_tests_main.Evidence.Location.{evidence_location}
use web_app_qa_tests_main.Retention.{RetentionObject, RetentionSnapshot, RetentionDecision}
use web_app_qa_tests_main.Retention.Review.{items_of_bundle}
use web_app_qa_tests_main.Retention.Checks.{Services}
use web_app_qa_tests_main.Retention.Plan.{
  RetentionPlan, is_eligible, with_reason, evaluate_retention,
}
use web_app_qa_tests_main.Retention.Executor.{
  bundle_limit, object_limit, byte_limit, certify_execution_plan, no_options, Reserved, ExecutorIo,
  ExecState, Step, pass, call, candidates_of, exact_objects, still_stored, bytes_of, names_of,
  slices, Outcome, go_on, stop,
}

abbrev pub budget_reached : Reserved → Bool
budget_reached r = str_eq r.status "BUDGET_REACHED"

abbrev pub reserved_objects : Reserved → Answer (List RetentionObject)
reserved_objects r =
    if str_eq r.status "RESERVED"
    then or_refuse r.remaining "Retention reservation failed."
    else refused "Retention reservation failed."

abbrev pub is_candidate : (initial attempted : List String) → RetentionDecision → Bool
is_candidate initial attempted d =
    with_reason is_eligible d
    && (contains initial d.bundle_id && not (contains attempted d.bundle_id))

abbrev pub failure_message : (deletion : Answer Done) → String
failure_message (refused m) = "Storage deletion incomplete; remaining objects require retry."
failure_message (answered d) = "Storage absence or metadata finalization could not be verified."

abbrev pub rethrown : Bool → String → Answer Done
rethrown true m = refused m
rethrown false m = answered done

module _ {W : Type 0} where
  abbrev pub begun : Bundle → (stored : List RetentionObject) → ExecState W → ExecState W
  begun b stored st = record st {
    current = some b.id;
    attempted = b.id ∷ st.attempted;
    bundles = st.bundles + 1;
    objects = st.objects + length stored;
    bytes = st.bytes + bytes_of stored;
  }

  abbrev pub within_limits : ExecState W → List RetentionObject → Bool
  within_limits st stored =
      leb (st.objects + length stored) object_limit && leb (st.bytes + bytes_of stored) byte_limit

module _ {W : Type 0} (io : ExecutorIo W) where
  -- The removal of one slice of keys after another.
  abbrev pub remove_slices :
      RetentionSnapshot → RetentionPlan → Bundle → List (List String) → Step W Done
  remove_slices s plan b [] st = (answered done, st)
  remove_slices s plan b (keys ∷ more) st = pass (call io.assert_owned st) λ owned st1.
      elim (evidence_location b.storage_backend b.storage_bucket) [
        | refused m ↦ (refused m, st1)
        | answered l ↦
            let logged = record st1 {
              log =
                  st1.log
                  ++ record { snapshot = s; plan = plan; bundle_id = b.id; keys = keys } ∷ [];
            } in
            pass (call (io.remove keys l) logged) λ removed. remove_slices s plan b more
      ]

  abbrev pub verified : Bundle → List RetentionObject → Step W Done
  verified b exact st = pass (call io.assert_owned st) λ owned st1.
      elim (evidence_location b.storage_backend b.storage_bucket) [
        | refused m ↦ (refused m, st1)
        | answered l ↦
            pass (call (io.verify_absent (names_of exact) l) st1)
              λ absent st2. pass (call io.assert_owned st2) λ owned. call (io.settle b.id true none)
      ]

  -- After the removal, whether it threw or not.
  abbrev pub finalized :
      Bundle → (deletion : Answer Done) → Answer Done × ExecState W → Answer Done × ExecState W
  finalized b deletion (answered d, st) = (answered done, st)
  finalized b deletion (refused m, st) =
      pass (call (io.settle b.id false (some (failure_message deletion))) st)
        λ settled st1. (rethrown (io.is_lost st1.world) m, st1)

  abbrev pub closed : Answer Done × ExecState W → Answer Outcome × ExecState W
  closed out = pass out λ d st. (answered go_on, record st { current = none })

  abbrev pub delete_reserved :
      RetentionSnapshot
      → RetentionPlan
      → Bundle
      → (exact remaining : List RetentionObject) → Step W Outcome
  delete_reserved s plan b exact remaining st =
      let out = remove_slices s plan b (slices (names_of remaining)) st in
      closed (finalized b out.0 (verified b exact out.1))

module _ (services : Services) {W : Type 0} (io : ExecutorIo W) where
  abbrev pub reserve_bundle :
      RetentionSnapshot
      → RetentionPlan
      → Bundle
      → (exact stored : List RetentionObject) → Step W Outcome
  reserve_bundle s plan b exact stored st = pass (call io.assert_owned st) λ owned st1.
      pass
        (call
          (io.reserve (record {
            bundle_id = b.id;
            signature = services.signature b (items_of_bundle s b);
            objects = exact;
          }))
          st1)
        λ reserved st2.
          if budget_reached reserved
          then (answered stop, st2)
          else elim (reserved_objects reserved) [
            | refused m ↦ (refused m, st2)
            | answered remaining ↦ delete_reserved io s plan b exact remaining (begun b stored st2)
          ]

  abbrev pub take_bundle : RetentionSnapshot → RetentionPlan → Option Bundle → Step W Outcome
  take_bundle s plan none st = (refused "The bundle of a decision is missing.", st)
  take_bundle s plan (some b) st = elim (exact_objects s b) [
    | none ↦ (refused "An object of a bundle is missing.", st)
    | some exact ↦
        let stored = still_stored s exact in
        if within_limits st stored
        then reserve_bundle s plan b exact stored st
        else (answered stop, st)
  ]

  abbrev pub take_candidate :
      RetentionSnapshot → RetentionPlan → Option RetentionDecision → Step W Outcome
  take_candidate s plan none st = (answered stop, st)
  take_candidate s plan (some d) st =
      if leb bundle_limit st.bundles
      then (answered stop, st)
      else take_bundle s plan (find (λ b. str_eq b.id d.bundle_id) s.bundles) st

module _ {W : Type 0} (approved : Option (List String)) where
  abbrev pub planned : RetentionPlan → ExecState W → ExecState W
  planned plan st = record st {
    protected_count = plan.summary.protected_bundles;
    review_count = plan.summary.review_required_bundles;
    initial = some (or_else st.initial (candidates_of approved plan.bundles));
  }

  abbrev pub candidate_of : RetentionPlan → ExecState W → Option RetentionDecision
  candidate_of plan st =
      find (is_candidate (or_else st.initial (candidates_of approved plan.bundles)) st.attempted)
        plan.bundles

module _ (services : Services) (in_order : String → String → Bool) {W : Type 0} (io : ExecutorIo W)
    (approved : Option (List String)) where
  unfoldable pub round : Step W Outcome
  unfolding find exact_objects still_stored items_of_bundle evaluate_retention
  round st = pass (call io.assert_owned st) λ owned st1. pass (call io.snapshot st1) λ s st2.
      elim (and_then (evaluate_retention services in_order s (io.now st2.world) no_options)
        (λ plan. and_then (certify_execution_plan plan) (λ d. answered plan))) [
          | refused m ↦ (refused m, st2)
          | answered plan ↦
              take_candidate services io s plan (candidate_of approved plan st2)
                (planned approved plan st2)
        ]

  -- The loop; none is an end of fuel.
  unfoldable pub rounds : (fuel : ℕ) → ExecState W → Option (Answer Done) × ExecState W
  unfolding round
  rounds zero st = (none, st)
  rounds (suc fuel) st =
      let out = round st in
      elim out.0 [
        | refused m ↦ (some (refused m), out.1)
        | answered o ↦ elim o [ stop ↦ (some (answered done), out.1) | go_on ↦ rounds fuel out.1 ]
      ]

  -- What was thrown is recorded, for the bundle that was in work as well.
  abbrev pub settle_current : String → Option String → ExecState W → ExecState W
  settle_current m none st = st
  settle_current m (some id) st = (call (io.settle id false (some m)) st).1

  abbrev pub recovered : Option (Answer Done) → ExecState W → Option String × ExecState W
  recovered (some (refused m)) st = (some m, settle_current m st.current st)
  recovered _ st = (none, st)

  abbrev pub finished : Option String × ExecState W → Answer Done × ExecState W
  finished (error, st) = call (io.finish error st.protected_count st.review_count) st

  abbrev pub closing : Option (Answer Done) × ExecState W → Answer String × ExecState W
  closing (ended, st) = pass (finished (recovered ended st)) λ d st1. (answered "FINISHED", st1)

  abbrev pub started : W → ExecState W
  started w = record {
    world = w;
    bundles = 0;
    objects = 0;
    bytes = 0;
    attempted = [];
    initial = none;
    current = none;
    protected_count = 0;
    review_count = 0;
    log = [];
  }

  -- One round more than there may be bundles.
  unfoldable pub execute_retention : W → Answer String × ExecState W
  unfolding rounds
  execute_retention w = pass (call io.claim (started w)) λ status st.
      if str_eq status "RUNNING"
      then closing (rounds (bundle_limit + 1) st)
      else (answered status, st)
