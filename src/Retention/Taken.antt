-- ===== src/Retention/Taken.antt =====
-- One bundle in a round of executeRetention in dashboard/lib/inssa-ops/retention-executor.ts.
use web_app_qa_tests_main.Base.{
  ◌+◌, ◌<◌, ◌≤◌, ap, ◌∙◌, subst, length, ◌++◌, String, str_eq, eq_iff, true, false, ◌&&◌, Option,
  none, some, List, [], ◌∷◌, ◌≡◌, inl, inr, refl, arith, leb, All, All-append, find, find-eq-some,
  Bool-cases, Option-cases, Answer, Answer-cases, answered, refused,
}
use web_app_qa_tests_main.Evidence.{Bundle}
use web_app_qa_tests_main.Evidence.Integrity.{contains}
use web_app_qa_tests_main.Retention.{
  RetentionObject, RetentionSnapshot, RetentionDecision, Eligibility, eligible, protected,
  review_required,
}
use web_app_qa_tests_main.Retention.Review.{items_of_bundle}
use web_app_qa_tests_main.Retention.Checks.{Services}
use web_app_qa_tests_main.Retention.Plan.{RetentionPlan, is_eligible, with_reason}
use web_app_qa_tests_main.Retention.Executor.{
  bundle_limit, Reservation, ExecutorIo, ExecState, Step, pass, call, approves, candidates_of,
  exact_objects, still_stored, object_limit, byte_limit, bytes_of,
}
use web_app_qa_tests_main.Retention.Execute.{
  budget_reached, reserved_objects, begun, within_limits, delete_reserved, reserve_bundle,
  take_bundle, take_candidate,
}
use web_app_qa_tests_main.Retention.Removals.{
  IsJustified, IsSafe, AreApproved, IsDistinct, Attempt, Tallies, present_of, objects_of_bundle,
  stored_of, ids_of, objects_in, bytes_in, delete_reserved-Keeps,
}

module _ {W : Type 0} (P R : ExecState W → Type 0) where
  pub pass-Leads :
      {A B : Type 0} (out : Answer A × ExecState W) (next : A → Step W B)
      → P out.1
      → ((st : ExecState W) → P st → R st)
      → ((a : A) (st : ExecState W) → P st → R (next a st).1)
      → R (pass out next).1
  pass-Leads (answered a, st) next h l k = k a st h
  pass-Leads (refused m, st) next h l k = l st h

module _ (services : Services) (approved : Option (List String)) where
  -- A decision on which the bundle is taken up.
  abbrev IsGrounded : RetentionSnapshot → Bundle → Type 0
  IsGrounded s b =
      (plan : RetentionPlan) (keys : List String)
      → IsJustified services approved
          (record { snapshot = s; plan = plan; bundle_id = b.id; keys = keys })

module _ (services : Services) (approved : Option (List String)) {W : Type 0} where
  -- A bundle that may be begun.
  abbrev IsReady : RetentionSnapshot → Bundle → ExecState W → Type 0
  IsReady s b st =
      IsSafe services approved st
      × (st.bundles < bundle_limit)
      × (within_limits st (stored_of s b.id) ≡ true)
      × (contains st.attempted b.id ≡ false)

  -- A safe state whose last attempt is at this bundle.
  abbrev IsAttempting : RetentionSnapshot → RetentionPlan → Bundle → ExecState W → Type 0
  IsAttempting s plan b st =
      (slices : List (List String)) × (tries : List Attempt) × Tallies
        (record { snapshot = s; plan = plan; bundle_id = b.id; slices = slices } ∷ tries) st
      × (length tries + 1 ≤ bundle_limit)
      × (length (stored_of s b.id) + objects_in tries ≤ object_limit)
      × (bytes_of (stored_of s b.id) + bytes_in tries ≤ byte_limit)
      × IsDistinct (b.id ∷ ids_of tries)
      × All (IsJustified services approved) st.log
      × AreApproved services approved st.initial

  begun-IsAttempting :
      (s : RetentionSnapshot) (plan : RetentionPlan) (b : Bundle) (st : ExecState W)
      → IsReady s b st
      → IsAttempting s plan b (begun b (stored_of s b.id) st)
  begun-IsAttempting s plan b st
        (
          (tries, (log, ids, bundles, objects, bytes), _, _, _, distinct, justified, initial),
          room,
          fits,
          fresh,
        ) =
      (
        [],
        tries,
        (log, ap (λ l. b.id ∷ l) ids, omega arith, omega arith, omega arith),
        omega arith,
        ground arith,
        ground arith,
        (rw ids at fresh, distinct),
        justified,
        initial,
      )

  IsAttempting-IsSafe :
      (s : RetentionSnapshot) (plan : RetentionPlan) (b : Bundle) (st : ExecState W)
      → IsAttempting s plan b st
      → IsSafe services approved st
  IsAttempting-IsSafe s plan b st
        (slices, tries, counts, room, objects, bytes, distinct, justified, initial) =
      (
        record { snapshot = s; plan = plan; bundle_id = b.id; slices = slices } ∷ tries,
        counts,
        omega arith,
        objects,
        bytes,
        distinct,
        justified,
        initial,
      )

  logged-IsAttempting :
      (s : RetentionSnapshot) (plan : RetentionPlan) (b : Bundle) (keys : List String)
      (st : ExecState W)
      → IsGrounded services approved s b
      → IsAttempting s plan b st
      → IsAttempting s plan b (record st {
        log = st.log ++ record { snapshot = s; plan = plan; bundle_id = b.id; keys = keys } ∷ [];
      })
  logged-IsAttempting s plan b keys st grounded
        (
          slices,
          tries,
          (log, ids, bundles, counted, sized),
          room,
          objects,
          bytes,
          distinct,
          justified,
          initial,
        ) =
      (
        keys ∷ slices,
        tries,
        (
          ap (λ l. l ++ record { snapshot = s; plan = plan; bundle_id = b.id; keys = keys } ∷ [])
              log,
          ids,
          bundles,
          counted,
          sized,
        ),
        room,
        objects,
        bytes,
        distinct,
        All-append (IsJustified services approved) st.log _ justified (grounded plan keys, tt),
        initial,
      )

  module _ (io : ExecutorIo W) where
    delete_reserved-IsSafe :
        (s : RetentionSnapshot) (plan : RetentionPlan) (b : Bundle)
        (exact remaining : List RetentionObject) (st : ExecState W)
        → IsGrounded services approved s b
        → IsAttempting s plan b st
        → IsSafe services approved (delete_reserved io s plan b exact remaining st).1
    delete_reserved-IsSafe s plan b exact remaining st grounded h =
        IsAttempting-IsSafe s plan b (delete_reserved io s plan b exact remaining st).1 (
          delete_reserved-Keeps (IsAttempting s plan b) io (λ w st h. h) (λ st h. h) s plan b exact
            remaining st (λ keys st h. logged-IsAttempting s plan b keys st grounded h) h)

    reserve_bundle-IsSafe :
        (s : RetentionSnapshot) (plan : RetentionPlan) (b : Bundle) (exact : List RetentionObject)
        (st : ExecState W)
        → IsGrounded services approved s b
        → IsReady s b st
        → IsSafe services approved
            (reserve_bundle services io s plan b exact (stored_of s b.id) st).1
    reserve_bundle-IsSafe s plan b exact st grounded ready =
        pass-Leads (IsReady s b) (λ st. IsSafe services approved st) (call io.assert_owned st) _
          ready (λ st h. h.0)
          λ owned st1 ready1.
            let asked : Reservation = record {
              bundle_id = b.id;
              signature = services.signature b (items_of_bundle s b);
              objects = exact;
            } in
            pass-Leads (IsReady s b) (λ st. IsSafe services approved st)
              (call (io.reserve asked) st1) _ ready1 (λ st h. h.0)
              λ reserved st2 ready2. elim (Bool-cases (budget_reached reserved)) [
                | inl t ↦ rw t ready2.0
                | inr f ↦ rw f (elim (Answer-cases (reserved_objects reserved)) [
                  | inr (m, e) ↦ rw e ready2.0
                  | inl (remaining, e) ↦ rw e (
                      delete_reserved-IsSafe s plan b exact remaining
                        (begun b (stored_of s b.id) st2) grounded
                        (begun-IsAttempting s plan b st2 ready2))
                ])
              ]

    -- What the executor counts for a bundle is what the snapshot shows of it.
    stored-stored_of :
        (s : RetentionSnapshot) (id : String) (b : Bundle) (exact : List RetentionObject)
        → find (λ b. str_eq b.id id) s.bundles ≡ some b
        → exact_objects s b ≡ some exact
        → stored_of s id ≡ still_stored s exact
    unfolding stored_of
    stored-stored_of s id b exact e e' = ap (objects_of_bundle s) e ∙ ap (present_of s) e'

    taken-IsSafe :
        (s : RetentionSnapshot) (plan : RetentionPlan) (b : Bundle) (exact : List RetentionObject)
        (st : ExecState W)
        → IsGrounded services approved s b
        → IsSafe services approved st
        → st.bundles < bundle_limit
        → contains st.attempted b.id ≡ false
        → stored_of s b.id ≡ still_stored s exact
        → exact_objects s b ≡ some exact
        → IsSafe services approved (take_bundle services io s plan (some b) st).1
    taken-IsSafe s plan b exact st grounded safe room fresh same e =
        rw (e, take_bundle)
          (elim (Bool-cases (within_limits st (still_stored s exact))) [
            | inr f ↦ rw f safe
            | inl t ↦ rw t (
                subst
                  (λ l. IsSafe services approved (reserve_bundle services io s plan b exact l st).1)
                  same
                  (reserve_bundle-IsSafe s plan b exact st grounded (safe, room, rw same t, fresh)))
          ])

    take_bundle-IsSafe :
        (s : RetentionSnapshot) (plan : RetentionPlan) (id : String) (st : ExecState W)
        → ((b : Bundle) → b.id ≡ id → IsGrounded services approved s b)
        → IsSafe services approved st
        → st.bundles < bundle_limit
        → contains st.attempted id ≡ false
        → IsSafe services approved
            (take_bundle services io s plan (find (λ b. str_eq b.id id) s.bundles) st).1
    take_bundle-IsSafe s plan id st grounded safe room fresh =
        elim (Option-cases (find (λ b. str_eq b.id id) s.bundles)) [
          | inl e ↦ rw e safe
          | inr (b, e) ↦ rw e (
              let same : b.id ≡ id =
                (eq_iff b.id id).0 (find-eq-some (λ x. str_eq x.id id) s.bundles b e) in
              elim (Option-cases (exact_objects s b)) [
                | inl e' ↦ rw (e', take_bundle) safe
                | inr (exact, e') ↦
                    taken-IsSafe s plan b exact st (grounded b same) safe room (rw same fresh)
                      (ap (stored_of s) same ∙ stored-stored_of s id b exact e e') e'
              ])
        ]

    pub take_candidate-IsSafe :
        (s : RetentionSnapshot) (plan : RetentionPlan) (d : Option RetentionDecision)
        (st : ExecState W)
        → ((x : RetentionDecision)
            → d ≡ some x
            → (b : Bundle) → b.id ≡ x.bundle_id
            → IsGrounded services approved s b)
        → ((x : RetentionDecision) → d ≡ some x → contains st.attempted x.bundle_id ≡ false)
        → IsSafe services approved st
        → IsSafe services approved (take_candidate services io s plan d st).1
    take_candidate-IsSafe s plan none st grounded fresh safe = safe
    take_candidate-IsSafe s plan (some d) st grounded fresh safe =
        elim (Bool-cases (leb bundle_limit st.bundles)) [
          | inl t ↦ rw t safe
          | inr f ↦ rw f (
              take_bundle-IsSafe s plan d.bundle_id st (grounded d refl) safe (ground arith)
                (fresh d refl))
        ]

-- Candidates are approved.
pub candidates_of-approved :
    (services : Services) (approved : Option (List String)) (ds : List RetentionDecision)
    → All (λ id. approves approved id ≡ true) (candidates_of approved ds)
candidates_of-approved services approved [] = tt
candidates_of-approved services approved (d ∷ ds) =
    elim (Bool-cases (with_reason is_eligible d && approves approved d.bundle_id)) [
      | inl t ↦ rw t (ground arith, candidates_of-approved services approved ds)
      | inr f ↦ rw f (candidates_of-approved services approved ds)
    ]

pub contains-All {κ} :
    (P : String → Type κ) (ids : List String) (id : String)
    → All P ids
    → contains ids id ≡ true
    → P id
contains-All P [] id h e = cc
contains-All P (x ∷ xs) id h e = elim (Bool-cases (str_eq x id)) [
  | inl t ↦ let same : x ≡ id = (eq_iff x id).0 t in rw (← same) h.0
  | inr f ↦ contains-All P xs id h.1 (ground arith)
]

pub is_eligible-eligible : (e : Eligibility) → is_eligible e ≡ true → e ≡ eligible
is_eligible-eligible eligible h = refl
is_eligible-eligible protected h = cc
is_eligible-eligible review_required h = cc
