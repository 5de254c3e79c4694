-- ===== src/Retention/Removals.antt =====
-- What the rounds of executeRetention in dashboard/lib/inssa-ops/retention-executor.ts remove, and
-- that they stop, whatever the calls answer.
use web_app_qa_tests_main.Base.{
  ℕ, ◌+◌, ◌≤◌, String, str_eq, find, true, false, Option, none, some, List, [], ◌∷◌, ◌++◌, ◌≡◌, inl,
  inr, length, All, Mem, Answer, Answer-cases, Done, answered, refused,
}
use web_app_qa_tests_main.Evidence.{Bundle}
use web_app_qa_tests_main.Evidence.Integrity.{contains}
use web_app_qa_tests_main.Evidence.Location.{evidence_location}
use web_app_qa_tests_main.Retention.{RetentionObject, RetentionSnapshot}
use web_app_qa_tests_main.Retention.Checks.{Services}
use web_app_qa_tests_main.Retention.Plan.{RetentionPlan}
use web_app_qa_tests_main.Retention.Eligible.{IsDeletable}
use web_app_qa_tests_main.Retention.Executor.{
  bundle_limit, object_limit, byte_limit, ExecutorIo, Removal, ExecState, Step, pass, call,
  exact_objects, still_stored, bytes_of, approves, names_of, slices,
}
use web_app_qa_tests_main.Retention.Execute.{
  remove_slices, verified, finalized, failure_message, delete_reserved,
}

-- No id twice.
abbrev pub IsDistinct : List String → Type 0
IsDistinct [] = Unit
IsDistinct (x ∷ xs) = (contains xs x ≡ false) × IsDistinct xs

abbrev pub present_of : RetentionSnapshot → Option (List RetentionObject) → List RetentionObject
present_of s none = []
present_of s (some exact) = still_stored s exact

abbrev pub objects_of_bundle : RetentionSnapshot → Option Bundle → List RetentionObject
objects_of_bundle s none = []
objects_of_bundle s (some b) = present_of s (exact_objects s b)

-- The objects of a bundle that a snapshot shows in Storage.
unfoldable pub stored_of : RetentionSnapshot → (bundle_id : String) → List RetentionObject
stored_of s id = objects_of_bundle s (find (λ b. str_eq b.id id) s.bundles)

-- The removals for one bundle, all under one snapshot and plan; the last slice of keys first.
pub record Attempt : Type 0 where
  pub snapshot : RetentionSnapshot
  pub plan : RetentionPlan
  pub bundle_id : String
  pub slices : List (List String)

abbrev pub removal_of : Attempt → List String → Removal
removal_of a keys = record {
  snapshot = a.snapshot;
  plan = a.plan;
  bundle_id = a.bundle_id;
  keys = keys;
}

abbrev pub removals_of :
    Attempt → (slices : List (List String)) → (before : List Removal) → List Removal
removals_of a [] before = before
removals_of a (keys ∷ more) before = removals_of a more before ++ removal_of a keys ∷ []

-- What attempts, the last first, leave in the log.
abbrev pub history : List Attempt → List Removal
history [] = []
history (a ∷ tries) = removals_of a a.slices (history tries)

abbrev pub ids_of : List Attempt → List String
ids_of [] = []
ids_of (a ∷ tries) = a.bundle_id ∷ ids_of tries

abbrev pub objects_in : List Attempt → ℕ
objects_in [] = 0
objects_in (a ∷ tries) = length (stored_of a.snapshot a.bundle_id) + objects_in tries

abbrev pub bytes_in : List Attempt → ℕ
bytes_in [] = 0
bytes_in (a ∷ tries) = bytes_of (stored_of a.snapshot a.bundle_id) + bytes_in tries

module _ {W : Type 0} where
  -- The log is the history of the attempts, and the executor has counted them.
  abbrev pub Tallies : List Attempt → ExecState W → Type 0
  Tallies tries st =
      (st.log ≡ history tries)
      × (st.attempted ≡ ids_of tries)
      × (st.bundles ≡ length tries)
      × (st.objects ≡ objects_in tries)
      × (st.bytes ≡ bytes_in tries)

module _ (services : Services) (approved : Option (List String)) where
  -- What was removed is of an approved bundle that the snapshot, read just before, shows deletable.
  abbrev pub IsJustified : Removal → Type 0
  IsJustified e =
      (approves approved e.bundle_id ≡ true)
      × ((now : ℕ) × (b : Bundle) × Mem b e.snapshot.bundles
          × (b.id ≡ e.bundle_id)
          × IsDeletable services now 30 60 e.snapshot b)

  abbrev pub AreApproved : Option (List String) → Type 0
  AreApproved none = Unit
  AreApproved (some ids) = All (λ id. approves approved id ≡ true) ids

  module _ {W : Type 0} where
    -- The removals are those of attempts, one for a bundle, which keep within the limits, with the
    -- counts of the executor; every removal is justified.
    abbrev pub IsSafe : ExecState W → Type 0
    IsSafe st =
        (tries : List Attempt) × Tallies tries st
        × (length tries ≤ bundle_limit)
        × (objects_in tries ≤ object_limit)
        × (bytes_in tries ≤ byte_limit)
        × IsDistinct (ids_of tries)
        × All IsJustified st.log
        × AreApproved st.initial

-- What each part of a round keeps, it keeps whatever a call throws.
module _ {W : Type 0} (P : ExecState W → Type 0) where
  pass-Keeps :
      {A B : Type 0} (out : Answer A × ExecState W) (next : A → Step W B)
      → P out.1
      → ((a : A) (st : ExecState W) → P st → P (next a st).1)
      → P (pass out next).1
  pass-Keeps (answered a, st) next h k = k a st h
  pass-Keeps (refused m, st) next h k = h

  module _ (io : ExecutorIo W)
      (world : (w : W) (st : ExecState W) → P st → P (record st { world = w })) where
    call-Keeps : {A : Type 0} (f : W → Answer A × W) (st : ExecState W) → P st → P (call f st).1
    call-Keeps f st h = world (f st.world).1 st h

    remove_slices-Keeps :
        (s : RetentionSnapshot) (plan : RetentionPlan) (b : Bundle) (slices : List (List String))
        (st : ExecState W)
        → ((keys : List String) (st : ExecState W)
            → P st
            → P (record st {
              log =
                  st.log
                  ++ record { snapshot = s; plan = plan; bundle_id = b.id; keys = keys } ∷ [];
            }))
        → P st
        → P (remove_slices io s plan b slices st).1
    remove_slices-Keeps s plan b [] st logs h = h
    remove_slices-Keeps s plan b (keys ∷ more) st logs h =
        pass-Keeps (call io.assert_owned st) _ (call-Keeps io.assert_owned st h) λ owned st1 h1.
          elim (Answer-cases (evidence_location b.storage_backend b.storage_bucket)) [
            | inr (m, e) ↦ rw e h1
            | inl (l, e) ↦ rw e (
                pass-Keeps (call (io.remove keys l) _) (λ removed. remove_slices io s plan b more)
                  (call-Keeps (io.remove keys l) _ (logs keys st1 h1))
                  (λ removed st2 h2. remove_slices-Keeps s plan b more st2 logs h2))
          ]

    verified-Keeps :
        (b : Bundle) (exact : List RetentionObject) (st : ExecState W)
        → P st
        → P (verified io b exact st).1
    verified-Keeps b exact st h =
        pass-Keeps (call io.assert_owned st) _ (call-Keeps io.assert_owned st h) λ owned st1 h1.
          elim (Answer-cases (evidence_location b.storage_backend b.storage_bucket)) [
            | inr (m, e) ↦ rw e h1
            | inl (l, e) ↦ rw e (
                pass-Keeps (call (io.verify_absent (names_of exact) l) st1) _
                  (call-Keeps (io.verify_absent (names_of exact) l) st1 h1)
                  λ absent st2 h2.
                    pass-Keeps (call io.assert_owned st2) _ (call-Keeps io.assert_owned st2 h2)
                      λ owned' st3 h3. call-Keeps (io.settle b.id true none) st3 h3)
          ]

    finalized-Keeps :
        (b : Bundle) (deletion : Answer Done) (out : Answer Done × ExecState W)
        → P out.1
        → P (finalized io b deletion out).1
    finalized-Keeps b deletion (answered d, st) h = h
    finalized-Keeps b deletion (refused m, st) h =
        pass-Keeps (call (io.settle b.id false (some (failure_message deletion))) st) _
          (call-Keeps (io.settle b.id false (some (failure_message deletion))) st h)
          (λ settled st1 h1. h1)

    module _ (closes : (st : ExecState W) → P st → P (record st { current = none })) where
      pub delete_reserved-Keeps :
          (s : RetentionSnapshot) (plan : RetentionPlan) (b : Bundle)
          (exact remaining : List RetentionObject) (st : ExecState W)
          → ((keys : List String) (st : ExecState W)
              → P st
              → P (record st {
                log =
                    st.log
                    ++ record { snapshot = s; plan = plan; bundle_id = b.id; keys = keys } ∷ [];
              }))
          → P st
          → P (delete_reserved io s plan b exact remaining st).1
      delete_reserved-Keeps s plan b exact remaining st logs h =
          let out = remove_slices io s plan b (slices (names_of remaining)) st in
          let removed = remove_slices-Keeps s plan b (slices (names_of remaining)) st logs h in
          let checked = verified-Keeps b exact out.1 removed in
          pass-Keeps (finalized io b out.0 (verified io b exact out.1)) _
            (finalized-Keeps b out.0 (verified io b exact out.1) checked)
            (λ d st1 h1. closes st1 h1)
