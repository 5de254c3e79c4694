-- ===== src/Retention/Executor.antt =====
-- dashboard/lib/inssa-ops/retention-executor.ts: the deletion of evidence, bundle by bundle. The
-- world outside (the database, Storage, the clock, the heartbeat and the signal) is a state of any
-- type with what the calls do to it. Each call of `remove` is kept in a log. What a call throws is
-- its message; a property of undefined counts as such an error.
use web_app_qa_tests_main.Base.{
  ℕ, zero, suc, ◌+◌, String, str_eq, Bool, true, false, ◌&&◌, ◌||◌, not, Option, none, some,
  or_else, List, [], ◌∷◌, ◌==◌, if◌then◌else◌, any, length, take, drop, find, filter, Answer, Done,
  done, answered, refused, refuse_if,
}
use web_app_qa_tests_main.Evidence.{Item, Bundle, Stamp}
use web_app_qa_tests_main.Evidence.Location.{EvidenceLocation}
use web_app_qa_tests_main.Evidence.Integrity.{contains}
use web_app_qa_tests_main.Retention.{
  RetentionObject, RetentionDeletion, RetentionSnapshot, RetentionDecision,
}
use web_app_qa_tests_main.Retention.Policy.{
  policy_version, RetentionOptions, same_identity, object_identity, item_identity,
}
use web_app_qa_tests_main.Retention.Review.{items_of_bundle}
use web_app_qa_tests_main.Retention.Plan.{RetentionPlan, is_eligible, with_reason}

-- RETENTION_LIMITS
abbrev pub bundle_limit : ℕ
bundle_limit = 100

abbrev pub object_limit : ℕ
object_limit = 5000

abbrev pub byte_limit : ℕ
byte_limit = 2000000000

abbrev is_nonempty : List String → Bool
is_nonempty [] = false
is_nonempty (r ∷ rs) = true

abbrev pub is_uncertified : RetentionPlan → Bool
is_uncertified plan =
    (not (str_eq plan.policy_version policy_version) || not (plan.routine_days == 30))
    || ((not (plan.warning_days == 60) || plan.comparison_only)
        || (is_nonempty plan.review_reasons || not plan.summary.storage_size_complete))

abbrev pub certify_execution_plan : RetentionPlan → Answer Done
certify_execution_plan plan =
    refuse_if (is_uncertified plan)
      "Retention v3 execution certification failed; no deletion authorized by this plan."
      (answered done)

abbrev pub no_options : RetentionOptions
no_options = record { routine_days = none; legacy_v2 = false }

abbrev pub legacy_options : RetentionOptions
legacy_options = record { routine_days = none; legacy_v2 = true }

pub record Reserved : Type 0 where
  pub status : String
  pub remaining : Option (List RetentionObject)

pub record Reservation : Type 0 where
  pub bundle_id : String
  pub signature : String
  pub objects : List RetentionObject

-- What the executor may call, on a world of any type.
pub record ExecutorIo (W : Type 0) : Type 0 where
  pub assert_owned : W → Answer Done × W
  pub snapshot : W → Answer RetentionSnapshot × W
  pub now : W → Stamp
  pub reserve : Reservation → W → Answer Reserved × W
  pub remove : List String → EvidenceLocation → W → Answer Done × W
  pub verify_absent : List String → EvidenceLocation → W → Answer Done × W
  pub settle : String → Bool → Option String → W → Answer Done × W
  pub is_lost : W → Bool
  pub claim : W → Answer String × W
  pub finish : Option String → (protected_count review_count : ℕ) → W → Answer Done × W

pub record Removal : Type 0 where
  pub snapshot : RetentionSnapshot
  pub plan : RetentionPlan
  pub bundle_id : String
  pub keys : List String

pub record ExecState (W : Type 0) : Type 0 where
  pub world : W
  pub bundles : ℕ
  pub objects : ℕ
  pub bytes : ℕ
  pub attempted : List String
  pub initial : Option (List String)
  pub current : Option String
  pub protected_count : ℕ
  pub review_count : ℕ
  pub log : List Removal

-- A call, which may throw, and which has changed the state all the same.
abbrev pub Step : Type 0 → Type 0 → Type 0
Step W A = ExecState W → Answer A × ExecState W

abbrev pub pass :
    {W A B : Type 0} → Answer A × ExecState W → (A → Step W B) → Answer B × ExecState W
pass (answered a, st) next = next a st
pass (refused m, st) next = (refused m, st)

abbrev pub call : {W A : Type 0} → (W → Answer A × W) → Step W A
call f st = let (r, w) = f st.world in (r, record st { world = w })

abbrev pub approves : Option (List String) → String → Bool
approves none id = true
approves (some ids) id = contains ids id

abbrev pub candidates_of : (approved : Option (List String)) → List RetentionDecision → List String
candidates_of approved [] = []
candidates_of approved (d ∷ ds) =
    let rest = candidates_of approved ds in
    if with_reason is_eligible d && approves approved d.bundle_id then d.bundle_id ∷ rest else rest

-- The objects of a bundle's items, which are all there.
unfoldable objects_of_items : List RetentionObject → List Item → Option (List RetentionObject)
unfolding find item_identity
objects_of_items objects [] = some []
objects_of_items objects (i ∷ is) = elim (objects_of_items objects is) [
  | none ↦ none
  | some os ↦ elim (find (λ o. same_identity (object_identity o) (item_identity i)) objects) [
    | none ↦ none
    | some o ↦ some (o ∷ os)
  ]
]

abbrev expected_of :
    Option RetentionDeletion → Option (List RetentionObject) → Option (List RetentionObject)
expected_of none found = found
expected_of (some d) found = some d.expected_objects

unfoldable pub exact_objects : RetentionSnapshot → Bundle → Option (List RetentionObject)
unfolding find items_of_bundle objects_of_items
exact_objects s b =
    expected_of (find (λ d. str_eq d.bundle_id b.id) s.deletions)
      (objects_of_items s.objects (items_of_bundle s b))

unfoldable pub still_stored : RetentionSnapshot → List RetentionObject → List RetentionObject
unfolding filter
still_stored s os =
    filter (λ o. any (λ x. same_identity (object_identity x) (object_identity o)) s.objects) os

abbrev pub bytes_of : List RetentionObject → ℕ
bytes_of [] = 0
bytes_of (o ∷ os) = or_else o.size_bytes 0 + bytes_of os

abbrev pub names_of : List RetentionObject → List String
names_of [] = []
names_of (o ∷ os) = o.name ∷ names_of os

-- Slices of 100 keys; on fuel, one for each key.
abbrev pub slices_on : ℕ → List String → List (List String)
slices_on zero keys = []
slices_on (suc fuel) [] = []
slices_on (suc fuel) (k ∷ ks) = take 100 (k ∷ ks) ∷ slices_on fuel (drop 100 (k ∷ ks))

abbrev pub slices : List String → List (List String)
slices keys = slices_on (length keys) keys

-- How a round ends.
pub data Outcome : Type 0 where
  go_on stop : Outcome
