-- ===== src/Retention/Policy.antt =====
-- dashboard/lib/inssa-ops/retention.ts: the policies and holds, and dashboard/lib/inssa-ops/
-- retention-storage.ts: by which identity a stored object is found. The JSON text of an identity is
-- its three parts.
use Prim.Native.Nat.{Ordering}
use Prim.Native.String.{compare}
use web_app_qa_tests_main.Base.{
  ℕ, String, str_eq, Bool, true, false, ◌&&◌, ◌||◌, not, Option, none, some, or_else, List, [], ◌∷◌,
  ltb, leb, ◌==◌, if◌then◌else◌, any, all, length, find, filter, map, has_text, answered, refused,
  Answer,
}
use web_app_qa_tests_main.Evidence.{Item, is_blank, same_text, Stamp, has_date}
use web_app_qa_tests_main.Evidence.Location.{
  Provider, local_provider, supabase_provider, spaces_provider, EvidenceLocation, evidence_location,
}
use web_app_qa_tests_main.Evidence.Integrity.{contains}
use web_app_qa_tests_main.Retention.{
  RetentionPolicy, global_scope, run_scope, bundle_scope, item_scope, cleanup_scope, other_scope,
  HoldType, other_type, HoldStatus, active_hold, released_hold, other_status, RetentionHold,
  RetentionObject, RetentionSnapshot, timestamp,
}

abbrev pub policy_version : String
policy_version = "evidence-retention-v3"

abbrev pub policy_v2 : String
policy_v2 = "evidence-retention-v2"

abbrev pub policy_v1 : String
policy_v1 = "evidence-retention-v1"

-- `a <= b`, `a >= b` and `a > b`, for numbers that may be NaN.
abbrev pub not_after : Option ℕ → ℕ → Bool
not_after none now = false
not_after (some t) now = leb t now

abbrev pub not_before : Option ℕ → Option ℕ → Bool
not_before (some a) (some b) = leb b a
not_before _ _ = false

abbrev pub is_after : Option ℕ → ℕ → Bool
is_after none now = false
is_after (some t) now = ltb now t

abbrev pub is_readable : Stamp → Bool
is_readable s = elim (timestamp s) [ none ↦ false | some t ↦ true ]

-- `[...new Set(values)].sort()`
abbrev pub insert_ordered : String → List String → List String
insert_ordered v [] = v ∷ []
insert_ordered v (x ∷ xs) =
    let rest = insert_ordered v xs in
    elim (compare v x) [ Ordering.lt ↦ v ∷ x ∷ xs | Ordering.eq ↦ x ∷ xs | Ordering.gt ↦ x ∷ rest ]

abbrev pub ordered : List String → List String
ordered [] = []
ordered (v ∷ vs) = insert_ordered v (ordered vs)

-- `test ? [reason] : []`
abbrev pub reason_if : Bool → String → List String
reason_if true reason = reason ∷ []
reason_if false reason = []

-- The reasons of the tests that fire.
abbrev pub reasons_of : List (Bool × String) → List String
reasons_of [] = []
reasons_of (t ∷ ts) = let rest = reasons_of ts in if t.0 then t.1 ∷ rest else rest

abbrev pub is_blank_text : Option String → Bool
is_blank_text none = true
is_blank_text (some t) = not (has_text t)

abbrev is_null : Option String → Bool
is_null none = true
is_null (some t) = false

-- Exactly the field of the scope is set.
unfoldable pub is_scope_valid : RetentionHold → Bool
unfolding has_text
is_scope_valid h = elim h.scope [
  | global_scope ↦
      is_null h.run_id
      && (is_null h.bundle_id && (is_null h.item_id && is_null h.cleanup_ledger_id))
  | run_scope ↦
      not (is_blank h.run_id)
      && (is_null h.bundle_id && (is_null h.item_id && is_null h.cleanup_ledger_id))
  | bundle_scope ↦
      is_null h.run_id
      && (not (is_blank h.bundle_id) && (is_null h.item_id && is_null h.cleanup_ledger_id))
  | item_scope ↦
      is_null h.run_id
      && (is_null h.bundle_id && (not (is_blank h.item_id) && is_null h.cleanup_ledger_id))
  | cleanup_scope ↦
      is_null h.run_id
      && (is_null h.bundle_id && (is_null h.item_id && not (is_blank h.cleanup_ledger_id)))
  | other_scope ↦ false
]

abbrev is_known_type : HoldType → Bool
is_known_type (other_type upper) = false
is_known_type _ = true

abbrev is_status_valid : RetentionHold → HoldStatus → Bool
is_status_valid h active_hold = not (has_date h.released_at) && is_null h.released_by
is_status_valid h released_hold =
    not (is_blank_text h.released_by)
    && not_before (timestamp h.released_at) (timestamp h.created_at)
is_status_valid h other_status = false

unfoldable pub valid_hold : RetentionHold → Bool
unfolding has_text is_scope_valid
valid_hold h =
    (not (str_eq h.id "") && is_scope_valid h)
    && ((has_text h.reason && has_text h.created_by)
        && (is_known_type h.hold_type && (is_readable h.created_at && is_status_valid h h.status)))

abbrev pub is_hold_active : (now : ℕ) → RetentionHold → HoldStatus → Bool
is_hold_active now h released_hold = is_after (timestamp h.released_at) now
is_hold_active now h _ = true

unfoldable pub active_holds : (now : ℕ) → RetentionSnapshot → List RetentionHold
unfolding filter
active_holds now s = filter (λ h. is_hold_active now h h.status) s.holds

abbrev pub has_policy_id : String → RetentionPolicy → Bool
has_policy_id id p = str_eq p.id id

abbrev pub distinct : List String → Bool
distinct [] = true
distinct (x ∷ xs) = not (contains xs x) && distinct xs

abbrev pub version_of : RetentionSnapshot → String
version_of s =
    if any (has_policy_id policy_version) s.policies
    then policy_version
    else if any (has_policy_id policy_v2) s.policies
    then policy_v2
    else policy_v1

abbrev is_number : ℕ → Option ℕ → Bool
is_number n none = false
is_number n (some k) = k == n

abbrev is_policy_known : (now : ℕ) → RetentionPolicy → Bool
is_policy_known now p =
    (contains (policy_version ∷ policy_v2 ∷ policy_v1 ∷ []) p.id
      && str_eq p.mode (if str_eq p.id policy_v1 then "dry_run_only" else "enforced"))
    && ((p.routine_days == (if str_eq p.id policy_v2 then 21 else 30)
          && (not (str_eq p.id policy_version) || is_number 60 p.warning_days))
        && (p.failure_days == 90
            && (p.security_days == 90
                && (p.post_cleanup_days == 30 && not_after (timestamp p.effective_at) now))))

abbrev pub policy_known : (now routine_days : ℕ) → RetentionSnapshot → Bool
policy_known now routine_days s =
    (ltb 0 (length s.policies) && distinct (map (λ p. p.id) s.policies))
    && (all (is_policy_known now) s.policies
        && (routine_days == 14 || (routine_days == 21 || routine_days == 30)))

abbrev pub holds_known : RetentionSnapshot → Bool
holds_known s = all valid_hold s.holds

-- The options of an evaluation; the source's `{}` is none and false.
pub record RetentionOptions : Type 0 where
  pub routine_days : Option ℕ
  pub legacy_v2 : Bool

abbrev routine_of : Option RetentionPolicy → Option ℕ
routine_of none = none
routine_of (some p) = some p.routine_days

abbrev warning_of : Option RetentionPolicy → ℕ
warning_of none = 60
warning_of (some p) = or_else p.warning_days 60

unfoldable pub policy_of : RetentionSnapshot → Option RetentionPolicy
unfolding find
policy_of s = find (has_policy_id (version_of s)) s.policies

unfoldable pub routine_days_of : RetentionOptions → RetentionSnapshot → ℕ
unfolding policy_of
routine_days_of options s =
    if options.legacy_v2
    then 21
    else or_else options.routine_days (or_else (routine_of (policy_of s)) 30)

unfoldable pub warning_days_of : RetentionOptions → RetentionSnapshot → ℕ
unfolding policy_of routine_days_of
warning_days_of options s =
    if options.legacy_v2 || not (str_eq (version_of s) policy_version)
    then routine_days_of options s
    else warning_of (policy_of s)

pub record Identity : Type 0 where
  pub provider : String
  pub bucket : Option String
  pub key : String

abbrev pub same_identity : Identity → Identity → Bool
same_identity a b =
    str_eq a.provider b.provider && (same_text a.bucket b.bucket && str_eq a.key b.key)

abbrev pub provider_name : Provider → String
provider_name local_provider = "local"
provider_name supabase_provider = "supabase"
provider_name spaces_provider = "spaces"

abbrev pub object_identity : RetentionObject → Identity
object_identity o = record {
  provider = or_else o.provider "supabase";
  bucket = some (or_else o.bucket "inssa-evidence");
  key = o.name;
}

abbrev located_identity : Answer EvidenceLocation → Item → Identity
located_identity (answered l) i = record {
  provider = provider_name l.provider;
  bucket = some l.bucket;
  key = i.storage_key;
}
located_identity (refused m) i = record {
  provider = i.storage_backend;
  bucket = i.storage_bucket;
  key = i.storage_key;
}

unfoldable pub item_identity : Item → Identity
item_identity i = located_identity (evidence_location i.storage_backend i.storage_bucket) i
