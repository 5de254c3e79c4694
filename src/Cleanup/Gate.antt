-- ===== src/Cleanup/Gate.antt =====
-- `evaluateCleanupGate` of dashboard/lib/inssa-ops/cleanup-ledger.ts, from the ledger, the runs and
-- the local manifests that it reads.
use web_app_qa_tests_main.Base.{
  ℕ, ◌-◌, ◌*◌, ◌/◌, String, str_eq, ◌<>◌, show, Bool, true, false, ◌&&◌, ◌||◌, not, Option, none,
  some, is_some, List, [], ◌∷◌, ◌++◌, map, length, ltb, leb, if◌then◌else◌, filter, any, all, head?,
}
use web_app_qa_tests_main.Cleanup.{
  CleanupStatus, cleanup_unavailable, completed, deferred, failed, manually_confirmed, not_required,
  pending, LedgerStatus, unavailable, done, put_off, lost, waiting, PolicySnapshot, CleanupManifest,
  LedgerRecord, RunRecord,
}
use web_app_qa_tests_main.Cleanup.Ledger.{is_done, is_put_off, day_ms}

pub record Issue : Type 0 where
  pub id : String
  pub detail : String

-- An issue that is raised; manual mode makes those about cleanup alone an advice.
pub record Raised : Type 0 where
  pub issue : Issue
  pub cleanup_only : Bool

abbrev pub raise_if : Bool → (cleanup_only : Bool) → (id detail : String) → List Raised
raise_if true cleanup_only id detail =
    record { issue = record { id = id; detail = detail }; cleanup_only = cleanup_only } ∷ []
raise_if false cleanup_only id detail = []

abbrev pub blocks : (manual : Bool) → Raised → Bool
blocks manual r = not (manual && r.cleanup_only)

abbrev pub concat_map {ℓ} : {A : Type ℓ} → (A → List Raised) → List A → List Raised
concat_map f [] = []
concat_map f (x ∷ xs) = f x ++ concat_map f xs

abbrev cleanup_name : CleanupStatus → String
cleanup_name cleanup_unavailable = "cleanup_unavailable"
cleanup_name completed = "completed"
cleanup_name deferred = "deferred"
cleanup_name failed = "failed"
cleanup_name manually_confirmed = "manually_confirmed"
cleanup_name not_required = "not_required"
cleanup_name pending = "pending"

abbrev ledger_name : LedgerStatus → String
ledger_name unavailable = "cleanup_unavailable"
ledger_name done = "completed"
ledger_name put_off = "deferred"
ledger_name lost = "failed"
ledger_name waiting = "pending"

-- A manifest of these statuses is skipped.
abbrev pub is_over : CleanupStatus → Bool
is_over completed = true
is_over manually_confirmed = true
is_over not_required = true
is_over _ = false

abbrev pub is_deferred : CleanupStatus → Bool
is_deferred deferred = true
is_deferred cleanup_unavailable = true
is_deferred _ = false

abbrev put_manifest :
    (key : String)
    → CleanupManifest
    → List (String × CleanupManifest)
    → List (String × CleanupManifest)
put_manifest key m [] = (key, m) ∷ []
put_manifest key m ((k, n) ∷ rest) =
    if str_eq k key then (key, m) ∷ rest else (k, n) ∷ put_manifest key m rest

abbrev put_local :
    List CleanupManifest → List (String × CleanupManifest) → List (String × CleanupManifest)
put_local [] known = known
put_local (m ∷ ms) known = put_local ms (put_manifest m.run_id m known)

abbrev put_run : RunRecord → List (String × CleanupManifest) → List (String × CleanupManifest)
put_run run known = elim run.cleanup [
  | none ↦ known
  | some m ↦ if run.mutates_staging then put_manifest run.id m known else known
]

abbrev put_runs : List RunRecord → List (String × CleanupManifest) → List (String × CleanupManifest)
put_runs [] known = known
put_runs (run ∷ runs) known = put_runs runs (put_run run known)

-- The values of the map that local manifests and then runs fill.
unfoldable pub manifests_of : (local : List CleanupManifest) → List RunRecord → List CleanupManifest
manifests_of local runs = map (λ e. e.1) (put_runs runs (put_local local []))

abbrev pub object_ids : CleanupManifest → List String
object_ids m = m.created_capsule_ids ++ m.created_media_ids

abbrev pub in_ledger : List LedgerRecord → CleanupManifest → (object_id : String) → Bool
in_ledger ledger m object_id =
    any (λ r. str_eq r.originating_run_id m.run_id && str_eq r.object_id object_id) ledger

abbrev pub completed_in_ledger : List LedgerRecord → CleanupManifest → (object_id : String) → Bool
completed_in_ledger ledger m object_id =
    any
      (λ r.
        str_eq r.originating_run_id m.run_id && str_eq r.object_id object_id && is_done r.status)
      ledger

abbrev pub is_empty {ℓ} : {A : Type ℓ} → List A → Bool
is_empty [] = true
is_empty (x ∷ xs) = false

-- Skipped: over, or every object of the manifest completed in the ledger.
abbrev pub is_resolved : List LedgerRecord → CleanupManifest → Bool
is_resolved ledger m =
    is_over m.status
    || (not (is_empty (object_ids m)) && all (completed_in_ledger ledger m) (object_ids m))

abbrev pub unlisted_text : CleanupManifest → String → String
unlisted_text m object_id =
    "Object " <> object_id <> " from run " <> m.run_id
    <> " is not represented in the durable cleanup ledger."

abbrev pub object_check : List LedgerRecord → CleanupManifest → (object_id : String) → List Raised
object_check ledger m object_id =
    raise_if (not (in_ledger ledger m object_id)) true "cleanup-ledger" (unlisted_text m object_id)

abbrev pub no_objects_text : CleanupManifest → String
no_objects_text m =
    "MANUAL_CLEANUP_IDENTITY_UNKNOWN: Run " <> m.run_id
    <> " has unresolved cleanup but no identified staging object."

abbrev pub run_state_text : CleanupManifest → String
run_state_text m =
    "Run "
    <> m.run_id
    <> " remains "
    <> cleanup_name m.status
    <> "; manual investigation is required."

abbrev pub manifest_checks : List LedgerRecord → CleanupManifest → List Raised
manifest_checks ledger m =
    if is_resolved ledger m
    then []
    else raise_if (is_empty (object_ids m)) true "cleanup-identity" (no_objects_text m)
      ++ raise_if (not (is_deferred m.status)) true "cleanup-state" (run_state_text m)
      ++ concat_map (object_check ledger m) (object_ids m)

-- An owner that is absent or an empty text.
abbrev pub has_owner : Option String → Bool
has_owner none = false
has_owner (some o) = not (str_eq o "")

-- Too old, or of no readable date.
abbrev pub too_old : (now : ℕ) → (max_days : ℕ) → Option ℕ → Bool
too_old now max_days none = true
too_old now max_days (some created) = ltb (max_days * day_ms) (now - created)

abbrev pub is_attributed : LedgerRecord → Bool
is_attributed r =
    r.dedicated_qa_account && has_owner r.owner_account && not (is_empty r.affected_users)

abbrev pub is_identified : LedgerRecord → Bool
is_identified r = not (str_eq r.object_id "") && not (str_eq r.originating_run_id "")

abbrev pub no_identity_text : String
no_identity_text =
    "MANUAL_CLEANUP_IDENTITY_UNKNOWN: An unresolved record has no object ID or originating run ID."

abbrev pub object_state_text : LedgerRecord → String
object_state_text r =
    "Object "
    <> r.object_path
    <> " remains "
    <> ledger_name r.status
    <> "; manual investigation is required."

abbrev pub unattributed_text : LedgerRecord → String
unattributed_text r =
    "Object " <> r.object_path <> " is not fully attributed to a dedicated QA account."

abbrev pub unsanitized_text : LedgerRecord → String
unsanitized_text r = "Object " <> r.object_path <> " lacks credential/token sanitization evidence."

abbrev pub unaccounted_text : LedgerRecord → String
unaccounted_text r = "Object " <> r.object_path <> " is not safely accounted for."

abbrev pub aged_text : PolicySnapshot → LedgerRecord → String
aged_text p r =
    "Object "
    <> r.object_path
    <> " exceeds the "
    <> show p.max_unresolved_age_days
    <> "-day unresolved age limit."

abbrev pub record_checks : PolicySnapshot → (now : ℕ) → LedgerRecord → List Raised
record_checks p now r =
    raise_if (not (is_identified r)) true "cleanup-identity" no_identity_text
    ++ raise_if (not (is_put_off r.status)) true "cleanup-state" (object_state_text r)
    ++ raise_if (not (is_attributed r)) false "qa-account" (unattributed_text r)
    ++ raise_if (not r.sensitive_values_excluded) false "cleanup-sanitization" (unsanitized_text r)
    ++ raise_if (not r.safely_accounted || r.unexpected_data) (not r.unexpected_data)
        "cleanup-accounting" (unaccounted_text r)
    ++ raise_if (too_old now p.max_unresolved_age_days r.created_at) true "cleanup-age"
        (aged_text p r)

abbrev pub unresolved_of : List LedgerRecord → List LedgerRecord
unresolved_of ledger = filter (λ r. not (is_done r.status)) ledger

abbrev pub mutation_runs_today : (now : ℕ) → List RunRecord → ℕ
mutation_runs_today now runs =
    length (filter (λ run. run.mutates_staging && leb (now / day_ms * day_ms) run.created_at) runs)

abbrev pub not_dedicated_text : String
not_dedicated_text =
    "Every account used by this campaign must be explicitly marked as a dedicated QA account."

abbrev pub deferred_off_text : String
deferred_off_text = "Deferred cleanup mode is disabled while unresolved staging objects exist."

abbrev pub threshold_text : PolicySnapshot → String
threshold_text p =
    "The unresolved-object limit ("
    <> show p.max_unresolved_objects
    <> ") would be exceeded by another mutation campaign."

abbrev pub rate_text : PolicySnapshot → String
rate_text p =
    "The daily mutation-run limit (" <> show p.max_mutation_runs_per_day <> ") has been reached."

unfoldable pub checks :
    PolicySnapshot
    → (now : ℕ) → (ledger : List LedgerRecord) → List RunRecord
    → List CleanupManifest
    → List Raised
unfolding filter show
checks p now ledger runs manifests =
    let unresolved = unresolved_of ledger in
    raise_if (not p.dedicated_qa_accounts_confirmed) false "qa-account" not_dedicated_text
    ++ concat_map (manifest_checks ledger) manifests
    ++ concat_map (record_checks p now) unresolved
    ++ raise_if (ltb 0 (length unresolved) && not p.deferred_mode_enabled) true "deferred-mode"
        deferred_off_text
    ++ raise_if (leb p.max_unresolved_objects (length unresolved)) true "cleanup-threshold"
        (threshold_text p)
    ++ raise_if (leb p.max_mutation_runs_per_day (mutation_runs_today now runs)) true
        "mutation-rate" (rate_text p)

pub data Mode : Type 0 where
  manual_cleanup enforced : Mode

-- `failure` is the first blocking issue; without one the gate is open.
pub record GateResult : Type 0 where
  pub mode : Mode
  pub advisories : List Issue
  pub blocking_failures : List Issue
  pub runs_today : ℕ
  pub policy : PolicySnapshot
  pub unresolved : List LedgerRecord
  pub failure : Option Issue

abbrev pub gate_is_open : GateResult → Bool
gate_is_open r = not (is_some r.failure)

abbrev manual_notice : (unresolved runs_today : ℕ) → Issue
manual_notice unresolved runs_today = record {
  id = "manual-cleanup";
  detail =
      "MANUAL CLEANUP MODE: automatic deletion unavailable; "
      <> show unresolved
      <> " unresolved QA object(s); "
      <> show runs_today
      <> " mutation run(s) today. Cleanup remains an operator responsibility.";
}

unfoldable pub evaluate_cleanup_gate :
    PolicySnapshot
    → (now : ℕ) → (ledger : List LedgerRecord) → List RunRecord
    → (local : List CleanupManifest) → GateResult
unfolding checks filter manifests_of
evaluate_cleanup_gate p now ledger runs local =
    let raised = checks p now ledger runs (manifests_of local runs) in
    let blocking = map (λ r. r.issue) (filter (blocks p.manual_mode_enabled) raised) in
    let advice = map (λ r. r.issue) (filter (λ r. not (blocks p.manual_mode_enabled r)) raised) in
    let unresolved = unresolved_of ledger in
    let today = mutation_runs_today now runs in
    record {
      mode = if p.manual_mode_enabled then manual_cleanup else enforced;
      advisories =
          if p.manual_mode_enabled
          then manual_notice (length unresolved) today ∷ advice
          else advice;
      blocking_failures = blocking;
      runs_today = today;
      policy = p;
      unresolved = unresolved;
      failure = head? blocking;
    }
