-- ===== src/Cleanup/Tests.antt =====
-- The ledger and the gate on small inputs.
use web_app_qa_tests_main.Base.{
  Mem, ℕ, String, str_eq, Bool, true, false, Option, none, some, List, [], ◌∷◌, ◌≡◌, refl, filter,
  if◌then◌else◌,
}
use web_app_qa_tests_main.Cleanup.{
  CleanupManifest, deferred, LedgerRecord, put_off, RunRecord, PolicySnapshot, time_capsule,
  resolve_cleanup_policy,
}
use web_app_qa_tests_main.Cleanup.Ledger.{
  build_cleanup_ledger_records, persist_cleanup_ledger_for_run, list_cleanup_ledger, object_record,
}
use web_app_qa_tests_main.Cleanup.Gate.{manifests_of, evaluate_cleanup_gate, gate_is_open}
use web_app_qa_tests_main.Cleanup.Accounting.{
  Appends, Describes, persist_cleanup_ledger_for_run-Appends,
}
use web_app_qa_tests_main.Cleanup.Manual.{
  ManualUser, ManualInput, ManualStore, text_note, manual_cleanup_confirmation, IsAttested,
  confirm_manual_cleanup_record, manual_cleanup-IsAttested,
}
use web_app_qa_tests_main.Cleanup.Safety.{IsOpen, evaluate_cleanup_gate_iff}

abbrev put_off_manifest : CleanupManifest
put_off_manifest = record {
  affected_users = "qa-user" ∷ [];
  created_capsule_ids = "capsule-1" ∷ [];
  created_media_ids = "photo-1" ∷ [];
  dedicated_qa_account = true;
  evidence_paths = [];
  instructions = "delete" ∷ "verify" ∷ [];
  lifecycle_state = none;
  media_type = none;
  owner_account = none;
  reason_code = none;
  recorded_at = some 1000;
  retention_until = none;
  run_id = "run-1";
  safely_accounted = true;
  sensitive_values_excluded = true;
  selected_recipient = none;
  status = deferred;
  unexpected_data = false;
  verification_methods = [];
}

abbrev first_run : RunRecord
first_run = record {
  campaign_key = "capsule";
  created_at = 900;
  cleanup = some put_off_manifest;
  id = "run-1";
  mutates_staging = true;
  requires_secondary_account = false;
}

abbrev never_security : String → Bool
never_security key = false

abbrev settings : String → Option String
settings name =
    if str_eq name "INSSA_TEST_ACCOUNT_IS_DEDICATED_QA"
    then some "1"
    else if str_eq name "INSSA_DEFERRED_CLEANUP_MODE"
    then some "1"
    else if str_eq name "INSSA_MANUAL_CLEANUP_MODE"
    then some "1"
    else none

abbrev no_number : Option String → Option ℕ
no_number text = none

abbrev strict : PolicySnapshot
strict = resolve_cleanup_policy no_number settings false false

abbrev capsule : LedgerRecord
capsule =
    object_record never_security first_run put_off_manifest put_off 1000 time_capsule "capsule-1"

abbrev stored : List LedgerRecord
stored = capsule ∷ []

gate_after_persist :
    gate_is_open (
      evaluate_cleanup_gate strict 5000
        (persist_cleanup_ledger_for_run never_security 1000 first_run put_off_manifest []).1
        (first_run ∷ [])
        [])
    ≡ true
unfolding resolve_cleanup_policy persist_cleanup_ledger_for_run evaluate_cleanup_gate
gate_after_persist = refl

gate_with_missing_record :
    gate_is_open (evaluate_cleanup_gate strict 5000 stored (first_run ∷ []) []) ≡ false
unfolding resolve_cleanup_policy evaluate_cleanup_gate
gate_with_missing_record = refl

abbrev persisted : List LedgerRecord
persisted = (persist_cleanup_ledger_for_run never_security 1000 first_run put_off_manifest []).1

evaluate_cleanup_gate_iff_example :
    IsOpen strict 5000 persisted (first_run ∷ []) (manifests_of [] (first_run ∷ []))
evaluate_cleanup_gate_iff_example =
    (evaluate_cleanup_gate_iff strict 5000 persisted (first_run ∷ []) []).0 gate_after_persist

persist_cleanup_ledger_for_run-Appends_example :
    Appends
      (λ r.
        Mem r (build_cleanup_ledger_records never_security 1000 first_run put_off_manifest)
        × Describes first_run put_off_manifest r)
      (build_cleanup_ledger_records never_security 1000 first_run put_off_manifest)
      (filter (λ r. str_eq r.originating_run_id "run-1") (list_cleanup_ledger stored))
      stored
      (persist_cleanup_ledger_for_run never_security 1000 first_run put_off_manifest stored)
persist_cleanup_ledger_for_run-Appends_example =
    persist_cleanup_ledger_for_run-Appends never_security 1000 first_run put_off_manifest stored

abbrev admin : ManualUser
admin = record { role = "admin"; id = "u-1"; email = some "admin@example.org" }

abbrev attestation : ManualInput
attestation = record {
  record_id = capsule.id;
  object_id = "capsule-1";
  run_id = "run-1";
  confirmation_phrase = some manual_cleanup_confirmation;
  note = text_note "seen";
}

abbrev before : ManualStore
before = record { ledger = capsule ∷ []; audits = [] }

abbrev same : String → String
same t = t

manual_cleanup-IsAttested_example :
    IsAttested same same
      (λ r. "staging")
      (λ id. none)
      false
      false
      2000
      "now"
      admin
      attestation
      before
      (confirm_manual_cleanup_record same same
        (λ r. "staging")
        (λ id. none)
        false
        false
        2000
        "now"
        admin
        attestation
        before).1
manual_cleanup-IsAttested_example =
    manual_cleanup-IsAttested same same (λ r. "staging") (λ id. none) false false 2000 "now" admin
      attestation before
