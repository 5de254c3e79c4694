-- ===== src/Cleanup/Ledger.antt =====
-- The ledger of dashboard/lib/inssa-ops/cleanup-ledger.ts: the records that a manifest gives rise
-- to, their storage, and the view that joins configured and durable records.
use web_app_qa_tests_main.Base.{
  ℕ, ◌+◌, ◌*◌, String, str_eq, ◌<>◌, Bool, true, false, ◌&&◌, ◌||◌, not, Option, none, some, List,
  [], ◌∷◌, ◌++◌, map, or_else, head?, if◌then◌else◌, filter, any, leb,
}
use web_app_qa_tests_main.Cleanup.{
  CleanupStatus, cleanup_unavailable, completed, deferred, failed, manually_confirmed, not_required,
  pending, LedgerStatus, unavailable, done, put_off, lost, waiting, ObjectType, media, time_capsule,
  CleanupManifest, LedgerRecord, RunRecord,
}

abbrev pub to_ledger_status : CleanupStatus → Option LedgerStatus
to_ledger_status not_required = none
to_ledger_status manually_confirmed = some done
to_ledger_status cleanup_unavailable = some unavailable
to_ledger_status completed = some done
to_ledger_status deferred = some put_off
to_ledger_status failed = some lost
to_ledger_status pending = some waiting

abbrev pub is_done : LedgerStatus → Bool
is_done done = true
is_done _ = false

-- `status === "deferred" || status === "cleanup_unavailable"`
abbrev pub is_put_off : LedgerStatus → Bool
is_put_off put_off = true
is_put_off unavailable = true
is_put_off _ = false

abbrev pub type_name : ObjectType → String
type_name media = "media"
type_name time_capsule = "time_capsule"

abbrev pub folder_name : ObjectType → String
folder_name media = "media"
folder_name time_capsule = "timeCapsules"

abbrev pub same_type : ObjectType → ObjectType → Bool
same_type media media = true
same_type time_capsule time_capsule = true
same_type _ _ = false

abbrev ledger_id : (run_id : String) → ObjectType → (object_id : String) → String
ledger_id run_id kind object_id = run_id <> ":" <> type_name kind <> ":" <> object_id

abbrev pub day_ms : ℕ
day_ms = 86400000

abbrev or_first : Option String → List String → Option String
or_first none users = head? users
or_first (some a) users = some a

abbrev joined : List String → String
joined [] = ""
joined (x ∷ []) = x
joined (x ∷ y ∷ ys) = x <> " " <> joined (y ∷ ys)

abbrev or_null : String → Option String
or_null text = if str_eq text "" then none else some text

-- `names_security` is the test of a campaign's key against /security/i.
abbrev pub object_record :
    (names_security : String → Bool)
    → RunRecord
    → CleanupManifest
    → LedgerStatus
    → (now : ℕ) → ObjectType
    → (object_id : String) → LedgerRecord
object_record names_security run m status now kind object_id = record {
  affected_users = m.affected_users;
  campaign_key = run.campaign_key;
  created_at = some now;
  dedicated_qa_account = m.dedicated_qa_account;
  deferred_at = if is_put_off status then some now else none;
  evidence_paths = m.evidence_paths;
  id = ledger_id run.id kind object_id;
  media_type = m.media_type;
  notes = or_null (joined m.instructions);
  object_id = object_id;
  object_path = folder_name kind <> "/" <> object_id;
  object_type = kind;
  originating_run_id = run.id;
  owner_account = or_first m.owner_account m.affected_users;
  reason_code = m.reason_code;
  resulting_state = m.lifecycle_state;
  resolved_at = if is_done status then some now else none;
  retention_until = or_else m.retention_until (now + 90 * day_ms);
  safely_accounted = m.safely_accounted;
  security_sensitive = run.requires_secondary_account || names_security run.campaign_key;
  sensitive_values_excluded = m.sensitive_values_excluded;
  selected_recipient = m.selected_recipient;
  status = status;
  unexpected_data = m.unexpected_data;
  updated_at = now;
  verification_methods = m.verification_methods;
}

abbrev pub records_of :
    (names_security : String → Bool)
    → RunRecord
    → CleanupManifest
    → (now : ℕ) → Option LedgerStatus
    → List LedgerRecord
records_of names_security run m now none = []
records_of names_security run m now (some status) =
    map (object_record names_security run m status now time_capsule) m.created_capsule_ids
    ++ map (object_record names_security run m status now media) m.created_media_ids

unfoldable pub build_cleanup_ledger_records :
    (names_security : String → Bool) → (clock : ℕ) → RunRecord → CleanupManifest → List LedgerRecord
build_cleanup_ledger_records names_security clock run m =
    records_of names_security run m (or_else m.recorded_at clock) (to_ledger_status m.status)

-- The run, the type and the identifier of the object.
abbrev pub same_object : LedgerRecord → LedgerRecord → Bool
same_object r s =
    str_eq s.originating_run_id r.originating_run_id
    && same_type s.object_type r.object_type
    && str_eq s.object_id r.object_id

-- The store of dashboard/lib/inssa-ops/run-store.ts replaces the record of an object or appends.
unfoldable pub upsert_cleanup_ledger : LedgerRecord → List LedgerRecord → List LedgerRecord
upsert_cleanup_ledger r [] = r ∷ []
upsert_cleanup_ledger r (x ∷ xs) =
    let rest = upsert_cleanup_ledger r xs in if same_object r x then r ∷ xs else x ∷ rest

abbrev pub known_object : LedgerRecord → List LedgerRecord → Bool
known_object r existing =
    any (λ p. str_eq p.object_id r.object_id && same_type p.object_type r.object_type) existing

-- The loop: `existing` are the records of the run, `ledger` the store.
unfoldable pub persist_records :
    List LedgerRecord
    → (existing ledger : List LedgerRecord) → List LedgerRecord × List LedgerRecord
unfolding upsert_cleanup_ledger
persist_records [] existing ledger = (existing, ledger)
persist_records (r ∷ rs) existing ledger =
    let kept = persist_records rs existing ledger in
    let added = persist_records rs (existing ++ r ∷ []) (upsert_cleanup_ledger r ledger) in
    if known_object r existing then kept else added

abbrev pub insert_newest : LedgerRecord → List LedgerRecord → List LedgerRecord
insert_newest r [] = r ∷ []
insert_newest r (x ∷ xs) =
    let rest = insert_newest r xs in
    if leb (or_else x.created_at 0) (or_else r.created_at 0) then r ∷ x ∷ xs else x ∷ rest

-- The store lists its records with the newest first.
abbrev pub list_cleanup_ledger : List LedgerRecord → List LedgerRecord
list_cleanup_ledger [] = []
list_cleanup_ledger (x ∷ xs) = insert_newest x (list_cleanup_ledger xs)

unfoldable pub persist_cleanup_ledger_for_run :
    (names_security : String → Bool)
    → (clock : ℕ) → RunRecord
    → CleanupManifest
    → List LedgerRecord
    → List LedgerRecord × List LedgerRecord
unfolding persist_records build_cleanup_ledger_records filter
persist_cleanup_ledger_for_run names_security clock run m ledger =
    persist_records (build_cleanup_ledger_records names_security clock run m)
      (filter (λ r. str_eq r.originating_run_id run.id) (list_cleanup_ledger ledger)) ledger

-- Configured records count until the store has one for the same object.
unfoldable pub read_cleanup_ledger_snapshot :
    (configured durable : List LedgerRecord) → List LedgerRecord
unfolding filter
read_cleanup_ledger_snapshot configured durable =
    durable ++ filter (λ r. not (any (same_object r) durable)) configured

-- Records that are not stored yet are appended, one after the other.
unfoldable pub initialize_cleanup_ledger : (records ledger : List LedgerRecord) → List LedgerRecord
initialize_cleanup_ledger [] ledger = ledger
initialize_cleanup_ledger (r ∷ rs) ledger =
    let kept = initialize_cleanup_ledger rs ledger in
    let added = initialize_cleanup_ledger rs (ledger ++ r ∷ []) in
    if any (same_object r) ledger then kept else added
