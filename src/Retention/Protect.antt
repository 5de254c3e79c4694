-- ===== src/Retention/Protect.antt =====
-- dashboard/lib/inssa-ops/retention.ts: what protects a bundle, and until when. An expiry is absent
-- where the source has minus infinity: no readable date was found.
use web_app_qa_tests_main.Base.{
  ℕ, ◌+◌, ◌*◌, max, String, str_eq, Bool, true, false, ◌&&◌, ◌||◌, not, Option, none, some, List,
  [], ◌∷◌, ◌++◌, ltb, if◌then◌else◌, any, find, filter, chars, matches_anywhere,
}
use web_app_qa_tests_main.Outbox.Payload.{Value, flag, object}
use web_app_qa_tests_main.Cleanup.{CleanupStatus, not_required, ObjectType, media, time_capsule}
use web_app_qa_tests_main.Reconcile.{RunStatus, run_warned}
use web_app_qa_tests_main.Evidence.{Item, Bundle, Stamp, no_date, has_date}
use web_app_qa_tests_main.Evidence.Integrity.{contains}
use web_app_qa_tests_main.Retention.{
  RetentionObject, CommandSnapshot, RunManifest, RetentionRun, CleanupRow, Migration,
  RetentionSnapshot, timestamp,
}
use web_app_qa_tests_main.Retention.Policy.{reason_if, is_after, item_identity}
use web_app_qa_tests_main.Retention.Review.{is_success, is_failure, object_at, metadata_value}
use web_app_qa_tests_main.Retention.Checks.{diagnostics_of, command_of, manifest_of}

-- Milliseconds.
abbrev pub day : ℕ
day = 86400000

-- What protects so far.
pub record Protection : Type 0 where
  pub review : List String
  pub protect : List String
  pub indefinite : Bool
  pub expiry : Option ℕ

abbrev pub later : Option ℕ → ℕ → Option ℕ
later none t = some t
later (some e) t = some (max e t)

abbrev pub latest : List (Option ℕ) → Option ℕ
latest [] = none
latest (none ∷ ts) = latest ts
latest (some t ∷ ts) = later (latest ts) t

abbrev pub plus : Option ℕ → ℕ → Option ℕ
plus none n = none
plus (some t) n = some (t + n)

abbrev is_settled_state : String → Bool
is_settled_state state = str_eq state "SOURCE_PRESERVED" || str_eq state "ROLLED_BACK"

abbrev migration_protects : Option Migration → Bool
migration_protects none = false
migration_protects (some m) = not (is_settled_state m.state)

unfoldable pub is_migrating : RetentionSnapshot → Bundle → Bool
unfolding find
is_migrating s b = migration_protects (find (λ m. str_eq m.bundle_id b.id) s.migrations)

abbrev ids_or_none : Option (List String) → List String
ids_or_none none = []
ids_or_none (some ids) = ids

abbrev pub capsule_ids : Option RunManifest → List String
capsule_ids none = []
capsule_ids (some m) = ids_or_none m.created_capsule_ids

abbrev pub media_ids : Option RunManifest → List String
media_ids none = []
media_ids (some m) = ids_or_none m.created_media_ids

abbrev is_capsule : ObjectType → Bool
is_capsule time_capsule = true
is_capsule media = false

abbrev is_media : ObjectType → Bool
is_media media = true
is_media time_capsule = false

abbrev is_associated : Bundle → (capsules medias : List String) → CleanupRow → Bool
is_associated b capsules medias row =
    str_eq row.originating_run_id b.run_id
    || ((is_capsule row.object_type && contains capsules row.object_id)
        || (is_media row.object_type && contains medias row.object_id))

unfoldable pub associated_rows : RetentionSnapshot → Bundle → Option RunManifest → List CleanupRow
unfolding filter
associated_rows s b m = filter (is_associated b (capsule_ids m) (media_ids m)) s.cleanup

abbrev pub is_empty {ℓ} : {A : Type ℓ} → List A → Bool
is_empty [] = true
is_empty (x ∷ xs) = false

abbrev command_mutates : Option CommandSnapshot → Bool
command_mutates none = false
command_mutates (some c) = c.mutates_staging || c.cleanup_required

abbrev command_secondary : Option CommandSnapshot → Bool
command_secondary none = false
command_secondary (some c) = c.requires_secondary_account

abbrev is_not_required : CleanupStatus → Bool
is_not_required not_required = true
is_not_required _ = false

abbrev manifest_mutates : Option RunManifest → Bool
manifest_mutates none = false
manifest_mutates (some m) = not (is_not_required m.status) || has_date m.retention_until

abbrev pub is_mutation : (classes : List String) → Option RetentionRun → List CleanupRow → Bool
is_mutation classes run rows =
    let m = manifest_of run in
    command_mutates (command_of run)
    || ((contains classes "cleanup-evidence" || not (is_empty (capsule_ids m)))
        || ((not (is_empty (media_ids m)) || not (is_empty rows)) || manifest_mutates m))

-- `/security|cross.user|reveal.later/i`
unfoldable pub names_security : String → Bool
unfolding chars
names_security t =
    matches_anywhere (chars "security") (chars t)
    || (matches_anywhere (chars "cross.user") (chars t)
        || matches_anywhere (chars "reveal.later") (chars t))

abbrev pub is_security :
    (classes : List String) → Bundle → Option RetentionRun → List CleanupRow → Bool
is_security classes b run rows =
    (contains classes "security-evidence" || str_eq b.bundle_type "security")
    || ((names_security b.campaign_key || command_secondary (command_of run))
        || any (λ row. row.security_sensitive || row.unexpected_data) rows)

abbrev run_created : Option RetentionRun → Stamp
run_created none = no_date
run_created (some r) = r.created_at

abbrev pub run_completed_at : Option RetentionRun → Stamp
run_completed_at none = no_date
run_completed_at (some r) = r.completed_at

abbrev item_times : List Item → List (Option ℕ)
item_times [] = []
item_times (i ∷ is) = timestamp i.created_at ∷ timestamp i.uploaded_at ∷ item_times is

abbrev object_time : Option RetentionObject → List (Option ℕ)
object_time none = []
object_time (some o) = timestamp o.created_at ∷ timestamp o.updated_at ∷ []

abbrev object_times : List Item → List RetentionObject → List (Option ℕ)
object_times [] objects = []
object_times (i ∷ is) objects =
    object_time (object_at (item_identity i) objects) ++ object_times is objects

-- The dates from which the evidence ages.
unfoldable pub anchor_times :
    Bundle → List Item → Option RetentionRun → List RetentionObject → List (Option ℕ)
unfolding object_at item_identity
anchor_times b items run objects =
    timestamp b.created_at
    ∷ timestamp b.indexed_at
    ∷ timestamp b.uploaded_at
    ∷ timestamp (run_created run)
    ∷ timestamp (run_completed_at run)
    ∷ (item_times items ++ object_times items objects)

abbrev is_true : Option Value → Bool
is_true (some (flag b)) = b
is_true _ = false

abbrev was_retried : Option Value → Bool
was_retried (some (object d)) =
    is_true (metadata_value "retryUsed" d) || is_true (metadata_value "flaky" d)
was_retried _ = false

abbrev is_warned : RunStatus → Bool
is_warned run_warned = true
is_warned _ = false

abbrev pub run_is : (RunStatus → Bool) → Option RetentionRun → Bool
run_is test none = false
run_is test (some r) = test r.status

abbrev pub has_warning : List Item → Option RetentionRun → Bool
has_warning items run = run_is is_warned run || any (λ i. was_retried (diagnostics_of i)) items

-- The windows that a run of its status has.
abbrev pub status_window :
    (now routine_days warning_days : ℕ)
    → (warning : Bool) → Option RetentionRun
    → (anchor : Option ℕ) → Protection
status_window now routine_days warning_days warning run anchor =
    let failure = run_is is_failure run in
    let days = if failure then 90 else if warning then warning_days else routine_days in
    let expiry = plus anchor (days * day) in
    record {
      review = [];
      protect =
          reason_if (failure && is_after expiry now) "FAILURE_WINDOW"
          ++ reason_if (run_is is_success run && is_after expiry now) (
              if warning && ltb routine_days warning_days
              then "WARNING_RETRY_WINDOW"
              else "ROUTINE_WINDOW");
      indefinite = false;
      expiry = expiry;
    }
