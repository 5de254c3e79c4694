-- ===== src/Outbox/Store.antt =====
-- The operations of `LocalNotificationOutboxStore` of
-- dashboard/lib/inssa-ops/notification-outbox.ts.
use web_app_qa_tests_main.Base.{
  ℕ, String, str_eq, Bool, true, false, ◌&&◌, Option, none, some, List, [], ◌∷◌, ◌++◌, leb,
  if◌then◌else◌, find, filter, ◌==◌,
}
use web_app_qa_tests_main.Pages.{Page, page_records}
use web_app_qa_tests_main.Outbox.{
  OutboxStatus, pending, processing, delivered, failed, dead_letter, NotificationSeverity,
  informational, low, medium, high, critical, OutboxRecord, CreateInput, OutboxFilters,
}
use web_app_qa_tests_main.Outbox.Payload.{sanitize_payload}

abbrev pub has_deduplication_key : String → OutboxRecord → Bool
has_deduplication_key key n = str_eq n.deduplication_key key

abbrev status_rank : OutboxStatus → ℕ
status_rank pending = 0
status_rank processing = 1
status_rank delivered = 2
status_rank failed = 3
status_rank dead_letter = 4

abbrev severity_rank : NotificationSeverity → ℕ
severity_rank informational = 0
severity_rank low = 1
severity_rank medium = 2
severity_rank high = 3
severity_rank critical = 4

-- `!filter || value === filter`, for a text that may be absent.
abbrev pub passes_text : Option String → Option String → Bool
passes_text none v = true
passes_text (some f) none = str_eq f ""
passes_text (some f) (some v) = if str_eq f "" then true else str_eq v f

abbrev passes_status : Option OutboxStatus → OutboxStatus → Bool
passes_status none s = true
passes_status (some f) s = status_rank s == status_rank f

abbrev passes_severity : Option NotificationSeverity → NotificationSeverity → Bool
passes_severity none s = true
passes_severity (some f) s = severity_rank s == severity_rank f

abbrev pub matches_filters : OutboxFilters → OutboxRecord → Bool
matches_filters f n =
    passes_status f.status n.status
    && passes_severity f.severity n.severity
    && passes_text f.campaign n.campaign_id
    && passes_text f.environment (some n.environment)
    && passes_text f.product (some n.product)
    && passes_text f.run_id n.run_id

abbrev pub insert_newest_first : OutboxRecord → List OutboxRecord → List OutboxRecord
insert_newest_first n [] = n ∷ []
insert_newest_first n (x ∷ xs) =
    let rest = insert_newest_first n xs in
    if leb x.created_at n.created_at then n ∷ x ∷ xs else x ∷ rest

abbrev pub newest_first : List OutboxRecord → List OutboxRecord
newest_first [] = []
newest_first (n ∷ ns) = insert_newest_first n (newest_first ns)

pub record Created : Type 0 where
  pub created : Bool
  pub notification : OutboxRecord

module _ (redact : String → String) (is_sensitive : String → Bool) where
  abbrev pub create_record : CreateInput → (now : ℕ) → (uuid : String) → OutboxRecord
  create_record input now uuid = record {
    attempt_count = 0;
    campaign_id = input.campaign_id;
    correlation_id = input.correlation_id;
    created_at = now;
    deduplication_key = input.deduplication_key;
    delivered_at = none;
    environment = input.environment;
    error_message = none;
    event_type = input.event_type;
    id = uuid;
    last_attempt_at = none;
    message = redact input.message;
    payload = sanitize_payload redact is_sensitive input.payload;
    product = input.product;
    provider = none;
    provider_message_id = none;
    run_id = input.run_id;
    severity = input.severity;
    status = pending;
    title = redact input.title;
  }

  create_found :
      CreateInput
      → (now : ℕ) → (uuid : String) → List OutboxRecord
      → Option OutboxRecord
      → Created × List OutboxRecord
  create_found input now uuid ns (some existing) =
      (record { created = false; notification = existing }, ns)
  create_found input now uuid ns none =
      let notification = create_record input now uuid in
      (record { created = true; notification = notification }, ns ++ notification ∷ [])

  unfoldable pub create_notification :
      CreateInput → (now : ℕ) → (uuid : String) → List OutboxRecord → Created × List OutboxRecord
  unfolding create_found find
  create_notification input now uuid ns =
      create_found input now uuid ns (find (has_deduplication_key input.deduplication_key) ns)

unfoldable pub get_notification : (id : String) → List OutboxRecord → Option OutboxRecord
unfolding find
get_notification id ns = find (λ n. str_eq n.id id) ns

unfoldable pub list_notifications :
    OutboxFilters → (cursor limit : ℕ) → List OutboxRecord → Page OutboxRecord
unfolding page_records filter
list_notifications filters cursor limit ns =
    page_records (newest_first (filter (matches_filters filters) ns)) cursor limit
