-- ===== src/Outbox/Tests.antt =====
-- The outbox on small inputs.
use web_app_qa_tests_main.Base.{
  ℕ, ◌+◌, String, str_eq, Bool, true, false, ◌&&◌, All, none, some, List, [], ◌∷◌, ◌≡◌, refl, arith,
  length, count,
}
use web_app_qa_tests_main.Pages.{read, read_pages}
use web_app_qa_tests_main.Outbox.{OutboxRecord, CreateInput, OutboxFilters, run_failed, high}
use web_app_qa_tests_main.Outbox.Payload.{text, no_field, field}
use web_app_qa_tests_main.Outbox.Store.{
  create_record, create_notification, list_notifications, matches_filters,
}
use web_app_qa_tests_main.Outbox.Events.{
  EventRun, Event, queued_event, restart_event, Attempt, inputs_of, record_events,
}
use web_app_qa_tests_main.Outbox.Keys.{Announces}
use web_app_qa_tests_main.Outbox.Recorded.{IsKept, IsRecorded, AreRecorded, record_events_once}
use web_app_qa_tests_main.Outbox.Promises.{
  CreatesOnce, create_notification_once, IsNewestFirst, list_notifications_complete,
}

abbrev hide : String → String
hide line = "hidden"

abbrev is_password : String → Bool
is_password key = str_eq key "password"

abbrev failure : CreateInput
failure = record {
  campaign_id = some "sign-in";
  correlation_id = "c-1";
  deduplication_key = "run-1:failed";
  environment = "staging";
  event_type = run_failed;
  message = "token abc";
  payload = field "password" (text "abc") (field "note" (text "plain") no_field);
  product = "inssa";
  run_id = some "run-1";
  severity = high;
  title = "Run failed";
}

abbrev IsHidden : String → Type 0
IsHidden line = line ≡ "hidden"

abbrev stored : OutboxRecord
stored = create_record hide is_password failure 1000 "n-1"

stored_payload :
    stored.payload ≡ field "password" (text "[redacted]") (field "note" (text "hidden") no_field)
stored_payload = refl

create_notification_once_example :
    CreatesOnce hide is_password IsHidden
      (λ line. refl)
      (record failure { title = "Again" })
      2000
      "n-2"
      (create_notification hide is_password failure 1000 "n-1" [])
create_notification_once_example =
    create_notification_once hide is_password IsHidden (λ line. refl) failure
      (record failure { title = "Again" }) 1000 2000 "n-1" "n-2" [] refl (λ key. omega arith) tt

abbrev every : OutboxFilters
every = record {
  campaign = none;
  environment = some "staging";
  product = none;
  run_id = none;
  severity = none;
  status = none;
}

list_notifications_complete_example :
    (listed : List OutboxRecord) × (read_pages
        (λ cursor. list_notifications every cursor 1 (stored ∷ stored ∷ []))
        (length listed + 1)
        0
        []
      ≡ read listed)
    × IsNewestFirst listed
    × ((q : OutboxRecord → Bool)
        → count q listed ≡ count (λ n. matches_filters every n && q n) (stored ∷ stored ∷ []))
list_notifications_complete_example =
    list_notifications_complete every 1 (stored ∷ stored ∷ []) (omega arith)

abbrev stopped_run : EventRun
stopped_run = record {
  id = "run-2";
  campaign_key = "sign-in";
  display_name = "Sign-in";
  target_environment = none;
  requested_by = "admin";
}

abbrev attempt_at : ℕ → String → Bool → Attempt
attempt_at now uuid is_writable = record { now = now; uuid = uuid; is_writable = is_writable }

-- The second event cannot be written at first.
abbrev happened : List (Event × Attempt × Attempt)
happened =
    (queued_event stopped_run, attempt_at 1 "n-1" true, attempt_at 1 "n-1" true)
    ∷ (restart_event "worker", attempt_at 2 "n-2" false, attempt_at 2 "n-2" false)
    ∷ (restart_event "worker", attempt_at 3 "n-3" true, attempt_at 3 "n-3" true)
    ∷ []

record_events_once_example :
    let after = record_events hide is_password happened [] in
    IsKept hide is_password IsHidden (λ line. refl) after
    × ((key : String)
        → IsRecorded hide is_password IsHidden (λ line. refl) [] key
        → IsRecorded hide is_password IsHidden (λ line. refl) after key)
    × All
        (λ e.
          Announces e.0
          × AreRecorded hide is_password IsHidden (λ line. refl) after (inputs_of e.0) e.1 e.2)
        happened
record_events_once_example =
    record_events_once hide is_password IsHidden (λ line. refl) happened [] (λ key. omega arith, tt)
