-- ===== src/Scheduler.antt =====
-- dashboard/lib/monitoring/scheduler-types.ts and the `LocalSchedulerStore` of scheduler-store.ts:
-- which scheduled occurrences are claimed, queued, failed or skipped, and the scheduler's status.
-- Every write reads and stores the snapshot under one lock. Instants are milliseconds since the
-- epoch, and each reading of the clock is an argument.
pub mod Claims
pub mod Operations
pub mod Round
pub mod Enqueue
pub mod Cycle
pub mod Trace
pub mod Once
mod Tests
use web_app_qa_tests_main.Base.{
  ℕ, zero, ◌+◌, ◌-◌, ◌*◌, ◌/◌, String, str_eq, Bool, true, false, ◌&&◌, ◌||◌, Option, none, some,
  List, [], ◌∷◌, ◌++◌, length, ltb, leb, if◌then◌else◌, or_else, find, filter, update_first,
}

pub data OccurrenceStatus : Type 0 where
  claimed queued failed skipped : OccurrenceStatus

pub record Occurrence : Type 0 where
  pub campaign_id : String
  pub claimed_by : String
  pub created_at : ℕ
  pub definition_id : String
  pub error_message : Option String
  pub id : String
  pub occurrence_key : String
  pub run_id : Option String
  pub scheduled_for : ℕ
  pub status : OccurrenceStatus
  pub updated_at : ℕ

pub record DefinitionState : Type 0 where
  pub definition_id : String
  pub last_run_at : Option ℕ
  pub next_run_at : Option ℕ

pub record RuntimeStatus : Type 0 where
  pub definitions_evaluated : ℕ
  pub definition_states : List DefinitionState
  pub heartbeat_at : Option ℕ
  pub jobs_queued : ℕ
  pub jobs_queued_today : ℕ
  pub last_error : Option String
  pub last_evaluation_at : Option ℕ
  pub running : Bool
  pub scheduler_id : Option String
  pub started_at : Option ℕ
  pub status_updated_at : ℕ

pub record Snapshot : Type 0 where
  pub occurrences : List Occurrence
  pub status : RuntimeStatus

pub record ClaimRequest : Type 0 where
  pub campaign_id : String
  pub claimed_by : String
  pub definition_id : String
  pub occurrence_key : String
  pub scheduled_for : ℕ

pub record ClaimAnswer : Type 0 where
  pub created : Bool
  pub occurrence : Occurrence

abbrev pub occurrence_claim_lease_ms : ℕ
occurrence_claim_lease_ms = 120000

abbrev pub empty_status : RuntimeStatus
empty_status = record {
  definitions_evaluated = 0;
  definition_states = [];
  heartbeat_at = none;
  jobs_queued = 0;
  jobs_queued_today = 0;
  last_error = none;
  last_evaluation_at = none;
  running = false;
  scheduler_id = none;
  started_at = none;
  status_updated_at = 0;
}

abbrev is_scheduler : String → RuntimeStatus → Bool
is_scheduler id s = elim s.scheduler_id [ none ↦ false | some own ↦ str_eq own id ]

unfoldable pub start_scheduler : (scheduler_id : String) → (at : ℕ) → Snapshot → Snapshot
start_scheduler scheduler_id at snapshot = record snapshot {
  status = record snapshot.status {
    running = true;
    scheduler_id = some scheduler_id;
    started_at = some at;
    heartbeat_at = some at;
    status_updated_at = at;
    last_error = none;
  };
}

-- Another scheduler's stop or heartbeat changes nothing.
unfoldable pub stop_scheduler : (scheduler_id : String) → (at : ℕ) → Snapshot → Snapshot
stop_scheduler scheduler_id at snapshot =
    if is_scheduler scheduler_id snapshot.status
    then record snapshot {
      status = record snapshot.status {
        running = false;
        heartbeat_at = some at;
        status_updated_at = at;
      };
    }
    else snapshot

unfoldable pub scheduler_heartbeat : (scheduler_id : String) → (at : ℕ) → Snapshot → Snapshot
scheduler_heartbeat scheduler_id at snapshot =
    if is_scheduler scheduler_id snapshot.status
    then record snapshot {
      status = record snapshot.status { heartbeat_at = some at; status_updated_at = at };
    }
    else snapshot

abbrev pub has_occurrence_key : String → Occurrence → Bool
has_occurrence_key key o = str_eq o.occurrence_key key

abbrev pub is_claimed_status : OccurrenceStatus → Bool
is_claimed_status claimed = true
is_claimed_status _ = false

-- `["queued", "skipped"].includes(status)`
abbrev pub is_settled : OccurrenceStatus → Bool
is_settled queued = true
is_settled skipped = true
is_settled _ = false

-- A settled occurrence, or one under a claim younger than the lease, is not given out.
abbrev pub is_taken : (now : ℕ) → Occurrence → Bool
is_taken now o =
    is_settled o.status
    || (is_claimed_status o.status && ltb (now - o.updated_at) occurrence_claim_lease_ms)

abbrev pub reclaimed : ClaimRequest → (now : ℕ) → Occurrence → Occurrence
reclaimed input now o = record o {
  claimed_by = input.claimed_by;
  error_message = none;
  status = claimed;
  updated_at = now;
}

abbrev pub new_occurrence : ClaimRequest → (now : ℕ) → (uuid : String) → Occurrence
new_occurrence input now uuid = record {
  campaign_id = input.campaign_id;
  claimed_by = input.claimed_by;
  created_at = now;
  definition_id = input.definition_id;
  error_message = none;
  id = uuid;
  occurrence_key = input.occurrence_key;
  run_id = none;
  scheduled_for = input.scheduled_for;
  status = claimed;
  updated_at = now;
}

claim_found :
    ClaimRequest
    → (now : ℕ) → (uuid : String) → List Occurrence
    → Option Occurrence
    → ClaimAnswer × List Occurrence
unfolding update_first
claim_found input now uuid os none =
    let occurrence = new_occurrence input now uuid in
    (record { created = true; occurrence = occurrence }, os ++ occurrence ∷ [])
claim_found input now uuid os (some existing) =
    if is_taken now existing then (record { created = false; occurrence = existing }, os) else (
      record { created = true; occurrence = reclaimed input now existing },
      update_first (has_occurrence_key input.occurrence_key) (reclaimed input now) os,
    )

-- The occurrences after a claim; the status of the snapshot stays.
unfoldable pub claim_occurrences :
    ClaimRequest → (now : ℕ) → (uuid : String) → List Occurrence → ClaimAnswer × List Occurrence
unfolding claim_found find
claim_occurrences input now uuid os =
    claim_found input now uuid os (find (has_occurrence_key input.occurrence_key) os)

unfoldable pub claim_occurrence :
    ClaimRequest → (now : ℕ) → (uuid : String) → Snapshot → ClaimAnswer × Snapshot
unfolding claim_occurrences
claim_occurrence input now uuid snapshot =
    let r = claim_occurrences input now uuid snapshot.occurrences in
    (r.0, record snapshot { occurrences = r.1 })

unfoldable pub get_occurrence : (occurrence_key : String) → Snapshot → Option Occurrence
unfolding find
get_occurrence occurrence_key snapshot =
    find (has_occurrence_key occurrence_key) snapshot.occurrences

update_found :
    (occurrence_key : String)
    → (Occurrence → Occurrence)
    → (now : ℕ) → Snapshot
    → Option Occurrence
    → Option Snapshot
unfolding update_first
update_found occurrence_key operation now snapshot none = none
update_found occurrence_key operation now snapshot (some o) = some (record snapshot {
  occurrences =
      update_first (has_occurrence_key occurrence_key)
        (λ o. record (operation o) { updated_at = now }) snapshot.occurrences;
})

-- `none` is the error that no occurrence has the key.
unfoldable pub update_occurrence :
    (occurrence_key : String) → (Occurrence → Occurrence) → (now : ℕ) → Snapshot → Option Snapshot
unfolding update_found find
update_occurrence occurrence_key operation now snapshot =
    update_found occurrence_key operation now snapshot
      (find (has_occurrence_key occurrence_key) snapshot.occurrences)

abbrev pub queued_occurrence : (run_id : String) → Occurrence → Occurrence
queued_occurrence run_id o = record o {
  error_message = none;
  run_id = some run_id;
  status = queued;
}

abbrev pub failed_occurrence : (error_message : String) → Occurrence → Occurrence
failed_occurrence error_message o = record o { error_message = some error_message; status = failed }

abbrev pub skipped_occurrence : (reason : String) → Occurrence → Occurrence
skipped_occurrence reason o = record o { error_message = some reason; status = skipped }

unfoldable pub mark_queued :
    (occurrence_key run_id : String) → (now : ℕ) → Snapshot → Option Snapshot
unfolding update_occurrence
mark_queued occurrence_key run_id = update_occurrence occurrence_key (queued_occurrence run_id)

unfoldable pub mark_failed :
    (occurrence_key error_message : String) → (now : ℕ) → Snapshot → Option Snapshot
unfolding update_occurrence
mark_failed occurrence_key error_message =
    update_occurrence occurrence_key (failed_occurrence error_message)

unfoldable pub mark_skipped :
    (occurrence_key reason : String) → (now : ℕ) → Snapshot → Option Snapshot
unfolding update_occurrence
mark_skipped occurrence_key reason = update_occurrence occurrence_key (skipped_occurrence reason)

pub record Evaluation : Type 0 where
  pub at : ℕ
  pub states : List DefinitionState
  pub evaluated : ℕ
  pub failure : Option String
  pub queued_now : ℕ
  pub by : String

unfoldable pub record_evaluation : Evaluation → Snapshot → Snapshot
record_evaluation e snapshot = record snapshot {
  status = record snapshot.status {
    definitions_evaluated = e.evaluated;
    definition_states = e.states;
    heartbeat_at = some e.at;
    jobs_queued = snapshot.status.jobs_queued + e.queued_now;
    last_error = e.failure;
    last_evaluation_at = some e.at;
    running = true;
    scheduler_id = some e.by;
    status_updated_at = e.at;
  };
}

abbrev pub is_queued_status : OccurrenceStatus → Bool
is_queued_status queued = true
is_queued_status _ = false

-- Midnight in universal time.
abbrev start_of_day : (now : ℕ) → ℕ
start_of_day now = now / 86400000 * 86400000

derive_runtime_status : RuntimeStatus → (stale_after_ms now : ℕ) → RuntimeStatus
derive_runtime_status s stale_after_ms now = record s {
  running = s.running && leb (now - or_else s.heartbeat_at 0) stale_after_ms;
}

unfoldable pub get_status : (stale_after_ms now : ℕ) → Snapshot → RuntimeStatus
unfolding derive_runtime_status filter
get_status stale_after_ms now snapshot =
    derive_runtime_status
      (record snapshot.status {
        jobs_queued_today = length (
            filter (λ o. is_queued_status o.status && leb (start_of_day now) o.created_at)
              snapshot.occurrences);
      })
      stale_after_ms now
