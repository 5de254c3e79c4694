-- ===== src/Scheduler/Round.antt =====
-- `evaluateSchedulerOnce` of dashboard/lib/monitoring/scheduler.ts, for the definitions that its
-- cache holds. The definition store, `JSON.stringify` and the enqueuing of a run are parameters,
-- and a run that `enqueue` starts is noted by the key of its occurrence.
use web_app_qa_tests_main.Base.{
  ℕ, ◌+◌, String, str_eq, ◌<>◌, Bool, true, false, ◌&&◌, ◌||◌, Option, none, some, List, [], ◌∷◌,
  ◌++◌, show, if◌then◌else◌,
}
use web_app_qa_tests_main.Schedule.{RunPolicy, skip, MonitoringDefinition, ScheduleWindow, Zones}
use web_app_qa_tests_main.Schedule.Evaluate.{
  ScheduleError, unsupported_timezone, invalid_minute, invalid_hour, invalid_day_of_week, Checked,
  ok, err, is_schedule, evaluate_schedule, get_next_scheduled_run,
}
use web_app_qa_tests_main.Scheduler.{
  DefinitionState, Snapshot, ClaimAnswer, is_settled, is_queued_status, claim_occurrence,
  mark_queued, mark_failed, mark_skipped,
}

pub data JobResult : Type 0 where
  run_queued : (run_id : String) → JobResult
  run_deferred : (reason : String) → JobResult
  run_failed : (reason : String) → JobResult
  run_threw : (message : String) → JobResult

pub record Terminal : Type 0 where
  pub key : String
  pub last_run_at : Option ℕ

-- `jobs_started` notes the occurrences that `enqueue` was called for.
pub record Pass : Type 0 where
  pub cache_valid : Bool
  pub terminal : List (String × Terminal)
  pub snapshot : Snapshot
  pub states : List DefinitionState
  pub errors : List String
  pub jobs_queued : ℕ
  pub jobs_started : List String

-- What is read of the clock, and the identifier drawn, while one definition is evaluated.
pub record Draw : Type 0 where
  pub claim_at : ℕ
  pub mark_at : ℕ
  pub uuid : String

-- The end of the `try` block, or the message of what it threw.
pub data Attempt : Type 0 where
  finished : Pass → Attempt
  threw : (message : String) → Pass → Attempt

-- `String(value)`
abbrev number_text : Option ℕ → String
number_text none = "undefined"
number_text (some n) = show n

abbrev message_of : ScheduleError → String
message_of (unsupported_timezone timezone) = "Unsupported monitoring timezone: " <> timezone
message_of (invalid_minute minute) = "Invalid monitoring schedule minute: " <> show minute
message_of (invalid_hour hour) = "Invalid monitoring schedule hour: " <> number_text hour
message_of (invalid_day_of_week day) = "Invalid monitoring schedule dayOfWeek: " <> number_text day

abbrev pub is_skip : RunPolicy → Bool
is_skip skip = true
is_skip _ = false

-- The last entry of a definition counts, as in a `Map` built from pairs.
abbrev previous_run : (id : String) → List DefinitionState → Option ℕ
previous_run id [] = none
previous_run id (x ∷ xs) = or_found (present id xs) (previous_run id xs) x
  where
    present : String → List DefinitionState → Bool
    present id [] = false
    present id (y ∷ ys) = str_eq y.definition_id id || present id ys

    or_found : Bool → Option ℕ → DefinitionState → Option ℕ
    or_found true later x = later
    or_found false later x = if str_eq x.definition_id id then x.last_run_at else none

abbrev pub get_terminal : (id : String) → List (String × Terminal) → Option Terminal
get_terminal id [] = none
get_terminal id ((other, t) ∷ rest) = if str_eq other id then some t else get_terminal id rest

abbrev set_terminal : (id : String) → Terminal → List (String × Terminal) → List (String × Terminal)
set_terminal id t [] = (id, t) ∷ []
set_terminal id t ((other, u) ∷ rest) =
    if str_eq other id then (id, t) ∷ rest else (other, u) ∷ set_terminal id t rest

abbrev pub push_state : (id : String) → (last next : Option ℕ) → Pass → Pass
push_state id last next p = record p {
  states = p.states ++ record { definition_id = id; last_run_at = last; next_run_at = next } ∷ [];
}

-- The update that a mark stores, or the error it throws.
abbrev pub stored_mark : (key : String) → Option Snapshot → (Pass → Attempt) → Pass → Attempt
stored_mark key none after p = threw ("Scheduled occurrence not found: " <> key) p
stored_mark key (some s) after p = after (record p { snapshot = s })

-- The outcome of an occurrence that was claimed or found.
abbrev pub settle :
    MonitoringDefinition → ScheduleWindow → (terminal : Bool) → (last : Option ℕ) → Pass → Attempt
settle d w terminal last p =
    let noted =
      if terminal
      then record p {
        terminal =
            set_terminal d.id (record { key = w.occurrence_key; last_run_at = last }) p.terminal;
      }
      else p in
    finished (push_state d.id last (some w.next_run_at) noted)

abbrev pub same_window : Option ScheduleWindow → ScheduleWindow → Bool
same_window none w = false
same_window (some v) w = str_eq v.occurrence_key w.occurrence_key

-- The definition changed since it was cached: the cache is dropped and the claim given up.
abbrev pub refuse : ScheduleWindow → (mark_at : ℕ) → Pass → Attempt
refuse w mark_at p =
    stored_mark w.occurrence_key
      (mark_failed w.occurrence_key "Monitoring configuration changed; refresh before enqueue."
        mark_at p.snapshot)
      finished (record p { cache_valid = false })

abbrev pub note_start : ScheduleWindow → Pass → Pass
note_start w p = record p { jobs_started = p.jobs_started ++ w.occurrence_key ∷ [] }

abbrev pub is_key : ScheduleWindow → Option Terminal → Bool
is_key w none = false
is_key w (some t) = str_eq t.key w.occurrence_key

abbrev terminal_run : Option Terminal → Option ℕ
terminal_run none = none
terminal_run (some t) = t.last_run_at

abbrev pub caught : MonitoringDefinition → Attempt → Pass
caught d (finished p) = p
caught d (threw message p) = record p { errors = p.errors ++ (d.id <> ": " <> message) ∷ [] }

-- The window of the reloaded definition, if that is enabled and on a schedule.
abbrev pub fresh_window : Zones → (at : ℕ) → MonitoringDefinition → Checked (Option ScheduleWindow)
fresh_window z at f =
    if f.enabled && is_schedule f.trigger_type then evaluate_schedule z f at else ok none

module _ (z : Zones) (get : String → Option MonitoringDefinition)
    (stringify : MonitoringDefinition → String)
    (enqueue : MonitoringDefinition → (occurrence_key : String) → JobResult) (at : ℕ)
    (scheduler_id : String) (previous : List DefinitionState) where
  abbrev known_run : MonitoringDefinition → Option ℕ
  known_run d = previous_run d.id previous

  abbrev pub enqueued :
      MonitoringDefinition → ScheduleWindow → (mark_at : ℕ) → JobResult → Pass → Attempt
  enqueued d w mark_at (run_queued run_id) p =
      stored_mark w.occurrence_key (mark_queued w.occurrence_key run_id mark_at p.snapshot)
        (λ q. settle d w true (some w.scheduled_for) (record q { jobs_queued = q.jobs_queued + 1 }))
        p
  enqueued d w mark_at (run_deferred reason) p =
      if is_skip d.run_policy
      then stored_mark w.occurrence_key (mark_skipped w.occurrence_key reason mark_at p.snapshot)
          (λ q. settle d w true (known_run d) q) p
      else settle d w false (known_run d) p
  enqueued d w mark_at (run_failed reason) p =
      stored_mark w.occurrence_key (mark_failed w.occurrence_key reason mark_at p.snapshot)
        (λ q.
          settle d w false (known_run d)
            (record q { errors = q.errors ++ (d.id <> ": " <> reason) ∷ [] }))
        p
  enqueued d w mark_at (run_threw message) p = threw message p

  abbrev pub authorised :
      MonitoringDefinition
      → ScheduleWindow
      → (mark_at : ℕ) → (fresh : MonitoringDefinition) → Checked (Option ScheduleWindow)
      → Pass
      → Attempt
  authorised d w mark_at fresh (err e) p = threw (message_of e) p
  authorised d w mark_at fresh (ok v) p =
      if str_eq (stringify fresh) (stringify d) && same_window v w
      then enqueued d w mark_at (enqueue fresh w.occurrence_key) (note_start w p)
      else refuse w mark_at p

  -- A cached definition never authorises a run: it is loaded again.
  abbrev pub claimed_new :
      MonitoringDefinition
      → ScheduleWindow
      → (mark_at : ℕ) → Option MonitoringDefinition
      → Pass
      → Attempt
  claimed_new d w mark_at none p = refuse w mark_at p
  claimed_new d w mark_at (some fresh) p = authorised d w mark_at fresh (fresh_window z at fresh) p

  abbrev pub claim_answered :
      MonitoringDefinition → ScheduleWindow → Draw → ClaimAnswer → Pass → Attempt
  claim_answered d w t r p =
      if r.created
      then claimed_new d w t.mark_at (get d.id) p
      else settle d w (is_settled r.occurrence.status)
          (if is_queued_status r.occurrence.status
            then some r.occurrence.scheduled_for
            else known_run d)
          p

  abbrev pub window_found :
      MonitoringDefinition → Draw → (terminal : Option Terminal) → ScheduleWindow → Pass → Attempt
  window_found d t terminal w p =
      let claim =
        claim_occurrence
          (record {
            campaign_id = d.campaign_id;
            claimed_by = scheduler_id;
            definition_id = d.id;
            occurrence_key = w.occurrence_key;
            scheduled_for = w.scheduled_for;
          })
          t.claim_at t.uuid p.snapshot in
      if is_key w terminal
      then finished (push_state d.id (terminal_run terminal) (some w.next_run_at) p)
      else claim_answered d w t claim.0 (record p { snapshot = claim.1 })

  abbrev pub no_window : MonitoringDefinition → Checked (Option ℕ) → Pass → Attempt
  no_window d (err e) p = threw (message_of e) p
  no_window d (ok next) p = finished (push_state d.id (known_run d) next p)

  abbrev pub evaluated_window :
      MonitoringDefinition → Draw → Checked (Option ScheduleWindow) → Pass → Attempt
  evaluated_window d t (err e) p = threw (message_of e) p
  evaluated_window d t (ok none) p = no_window d (get_next_scheduled_run z d at) p
  evaluated_window d t (ok (some w)) p = window_found d t (get_terminal d.id p.terminal) w p

  unfoldable pub evaluate_definition : MonitoringDefinition → Draw → Pass → Pass
  unfolding evaluate_schedule get_next_scheduled_run claim_occurrence mark_queued mark_failed
      mark_skipped
  evaluate_definition d t p = caught d (evaluated_window d t (evaluate_schedule z d at) p)

  -- `draws` gives each position its readings.
  unfoldable pub evaluate_definitions :
      (draws : ℕ → Draw) → (position : ℕ) → List MonitoringDefinition → Pass → Pass
  unfolding evaluate_definition
  evaluate_definitions draws position [] p = p
  evaluate_definitions draws position (d ∷ rest) p =
      evaluate_definitions draws (position + 1) rest (evaluate_definition d (draws position) p)
