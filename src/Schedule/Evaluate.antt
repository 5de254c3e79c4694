-- ===== src/Schedule/Evaluate.antt =====
-- The functions of dashboard/lib/monitoring/schedule-evaluator.ts.
use web_app_qa_tests_main.Base.{
  ℕ, zero, suc, ◌+◌, ◌-◌, ◌*◌, ◌/◌, String, ◌<>◌, show, pad, Bool, true, false, ◌&&◌, ◌||◌, not,
  Option, none, some, ltb, leb, ◌==◌, if◌then◌else◌,
}
use web_app_qa_tests_main.Schedule.{
  TriggerType, schedule, Frequency, hourly, daily, weekly, MonitoringSchedule, MonitoringDefinition,
  ScheduleWindow, Zones,
}

pub data ScheduleError : Type 0 where
  unsupported_timezone : (timezone : String) → ScheduleError
  invalid_minute : (minute : ℕ) → ScheduleError
  invalid_hour invalid_day_of_week : (value : Option ℕ) → ScheduleError

pub data Checked {ℓ} (A : Type ℓ) : Type ℓ where
  ok : A → Checked A
  err : ScheduleError → Checked A

abbrev pub is_schedule : TriggerType → Bool
is_schedule schedule = true
is_schedule _ = false

abbrev pub is_hourly : Frequency → Bool
is_hourly hourly = true
is_hourly _ = false

abbrev is_daily : Frequency → Bool
is_daily daily = true
is_daily _ = false

abbrev pub is_weekly : Frequency → Bool
is_weekly weekly = true
is_weekly _ = false

-- An absent number is no integer.
abbrev pub outside : Option ℕ → (most : ℕ) → Bool
outside none most = true
outside (some n) most = ltb most n

-- An absent number equals none.
abbrev is_number : Option ℕ → ℕ → Bool
is_number none n = false
is_number (some m) n = m == n

abbrev pub minute_ms : ℕ
minute_ms = 60000

-- How many minutes are scanned: eight days, 25 hours, or 61 minutes.
unfoldable pub maximum_scan : Frequency → ℕ
maximum_scan weekly = 11520
maximum_scan daily = 1500
maximum_scan hourly = 61

module _ (z : Zones) where
  -- `none` is a return without an error.
  unfoldable pub validate_schedule : MonitoringSchedule → Option ScheduleError
  validate_schedule s =
      if not (z.known s.timezone)
      then some (unsupported_timezone s.timezone)
      else if ltb 59 s.minute
      then some (invalid_minute s.minute)
      else if not (is_hourly s.frequency) && outside s.hour 23
      then some (invalid_hour s.hour)
      else if is_weekly s.frequency && outside s.day_of_week 6
      then some (invalid_day_of_week s.day_of_week)
      else none

  unfoldable pub matches_schedule : (candidate : ℕ) → MonitoringSchedule → Bool
  matches_schedule candidate s =
      let parts = z.local_parts candidate s.timezone in
      if not (parts.minute == s.minute)
      then false
      else if is_hourly s.frequency
      then true
      else if not (is_number s.hour parts.hour)
      then false
      else is_daily s.frequency || is_number s.day_of_week parts.day_of_week

  -- `rounds` offsets from `offset` on; a step forward adds minutes, a step back takes them off.
  unfoldable pub scan_from :
      (forward : Bool) → (start : ℕ) → MonitoringSchedule → (rounds offset : ℕ) → Option ℕ
  unfolding matches_schedule
  scan_from forward start s zero offset = none
  scan_from forward start s (suc rounds) offset =
      let candidate = if forward then start + offset * minute_ms else start - offset * minute_ms in
      let rest = scan_from forward start s rounds (offset + 1) in
      if matches_schedule candidate s then some candidate else rest

  unfoldable pub scan_for_match :
      (start : ℕ)
      → MonitoringSchedule
      → (forward : Bool) → (maximum_minutes : ℕ) → (include_start : Bool) → Option ℕ
  unfolding scan_from
  scan_for_match start s forward maximum_minutes include_start =
      if include_start
      then scan_from forward start s (maximum_minutes + 1) 0
      else scan_from forward start s maximum_minutes 1

  unfoldable pub local_occurrence_key : (date : ℕ) → (timezone : String) → String
  unfolding show pad
  local_occurrence_key date timezone =
      let parts = z.local_parts date timezone in
      show parts.year
      <> "-"
      <> pad parts.month
      <> "-"
      <> pad parts.day
      <> "T"
      <> pad parts.hour
      <> ":"
      <> pad parts.minute
      <> "["
      <> timezone
      <> "]"

  abbrev pub current_minute : (now : ℕ) → ℕ
  current_minute now = now / minute_ms * minute_ms

  -- `scheduleNotBefore` holds the occurrence back, also when it is no date.
  abbrev pub held_back : Option (Option ℕ) → (scheduled : ℕ) → Bool
  held_back none scheduled = false
  held_back (some none) scheduled = true
  held_back (some (some at)) scheduled = leb scheduled at

  abbrev pub window :
      MonitoringDefinition → MonitoringSchedule → Option ℕ → Option ℕ → Option ScheduleWindow
  window d s none next = none
  window d s (some scheduled) none = none
  window d s (some scheduled) (some next) =
      if ltb scheduled d.created_at || held_back d.schedule_not_before scheduled
      then none
      else some (record {
        next_run_at = next;
        occurrence_key = d.id <> ":" <> local_occurrence_key scheduled s.timezone;
        scheduled_for = scheduled;
      })

  unfoldable pub evaluate_valid :
      MonitoringDefinition
      → MonitoringSchedule
      → (now : ℕ) → Option ScheduleError
      → Checked (Option ScheduleWindow)
  unfolding scan_for_match maximum_scan
  evaluate_valid d s now (some e) = err e
  evaluate_valid d s now none =
      let maximum = maximum_scan s.frequency in
      ok (
        window d s (scan_for_match (current_minute now) s false maximum true)
          (scan_for_match (current_minute now) s true maximum false))

  -- Only an enabled definition that a schedule triggers is evaluated.
  abbrev pub evaluated : MonitoringDefinition → Option MonitoringSchedule
  evaluated d = if d.enabled && is_schedule d.trigger_type then d.schedule_of else none

  unfoldable pub evaluate_found :
      MonitoringDefinition → (now : ℕ) → Option MonitoringSchedule → Checked (Option ScheduleWindow)
  unfolding evaluate_valid validate_schedule
  evaluate_found d now none = ok none
  evaluate_found d now (some s) = evaluate_valid d s now (validate_schedule s)

  unfoldable pub evaluate_schedule :
      MonitoringDefinition → (now : ℕ) → Checked (Option ScheduleWindow)
  unfolding evaluate_found
  evaluate_schedule d now = evaluate_found d now (evaluated d)

  next_valid : MonitoringSchedule → (now : ℕ) → Option ScheduleError → Checked (Option ℕ)
  unfolding scan_for_match maximum_scan
  next_valid s now (some e) = err e
  next_valid s now none =
      ok (scan_for_match (current_minute now) s true (maximum_scan s.frequency) false)

  next_found : (now : ℕ) → Option MonitoringSchedule → Checked (Option ℕ)
  unfolding next_valid validate_schedule
  next_found now none = ok none
  next_found now (some s) = next_valid s now (validate_schedule s)

  unfoldable pub get_next_scheduled_run : MonitoringDefinition → (now : ℕ) → Checked (Option ℕ)
  unfolding next_found
  get_next_scheduled_run d now = next_found now (evaluated d)
