-- ===== src/Schedule/Examples.antt =====
-- A schedule in universal time, for the tests.
use web_app_qa_tests_main.Base.{◌/◌, ◌%◌, ◌+◌, str_eq, true, none, some}
use web_app_qa_tests_main.Schedule.{
  schedule, skip, on_failure, silent, medium, hourly, MonitoringSchedule, MonitoringDefinition,
  ScheduleWindow, Zones,
}

-- The date is left at the epoch's: only the time of day counts here.
abbrev pub utc : Zones
utc = record {
  known = λ timezone. str_eq timezone "UTC";
  local_parts = λ at timezone. record {
    day = 1;
    day_of_week = (at / 86400000 + 4) % 7;
    hour = at / 3600000 % 24;
    minute = at / 60000 % 60;
    month = 1;
    year = 1970;
  };
}

abbrev pub at_half_past : MonitoringSchedule
at_half_past = record {
  day_of_week = none;
  frequency = hourly;
  hour = none;
  minute = 30;
  timezone = "UTC";
}

abbrev pub sign_in_check : MonitoringDefinition
sign_in_check = record {
  campaign_id = "sign-in";
  created_at = 0;
  enabled = true;
  environment = "production";
  evidence_policy = on_failure;
  id = "monitor-1";
  name = "Sign-in";
  notification_policy = silent;
  product = "inssa";
  retry_policy = record { backoff_ms = 0; max_attempts = 1 };
  run_policy = skip;
  schedule_of = some at_half_past;
  schedule_not_before = none;
  severity = medium;
  timeout = 60000;
  trigger_type = schedule;
  updated_at = 0;
}

abbrev pub half_past_one : ScheduleWindow
half_past_one = record {
  next_run_at = 9000000;
  occurrence_key = "monitor-1:1970-01-01T01:30[UTC]";
  scheduled_for = 5400000;
}
