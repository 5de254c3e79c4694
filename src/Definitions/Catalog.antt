-- ===== src/Definitions/Catalog.antt =====
-- dashboard/lib/monitoring/catalog.ts: the definitions that exist by default.
use web_app_qa_tests_main.Base.{ℕ, true, false, none, some, List, [], ◌∷◌}
use web_app_qa_tests_main.Schedule.{
  manual, schedule, api, deployment, one_active_run, queue, skip, always, on_failure, critical_only,
  warning, info, medium, high, critical, daily, MonitoringSchedule, MonitoringDefinition,
}

abbrev catalog_timestamp : ℕ
catalog_timestamp = 1784592000000

abbrev pub daily_at : (hour minute : ℕ) → MonitoringSchedule
daily_at hour minute = record {
  day_of_week = none;
  frequency = daily;
  hour = some hour;
  minute = minute;
  timezone = "Europe/Dublin";
}

abbrev safe_regression_observation : MonitoringDefinition
safe_regression_observation = record {
  campaign_id = "test_inssa_safe";
  created_at = catalog_timestamp;
  enabled = true;
  environment = "staging";
  evidence_policy = always;
  id = "a94cd531-bb89-4eeb-a68e-c7f77f61d219";
  name = "INSSA Safe Regression Observation";
  notification_policy = warning;
  product = "INSSA";
  retry_policy = record { backoff_ms = 60000; max_attempts = 2 };
  run_policy = one_active_run;
  schedule_of = none;
  schedule_not_before = none;
  severity = medium;
  timeout = 600000;
  trigger_type = manual;
  updated_at = catalog_timestamp;
}

abbrev security_campaign_observation : MonitoringDefinition
security_campaign_observation = record {
  campaign_id = "test_inssa_campaign_security";
  created_at = catalog_timestamp;
  enabled = false;
  environment = "staging";
  evidence_policy = always;
  id = "cc5edfe2-5452-4437-a532-d14101fd1c2d";
  name = "INSSA Security Campaign Observation";
  notification_policy = critical_only;
  product = "INSSA";
  retry_policy = record { backoff_ms = 120000; max_attempts = 1 };
  run_policy = queue;
  schedule_of = none;
  schedule_not_before = none;
  severity = high;
  timeout = 900000;
  trigger_type = deployment;
  updated_at = catalog_timestamp;
}

abbrev security_verification_observation : MonitoringDefinition
security_verification_observation = record {
  campaign_id = "test_inssa_campaign_security_verify";
  created_at = catalog_timestamp;
  enabled = false;
  environment = "staging";
  evidence_policy = on_failure;
  id = "fc38c819-f4f8-478f-bc45-67c8c9be464a";
  name = "INSSA Security Verification Observation";
  notification_policy = info;
  product = "INSSA";
  retry_policy = record { backoff_ms = 60000; max_attempts = 2 };
  run_policy = skip;
  schedule_of = none;
  schedule_not_before = none;
  severity = medium;
  timeout = 600000;
  trigger_type = api;
  updated_at = catalog_timestamp;
}

abbrev pub daily_safe_regression : MonitoringDefinition
daily_safe_regression = record {
  campaign_id = "test_inssa_safe";
  created_at = catalog_timestamp;
  enabled = true;
  environment = "staging";
  evidence_policy = always;
  id = "17ab8e2e-f129-479c-a68e-c2087c1c52d0";
  name = "INSSA Daily Safe Regression";
  notification_policy = warning;
  product = "INSSA";
  retry_policy = record { backoff_ms = 60000; max_attempts = 2 };
  run_policy = one_active_run;
  schedule_of = some (daily_at 3 0);
  schedule_not_before = none;
  severity = medium;
  timeout = 600000;
  trigger_type = schedule;
  updated_at = catalog_timestamp;
}

abbrev pub authentication_monitoring_staging_midday : MonitoringDefinition
authentication_monitoring_staging_midday = record {
  campaign_id = "monitor_inssa_auth_staging";
  created_at = catalog_timestamp;
  enabled = true;
  environment = "staging";
  evidence_policy = always;
  id = "9e678cef-036a-46b9-a6ca-f25ad880e92a";
  name = "INSSA Authentication Monitoring - Staging Midday";
  notification_policy = critical_only;
  product = "INSSA";
  retry_policy = record { backoff_ms = 60000; max_attempts = 2 };
  run_policy = one_active_run;
  schedule_of = some (daily_at 12 0);
  schedule_not_before = none;
  severity = critical;
  timeout = 360000;
  trigger_type = schedule;
  updated_at = catalog_timestamp;
}

abbrev pub authentication_monitoring_staging_evening : MonitoringDefinition
authentication_monitoring_staging_evening = record {
  campaign_id = "monitor_inssa_auth_staging";
  created_at = catalog_timestamp;
  enabled = true;
  environment = "staging";
  evidence_policy = always;
  id = "3080f13e-022a-44a1-bbbb-b905468ca18a";
  name = "INSSA Authentication Monitoring - Staging Evening";
  notification_policy = critical_only;
  product = "INSSA";
  retry_policy = record { backoff_ms = 60000; max_attempts = 2 };
  run_policy = one_active_run;
  schedule_of = some (daily_at 18 0);
  schedule_not_before = none;
  severity = critical;
  timeout = 360000;
  trigger_type = schedule;
  updated_at = catalog_timestamp;
}

abbrev authentication_monitoring_production_midday : MonitoringDefinition
authentication_monitoring_production_midday = record {
  campaign_id = "monitor_inssa_auth_production";
  created_at = catalog_timestamp;
  enabled = false;
  environment = "production";
  evidence_policy = always;
  id = "ab90fa94-369f-4835-8942-465a50fd1dc6";
  name = "INSSA Authentication Monitoring - Production Midday";
  notification_policy = critical_only;
  product = "INSSA";
  retry_policy = record { backoff_ms = 60000; max_attempts = 2 };
  run_policy = one_active_run;
  schedule_of = some (daily_at 12 15);
  schedule_not_before = none;
  severity = critical;
  timeout = 360000;
  trigger_type = schedule;
  updated_at = catalog_timestamp;
}

abbrev authentication_monitoring_production_evening : MonitoringDefinition
authentication_monitoring_production_evening = record {
  campaign_id = "monitor_inssa_auth_production";
  created_at = catalog_timestamp;
  enabled = false;
  environment = "production";
  evidence_policy = always;
  id = "e663f90b-b4c8-42e8-b1c4-23403312fa49";
  name = "INSSA Authentication Monitoring - Production Evening";
  notification_policy = critical_only;
  product = "INSSA";
  retry_policy = record { backoff_ms = 60000; max_attempts = 2 };
  run_policy = one_active_run;
  schedule_of = some (daily_at 18 15);
  schedule_not_before = none;
  severity = critical;
  timeout = 360000;
  trigger_type = schedule;
  updated_at = catalog_timestamp;
}

abbrev pub default_monitoring_definitions : List MonitoringDefinition
default_monitoring_definitions =
    safe_regression_observation ∷ security_campaign_observation ∷ security_verification_observation
    ∷ daily_safe_regression ∷ authentication_monitoring_staging_midday
    ∷ authentication_monitoring_staging_evening ∷ authentication_monitoring_production_midday
    ∷ authentication_monitoring_production_evening ∷ []
