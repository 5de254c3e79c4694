-- ===== src/Retention/Tests.antt =====
-- The retention of one bundle, and its deletion.
use web_app_qa_tests_main.Base.{
  ℕ, ◌+◌, ◌*◌, String, Bool, true, false, none, some, [], ◌∷◌, ◌≡◌, refl, arith, Answer, Done, done,
  answered,
}
use web_app_qa_tests_main.Reconcile.{run_passed}
use web_app_qa_tests_main.Evidence.{date}
use web_app_qa_tests_main.Evidence.Samples.{report, bundle}
use web_app_qa_tests_main.Evidence.Integrity.{is_sha256, checksum_of}
use web_app_qa_tests_main.Evidence.Location.{is_bucket}
use web_app_qa_tests_main.Retention.{
  RetentionPolicy, RetentionObject, CommandSnapshot, RetentionRun, RetentionSnapshot, eligible,
}
use web_app_qa_tests_main.Retention.Checks.{Services}
use web_app_qa_tests_main.Retention.Protect.{names_security}
use web_app_qa_tests_main.Retention.Plan.{decide, plan_at}
use web_app_qa_tests_main.Retention.Eligible.{IsDeletable, eligible-IsDeletable}
use web_app_qa_tests_main.Retention.Account.{Accounts, plan_at-Accounts}
use web_app_qa_tests_main.Retention.Executor.{ExecutorIo, ExecState, bundle_limit, no_options}
use web_app_qa_tests_main.Retention.Execute.{rounds, started}
use web_app_qa_tests_main.Retention.Ends.{rounds_end}

abbrev command : CommandSnapshot
command = record {
  key = "safe_regression";
  npm_script = "test:safe";
  risk_level = "safe";
  mutates_staging = false;
  cleanup_required = false;
  requires_secondary_account = false;
}

abbrev passed_run : RetentionRun
passed_run = record {
  id = "run";
  campaign_key = "safe_regression";
  status = run_passed;
  created_at = date 86400000;
  completed_at = date 86400000;
  command = some command;
  manifest = none;
}

abbrev stored_object : RetentionObject
stored_object = record {
  provider = some "spaces";
  bucket = some "evidence";
  etag = none;
  sha256 = none;
  id = "object";
  name = "inssa/run/report.json";
  size_bytes = some 12;
  created_at = date 86400000;
  updated_at = date 86400000;
}

abbrev policy : RetentionPolicy
policy = record {
  id = "evidence-retention-v3";
  mode = "enforced";
  effective_at = date 0;
  routine_days = 30;
  warning_days = some 60;
  failure_days = 90;
  security_days = 90;
  post_cleanup_days = 30;
}

abbrev pub snapshot_of_reports : RetentionSnapshot
snapshot_of_reports = record {
  migrations = [];
  revision = "r-1";
  consistent = true;
  policies = policy ∷ [];
  holds = [];
  runs = passed_run ∷ [];
  bundles = bundle ∷ [];
  items = report ∷ [];
  cleanup = [];
  objects = stored_object ∷ [];
  deletions = [];
}

abbrev pub services : Services
services = record {
  signature = λ b items. "digest";
  normalize = λ t. t;
  is_absolute = λ t. false;
  phase1_command = λ key. some command;
  is_monitoring = λ key. false;
  parse_summary = λ v. none;
}

-- After 40 days the routine evidence is free, after 20 it is not.
abbrev pub after_days : ℕ → ℕ
after_days n = 86400000 + n * 86400000

released :
    (decide services (after_days 40) 30 60 snapshot_of_reports bundle).eligibility_reason ≡ eligible
unfolding decide names_security is_bucket is_sha256 checksum_of
released = refl

eligible-IsDeletable_example : IsDeletable services (after_days 40) 30 60 snapshot_of_reports bundle
eligible-IsDeletable_example =
    eligible-IsDeletable services (after_days 40) 30 60 snapshot_of_reports bundle released

abbrev accepts_all : ℕ → Answer Done × ℕ
accepts_all w = (answered done, w + 1)

-- A world that counts its calls, and in which every call succeeds.
abbrev io : ExecutorIo ℕ
io = record {
  assert_owned = accepts_all;
  snapshot = λ w. (answered snapshot_of_reports, w + 1);
  now = λ w. date (after_days 40);
  reserve = λ r w. (answered (record { status = "RESERVED"; remaining = some r.objects }), w + 1);
  remove = λ keys l. accepts_all;
  verify_absent = λ keys l. accepts_all;
  settle = λ id success error. accepts_all;
  is_lost = λ w. false;
  claim = λ w. (answered "RUNNING", w + 1);
  finish = λ error protected_count review_count. accepts_all;
}

abbrev pub in_order : String → String → Bool
in_order a b = true

abbrev first_state : ExecState ℕ
first_state = started services in_order io none 0

rounds_end_example :
    (r : Answer Done) × ((rounds services in_order io none (bundle_limit + 1) first_state).0
      ≡ some r)
rounds_end_example =
    rounds_end services in_order none io (bundle_limit + 1) first_state (omega arith) (omega arith)

plan_at-Accounts_example :
    Accounts snapshot_of_reports
      (plan_at services in_order no_options (after_days 40) snapshot_of_reports)
plan_at-Accounts_example =
    plan_at-Accounts services in_order no_options (after_days 40) snapshot_of_reports
