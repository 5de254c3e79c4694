-- ===== src/Heartbeat/Tests.antt =====
-- Runs of the heartbeat, and its theorems at inputs that meet their conditions.
use web_app_qa_tests_main.Base.{◌+◌, ◌*◌, ◌<◌, true, false, some, [], ◌∷◌, ◌≡◌, refl, arith}
use web_app_qa_tests_main.Heartbeat.{
  Options, validate_contract, Heartbeat, written, refused, start, fires, finishes, run,
}
use web_app_qa_tests_main.Heartbeat.Contract.{failing_beats, IsWaiting, fatal_before_expiry}
use web_app_qa_tests_main.Heartbeat.Failures.{IsCounted, run-start-IsCounted}

lease_timer : Unit {0}
unfolding validate_contract start run
lease_timer = tt

abbrev options : Options
options = record { failure_limit = 3; heartbeat_ms = 1000; lease_ms = 4000 }

abbrev begun : Heartbeat
begun = record {
  consecutive_failures = 0;
  in_flight = false;
  stopped = false;
  timer = some 1000;
  next_expected_at = 1000;
  unhandled = false;
}

begins : start options 0 0 ≡ begun
unfolding lease_timer
begins = refl

-- A renewal between failures starts the count again.
renewed_count :
    (run options begun (
      fires 1000 1000
      ∷ finishes 1000 1000 (refused false true)
      ∷ fires 2000 2000
      ∷ finishes 2000 2000 written
      ∷ fires 3000 3000
      ∷ finishes 3000 3000 (refused false true)
      ∷ [])).consecutive_failures
    ≡ 1
unfolding lease_timer
renewed_count = refl

begun-IsWaiting : IsWaiting begun 1000 0
begun-IsWaiting = record {
  live = refl;
  idle = refl;
  set = refl;
  planned = refl;
  failed = refl;
  alive = refl;
}

fatal_before_expiry_example :
    ((run options begun (failing_beats options 3 1000)).stopped ≡ true) × (0 + 1000 * 3 < 0 + 4000)
unfolding lease_timer
fatal_before_expiry_example = fatal_before_expiry options begun 0 refl begun-IsWaiting

run-start-IsCounted_example : IsCounted options (
    run options (start options 0 0) (fires 1000 1000 ∷ finishes 1000 1000 (refused true true) ∷ []))
run-start-IsCounted_example =
    run-start-IsCounted options 0 0 (fires 1000 1000 ∷ finishes 1000 1000 (refused true true) ∷ [])
      (omega arith) (tt, (refl, tt))

-- An ownership error whose report is rejected ends the process, and stops no timer before.
lost_report : Heartbeat
unfolding lease_timer
lost_report = run options begun (fires 1000 1000 ∷ finishes 1000 1000 (refused true false) ∷ [])

report_lost :
    (lost_report.unhandled ≡ true) × (lost_report.stopped ≡ false) × (lost_report.timer ≡ some 2000)
unfolding lost_report lease_timer
report_lost = (refl, refl, refl)
