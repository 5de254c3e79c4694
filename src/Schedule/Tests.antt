-- ===== src/Schedule/Tests.antt =====
-- Schedules in universal time, evaluated on small inputs.
use web_app_qa_tests_main.Base.{none, some, ◌≡◌, refl, arith}
use web_app_qa_tests_main.Schedule.{daily, MonitoringDefinition}
use web_app_qa_tests_main.Schedule.Evaluate.{
  ok, err, invalid_hour, maximum_scan, local_occurrence_key, evaluate_schedule,
  get_next_scheduled_run,
}
use web_app_qa_tests_main.Schedule.Examples.{utc, at_half_past, sign_in_check, half_past_one}
use web_app_qa_tests_main.Schedule.Next.{IsNextRun, get_next_scheduled_run_iff}
use web_app_qa_tests_main.Schedule.Windows.{evaluate_schedule_iff, evaluate_schedule_stable, IsDue}

due_at_two : evaluate_schedule utc sign_in_check 7200123 ≡ ok (some half_past_one)
unfolding evaluate_schedule local_occurrence_key
due_at_two = refl

abbrev no_hour : MonitoringDefinition
no_hour = record sign_in_check { schedule_of = some (record at_half_past { frequency = daily }) }

no_hour_test : evaluate_schedule utc no_hour 7200123 ≡ err (invalid_hour none)
unfolding evaluate_schedule
no_hour_test = refl

next_after_two : get_next_scheduled_run utc sign_in_check 7200123 ≡ ok (some 9000000)
unfolding get_next_scheduled_run
next_after_two = refl

evaluate_schedule_iff_example : IsDue utc sign_in_check 7200123 half_past_one
evaluate_schedule_iff_example =
    (evaluate_schedule_iff utc sign_in_check 7200123 half_past_one).0 due_at_two

evaluate_schedule_stable_example :
    evaluate_schedule utc sign_in_check 8999999 ≡ ok (some half_past_one)
unfolding maximum_scan
evaluate_schedule_stable_example =
    evaluate_schedule_stable utc sign_in_check 7200123 8999999 half_past_one at_half_past refl
      due_at_two (omega arith) (omega arith) (omega arith)

get_next_scheduled_run_iff_example : IsNextRun utc sign_in_check 7200123 9000000
get_next_scheduled_run_iff_example =
    (get_next_scheduled_run_iff utc sign_in_check 7200123 9000000).0 next_after_two
