-- ===== src/Backoff/Tests.antt =====
-- The backoff on small inputs.
use web_app_qa_tests_main.Base.{min, max, [], ◌∷◌, ◌≡◌, refl}
use web_app_qa_tests_main.Backoff.{max_worker_idle_ms, create, reset, next_delay, delays}
use web_app_qa_tests_main.Backoff.Delays.{nths, delays-reset}

first_delays : (delays 4 (create 5000)).0 ≡ 5000 ∷ 10000 ∷ 20000 ∷ 30000 ∷ []
unfolding delays create
first_delays = refl

delays-reset_example :
    ((delays 4 (create 5000)).0 ≡ nths (min max_worker_idle_ms (max 1 5000)) 0 4)
    × ((delays 4 (reset (next_delay (create 5000)).1)).0
        ≡ nths (min max_worker_idle_ms (max 1 5000)) 0 4)
unfolding next_delay
delays-reset_example = delays-reset 5000 4 (next_delay (create 5000)).1 refl
