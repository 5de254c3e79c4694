-- ===== src/Backoff/Delays.antt =====
-- The sequence of delays of worker-idle-backoff.ts in closed form.
use native.Mathlib.Nat.{pow-suc}
use web_app_qa_tests_main.Base.{ℕ, zero, suc, ◌*◌, ◌^◌, min, max, List, [], ◌∷◌, ◌≡◌, refl, arith}
use web_app_qa_tests_main.Backoff.{max_worker_idle_ms, WorkerIdleBackoff, create, reset, delays}

-- The n-th delay doubles the initial one n times, up to the limit.
abbrev pub nth : ℕ → ℕ → ℕ
nth initial n = min max_worker_idle_ms (initial * 2 ^ n)

abbrev pub nths : ℕ → (from count : ℕ) → List ℕ
nths initial from zero = []
nths initial from (suc count) = nth initial from ∷ nths initial (suc from) count

nth-suc : (initial n : ℕ) → min max_worker_idle_ms (nth initial n * 2) ≡ nth initial (suc n)
nth-suc initial n = rw (pow-suc 2 n) (omega (arith, double (initial) (2 ^ n)))
  where
    double : (a b : ℕ) → a * (b * 2) ≡ a * b * 2
    double a b = omega arith

delays_from :
    (count from : ℕ) (b : WorkerIdleBackoff)
    → b.delay_ms ≡ nth b.initial_ms from
    → (delays count b).0 ≡ nths b.initial_ms from count
unfolding delays
delays_from zero from b h = refl
delays_from (suc count) from b h = cc (
  h,
  delays_from count (suc from) (record b { delay_ms = min max_worker_idle_ms (b.delay_ms * 2) })
      (rw h (nth-suc b.initial_ms from)),
)

-- After `create`, and again after every `reset`, the delays of empty polls start at the initial
-- delay, which is between 1 and 30000 ms, double with each poll and stay at 30000 ms from there
-- on.
pub delays-reset :
    (initial count : ℕ) (b : WorkerIdleBackoff)
    → b.initial_ms ≡ (create initial).initial_ms
    → ((delays count (create initial)).0 ≡ nths (min max_worker_idle_ms (max 1 initial)) 0 count)
      × ((delays count (reset b)).0 ≡ nths (min max_worker_idle_ms (max 1 initial)) 0 count)
unfolding create reset
delays-reset initial count b h = (
  delays_from count 0
      (record {
        delay_ms = min max_worker_idle_ms (max 1 initial);
        initial_ms = min max_worker_idle_ms (max 1 initial);
      })
      (omega arith),
  rw (← h) (delays_from count 0 (record b { delay_ms = b.initial_ms }) (omega (arith, h))),
)
