-- ===== src/Backoff.antt =====
-- dashboard/lib/inssa-ops/worker-idle-backoff.ts: the delays between empty polls of the queue.
pub mod Delays
mod Tests
use web_app_qa_tests_main.Base.{ℕ, zero, suc, ◌*◌, min, max, List, [], ◌∷◌}

abbrev pub max_worker_idle_ms : ℕ
max_worker_idle_ms = 30000

pub record WorkerIdleBackoff : Type 0 where
  pub delay_ms : ℕ
  pub initial_ms : ℕ

unfoldable pub create : ℕ → WorkerIdleBackoff
create initial_ms =
    let initial = min max_worker_idle_ms (max 1 initial_ms) in
    record { delay_ms = initial; initial_ms = initial }

unfoldable pub reset : WorkerIdleBackoff → WorkerIdleBackoff
reset b = record b { delay_ms = b.initial_ms }

unfoldable pub next_delay : WorkerIdleBackoff → ℕ × WorkerIdleBackoff
next_delay b = (b.delay_ms, record b { delay_ms = min max_worker_idle_ms (b.delay_ms * 2) })

-- The delays of `n` empty polls in a row, and the state after them.
unfoldable pub delays : ℕ → WorkerIdleBackoff → List ℕ × WorkerIdleBackoff
unfolding next_delay
delays zero b = ([], b)
delays (suc n) b =
    let (delay, b') = next_delay b in let (later, b'') = delays n b' in (delay ∷ later, b'')
