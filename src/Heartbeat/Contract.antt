-- ===== src/Heartbeat/Contract.antt =====
-- The contract of execution-lease.ts, and what it buys: a worker that cannot renew its lease learns
-- so before the lease runs out.
use web_app_qa_tests_main.Base.{
  ℕ, zero, suc, ◌+◌, ◌-◌, ◌*◌, ◌≤◌, ◌<◌, true, false, none, some, List, [], ◌∷◌, ◌≡◌, sym, subst,
  ◌↔◌, arith,
}
use web_app_qa_tests_main.Heartbeat.{
  Options, validate_contract, Heartbeat, refused, Event, fires, finishes, step, run,
}

-- What the contract asks for.
pub record IsSound (o : Options) : Type 0 where
  pub limit_positive : 0 < o.failure_limit
  pub interval_long : 1000 ≤ o.heartbeat_ms
  pub lease_longer : o.heartbeat_ms < o.lease_ms
  pub fatal_in_time : o.heartbeat_ms * o.failure_limit < o.lease_ms

-- The options are accepted exactly if the failure limit is positive, the interval is at least a
-- second and shorter than the lease, and as many intervals as the failure limit fit before the
-- lease runs out.
pub validate_contract_iff : (o : Options) → (validate_contract o ≡ none) ↔ IsSound o
unfolding validate_contract
validate_contract_iff o = (λ h. ground arith, λ s. ground arith)

-- `n` failing beats in a row, each on time: the timer fires when it is due, and the beat fails at
-- that instant with no ownership error.
abbrev pub failing_beats : Options → ℕ → (due : ℕ) → List Event
failing_beats o zero due = []
failing_beats o (suc n) due =
    fires due due ∷ finishes due due (refused false true) ∷ failing_beats o n (due + o.heartbeat_ms)

-- Waiting for a beat that is due at `due`, after `k` failures.
pub record IsWaiting (h : Heartbeat) (due k : ℕ) : Type 0 where
  pub live : h.stopped ≡ false
  pub idle : h.in_flight ≡ false
  pub set : h.timer ≡ some due
  pub planned : h.next_expected_at ≡ due
  pub failed : h.consecutive_failures ≡ k
  pub alive : h.unhandled ≡ false

beat_fails :
    (o : Options) (h : Heartbeat) (due k : ℕ)
    → IsWaiting h due k
    → k + 1 < o.failure_limit
    → IsWaiting
        (step o (step o h (fires due due)) (finishes due due (refused false true)))
        (due + o.heartbeat_ms)
        (k + 1)
unfolding step
beat_fails o h due k w lt = ground (arith, w.set)

beat_fails_fatally :
    (o : Options) (h : Heartbeat) (due k : ℕ)
    → IsWaiting h due k
    → k + 1 ≡ o.failure_limit
    → (step o (step o h (fires due due)) (finishes due due (refused false true))).stopped ≡ true
unfolding step
beat_fails_fatally o h due k w e = ground (arith, w.set)

failing_beats_stop :
    (o : Options) (n : ℕ) (h : Heartbeat) (due k : ℕ)
    → IsWaiting h due k
    → k + suc n ≡ o.failure_limit
    → (run o h (failing_beats o (suc n) due)).stopped ≡ true
unfolding run
failing_beats_stop o zero h due k w e = beat_fails_fatally o h due k w (omega arith)
failing_beats_stop o (suc n) h due k w e =
    failing_beats_stop o n
      (step o (step o h (fires due due)) (finishes due due (refused false true)))
      (due + o.heartbeat_ms) (k + 1) (beat_fails o h due k w (omega arith)) (omega arith)

-- Under a contract that validates: after a renewal at `renewed`, which leases until `renewed +
-- lease_ms`, as many failing beats on time as the limit stop the heartbeat, and the last of them
-- is made before the lease runs out.
pub fatal_before_expiry :
    (o : Options) (h : Heartbeat) (renewed : ℕ)
    → validate_contract o ≡ none
    → IsWaiting h (renewed + o.heartbeat_ms) 0
    → ((run o h (failing_beats o o.failure_limit (renewed + o.heartbeat_ms))).stopped ≡ true)
      × (renewed + o.heartbeat_ms * o.failure_limit < renewed + o.lease_ms)
fatal_before_expiry o h renewed valid w =
    let sound = (validate_contract_iff o).0 valid in
    let positive : o.failure_limit ≡ suc (o.failure_limit - 1) =
      omega (arith, sound.limit_positive) in
    (
      subst (λ n. (run o h (failing_beats o n (renewed + o.heartbeat_ms))).stopped ≡ true)
          (sym positive)
          (failing_beats_stop o (o.failure_limit - 1) h (renewed + o.heartbeat_ms) 0 w
            (omega (arith, sound.limit_positive))),
      omega (arith, sound.fatal_in_time),
    )
