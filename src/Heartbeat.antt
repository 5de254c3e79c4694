-- ===== src/Heartbeat.antt =====
-- dashboard/lib/inssa-ops/execution-lease.ts: the timer that renews a worker's lease. The closure's
-- variables are a record; a timer that fires and a beat that settles are two events, since the beat
-- is awaited between them. The repository handles no rejection globally, so one that nobody awaits
-- ends the process, by Node's default. Intervals are natural numbers, so the tests for an integer always pass.
pub mod Contract
pub mod Failures
mod Tests
use web_app_qa_tests_main.Base.{
  ℕ, suc, ◌+◌, ◌-◌, ◌*◌, Bool, true, false, ◌||◌, ◌&&◌, not, Option, none, some, List, [], ◌∷◌,
  ◌++◌, ltb, leb, if◌then◌else◌,
}

pub record Options : Type 0 where
  pub failure_limit : ℕ
  pub heartbeat_ms : ℕ
  pub lease_ms : ℕ

pub data ContractError : Type 0 where
  bad_failure_limit bad_interval bad_lease late_failure : ContractError

-- `none` is a return without an error.
unfoldable pub validate_contract : Options → Option ContractError
validate_contract o =
    if ltb o.failure_limit 1
    then some bad_failure_limit
    else if ltb o.heartbeat_ms 1000
    then some bad_interval
    else if leb o.lease_ms o.heartbeat_ms
    then some bad_lease
    else if leb o.lease_ms (o.heartbeat_ms * o.failure_limit)
    then some late_failure
    else none

pub record Heartbeat : Type 0 where
  pub consecutive_failures : ℕ
  pub in_flight : Bool
  pub stopped : Bool
  pub timer : Option ℕ  -- when the pending timer fires; a fired one counts as none
  pub next_expected_at : ℕ
  pub unhandled : Bool  -- a beat was rejected with nobody to await it: the process ends

-- What the caller is told.
pub data Notice : Type 0 where
  timing_drift : (drift_ms : ℕ) → Notice
  healthy : (lease_expires_at : ℕ) → Notice
  failure : (consecutive_failures : ℕ) → (fatal : Bool) → Notice

-- How a beat ends: the heartbeat was written; it was refused, with an ownership error or another;
-- it was written and the healthy callback threw; the drift callback threw before it. `reported`
-- tells whether the failure callback itself returned.
pub data Ending : Type 0 where
  written : Ending
  refused unhealthy : (ownership reported : Bool) → Ending
  unbeaten : Ending

-- `schedule`: `Math.max(0, …)` is the subtraction that stops at 0.
unfoldable pub schedule : (now : ℕ) → Heartbeat → Heartbeat
schedule now h =
    if h.stopped then h else record h { timer = some (now + (h.next_expected_at - now)) }

-- `startExecutionLeaseHeartbeat` reads the clock for the first beat and again in `schedule`.
unfoldable pub start : Options → (now scheduled : ℕ) → Heartbeat
unfolding schedule
start o now scheduled = schedule scheduled (record {
  consecutive_failures = 0;
  in_flight = false;
  stopped = false;
  timer = none;
  next_expected_at = now + o.heartbeat_ms;
  unhandled = false;
})

-- The timer fires: the drift is measured and the next beat planned.
unfoldable pub fire : Options → (now planned : ℕ) → Heartbeat → Heartbeat × List Notice
fire o now planned h =
    let drift_ms = now - h.next_expected_at in
    (
      record h { timer = none; in_flight = true; next_expected_at = planned + o.heartbeat_ms },
      if leb o.heartbeat_ms drift_ms then timing_drift drift_ms ∷ [] else [],
    )

-- The `catch` of `beat`.
unfoldable pub catch_failure :
    Options → (ownership reported : Bool) → Heartbeat → Heartbeat × List Notice
catch_failure o ownership reported h =
    let failures = h.consecutive_failures + 1 in
    let fatal = ownership || leb o.failure_limit failures in
    let counted = record h { consecutive_failures = failures } in
    (
      if reported then if fatal then record counted { stopped = true } else counted else counted,
      failure failures fatal ∷ [],
    )

-- The `try` of `beat`, at the clock reading that dates the lease.
unfoldable pub settle : Options → (now : ℕ) → Ending → Heartbeat → Heartbeat × List Notice
unfolding catch_failure
settle o now written h = (record h { consecutive_failures = 0 }, healthy (now + o.lease_ms) ∷ [])
settle o now (refused ownership reported) h = catch_failure o ownership reported h
settle o now (unhealthy ownership reported) h =
    let (h', notices) =
      catch_failure o ownership reported (record h { consecutive_failures = 0 }) in
    (h', healthy (now + o.lease_ms) ∷ notices)
settle o now unbeaten h = (h, [])

-- Whether the promise of a beat is rejected.
abbrev pub rejects : Ending → Bool
rejects written = false
rejects (refused ownership reported) = not reported
rejects (unhealthy ownership reported) = not reported
rejects unbeaten = true

-- The `finally` of a beat: the next one is scheduled unless the heartbeat stopped. A rejection is
-- handled by the `stop` that waits for the beat in flight, if one does.
unfoldable pub finish :
    Options → (now rescheduled : ℕ) → Ending → Heartbeat → Heartbeat × List Notice
unfolding settle schedule
finish o now rescheduled ending h =
    let (h', notices) = settle o now ending h in
    (
      schedule rescheduled
          (record h' { in_flight = false; unhandled = rejects ending && not h.stopped }),
      notices,
    )

-- `stop` clears the timer and leaves a beat in flight to finish.
unfoldable pub stop : Heartbeat → Heartbeat
stop h = record h { stopped = true; timer = none }

pub data Event : Type 0 where
  fires : (now planned : ℕ) → Event
  finishes : (now rescheduled : ℕ) → Ending → Event
  stops : Event

-- An event that is not due is ignored: a timer fires only if one is set, a beat finishes only if one
-- is in flight, and nothing happens once the process has ended.
unfoldable pub step : Options → Heartbeat → Event → Heartbeat
unfolding fire finish stop
step o h (fires now planned) =
    if h.unhandled then h else elim h.timer [ none ↦ h | some at ↦ (fire o now planned h).0 ]
step o h (finishes now rescheduled ending) =
    if h.in_flight && not h.unhandled then (finish o now rescheduled ending h).0 else h
step o h stops = if h.unhandled then h else stop h

unfoldable pub run : Options → Heartbeat → List Event → Heartbeat
unfolding step
run o h [] = h
run o h (e ∷ es) = run o (step o h e) es
