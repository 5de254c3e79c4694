-- ===== src/RateLimit.antt =====
-- dashboard/lib/inssa-ops/auth-rate-limit.ts: the limits on sign-in attempts, with the records kept in
-- the local file. Instants are milliseconds since the epoch, and clock readings are arguments; the
-- digests of `node:crypto` are parameters.
pub mod Scopes
pub mod Window
pub mod Store
pub mod Policies
mod Tests
use web_app_qa_tests_main.Base.{
  ℕ, zero, suc, ◌+◌, ◌-◌, ◌*◌, ◌/◌, max, String, Bool, true, false, ◌&&◌, ◌||◌, not, Option, none,
  some, List, [], ◌∷◌, ◌++◌, ltb, leb, ◌==◌, if◌then◌else◌, str_eq, find, filter, update_first, any,
}

pub data Action : Type 0 where
  magic_link password : Action

abbrev pub same_action : Action → Action → Bool
same_action magic_link magic_link = true
same_action password password = true
same_action _ _ = false

pub data Scope : Type 0 where
  global ip account combined : Scope

pub record Policy : Type 0 where
  pub block_seconds : ℕ
  pub max_attempts : ℕ
  pub scope : Scope
  pub window_seconds : ℕ

pub record StoredLimit : Type 0 where
  pub action : Action
  pub attempt_count : ℕ
  pub blocked_until : Option ℕ
  pub scope_hash : String
  pub updated_at : ℕ
  pub window_started_at : ℕ

-- What one limit answers.
pub record Verdict : Type 0 where
  pub allowed : Bool
  pub retry_after_seconds : ℕ

abbrev pub policy : (block_seconds max_attempts : ℕ) → Scope → (window_seconds : ℕ) → Policy
policy block_seconds max_attempts scope window_seconds = record {
  block_seconds = block_seconds;
  max_attempts = max_attempts;
  scope = scope;
  window_seconds = window_seconds;
}

-- `POLICIES`
abbrev pub policies : Action → List Policy
policies password =
    policy 900 300 global 300
    ∷ policy 900 30 ip 900
    ∷ policy 900 10 account 900
    ∷ policy 900 5 combined 900
    ∷ []
policies magic_link =
    policy 3600 100 global 3600
    ∷ policy 3600 10 ip 3600
    ∷ policy 3600 3 account 3600
    ∷ policy 3600 3 combined 3600
    ∷ []

-- `existing?.blockedUntil ? Date.parse(existing.blockedUntil) : 0`
abbrev pub blocked_until_ms : Option StoredLimit → ℕ
blocked_until_ms none = 0
blocked_until_ms (some r) = elim r.blocked_until [ none ↦ 0 | some at ↦ at ]

-- `now - windowStartedAt >= windowSeconds * 1000`, without the subtraction.
abbrev pub window_expired : Policy → (now : ℕ) → Option StoredLimit → Bool
window_expired p now none = true
window_expired p now (some r) = leb (r.window_started_at + p.window_seconds * 1000) now

abbrev counted : Bool → Option StoredLimit → ℕ
counted true existing = 1
counted false none = 1
counted false (some r) = r.attempt_count + 1

abbrev started : Bool → (now : ℕ) → Option StoredLimit → ℕ
started true now existing = now
started false now none = now
started false now (some r) = r.window_started_at

-- The record that replaces `existing` when it does not block.
unfoldable pub next_limit : Action → String → Policy → (now : ℕ) → Option StoredLimit → StoredLimit
next_limit action scope_hash p now existing =
    let expired = window_expired p now existing in
    let attempt_count = counted expired existing in
    record {
      action = action;
      attempt_count = attempt_count;
      blocked_until =
          if ltb p.max_attempts attempt_count then some (now + p.block_seconds * 1000) else none;
      scope_hash = scope_hash;
      updated_at = now;
      window_started_at = started expired now existing;
    }

-- `Math.max(1, Math.ceil((blockedUntil - now) / 1000))`
abbrev pub retry_after : (blocked_until now : ℕ) → ℕ
retry_after blocked_until now = max 1 ((blocked_until - now + 999) / 1000)

abbrev pub same_limit : Action → String → StoredLimit → Bool
same_limit action scope_hash r = same_action r.action action && str_eq r.scope_hash scope_hash

-- `records[index] = record`, or a push.
put_limit : Action → String → StoredLimit → Option StoredLimit → List StoredLimit → List StoredLimit
put_limit action scope_hash r none records = records ++ r ∷ []
put_limit action scope_hash r (some _) records =
    update_first (same_limit action scope_hash) (λ _. r) records

consume_found :
    Action
    → String
    → Policy
    → (now : ℕ) → List StoredLimit
    → Option StoredLimit
    → Verdict × List StoredLimit
unfolding put_limit next_limit
consume_found action scope_hash p now records existing =
    let blocked_until = blocked_until_ms existing in
    let next = next_limit action scope_hash p now existing in
    let denied = ltb p.max_attempts next.attempt_count in
    if ltb now blocked_until
    then (record { allowed = false; retry_after_seconds = retry_after blocked_until now }, records)
    else (
      record { allowed = not denied; retry_after_seconds = if denied then p.block_seconds else 0 },
      put_limit action scope_hash next existing records,
    )

-- Records older than seven days are dropped at every write; the filter's readings of the clock, one
-- for each record in one synchronous pass, are taken as one.
abbrev pub is_recent : (later : ℕ) → StoredLimit → Bool
is_recent later r = ltb later (r.updated_at + 604800000)

-- `consumeLocalLimit` through `updateLocalLimits`.
unfoldable pub consume_local_limit :
    Action → String → Policy → (now later : ℕ) → List StoredLimit → Verdict × List StoredLimit
unfolding consume_found find filter update_first
consume_local_limit action scope_hash p now later records =
    let (verdict, next) =
      consume_found action scope_hash p now records (find (same_limit action scope_hash) records) in
    (verdict, filter (is_recent later) next)

abbrev includes : List String → String → Bool
includes hashes hash = any (λ h. str_eq h hash) hashes

-- `resetSuccessfulPasswordLimits` on the local records; an empty list returns before the file is read.
unfoldable pub reset_successful_password_limits :
    List String → (later : ℕ) → List StoredLimit → List StoredLimit
unfolding filter
reset_successful_password_limits [] later records = records
reset_successful_password_limits (hash ∷ hashes) later records = filter (is_recent later) (
    filter (λ r. not (same_action r.action password) || not (includes (hash ∷ hashes) r.scope_hash))
      records)
