-- ===== src/RateLimit/Window.antt =====
-- One limit of auth-rate-limit.ts over time, apart from the other records: the window of attempts and
-- the block that follows it.
use web_app_qa_tests_main.Base.{
  ℕ, zero, suc, ◌+◌, ◌-◌, ◌*◌, ◌≤◌, ◌<◌, String, Bool, true, false, not, Option, none, some, List,
  [], ◌∷◌, ◌≡◌, refl, arith, ltb, if◌then◌else◌, All,
}
use web_app_qa_tests_main.RateLimit.{
  Action, Policy, StoredLimit, Verdict, blocked_until_ms, window_expired, next_limit, retry_after,
}

-- What one attempt makes of the record of its limit, and what it answers: the decision of
-- `consumeLocalLimit` with the search and the file left out.
unfoldable pub attempt :
    Action → String → Policy → (now : ℕ) → Option StoredLimit → Verdict × Option StoredLimit
unfolding next_limit
attempt action hash p now existing =
    let blocked_until = blocked_until_ms existing in
    let next = next_limit action hash p now existing in
    let denied = ltb p.max_attempts next.attempt_count in
    if ltb now blocked_until
    then (record { allowed = false; retry_after_seconds = retry_after blocked_until now }, existing)
    else (
      record { allowed = not denied; retry_after_seconds = if denied then p.block_seconds else 0 },
      some next,
    )

module _ (action : Action) (hash : String) (p : Policy) where
  -- The answers to attempts at the given instants.
  unfoldable pub answers : Option StoredLimit → List ℕ → List Bool
  answers o [] = []
  answers o (now ∷ later) =
      let (verdict, o') = attempt action hash p now o in verdict.allowed ∷ answers o' later

  -- The first `left` attempts are allowed and all others denied.
  abbrev pub first_allowed : (left : ℕ) → List ℕ → List Bool
  first_allowed left [] = []
  first_allowed zero (now ∷ later) = false ∷ first_allowed zero later
  first_allowed (suc left) (now ∷ later) = true ∷ first_allowed left later

  abbrev pub Within : (from to : ℕ) → ℕ → Type 0
  Within from to now = (from ≤ now) × (now < to)

  -- The record after `used` attempts in the window that starts at `from`.
  record IsUsed (from used : ℕ) (r : StoredLimit) : Type 0 where
    started : r.window_started_at ≡ from
    open_limit : (used ≤ p.max_attempts) × (r.attempt_count ≡ used) × (r.blocked_until ≡ none)

  attempt_allowed :
      (from used now : ℕ) (r : StoredLimit)
      → Within from (from + p.window_seconds * 1000) now
      → IsUsed from used r
      → used < p.max_attempts
      → (r' : StoredLimit) × (attempt action hash p now (some r)
          ≡ (record { allowed = true; retry_after_seconds = 0 }, some r'))
        × IsUsed from (suc used) r'
  unfolding attempt
  attempt_allowed from used now r w u lt =
      (next_limit action hash p now (some r), ground arith, ground arith)

  record IsBlocked (until : ℕ) (r : StoredLimit) : Type 0 where
    blocks : r.blocked_until ≡ some until

  attempt_denied :
      (from now : ℕ) (r : StoredLimit)
      → Within from (from + p.window_seconds * 1000) now
      → IsUsed from p.max_attempts r
      → (r' : StoredLimit) × (attempt action hash p now (some r)
          ≡ (record { allowed = false; retry_after_seconds = p.block_seconds }, some r'))
        × IsBlocked (now + p.block_seconds * 1000) r'
  unfolding attempt
  attempt_denied from now r w u =
      (next_limit action hash p now (some r), ground arith, ground arith)

  -- While a limit blocks, an attempt is denied and leaves the record alone: it does not prolong the
  -- block.
  attempt_blocked :
      (until now : ℕ) (r : StoredLimit)
      → IsBlocked until r
      → now < until
      → attempt action hash p now (some r)
        ≡ (record { allowed = false; retry_after_seconds = retry_after until now }, some r)
  unfolding attempt
  attempt_blocked until now r b lt = ground (arith, b.blocks)

  answers_blocked :
      (until : ℕ) (r : StoredLimit) (later : List ℕ)
      → IsBlocked until r
      → All (λ now. now < until) later
      → answers (some r) later ≡ first_allowed 0 later
  unfolding answers
  answers_blocked until r [] b h = refl
  answers_blocked until r (now ∷ later) b h =
      rw (attempt_blocked until now r b h.0) (cc (answers_blocked until r later b h.1))

  -- The instants of a window lie before the end of a block that starts in it.
  Within-block :
      (from now : ℕ) (later : List ℕ)
      → from ≤ now
      → p.window_seconds ≤ p.block_seconds
      → All (Within from (from + p.window_seconds * 1000)) later
      → All (λ at. at < now + p.block_seconds * 1000) later
  Within-block from now [] le h w = tt
  Within-block from now (at ∷ later) le h w =
      (omega (arith, w.0), Within-block from now later le h w.1)

  answers_open :
      (left from used : ℕ) (r : StoredLimit) (later : List ℕ)
      → used + left ≡ p.max_attempts
      → p.window_seconds ≤ p.block_seconds
      → IsUsed from used r
      → All (Within from (from + p.window_seconds * 1000)) later
      → answers (some r) later ≡ first_allowed left later
  unfolding answers
  answers_open left from used r [] e h u w = refl
  answers_open zero from used r (now ∷ later) e h u w =
      let full : used ≡ p.max_attempts = omega arith in
      let (r', same, blocked) = attempt_denied from now r w.0 (rw full at u) in
      rw same (
        cc (
          answers_blocked (now + p.block_seconds * 1000) r' later blocked
            (Within-block from now later (w.0.0) h w.1)))
  answers_open (suc left) from used r (now ∷ later) e h u w =
      let (r', same, u') = attempt_allowed from used now r w.0 u (omega arith) in
      rw same (cc (answers_open left from (suc used) r' later (omega arith) h u' w.1))

  opening :
      (o : Option StoredLimit) (now : ℕ)
      → 0 < p.max_attempts
      → window_expired p now o ≡ true
      → blocked_until_ms o ≤ now
      → (r : StoredLimit) × (attempt action hash p now o
          ≡ (record { allowed = true; retry_after_seconds = 0 }, some r))
        × IsUsed now 1 r
  unfolding attempt
  opening o now pos expired free = (next_limit action hash p now o, ground arith, ground arith)

  -- From an attempt that opens a window, all attempts within the window, in any order and number,
  -- are answered alike: the first `max_attempts` of them, the opening one included, are allowed
  -- and the rest denied. The opening attempt finds no record, or one whose window and block are
  -- over; the block is at least as long as the window.
  pub answers-first_allowed :
      (o : Option StoredLimit) (now : ℕ) (later : List ℕ)
      → 0 < p.max_attempts
      → p.window_seconds ≤ p.block_seconds
      → window_expired p now o ≡ true
      → blocked_until_ms o ≤ now
      → All (Within now (now + p.window_seconds * 1000)) later
      → answers o (now ∷ later) ≡ first_allowed p.max_attempts (now ∷ later)
  unfolding answers
  answers-first_allowed o now later pos h expired free w =
      let (r, same, u) = opening o now pos expired free in
      let some_left : p.max_attempts ≡ suc (p.max_attempts - 1) = omega arith in
      rw (same, some_left)
        (cc (answers_open (p.max_attempts - 1) now 1 r later (omega arith) h u w))

  -- The delay that a blocked attempt is told: at least a second, long enough to outlast the
  -- block, and less than a second too long.
  pub attempt_blocked_retry :
      (until now : ℕ) (r : StoredLimit)
      → r.blocked_until ≡ some until
      → now < until
      → (attempt action hash p now (some r)
          ≡ (record { allowed = false; retry_after_seconds = retry_after until now }, some r))
        × (1 ≤ retry_after until now)
        × (until ≤ now + retry_after until now * 1000)
        × (now + retry_after until now * 1000 < until + 1000)
  attempt_blocked_retry until now r b lt = (
    attempt_blocked until now r (record { blocks = b }) lt,
    omega arith,
    omega arith,
    omega arith,
  )
