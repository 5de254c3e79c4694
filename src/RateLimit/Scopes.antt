-- ===== src/RateLimit/Scopes.antt =====
-- The scopes of auth-rate-limit.ts, and the consumption of every policy of an action.
use Prim.Native.String
use web_app_qa_tests_main.Base.{
  ℕ, ◌+◌, max, String, Bool, true, false, Option, none, some, List, [], ◌∷◌, ◌++◌, ◌==◌,
  if◌then◌else◌,
}
use web_app_qa_tests_main.RateLimit.{
  Action, Scope, global, ip, account, combined, Policy, StoredLimit, Verdict, policies,
  consume_local_limit,
}

infixr 65 ◌<>◌
abbrev ◌<>◌ : String → String → String
a <> b = String.◌++◌ a b

unfoldable pub scope_value : Scope → (source_ip email : String) → String
scope_value global source_ip email = "global"
scope_value ip source_ip email = "ip:" <> source_ip
scope_value account source_ip email = "account:" <> email
scope_value combined source_ip email = "combined:" <> source_ip <> ":" <> email

-- `sha256` and `hmac` stand for the digests. `none` is the error that the limits are not configured.
unfoldable pub hash_scope :
    (sha256 : String → String) (hmac : String → String → String) (secret : Option String)
    (production : Bool)
    → String
    → Option String
hash_scope sha256 hmac (some secret) production value = some (hmac secret value)
hash_scope sha256 hmac none true value = none
hash_scope sha256 hmac none false value = some (sha256 ("local:" <> value))

pub record RateLimitResult : Type 0 where
  pub allowed : Bool
  pub retry_after_seconds : ℕ
  pub reset_scope_hashes : List String

abbrev pub is_reset : Scope → Bool
is_reset account = true
is_reset combined = true
is_reset _ = false

-- The variables of the loop of `consumeAuthenticationRateLimit`.
pub record Tally : Type 0 where
  pub retry : ℕ
  pub hashes : List String
  pub records : List StoredLimit

abbrev pub tallied : Policy → String → Verdict × List StoredLimit → Tally → Tally
tallied p hash (verdict, records) t = record {
  retry = if verdict.allowed then t.retry else max t.retry verdict.retry_after_seconds;
  hashes = if is_reset p.scope then t.hashes ++ hash ∷ [] else t.hashes;
  records = records;
}

abbrev concluded : Option Tally → Option (RateLimitResult × List StoredLimit)
concluded none = none
concluded (some t) = some (
  record { allowed = t.retry == 0; retry_after_seconds = t.retry; reset_scope_hashes = t.hashes },
  t.records,
)

infixl 5 ◌>>=◌
abbrev ◌>>=◌ : Option Tally → (Tally → Option Tally) → Option Tally
none >>= f = none
some t >>= f = f t

module _ (hash_of : String → Option String) (action : Action) (source_ip email : String)
    (clock : ℕ → ℕ) where
  consume_hashed : Policy → (round : ℕ) → Tally → Option String → Option Tally
  consume_hashed p round t none = none
  consume_hashed p round t (some hash) = some (
      tallied p hash (consume_local_limit action hash p (clock round) (clock (round + 1)) t.records)
        t)

  -- The loop: every policy is consumed, also after one that denies. Each round reads the clock twice.
  unfoldable pub consume_policies : List Policy → (round : ℕ) → Tally → Option Tally
  unfolding consume_hashed
  consume_policies [] round t = some t
  consume_policies (p ∷ ps) round t = do
    t' ← consume_hashed p round t (hash_of (scope_value p.scope source_ip email))
    consume_policies ps (round + 2) t'

  unfoldable pub consume_authentication_rate_limit :
      List StoredLimit → Option (RateLimitResult × List StoredLimit)
  unfolding consume_policies
  consume_authentication_rate_limit records =
      concluded (
        consume_policies (policies action) 0 (record { retry = 0; hashes = []; records = records }))
