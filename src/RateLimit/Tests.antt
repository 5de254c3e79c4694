-- ===== src/RateLimit/Tests.antt =====
-- Sign-in limits on small inputs, and the theorems at inputs that meet their conditions.
use web_app_qa_tests_main.Base.{
  ◌<◌, String, Bool, true, false, Option, none, some, List, [], ◌∷◌, ◌≡◌, refl, ◌↔◌, arith, All,
  find, filter,
}
use web_app_qa_tests_main.RateLimit.{
  password, combined, Policy, Verdict, StoredLimit, policies, policy, same_limit, is_recent,
  consume_local_limit, reset_successful_password_limits,
}
use web_app_qa_tests_main.RateLimit.Scopes.{
  scope_value, RateLimitResult, consume_authentication_rate_limit, hash_scope,
}
use web_app_qa_tests_main.RateLimit.Window.{attempt, answers, first_allowed, answers-first_allowed}
use web_app_qa_tests_main.RateLimit.Store.{stored, consume_local_limit-attempt}
use web_app_qa_tests_main.RateLimit.Policies.{
  Allowed, Consumes, longest, consume_authentication_rate_limit_iff,
}

limits : Unit {0}
unfolding attempt answers consume_local_limit reset_successful_password_limits
    consume_authentication_rate_limit scope_value hash_scope find filter
limits = tt

abbrev five : Policy
five = policy 900 5 combined 900

sixth_denied :
    answers password "h" five none (1 ∷ 2 ∷ 3 ∷ 4 ∷ 5 ∷ 6 ∷ 7 ∷ [])
    ≡ true ∷ true ∷ true ∷ true ∷ true ∷ false ∷ false ∷ []
unfolding limits
sixth_denied = refl

answers-first_allowed_example :
    answers password "h" five none (1 ∷ 2 ∷ 3 ∷ [])
    ≡ first_allowed password "h" five 5 (1 ∷ 2 ∷ 3 ∷ [])
answers-first_allowed_example =
    answers-first_allowed password "h" five none 1 (2 ∷ 3 ∷ []) (omega arith) (omega arith) refl
      (omega arith) (omega arith)

abbrev blocking : StoredLimit
blocking = record {
  action = password;
  attempt_count = 6;
  blocked_until = some 900006;
  scope_hash = "h";
  updated_at = 6;
  window_started_at = 1;
}

abbrev other : StoredLimit
other = record blocking { scope_hash = "g" }

consume_local_limit-attempt_example :
    ((consume_local_limit password "h" five 7 8 (blocking ∷ other ∷ [])).0
      ≡ (attempt password "h" five 7 (stored password "h" five 7 8 (blocking ∷ other ∷ []))).0)
    × (find
          (same_limit password "h")
          (consume_local_limit password "h" five 7 8 (blocking ∷ other ∷ [])).1
        ≡ some blocking)
    × (find
          (same_limit password "g")
          (consume_local_limit password "h" five 7 8 (blocking ∷ other ∷ [])).1
        ≡ find (same_limit password "g") (filter (is_recent 8) (blocking ∷ other ∷ [])))
unfolding limits
consume_local_limit-attempt_example =
    consume_local_limit-attempt password "h" five 7 8 (blocking ∷ other ∷ []) blocking password "g"
      refl refl refl

abbrev plain : String → Option String
plain s = some s

abbrev signed_in : Option (RateLimitResult × List StoredLimit)
signed_in = consume_authentication_rate_limit plain password "1.2.3.4" "a@b" (λ n. n) []

-- The limits of the account and of the pair are those that a success resets.
first_attempt :
    (records : List StoredLimit) × (signed_in
      ≡ some (
        record {
          allowed = true;
          retry_after_seconds = 0;
          reset_scope_hashes = "account:a@b" ∷ "combined:1.2.3.4:a@b" ∷ [];
        },
        records,
      ))
unfolding limits
first_attempt = (_, refl)

consume_authentication_rate_limit_iff_example :
    (vs : List Verdict) × Consumes plain password "1.2.3.4" "a@b"
      (λ n. n)
      (policies password)
      0
      []
      vs
      first_attempt.0
    × ((◌≡◌ {A = Bool} true true) ↔ All Allowed vs)
    × (0 ≡ longest vs)
    × ((◌≡◌ {A = Bool} true false) ↔ (0 < 0))
consume_authentication_rate_limit_iff_example =
    consume_authentication_rate_limit_iff plain password "1.2.3.4" "a@b" (λ n. n) [] first_attempt.0
      _ first_attempt.1
