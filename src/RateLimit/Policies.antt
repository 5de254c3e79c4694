-- ===== src/RateLimit/Policies.antt =====
-- `consumeAuthenticationRateLimit` of auth-rate-limit.ts over all policies of an action.
use web_app_qa_tests_main.Base.{
  ℕ, max, if◌then◌else◌, ◌⊎◌, ◌+◌, ◌≤◌, ◌<◌, String, true, false, Option, some, List, [], ◌∷◌, ◌≡◌,
  refl, ap, subst, ◌↔◌, inl, inr, arith, ◌==◌, All, find, Bool-cases, Option-cases, eq_of_some,
}
use web_app_qa_tests_main.RateLimit.{
  Action, magic_link, password, Policy, StoredLimit, Verdict, policies, consume_local_limit,
  same_limit,
}
use web_app_qa_tests_main.RateLimit.Scopes.{
  scope_value, RateLimitResult, Tally, tallied, consume_policies, consume_authentication_rate_limit,
}

-- A denial always tells a delay of at least a second.
consume_local_limit_delay :
    (action : Action) (hash : String) (p : Policy) (now later : ℕ) (records : List StoredLimit)
    → 0 < p.block_seconds
    → (consume_local_limit action hash p now later records).0.allowed ≡ false
    → 0 < (consume_local_limit action hash p now later records).0.retry_after_seconds
unfolding consume_local_limit
consume_local_limit_delay action hash p now later records b d =
    elim (Option-cases (find (same_limit action hash) records)) [
      | inl e ↦ ground arith
      | inr (r, e) ↦ ground arith
    ]

policies_block : (action : Action) → All (λ p. 0 < p.block_seconds) (policies action)
policies_block magic_link = omega arith
policies_block password = omega arith

-- The windows of auth-rate-limit.ts are no longer than the blocks, and every limit allows an attempt.
pub policies_sound :
    (action : Action)
    → All (λ p. (p.window_seconds ≤ p.block_seconds) × (0 < p.max_attempts)) (policies action)
policies_sound magic_link = omega arith
policies_sound password = omega arith

-- The longest delay of the verdicts that deny.
abbrev pub longest : List Verdict → ℕ
longest [] = 0
longest (v ∷ vs) =
    let rest = longest vs in if v.allowed then rest else max v.retry_after_seconds rest

abbrev pub Allowed : Verdict → Type 0
Allowed v = v.allowed ≡ true

-- A verdict that denies tells a delay.
abbrev Tells : Verdict → Type 0
Tells v = Allowed v ⊎ (0 < v.retry_after_seconds)

longest_iff : (vs : List Verdict) → All Tells vs → (longest vs ≡ 0) ↔ All Allowed vs
longest_iff [] h = ((λ z. tt), (λ z. refl))
longest_iff (v ∷ vs) h = elim (Bool-cases v.allowed) [
  | inl a ↦ let rest = longest_iff vs h.1 in rw a ((λ z. (refl, rest.0 z)), (λ z. rest.1 z.1))
  | inr d ↦
      let positive : 0 < v.retry_after_seconds = ground (arith, h.0) in
      rw d ((λ z. absurd (omega arith)), (λ z. cc))
]

module _ (hash_of : String → Option String) (action : Action) (source_ip email : String)
    (clock : ℕ → ℕ) where
  -- Every policy is consumed, each on the records that the ones before it left, whatever these
  -- answered; the verdicts and the records that remain.
  abbrev pub Consumes :
      List Policy
      → (round : ℕ) → List StoredLimit
      → List Verdict
      → (remaining : List StoredLimit) → Type 0
  Consumes [] round records [] remaining = records ≡ remaining
  Consumes (p ∷ ps) round records (v ∷ vs) remaining =
      (hash : String) × (left : List StoredLimit) × (hash_of (scope_value p.scope source_ip email)
        ≡ some hash)
      × (consume_local_limit action hash p (clock round) (clock (round + 1)) records ≡ (v, left))
      × Consumes ps (round + 2) left vs remaining
  Consumes _ round records _ remaining = Unit × ⊥

  consume_policies-Consumes :
      (ps : List Policy) (round : ℕ) (t t' : Tally)
      → All (λ p. 0 < p.block_seconds) ps
      → consume_policies hash_of action source_ip email clock ps round t ≡ some t'
      → (vs : List Verdict) × Consumes ps round t.records vs t'.records
        × All Tells vs
        × (t'.retry ≡ max t.retry (longest vs))
  unfolding consume_policies
  consume_policies-Consumes [] round t t' b e =
      let same : t ≡ t' = eq_of_some e in
      subst
        (λ u.
          (vs : List Verdict) × Consumes [] round t.records vs u.records
          × All Tells vs
          × (u.retry ≡ max t.retry (longest vs)))
        same ([], refl, tt, omega arith)
  consume_policies-Consumes (p ∷ ps) round t t' b e =
      elim (Option-cases (hash_of (scope_value p.scope source_ip email))) [
        | inl missing ↦ cc (rw (missing, consume_policies) at e)
        | inr (hash, found) ↦
            let out =
              consume_local_limit action hash p (clock round) (clock (round + 1)) t.records in
            let (vs, consumed, told, most) =
              consume_policies-Consumes ps (round + 2) (tallied p hash out t) t' b.1
                (rw (found, consume_policies) at e) in
            let delay =
              consume_local_limit_delay action hash p (clock round) (clock (round + 1)) t.records
                b.0 in
            elim (Bool-cases out.0.allowed) [
              | inl a ↦ (
                out.0 ∷ vs,
                (hash, out.1, found, refl, consumed),
                (inl a, told),
                rw a (rw a at most),
              )
              | inr d ↦
                  let most' = rw d at most in
                  (
                    out.0 ∷ vs,
                    (hash, out.1, found, refl, consumed),
                    (inr (delay d), told),
                    rw d (omega (arith, most')),
                  )
            ]
      ]

-- A sign-in attempt is allowed exactly if every policy of its action allows it: there is a
-- verdict for each policy, given on the records that the ones before it left, also after one that
-- denies, and the records that the attempt leaves are those of the last; the delay that is told
-- is the longest of those that deny, and it is positive exactly if the attempt is denied.
pub consume_authentication_rate_limit_iff :
    (hash_of : String → Option String) (action : Action) (source_ip email : String) (clock : ℕ → ℕ)
    (records records' : List StoredLimit) (r : RateLimitResult)
    → consume_authentication_rate_limit hash_of action source_ip email clock records
      ≡ some (r, records')
    → (vs : List Verdict) × Consumes hash_of action source_ip email clock
        (policies action)
        0
        records
        vs
        records'
      × ((r.allowed ≡ true) ↔ All Allowed vs)
      × (r.retry_after_seconds ≡ longest vs)
      × ((r.allowed ≡ false) ↔ (0 < r.retry_after_seconds))
unfolding consume_authentication_rate_limit
consume_authentication_rate_limit_iff hash_of action source_ip email clock records records' r e =
    elim (Option-cases
      (consume_policies hash_of action source_ip email clock (policies action) 0 begin)) [
        | inl missing ↦ cc (rw (missing, consume_authentication_rate_limit) at e)
        | inr (t, done) ↦
            let (vs, consumed, told, most) =
              consume_policies-Consumes hash_of action source_ip email clock (policies action) 0
                begin t (policies_block action) done in
            let out = rw (done, consume_authentication_rate_limit) at e in
            let same : (t.retry == 0) ≡ r.allowed = ap (λ q. q.0.allowed) (some_pair out) in
            let delay : t.retry ≡ r.retry_after_seconds =
              ap (λ q. q.0.retry_after_seconds) (some_pair out) in
            let left : t.records ≡ records' = ap (λ q. q.1) (some_pair out) in
            let none_denies = longest_iff vs told in
            (
              vs,
              subst (Consumes hash_of action source_ip email clock (policies action) 0 records vs)
                  left consumed,
              (
                (λ a. none_denies.0 (ground (arith, same, most, a))),
                (λ h. let z = none_denies.1 h in ground (arith, same, most, z)),
              ),
              omega (arith, delay, most),
              ((λ d. ground (arith, same, delay, d)), (λ d. ground (arith, same, delay, d))),
            )
      ]
  where
    begin : Tally
    begin = record { retry = 0; hashes = []; records = records }

    some_pair : {a b : RateLimitResult × List StoredLimit} → some a ≡ some b → a ≡ b
    some_pair h = eq_of_some h
