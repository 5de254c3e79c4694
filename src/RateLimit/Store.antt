-- ===== src/RateLimit/Store.antt =====
-- The file of limits of auth-rate-limit.ts: an attempt changes its own limit and no other.
use web_app_qa_tests_main.Base.{
  ℕ, String, Bool, true, false, ◌&&◌, ◌||◌, not, Option, none, some, List, [], ◌∷◌, ◌++◌, ◌≡◌, refl,
  sym, ap, subst, ◌∙◌, inl, inr, arith, ltb, str_eq, eq_iff, eq_refl, find, filter, update_first,
  any, Bool-cases, Option-cases, eq_of_some,
}
use web_app_qa_tests_main.RateLimit.{
  Action, magic_link, password, Policy, StoredLimit, same_action, same_limit, is_recent,
  blocked_until_ms, next_limit, consume_local_limit, reset_successful_password_limits,
}
use web_app_qa_tests_main.RateLimit.Window.{attempt}

abbrev Test : Type 0
Test = StoredLimit → Bool

module _ (own keep : Test) where
  find-filter_put :
      (r : StoredLimit) (records : List StoredLimit) (e : StoredLimit)
      → own r ≡ true
      → keep r ≡ true
      → find own records ≡ some e
      → find own (filter keep (update_first own (λ _. r) records)) ≡ some r
  unfolding find filter update_first
  find-filter_put r [] e o k f = cc
  find-filter_put r (x ∷ records) e o k f = ground (arith, find-filter_put r records e)

  find-filter_push :
      (r : StoredLimit) (records : List StoredLimit)
      → own r ≡ true
      → keep r ≡ true
      → find own records ≡ none
      → find own (filter keep (records ++ r ∷ [])) ≡ some r
  unfolding find filter
  find-filter_push r [] o k f = ground arith
  find-filter_push r (x ∷ records) o k f = ground (arith, find-filter_push r records)

  find-filter_kept :
      (records : List StoredLimit) (e : StoredLimit)
      → keep e ≡ true
      → find own records ≡ some e
      → find own (filter keep records) ≡ some e
  unfolding find filter
  find-filter_kept [] e k f = cc
  find-filter_kept (x ∷ records) e k f = ground (arith, find-filter_kept records e)

module _ (own other keep : Test) (apart : (x : StoredLimit) → own x ≡ true → other x ≡ false) where
  other-filter_put :
      (r : StoredLimit) (records : List StoredLimit)
      → own r ≡ true
      → find other (filter keep (update_first own (λ _. r) records))
        ≡ find other (filter keep records)
  unfolding find filter update_first
  other-filter_put r [] o = refl
  other-filter_put r (x ∷ records) o = ground (arith, apart x, apart r, other-filter_put r records)

  other-filter_push :
      (r : StoredLimit) (records : List StoredLimit)
      → own r ≡ true
      → find other (filter keep (records ++ r ∷ [])) ≡ find other (filter keep records)
  unfolding find filter
  other-filter_push r [] o = ground (arith, apart r)
  other-filter_push r (x ∷ records) o = ground (arith, other-filter_push r records)

same_action_refl : (a : Action) → same_action a a ≡ true
same_action_refl magic_link = refl
same_action_refl password = refl

same_action-eq : (a b : Action) → same_action a b ≡ true → a ≡ b
same_action-eq a b h = ground arith

next_limit-own :
    (action : Action) (hash : String) (p : Policy) (now : ℕ) (o : Option StoredLimit)
    → same_limit action hash (next_limit action hash p now o) ≡ true
unfolding next_limit
next_limit-own action hash p now o = rw (same_action_refl action, eq_refl hash)

limits_apart :
    (a b : Action) (h k : String)
    → (same_action b a && str_eq k h) ≡ false
    → (x : StoredLimit) → same_limit a h x ≡ true
    → same_limit b k x ≡ false
limits_apart a b h k e x t =
    ground (arith, eq_iff x.scope_hash h, eq_iff x.scope_hash k, eq_iff k h)

not_ltb_zero : (now : ℕ) → ltb now 0 ≡ false
not_ltb_zero now = ground arith

module _ (action : Action) (hash : String) (p : Policy) (now later : ℕ)
    (records : List StoredLimit) where
  -- The record of the limit, as the file holds it.
  abbrev pub stored : Option StoredLimit
  stored = find (same_limit action hash) records

  own_stored :
      (r : StoredLimit)
      → (attempt action hash p now stored).1 ≡ some r
      → is_recent later r ≡ true
      → find (same_limit action hash) (consume_local_limit action hash p now later records).1
        ≡ some r
  unfolding consume_local_limit attempt
  own_stored r e recent = elim (Option-cases stored) [
    | inl missing ↦
        let same : next_limit action hash p now none ≡ r =
          eq_of_some (rw (missing, not_ltb_zero now, attempt) at e) in
        rw (missing, not_ltb_zero now, consume_local_limit)
          (subst (λ x. find own (filter keep (records ++ x ∷ [])) ≡ some r) (sym same)
            (find-filter_push own keep r records
              (subst (λ x. own x ≡ true) same (next_limit-own action hash p now none)) recent
              missing))
    | inr (r', found) ↦ elim (Bool-cases (ltb now (blocked_until_ms (some r')))) [
      | inl blocked ↦
          let same : r' ≡ r = eq_of_some (rw (found, blocked, attempt) at e) in
          rw (found, blocked, consume_local_limit)
            (find-filter_kept own keep records r recent (found ∙ ap some same))
      | inr free ↦
          let same : next_limit action hash p now (some r') ≡ r =
            eq_of_some (rw (found, free, attempt) at e) in
          rw (found, free, consume_local_limit)
            (subst (λ x. find own (filter keep (update_first own (λ _. x) records)) ≡ some r)
              (sym same)
              (find-filter_put own keep r records r'
                (subst (λ x. own x ≡ true) same (next_limit-own action hash p now (some r'))) recent
                found))
    ]
  ]
    where
      own : StoredLimit → Bool
      own = same_limit action hash

      keep : StoredLimit → Bool
      keep = is_recent later

  same_verdict :
      (consume_local_limit action hash p now later records).0 ≡ (attempt action hash p now stored).0
  unfolding consume_local_limit attempt
  same_verdict = elim (Bool-cases (ltb now (blocked_until_ms stored))) [
    | inl blocked ↦ rw (blocked, consume_local_limit, attempt)
    | inr free ↦ rw (free, consume_local_limit, attempt)
  ]

  other_stored :
      (b : Action) (k : String)
      → (same_action b action && str_eq k hash) ≡ false
      → find (same_limit b k) (consume_local_limit action hash p now later records).1
        ≡ find (same_limit b k) (filter (is_recent later) records)
  unfolding consume_local_limit
  other_stored b k e = elim (Option-cases stored) [
    | inl missing ↦
        rw (missing, not_ltb_zero now, consume_local_limit)
          (other-filter_push own other keep apart (next_limit action hash p now none) records
            (next_limit-own action hash p now none))
    | inr (r', found) ↦ elim (Bool-cases (ltb now (blocked_until_ms (some r')))) [
      | inl blocked ↦ rw (found, blocked, consume_local_limit)
      | inr free ↦
          rw (found, free, consume_local_limit)
            (other-filter_put own other keep apart (next_limit action hash p now (some r')) records
              (next_limit-own action hash p now (some r')))
    ]
  ]
    where
      own : StoredLimit → Bool
      own = same_limit action hash

      other : StoredLimit → Bool
      other = same_limit b k

      keep : StoredLimit → Bool
      keep = is_recent later

      apart : (x : StoredLimit) → own x ≡ true → other x ≡ false
      apart = limits_apart action b hash k e

-- An attempt answers by the record of its own limit alone, stores what that record becomes, if
-- the write comes within seven days of the record's date, and leaves every other limit as it was
-- but for the records older than seven days.
pub consume_local_limit-attempt :
    (action : Action) (hash : String) (p : Policy) (now later : ℕ) (records : List StoredLimit)
    (r : StoredLimit) (b : Action) (k : String)
    → (attempt action hash p now (stored action hash p now later records)).1 ≡ some r
    → is_recent later r ≡ true
    → (same_action b action && str_eq k hash) ≡ false
    → ((consume_local_limit action hash p now later records).0
        ≡ (attempt action hash p now (stored action hash p now later records)).0)
      × (find (same_limit action hash) (consume_local_limit action hash p now later records).1
          ≡ some r)
      × (find (same_limit b k) (consume_local_limit action hash p now later records).1
          ≡ find (same_limit b k) (filter (is_recent later) records))
consume_local_limit-attempt action hash p now later records r b k e recent apart = (
  same_verdict action hash p now later records,
  own_stored action hash p now later records r e recent,
  other_stored action hash p now later records b k apart,
)

find-eq-none_of_filter :
    (keep own : Test) (records : List StoredLimit)
    → ((x : StoredLimit) → own x ≡ true → keep x ≡ false)
    → find own (filter keep records) ≡ none
unfolding find filter
find-eq-none_of_filter keep own [] h = refl
find-eq-none_of_filter keep own (x ∷ records) h =
    ground (arith, h x, find-eq-none_of_filter keep own records h)

find-none-filter :
    (keep own : Test) (records : List StoredLimit)
    → find own records ≡ none
    → find own (filter keep records) ≡ none
unfolding find filter
find-none-filter keep own [] h = refl
find-none-filter keep own (x ∷ records) h = ground (arith, find-none-filter keep own records)

find-filter-filter :
    (own keep first : Test) (records : List StoredLimit)
    → ((x : StoredLimit) → own x ≡ true → first x ≡ true)
    → find own (filter keep (filter first records)) ≡ find own (filter keep records)
unfolding find filter
find-filter-filter own keep first [] h = refl
find-filter-filter own keep first (x ∷ records) h =
    ground (arith, h x, find-filter-filter own keep first records h)

abbrev pub listed : List String → String → Bool
listed hashes hash = any (λ h. str_eq h hash) hashes

module _ (hashes : List String) (later : ℕ) (records : List StoredLimit) where
  survives : Test
  survives r = not (same_action r.action password) || not (listed hashes r.scope_hash)

  dropped :
      (hash : String) (x : StoredLimit)
      → listed hashes hash ≡ true
      → same_limit password hash x ≡ true
      → survives x ≡ false
  unfolding survives
  dropped hash x h e = let (a, k) = both x.action x.scope_hash e in rw (a, k, h)
    where
      both :
          (a : Action) (k : String)
          → (same_action a password && str_eq k hash) ≡ true
          → (same_action a password ≡ true) × (k ≡ hash)
      both a k t = ground (arith, eq_iff k hash)

  kept :
      (b : Action) (k : String) (x : StoredLimit)
      → (same_action b password && listed hashes k) ≡ false
      → same_limit b k x ≡ true
      → survives x ≡ true
  unfolding survives
  kept b k x h e =
      let (a, same) = both x.action x.scope_hash e in
      rw (same, same_action-eq x.action b a) (ground arith)
    where
      both :
          (a : Action) (j : String)
          → (same_action a b && str_eq j k) ≡ true
          → (same_action a b ≡ true) × (j ≡ k)
      both a j t = ground (arith, eq_iff j k)

-- A reset after a successful sign-in removes the password limits with the given hashes, and
-- leaves every other limit, those of magic links among them, as it was but for the records older
-- than seven days; with no hash it changes nothing.
pub reset_successful_password_limits_lem :
    (first : String) (rest : List String) (hash : String) (later : ℕ) (records : List StoredLimit)
    (b : Action) (k : String)
    → listed (first ∷ rest) hash ≡ true
    → (same_action b password && listed (first ∷ rest) k) ≡ false
    → (find
          (same_limit password hash)
          (reset_successful_password_limits (first ∷ rest) later records)
        ≡ none)
      × (find (same_limit b k) (reset_successful_password_limits (first ∷ rest) later records)
          ≡ find (same_limit b k) (filter (is_recent later) records))
      × (reset_successful_password_limits [] later records ≡ records)
unfolding reset_successful_password_limits survives
reset_successful_password_limits_lem first rest hash later records b k h n = (
  find-none-filter (is_recent later) (same_limit password hash)
      (filter (survives (first ∷ rest) later records) records)
      (find-eq-none_of_filter (survives (first ∷ rest) later records) (same_limit password hash)
        records (λ x. dropped (first ∷ rest) later records hash x h)),
  find-filter-filter (same_limit b k) (is_recent later) (survives (first ∷ rest) later records)
      records (λ x. kept (first ∷ rest) later records b k x n),
  refl,
)
