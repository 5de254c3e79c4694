-- ===== src/Schedule/Scan.antt =====
-- What scanForMatch of dashboard/lib/monitoring/schedule-evaluator.ts finds, minute by minute.
use web_app_qa_tests_main.Base.{
  ℕ, zero, suc, ◌+◌, ◌-◌, ◌*◌, ◌≤◌, ◌<◌, ◌==◌, Bool, true, false, if◌then◌else◌, some, ◌≡◌, ◌↔◌,
  refl, sym, subst, arith, inl, inr, Bool-cases, eq_of_some,
}
use web_app_qa_tests_main.Schedule.{MonitoringSchedule, Zones}
use web_app_qa_tests_main.Schedule.Evaluate.{minute_ms, matches_schedule, scan_from, scan_for_match}

module _ (z : Zones) (s : MonitoringSchedule) where
  abbrev pub Matches : (minute : ℕ) → Type 0
  Matches i = matches_schedule z (i * minute_ms) s ≡ true

  abbrev pub Misses : (minute : ℕ) → Type 0
  Misses i = matches_schedule z (i * minute_ms) s ≡ false

  -- The last matching minute up to the minute `q`, no further back than `most`.
  abbrev pub IsLatest : (most q t : ℕ) → Type 0
  IsLatest most q t =
      (i : ℕ) × (t ≡ i * minute_ms)
      × Matches i
      × (i ≤ q)
      × (q ≤ i + most)
      × ((j : ℕ) → i < j → j ≤ q → Misses j)

  -- The first matching minute after the minute `q`, no further than `most`.
  abbrev pub IsNext : (most q t : ℕ) → Type 0
  IsNext most q t =
      (i : ℕ) × (t ≡ i * minute_ms)
      × Matches i
      × (q < i)
      × (i ≤ q + most)
      × ((j : ℕ) → q < j → j < i → Misses j)

  -- The minute that an offset reaches.
  abbrev minute_at : (forward : Bool) → (q offset : ℕ) → ℕ
  minute_at forward q offset = if forward then q + offset else q - offset

  candidate_lem :
      (forward : Bool) (q offset : ℕ)
      → (if forward then q * minute_ms + offset * minute_ms else q * minute_ms - offset * minute_ms)
        ≡ minute_at forward q offset * minute_ms
  candidate_lem true q offset = omega arith
  candidate_lem false q offset = omega arith

  -- What a loop of `rounds` rounds from `offset` on returns: the first hit.
  abbrev IsHit : (forward : Bool) → (q rounds offset t : ℕ) → Type 0
  IsHit forward q rounds offset t =
      (k : ℕ) × (t ≡ minute_at forward q k * minute_ms)
      × Matches (minute_at forward q k)
      × (offset ≤ k)
      × (k < offset + rounds)
      × ((j : ℕ) → offset ≤ j → j < k → Misses (minute_at forward q j))

  Misses-from :
      (forward : Bool) (q offset k : ℕ)
      → Misses (minute_at forward q offset)
      → ((j : ℕ) → offset + 1 ≤ j → j < k → Misses (minute_at forward q j))
      → (j : ℕ) → offset ≤ j
      → j < k
      → Misses (minute_at forward q j)
  Misses-from forward q offset k n f j a b = elim (Bool-cases (j == offset)) [
    | inl h ↦ let same : j ≡ offset = ground arith in rw same n
    | inr h ↦ f j (ground arith) b
  ]

  scan_from-IsHit :
      (forward : Bool) (q rounds offset t : ℕ)
      → scan_from z forward (q * minute_ms) s rounds offset ≡ some t
      → IsHit forward q rounds offset t
  unfolding scan_from
  scan_from-IsHit forward q zero offset t e = cc
  scan_from-IsHit forward q (suc rounds) offset t e =
      elim (Bool-cases (matches_schedule z (minute_at forward q offset * minute_ms) s)) [
        | inl h ↦
            let hit = rw (candidate_lem forward q offset, h) at e in
            (
              offset,
              sym (eq_of_some hit),
              h,
              omega arith,
              omega arith,
              λ j a b. absurd (omega arith),
            )
        | inr n ↦
            let later = rw (candidate_lem forward q offset, n) at e in
            let (k, c, m, a, b, f) = scan_from-IsHit forward q rounds (offset + 1) t later in
            (k, c, m, omega arith, omega arith, Misses-from forward q offset k n f)
      ]

  IsHit-scan_from :
      (forward : Bool) (q rounds offset t : ℕ)
      → IsHit forward q rounds offset t
      → scan_from z forward (q * minute_ms) s rounds offset ≡ some t
  unfolding scan_from
  IsHit-scan_from forward q zero offset t (k, c, m, a, b, f) = absurd (omega (arith, a, b))
  IsHit-scan_from forward q (suc rounds) offset t (k, c, m, a, b, f) =
      elim (Bool-cases (k == offset)) [
        | inl y ↦
            let same : k ≡ offset = ground arith in
            let here = rw same at m in
            let time = rw same at c in rw (candidate_lem forward q offset, here, time) refl
        | inr n ↦
            let miss = f offset (omega arith) (ground arith) in
            rw (candidate_lem forward q offset, miss)
              (IsHit-scan_from forward q rounds (offset + 1) t
                (k, c, m, ground arith, omega arith, λ j x y. f j (omega arith) y))
      ]

  minus_minus : (q j : ℕ) → j ≤ q → q - (q - j) ≡ j
  minus_minus q j h = omega arith

  plus_minus : (q j : ℕ) → q < j → q + (j - q) ≡ j
  plus_minus q j h = omega arith

  pub scan_back_iff :
      (q most t : ℕ)
      → scan_for_match z (q * minute_ms) s false most true ≡ some t ↔ IsLatest most q t
  unfolding scan_for_match
  scan_back_iff q most t = (forth, back)
    where
      forth : scan_from z false (q * minute_ms) s (most + 1) 0 ≡ some t → IsLatest most q t
      forth e =
          let (k, c, m, a, b, f) = scan_from-IsHit false q (most + 1) 0 t e in
          (
            q - k,
            c,
            m,
            omega arith,
            omega arith,
            λ j x y. subst Misses (minus_minus q j y) (f (q - j) (omega arith) (omega arith)),
          )

      back : IsLatest most q t → scan_from z false (q * minute_ms) s (most + 1) 0 ≡ some t
      back (i, c, m, a, b, f) = IsHit-scan_from false q (most + 1) 0 t (
        q - i,
        rw (minus_minus q i a) c,
        rw (minus_minus q i a) m,
        omega arith,
        omega arith,
        λ j x y. f (q - j) (omega arith) (omega arith),
      )

  pub scan_ahead_iff :
      (q most t : ℕ) → scan_for_match z (q * minute_ms) s true most false ≡ some t ↔ IsNext most q t
  unfolding scan_for_match
  scan_ahead_iff q most t = (forth, back)
    where
      forth : scan_from z true (q * minute_ms) s most 1 ≡ some t → IsNext most q t
      forth e =
          let (k, c, m, a, b, f) = scan_from-IsHit true q most 1 t e in
          (
            q + k,
            c,
            m,
            omega arith,
            omega arith,
            λ j x y. subst Misses (plus_minus q j x) (f (j - q) (omega arith) (omega arith)),
          )

      back : IsNext most q t → scan_from z true (q * minute_ms) s most 1 ≡ some t
      back (i, c, m, a, b, f) = IsHit-scan_from true q most 1 t (
        i - q,
        rw (plus_minus q i a) c,
        rw (plus_minus q i a) m,
        omega arith,
        omega arith,
        λ j x y. f (q + j) (omega arith) (omega arith),
      )
