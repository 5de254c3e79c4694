-- ===== src/Schedule/Windows.antt =====
-- The window that evaluateSchedule of dashboard/lib/monitoring/schedule-evaluator.ts returns.
use web_app_qa_tests_main.Base.{
  ℕ, ◌+◌, ◌*◌, ◌/◌, ◌≤◌, ◌<◌, true, false, ltb, leb, ◌<>◌, Option, none, some, ◌≡◌, ◌↔◌, refl, sym,
  ◌∙◌, subst, arith, inl, inr, Bool-cases, Option-cases, eq_of_some,
}
use web_app_qa_tests_main.Schedule.{MonitoringSchedule, MonitoringDefinition, ScheduleWindow, Zones}
use web_app_qa_tests_main.Schedule.Evaluate.{
  ok, minute_ms, maximum_scan, validate_schedule, scan_for_match, local_occurrence_key, held_back,
  window, evaluated, evaluate_valid, evaluate_found, evaluate_schedule,
}
use web_app_qa_tests_main.Schedule.Scan.{Misses, IsLatest, IsNext, scan_back_iff, scan_ahead_iff}

-- Neighbouring matches stay the latest and the next one until the next is reached.
module _ (z : Zones) (s : MonitoringSchedule) (most : ℕ) where
  spans_later :
      (now later t n : ℕ)
      → IsLatest z s most (now / minute_ms) t
      → IsNext z s most (now / minute_ms) n
      → n ≤ t + most * minute_ms
      → t ≤ later
      → later < n
      → IsLatest z s most (later / minute_ms) t × IsNext z s most (later / minute_ms) n
  spans_later now later t n (i, ti, m, a, b, f) (i', ni, m', a', b', g) near from to = (
    (i, ti, m, omega arith, omega arith, λ j x y. between j x (omega arith)),
    (i', ni, m', omega arith, omega arith, λ j x y. between j (omega arith) y),
  )
    where
      between : (j : ℕ) → i < j → j < i' → Misses z s j
      between j x y = elim (Bool-cases (leb j (now / minute_ms))) [
        | inl h ↦ f j x (ground arith)
        | inr h ↦ g j (ground arith) y
      ]

module _ (z : Zones) (d : MonitoringDefinition) where
  abbrev pub IsSpan : MonitoringSchedule → (now : ℕ) → ScheduleWindow → Type 0
  IsSpan s now w =
      IsLatest z s (maximum_scan s.frequency) (now / minute_ms) w.scheduled_for
      × IsNext z s (maximum_scan s.frequency) (now / minute_ms) w.next_run_at
      × (d.created_at ≤ w.scheduled_for)
      × (held_back z d.schedule_not_before w.scheduled_for ≡ false)
      × (w.occurrence_key ≡ d.id <> ":" <> local_occurrence_key z w.scheduled_for s.timezone)

  -- The schedule is valid, the window spans the present minute, and nothing holds it back.
  abbrev pub IsDue : (now : ℕ) → ScheduleWindow → Type 0
  IsDue now w =
      (s : MonitoringSchedule) × (evaluated z d ≡ some s)
      × (validate_schedule z s ≡ none)
      × IsSpan s now w

  ok_eq : {a b : Option ScheduleWindow} → ok a ≡ ok b → a ≡ b
  ok_eq h = cc

  IsWindow : MonitoringSchedule → Option ℕ → Option ℕ → ScheduleWindow → Type 0
  IsWindow s back ahead w =
      (back ≡ some w.scheduled_for)
      × (ahead ≡ some w.next_run_at)
      × (d.created_at ≤ w.scheduled_for)
      × (held_back z d.schedule_not_before w.scheduled_for ≡ false)
      × (w.occurrence_key ≡ d.id <> ":" <> local_occurrence_key z w.scheduled_for s.timezone)

  window_iff :
      (s : MonitoringSchedule) (back ahead : Option ℕ) (w : ScheduleWindow)
      → window z d s back ahead ≡ some w ↔ IsWindow s back ahead w
  unfolding IsWindow
  window_iff s none ahead w = (λ e. cc, λ h. cc)
  window_iff s (some t) none w = (λ e. cc, λ h. cc)
  window_iff s (some t) (some n) w = (forth, back)
    where
      forth : window z d s (some t) (some n) ≡ some w → IsWindow s (some t) (some n) w
      forth e = elim (Bool-cases (ltb t d.created_at)) [
        | inl x ↦ let no_window = rw x at e in cc
        | inr x ↦ elim (Bool-cases (held_back z d.schedule_not_before t)) [
          | inl y ↦ let no_window = rw (x, y) at e in cc
          | inr y ↦
              let same = eq_of_some (rw (x, y) at e) in
              subst (IsWindow s (some t) (some n)) same (refl, refl, ground arith, y, refl)
        ]
      ]

      back : IsWindow s (some t) (some n) w → window z d s (some t) (some n) ≡ some w
      back (a, b, c, h, k) =
          let due : ltb w.scheduled_for d.created_at ≡ false = ground arith in
          rw (eq_of_some a, eq_of_some b, due, h, sym k) refl

  evaluate_valid_iff :
      (now : ℕ) (s : MonitoringSchedule) (w : ScheduleWindow)
      → evaluate_valid z d s now none ≡ ok (some w) ↔ IsSpan s now w
  unfolding evaluate_valid IsWindow
  evaluate_valid_iff now s w = (forth, back)
    where
      q : ℕ
      q = now / minute_ms

      most : ℕ
      most = maximum_scan s.frequency

      seen : Option ℕ
      seen = scan_for_match z (q * minute_ms) s false most true

      coming : Option ℕ
      coming = scan_for_match z (q * minute_ms) s true most false

      forth : ok (window z d s seen coming) ≡ ok (some w) → IsSpan s now w
      forth e =
          let (a, b, c, h, k) = (window_iff s seen coming w).0 (ok_eq e) in
          (
            (scan_back_iff z s q most w.scheduled_for).0 a,
            (scan_ahead_iff z s q most w.next_run_at).0 b,
            c,
            h,
            k,
          )

      back : IsSpan s now w → ok (window z d s seen coming) ≡ ok (some w)
      back (a, b, c, h, k) =
          let seen_eq = (scan_back_iff z s q most w.scheduled_for).1 a in
          let coming_eq = (scan_ahead_iff z s q most w.next_run_at).1 b in
          rw ((window_iff s seen coming w).1 (seen_eq, coming_eq, c, h, k)) refl

  -- An evaluation returns a window exactly if the definition is enabled and on a valid schedule,
  -- the scheduled time is the last matching minute up to now and the next run the first matching
  -- minute after it, both within the range of the scan, the scheduled time is not before the
  -- creation and not held back, and the key names the definition and the local time.
  pub evaluate_schedule_iff :
      (now : ℕ) (w : ScheduleWindow) → evaluate_schedule z d now ≡ ok (some w) ↔ IsDue now w
  unfolding evaluate_schedule evaluate_found evaluate_valid
  evaluate_schedule_iff now w = (forth, back)
    where
      forth : evaluate_schedule z d now ≡ ok (some w) → IsDue now w
      forth e = elim (Option-cases (evaluated z d)) [
        | inl n ↦ let no_window = rw n at e in cc
        | inr (s, y) ↦ elim (Option-cases (validate_schedule z s)) [
          | inl v ↦ (s, y, v, (evaluate_valid_iff now s w).0 (rw (y, v) at e))
          | inr (x, v) ↦ let failed = rw (y, v) at e in cc
        ]
      ]

      back : IsDue now w → evaluate_schedule z d now ≡ ok (some w)
      back (s, y, v, r) = rw (y, v) ((evaluate_valid_iff now s w).1 r)

  -- Between two occurrences that lie within one scan of each other, the evaluation does not
  -- depend on the time it is made: it returns the same window, so the same occurrence key.
  pub evaluate_schedule_stable :
      (now later : ℕ) (w : ScheduleWindow) (s : MonitoringSchedule)
      → evaluated z d ≡ some s
      → evaluate_schedule z d now ≡ ok (some w)
      → w.next_run_at ≤ w.scheduled_for + maximum_scan s.frequency * minute_ms
      → w.scheduled_for ≤ later
      → later < w.next_run_at
      → evaluate_schedule z d later ≡ ok (some w)
  evaluate_schedule_stable now later w s y e near from to =
      let (s', y', v, (l, n, c, h, k)) = (evaluate_schedule_iff now w).0 e in
      let same : s ≡ s' = eq_of_some (sym y ∙ y') in
      let (l', n') =
        spans_later z s' (maximum_scan s'.frequency) now later w.scheduled_for w.next_run_at l n
          (rw same at near) from to in
      (evaluate_schedule_iff later w).1 (s', y', v, (l', n', c, h, k))
