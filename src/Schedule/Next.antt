-- ===== src/Schedule/Next.antt =====
-- The next run that getNextScheduledRun of dashboard/lib/monitoring/schedule-evaluator.ts tells.
use web_app_qa_tests_main.Base.{
  ℕ, ◌/◌, ◌≤◌, true, false, ◌&&◌, not, Option, none, some, ◌≡◌, ◌↔◌, ◌⊎◌, refl, arith, inl, inr,
  Option-cases,
}
use web_app_qa_tests_main.Schedule.{
  Frequency, hourly, daily, weekly, MonitoringSchedule, MonitoringDefinition, Zones,
}
use web_app_qa_tests_main.Schedule.Evaluate.{
  ok, minute_ms, maximum_scan, is_hourly, is_weekly, outside, validate_schedule, evaluated,
  get_next_scheduled_run,
}
use web_app_qa_tests_main.Schedule.Scan.{IsNext, scan_ahead_iff}

-- The number is there and no greater than the most.
abbrev pub IsWithin : Option ℕ → (most : ℕ) → Type 0
IsWithin o most = (n : ℕ) × (o ≡ some n) × (n ≤ most)

outside_iff : (o : Option ℕ) (most : ℕ) → (outside o most ≡ false) ↔ IsWithin o most
outside_iff none most = (λ e. cc, λ (n, e, _). cc)
outside_iff (some n) most =
    (λ e. (n, refl, ground arith), λ (m, e, h). let same : n ≡ m = cc in ground arith)

-- A known timezone, a minute of the hour, an hour of the day unless hourly, and a day of the week if
-- weekly.
abbrev pub IsValid : Zones → MonitoringSchedule → Type 0
IsValid z s =
    (z.known s.timezone ≡ true)
    × (s.minute ≤ 59)
    × ((s.frequency ≡ hourly) ⊎ IsWithin s.hour 23)
    × ((s.frequency ≡ hourly) ⊎ (s.frequency ≡ daily) ⊎ IsWithin s.day_of_week 6)

hour_iff :
    (f : Frequency) (o : Option ℕ)
    → ((not (is_hourly f) && outside o 23) ≡ false) ↔ ((f ≡ hourly) ⊎ IsWithin o 23)
hour_iff hourly o = (λ e. inl refl, λ h. refl)
hour_iff daily o =
    (λ e. inr ((outside_iff o 23).0 e), λ h. elim h [ inl h ↦ cc | inr h ↦ (outside_iff o 23).1 h ])
hour_iff weekly o =
    (λ e. inr ((outside_iff o 23).0 e), λ h. elim h [ inl h ↦ cc | inr h ↦ (outside_iff o 23).1 h ])

day_iff :
    (f : Frequency) (o : Option ℕ)
    → ((is_weekly f && outside o 6) ≡ false) ↔ ((f ≡ hourly) ⊎ (f ≡ daily) ⊎ IsWithin o 6)
day_iff hourly o = (λ e. inl refl, λ h. refl)
day_iff daily o = (λ e. inr (inl refl), λ h. refl)
day_iff weekly o = (
  λ e. inr (inr ((outside_iff o 6).0 e)),
  λ h. elim h [ inl h ↦ cc | inr (inl h) ↦ cc | inr (inr h) ↦ (outside_iff o 6).1 h ],
)

module _ (z : Zones) where
  validate_schedule_iff : (s : MonitoringSchedule) → (validate_schedule z s ≡ none) ↔ IsValid z s
  unfolding validate_schedule
  validate_schedule_iff s =
      let (to_hour, of_hour) = hour_iff s.frequency s.hour in
      let (to_day, of_day) = day_iff s.frequency s.day_of_week in
      (
        λ e. (ground arith, ground arith, to_hour (ground arith), to_day (ground arith)),
        λ (known, minute, hour, day).
            let hour' = of_hour hour in let day' = of_day day in ground arith,
      )

  abbrev pub IsNextRun : MonitoringDefinition → (now next : ℕ) → Type 0
  IsNextRun d now next =
      (s : MonitoringSchedule) × (evaluated z d ≡ some s)
      × IsValid z s
      × IsNext z s (maximum_scan s.frequency) (now / minute_ms) next

  -- A next run is told exactly if the definition is enabled and triggered by a schedule whose
  -- timezone is known, with a minute of the hour, an hour of the day unless it is hourly and a
  -- day of the week if it is weekly, and the next run is the first matching minute after the
  -- present one, within the range of the scan.
  pub get_next_scheduled_run_iff :
      (d : MonitoringDefinition) (now next : ℕ)
      → get_next_scheduled_run z d now ≡ ok (some next) ↔ IsNextRun d now next
  unfolding get_next_scheduled_run
  get_next_scheduled_run_iff d now next = (forth, back)
    where
      ok_eq : {a b : Option ℕ} → ok a ≡ ok b → a ≡ b
      ok_eq h = cc

      forth : get_next_scheduled_run z d now ≡ ok (some next) → IsNextRun d now next
      forth e = elim (Option-cases (evaluated z d)) [
        | inl n ↦ let no_run = rw n at e in cc
        | inr (s, y) ↦ elim (Option-cases (validate_schedule z s)) [
          | inl v ↦ (
            s,
            y,
            (validate_schedule_iff s).0 v,
            (scan_ahead_iff z s (now / minute_ms) (maximum_scan s.frequency) next).0
                (ok_eq (rw (y, v) at e)),
          )
          | inr (x, v) ↦ let failed = rw (y, v) at e in cc
        ]
      ]

      back : IsNextRun d now next → get_next_scheduled_run z d now ≡ ok (some next)
      back (s, y, valid, coming) =
          let v = (validate_schedule_iff s).1 valid in
          let found =
            (scan_ahead_iff z s (now / minute_ms) (maximum_scan s.frequency) next).1 coming in
          rw (y, v, found) refl
