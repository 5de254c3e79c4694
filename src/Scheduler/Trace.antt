-- ===== src/Scheduler/Trace.antt =====
-- The evaluation of one definition as operations on the store: what `evaluateSchedulerOnce` of
-- dashboard/lib/monitoring/scheduler.ts does to the occurrences, and when it enqueues a run.
use web_app_qa_tests_main.Base.{
  ℕ, String, str_eq, eq_iff, true, false, Option, none, some, List, [], ◌∷◌, ◌++◌, ◌≡◌, ◌⊎◌, inl,
  inr, refl, All, Bool-cases, Option-cases,
}
use web_app_qa_tests_main.Schedule.{MonitoringDefinition, ScheduleWindow, Zones}
use web_app_qa_tests_main.Schedule.Evaluate.{
  Checked, ok, err, evaluate_schedule, get_next_scheduled_run,
}
use web_app_qa_tests_main.Scheduler.{
  DefinitionState, ClaimRequest, is_settled, claim_occurrence, mark_queued, mark_failed,
  mark_skipped,
}
use web_app_qa_tests_main.Scheduler.Operations.{Operation, claim, queue, fail, skip, after_all}
use web_app_qa_tests_main.Scheduler.Round.{
  JobResult, run_queued, run_deferred, run_failed, run_threw, Pass, Draw, enqueued, same_window,
  refuse, note_start, authorised, fresh_window, claimed_new, window_found, no_window,
  evaluated_window, caught, evaluate_definition, is_skip, get_terminal, is_key,
}

-- A mark on the occurrence with the key.
abbrev pub Marks : String → Operation → Type 0
Marks key (claim input now uuid) = Unit × ⊥
Marks key (queue key' run_id now) = key' ≡ key
Marks key (fail key' message now) = key' ≡ key
Marks key (skip key' reason now) = key' ≡ key

-- Only marks of the occurrence.
abbrev pub OnlyMarks : (key : String) → (before after : Pass) → Type 0
OnlyMarks key p q =
    (ops : List Operation) × All (Marks key) ops × (q.snapshot ≡ after_all ops p.snapshot)

-- A window with the occurrence's key is a window.
in_window :
    (v : Option ScheduleWindow) (w : ScheduleWindow) (c : Checked (Option ScheduleWindow))
    → c ≡ ok v
    → same_window v w ≡ true
    → (u : ScheduleWindow) × (c ≡ ok (some u)) × (u.occurrence_key ≡ w.occurrence_key)
in_window none w c e k = cc
in_window (some u) w c e k = (u, e, (eq_iff u.occurrence_key w.occurrence_key).0 k)

module _ (z : Zones) (get : String → Option MonitoringDefinition)
    (stringify : MonitoringDefinition → String)
    (enqueue : MonitoringDefinition → (occurrence_key : String) → JobResult) (at : ℕ)
    (scheduler_id : String) (previous : List DefinitionState) where
  abbrev pub request : MonitoringDefinition → ScheduleWindow → ClaimRequest
  request d w = record {
    campaign_id = d.campaign_id;
    claimed_by = scheduler_id;
    definition_id = d.id;
    occurrence_key = w.occurrence_key;
    scheduled_for = w.scheduled_for;
  }

  -- A run was enqueued for the occurrence: the definition, loaded again, is the cached one, and it
  -- is still due for this occurrence.
  abbrev pub Started : MonitoringDefinition → ScheduleWindow → (before after : Pass) → Type 0
  Started d w p q =
      (fresh : MonitoringDefinition) × (get d.id ≡ some fresh)
      × (stringify fresh ≡ stringify d)
      × ((v : ScheduleWindow) × (fresh_window z at fresh ≡ ok (some v))
          × (v.occurrence_key ≡ w.occurrence_key))
      × (q.jobs_started ≡ p.jobs_started ++ w.occurrence_key ∷ [])

  -- Nothing is stored or enqueued; or a claim is refused, and nothing is enqueued; or the claim is
  -- granted, and then only this occurrence is marked and at most one run enqueued for it.
  abbrev pub Traces : MonitoringDefinition → Draw → (before after : Pass) → Type 0
  Traces d t p q =
      ((q.snapshot ≡ p.snapshot) × (q.jobs_started ≡ p.jobs_started))
      ⊎ ((w : ScheduleWindow) × (evaluate_schedule z d at ≡ ok (some w))
          × (let r = claim_occurrence (request d w) t.claim_at t.uuid p.snapshot in
              ((r.0.created ≡ false) × (q.snapshot ≡ r.1) × (q.jobs_started ≡ p.jobs_started))
              ⊎ ((r.0.created ≡ true)
                  × OnlyMarks w.occurrence_key (record p { snapshot = r.1 }) q
                  × ((q.jobs_started ≡ p.jobs_started) ⊎ Started d w p q))))

  Did : (key : String) → Pass → Pass → Type 0
  Did key p q = OnlyMarks key p q × (q.jobs_started ≡ p.jobs_started)

  enqueued-Did :
      (d : MonitoringDefinition) (w : ScheduleWindow) (mark_at : ℕ) (r : JobResult) (p : Pass)
      → Did w.occurrence_key p
          (caught d (enqueued z get stringify enqueue at scheduler_id previous d w mark_at r p))
  unfolding Did
  enqueued-Did d w mark_at (run_queued run_id) p =
      elim (Option-cases (mark_queued w.occurrence_key run_id mark_at p.snapshot)) [
        | inl e ↦ rw e (([], tt, refl), refl)
        | inr (s, e) ↦
            rw e ((queue w.occurrence_key run_id mark_at ∷ [], (refl, tt), rw e refl), refl)
      ]
  enqueued-Did d w mark_at (run_deferred reason) p = elim (Bool-cases (is_skip d.run_policy)) [
    | inl t ↦ elim (Option-cases (mark_skipped w.occurrence_key reason mark_at p.snapshot)) [
      | inl e ↦ rw (t, e) (([], tt, refl), refl)
      | inr (s, e) ↦
          rw (t, e) ((skip w.occurrence_key reason mark_at ∷ [], (refl, tt), rw e refl), refl)
    ]
    | inr n ↦ rw n (([], tt, refl), refl)
  ]
  enqueued-Did d w mark_at (run_failed reason) p =
      elim (Option-cases (mark_failed w.occurrence_key reason mark_at p.snapshot)) [
        | inl e ↦ rw e (([], tt, refl), refl)
        | inr (s, e) ↦
            rw e ((fail w.occurrence_key reason mark_at ∷ [], (refl, tt), rw e refl), refl)
      ]
  enqueued-Did d w mark_at (run_threw message) p = (([], tt, refl), refl)

  refuse-Did :
      (d : MonitoringDefinition) (w : ScheduleWindow) (mark_at : ℕ) (p : Pass)
      → Did w.occurrence_key p (caught d (refuse w mark_at p))
  unfolding Did
  refuse-Did d w mark_at p =
      elim (Option-cases (mark_failed w.occurrence_key changed mark_at p.snapshot)) [
        | inl e ↦ rw e (([], tt, refl), refl)
        | inr (s, e) ↦
            rw e ((fail w.occurrence_key changed mark_at ∷ [], (refl, tt), rw e refl), refl)
      ]
    where
      changed : String
      changed = "Monitoring configuration changed; refresh before enqueue."

  -- What follows a granted claim.
  Follows : MonitoringDefinition → ScheduleWindow → (before after : Pass) → Type 0
  Follows d w p q =
      OnlyMarks w.occurrence_key p q × ((q.jobs_started ≡ p.jobs_started) ⊎ Started d w p q)

  Did-Follows :
      (d : MonitoringDefinition) (w : ScheduleWindow) (p q : Pass)
      → Did w.occurrence_key p q
      → Follows d w p q
  unfolding Did Follows
  Did-Follows d w p q (marks, same) = (marks, inl same)

  claimed_new-Follows :
      (d : MonitoringDefinition) (w : ScheduleWindow) (mark_at : ℕ) (p : Pass)
      → Follows d w p (
          caught d
            (claimed_new z get stringify enqueue at scheduler_id previous d w mark_at (get d.id) p))
  unfolding Follows Did
  claimed_new-Follows d w mark_at p = loaded (get d.id) refl
    where
      decided :
          (fresh : MonitoringDefinition)
          → get d.id ≡ some fresh
          → (c : Checked (Option ScheduleWindow)) → fresh_window z at fresh ≡ c
          → Follows d w p (
              caught d
                (authorised z get stringify enqueue at scheduler_id previous d w mark_at fresh c p))
      decided fresh e (err x) c = (([], tt, refl), inl refl)
      decided fresh e (ok v) c = elim (Bool-cases (str_eq (stringify fresh) (stringify d))) [
        | inr n ↦
            rw n (Did-Follows d w p (caught d (refuse w mark_at p)) (refuse-Did d w mark_at p))
        | inl t ↦ elim (Bool-cases (same_window v w)) [
          | inr n ↦
              rw (t, n)
                (Did-Follows d w p (caught d (refuse w mark_at p)) (refuse-Did d w mark_at p))
          | inl k ↦
              let (marks, same) =
                enqueued-Did d w mark_at (enqueue fresh w.occurrence_key) (note_start w p) in
              rw (t, k)
                (
                  marks,
                  inr (
                    fresh,
                    e,
                    (eq_iff (stringify fresh) (stringify d)).0 t,
                    in_window v w (fresh_window z at fresh) c k,
                    same,
                  ),
                )
        ]
      ]

      loaded :
          (o : Option MonitoringDefinition)
          → get d.id ≡ o
          → Follows d w p (
              caught d
                (claimed_new z get stringify enqueue at scheduler_id previous d w mark_at o p))
      loaded none e = Did-Follows d w p (caught d (refuse w mark_at p)) (refuse-Did d w mark_at p)
      loaded (some fresh) e = decided fresh e (fresh_window z at fresh) refl

  claim_answered-Traces :
      (d : MonitoringDefinition) (t : Draw) (w : ScheduleWindow) (p : Pass)
      → evaluate_schedule z d at ≡ ok (some w)
      → Traces d t p (
          caught d (
            window_found z get stringify enqueue at scheduler_id previous d t
              (get_terminal d.id p.terminal)
              w
              p))
  unfolding Follows
  claim_answered-Traces d t w p due = elim (Bool-cases (is_key w (get_terminal d.id p.terminal))) [
    | inl k ↦ rw k (inl (refl, refl))
    | inr n ↦
        elim (Bool-cases (claim_occurrence (request d w) t.claim_at t.uuid p.snapshot).0.created) [
          | inr refused ↦
              let answer = claim_occurrence (request d w) t.claim_at t.uuid p.snapshot in
              elim (Bool-cases (is_settled answer.0.occurrence.status)) [
                | inl s ↦ rw (n, refused, s) (inr (w, due, inl (refused, refl, refl)))
                | inr s ↦ rw (n, refused, s) (inr (w, due, inl (refused, refl, refl)))
              ]
          | inl given ↦
              let (marks, starts) = claimed_new-Follows d w t.mark_at (record p {
                snapshot = (claim_occurrence (request d w) t.claim_at t.uuid p.snapshot).1;
              }) in
              rw (n, given) (inr (w, due, inr (given, marks, starts)))
        ]
  ]

  -- The evaluation of one definition stores and enqueues nothing; or claims the due occurrence in
  -- vain and enqueues nothing; or is granted the claim, and then only marks this occurrence and
  -- enqueues at most one run for it, and that only if the definition, loaded again, reads like
  -- the cached one and is still due for this occurrence.
  pub evaluate_definition-Traces :
      (d : MonitoringDefinition) (t : Draw) (p : Pass)
      → Traces d t p (evaluate_definition z get stringify enqueue at scheduler_id previous d t p)
  unfolding evaluate_definition
  evaluate_definition-Traces d t p = by_window (evaluate_schedule z d at) refl
    where
      no_run :
          (c : Checked (Option ℕ))
          → Traces d t p
              (caught d (no_window z get stringify enqueue at scheduler_id previous d c p))
      no_run (err e) = inl (refl, refl)
      no_run (ok next) = inl (refl, refl)

      by_window :
          (c : Checked (Option ScheduleWindow))
          → evaluate_schedule z d at ≡ c
          → Traces d t p
              (caught d (evaluated_window z get stringify enqueue at scheduler_id previous d t c p))
      by_window (err e) same = inl (refl, refl)
      by_window (ok none) same = no_run (get_next_scheduled_run z d at)
      by_window (ok (some w)) same = claim_answered-Traces d t w p same
