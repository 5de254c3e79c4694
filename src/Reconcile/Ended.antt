-- ===== src/Reconcile/Ended.antt =====
-- What the reconciliation of dashboard/lib/inssa-ops/execution-recovery.ts leaves.
use web_app_qa_tests_main.Base.{
  ℕ, ◌-◌, String, str_eq, eq_iff, eq_refl, [], ◌∷◌, ◌++◌, Bool, true, false, none, some, ◌≡◌, ◌⊎◌,
  inl, inr, refl, sym, ◌∙◌, subst, or_else, find, find-eq-some, find-update_first,
  find-update_first_other, update_first, Bool-cases, Option-cases, eq_of_some,
}
use web_app_qa_tests_main.Jobs.{ExecutionJob, is_terminal}
use web_app_qa_tests_main.Reconcile.{
  Run, RunStatus, run_failed, run_failed_startup, World, reason_of, log_line, reconciled,
  is_terminal_status, is_run, ended_status, ended_run, reconcile_terminal_execution_job_run,
}

-- The date that the job has, or else the present time.
abbrev pub IsCompletion : ExecutionJob → (now completion : ℕ) → Type 0
IsCompletion job now completion =
    (job.completed_at ≡ some completion) ⊎ ((job.completed_at ≡ none) × (completion ≡ now))

-- A run that has started has failed, counted from its start, another has failed at startup, counted
-- from its creation.
abbrev pub EndsAs : Run → RunStatus → (from : ℕ) → Type 0
EndsAs r status from =
    ((r.started_at ≡ some from) × (status ≡ run_failed))
    ⊎ ((r.started_at ≡ none) × (from ≡ r.created_at) × (status ≡ run_failed_startup))

EndsAs-is_terminal :
    (r : Run) (status : RunStatus) (from : ℕ)
    → EndsAs r status from
    → is_terminal_status status ≡ true
EndsAs-is_terminal r status from (inl (_, e)) = rw e refl
EndsAs-is_terminal r status from (inr (_, _, e)) = rw e refl

ended_status-EndsAs : (r : Run) → EndsAs r (ended_status r) (or_else r.started_at r.created_at)
ended_status-EndsAs r = elim (Option-cases r.started_at) [
  | inl e ↦ rw e (inr (refl, refl, refl))
  | inr (at, e) ↦ rw e (inl (refl, refl))
]

or_else-IsCompletion :
    (job : ExecutionJob) (now : ℕ) → IsCompletion job now (or_else job.completed_at now)
or_else-IsCompletion job now = elim (Option-cases job.completed_at) [
  | inl e ↦ rw e (inr (refl, refl))
  | inr (at, e) ↦ rw e (inl refl)
]

module _ (job : ExecutionJob) (now updated : ℕ) (w : World) where
  -- Nothing is to be done, and nothing changes.
  abbrev pub IsLeft : Bool × World → Type 0
  IsLeft out =
      (out ≡ (false, w))
      × ((is_terminal job.status ≡ false)
          ⊎ (find (is_run job.run_id) w.runs ≡ none)
          ⊎ ((r : Run) × (find (is_run job.run_id) w.runs ≡ some r)
              × (is_terminal_status r.status ≡ true)))

  -- The run `r` is ended; one outcome, one line and one audit event tell of it.
  abbrev pub IsEnded : Run → Bool × World → Type 0
  IsEnded r out =
      (completion : ℕ) × (from : ℕ) × (status : RunStatus) × IsCompletion job now completion
      × EndsAs r status from
      × (let after = record r {
        completed_at = some completion;
        duration_ms = some (completion - from);
        status = status;
        updated_at = updated;
      } in
          (find (is_run job.run_id) out.1.runs ≡ some after)
          × (out.1.outcomes
              ≡ w.outcomes
                ++ record { run = after; status = status; duration_ms = completion - from } ∷ [])
          × ((reason : String) × (out.1.audits
                ≡ w.audits
                  ++ record {
                    attempt = job.attempt;
                    execution_job_id = job.id;
                    reason = reason;
                    run_id = job.run_id;
                    status = status;
                  }
                    ∷ []))
          × ((line : String) × (out.1.logs ≡ w.logs ++ (job.run_id, line) ∷ []))
          × ((id : String)
              → (str_eq id job.run_id ≡ true)
                ⊎ (find (is_run id) out.1.runs ≡ find (is_run id) w.runs)))

  abbrev pub Reconciles : Bool × World → Type 0
  Reconciles out =
      IsLeft out
      ⊎ ((r : Run) × (out.0 ≡ true)
          × (is_terminal job.status ≡ true)
          × (is_terminal_status r.status ≡ false)
          × (find (is_run job.run_id) w.runs ≡ some r)
          × IsEnded r out)

  str_eq-false : (a b : String) → str_eq a b ≡ false → str_eq b a ≡ false
  str_eq-false a b n = elim (Bool-cases (str_eq b a)) [
    | inr f ↦ f
    | inl t ↦
        let same : b ≡ a = (eq_iff b a).0 t in
        let other : str_eq a a ≡ false = rw same at n in
        let self : str_eq a a ≡ true = eq_refl a in cc
  ]

  reconciled-IsEnded :
      (r : Run)
      → find (is_run job.run_id) w.runs ≡ some r
      → IsEnded r (true, reconciled job (or_else job.completed_at now) updated r w)
  reconciled-IsEnded r e =
      let own = find-eq-some (is_run job.run_id) w.runs r e in
      let same : r.id ≡ job.run_id = (eq_iff r.id job.run_id).0 own in
      let at = or_else job.completed_at now in
      (
        at,
        or_else r.started_at r.created_at,
        ended_status r,
        or_else-IsCompletion job now,
        ended_status-EndsAs r,
        (
          subst
              (λ id.
                find (is_run job.run_id)
                  (update_first (is_run id) (λ x. ended_run at updated r) w.runs)
                ≡ some (ended_run at updated r))
              (sym same)
              (find-update_first (is_run job.run_id) (λ x. ended_run at updated r) w.runs r e own),
          refl,
          (reason_of job, rw same refl),
          (log_line job, rw same refl),
          λ id. elim (Bool-cases (str_eq id job.run_id)) [
            | inl t ↦ inl t
            | inr n ↦ inr (
                find-update_first_other (is_run id) (is_run r.id) (λ x. ended_run at updated r)
                  w.runs
                  (λ x h.
                    let own_id : x.id ≡ r.id = (eq_iff x.id r.id).0 h in
                    let apart = str_eq-false id job.run_id n in rw (own_id, same) apart)
                  (λ x h. let apart = str_eq-false id job.run_id n in rw same apart))
          ],
        ),
      )

  -- A reconciliation changes nothing if the job is not terminal or its run is missing or over;
  -- otherwise it reports so, and the run that the store holds under its id is then ended as
  -- failed, or as failed at startup if it never started, completed at the completion date of the
  -- job or else at the present time, with the time since its start or else its creation as its
  -- duration, and the date of the change; nothing else of it changes, and no run of another id;
  -- one outcome with that status and duration, one audit event and one line of log are added.
  pub reconcile-Reconciles : Reconciles (reconcile_terminal_execution_job_run job now updated w)
  unfolding reconcile_terminal_execution_job_run
  reconcile-Reconciles = elim (Bool-cases (is_terminal job.status)) [
    | inr n ↦ inl (rw n refl, inl n)
    | inl t ↦ elim (Option-cases (find (is_run job.run_id) w.runs)) [
      | inl e ↦ inl (rw (t, e) refl, inr (inl e))
      | inr (r, e) ↦ elim (Bool-cases (is_terminal_status r.status)) [
        | inl over ↦ inl (rw (t, e, over) refl, inr (inr (r, e, over)))
        | inr live ↦
            inr (r, rw (t, e, live) refl, t, live, e, rw (t, e, live) (reconciled-IsEnded r e))
      ]
    ]
  ]

-- Reconciling the same job again, at any time, reports nothing and changes nothing.
pub reconcile_idempotent :
    (job : ExecutionJob) (now updated later again : ℕ) (w : World)
    → let after = (reconcile_terminal_execution_job_run job now updated w).1 in
      reconcile_terminal_execution_job_run job later again after ≡ (false, after)
reconcile_idempotent job now updated later again w =
    elim (reconcile-Reconciles job later again
      (reconcile_terminal_execution_job_run job now updated w).1) [
        | inl (same, _) ↦ same
        | inr (r, _, t, live, found, _) ↦ elim (reconcile-Reconciles job now updated w) [
          | inl (same, inl n) ↦ cc
          | inl (same, inr (inl e)) ↦ let found' = rw same at found in cc
          | inl (same, inr (inr (s, e, over))) ↦
              let found' = rw same at found in
              let eq : s ≡ r = eq_of_some (sym e ∙ found') in let over' = rw eq at over in cc
          | inr (s, _, _, _, _, (completion, from, status, _, ends, (ended, _, _, _, _))) ↦
              let after : Run = record s {
                completed_at = some completion;
                duration_ms = some (completion - from);
                status = status;
                updated_at = updated;
              } in
              let eq : after ≡ r = eq_of_some (sym ended ∙ found) in
              let over = EndsAs-is_terminal s status from ends in
              let live' = rw (sym eq) at live in cc
        ]
      ]
