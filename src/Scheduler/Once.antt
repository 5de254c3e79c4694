-- ===== src/Scheduler/Once.antt =====
-- A settled occurrence over whole cycles of `evaluateSchedulerOnce` of
-- dashboard/lib/monitoring/scheduler.ts.
use web_app_qa_tests_main.Base.{
  ℕ, ◌+◌, String, str_eq, true, false, Option, none, some, List, [], ◌∷◌, ◌≡◌, ◌⊎◌, inl, inr, refl,
  arith, or_else, All, find, filter, length, count, count-append, Bool-cases,
}
use web_app_qa_tests_main.Schedule.{MonitoringDefinition, ScheduleWindow, Zones}
use web_app_qa_tests_main.Scheduler.{
  DefinitionState, Occurrence, Snapshot, is_settled, get_occurrence, has_occurrence_key,
  record_evaluation,
}
use web_app_qa_tests_main.Scheduler.Operations.{
  Operation, claim, queue, fail, skip, Respects, blocked_stays,
}
use web_app_qa_tests_main.Scheduler.Round.{
  JobResult, Pass, Draw, evaluate_definition, evaluate_definitions,
}
use web_app_qa_tests_main.Scheduler.Cycle.{
  EvaluationCache, evaluate_scheduler_once, pass_from, close, is_written, with_definitions,
  has_definition, cached_definitions,
}
use web_app_qa_tests_main.Scheduler.Trace.{Marks, Started, request, evaluate_definition-Traces}

-- The occurrence is settled as `o`, and `n` runs have been enqueued for it.
abbrev pub StandsSettled : (key : String) → Occurrence → ℕ → Pass → Type 0
StandsSettled key o n p =
    (get_occurrence key p.snapshot ≡ some o)
    × (is_settled o.status ≡ true)
    × (count (λ k. str_eq k key) p.jobs_started ≡ n)

Marks-Respects :
    (key other : String) (limit : ℕ) (ops : List Operation)
    → str_eq other key ≡ false
    → All (Marks other) ops
    → All (Respects key limit) ops
Marks-Respects key other limit [] n h = tt
Marks-Respects key other limit (claim input now uuid ∷ ops) n h = absurd h.0.1
Marks-Respects key other limit (queue k run_id now ∷ ops) n (e, h) =
    ((tt, rw e n), Marks-Respects key other limit ops n h)
Marks-Respects key other limit (fail k message now ∷ ops) n (e, h) =
    ((tt, rw e n), Marks-Respects key other limit ops n h)
Marks-Respects key other limit (skip k reason now ∷ ops) n (e, h) =
    ((tt, rw e n), Marks-Respects key other limit ops n h)

module _ (z : Zones) (get : String → Option MonitoringDefinition)
    (stringify : MonitoringDefinition → String)
    (enqueue : MonitoringDefinition → (occurrence_key : String) → JobResult) (at : ℕ)
    (scheduler_id : String) (previous : List DefinitionState) where
  evaluate_definition-StandsSettled :
      (d : MonitoringDefinition) (t : Draw) (p : Pass) (key : String) (o : Occurrence) (n : ℕ)
      → StandsSettled key o n p
      → StandsSettled key o n
          (evaluate_definition z get stringify enqueue at scheduler_id previous d t p)
  evaluate_definition-StandsSettled d t p key o n (e, s, c) =
      elim (evaluate_definition-Traces z get stringify enqueue at scheduler_id previous d t p) [
        | inl (same, none_new) ↦ (rw same e, s, rw none_new c)
        | inr (w, _, inl (refused, stored, none_new)) ↦
            let (_, still) =
              blocked_stays key (t.claim_at + 1) o (inl s) (claim_op w ∷ []) p.snapshot
                ((tt, omega arith), tt) e in
            (rw stored still, s, rw none_new c)
        | inr (w, _, inr (given, (ops, marks, stored), starts)) ↦
            elim (Bool-cases (str_eq w.occurrence_key key)) [
              | inl same ↦
                  let (nobody, _) =
                    blocked_stays key (t.claim_at + 1) o (inl s) (claim_op w ∷ []) p.snapshot
                      ((tt, omega arith), tt) e in
                  let one = rw (given, same) at nobody in absurd (omega (arith, one))
              | inr other ↦
                  let (_, still) =
                    blocked_stays key (t.claim_at + 1) o (inl s) (claim_op w ∷ ops) p.snapshot
                      (
                        (tt, omega arith),
                        Marks-Respects key w.occurrence_key (t.claim_at + 1) ops other marks,
                      )
                      e in
                  (rw stored still, s, count_lem w other starts)
            ]
      ]
    where
      count_lem :
          (w : ScheduleWindow)
          → str_eq w.occurrence_key key ≡ false
          → ((evaluate_definition z get stringify enqueue at scheduler_id previous d t
                p).jobs_started
              ≡ p.jobs_started)
            ⊎ Started z get stringify enqueue at scheduler_id previous d w p
                (evaluate_definition z get stringify enqueue at scheduler_id previous d t p)
          → count
              (λ k. str_eq k key)
              (evaluate_definition z get stringify enqueue at scheduler_id previous d t
                p).jobs_started
            ≡ n
      count_lem w other (inl none_new) = rw none_new c
      count_lem w other (inr (_, _, _, _, grew)) =
          let nothing : count (λ k. str_eq k key) (w.occurrence_key ∷ []) ≡ 0 =
            rw (other, count) refl in
          let sum = count-append (λ k. str_eq k key) p.jobs_started (w.occurrence_key ∷ []) in
          rw grew (omega (arith, sum, nothing, c))

      claim_op : ScheduleWindow → Operation
      claim_op w =
          claim (request z get stringify enqueue at scheduler_id previous d w) t.claim_at t.uuid

  evaluate_definitions-StandsSettled :
      (draws : ℕ → Draw) (position : ℕ) (ds : List MonitoringDefinition) (p : Pass) (key : String)
      (o : Occurrence) (n : ℕ)
      → StandsSettled key o n p
      → StandsSettled key o n (
          evaluate_definitions z get stringify enqueue at scheduler_id previous draws position ds p)
  unfolding evaluate_definitions
  evaluate_definitions-StandsSettled draws position [] p key o n h = h
  evaluate_definitions-StandsSettled draws position (d ∷ ds) p key o n h =
      evaluate_definitions-StandsSettled draws (position + 1) ds
        (evaluate_definition z get stringify enqueue at scheduler_id previous d (draws position) p)
        key o n (evaluate_definition-StandsSettled d (draws position) p key o n h)

module _ (z : Zones) (get : String → Option MonitoringDefinition)
    (stringify : MonitoringDefinition → String)
    (stringify_state : List DefinitionState → List String → ℕ → String)
    (enqueue : MonitoringDefinition → (occurrence_key : String) → JobResult) (draws : ℕ → Draw)
    (scheduler_id : String) where
  -- The round of a cycle leaves a queued or skipped occurrence as it is and enqueues no run for
  -- it, whatever definitions, cache and store it works with.
  pub settled_not_started :
      (at : ℕ) (ds : List MonitoringDefinition) (c : EvaluationCache) (s : Snapshot) (key : String)
      (o : Occurrence)
      → get_occurrence key s ≡ some o
      → is_settled o.status ≡ true
      → StandsSettled key o 0
          (pass_from z get stringify stringify_state enqueue draws scheduler_id at ds c s)
  settled_not_started at ds c s key o e h =
      evaluate_definitions-StandsSettled z get stringify enqueue at scheduler_id
        (or_else c.cached_states s.status.definition_states) draws 0 ds _ key o 0 (e, h, refl)

  -- One cycle after the other, each with its time and what it reads of the definition store.
  abbrev pub cycles : List (ℕ × List MonitoringDefinition) → EvaluationCache → Snapshot → Snapshot
  cycles [] c s = s
  cycles ((at, fresh) ∷ rest) c s =
      let r =
        evaluate_scheduler_once z get stringify stringify_state enqueue draws scheduler_id at fresh
          c s in
      cycles rest r.1 r.2

  -- The write of the status leaves the occurrences.
  close_occurrences :
      (at : ℕ) (ds : List MonitoringDefinition) (c : EvaluationCache) (p : Pass)
      → (close z get stringify stringify_state enqueue draws scheduler_id at ds c p).2.occurrences
        ≡ p.snapshot.occurrences
  unfolding record_evaluation
  close_occurrences at ds c p =
      elim (Bool-cases (
        is_written z get stringify stringify_state enqueue draws scheduler_id at
          (stringify_state p.states p.errors (length ds)) c p)) [
            | inl w ↦ rw w refl
            | inr w ↦ rw w refl
          ]

  cycle_keeps :
      (at : ℕ) (fresh : List MonitoringDefinition) (c : EvaluationCache) (s : Snapshot)
      (key : String) (o : Occurrence)
      → get_occurrence key s ≡ some o
      → is_settled o.status ≡ true
      → get_occurrence key
          (evaluate_scheduler_once z get stringify stringify_state enqueue draws scheduler_id at
            fresh c s).2
        ≡ some o
  unfolding evaluate_scheduler_once get_occurrence
  cycle_keeps at fresh c s key o e h = by_cache (cached_definitions at c)
    where
      by_cache :
          (cached : Option (List MonitoringDefinition))
          → find
              (has_occurrence_key key)
              (with_definitions z get stringify stringify_state enqueue draws scheduler_id at fresh
                cached c s).2.occurrences
            ≡ some o
      by_cache none =
          let reloaded = record c {
            definitions = some fresh;
            loaded_at = at;
            terminals = filter (has_definition fresh) c.terminals;
          } in
          let p =
            pass_from z get stringify stringify_state enqueue draws scheduler_id at fresh reloaded
              s in
          let (found, _, _) = settled_not_started at fresh reloaded s key o e h in
          rw (close_occurrences at fresh reloaded p) found
      by_cache (some ds) =
          let p = pass_from z get stringify stringify_state enqueue draws scheduler_id at ds c s in
          let (found, _, _) = settled_not_started at ds c s key o e h in
          rw (close_occurrences at ds c p) found

  -- A queued or skipped occurrence is the same after any number of cycles, at any times and with
  -- any definitions.
  pub settled_through_cycles :
      (steps : List (ℕ × List MonitoringDefinition)) (c : EvaluationCache) (s : Snapshot)
      (key : String) (o : Occurrence)
      → get_occurrence key s ≡ some o
      → is_settled o.status ≡ true
      → get_occurrence key (cycles steps c s) ≡ some o
  settled_through_cycles [] c s key o e h = e
  settled_through_cycles ((at, fresh) ∷ rest) c s key o e h =
      settled_through_cycles rest _ _ key o (cycle_keeps at fresh c s key o e h) h
