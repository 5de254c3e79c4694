-- ===== src/Scheduler/Cycle.antt =====
-- One cycle of `evaluateSchedulerOnce` of dashboard/lib/monitoring/scheduler.ts: the cache of
-- definitions, the round over them, and the status that is written.
use web_app_qa_tests_main.Base.{
  ℕ, ◌-◌, String, str_eq, ◌<>◌, Bool, true, false, not, ◌||◌, Option, none, some, List, [], ◌∷◌,
  length, ltb, leb, if◌then◌else◌, or_else, filter,
}
use web_app_qa_tests_main.Schedule.{MonitoringDefinition, Zones}
use web_app_qa_tests_main.Scheduler.{DefinitionState, Snapshot, record_evaluation}
use web_app_qa_tests_main.Scheduler.Round.{JobResult, Terminal, Pass, Draw, evaluate_definitions}

abbrev definition_cache_ms : ℕ
definition_cache_ms = 600000

abbrev scheduler_status_interval_ms : ℕ
scheduler_status_interval_ms = 120000

pub record EvaluationCache : Type 0 where
  pub definitions : Option (List MonitoringDefinition)
  pub loaded_at : ℕ
  pub cached_states : Option (List DefinitionState)
  pub terminals : List (String × Terminal)
  pub written_at : ℕ
  pub written_state : String

pub record EvaluationResult : Type 0 where
  pub definitions_evaluated : ℕ
  pub failures : List String
  pub queued_jobs : ℕ

-- The cached definitions, unless there are none, they are old, or the clock went back.
abbrev pub cached_definitions : (at : ℕ) → EvaluationCache → Option (List MonitoringDefinition)
cached_definitions at c =
    if leb definition_cache_ms (at - c.loaded_at) || ltb at c.loaded_at then none else c.definitions

abbrev pub has_definition : List MonitoringDefinition → String × Terminal → Bool
has_definition [] e = false
has_definition (d ∷ ds) e = str_eq d.id e.0 || has_definition ds e

abbrev join : (separator : String) → List String → String
join separator [] = ""
join separator (x ∷ []) = x
join separator (x ∷ y ∷ ys) = x <> separator <> join separator (y ∷ ys)

module _ (z : Zones) (get : String → Option MonitoringDefinition)
    (stringify : MonitoringDefinition → String)
    (stringify_state : List DefinitionState → List String → ℕ → String)
    (enqueue : MonitoringDefinition → (occurrence_key : String) → JobResult) (draws : ℕ → Draw)
    (scheduler_id : String) where
  abbrev pub pass_from : (at : ℕ) → List MonitoringDefinition → EvaluationCache → Snapshot → Pass
  pass_from at ds c s =
      evaluate_definitions z get stringify enqueue at scheduler_id
        (or_else c.cached_states s.status.definition_states) draws 0 ds
        (record {
          cache_valid = true;
          terminal = c.terminals;
          snapshot = s;
          states = [];
          errors = [];
          jobs_queued = 0;
          jobs_started = [];
        })

  abbrev pub is_written : (at : ℕ) → (state : String) → EvaluationCache → Pass → Bool
  is_written at state c p =
      ltb 0 p.jobs_queued
      || ltb 0 (length p.errors)
      || not (str_eq state c.written_state)
      || leb scheduler_status_interval_ms (at - c.written_at)
      || ltb at c.written_at

  abbrev pub close :
      (at : ℕ)
      → List MonitoringDefinition
      → EvaluationCache
      → Pass
      → EvaluationResult × EvaluationCache × Snapshot
  close at ds c p =
      let count = length ds in
      let state = stringify_state p.states p.errors count in
      let written = is_written at state c p in
      (
        record { definitions_evaluated = count; failures = p.errors; queued_jobs = p.jobs_queued },
        record {
          definitions = if p.cache_valid then some ds else none;
          loaded_at = c.loaded_at;
          cached_states = some p.states;
          terminals = p.terminal;
          written_at = if written then at else c.written_at;
          written_state = if written then state else c.written_state;
        },
        if written
            then record_evaluation
                (record {
                  at = at;
                  states = p.states;
                  evaluated = count;
                  failure = if ltb 0 (length p.errors) then some (join " | " p.errors) else none;
                  queued_now = p.jobs_queued;
                  by = scheduler_id;
                })
                p.snapshot
            else p.snapshot,
      )

  abbrev pub with_definitions :
      (at : ℕ)
      → (fresh : List MonitoringDefinition) → Option (List MonitoringDefinition)
      → EvaluationCache
      → Snapshot
      → EvaluationResult × EvaluationCache × Snapshot
  with_definitions at fresh none c s =
      let reloaded = record c {
        definitions = some fresh;
        loaded_at = at;
        terminals = filter (has_definition fresh) c.terminals;
      } in
      close at fresh reloaded (pass_from at fresh reloaded s)
  with_definitions at fresh (some ds) c s = close at ds c (pass_from at ds c s)

  -- `fresh` is what a reading of every page of the definition store returns.
  unfoldable pub evaluate_scheduler_once :
      (at : ℕ)
      → (fresh : List MonitoringDefinition) → EvaluationCache
      → Snapshot
      → EvaluationResult × EvaluationCache × Snapshot
  unfolding evaluate_definitions record_evaluation filter
  evaluate_scheduler_once at fresh c s = with_definitions at fresh (cached_definitions at c) c s
