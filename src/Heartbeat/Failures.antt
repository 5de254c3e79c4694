-- ===== src/Heartbeat/Failures.antt =====
-- The failure count of execution-lease.ts over any sequence of events.
use web_app_qa_tests_main.Base.{ℕ, ◌<◌, true, false, none, List, [], ◌∷◌, ◌≡◌, ◌⊎◌, arith, All}
use web_app_qa_tests_main.Heartbeat.{
  Options, Heartbeat, Ending, written, refused, unhealthy, unbeaten, rejects, start, finish, Event,
  fires, finishes, stops, step, run,
}

-- The failure callback returns whenever it is called.
abbrev pub Reports : Event → Type 0
Reports (fires now planned) = Unit
Reports (finishes now rescheduled written) = Unit
Reports (finishes now rescheduled (refused ownership reported)) = reported ≡ true
Reports (finishes now rescheduled (unhealthy ownership reported)) = reported ≡ true
Reports (finishes now rescheduled unbeaten) = Unit
Reports stops = Unit

-- Short of the limit unless stopped, and no timer is set once stopped.
pub record IsCounted (o : Options) (h : Heartbeat) : Type 0 where
  pub below : (h.stopped ≡ true) ⊎ (h.consecutive_failures < o.failure_limit)
  pub silent : (h.stopped ≡ false) ⊎ (h.timer ≡ none)
  pub alone : (h.in_flight ≡ false) ⊎ (h.timer ≡ none)

start-IsCounted :
    (o : Options) (now scheduled : ℕ) → 0 < o.failure_limit → IsCounted o (start o now scheduled)
unfolding start
start-IsCounted o now scheduled h = ground arith

finish-IsCounted :
    (o : Options) (now rescheduled : ℕ) (ending : Ending) (h : Heartbeat)
    → Reports (finishes now rescheduled ending)
    → 0 < o.failure_limit
    → h.in_flight ≡ true
    → IsCounted o h
    → IsCounted o (finish o now rescheduled ending h).0
unfolding finish
finish-IsCounted o now rescheduled written h r p f c = ground (arith, c.below, c.silent, c.alone)
finish-IsCounted o now rescheduled (refused true reported) h r p f c =
    ground (arith, c.below, c.silent, c.alone)
finish-IsCounted o now rescheduled (refused false reported) h r p f c =
    ground (arith, c.below, c.silent, c.alone)
finish-IsCounted o now rescheduled (unhealthy true reported) h r p f c =
    ground (arith, c.below, c.silent, c.alone)
finish-IsCounted o now rescheduled (unhealthy false reported) h r p f c =
    ground (arith, c.below, c.silent, c.alone)
finish-IsCounted o now rescheduled unbeaten h r p f c = ground (arith, c.below, c.silent, c.alone)

step-IsCounted :
    (o : Options) (h : Heartbeat) (e : Event)
    → 0 < o.failure_limit
    → Reports e
    → IsCounted o h
    → IsCounted o (step o h e)
unfolding step
step-IsCounted o h (fires now planned) p r c = ground (arith, c.below, c.silent, c.alone)
step-IsCounted o h (finishes now rescheduled ending) p r c =
    ground (arith, finish-IsCounted o now rescheduled ending h r p)
step-IsCounted o h stops p r c = ground (arith, c.below, c.silent, c.alone)

run-IsCounted :
    (o : Options) (h : Heartbeat) (es : List Event)
    → 0 < o.failure_limit
    → All Reports es
    → IsCounted o h
    → IsCounted o (run o h es)
unfolding run
run-IsCounted o h [] p r c = c
run-IsCounted o h (e ∷ es) p r c =
    run-IsCounted o (step o h e) es p r.1 (step-IsCounted o h e p r.0 c)

-- From the start, over any events in any order, if the failure callback returns: the heartbeat is
-- stopped or has fewer failures in a row than the limit, no timer is set once it is stopped, and
-- none while a beat is in flight, so beats never overlap.
pub run-start-IsCounted :
    (o : Options) (now scheduled : ℕ) (es : List Event)
    → 0 < o.failure_limit
    → All Reports es
    → IsCounted o (run o (start o now scheduled) es)
run-start-IsCounted o now scheduled es p r =
    run-IsCounted o (start o now scheduled) es p r (start-IsCounted o now scheduled p)

step_stopped :
    (o : Options) (h : Heartbeat) (e : Event) → h.stopped ≡ true → (step o h e).stopped ≡ true
unfolding step
step_stopped o h (fires now planned) s = ground arith
step_stopped o h (finishes now rescheduled written) s = ground arith
step_stopped o h (finishes now rescheduled (refused ownership reported)) s = ground arith
step_stopped o h (finishes now rescheduled (unhealthy ownership reported)) s = ground arith
step_stopped o h (finishes now rescheduled unbeaten) s = ground arith
step_stopped o h stops s = ground arith

-- A stopped heartbeat stays stopped, whatever happens later.
pub run_stopped :
    (o : Options) (h : Heartbeat) (es : List Event) → h.stopped ≡ true → (run o h es).stopped ≡ true
unfolding run
run_stopped o h [] s = s
run_stopped o h (e ∷ es) s = run_stopped o (step o h e) es (step_stopped o h e s)

-- No callback of the beat that finishes throws.
abbrev pub Returns : Event → Type 0
Returns (fires now planned) = Unit
Returns (finishes now rescheduled ending) = rejects ending ≡ false
Returns stops = Unit
