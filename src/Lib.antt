-- ===== src/Lib.antt =====
-- A verification library for the platform that runs and watches the QA campaigns: the library
-- under dashboard/lib that the dashboard, the worker and the scheduler share.
--
-- Parts and how they interact. The scheduler evaluates the monitoring definitions (Definitions,
-- Schedule), claims each due occurrence in its store and enqueues a run for it once (Scheduler).
-- A run is an execution job in a store (Jobs) that workers poll, claim and complete; between
-- polls a worker backs off (Backoff), and while it executes it renews its lease (Heartbeat),
-- whose loss another worker's poll turns into a retry or an abandoned job; the run of a job that
-- is over is ended as well (Reconcile). A campaign that changes staging starts only if the
-- cleanup gate is open, which reads the ledger of objects that earlier runs left (Cleanup). Sign-
-- in to the dashboard is under rate limits (RateLimit). What the operators must know is written
-- to an outbox (Outbox), whose listings are read in pages (Pages). What a run leaves is published as
-- evidence, a bundle with its items (Evidence); an evaluation decides which bundles may be deleted,
-- an administrator confirms a batch, and an executor deletes it (Retention).
--
-- Files and sources:
-- Base.antt and Base/: what the modules share, no model: Boolean tests on the native numbers,
--   lists measured by them, find, filter and stable sort as the code uses them, decimal
--   numerals.
-- Jobs.antt, Jobs/Recover.antt: dashboard/lib/inssa-ops/execution-job-store.ts. The store is the
--   list of jobs; enqueue, claimNext, poll, recoverAbandoned, markRunning, heartbeat, complete
--   and the queries are functions of it. Jobs/Invariant, Claim, Enqueue, Ownership, Recovery and
--   Lifecycle prove, Lifecycle about any sequence of operations as a data type of steps.
-- Heartbeat.antt: dashboard/lib/inssa-ops/execution-lease.ts. validateContract, the timer, the
--   beat in flight and stop; a run is a list of events, with the endings of a beat as data.
-- Backoff.antt: dashboard/lib/inssa-ops/worker-idle-backoff.ts.
-- RateLimit.antt, RateLimit/Scopes.antt: dashboard/lib/inssa-ops/auth-rate-limit.ts, the local
--   limits. Window proves about one limit, Store about the file of all limits, Policies about
--   the policies of an action together.
-- Schedule.antt: dashboard/lib/monitoring/types.ts; Schedule/Evaluate.antt:
--   dashboard/lib/monitoring/schedule-evaluator.ts. Scan, Windows and Next prove.
-- Scheduler.antt: LocalSchedulerStore of dashboard/lib/monitoring/scheduler-store.ts, with the
--   types of scheduler-types.ts. Scheduler/Round.antt and Cycle.antt: evaluateSchedulerOnce of
--   dashboard/lib/monitoring/scheduler.ts, one definition and the whole cycle; Enqueue:
--   enqueueScheduledRun. Claims and Operations prove about the store, Trace and Once about the
--   cycle.
-- Cleanup.antt, Cleanup/Ledger.antt, Cleanup/Gate.antt: resolveCleanupPolicy, the ledger and
--   evaluateCleanupGate of dashboard/lib/inssa-ops/cleanup-ledger.ts, with the ledger operations
--   of the local store of run-store.ts. Accounting, Checks and Safety prove. Cleanup/Manual.antt:
--   dashboard/lib/inssa-ops/manual-cleanup.ts.
-- Definitions.antt, Definitions/Catalog.antt: the local store of
--   dashboard/lib/monitoring/store.ts and the catalogue of dashboard/lib/monitoring/catalog.ts.
--   Promises proves.
-- Reconcile.antt: dashboard/lib/inssa-ops/execution-recovery.ts; Ended proves.
-- Pages.antt: pageRecords of dashboard/lib/inssa-ops/notification-outbox.ts and the loop of
--   dashboard/lib/monitoring/scheduler.ts that reads every page.
-- Outbox.antt, Outbox/Payload.antt, Outbox/Store.antt: the local store of dashboard/lib/inssa-
--   ops/notification-outbox.ts; JSON payloads are a data type. Promises proves.
-- Outbox/Events.antt: dashboard/lib/inssa-ops/notification-events.ts; Keys and Recorded prove.
-- Evidence.antt: the records of dashboard/lib/inssa-ops/types.ts. Evidence/Location: storage-provider-
--   model.ts; Integrity: evidence-integrity.ts; Publish: replaceRunEvidence and
--   updateEvidenceItemMetadata of the local store in run-store.ts, evidence-safety.ts and the marking
--   of lost evidence in evidence-recovery.ts. Immutable, Manifest, Replaced and Durable prove.
-- Retention.antt: retention-types.ts of dashboard/lib/inssa-ops, and what retention.ts reads of runs
--   and of the ledger. Retention/Policy, Review, Checks, Protect, Evaluate and Plan: retention.ts,
--   evaluateRetention from its policies to its plan, with the identities of retention-storage.ts.
--   Retention/Executor and Execute: retention-executor.ts; the calls of the executor are functions on a
--   world of any type, which may answer or throw as they like, and each removal is kept in a log.
--   Retention/Confirmation: retention-confirmation.ts. Clear, Sound, Eligible and Account prove about the
--   evaluation, Slices, Safe, Removals, Taken, Rounds and Ends about the executor, Tokens about the
--   confirmation.
-- Tests in each part hold runs on small inputs and the theorems at concrete arguments.
--
-- Conventions. Instants and durations are natural numbers of milliseconds; an instant stands for
-- the ISO text that the code stores, from the epoch on, and a difference of instants that would
-- be negative is 0 (the comparisons of the code answer alike for both). Each reading of the
-- clock, each random identifier and each answer of a service is an argument. The lock of a local
-- file makes each operation on a store one step; several processes are sequences of such steps.
-- Errors are values: `err`, `none`, `refused` or `threw` stands for what the code throws.
--
-- Parameters, for what is not code of the repository: the digest of a rate limit's scope, what
-- `Intl` says of a timezone (which zones exist, the local parts of an instant), JSON.stringify,
-- Number of a text, localeCompare, the test of a campaign's name. Code of the repository that
-- stands as a parameter for now: the definition store and the enqueuing in the scheduler's cycle,
-- the table of commands and the start of a run, the redaction of a text and the test of a
-- payload's key (dashboard/lib/inssa-ops/redaction.ts, notification-outbox.ts), the digest of a bundle
-- (retentionSourceSignature) and what dashboard/lib/monitoring/authentication-result.ts says of a
-- result. Further parameters of the platform: path.posix, HMAC, base64url and JSON.
--
-- Bounds and fuel. Every loop of the code is structural recursion: over the jobs, records,
-- policies or definitions, and over the number of minutes that a scan may look at (eight days, 25
-- hours or 61 minutes). Only `show`, the decimal numeral, runs on fuel: one more than the number,
-- which has no more digits than that, `slices`, one for each key, `rounds` of the executor, on one
-- more than the bundles that it may attempt, and `read_pages`: one more than the entries of the
-- listing is given.
--
-- Not modelled: the Supabase stores (database procedures), the reading of files and of headers,
-- processes, the dispatch of notifications, the service around retention, the copying and serving of
-- evidence, the runner of campaigns, pages and routes. Of the plan of retention: its id and the sums
-- by reason in bytes. Of a heartbeat's rejection: the process that it ends, beyond that nothing more
-- happens.
pub mod Base
pub mod Jobs
pub mod Heartbeat
pub mod Backoff
pub mod RateLimit
pub mod Schedule
pub mod Scheduler
pub mod Cleanup
pub mod Pages
pub mod Outbox
pub mod Definitions
pub mod Reconcile
pub mod Evidence
pub mod Retention
