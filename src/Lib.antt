-- ===== src/Lib.antt =====
-- A verification library of the control plane of tahuna: the planning core in web/convex/core, which
-- decides what happens to training runs, served models and the machines they use, and of the hosted
-- billing in web/convex/cloud.
--
-- The program. Handlers of a Convex backend (web/convex/runs.ts, serves.ts, computeSessions.ts) load a
-- document, call a pure planning function of web/convex/core, and apply the plan that it returns: a
-- patch of the document, events for the log, jobs for the durable job queue, and deletions in the
-- object store. A runtime on a rented machine reports statuses and heartbeats back; a run or a serve
-- may use a machine of its own or one that a compute session owns. In the hosted version the usage of
-- a machine is paid from a ledger of credits: a handler debits it while the machine runs, settles the
-- charge when it ends, and checks before a launch that the balance covers what is reserved.
--
-- Which file models which part:
--   * Jobs models web/convex/core/jobQueue.ts. `Jobs.Types` has the job types, `Jobs.Create` the
--     functions `create…Job` with delays, attempts, artifact keys and idempotency keys, `Jobs.Record`
--     `toCoreJobRecord`; `Jobs.Keys` and `Jobs.Normal` have theorems.
--   * Queue models web/convex/convexJobQueue.ts, the table of jobs behind the queue. `Queue.Types` has
--     the rows and the interface of the database, `Queue.Table` the upsert by idempotency key and
--     the ends of a job, `Queue.Enqueue` the functions `enqueue…`, which turn the jobs of a plan into
--     rows of the table and calls of the scheduler; `Queue.Rows` and `Queue.Repeats` have theorems.
--   * Run models web/convex/core/runLifecyclePlan.ts. `Run.Types` has the run, patches, events and
--     plans; `Run.Plan` and its children the planning functions; `Run.Ingestion` the statuses that a
--     runtime reports; `Run.Artifacts` the commit of artifacts and the metadata of events;
--     `Run.Timing` the run times of web/convex/core/runTiming.ts.
--     `Run.Command` gathers the operations in one type, and `Run.Document` applies them one after
--     another.
--   * Serve models web/convex/core/serveLifecyclePlan.ts, with the write of `markProvisioning` in
--     web/convex/serves.ts, and Session models
--     web/convex/core/computeSessionLifecyclePlan.ts, in files with the same names.
--     `Serve.Transitions` has the diagram that the transition table stands for, and
--     `Session.Timeouts` the two timeouts of a session.
--   * Mutation models a function of the backend that reads and writes the database and may throw.
--   * Billing models web/convex/cloud. `Billing.Types` has the tables of the ledger and the interface of
--     the database, `Billing.Credits` the operations of credits.ts, `Billing.Ledger` and its children
--     theorems on them and on sequences of them; `Billing.Pricing` the price of a usage in
--     web/cloud/billing/run-compute-pricing.ts and runBilling.ts; `Billing.Settle` the settlement of
--     runBilling.ts, which debits or credits the ledger; `Billing.CodeArgs` and `Billing.Codes` the
--     codes of redeemableCodes.ts; `Billing.Checkout` the records of the checkouts at the payment
--     service and `Billing.Live` the billing of a running machine, in billing.ts;
--     `Billing.Reservations` the check of
--     computeSessionReservations.ts.
--   * Sync models the parser of manifests in web/convex/syncManifest.ts: `Sync.Manifest` the parser,
--     `Sync.Parsing` and `Sync.Normal` theorems.
--   * Js models the values of the language, `Js.Double` its
--     arithmetic with theorems in `Js.Rounding`, Common passes on library names and shared lemmas.
--   * The module Examples of each part has tests and the theorems at concrete inputs.
-- A function keeps its name, in snake case; a record keeps the fields of the object that it models.
-- A field that the source may leave out or set to `undefined` is an Option; in a patch, where these
-- differ, it is a `Change` of Common.Patch: keep, unset or put.
--
-- Choices. A string is a list of UTF-16 code units. A number that the source tests for being finite
-- is an exact fraction or one of NaN and the infinities; one that the source only passes on, prints or
-- adds is a natural number, as are the times that `Date.now()` gives. A status is one of the constants
-- or `other` with any further string, since the source types it as a string. A product, sum or
-- quotient of rates is rounded to the nearest double; overflow and subnormal numbers are not modelled.
-- Every function is structural; those that run on fuel are the decimal numeral of a number n, with
-- fuel n + 1, and its number of binary digits, with fuel n, which are enough since each step divides
-- by ten or by two.
--
-- Parameters. The database is not part of the repository: a sequence of operations takes a store,
-- with the documented behaviour of `ctx.db.patch` on the fields that matter as laws, and the job
-- table a database with a lookup by key, a patch and an insertion; the examples instantiate both.
-- The scheduler and the work pool are a list of the calls made to them. The operations of a
-- sequence are the plans in any order; a handler may do less, because it tests more before it calls
-- a plan. The assignment of a queued run to a session, which writes the status, the machine and the
-- token of the run in web/convex/computeSessionAssignment.ts, is a step of the session only, and the
-- writes of a run's token alone in runs.ts and of its artifact keys are no steps. In the ledger, a
-- row stays where it is and a write of one table leaves the others alone; the methods `toUpperCase`
-- and `toLowerCase`, the local time of a day, the tables of prices and what the
-- providers read from the environment are parameters too. The stored amounts of money are finite.
--
-- Not modelled: the handlers that load documents and apply plans, the batches of live billing and
-- the requests to the payment service in web/convex/cloud/billing.ts, the digest of a file, the
-- queue's workers, the object store, the compute providers, the HTTP and web interfaces, and the
-- command line client and the runtime, which are in another language.
pub mod Common
pub mod Js
pub mod Mutation
pub mod Jobs
pub mod Queue
pub mod Run
pub mod Serve
pub mod Session
pub mod Billing
pub mod Sync
