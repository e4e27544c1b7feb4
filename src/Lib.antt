-- ===== src/Lib.antt =====
-- PulsePay: a payment service (pulsepay/). Requests create and confirm payments and ask for
-- refunds; a queue of jobs with one worker does the rest: it runs the first attempt of each
-- payment, retries soft failures, processes refunds and delivers webhooks. A rate limiter stands
-- in front of the API.
--
-- The parts and the files that model them:
--   Core.Exceptions       pulsepay/core/exceptions.py, and the exceptions derived elsewhere
--   Exec                  methods that change shared state and may raise
--   Database              a table of PostgreSQL behind an SQLAlchemy session, as an interface
--   Platform              what is not in the repository, the state of the process, sessions
--   Payments.Models       pulsepay/payments/models.py and schemas.py
--   Payments.StateMachine pulsepay/payments/state_machine.py
--   Payments.Service      pulsepay/payments/service.py: create_payment in Creation,
--                         confirm_payment and mark_payment_failed_max_retries in Confirmation,
--                         what they look up and write in Rows; list_payments is in
--                         Payments.Listing, by way of Database.Listing
--   Payments.Machine      the abstract machine that a payment is, seen from outside
--   Refunds               pulsepay/refunds/models.py and service.py: initiate_refund,
--                         process_refund, list_refunds; Refunds.Race interleaves two requests
--   Webhooks.Dispatcher   pulsepay/webhooks/dispatcher.py: dispatch, deliver
--   Webhooks.Service      pulsepay/webhooks/service.py: get_event, register_endpoint,
--                         deactivate_endpoint; list_events is in Webhooks.Listing
--   Jobs.Queue            pulsepay/jobs/queue.py: enqueue, enqueue_job, retry_dead_job;
--                         get_dead_jobs is in Jobs.Listing
--   Jobs.Handlers         pulsepay/jobs/handlers.py: the four handlers and their registry
--   Jobs.Worker           pulsepay/jobs/worker.py: _process, _enqueue_due_jobs, and a round of
--                         _consume_loop
--   Jobs.Tasks            pulsepay/jobs/worker.py: start, stop and the turns of the two loops
--   Jobs.Cancelled        pulsepay/jobs/worker.py: _process, cancelled in its handler
--   Jobs.Overtaken        pulsepay/payments/service.py: create_payment, with a turn of the worker
--                         between the commit of its job and that of its payment
--   Ratelimit.Store       pulsepay/ratelimit/store.py: RateLimitStore.consume
--   Ratelimit.Middleware  pulsepay/ratelimit/middleware.py: dispatch
--   Observability.Metrics pulsepay/observability/metrics.py: compute_metrics
--   Observability.Logging pulsepay/observability/logging.py: JsonFormatter.format
--   Observability.Setup   pulsepay/observability/logging.py: _configure_logging, get_logger
--   Api.Schemas           the schemas of requests and responses, and what the routers declare
--   Api.Payments, Api.Refunds, Api.Webhooks
--                         pulsepay/payments/router.py, refunds/router.py, webhooks/router.py
--   Api.Routes            the routes of pulsepay/main.py
--   Api.Errors            pulsepay/core/exceptions.py: register_exception_handlers
--   Api.Server            pulsepay/core/middleware.py, pulsepay/observability/tracing.py and the
--                         order of the middlewares in pulsepay/main.py
--   Ledger                pulsepay/ledger/models.py
--   Seed                  pulsepay/seed.py: seed_data
--   Core.Config           pulsepay/core/config.py, and _database_url of pulsepay/core/database.py
--   Main                  pulsepay/main.py: lifespan and _seed_on_startup, with set_storm_queue
--                         and get_storm_queue of pulsepay/jobs/queue.py
--   Schema.Migration      alembic/versions/0001_initial_schema.py: upgrade, downgrade
--   Schema.Models         what the models declare of their tables, with the mixins of
--                         pulsepay/core/database.py
--   Schema.Rows           the rows that the models write, by column
--   Schema.Ddl            what the migration relies on in Alembic and PostgreSQL, as an interface
--   System                all of it: events, a request or a round of a loop each, in any order;
--                         Main.Soundness puts these into the lifespan of the application
-- The other files hold lemmas, named for what they are about, and Example holds a concrete
-- platform with runs on it.
--
-- State. A World has the tables twice: `working` is what the open session sees and `committed`
-- what any other session sees, so that what a method did before an exception and did not commit is
-- lost when its session closes (`with_session`). Jobs are written by sessions of their own, which
-- commit at once. A method runs without interruption; where an interleaving matters, as in
-- Refunds.Race and Jobs.Overtaken, the steps are put in order explicitly. An object that the
-- source changes in place is a record that is written back where the source flushes or commits it;
-- the session's identity map is not modelled. A query that orders its rows finds those with equal
-- values in any order (Database.Ties), and the six queries of the metrics see one state of the
-- database.
--
-- Numbers. Stored amounts are cents, to which the database rounds the amount of a request for a
-- payment; the amount of a refund is taken in cents. Times are microseconds (nanoseconds for the
-- limiter, whose tokens are counted so finely that a refill is exact where the program's floats
-- round; how the floats of its capacity round is an argument). UUIDs are numbers, draws of
-- random() are in units of 2 ^ -53. The floats of the metrics stay undivided. The clock, the draws
-- and new UUIDs are functions of the count of readings, which a platform gives; HTTP requests,
-- HMAC and the JSON text are functions of it too. The metadata of a payment and the text of an
-- exception are not looked into.
--
-- All functions are structurally recursive: there is no fuel. `Jobs.Retries.rounds` counts the
-- processings of a job, and the results say how many are enough.
--
-- An API request is taken as FastAPI hands it over, parsed and routed; what the source declares of
-- its arguments is tested (Api.Schemas.is_declared). Api.Envelope.Web holds what the API takes
-- from elsewhere.
--
-- The schema. A column, a constraint and an index are what Alembic and SQLAlchemy are told, and a
-- check constraint is the column and the texts that its SQL names. What becomes of an operation is
-- in the interface Schema.Ddl, which a migration takes as an argument.
--
-- The worker's tasks are numbers, and those that have not ended are listed. Cancelling a task ends
-- it; `stop` with its wait is one step. What the rest of the process does between two turns is an
-- event that may change the world in any way; so is what a handler that is cancelled has
-- committed.
--
-- Not modelled: matching a path to a route and parsing a body (FastAPI), reading the environment
-- (pydantic), the engine and its pool (SQLAlchemy), alembic/env.py (calls of Alembic), the order
-- of the columns of a table, the durations in the log, the text of exceptions, the columns that
-- only the database fills, the lengths of texts, and amounts beyond what their column takes.
pub mod Prelude
pub mod Core
pub mod Exec
pub mod Database
pub mod Ledger
pub mod Platform
pub mod Api
pub mod Example
pub mod Payments
pub mod Refunds
pub mod Webhooks
pub mod Jobs
pub mod Ratelimit
pub mod Observability
pub mod Seed
pub mod Main
pub mod Schema
pub mod System
