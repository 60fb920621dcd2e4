-- ===== src/Lib.antt =====
-- TaskPilot: a background-job service (FastAPI, SQLAlchemy, PostgreSQL) with a worker.
--
-- Clients create tasks over the API; the worker polls the `tasks` table, claims what is due, runs it,
-- and records success, a retry after a backoff, or dead. The API and the worker meet only in the
-- table.
--
--   Config         app/config.py: the settings, their defaults and their validator
--   Models         app/models.py: TaskStatus and a row of the table; Models.Columns says which values
--                  its columns hold
--   Json           payloads
--   Errors         app/errors.py (ApiError), and what else the code raises; results
--   Validation     what pydantic makes of the validators of a request
--   Logging        app/logging_config.py: RequestIdFilter, configure_logging
--   Http           app/errors.py: the envelope and the handlers; requests and responses
--   Auth           app/auth.py: require_api_key
--   Middleware     app/middleware.py: dispatch, with the HTTP metrics and the id on a log line
--   Routers        app/routers: the endpoints of tasks.py; Routers.Health is health.py
--   App            app/main.py: lifespan, create_app; App.Serve is a request through the middleware, the
--                  routers, the handlers and the service
--   Time           the datetime arithmetic of app/worker/processing.py
--   Metrics        app/metrics.py: the counters about tasks
--   StateMachine   app/state_machine.py; StateMachine.Lifecycle has what the table reaches
--   Database       the statements that the code issues, as an interface with laws; Database.Changes is
--                  the commit of a transaction that holds locks, Database.Memory a table that meets
--                  the laws
--   Worker         app/worker: Executor (executor.py), and of processing.py Failure
--                  (backoff_delay_seconds, _apply_failure), Reclaim (reclaim_stale_running), Claim
--                  (claim_due_tasks), Process (process_claimed_task, _record_failure), Tick (run_once);
--                  Runner is runner.py (run_loop), Claim.Cluster has several workers that claim at
--                  the same time, Retries a task that fails again and again,
--                  Attempts a task through all its runs; Gather is the semaphore and
--                  `gather` of run_once, Schedule when they let a task run, Main is
--                  worker.py
--   Schemas        app/schemas.py: the validators of a request, the response models; Schemas.Decode
--                  starts from the JSON of a body
--   Service        app/service.py: create_task, get_task, list_tasks, delete_task, update_status
--   System         the transactions of the API and of any number of workers on one table, in any
--                  order: the composition of Service and Worker
--   TaskService    task_service_fixed.py: the service of the review, over the tables of SQLite that
--                  TaskService.Tables states and TaskService.Memory gives
--   Migrations     alembic/versions: upgrade and downgrade of both revisions, on the catalogue of
--                  Migrations.Catalogue, and the table that app/models.py declares;
--                  Migrations.Env is alembic/env.py
--   Tests          concrete runs on the table in memory
--
-- A function of the code becomes a function of the same name, and the endpoints are named by their
-- methods. What it mutates is passed on: a World is the committed table with the counters. A
-- transaction is one function of the table; an exception in it leaves the table as it was and keeps
-- the counters. What other transactions commit between two of one operation is the argument `between`,
-- the rows that they lock are `locked`, and the readings of the two clocks are a Clock, one for each
-- transaction. Times are microseconds since datetime.min, and datetime.max is the bound at which the
-- arithmetic raises. No loop needs fuel but the printing of a number, which has one more than the
-- number.
--
-- PostgreSQL and SQLAlchemy are not in the repository. Their behaviour that the code relies on is
-- stated by the laws of Database: primary and unique keys, FOR UPDATE SKIP LOCKED with ORDER BY and
-- LIMIT, the identity map of a session, the columns of an UPDATE, StaleDataError, and what a column
-- cannot hold. Settings are natural numbers. In Worker.Tick the tasks of one tick run one after the
-- other; Worker.Gather has them at the same time. The polling loop is given the list of its rounds,
-- each with what its tick meets and whether `stop` is set by the end of its wait. What a request meets
-- behind the middleware is an argument of `dispatch`, and pydantic's parsing of JSON into typed fields
-- comes before the endpoints: Schemas.Decode has it. Log lines are kept only where the middleware,
-- app/main.py and app/worker/worker.py write them.
--
-- The lifespan is given what the requests commit before the worker's first round; what they commit
-- later is in the rounds, of which the worker has begun a given number when the shutdown comes. A
-- request that FastAPI itself refuses comes to App.Serve with the errors that FastAPI has found.
-- SQLite, and the catalogue of PostgreSQL with the calls of Alembic, are parameters with laws too, and
-- so are the names of the levels of Python's logging and, for each heartbeat, whether the file can be
-- touched.
--
-- Not modelled: the engine of app/database.py, which only calls a library; the offline mode of
-- alembic/env.py, which renders SQL; the exposition of the metrics and the serialisation of the
-- responses, which the libraries do; the frontend, which is TypeScript.
mod Prelude
pub mod Json
pub mod Errors
pub mod Config
mod Time
pub mod Models
pub mod Metrics
pub mod StateMachine
pub mod Database
pub mod Worker
pub mod Schemas
pub mod Service
pub mod Validation
pub mod Logging
pub mod Http
pub mod Auth
pub mod Middleware
pub mod Routers
pub mod System
pub mod TaskService
pub mod Migrations
pub mod App
mod Tests
