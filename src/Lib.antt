-- ===== src/Lib.antt =====
-- VoiceSpend: the server of an offline-first expense tracker (FastAPI, PostgreSQL, Redis, Celery).
-- Clients push batches of expenses and pull what has changed, and send texts or recordings to be
-- read as expenses by a language model; RevenueCat tells of subscriptions by webhook; a worker
-- ingests exchange rates and fills in amounts in the user's base currency.
--
-- Files. Prelude holds shared names, tests, lists, integers and dicts. Decimal is Python's
-- decimal.Decimal as app/services/currency and app/services/fx use it, with NUMERIC columns. Models
-- has the tables (app/models, app/schemas/enums.py, and the sequence and trigger of
-- alembic/versions/20260913_0000_000000000002_add_expenses_server_seq.py). Http has the failures,
-- the metrics (app/core/metrics.py) and what a request reads of its surroundings. Settings is
-- app/core/config.py.
--
-- Metering/Usage is app/services/metering/usage.py, Metering/Signal is
-- app/services/metering/signal.py with app/services/entitlements/resolver.py. Sync/Validate is one
-- record of a push (app/schemas/sync.py, app/schemas/_validators.py); Sync/Batch, Sync/Upsert and
-- Sync/Push are the passes over the batch, the bulk statement, and the endpoint push_sync of
-- app/api/v1/sync.py; Sync/Pull is pull_sync, and Sync/Overlap the two transactions of pushes that
-- overlap. Webhook is app/api/v1/webhooks.py. RateLimit is app/services/ratelimit. Fx/Rates is
-- app/services/fx/ingest.py, Fx/Convert is app/services/currency/converter.py, Fx/Recompute is
-- app/services/fx/recompute.py, Fx/Tasks is app/worker/tasks/fx.py. Extraction and
-- Extraction/Providers are app/services/extraction and app/services/stt, and Parse is
-- app/api/v1/parse.py with app/schemas/parse.py and the trace ids of app/core/tracing.py. Auth is
-- app/core/security.py and app/api/deps.py. Ops/Logging is app/core/logging.py, Ops/Requests is
-- app/core/middleware.py, Ops/Probes is app/api/v1/health.py and app/api/metrics.py, Ops/Clients is
-- app/services/fx/exchangerate_host.py and factory.py. System puts what writes together as steps of
-- one server. The modules below these carry the proofs, and Tests the examples.
--
-- How they interact. A push writes expenses and, by Metering, the user's counter of the period, and
-- answers with the signal that Metering makes of the counter and of the entitlement that Webhook
-- writes. Parse asks the same signal before it pays for a call, converts by Fx/Convert, and writes
-- to no table. Auth makes the rows of users. Fx/Recompute reads the rates that Fx/Rates writes, by
-- Fx/Convert, and writes expenses under new sequence numbers, so that Sync/Pull reads them;
-- Fx/Tasks runs both. A Step of System is one push, webhook call, sign-in, rate ingestion, sweep or
-- reset, and Reach any sequence of them.
--
-- Representation. A handler takes the World, the tables and the metrics emitted so far, and returns
-- a Result with the World after it; a failure before the commit returns the World that it was
-- given. Handlers run one after the other: interleavings of transactions are modelled only in
-- Sync/Overlap, for the statements and commits of two pushes, and for get_current_db_user, which
-- takes the database that its first look sees and the one at its commit. A UUID is its 128-bit
-- number, an instant the microseconds since the year 1, an amount the whole number of its column's
-- smallest unit. The sequence takes a value for every row that an insert tries and another for an
-- update; its end and NUL characters in texts are not modelled. Validation stops at the first field
-- that fails, the only one that the endpoint reports. The limits on the exponents of decimals are
-- not modelled. A float is the decimal that Python writes for it; the cost of a call is the exact
-- sum in place of the rounded one. Latencies and log lines, but for those of Ops, are left out, and
-- so are Langfuse's spans.
--
-- Parameters. Pydantic's reading of a JSON value, Python's Unicode text functions, UUID parsing,
-- sorted, datetime.fromtimestamp and fromisoformat, the clock, strftime, and the UUIDs drawn are
-- arguments; a rate provider is what its calls return. So are PyJWT's decoding of a token, which
-- may raise a PyJWTError or another exception, the answers of the vendors' clients for language
-- models, speech and rates, of PostgreSQL and Redis to a probe, the text of the prompt, and
-- Langfuse's trace id.
--
-- Fuel and recursion. Only the count of decimal digits runs on fuel, the number itself, and each
-- round divides by ten. backfill_range recurses on the number of its days, and all else on lists
-- and texts.
--
-- Not modelled: the prompt's text (app/services/extraction/prompt.py), sessions and clients
-- (app/db, app/cache, app/worker/db.py, app/storage), the Celery application and its schedule,
-- app/main.py and the routers, which are vendor calls and set-up, and the migrations, which declare
-- the columns of the tables.
pub mod Prelude
pub mod Decimal
pub mod Models
pub mod Http
pub mod Metering
pub mod Sync
pub mod Webhook
pub mod RateLimit
pub mod Fx
pub mod Settings
pub mod Extraction
pub mod Parse
pub mod Auth
pub mod Ops
pub mod System
pub mod Tests
