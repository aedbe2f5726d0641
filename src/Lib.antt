-- ===== src/Lib.antt =====
-- The control plane of a voice-agent service: the store behind its HTTP API
-- (apps/api/src/voiceagent_api), its database model, and the services that it calls.
--
-- The program is a FastAPI application. A router checks the caller, and calls one method of the
-- class AgentStore (store.py). A method opens a database session, reads and changes rows, emits
-- events, commits, and returns dictionaries. An emitted event is stored and sent at once to the
-- webhooks that subscribe to it; what fails is tried again by a queue. POST routes keep their
-- responses under the caller's idempotency key.
--
-- Files, each with the code that it models:
--   Prelude   names of the libraries, tests on numbers and texts, lists
--   Json      values of JSON columns and of dictionaries; a datetime stays an object
--   Errors    errors.py: the exceptions, and the result of code that may raise
--   Models    models.py: each table's class as a record, each status column as a data type
--   Db        the database: a list of rows for each table, with its primary key
--   Serialize store.py, the functions _serialize_*
--   Env       config.py (Settings) and the parameters: uuid4, the dispatcher, the database's
--             ORDER BY, json.dumps and json.loads, str.upper, the local time zone, what a column
--             gives back of a datetime, the cache
--   Session   db.py, SessionLocal: the state monad in which the methods are written, and the
--             rules for invariants (Keeps), for what is not touched (Frame), for what a run that
--             returned tells (Inversion), and for conditions before and after (Does)
--   Dispatcher  webhooks.py, WebhookDispatcher.deliver
--   Webhooks  store.py: _emit_event, _attempt_webhook_delivery, _next_webhook_attempt_at,
--             create_webhook, delete_webhook, process_webhook_deliveries,
--             retry_webhook_delivery, test_webhook
--   Idempotency  store.py: get_idempotent_response, store_idempotent_response; cache.py; the
--             POST pattern of routers/bookings.py
--   Calls     store.py: create_call, add_call_turn, complete_call and the readings of calls
--   Agents    store.py: create_agent, update_agent, instantiate_template, publish_agent,
--             rollback_agent and the readings of agents and versions
--   Availability  store.py: _business_hour_keys, _parse_business_range,
--             _build_agent_availability_payload, get_agent_availability. Time zones (zoneinfo)
--             are the parameter Zones
--   Bookings  store.py: _ensure_booking_slot_available, create_booking, update_booking and the
--             readings of bookings; adapters/calendar.py, the stub calendar
--   Organizations  store.py: the organization, partners and referred accounts. The words of Python
--             (str.strip, str.lower, str.isalnum, str of a number) are the parameter Words
--   Billing   store.py: list_plans, list_subscriptions, list_licenses
--   Resources store.py: phone numbers, integrations, knowledge bases
--   Runtime   runtime.py; adapters/stt.py, llm.py, tts.py, of which what OpenAI answers is a
--             parameter; store.py: _execute_runtime_tool_calls, respond_to_call
--   Routers   routers/_helpers.py, agents.py, calls.py, bookings.py, webhooks.py, events.py,
--             organizations.py, partners.py, phone_numbers.py, integrations.py,
--             knowledge_bases.py, api_keys.py, billing.py: Endpoint is the 21 modelled routes
--             that take an Idempotency-Key, which are all but the creation of API keys and the
--             validation of licenses; Listing (in Paging) is five of those that list rows.
--             FastAPI and pydantic are the parameter Web: a route gets a parsed request
--             (Incoming) whose caller require_scope let in, and its answer is what the store
--             returned, without the response model
--   Auth      auth.py: verify_api_key, find_api_key_model, require_scope; store.py:
--             list_api_keys, delete_api_key. SHA-256, bcrypt and str.strip are its parameters
--   Tests     a concrete environment, runs, and instances of the theorems
--
-- State. A World holds the committed database (disk), what the open session sees (view), the
-- number of random draws (uuid4, gensalt) so far, the requests that were sent, and the writes of
-- the cache. An action returns a value or raises. `session` starts from the committed database, and
-- drops what was not committed when it ends; requests that were sent stay sent. The session writes each
-- added object at once; in the code no query stands between an `add` and its flush that reads
-- the table. Adding a row under a primary key that is taken raises IntegrityError. One session
-- runs at a time: concurrent transactions are not modelled, and foreign keys are not checked.
--
-- Numbers. Times are microseconds as natural numbers; settings, limits and durations are
-- natural numbers, as the schemas demand. A wall clock is a count of microseconds too, and a zone
-- turns one into the other. What a column gives back of the start of a booking and of the time of
-- an idempotency record, with a zone (PostgreSQL) or without (SQLite), is a parameter
-- (Zones.stored, Env.stored_time); of the other times only the instant is kept. Under ORDER BY
-- the database ranks the rows in an order that depends on them and on the LIMIT and OFFSET of the
-- query (Env.order_asc and so on); where times are the same it may be any. A retry whose
-- time would lie past the last datetime raises OverflowError.
--
-- Loops are over lists of rows, but for those over the days and the slots of a range: the days are
-- counted, and the loop over a range is given as many rounds as slots fit into it, which
-- is enough (walk_range-enough).
--
-- The loop over the slugs is given one round more than there are organizations, which is enough
-- (generate_unique_slug-free). The unique index on slugs is checked where a row is written.
--
-- Not modelled: the creation of API keys, whose loop draws keys until one is free; the webhooks of
-- the payment provider and the checks of licenses, dashboards, usage and the routes of these; the
-- seeds; the worker's polling loop, rate limits, telemetry, and the web front end.
pub mod Prelude
pub mod Json
pub mod Errors
pub mod Models
pub mod Db
pub mod Serialize
pub mod Env
pub mod Session
pub mod Dispatcher
pub mod Webhooks
pub mod Idempotency
pub mod Calls
pub mod Agents
pub mod Auth
pub mod Availability
pub mod Bookings
pub mod Organizations
pub mod Resources
pub mod Billing
pub mod Runtime
pub mod Routers
mod Tests
