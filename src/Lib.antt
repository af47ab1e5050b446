-- ===== src/Lib.antt =====
-- ForgeGate runs workflows of HTTP steps for several tenants. A gateway counts the requests of a
-- tenant and passes them on; the workflow service checks who may do what, keeps workflows and their
-- executions in a database and puts executions into a queue; the engine takes an execution from the
-- queue and executes its steps, within limits on their rate and their number at a time; a step that
-- fails is classified and tried again, after a delay, as long as the budgets of retries last.
--
-- Parts and files:
-- - Auth: packages/auth/src. Policy is policy.engine.ts (`can`), Guards is guards/*.ts
--   (`jwt_can_activate`, `roles_can_activate`), each with the request as a value and the exceptions
--   as results.
-- - Step: apps/workflow-service/src/workflow-engine. Classifier is http-step-classifier.ts, Retry is
--   http-retry-scheduler.ts, Timeout is http-timeout-resolver.ts, IdempotencyKey is idempotency.ts.
-- - Engine: workflow-engine.service.ts there. Database holds the tables and the client, Engine the
--   filters and updates of the queries, Run the operations (`execute_execution`, `mark_as_failed`).
--   The state is the database, the world outside, and the list of the steps that were executed.
--   Run holds for every `executeStep`; Http is the one of the file (`execute_step`), with both
--   limiters, Redis, the counters and the network as its state. Recovery is the search for stale
--   leases (`find_and_mark_stale`) and `log_replay_event`.
-- - Queue: apps/workflow-service/src/queue. Worker is what the worker calls and the handler of failed
--   jobs (`on_failed`), Queue the enqueueing and the recovery, Replay and Listing the dead-letter
--   queue, Redact `sanitizePayloadString`. The state is the database and the two queues.
-- - Workflows: apps/workflow-service/src/workflow/workflow.service.ts (Service), with the database as
--   its state; the listings go through Pagination/Query.
-- - Executions: apps/workflow-service/src/execution/execution.service.ts, on the queues, the policy and
--   the idempotency service.
-- - Limits: outbound-concurrency-limiter.ts and outbound-rate-limiter.ts there, and
--   apps/api-gateway/src/rate-limiter/rate-limiter.guard.ts (Gateway). The state is what Redis
--   holds, and the counters of the limiter.
-- - Sanitize: `sanitizePayload` of the engine, and packages/common/src/audit/audit-sanitizer.ts.
-- - Idempotency: apps/workflow-service/src/execution/api-idempotency.service.ts. The state is the
--   store in memory and the world that the operation changes; Redis adds the server. Contract is what
--   the service promises, which InMemory, Runs, Works, Held and OnRedis compare with both stores; a client
--   of Redis stands for each reading of the clock, since keys end with it. Machine is the part on
--   Redis one `await` at a time, for several requests; Guarded, Exclusion and Overrun are about its lock.
-- - Accounts: apps/auth-service/src/auth.service.ts and redis.service.ts. Sessions is `register` and
--   `login`, Revocation `revokeToken` and `verifyToken`, Administration the rest. The state is the
--   database and what Redis holds.
-- - Filter: packages/common/src/filters/all-exceptions.filter.ts (`respond`, `catch_exception`), with
--   the exception as a value. Hardening: packages/common/src/http-hardening.ts, with the environment
--   as arguments. Gateway: apps/api-gateway/src/proxy (`forward_request`) and health (`get_health`).
-- - Pagination: packages/common/src/pagination.ts, and the page of the DLQ listing in
--   apps/workflow-service/src/queue/queue.service.ts.
-- - Base and Js: what the parts share, and the JavaScript that they rely on.
--
-- Parameters, for what is not code of the repository: the Redis client (Limits/Redis,
-- Idempotency/Redis, Accounts), argon2 and the JWT library (Accounts), the database client
-- (Engine/Database, Workflows, Executions, Accounts, Pagination/Query) and the queues of BullMQ
-- (Queue), each a record of commands with records of laws for what is documented of them; the HTTP
-- client, the decoder of tokens, `Date.parse`, `Number` and the URL parser, which are functions
-- without laws; the clock, `Math.random()` and generated identifiers, which are arguments.
--
-- Bounds and fuel: numbers are whole. A random number is counted in units of 2^-53, of which there
-- are 2^53. Loops are recursion on the list that they go through; the pages of a listing are asked
-- for on fuel, one round for each item and one more being enough; the failures of a job are a list.
-- Case conversion is that of ASCII letters.
--
-- Assumptions of the models: one call runs at a time, with no other client between its commands, but
-- for Idempotency/Machine; the clock stands still during a call, and no key of Redis ends in it, but
-- for Idempotency/Machine, where each turn has its own reading; the database answers every command,
-- and has the commands that the engine asks for (`updateMany`, `auditLog`); both queues are open, and
-- a dead job can be removed; an object of JSON has each field once.
--
-- Not modelled: logging, metrics and timers, with the scrubbing of the filter's log entries; the
-- reading of the environment and the opening and closing of connections; the modules, the data
-- transfer objects and the controllers but for the routes of the dead-letter queue; the registration
-- of middleware; the worker of notifications; the dashboard page of the gateway; the
-- counts of the queues.
pub mod Base
pub mod Js
pub mod Step
pub mod Accounts
pub mod Filter
pub mod Hardening
pub mod Gateway
pub mod Auth
pub mod Pagination
pub mod Queue
pub mod Workflows
pub mod Executions
pub mod Limits
pub mod Sanitize
pub mod Engine
pub mod Idempotency
