-- ===== src/Lib.antt =====
-- ollama-queue-proxy: a proxy in front of Ollama hosts that authenticates requests, queues them in
-- three tiers, caps each client, and forwards them with failover.
--
-- The parts, and the files of src/ollama_queue_proxy that they are about:
--   Http, Clock: what the handlers read and write of requests and answers, and the clock.
--   Config, Scope, Priority: config.py (settings, `SCOPE_ORDER`, `allows`), middleware.py
--     (`parse_priority`) and the ceiling of auth.py (`enforce_priority_ceiling`).
--   Middleware: middleware.py. `RequestContextMiddleware`, which gives a request its identity.
--   Auth: auth.py. `AuthManager` with `authenticate`, `require_scope` and the rate limit.
--   Queue: queue.py. Queue.State is `PriorityQueueManager`; Queue.Enqueue is `enqueue`; Queue.Worker
--     is `_worker`, cut at its awaits into `take` and `finish`; Queue.Control is `pause`, `resume`,
--     `flush` and `retry_after`; Queue.Steps lets all of these happen in any order, and
--     Queue.Shutdown is `drain` and `stop_workers`, as `lifespan` calls them at its end.
--   Concurrency: concurrency.py. `ClientState` and `ClientConcurrencyManager.acquire`.
--   Routing: routing.py. `RoutingTable` with `pick` and what changes the state of a host.
--   Proxy: proxy.py. `forward_headers` and the failover loop (`attempt`); Proxy.Dispatch is
--     `dispatch_request` around it, and Proxy.Forward the requests that it sends. Proxy.Changes lets
--     polls, picks, answers and failures change the table in any order.
--   Body: `read_body` of proxy.py and `_inject_keep_alive` of main.py.
--   Gateway: `_enqueue_request` of main.py, up to its wait (Gateway) and after it (Gateway.Reply), and
--     its callers `proxy_handler` and `injection_handler` (Gateway.Handlers). These are a deployment
--     without an embedding cache; Gateway.Cached is the part that one with a cache does otherwise.
--     Gateway.Listener is the application of a listener, on the state that is shared with it.
--   Config.Keys: an entry of `auth.keys` through its validators; Config.Checks: the validators of
--     fields and of the sections together; Config.Env: `_apply_env_overrides`; Config.Load:
--     `load_config`. They are all in config.py.
--   Json, Cache: cache.py. `EmbeddingCache` with `get` and `set`, over a backend whose state is passed
--     on; Cache.Redact is `redact_backend_url` and `_userinfo_bled`, on code points, and Cache.Startup
--     is `_startup_error_detail` with what `startup` prints.
--   Webhooks: webhooks.py. `validate_webhook_url`, `fire` and the request that `_deliver` makes.
--   Status: routes/status.py. `queue_status`, `queue_summary` and their gate; Status.Labels writes
--     lines of the Prometheus text format, Status.Metrics is `metrics`, and Status.Reader reads such a
--     page as a scraper does. A text is rendered as its code points.
--   Admin: routes/queue.py, the controls behind their gate; `drain` is a list of looks at the queues.
--   Dashboard: routes/dashboard.py, the route with its gate.
--   Gateway.Compat: `wrap_response` of openai_compat.py, and where `proxy_handler` calls it.
--   System: queue, workers and caps together, in runs of any order: `dispatch_fn` of main.py takes a slot
--     of its client by Concurrency between `take` and `complete` of Queue.Steps. The fast path for
--     metadata goes past all three. System.Runs relates the runs to those of Queue.Steps.
--   Startup: `run` and `lifespan` of main.py, `startup_probe` of routing.py and `startup` of cache.py.
-- A request enters by Gateway.Handlers, passes Auth, Body and Queue, is dispatched by a worker through
-- Concurrency and Proxy, which picks hosts by Routing, and is answered by Gateway.Reply.
--
-- Code that runs without an await is one step. Objects that the source mutates are states that are
-- passed on: the futures of requests are part of the queue manager's state, so that a caller that
-- goes away and a worker write the same future. `enqueue` does not suspend: its queue has room, and
-- `_fire_event` only starts tasks.
-- `proxy_handler` and `injection_handler` are one step each, although `read_body` awaits the stream
-- between the authentication and the queue.
-- Times are natural numbers of nanoseconds and quotients are exact, where the source has floats.
-- Numbers in JSON are natural numbers, and digits, letters and environment variables are ASCII.
-- The digits of a number run on fuel, which is more than the number. The failover loop runs on fuel: a
-- repeated host ends it, and the fuel is one more than the hosts. The reader of a page of metrics has
-- the length of what it reads as fuel for the labels.
--
-- Parameters: what hosts answer (`send`) and what other tasks do to the table meanwhile
-- (`others`); Python's `int`, `repr`, `sorted`, `json.loads` and `json.dumps`, UTF-8 and
-- SHA-256, `urlparse`, `urlsplit`, `parse_qs`, `ip_address` with its message, and `getaddrinfo`;
-- the environment and the files that hold keys; what opening the file of the configuration and
-- `yaml.safe_load` come to, and `Config.model_validate`; the identity that `uuid` makes; what
-- the backend of the cache does on GET and SETEX, and whether it answers the ping at the start;
-- what hosts answer to a poll; how Python iterates over a text; and the nonce of a page. The
-- model that a body names is an argument of `dispatch_request`. A text has no lone surrogate, so
-- that its encoding does not fail.
--
-- Not modelled: the text of the dashboard's page, which is a constant; the types and defaults that
-- pydantic gives to fields; the HTTP client, its connections and the connection to the backend; the
-- closing of these at the end; and logging. No caller passes `reentries`, so that
-- in System it is 0.
mod Prelude
mod Clock
pub mod Http
pub mod Priority
pub mod Scope
pub mod Config
pub mod Auth
pub mod Queue
pub mod Concurrency
pub mod Routing
pub mod Proxy
pub mod Body
pub mod Gateway
pub mod Admin
mod Tests
pub mod Json
pub mod Cache
pub mod Webhooks
pub mod Status
pub mod System
pub mod Startup
pub mod Dashboard
pub mod Middleware
