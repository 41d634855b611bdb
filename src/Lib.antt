-- ===== src/Lib.antt =====
-- A model of open-terminal-k8s-proxy, a proxy that gives each user a terminal pod of their own in a
-- Kubernetes cluster and forwards the user's requests to it.
--
-- The program's parts and their modules. A request comes through the application's two middleware
-- functions and a route's dependencies (terminal_proxy/main.py), and names a user; the pod manager
-- (terminal_proxy/pod_manager.py) finds the user's pod or creates one, with the storage manager
-- (terminal_proxy/storage.py) for volume claims, the manifest builders
-- (terminal_proxy/k8s/pod_builder.py) and the API client (terminal_proxy/k8s/client.py); the request
-- is then forwarded, on the routes with a circuit breaker (terminal_proxy/circuit_breaker.py) unless
-- that of the pod refuses it. The metrics (terminal_proxy/metrics.py) count what was answered.
--
--   * Codecs, Config, Json: the hashes, encodings and settings (terminal_proxy/config.py) that the
--     program reads, and the JSON values that it sends. Config/Origins has `cors_origins`. The
--     codecs are a parameter; `Base64Laws` says what is relied on.
--   * Models: `TerminalPod` and the names that are made from a user's id
--     (terminal_proxy/models.py); Models/Names has `sanitize_k8s_name`, Models/Labels its theorem.
--   * Kube: `K8sClient`. The API server, the clock, tenacity's `retry` and httpx are the record
--     `Env`, an instance argument of all that uses it, over a type `W` of states of the world;
--     `RetryLaws` and `ClockLaws` say what is relied on. Each request is kept in `Client.sent`.
--     Kube/Methods has the methods, Kube/Ready `wait_for_pod_ready`, Kube/Retry what `retry` comes
--     to, Kube/Rules and Kube/Waiting what is proved of the methods.
--   * PodBuilder: the manifests, as JSON values, with a module for each kind of them;
--     PodBuilder/Selection how service and pod match, PodBuilder/Wiring how pod, secret and claim
--     do, and Places the places of a manifest that it speaks of.
--   * Storage: `StorageManager`; Storage/Expiry the theorem on the claims that are deleted.
--   * Logging: the entries and the levels of the log (terminal_proxy/logging_config.py), with
--     Logging/Records and Logging/Levels for their theorems.
--   * Metrics: the tables of terminal_proxy/metrics.py, their updates and their text.
--     Metrics/Counting, ErrorKeys and Percentile have the theorems, Metrics/Prometheus the text,
--     Metrics/Tracking `track_request_latency`, which nothing calls.
--   * PodManager: the state of `PodManager`. PodManager/Methods has the background rounds,
--     deletion and the taking over of existing pods, PodManager/Create has `get_or_create`,
--     PodManager/Tasks the same method parted at its wait. PodManager/Spec is the abstract
--     operation on the tracked pods, PodManager/Quiet, Removal, Requests, Opening (with
--     Opening/Order for the order of the requests and Opening/Rejected for a pod that the API server
--     rejects), Creation, Tracking, Upkeep, Restart and Fewer
--     have the theorems, PodManager/History the sequences of whole calls, PodManager/Interleaving
--     the steps of the event loop, with Entering and Calm for what holds of them;
--     PodManager/Background the tasks of the three loops, and `stop`.
--   * Breaker: `CircuitBreaker` (methods of the same names) and, in Breaker/Registry,
--     `CircuitBreakerRegistry`; Breaker/History, Recovery and Shut the theorems.
--   * Access: the authentication and `get_terminal_for_user` of terminal_proxy/main.py;
--     Access/Terminal has the theorems, Access/Socket the WebSocket endpoint from its `accept` on;
--     how the calls of `client_ws.close` end there is a parameter.
--   * Http: `HttpProxy` (terminal_proxy/proxy/http.py) over the registry of breakers. httpx, the
--     clock and the two methods of Python's texts are the record `Network`. Http/Headers and
--     Http/Circuit have the theorems. Http/Parts has `proxy_request` parted at its waits, and
--     Http/Concurrent any number of requests at once, with Http/Concurrent/Shut for an open
--     circuit.
--   * WebSocket: `WebSocketProxy.proxy_websocket` (terminal_proxy/proxy/websocket.py): its two
--     tasks as functions of one sequence of events; WebSocket/Relay the theorems.
--     WebSocket/Sessions has the session of the proxy, with `get_session` and the two parts of
--     `close`, before its wait and after it.
--   * RateLimit: the decision of `rate_limit_middleware` (terminal_proxy/main.py),
--     RateLimit/Window its theorems.
--   * App: the state of the application. App/Routes has the route handlers with their
--     dependencies, App/Middleware the two middleware functions around them, App/Status the status
--     endpoints, App/Lifespan the start, App/Shutdown the whole of `lifespan`, with
--     App/Shutdown/Closing for what it leaves and App/Shutdown/Quiet for what the events at its
--     waits keep. App/Admission, Forwarding, Delivery, Orderly and History, Middleware/Gate and
--     Middleware/Recorded have the theorems.
--   * Base: dictionaries with Python's order of keys, computations that may raise, and digits.
--   * Tests: a concrete world, and the theorems at concrete inputs.
--
-- Conventions. A method is a function from a state to a result, a value or an exception, and the
-- state after it, also when it raises. A pod is a value: the object that the program shares is the
-- one in the manager's dictionary, and a change of it is a `Dict.put`. Times are microseconds. An
-- operation between two waits of the event loop is one step. `get_or_create` holds the manager's lock
-- to its end, so that calls of it come one after the other; the background rounds take no lock, and
-- PodManager/Interleaving has them run while a call waits for its pod. A request of the
-- application is a whole step; its own waits, for the client's body and for the pod's answer, are
-- steps in Http/Concurrent. The shutdown is parted at its five waits, and App/Shutdown has what
-- happens at each; whether aiohttp calls a session closed while it closes is a parameter. An
-- exception that leaves the application is an `err`; the server then answers with a 500, which is
-- Starlette's.
--
-- Bounds and fuel. `wait_for_pod_ready` runs on fuel, two rounds for each second of the timeout and
-- one more; each round but the last sleeps half a second, so the fuel is enough. All other loops
-- are structural.
--
-- Not modelled: the calls that write to the log, the reading of the settings from the environment,
-- the validation of parameters and the CORS headers, which are FastAPI's, the response models that
-- nothing uses, and the deployment files.
mod Base
pub mod Access
pub mod App
pub mod Breaker
pub mod Codecs
pub mod Config
pub mod Http
pub mod Json
pub mod Kube
pub mod Logging
pub mod Metrics
pub mod Models
pub mod PodBuilder
pub mod PodManager
pub mod RateLimit
pub mod Storage
pub mod WebSocket
mod Tests
