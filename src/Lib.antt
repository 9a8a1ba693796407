-- ===== src/Lib.antt =====
-- ferrum-proxy is a reverse proxy for HTTP/1.1. A request that no internal page answers is given
-- to the route with the longest prefix that takes its path; of the backends of the route those
-- that are in service are offered to the load balancer, which chooses one; the request is sent
-- there, and its result feeds the health of the backend and the telemetry. A request that is safe
-- to repeat may be sent to further backends. The configuration is checked as a whole before
-- anything starts.
--
-- The files follow the modules of the repository:
--   - Config models src/config/mod.rs: Config/Types the structs, Config/Defaults the default
--     values, Config/Documents how serde fills a configuration up with them, Config/Validate
--     `Config::validate` and `load_from_file`, with each message. Its children hold the
--     specification and the proofs: Parts the sections, Routes the routes, Endpoints the health
--     endpoints that routes share, Whole the configuration, Minimal the defaults under it. The
--     parser of URLs is the interface `UrlApi`; the file system and the YAML parser are arguments
--     of `load_from_file`.
--   - Routing models src/routing/mod.rs, `match_route`. Routing/Matching is about the test of one
--     route, Routing/Longest about the choice.
--   - Balancing models src/balancing/mod.rs. `LoadBalancer` and `RouteBalancer` are records; an
--     atomic counter is a number that a call returns anew, modulo 2^64.
--   - Telemetry models src/telemetry/mod.rs: the counters and the record of transitions in the
--     parent, the log lines in Telemetry/Lines, `render_prometheus` in Telemetry/Render;
--     Telemetry/Quote has the `Debug` format of texts, Telemetry/Labels a reader of label values,
--     and Telemetry/OneLine is about log lines.
--   - Health models src/health/mod.rs: Health/State one backend, Health/Manager the operations of
--     `HealthManager`, Health/Checks the active checks with the task that makes them.
--     Health/CheckSet is about the set of checks, Health/Pass about a pass of them; Health/Entries
--     and Health/Up are about the entries of the backends and about managers whose backends are
--     all in service, Health/Fit about histories with too few failures to end that, and
--     Health/Beside about a pass and a look at the pools beside other tasks. Health/Breaker is the specification, a circuit breaker as a step relation;
--     Health/Calls is about single calls, Health/Keeps relates histories of calls to it,
--     Health/Eligible says who is in service, Health/Threshold when a backend leaves. The manager
--     and the telemetry that it writes to are passed together as `Health`; the clock is an
--     argument.
--   - Upstream models src/upstream/mod.rs: Upstream/Error the errors, Upstream/Headers the header
--     work over the interface `HeaderApi`, Upstream/Body `limit_body_stream`, Upstream/Forward
--     `UpstreamClient::forward` over the interface `Urls` and an HTTP client that is a function.
--     Upstream/Sanitized, Upstream/Limits and Upstream/Relayed hold the proofs.
--   - Http models src/http/mod.rs: Http/State `AppState` and its tests, Http/Buffer
--     `buffer_request_body`, Http/Respond the responses of the proxy and the internal routes,
--     Http/Exchange `select_backend` and `forward_request`, Http/Retries `forward_with_retries`,
--     Http/Handle `handle_request`, Http/Startup the health check at the start. The proofs are in
--     Http/Attempts, Http/FirstPass, Http/Reasons, Http/Ends, Http/Permits, Http/Served and
--     Http/Guard.
--   - Server models src/server/mod.rs: the tracker of connections and the reasons of a shutdown;
--     Server/Drain is the drain beside the tasks of the connections, as a step relation;
--     Server/Run is `run_with_shutdown_kind` over the events of the listener, the connections and
--     the signal, and Server/Traffic is about its loop.
--   - Bench models the programs under src/bin. Of benchmark_backend.rs, Bench/BackendArgs has the
--     command line and Bench/Backend the replies and Bench/BackendLoop `main`, with proofs in Bench/Replies. Of
--     benchmark_runner.rs, Bench/RunnerArgs has the command line, Bench/Scenarios the scenarios,
--     Bench/Spawn what it passes to other programs, Bench/Wait `wait_until_ready`, Bench/Dates the
--     calendar, and Bench/Processes `main` with the children that run. Bench/CommandLines is about
--     a command line from the one program to the other, Bench/Dates/Stamp about dates, and
--     Bench/Leftovers about the children.
--   - Common holds what the components share: native numbers and Boolean tests, lists, association
--     lists for the maps, texts and their bytes, the parsing of numbers, signed integers, results,
--     time in nanoseconds. The files called Examples hold runs on concrete data.
--
-- A component that the program shares behind an `Arc` is passed in and returned. An operation is
-- one step; where `handle_request` waits, for the body, for a backend or for the backoff, an
-- argument says what the other tasks do to the state, and another what the clock reads. The
-- same goes for the start: the background checks are spawned before the listener is bound, so
-- what they do until then, between the checks of the pass at the start and between the pools
-- that it looks at are arguments of `run_with_shutdown_kind` and `run_startup_health_check`.
--
-- The retry loop runs on fuel, `max_attempts` + 1 rounds; the code goes on to a next round only
-- while the number of the round is below `max_attempts`. `show` and the hexadecimal request id use
-- a number of digits that is enough for the number given. `wait_until_ready` runs on fuel too;
-- each of its rounds sleeps for 100 ms, so one round for each 100 ms of its time and one more are
-- enough. All other loops are structural recursion. Unsigned 64-bit counters are taken modulo
-- 2^64; `saturating_mul` in the backoff is a minimum.
--
-- Not modelled: the YAML parser, the tables of Unicode behind the `Debug` format, the pool of
-- connections of the HTTP client, the serving of a connection by hyper, the entry points, and the
-- files that the benchmark runner copies.
mod Common
pub mod Config
pub mod Routing
pub mod Balancing
pub mod Telemetry
pub mod Health
pub mod Upstream
pub mod Http
pub mod Server
pub mod Bench
