-- ===== src/Lib.antt =====
-- Shared infrastructure of Go services (pkg/): a model of the request path and of the helpers beside
-- it, with the theorems that make them correct.
--
-- The program is a library. A service loads its configuration (pkg/config), builds gRPC and HTTP
-- servers (pkg/runtime/server) whose requests go through a chain of middlewares (pkg/middleware/*),
-- answers probes from the readiness handler, and calls other services through clients (pkg/client)
-- that retry. pkg/data opens connection pools that pkg/metric reports on, pkg/log writes log objects
-- and masks headers, pkg/trace installs the tracer, and pkg/page cuts lists into pages.
--
-- The files:
--   Prelude             strings as lists of bytes, int64 as integers with `wrap64`, maps as
--                       association lists, and the lemmas that the other modules share
--   Kratos              kratos, errors and contexts as a record of operations (`Platform`), with a
--                       concrete instance for the tests
--   Page                pkg/page/page.go: `normalize`, `offset`, `limit`, `new`, `map_result`
--   Config              pkg/config/loader.go and secret.go: `parse_line`, `load_dot_env`, `load`,
--                       `find_project_root`, the getters; the environment is an association list,
--                       the file system a parameter (`Files`)
--   Middleware.Handler  the shape of a middleware, a function from handlers to handlers over a state
--   Middleware.World    what the default middlewares read and write: headers, UUIDs, clock, counters, log
--   Middleware.Auth     pkg/middleware/auth/auth.go: `extract_token`, `map_err`, `serve`
--   Middleware.Ratelimit  pkg/middleware/ratelimit: `default_key`, `trim`, `allow`, `serve`;
--                       Concurrent has `allow` as the steps of goroutines with the mutex
--   Middleware.Retry    pkg/middleware/retry/retry.go: `default_retry_on`, `backoff_for`, `client`
--   Middleware.Timeout  pkg/middleware/timeout/timeout.go: `server`; Goroutine has a call as
--                       the steps of two goroutines and their channel
--   Middleware.Cors     pkg/middleware/cors/cors.go: `with_allowed_origins`, `filter`
--   Middleware.Logid    pkg/middleware/logid/logid.go: `server`, `client`, `from_context`
--   Middleware.Observe  pkg/middleware/access, metric and recovery
--   Server.Chain        pkg/runtime/server/grpc.go and http.go: `default_chain`, `base_http_opts`,
--                       `wrap_handler`
--   Server.Probe        pkg/runtime/server/probe.go and drain.go: `ready_handler`, `before_stop`
--   Client              pkg/client/grpc.go and http.go: `layers`, `retry_options`, `new_grpc`, `new_http`;
--                       Outbound has a call through the layers
--   Server.Response     what handlers of net/http write
--   Server.Listen       pkg/runtime/server/grpc.go, http.go, types.go and probe.go: the three
--                       constructors with their route tables, `health_handler`, `readyz`
--   Server.Tls          pkg/runtime/server/tls.go: `tls_from_files`
--   Data                pkg/data/mysql.go, redis.go and mongo.go: `new_mysql`, `new_redis`,
--                       `new_mongo`, their cleanups, and the hook of MongoDB's pool events
--   Metric              pkg/metric/db.go, mongo.go and prom.go: the collectors of pools, the
--                       counters, and what the package registers (`init_prom`, `init_mongo`)
--   Log.Redact          pkg/log/redact.go: `redact_headers`, `redact_value`
--   Log.Slog, Log.Json  pkg/log/slog.go and json.go: `handle`, `with_attrs`, `with_group`,
--                       `log_object`, `log_json`
--   Log.Std             pkg/log/log.go and json.go: what the constructors bind
--   Trace               pkg/trace/trace.go: `init`, `build_exporter`, `sampler_of`
--   Version             pkg/version/version.go: `with_go`, `handler`
--   Testutil            pkg/testutil: the fake transport and the memory logger
--   Services            kris-alpha, kris-beta and kris-gamma: what each cmd/*/main.go builds and
--                       registers, its flags and its `main`; Process has what they share
--
-- A handler takes a context, a request and a state, and gives an outcome (a return, a panic, or the
-- end of the process) and a state. Calls out of the repository are parameters: `Platform` (kratos
-- errors, `errors.As`), `Kratos` (its chain, recovery with its log, and tracing), `Net` (limiters of x/time/rate
-- and `net.SplitHostPort`), `Env` (handler, timer and random draws of a retry), `Race` (which of
-- answer and deadline is first), `Dialer` (the transports of clients), `SqlDriver` and `Pools` (drivers and
-- the Prometheus registry), `MongoDriver`, `Registry` and `Prometheus` (registration by descriptors
-- and constant metrics), `Transports` (the servers of kratos, whose route for a path is the one
-- registered first), `Pprof`, `Crypto` (keys and CA files), `Otel` (exporters and resources), `Files`,
-- `Outside` (the client middlewares of kratos and the transport behind them), `NamedRegistry`
-- (registration by names) and `Host` (the host name, the run of an app, the fatal log line).
--
-- Loops: the retry loop recurses on the rounds left, which are maxAttempts at the start, so the
-- counter passes maxAttempts exactly when none is left. The second loop of `trim` gets as many
-- rounds as the text has bytes, and each round drops one. The search of the project root recurses
-- on the components of the path. All others recurse on a list.
--
-- Bounds: an int64 or a `time.Duration` is an integer `ℤ` and its sums, products and shifts are
-- wrapped to 64 bits. Text whose white space is not ASCII is outside the model of
-- `strings.TrimSpace`. `strings.EqualFold` is `equal_fold` on ASCII text; `redact_value` folds also
-- the two runes outside of ASCII that fold to an ASCII letter, and an auth scheme with an s or a k
-- that is spelled with one of these is outside the model. An operation under a lock or on an atomic
-- is one step, save for the bucket of limiters, whose goroutines take the mutex in steps of their
-- own. The header of an HTTP response is in two parts: `reply_header` has what the middlewares set
-- and the response of Server.Response what the handlers set.
--
-- Not modelled: the parsing of flags, the text of error messages that wrap others, the help texts of
-- metrics, the provider set of pkg/runtime/server/wire.go, and the copies of other projects' protobuf
-- files in pkg/third_party.
pub mod Prelude
pub mod Page
pub mod Kratos
pub mod Middleware
pub mod Config
pub mod Server
pub mod Log
pub mod Metric
pub mod Client
pub mod Data
pub mod Trace
pub mod Version
pub mod Testutil
pub mod Services
