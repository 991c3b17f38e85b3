-- ===== src/Lib.antt =====
-- scry-proxy, a pooling proxy for PostgreSQL, in scry-proxy/src. A client's bytes are forwarded to a backend
-- connection; beside the forwarding, the proxy reads both streams to learn when a transaction has ended, which
-- statements were sent and which session state they leave, and so whether the connection may go to another client.
--
-- Parts, with the files that model them:
--   Resilience/CircuitBreaker: resilience/circuit_breaker.rs. Atomics are fields that hold machine integers with
--     their wrap-around; a method is a function to the new breaker; the clock and the health monitor's answer are
--     arguments. `step` and `run` are one call and a list of calls. Race has the threads that raced past the load of
--     the state.
--   Protocol/Wire, Protocol/Utf8: big-endian integers as `bytes` reads them, the casts to `usize`, and the test that
--     `String::from_utf8` makes.
--   Protocol/Scan: `extract_ready_for_query` and `is_query_complete` of protocol/extractor.rs.
--   Protocol/Messages, Protocol/Reassembly: the parsers of client messages, and `extract_messages` with its buffer, in
--     the same file.
--   Protocol/ErrorFields: `extract_error` and `extract_error_scrubbed`, in the same file.
--   Protocol/CommandDetector: protocol/command_detector.rs.
--   Proxy/ModeEnforcer: proxy/mode_enforcer.rs, over the command detector.
--   Proxy/Transaction: proxy/transaction.rs. Proxy/WaitQueue: proxy/wait_queue.rs.
--   Proxy/StatementCache: proxy/cache.rs. Proxy/ConnectionState: proxy/connection_state.rs, over the command detector.
--   Proxy/Lru: the eviction loop of the last two.
--   Resilience/Retry: resilience/retry.rs, on a world that the caller gives. Proxy/TcpPool: proxy/tcp_pool.rs, over the
--     breaker and the retries.
--   Proxy/PoolManager: proxy/pool_manager.rs, over the wait queue and a pool as a record of calls. A caller that waits is
--     between `acquire` and `after_wait` or `after_timeout`. Balance, Calls and Runs count connections; Sticky and Cleanup
--     are about the bindings of clients.
--   Proxy/EventBatcher: proxy/event_batcher.rs, with the channel and the publisher as records of calls.
--   Protocol/Startup, Protocol/AuthMessages: protocol/startup.rs and protocol/auth_messages.rs.
--   Protocol/Bind: protocol/bind.rs.
--   Protocol/Anonymize: protocol/anonymize.rs, over the SQL parser's library as a record of calls.
--   Protocol/Postgres: the health check and the reset of protocol/postgres.rs, on the reads that a stream will give.
--   Auth/FileAuth, Auth/Authenticator: auth/file_auth.rs and auth/authenticator.rs, over those messages.
--   Tls: tls/startup.rs, over both. Routing: routing/mod.rs. Observability/Timeline: observability/timeline.rs.
--   Observability/Sketch: the sketch of observability/hot_data.rs.
--   Proxy/Connection: proxy/connection.rs. Events builds what is published, Replies the errors for a refused client;
--     Session is the state that `handle_with_managed_connection` keeps, Client and Backend are the branches of its loop,
--     each a function from the state and a chunk to the new state and what is sent.
--   Proxy/Server: the accept loop of proxy/server.rs, its tasks and their guards as a step relation, and (in Admin) the
--     login of the console. Proxy/ClientRegistry: the registry of proxy/admin_handles.rs.
--   Admin/Commands, Admin/Response: admin/commands.rs and admin/response.rs. Config: `validate` of config/mod.rs.
--   Base: lists, maps, sets, ASCII texts and machine words for all of them.
-- How they interact: Connection/Client gives the bytes of a client to `extract_messages`, the text of Query and Parse to
-- the mode enforcer and then to `apply_query`, which calls `split_statements` and `classify`; Connection/Backend looks for
-- an error or an end of the query, gives the status that `extract_ready_for_query` finds to the transaction tracker, and
-- decides whether the connection goes back to the pool. A client's first message goes through `handle_ssl_startup`.
-- The pool manager takes a connection from the pool, whose `get` asks the breaker and retries and whose `recycle` calls
-- Postgres, or from its own map, or puts the caller in the wait queue; a release wakes a waiter. The console's commands
-- work on the pool managers and on the registry, which the server's tasks fill.
--
-- Bounds and fuel. Arithmetic on `usize`, `u64` and `u32` wraps, as in a release build. The loops of the scans take
-- fuel and answer `stuck` without it: one round for each frame and one more are enough on the chunks that the results
-- name, and on some chunk no fuel is enough. `drain` takes the number of bytes as fuel, and never uses it up. The loop
-- of the retries takes `max_attempts` and one more, and those over the parameters of a start-up message and over
-- mechanism names take its length: each round makes an attempt, or consumes a byte.
-- A Rust panic is a result of its own (`panicked`, `crash`, `panics`).
--
-- Not modelled: sockets, the TLS library, the start-up handshake of a session and the authentication to a backend, the
-- loop for a connection without a pool, the histograms of the metrics, publishing over HTTP, the pool library, the SQL
-- parser, the reports of the console and the reading of the files of settings. Texts are lists of bytes; the command
-- detector's functions on them, and those of the console, are those of ASCII texts.
pub mod Base
pub mod Resilience
pub mod Protocol
pub mod Proxy
pub mod Tls
pub mod Observability
pub mod Routing
pub mod Auth
pub mod Config
pub mod Admin
