-- ===== src/Lib.antt =====
-- The metrics service: an agent collects gauges and counters and sends them in batches, over HTTP or
-- gRPC; a server keeps them in memory, in a file or in PostgreSQL and answers queries.
--
-- Parts and files:
-- - Model, Errors: internal/model/metrics.go and reset.gen.go, and the sentinel errors of
--   internal/service, internal/repository and internal/grpcserver. `Metrics`, `reset`. A float64 and
--   an int64 are the numbers of their 64 bits; `add_int64` is the wrapping sum.
-- - Dict: Go's `map[string]V`, an association list that is read by `get` and changed by `put`.
-- - Repository: the interface `Storage` of internal/repository/storage.go as a record of operations
--   over a state, and the laws that its clients use (Repository/Laws). Repository/Mem is `MemStorage`:
--   `update_gauge`, `update_counter`, `update_batch`, `get_gauge`, `get_counter`, `get_all`, `ping`.
--   Its mutex makes each method one step.
-- - Service: internal/service/metrics.go over any `Storage`: `update` (Update), `update_json`
--   (UpdateJSON), `get_value`, `get_json`, `update_batch`, `get_all`, `ping`.
-- - File: internal/repository/file/storage.go: `save` (Save), `load` (Load), and SyncStorage in
--   File/Sync (`sync_update_gauge`, `sync_update_counter`, `sync_update_batch`). The calls of `os`,
--   the JSON codec and the order of `range` are parameters; File/Laws states what is relied on, and
--   File/Example gives values that keep these laws.
-- - Retry: internal/retry/retry.go, `retry` (Do), over any state. The `select` between the context
--   and the timer is the parameter `wait`.
-- - Audit: internal/audit/event.go; Audit/Publisher is publisher.go, where `publish` (Publish), `work`
--   (a round of worker) and `close` (the part of Close under the mutex) are the actions of `run`.
--   Audit/Publisher/Close is the rest of Close, where `Wait` is how its wait ends and the events handed
--   over under the cancelled context are kept apart. Audit/FileSink and Audit/HttpSink are file_sink.go
--   and http_sink.go: `notify`, `close`.
-- - Http, Handler: internal/handler/handler.go. A handler maps a request and a state to the calls on
--   its ResponseWriter, in order, and the new state: `update_handler`, `value_handler`,
--   `update_json_handler`, `value_json_handler`, `update_batch_handler`, `ping_db`, `root_handler`.
-- - Grpc: internal/grpcserver/server.go (`update_metrics`, `to_model`, `map_error`) and the
--   conversion `to_proto` of internal/agent/grpcsender.go, whose `send` (Send) is in Grpc/Sender.
-- - Config: internal/config: `parse_agent_config` and `parse_server_config`, and the precedence of
--   their sources in Config/Precedence. The package `flag` gives a record of the flags that were set.
-- - Crypto: internal/crypto/crypto.go, the format of an encrypted body: `encrypt`, `decrypt`.
--   Crypto/Keys has `load_public_key`, `load_private_key`, and `keygen` of cmd/keygen; Crypto/Certs is
--   cmd/certgen.
-- - Middleware: Subnet (internal/trustedsubnet), Signature (internal/hash), Encryption
--   (internal/crypto/middleware.go), Gzip (internal/gzip), Chain, the order in which
--   cmd/server/main.go puts them before the handlers, and Logger, the `RequestLogger` of
--   internal/logger. Middleware/Signature/Hashers has the pools of hashers behind `Compute`, with the
--   goroutines that share them as a step relation.
-- - Agent: internal/agent. Sender (`send`, the request that it builds and its retries), Pool (`submit`,
--   `work`, `shutdown`), and Collector (`collect`, `collect_extra`, `metrics`). Agent/Setup is
--   cmd/agent/main.go up to its loop; Agent/Main is the loop with the goroutines that collect, the
--   workers, and the wait of `Pool.Shutdown`, as a step relation on a `World`.
-- - Postgres: internal/repository/pg/storage.go over a `Database`, whose statements change a table:
--   `update_gauge`, `update_counter`, `update_batch`, `get_gauge`, `get_counter`, `get_all`.
--   Postgres/Laws states what is relied on, and Postgres/Example is a database that fails on request.
-- - Reset: cmd/reset/main.go, the generator of `Reset` methods: `emit_field` (emitField) builds a body
--   as statements, `print_stmts` is its text; Reset/Targets has `find_targets` (findTargets),
--   `render_package` (renderPackage) and `run`.
-- - Staticlint: cmd/staticlint/nofatal and cmd/staticlint/osexit: `run`, over the nodes of a body.
--   Staticlint/Analyzers is the list that cmd/staticlint/main.go makes.
-- - Server: cmd/server/main.go: `storage_mode`, `start`, `setup_audit` and `shutdown`. Server/Startup is
--   the key, the trusted subnet and the server of gRPC.
-- - Database: internal/database/migrate.go: `with_pgx5_scheme` and `run_migrations`.
-- - ObjectPool: internal/pool/pool.go: `new_pool`, `put` and what `Get` may return, with the threads that
--   share the pool as a step relation.
-- - Prelude holds the names, tests and list functions that the modules share.
--
-- A handler calls the service, the service a storage, the file storage another storage and the file
-- system; a successful update is handed to the audit publisher. The server's middleware
-- reads what the agent's sender writes: a compressed, encrypted and signed body.
--
-- Loops are recursions on lists: `Do` goes through the list of its delays, the publisher through a
-- given sequence of actions. Only `emit_field` needs fuel, since a Go type may refer to itself;
-- Reset/Termination compares the height of a type with it. The step relations have no fuel: what they say
-- of a state holds after any number of steps.
--
-- Not modelled: the table of routes, which chi reads, pprof, the timeouts of net/http, the print of the
-- version (internal/buildinfo), the set-up of zap, and generated code. Log output is left out everywhere
-- but in Middleware/Logger, and so are failures of a write to the client.
pub mod Prelude
pub mod Dict
pub mod Model
pub mod Errors
pub mod Repository
pub mod Service
pub mod File
pub mod Retry
pub mod Audit
pub mod Http
pub mod Handler
pub mod Grpc
pub mod Config
pub mod Crypto
pub mod Middleware
pub mod Agent
pub mod Postgres
pub mod Reset
pub mod Staticlint
pub mod Server
pub mod ObjectPool
pub mod Database
