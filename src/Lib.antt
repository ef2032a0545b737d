-- ===== src/Lib.antt =====
-- A model of the metrics service: a server that stores gauges and counters, and the agent that
-- collects them and reports them over HTTP or gRPC.
--
-- The parts, and how they meet. The agent (internal/agent) samples the runtime into a collector,
-- makes a batch of a snapshot, and sends it over HTTP (sender.go: compressed, signed, encrypted) or
-- over gRPC (grpc_sender.go). On the server (cmd/server/main.go) an HTTP request passes the chain of
-- internal/middleware and reaches a handler of internal/handler; a gRPC call reaches
-- internal/grpcserver. Both call the service (internal/service), which checks the request and calls a
-- storage (internal/repository): in memory, in memory with a file, or in a database, which main
-- chooses. An update that was accepted is announced to the observers of the audit. The sender and the
-- database repeat what fails for a while by pkg/retry. Two tools stand beside: a linter and a generator
-- of Reset methods.
--
-- Files, and what of the code they model:
--   Prelude, GoError, GoMap: shared names and tests; error values and errors.Is; maps.
--   Int64, FloatText: int64 with its wrap-around, ParseInt and FormatInt; the text of floats.
--   Model: internal/model/metrics.go.
--   Repository: the interface Storage of internal/repository/storage.go. Repository.Spec is what a
--     storage promises; Repository.Memory is MemStorage, Repository.File is
--     internal/repository/filestorage.go with its Save, Load and periodic save, Repository.Database is
--     internal/repository/db.go over the rows of the table of migrations/sql, with the opening of the
--     pool by internal/config/db.
--   Retry: pkg/retry.
--   Service: internal/service/metrics.go over any storage.
--   Handler: internal/handler/handler.go, one function for each handler; Handler.Routes is its table of
--     routes, and Handler.Http the router as an http.Handler.
--   Grpc: internal/grpcserver/server.go and the conversion in internal/agent/grpc_sender.go;
--     Agent.OverGrpc is the rest of the gRPC sender.
--   Agent: internal/agent/collector.go and the conversion in agent.go; Agent.Sender is newRequest of
--     sender.go, Agent.Sending its SendBatch and SendMetrics, Agent.Address its choice of the local
--     address, Agent.Run the goroutines of Run and the channel between them, and Agent.Main the
--     constructors with main of cmd/agent/main.go. Agent.Sending.Network and Grpc.Sending put a network
--     that loses requests and answers between the two programs.
--   Server: main of cmd/server/main.go. Server itself chooses the storage and when it is saved,
--     Server.Start goes from the settings to the listeners with every error that ends the process,
--     Server.Refusals has the handlers of the listeners, and Server.Stopping is the shutdown.
--   Audit: internal/audit, the publisher and its observers, and buildAuditPublisher. Audit.Delivery is
--     Notify in the goroutines that emitAudit of internal/handler starts.
--   Linter: cmd/linter/analyzer.go. ResetGenerator: cmd/reset/generate/generate.go, and
--     ResetGenerator.Meaning what the statements mean that it may write.
--   Crypto: pkg/crypto/cipher.go, and Crypto.Keys its keys.go. Middleware: internal/middleware,
--     pkg/hash, and newRouter of cmd/server/main.go. Compress: pkg/compress.
--   Config: internal/config, the settings of both programs.
--   Pool: pkg/pool. BuildInfo: pkg/buildinfo.
--   GoText: the functions of strings that the program calls.
--   Examples: concrete inputs for the theorems, and runs.
-- The modules below a component hold its theorems, named for what they prove.
--
-- How the code becomes definitions. An operation takes the state behind its receiver and gives the
-- new state beside its results; each method of a storage and of the collector holds its lock for its
-- whole body and is one step. A pointer is an Option, an `error` is `Option GoError`, and `(T, error)`
-- is `Result T`. A map is the list of its entries in the order in which a `range` loop visits them;
-- that order is open in Go, so the theorems hold for every list without a repeated key. An int64 and a
-- float64 are their bit patterns below 2^64; floats are copied and written, never computed with.
-- A panic in the HTTP chain and in Decrypt is `none`. Goroutines that run side by side (the loops of the
-- agent, the end of the server, the users of a pool, the deliveries of the audit) are a step relation
-- and what it reaches. A pooled object has an address, since its users share it by pointers. Names and
-- other texts are valid Unicode: encoding/json replaces other bytes, and `String` does not hold them.
--
-- Parameters, with their documented behaviour as records of laws: the text of floats, the JSON of
-- encoding/json, gzip, HMAC, hex and net of the Go library, RSA-OAEP and AES-GCM, random bytes,
-- the Recoverer of chi and its matching of a path against the table of routes, PEM and x509, the
-- sending of an answer by net/http, the flag package, JSON files, ParseDuration and ParseBool for the
-- settings, retry-go, the error classes of pgerrcode, the HTTP client of the agent, and for the tools the loader
-- of packages, method sets, go/format and unicode. The disk, the connection to the database, the
-- network and the servers of the audit answer as the environment chooses. A statement of SQL is what
-- it does to the rows; the table has no column updated_at, which no statement reads.
--
-- Bounds: format_uint has fuel for twenty digits, which is enough below 2^64. Do of pkg/retry makes at
-- most four calls. All other recursion is structural.
--
-- Not modelled: the HTML of the dashboard, the lines of the log other than their presence, the main
-- functions of the two tools, and the code that protoc generates. When a ticker fires, a signal comes, a
-- call ends or the budget of the shutdown is spent is left open: these are steps of a relation.
pub mod Pool
pub mod BuildInfo
pub mod Prelude
pub mod GoError
pub mod GoMap
pub mod Int64
pub mod Model
pub mod Retry
pub mod FloatText
pub mod Repository
pub mod Service
pub mod Linter
pub mod ResetGenerator
pub mod Audit
pub mod Server
pub mod GoText
pub mod Handler
pub mod Crypto
pub mod Middleware
pub mod Compress
pub mod Config
pub mod Grpc
pub mod Agent
mod Examples
