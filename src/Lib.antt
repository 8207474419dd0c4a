-- ===== src/Lib.antt =====
-- svcmetrics collects metrics on hosts and keeps them on a server. An agent polls the Go runtime and the
-- host, cuts what it holds into batches and posts them, signed if it has a key; the server checks the
-- signature, stores the metrics in memory or in PostgreSQL, answers reads, signs its answers and reports
-- what it stored to the audit observers. Gauges are replaced by an update, counters are added to.
--
-- The files and the code that each is about, with paths from the root of the repository:
--   Base, Model, Errors   the shared lists, numbers and maps; internal/model/metrics.go; error values as
--                         chains of links, in which errors.Is and errors.As look
--   Retry                 internal/retry/retry.go: do_value is DoValue, attempts its loop. Retry.Runs has the
--                         runs, Retry.Bounds the number of calls and the length of the pauses
--   Repository.Batch      internal/repository/batch.go: aggregate_batch is aggregateBatch; Keys, Place and Order
--                         hold what its proof needs, Meaning and Validity what it computes and takes
--   Repository.Memory     internal/repository/memory.go: the methods of MemStorage, one function for each, and
--                         what they keep of its maps (Maps). Save has Save and writeAndClose over system calls,
--                         Calls and Atomic what stands in the file, Race two saves beside each other; Load and
--                         Reload have Load
--   Repository.Storage    internal/repository/storage.go: the interface as a record of operations, its comments
--                         but those on UpdateBatch as the laws of Contract; Memory is MemStorage as such a record
--   Repository.Postgres   internal/repository/postgres.go and migrations/00001_create_metrics_table.sql:
--                         Statements has the table, the server and its answers, Transaction updateBatchTx,
--                         Represents and Batch what UpdateBatch leaves, Counter what a lost answer does to
--                         UpdateCounter, Open NewPgStorage and migrations/migrations.go
--   Repository.Retriable  internal/repository/retriable.go
--   Hashing, Pool         internal/hashing/hashing.go, internal/pool/pool.go
--   Handler               internal/handler: Update, Value and Audit have the endpoints, Hash the signing
--                         middleware and the generated Reset, Gzip the compression middleware (Pooled: the
--                         decompressor of a request body; Streaming: Flush), Wire what net/http makes of a response,
--                         RoundTrip what a read answers after a write
--   Audit                 internal/audit/audit.go: the publisher, its queues and the rounds of its goroutines;
--                         Delivery over all orders of steps, Closing behind Close, Waiting what a Close
--                         that has succeeded tells
--   Agent                 internal/agent: agent.go, retriable.go and system.go. Collect makes a batch and takes
--                         one back, Report sends, Request makes the request of sendBatch, Encoders has the
--                         pooled buffers that the bodies of requests alias, Ledger accounts for every
--                         increment of the poll counter
--   Audit.Receivers       internal/audit/file.go and http.go: the observers, and what their errors show of a URL
--   Audit.FileLog         internal/audit/file.go: the lines of the audit file
--   Environment           the flags of both commands under their environment variables
--   Server                cmd/server: Router has the logging and the chain of middleware of main.go and
--                         router.go, Timeouts its timeouts, Admitted and Delivery the way of a batch from the
--                         agent to the storage, Sync the storage that is saved behind every write, Auditing
--                         newAuditor, Upgrades Flush, Hijack and Push of the writers, Settings the settings, Serving the life of a server with a file, Main
--                         the choice of the storage and what is open at the end
--   Agent.Settings        cmd/agent/main.go: the settings, and the agent that main runs
--   Reset                 cmd/reset: Walk and Package are main.go, Collect is collect.go, Loader and Resolve
--                         are resolve.go, Names, Emit, Method and Generate are emit.go, Depth bounds the nested
--                         calls of resetExpr
--   Lint                  cmd/staticlint: noosexit.go, and the checks that main.go chooses
--   Examples              the theorems at concrete inputs
--
-- State is passed on explicitly. What holds a lock is one step; what runs beside it, in the audit and in
-- the agent, is a list of actions or a step relation, in any order. An error is a chain of links, a Go
-- map an association list, an int64 its bit pattern below 2 ^ 64, with sums that wrap around, and a
-- float64 the parameter F, since the code only stores it and passes it on. A Go slice that grows is a
-- list.
--
-- The chunk loops of the agent run on fuel, the number of metrics, which is enough since a chunk has at
-- least one metric. The other loops but the generator's are structural.
--
-- Parameters of the definitions stand for code that the repository does not hold or that the runtime
-- gives: JSON and number formats, HMAC and hexadecimal, the class codes of pgerrcode, the clock and the
-- random source of a retry, the transport of the agent and the statistics that it reads, gzip and URLs,
-- the database driver and the migration tool, the environment, go/parser, go/printer, go/format,
-- go/packages and the type information of go/analysis.
--
-- A call to the database or to the file system takes its outcome off a list, so a theorem over all lists
-- is over every pattern of failures; a call that failed may have run, and a write may leave some bytes.
-- The generator runs on fuel, one for each nested call: the nodes of the type, and for each of the nine
-- unfoldings of a definition one more than the most nodes of a definition.
--
-- A buffer of an encoder is written in place; what a reader of its old memory sees behind a growth is left
-- out. Encoders is about the reads of a body while its encoder is out, and the code does not exclude later
-- ones.
--
-- A file of the server is written by one save at a time in Server.Serving; Save.Race has the case of two.
--
-- Publish of the audit and a report cycle of the agent are one step each, though two publications, and
-- a cycle and the workers, may interleave in the code. A listener that fails ends the server by log.Fatal,
-- behind any requests. The response of net/http is that of handlers that answer no informational status.
--
-- Not modelled: the settings of HTTP clients, the pool of compressors, the network and signals, the tickers,
-- the deadlines of the drain and of the shutdown, the build information and the texts of the log, and the
-- analysers of other packages that cmd/staticlint runs.
pub mod Base
pub mod Model
pub mod Errors
pub mod Environment
pub mod Retry
pub mod Hashing
pub mod Pool
pub mod Audit
pub mod Agent
pub mod Repository
pub mod Handler
pub mod Server
pub mod Reset
pub mod Lint
pub mod Examples
