-- ===== src/Lib.antt =====
-- goproxy: a scanner and checker of public proxies, which keeps a pool of those that are alive.
--
-- The program reads addresses, drops those that it has seen lately (pkg/pipeline/dedup.go), checks
-- each by talking to it (pkg/checker, pkg/protocol, with the judges of pkg/judge), counts the
-- results (pkg/model/stats.go), and stores the live ones in SQLite and in text files (pkg/storage).
-- pkg/pipeline connects these parts by a queue and a pool of workers; pkg/geoip finds the country of
-- an address; pkg/daemon rechecks the stored proxies in cycles; pkg/server and pkg/judge answer over
-- HTTP, from the table and as judges for the checks themselves.
--
-- Files, and the code that each is about:
--
--   Base, Base/*        Helpers: lists and options over native numbers, Go's int as an integer,
--                       strings as lists of bytes (strings, strconv), maps as association lists,
--                       float64 as a record of operations (Base/Float), and counts by
--                       name in falling order (Base/Counts).
--   Net/Ip, Net/Header  What the program uses of net.IP and http.Header, as documented.
--   Net/Public          isPublicIP of pkg/protocol/protocol.go.
--   Model/Proxy         pkg/model/proxy.go: Protocol, Anonymity, Proxy, CheckResult, Address,
--                       URLString.
--   Model/Config        pkg/model/config.go: the records and DefaultConfig.
--   Model/Stats         pkg/model/stats.go: NewStats, IncQueued, RecordResult, Speed,
--                       PushHistoryPoint, GetHistory, Snapshot (Defs); Counts and History are about
--                       the counters and the ring of 120 points.
--   Pipeline/Dedup      pkg/pipeline/dedup.go: NewShardedDeduplicator, CheckAndSet, cleanupLoop
--                       (Defs); Shards relates the 64 shards to one map of keys to times, and
--                       Window is about runs of requests and cleanups.
--   Pipeline/Jobs       pkg/pipeline/pipeline.go: parseLineToJob (Defs); Forms is about the forms of
--                       a line, Readback about the lines that the program writes itself.
--   Pipeline/Ingest     The body of the loop of IngestFromReader (Defs), and the filter in it
--                       (Spacing).
--   Pipeline/Process    processJob after the check: counters, score, files and database.
--   Pipeline/Pool       NewPipeline, Start, worker, IngestFromReader, Cancel and Stop as steps on
--                       the state that the goroutines share (Defs); Invariant is about every state,
--                       Progress about the length of a run, Stop and Outcome about its end.
--   Pipeline/Dashboard  pkg/pipeline/dashboard.go: the texts and the bar (Pieces), StartLiveDashboard
--                       and printDashboard (Live), PrintFinalSummary (Summary), the countries that
--                       they name (Top), and printAliveLine (Line).
--   Protocol/Judge      pkg/protocol/protocol.go: validateJudgeResponse and extractAzenvIP.
--   Protocol/Conn       A connection as one run sees it: the segments that arrive, the number of
--                       writes that succeed, and what was written; io.ReadFull and io.ReadAtLeast.
--   Protocol/Socks      CheckSOCKS5 and CheckSOCKS4. Reading relates segments to the stream of
--                       their bytes, Exchange the steps of a dialogue, and Sound a dialogue that has
--                       succeeded; Whole and Complete are about proxies that answer as they should.
--   Protocol/Tunnel     CheckHTTP and CheckHTTPS.
--   Protocol/Detect     thuTuProbeTheoPort, probeMotProtocol and DetectProtocol.
--   Judge               pkg/judge/judge.go: PickJudge and EvaluateAnonymity (Defs, Pick, Level), and
--                       NewEvaluator, ResolveJudgeURL, checkAllJudges and GetMyPublicIP (Health);
--                       Rounds is about healthLoop.
--   Checker             pkg/checker/checker.go: CheckIPPort and getTargetHost; Score is about
--                       CalculateScore, stage by stage.
--   Daemon              pkg/daemon/daemon.go: NewDaemon, priorityScore and recheckPool (Defs), and
--                       Run (Loop), with the committer of the store at work at the same time;
--                       Query is about what a cycle reads, Cycle about its list, Valid and Clean
--                       about the table after any number of cycles.
--   GeoIp               pkg/geoip/geoip.go: Lookup, classifySpecialIP, matchEmbeddedCIDR,
--                       getSubnet24 and fallbackProvider (Defs), fetchBatch and the flush of
--                       batchWorker (Batch), what Lookup leaves in the caches (Cached), what the
--                       worker answers (Replies), and initMMDB and autoDownloadMMDB (Database,
--                       with Download about the files).
--   Storage/Table       pkg/storage/sqlite.go: the table, with flushBatch, commitSingleProxy,
--                       QueryProxies, GetRandomAliveProxy, the counts and PurgeDeadProxies;
--                       Countries is about CountByCountry, and Batch about flushBatch.
--   Storage/Setup       NewSQLiteStore and initSchema.
--   Storage/Committer   pkg/storage/sqlite.go: SaveOrUpdateProxy, batchCommitter, Flush and Close
--                       over any database that takes batches; Conservation is about the proxies
--                       themselves, Delivery about any quantity that writes add to.
--   Storage/Exporter    pkg/storage/exporter.go: NewExporter, WriteAlive, SyncAliveFiles and Close,
--                       over a disk of text files.
--   Server/Response     What the handlers write, as values.
--   Server/Pool         pkg/server/server.go: handleProxies, handleRandom and handleTop;
--                       Random is about handleRandom.
--   Server/Check, Server/Export  handleTest and handleExport.
--   Server/Metrics      handleStats, handleStatsHistory, handleStatsBreakdown, handleMetrics,
--                       handleHealthz, handleDashboard and corsMiddleware.
--   Server/Echo         The judges of pkg/server/server.go and pkg/judge/server.go; Readback relates
--                       what they write to what extractAzenvIP reads.
--   Server/Stream       BroadcastProxy, broadcastLoop, and handleStream as steps on the channels;
--                       Order is about what a client gets.
--   Server/Routes       NewAPIServer: the patterns of the mux and the middleware, over the handlers.
--   Commands            cmd/check.go: the flags over the configuration, and the loop that reads the
--                       input.
--   Commands/Settings   cmd/root.go: initConfig.
--   Commands/Start      What check, run, daemon and server open before they work.
--   Commands/Scan       cmd/check.go: the results of a scan up to the end of the command (Defs), and
--                       what the table has counted (Counted, Delivery) and the files hold (Files)
--                       at the end.
--   Samples, */Tests    Values for tests, tests, and the theorems at concrete inputs.
--
-- How the code is modelled. A time is the number of nanoseconds since the epoch, 0 the zero time,
-- and the clock is an argument. An int that can be negative is an integer without a bound; a uint32
-- is reduced by 2 ^ 32. A lock or an atomic is one step: goroutines interleave as a list of events
-- or, in the pool, as a step relation in which any ready case of a select may be taken.
-- An error is a value: a constructor for each place where the code makes one. No loop needs fuel
-- except the printing of a number and the reading of an IPv6 address, whose fuel is the number
-- itself and the 9 groups that fill more than 16 bytes.
--
-- What other packages do is a parameter: float64 arithmetic (Base/Float), the formats of JSON, CSV
-- and times (Storage/Exporter), encoding/json (Protocol/Judge/Defs), net/http, crypto/tls and
-- net/url (Protocol/Tunnel/Defs, Pipeline/Jobs/Defs), dialling and contexts (Protocol/Detect/Defs),
-- the databases and services of locations (GeoIp/Defs, GeoIp/Batch, GeoIp/Database), and files,
-- YAML and paths (Commands/Settings).
-- SQL statements are modelled by what SQLite documents of them.
--
-- Not modelled: what only connects or prints: the connections of the servers and their shutdown,
-- signals and the messages of the commands, the registration of flags by cobra, the
-- banner, and main.go; MarshalJSON of a proxy and a duration, which encoding/json formats; and the
-- timers of the batch worker of pkg/geoip and the dialling functions of pkg/protocol, which only wait
-- for the network.
pub mod Base
pub mod Checker
pub mod Commands
pub mod Daemon
pub mod GeoIp
pub mod Judge
pub mod Model
pub mod Net
pub mod Pipeline
pub mod Protocol
pub mod Samples
pub mod Server
pub mod Storage
