-- ===== src/Lib.antt =====
-- maping: a verification of the client's metric pipeline, of the guards of the server's ingest
-- path, and of the dashboard's verdicts.
--
-- A host's middleware hands each request to the recorder (client/maping.go), which folds it into the
-- series of its method, route and status class, in one of sixteen shards (client/series.go). A series
-- keeps counters, bounded breakdowns, a few exemplars and a latency sketch (client/sketch/ddsketch.go).
-- At the end of each window the uploader (client/uploader.go) swaps the shards' series out, builds a
-- request of their summaries and pushes it on a ring (client/internal/buffer/buffer.go), which drops
-- its oldest request when full; a retry timer drains the ring to the collector with backoff. On the
-- server an ingest key (proto/token/token.go) is resolved to a tenant through a cache
-- (server/internal/control/resolver.go), a guard caps the series of each tenant
-- (server/internal/guardrail/cardinality.go), and the ingest handler (server/internal/ingest/handler.go)
-- stores the summaries that pass, through a writer that batches rows
-- (server/internal/storage/writer.go). The dashboard grades an endpoint from what storage answers
-- (server/internal/web/verdict.go, memory.go) and ranks the causes of an anomaly (diagnosis.go).
--
-- The files, and the code that they are about:
--   Base         shared: Boolean tests, lists, association lists for Go's maps (Base/Assoc), integers
--                (Base/Int), 64-bit words that wrap (Base/Word), strings as bytes (Base/Bytes),
--                package sort (Base/Sort), package strings (Base/Text)
--   Float        float64 and package math, as a record of operations without laws
--   Sketch       client/sketch/ddsketch.go: New, Add (observe), Merge, Quantile (quantile, walk),
--                Buckets (to_buckets), FromBuckets, QuantileFromBuckets; Sketch/Domain has the laws of
--                math that the code relies on, as hypotheses
--   Ring         client/internal/buffer/buffer.go: New, Push, Peek, PopOldest, Len; Ring/View and
--                Ring/Refinement relate it to a bounded queue
--   Uploader     client/uploader.go: run is `step` on a `Loop` and an `Event`, flush, tryDrainOldest,
--                sendStamped, nextBackoff, Shutdown; ringCapacity and the delays of client/maping.go
--   Label        client/series.go: sanitizeErrorClass, asciiUpperAlnum
--   Series       client/series.go: series, exemplar, classify, recordErrorClass, recordNoStatusReason,
--                observeExemplar, exemplars, seriesKey.hash; recordCode and the body of Observe on one
--                series, of client/maping.go
--   Recorder     Observe of client/maping.go; swapShards, buildRequest, flush of client/uploader.go
--   Cardinality  server/internal/guardrail/cardinality.go: Allow, Frozen, evictStale, SeriesKey
--   Token        proto/token/token.go: Encode, Decode, decodeStructured
--   Cache        server/internal/control/resolver.go: Resolve, getFresh, store, logDBError; Limits of
--                server/internal/guardrail/limitcache.go
--   Ingest       server/internal/ingest/handler.go: Upload, authenticate, storeSummaries, storeSummary,
--                payloadWithinLimit; applyTimestampPolicy and summaryToRow of convert.go beside it;
--                Ingest/Windows: storeInstanceWindows, Register
--   Writer       server/internal/storage/writer.go: Enqueue, run, drain, flushBatch, finalFlushBatch
--   Columns      server/internal/storage/row.go: sortedByKey, sortedNoStatusReasons, sketchMap and its like
--   Format       server/internal/web/chrome_format.go: fmtRate, fmtPctD, fmtMsFull, fmtBytes and so on;
--                Go's strconv is the parameter Strconv
--   Stats        the records that server/internal/storage answers to the dashboard
--   Verdict      server/internal/web/verdict.go: computeVerdict, the severities, problemSentence
--   Memory       server/internal/web/memory.go: computeMemoryVerdict and its verdicts
--   Panels       server/internal/web/view_detail.go: toDetailView, toInstanceRows, dominantVersion,
--                toDownstreamView, toResourceRows and so on
--   Causes       server/internal/web/diagnosis_causes.go, and aggregateFleet of diagnosis.go beside it
--   Diagnosis    server/internal/web/diagnosis.go: computeDiagnosis, confidenceLabel, diagnosisScope
--   Config       client/config.go: resolveConfig, resolveEndpoint, validOrigin, originIsTrusted and so on
--   Session      server/internal/auth/session.go: encode, decode, newSigner
--   Gauge        client/maping.go: BeginRequest and takeInFlightPeak, step by step
--   Adapter      client/adapterutil: ParseTraceparent, ReclassifyNoStatus, ClampNonNegative, and
--                ResponseWriter
--   Csrf         server/internal/web/csrf.go: issue, verify
--
-- State and panics. A struct is a record, a pointer that may be nil an Option, a map an association
-- list. Stateful methods take the state and return it. An index out of range is none. Words wrap:
-- uint64 counters are kept below 2^64 and each sum is taken modulo 2^64. A shard's operations hold its
-- lock from start to end, and the uploader's state has one owner, so an interleaving of them is an
-- order of calls. Where the code interleaves more finely so does the model: Gauge has a step for each
-- atomic operation, and Writer one for each select of Enqueue and each round of the batcher.
--
-- Parameters. float64 and math are Float, the conversion of a duration to seconds is an argument, the
-- collector's answers are in the events of the uploader, base64 is Token.Base64, the hash of a secret
-- and the database's answers are arguments of the resolver. The sink's refusals, strings.TrimSpace and
-- what a tenant's limits are come to the ingest handler as arguments, and to the writer whether an
-- insert succeeds. The process of the client is Config.Process, with net/url and its environment; the MAC
-- and strconv are parameters of the session's cookie. Each reading of a clock is an argument.
--
-- Bounds and fuel. Loops over arrays, maps and texts are recursion on lists. The loop of
-- QuantileFromBuckets has as many rounds as the domain has indices, which is its own bound. Shutdown's
-- loop runs over the answers that the collector gives until the context expires. Nothing else needs
-- fuel.
--
-- Not modelled: the framework adapters, the sampler, the transport and the generated wire code of the
-- client; of the server the rate limiter, the queries, the login, the dashboard's pages and the
-- assembly, which are SQL, HTML, wiring or calls of third-party packages. Logging is left out where it
-- changes no state that is modelled.
pub mod Base
pub mod Float
pub mod Sketch
pub mod Ring
pub mod Uploader
pub mod Label
pub mod Series
pub mod Recorder
pub mod Cardinality
pub mod Token
pub mod Cache
pub mod Ingest
pub mod Writer
pub mod Columns
pub mod Format
pub mod Stats
pub mod Verdict
pub mod Memory
pub mod Panels
pub mod Causes
pub mod Diagnosis
pub mod Config
pub mod Session
pub mod Gauge
pub mod Adapter
pub mod Csrf
