-- ===== src/Lib.antt =====
-- GPUViz: telemetry of NCCL. A plugin reports operations on connections; the library collects them in
-- histograms, adds them up by NIC, and writes or uploads the statistics.
--
-- The parts, and the files that model them. Paths are from the root of the repository.
--   Base, Double    numbers, lists, faults, and the type of doubles
--   Stats           src/nccl_stats.h: the types that a plugin passes
--   Params          src/params.cc: Params/Settings has the settings that are whole numbers or flags,
--                   Params/Buckets the parameters of the histograms
--   Bucketer        src/distribution_bucketer.cc: DistributionBucketer, an exponential histogram
--   Connection      src/nccl_stats_aggregator.cc: NcclStatsConnectionStatistics, one connection.
--                   Connection/Identifier and Setup are its constructors, Connection/Notify is
--                   notifyOperationMeasurement with updateBwAndLatencyStats, Connection/Interval what
--                   the reporter thread does at the end of an interval: the swap of the double buffer
--                   (Interval/Swap), the aggregation into a NIC and a histogram (Interval/Sums) and the
--                   two calls of it for a connection (Interval/Directions). Connection/Report is
--                   readStatsFromLastInterval, the double buffer of histograms, and
--                   Connection/Message the message that a connection's histograms become
--   Message         src/proto/nccl_telemetry_proto.proto: the messages, as records
--   Aggregator      src/nccl_stats_aggregator.cc: NcclStatsAggregator, with the map of connections.
--                   Aggregator/Nic is what it keeps for a NIC and calculateAndUpdateHistogram,
--                   Aggregator/Queues the log entries and events, Aggregator/Telemetry readTelemetry,
--                   Aggregator/Interval processHighFrequencyTelemetry, and Aggregator/Calls all calls
--                   that an aggregator sees in its life, as steps
--   MsecBandwidth   src/millisecond_bandwidth_output.cc: the bandwidth by the millisecond, in batches
--   Utils           src/utils.cc: the filter of the histograms that are uploaded
--   Reporter        src/nccl_stats_reporter.cc: NcclStatsReporter. Reporter/Mode is what it decides from the
--                   settings, Reporter/Schedule its callbacks, Reporter/Reports what becomes of telemetry
--   Container       src/nccl_stats_container.cc: the object that all callers share, and its count. Its
--                   calls of the aggregator and the reporter are an interface
--   Executor        src/nccl_stats_uploader_executor.cc: the split of a message into chunks, whose
--                   entries go where the pointer of their field points to (Executor/Split), and in
--                   Executor/Loop the queue between the reporter and the upload thread
--   Uploader        src/nccl_uploader.cc: NcclUploader, its client, retries and waits
--   AcsClient       src/client.cc: AcsAgentClientWrapper, the client, with what the server configures
--
-- How they interact: a plugin's call of notifyOperationMeasurement submits to the bucketers of its
-- connection and records bytes in the half of the double buffer that is written. At the end of an
-- interval the reporter has the aggregator swap the halves of every connection, add up the one that is
-- read by NIC, and smooth the bytes of each NIC into its histograms. At the end of a read interval it has
-- the aggregator turn all histograms into a message, which it writes to a file and puts into the
-- executor's queue, whose thread hands it to the uploader. The reporter sees the aggregator only through
-- TelemetryProvider, which is a record of functions. The container makes both and counts its callers.
--
-- How the code is modelled. A function or method has the name of the source in snake_case. A handler is
-- a function from the state, and what the outside answers, to the new state. An access past the end of a
-- vector or through a null pointer is the fault `none` of an option; absl::Status and StatusOr are data
-- types. A uint64_t is a number with its wrap-around written out (add_u64, sub_u64), an int64_t read from
-- one is an integer (Base/Int). A loop over indices is `for_range`, by recursion on the number of rounds,
-- which the code's bounds give; no loop needs other fuel. Doubles are a type with operations as a
-- parameter (DoubleOps), since their arithmetic and <cmath> are not code of the repository; a theorem that
-- needs an order says so. The one access that is no fault is that of Submit to the buckets of a histogram,
-- which does nothing past their end, and a double that is too large for a number of buckets gives some
-- number: Bucketer/Counts has the condition under which the access is in bounds. Locks make a handler atomic. The upload thread, the reporter and a shutdown
-- interleave as the steps of a relation (Executor/Loop/Delivery), whose uploader answers anything; so do
-- the calls of a plugin and of the reporter on an aggregator (Aggregator/Calls/Safety).
--
-- Not modelled: the library of the agent's client, which is the interface AcsAgent; the log sink and the
-- exported C functions, which pass calls on; the threads' loops and waits, but for the upload thread; the
-- log function, the text of log entries, the names and bytes of files, clocks and the generated protobuf
-- code; the destructors, the delay of an uploader's first client, and the debug assertions of the
-- container.
mod Base
pub mod Double
pub mod Message
pub mod Utils
pub mod MsecBandwidth
pub mod Aggregator
pub mod Reporter
pub mod Container
pub mod AcsClient
pub mod Stats
pub mod Bucketer
pub mod Params
pub mod Connection
pub mod Executor
pub mod Uploader
