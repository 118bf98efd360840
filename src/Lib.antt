-- ===== src/Lib.antt =====
-- chainlightning: a multi-link tunnel, from the packets that one side reads to those that the other writes.
--
-- Packets read from the TUN device are gathered into chunks (core/src/chunk_aggregator.rs), a scheduler
-- picks a link and a delay for each chunk (core/src/link_scheduler.rs), the chunk travels as a datagram
-- (common/src/protocol.rs), and the other side takes it apart again. A reassembly buffer
-- (core/src/receiver.rs) can bring chunks into order. Probes on each link drive a rate controller
-- (core/src/rate_controller.rs), whose weights go back into the scheduler; statistics per link
-- (core/src/stats.rs) go into scheduler and aggregator, and a metrics collector (common/src/metrics.rs)
-- counts. client/src/main.rs and server/src/main.rs run all this as tasks side by side.
--
-- Base: native numbers, lists over them, Boolean tests, machine words with their wrap-around, bytes.
-- Clock: Instant and Duration in nanoseconds. An operation that reads the clock takes the time as an
--   argument, one time for a whole call.
-- Floats: what the code does with f64, as an interface; theorems hold for every behaviour of it, or for
--   those that a named hypothesis allows. The instance `millionths` lets the model run.
-- Links: the table of links of common/src/lib.rs.
-- Wire: the six messages of common/src/protocol.rs and their dispatch (Wire/Packet), and FlowId
--   (Wire/Flow). serde_json is the interface SerdeJson of Wire/Stats.
-- Aggregator: Chunk with its packets (Aggregator/Chunk) and ChunkAggregator (Aggregator/Ops), with
--   the theorems on any history of requests below it.
-- Classifier: FlowClassifier, which flows use one link and which all (core/src/flow_classifier.rs), with
--   the theorems on the change of mode in Classifier/Modes and Classifier/Sustained.
-- Scheduler: LinkState and LinkScheduler (Scheduler/State), the weights and measurements
--   (Scheduler/Weights), schedule and what it calls (Scheduler/Select), schedule_tiered_fill, which
--   nothing calls (Scheduler/Tiers), and histories (Scheduler/History).
-- Receiver: BufferSlot and the ordered map of slots (Receiver/Slots), ReassemblyBuffer and
--   ChunkReceiver (Receiver/Buffer). BTreeMap is a list in the order of its keys, HashMap a function.
-- RateController: RateState (RateController/State), process_probe part by part (RateController/Probe),
--   RateController over all links (RateController/Ops). A panic of u64::clamp is `none`.
-- Config: the configuration of common/src/config.rs and its validation (Config/State), parameters by
--   path (Config/Params), the default (Config/Defaults), and ConfigManager (Config/Manager). What the
--   file system answers is an argument; serde_yaml is the interface Yaml. The watch channel is the
--   list of the configurations sent, the newest first. ConfigManager::update is one step, without
--   another thread between the write and the send.
-- Metrics: counters and snapshots (Metrics/State), the recording operations (Metrics/Counters),
--   snapshot with percentiles and jitter (Metrics/Snapshot), histories of a collector (Metrics/Trace),
--   and the summary (Metrics/Summary). A panic on an index is `none`.
-- Stats: LinkStats (Stats/Link) and StatsCollector (Stats/Collector).
-- Node: one program, client or server: its components and channels (Node/State), the bodies of its
--   tasks (Node/Tasks), and the steps by which the tasks interleave (Node/Steps). An event says which
--   task moves, and what the outside answers. A task that waits for a channel is two steps, and a
--   channel holds 1000 chunks. The statistics task is a step for the tick, for reading the
--   statistics, for each link (its two locks are on objects that do not meet), for the rate
--   controller, for its weights and for the metrics. The client differs from the server in `Peer`: its sockets are
--   connected, while the server learns addresses from the datagrams it gets.
--
-- Operations have the names of the source; a method that changes `self` takes the state and returns the
-- new one, with its result in front where it has one. The methods of LinkStats that StatsCollector has
-- too begin with link_; ConfigManager::set_parameter and save are set_managed and save_managed.
-- Arithmetic on u64, u32, u16 and u8 wraps where the source's release build wraps, and saturates where
-- the source says so. Loops are recursion on the list that they walk; `Chunk::extract_packets` runs on
-- fuel, one more than the bytes of the chunk, which is enough since each round moves on by two bytes at
-- least.
--
-- Not modelled: the counts of FlowClassifier::stats, get_resource_usage, the TUN device, setting up
-- sockets and tasks, and the testing framework. Logging and status texts have no effect on the state
-- and are left out.
pub mod Base
pub mod Wire
pub mod Classifier
pub mod Clock
pub mod Config
pub mod Floats
pub mod Links
pub mod Metrics
pub mod Node
pub mod Aggregator
pub mod RateController
pub mod Receiver
pub mod Scheduler
pub mod Stats
