-- ===== src/Node/State.antt =====
-- What the tasks of one program share: the components, the channels between the tasks, and what went
-- out. The client's sockets are connected to the server; the server learns where each link's client is.
use chainlightning.Base.{
  ℕ, List, [], Option, none, some, Bool, true, false, ltb, map, get_or, modify, replicate, is_some,
  ◌&&◌,
}
use chainlightning.Floats.{Floats}
use chainlightning.Links.{LinkInfo, links, num_links}
use chainlightning.Config.State.{Config}
use chainlightning.Aggregator.Chunk.{Chunk}
use chainlightning.Aggregator.Ops
use chainlightning.Aggregator.Ops.{ChunkAggregator}
use chainlightning.Classifier
use chainlightning.Classifier.{FlowClassifier}
use chainlightning.Metrics.State.{MetricsCollector, new_collector}
use chainlightning.RateController.Ops as Rates
use chainlightning.RateController.Ops.{RateController}
use chainlightning.Receiver.Buffer
use chainlightning.Receiver.Buffer.{ChunkReceiver}
use chainlightning.Scheduler.State
use chainlightning.Scheduler.State.{LinkScheduler}
use chainlightning.Stats.Collector
use chainlightning.Stats.Collector.{StatsCollector}

-- Where datagrams go: the client's sockets are connected; the server has an address for each link
-- from which it heard, as a number.
pub data Peer : Type 0 where
  connected : Peer
  learned : (addrs : List (Option ℕ)) → Peer

-- There is a socket for the link, and a place to send to.
unfoldable pub reaches : Peer → (link_id : ℕ) → Bool
reaches connected link_id = ltb link_id num_links
reaches (learned addrs) link_id = ltb link_id num_links && is_some (get_or addrs link_id none)

-- The server keeps the address from which a datagram came.
unfoldable pub learn : (link_id addr : ℕ) → Peer → Peer
learn link_id addr connected = connected
learn link_id addr (learned addrs) = learned (modify (λ _. some addr) addrs link_id)

-- Where the statistics task is between two of the locks that it takes in a second.
pub data Phase : Type 0 where
  waits ticked weighing measuring : Phase
  pushing : (i : ℕ) (bandwidths rtts : List ℕ) → Phase
  sending_weights : (weights : List ℕ) → Phase

pub record Node (F : Type 0) : Type 0 where
  pub classifier : FlowClassifier F
  pub aggregator : ChunkAggregator F
  pub scheduler : LinkScheduler F
  pub stats : StatsCollector F
  pub metrics : MetricsCollector F
  pub rates : RateController F
  pub receiver : ChunkReceiver
  pub peer : Peer
  -- A chunk that the TUN reader has and did not send yet, with the size of the packet it read.
  pub reader_chunk : Option (Chunk × ℕ)
  -- A chunk that the timeout checker has and did not send yet.
  pub checker_chunk : Option Chunk
  -- The chunk that the receiver of a link has and did not send yet.
  pub held : ℕ → Option Chunk
  -- Where the statistics task is.
  pub phase : Phase
  -- The channels, the oldest chunk first.
  pub to_links : List Chunk
  pub from_links : List Chunk
  -- What the chunk sender has taken so far, the datagrams that carried it with their links, the
  -- other datagrams, and what was written to the TUN device.
  pub taken : List Chunk
  pub transmitted : List (ℕ × List ℕ)
  pub control : List (ℕ × List ℕ)
  pub written : List (List ℕ)

module _ (fl : Floats) where
  open fl use {F64}

  abbrev pub expected_bandwidth : (is_upload : Bool) → LinkInfo → ℕ
  expected_bandwidth true l = l.expected_bandwidth_up
  expected_bandwidth false l = l.expected_bandwidth_down

  -- What `main` sets up at the time `now`; the client sends uploads, the server downloads.
  unfoldable pub new_node : Config F64 → (is_upload : Bool) → Peer → (now : ℕ) → Node F64
  new_node config is_upload peer now =
      let bandwidths = map (expected_bandwidth is_upload) links in
      record {
        classifier = Classifier.new config.flow_classifier bandwidths;
        aggregator = Ops.new config.chunk_aggregator num_links now;
        scheduler = State.new config.link_scheduler bandwidths is_upload now;
        stats =
            Collector.new fl num_links config.stats.ewma_alpha config.stats.bandwidth_window_ms now;
        metrics = new_collector now;
        rates = Rates.new fl config.rate_control bandwidths now;
        receiver = record { announcement_link = λ _. none; buffer = Buffer.new config.receiver };
        peer = peer;
        reader_chunk = none;
        checker_chunk = none;
        held = λ link_id. none;
        phase = waits;
        to_links = [];
        from_links = [];
        taken = [];
        transmitted = [];
        control = [];
        written = [];
      }

  -- `vec![None; NUM_LINKS]`.
  abbrev pub no_addresses : Peer
  no_addresses = learned (replicate num_links none)
