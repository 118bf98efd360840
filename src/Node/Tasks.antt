-- ===== src/Node/Tasks.antt =====
-- The bodies of the tasks' loops. Several tasks run at once, so a step of the program is a step of one
-- of them; a task that waits for a channel is two steps. A channel holds 1000 chunks. `none` is a
-- panic. What a task does between two waits for a channel is one step, as the objects that it locks
-- in it are apart; the statistics task is a step for each lock on the statistics, for each link, for
-- the rate controller, for the scheduler and for the metrics.
use chainlightning.Base.{
  ℕ, ◌/◌, ◌%◌, ◌^◌, ◌+◌, ◌==◌, List, [], ◌∷◌, ◌++◌, Option, none, some, Bool, true, false, ◌&&◌,
  ltb, if◌then◌else◌, length, take, suc, zero, sub64, ◌>>=◌,
}
use chainlightning.Floats.{Floats}
use chainlightning.Links.{num_links}
use chainlightning.Aggregator.Chunk.{Chunk, new_chunk, size, extract_packets}
use chainlightning.Aggregator.Ops.{add_packet, check_timeout, update_link_stats}
use chainlightning.Classifier.{classify}
use chainlightning.Metrics.State.{MetricsCollector}
use chainlightning.Metrics.Counters.{
  record_packet_tx, record_packet_rx, record_chunk_tx, record_chunk_rx,
}
use chainlightning.Metrics.Snapshot.{snapshot}
use chainlightning.Node.State.{
  Node, Peer, reaches, learn, Phase, waits, ticked, weighing, measuring, pushing, sending_weights,
}
use chainlightning.RateController.Ops as Rates
use chainlightning.Receiver.Buffer.{handle_announcement}
use chainlightning.Scheduler.Select.{schedule}
use chainlightning.Scheduler.Weights.{update_link, set_rate_controlled_weights}
use chainlightning.Stats.Collector
use chainlightning.Wire.Ack as Ack
use chainlightning.Wire.Ack.{AckPacket}
use chainlightning.Wire.Chunk as Wire
use chainlightning.Wire.Chunk.{ChunkPacket}
use chainlightning.Wire.Flow.{from_packet}
use chainlightning.Wire.Keepalive as Keepalive
use chainlightning.Wire.Packet
use chainlightning.Wire.Packet.{Packet, data_chunk, announce, ack, stats, keepalive, probe}
use chainlightning.Wire.Probe as Probe
use chainlightning.Wire.Probe.{ProbePacket}
use chainlightning.Wire.Stats.{SerdeJson}

abbrev pub channel_size : ℕ
channel_size = 1000

-- The datagram of a chunk on a link: `as u8` and `as u32` keep the lowest bits.
unfoldable pub chunk_packet : (link_id : ℕ) → Chunk → ChunkPacket
unfolding size
chunk_packet link_id chunk = record {
  chunk_id = chunk.id;
  link_id = link_id % 2 ^ 8;
  total_size = size chunk % 2 ^ 32;
  offset = 0;
  payload = chunk.data_bytes;
}

-- The answer to a chunk: it echoes no time.
unfoldable pub ack_packet : (link_id chunk_id now_us : ℕ) → AckPacket
ack_packet link_id chunk_id now_us = record {
  chunk_id = chunk_id;
  link_id = link_id % 2 ^ 8;
  echo_timestamp_us = 0;
  recv_timestamp_us = now_us;
}

-- The chunk that the link receiver makes of a datagram at the time `now`.
unfoldable pub received_chunk : ChunkPacket → (now : ℕ) → Chunk
received_chunk p now = record (new_chunk p.chunk_id now) { data_bytes = p.payload }

abbrev pub hold : (link_id : ℕ) → Option Chunk → (ℕ → Option Chunk) → ℕ → Option Chunk
hold link_id c held i = if i == link_id then c else held i

module _ (fl : Floats) where
  open fl use {F64}

  abbrev pub count_packet_tx : ℕ → Node F64 → Node F64
  count_packet_tx bytes n = record n {
    metrics = record (n.metrics) { counters = record_packet_tx bytes n.metrics.counters };
  }

  -- The TUN reader with what the aggregator returned. Without a chunk it is done with the packet.
  abbrev pub after_read : Option Chunk → (bytes : ℕ) → Node F64 → Node F64
  after_read none bytes n = count_packet_tx bytes n
  after_read (some c) bytes n = record n { reader_chunk = some (c, bytes) }

  -- The TUN reader reads a packet; its buffer has 2000 bytes.
  unfoldable pub read_tun : List ℕ → (now : ℕ) → Node F64 → Node F64
  read_tun bytes now n =
      let packet = take 2000 bytes in
      let (chunk, aggregator) = add_packet n.aggregator packet (from_packet packet) now in
      after_read chunk (length packet)
        (record n { classifier = (classify fl packet now n.classifier).1; aggregator = aggregator })

  -- The chunk of the TUN reader goes into the channel.
  abbrev pub send_read : Chunk → (bytes : ℕ) → Node F64 → Node F64
  send_read c bytes n =
      count_packet_tx bytes (record n { reader_chunk = none; to_links = n.to_links ++ c ∷ [] })

  -- The timeout checker's tick, and its send.
  unfoldable pub poll_timeout : (now : ℕ) → Node F64 → Node F64
  poll_timeout now n =
      let (chunk, aggregator) = check_timeout n.aggregator now in
      record n { aggregator = aggregator; checker_chunk = chunk }

  abbrev pub send_polled : Chunk → Node F64 → Node F64
  send_polled c n = record n { checker_chunk = none; to_links = n.to_links ++ c ∷ [] }

  -- The chunk sender takes a chunk from the channel; `accepted` is the socket's answer.
  unfoldable pub send_chunk :
      Chunk → List Chunk → (accepted : Bool) → (now : ℕ) → Node F64 → Node F64
  send_chunk c rest accepted now n =
      let (decision, scheduler) = schedule n.scheduler (size c) false in
      let link_id = decision.link_id in
      let bytes = Wire.encode (chunk_packet link_id c) in
      let m = record n { scheduler = scheduler; to_links = rest; taken = n.taken ++ c ∷ [] } in
      if reaches n.peer link_id && accepted
      then record m {
        transmitted = n.transmitted ++ (link_id, bytes) ∷ [];
        stats = Collector.record_tx link_id (length bytes) now n.stats;
        metrics = record (n.metrics) { counters = record_chunk_tx (size c) n.metrics.counters };
        rates = Rates.record_tx link_id (length bytes) n.rates;
      }
      else m

  module _ (j : SerdeJson) where
    -- What the link receiver does with a packet of `bytes` bytes. It has the chunk of a datagram in its
    -- hands then.
    unfoldable pub handle_packet :
        (link_id bytes now now_us : ℕ) → Packet j.F32 → Node F64 → Option (Node F64)
    handle_packet link_id bytes now now_us (data_chunk p) n = some (record n {
      stats = Collector.record_rx link_id bytes now n.stats;
      metrics = record (n.metrics) {
        counters = record_chunk_rx (length p.payload) n.metrics.counters;
      };
      rates = Rates.record_rx link_id bytes n.rates;
      held = hold link_id (some (received_chunk p now)) n.held;
    })
    handle_packet link_id bytes now now_us (announce p) n =
        some (record n { receiver = handle_announcement p now n.receiver })
    handle_packet link_id bytes now now_us (ack p) n =
        if ltb 0 p.echo_timestamp_us && ltb p.echo_timestamp_us now_us
        then some (record n {
          stats = Collector.record_rtt fl link_id (sub64 now_us p.echo_timestamp_us) n.stats;
        })
        else some n
    handle_packet link_id bytes now now_us (stats p) n = some n
    handle_packet link_id bytes now now_us (keepalive p) n = some n
    handle_packet link_id bytes now now_us (probe p) n = do
      rates ← Rates.process_probe fl p now_us now n.rates
      some (record n { rates = rates })

    -- A datagram arrives on a link, from an address; the buffer has 65536 bytes.
    unfoldable pub receive :
        (link_id addr : ℕ) → List ℕ → (now now_us : ℕ) → Node F64 → Option (Node F64)
    receive link_id addr datagram now now_us n =
        let bytes = take 65_536 datagram in
        let m = record n { peer = learn link_id addr n.peer } in
        elim (Packet.decode j bytes) [
          | none ↦ some m
          | some p ↦ handle_packet link_id (length bytes) now now_us p m
        ]

  -- The chunk of a link receiver goes into the channel, and an ACK back.
  abbrev pub send_received : (link_id now_us : ℕ) → Chunk → Node F64 → Node F64
  send_received link_id now_us c n = record n {
    held = hold link_id none n.held;
    from_links = n.from_links ++ c ∷ [];
    control = n.control ++ (link_id, Ack.encode (ack_packet link_id c.id now_us)) ∷ [];
  }

  -- The TUN writer writes the packets of a chunk.
  abbrev pub count_written : List (List ℕ) → MetricsCollector F64 → MetricsCollector F64
  count_written [] m = m
  count_written (p ∷ ps) m =
      count_written ps (record m { counters = record_packet_rx (length p) m.counters })

  unfoldable pub write_tun : Chunk → List Chunk → Node F64 → Option (Node F64)
  write_tun c rest n = do
    packets ← extract_packets c
    some (record n {
      from_links = rest;
      written = n.written ++ packets;
      metrics = count_written packets n.metrics;
    })

  -- A turn of the loop over the links of the statistics task: the first bandwidth and RTT are those of
  -- link `i`.
  unfoldable pub push_stats : (now i : ℕ) → List ℕ → List ℕ → Node F64 → Node F64
  push_stats now i (bw ∷ bws) (rtt ∷ rtts) n = record n {
    scheduler = update_link fl i bw rtt true now n.scheduler;
    aggregator = update_link_stats fl n.aggregator i bw (rtt / 1000 % 2 ^ 32);
    phase = pushing (i + 1) bws rtts;
  }
  push_stats now i _ _ n = record n { phase = weighing }

  abbrev pub check_rates : (now : ℕ) → Node F64 → Node F64
  check_rates now n =
      let rates = Rates.check_timeouts now n.rates in
      record n { rates = rates; phase = sending_weights (Rates.weights rates) }

  abbrev pub push_weights : List ℕ → Node F64 → Node F64
  push_weights weights n = record n {
    scheduler = set_rate_controlled_weights weights n.scheduler;
    phase = measuring;
  }

  -- A step of the statistics task; `timestamp` and `memory` are what the system reports.
  unfoldable pub update_stats : Phase → (now timestamp memory : ℕ) → Node F64 → Option (Node F64)
  update_stats waits now timestamp memory n =
      some (record n { stats = Collector.tick fl now n.stats; phase = ticked })
  update_stats ticked now timestamp memory n =
      some (record n { phase = pushing 0 (Collector.bandwidths n.stats) (Collector.rtts n.stats) })
  update_stats (pushing i bws rtts) now timestamp memory n = some (push_stats now i bws rtts n)
  update_stats weighing now timestamp memory n =
      some (if Rates.enabled n.rates then check_rates now n else record n { phase = measuring })
  update_stats (sending_weights weights) now timestamp memory n = some (push_weights weights n)
  update_stats measuring now timestamp memory n = do
    (metrics, collector) ← snapshot fl n.metrics now timestamp memory
    some (record n { metrics = collector; phase = waits })

  -- The datagrams of the probes whose links have a place to send to.
  abbrev pub probe_datagrams : Peer → List ProbePacket → List (ℕ × List ℕ)
  probe_datagrams peer [] = []
  probe_datagrams peer (p ∷ ps) =
      let rest = probe_datagrams peer ps in
      if reaches peer p.link_id then (p.link_id, Probe.encode p) ∷ rest else rest

  unfoldable pub send_probes : (now_us : ℕ) → Node F64 → Node F64
  send_probes now_us n =
      let (probes, rates) = Rates.build_probes now_us n.rates in
      record n { rates = rates; control = n.control ++ probe_datagrams n.peer probes }

  -- The client's keepalives on links `i` to `i + k - 1`.
  abbrev pub keepalives : (now_us k i : ℕ) → List (ℕ × List ℕ)
  keepalives now_us zero i = []
  keepalives now_us (suc k) i =
      (i, Keepalive.encode (record { link_id = i % 2 ^ 8; timestamp_us = now_us }))
      ∷ keepalives now_us k (i + 1)

  unfoldable pub send_keepalives : (now_us : ℕ) → Node F64 → Node F64
  send_keepalives now_us n = record n { control = n.control ++ keepalives now_us num_links 0 }
